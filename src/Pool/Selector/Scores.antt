-- ===== src/Pool/Selector/Scores.antt =====
-- The three orders on scores are transitive, the weighted one as long as no product overflows.
use kirocc_prox.Base.{
  ℕ, ◌*◌, ◌^◌, ◌≤◌, ◌<◌, ◌≡◌, Bool, true, false, arith, wrap64_small, ap, ltb, ◌==◌, if◌then◌else◌,
  not,
}
use kirocc_prox.Pool.Selector.{LoadScore, less, less_load, less_success}

-- A total order with `lt` as its strict part, on the scores that satisfy `Valid`.
pub record IsStrict {S : Type 0} (Valid : S → Type 0) (lt : S → S → Bool) : Type 0 where
  pub irrefl : (a : S) → Valid a → lt a a ≡ false
  pub trans :
      (a b c : S) → Valid a → Valid b → Valid c → lt a b ≡ true → lt b c ≡ true → lt a c ≡ true

pub less_success-IsStrict : IsStrict (λ n. Unit {0}) less_success
unfolding less_success
less_success-IsStrict = record {
  irrefl = λ a v. ground arith;
  trans = λ a b c u v w h k. ground arith;
}

pub less_load-IsStrict : IsStrict (λ n. Unit {0}) less_load
unfolding less_load
less_load-IsStrict = record {
  irrefl = λ (n, s) v. ground arith;
  trans = λ (a, s) (b, t) (c, u) p q r h k. ground arith;
}

-- No overflow in the products, and no division by zero in the ratios that they compare.
pub record IsSmall (s : LoadScore) : Type 0 where
  pub few : s.in_flight < 2 ^ 31
  pub positive : 0 < s.capacity
  pub small : s.capacity < 2 ^ 31

mul-lt : (a b m n : ℕ) → a < m → b < n → a * b < m * n
mul-lt a b m n h k = grind arith

product_small : (s t : LoadScore) → IsSmall s → IsSmall t → s.in_flight * t.capacity < 2 ^ 63
product_small s t v w = omega (arith, mul-lt s.in_flight t.capacity (2 ^ 31) (2 ^ 31) v.few w.small)

-- The comparison on unbounded numbers.
ratio_less : ℕ → ℕ → ℕ → ℕ → ℕ → ℕ → Bool
ratio_less a ca sa b cb sb =
    if not ((a * cb) == (b * ca))
    then ltb (a * cb) (b * ca)
    else if not (a == b)
    then ltb a b
    else ltb sa sb

less-ratio_less :
    (s t : LoadScore)
    → IsSmall s
    → IsSmall t
    → less s t ≡ ratio_less s.in_flight s.capacity s.success t.in_flight t.capacity t.success
unfolding less ratio_less
less-ratio_less s t v w =
    rw (wrap64_small _ (product_small s t v w), wrap64_small _ (product_small t s w v))
      (ground arith)

-- A score that is not below another has the higher load, as a ratio to its capacity.
pub ratio-le_of_less :
    (s t : LoadScore)
    → IsSmall s
    → IsSmall t
    → less s t ≡ false
    → t.in_flight * s.capacity ≤ s.in_flight * t.capacity
unfolding ratio_less
ratio-le_of_less s t v w h = ground (arith, less-ratio_less s t v w)

-- Cross-multiplied ratios: x < y at a positive common factor.
cancel_lt : (k x y : ℕ) → k * x < k * y → x < y
cancel_lt k x y h = grind arith

mul_mono_lt : (k x y : ℕ) → 0 < k → x < y → k * x < k * y
mul_mono_lt k x y p h = grind arith

cancel_eq : (k x y : ℕ) → 0 < k → k * x ≡ k * y → x ≡ y
cancel_eq k x y p h = grind arith

ratio_lt_lt :
    (a ca b cb c cc : ℕ)
    → 0 < ca
    → 0 < cb
    → 0 < cc
    → a * cb < b * ca
    → b * cc < c * cb
    → a * cc < c * ca
ratio_lt_lt a ca b cb c cc p q r h k =
    cancel_lt cb (a * cc) (c * ca)
      (omega (arith, mul_mono_lt cc (a * cb) (b * ca) r h, mul_mono_lt ca (b * cc) (c * cb) p k))

ratio_eq_lt :
    (a ca b cb c cc : ℕ)
    → 0 < ca
    → 0 < cb
    → 0 < cc
    → a * cb ≡ b * ca
    → b * cc < c * cb
    → a * cc < c * ca
ratio_eq_lt a ca b cb c cc p q r h k =
    cancel_lt cb (a * cc) (c * ca)
      (omega (arith, ap (λ (t : ℕ). cc * t) h, mul_mono_lt ca (b * cc) (c * cb) p k))

ratio_lt_eq :
    (a ca b cb c cc : ℕ)
    → 0 < ca
    → 0 < cb
    → 0 < cc
    → a * cb < b * ca
    → b * cc ≡ c * cb
    → a * cc < c * ca
ratio_lt_eq a ca b cb c cc p q r h k =
    cancel_lt cb (a * cc) (c * ca)
      (omega (arith, mul_mono_lt cc (a * cb) (b * ca) r h, ap (λ (t : ℕ). ca * t) k))

ratio_eq_eq :
    (a ca b cb c cc : ℕ)
    → 0 < ca
    → 0 < cb
    → 0 < cc
    → a * cb ≡ b * ca
    → b * cc ≡ c * cb
    → a * cc ≡ c * ca
ratio_eq_eq a ca b cb c cc p q r h k =
    cancel_eq cb (a * cc) (c * ca) q
      (omega (arith, ap (λ (t : ℕ). cc * t) h, ap (λ (t : ℕ). ca * t) k))

ratio_less_trans :
    (a ca sa b cb sb c cc sc : ℕ)
    → 0 < ca
    → 0 < cb
    → 0 < cc
    → ratio_less a ca sa b cb sb ≡ true
    → ratio_less b cb sb c cc sc ≡ true
    → ratio_less a ca sa c cc sc ≡ true
unfolding ratio_less
ratio_less_trans a ca sa b cb sb c cc sc p q r h k = ground (
  arith,
  ratio_lt_lt a ca b cb c cc,
  ratio_eq_lt a ca b cb c cc,
  ratio_lt_eq a ca b cb c cc,
  ratio_eq_eq a ca b cb c cc,
)

ratio_less_irrefl : (a ca sa : ℕ) → ratio_less a ca sa a ca sa ≡ false
unfolding ratio_less
ratio_less_irrefl a ca sa = ground arith

pub less-IsStrict : IsStrict IsSmall less
less-IsStrict = record {
  irrefl = λ a v. rw (less-ratio_less a a v v) (ratio_less_irrefl _ _ _);
  trans = λ a b c u v w h k. rw (less-ratio_less a c u w) (
      ratio_less_trans _ _ _ b.in_flight b.capacity b.success _ _ _ u.positive v.positive w.positive
        (rw (less-ratio_less a b u v) at h) (rw (less-ratio_less b c v w) at k));
}
