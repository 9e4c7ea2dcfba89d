-- ===== src/Respconv/TokenBudget/Accounts.antt =====
-- What internal/respconv/token_budget.go lets through, counts and leaves alone.
use kirocc_prox.Base.{
  ℕ, ◌+◌, ◌-◌, ◌*◌, ◌/◌, ◌≤◌, ◌<◌, ◌≡◌, refl, sym, ap, true, false, arith, [], ◌∷◌, ltb, leb, pos,
  leb_ℤ, pos_part, length, take, length-take, Bool-cases, inl, inr,
}
use kirocc_prox.Respconv.Text.{Text}
use kirocc_prox.Respconv.Accumulator.{ResponseAccumulator}
use kirocc_prox.Respconv.TokenBudget.{apply_max_tokens_budget, take_whole, take_remaining, limit}

-- What passes is a start of the text, and it is counted. With a budget, no more passes than the budget
-- leaves, and what does not stop the response is whole and below the budget.
abbrev pub Accounts : ResponseAccumulator → Text → ResponseAccumulator → Text → Type 0
Accounts a delta b out =
    (out ≡ take (length out) delta)
    × (b.output_rune_count ≡ a.output_rune_count + length out)
    × (0 < limit a → length out ≤ limit a - a.output_rune_count)
    × (b.local_stop ≡ false → (out ≡ delta) × (0 < limit a → b.output_rune_count < limit a))
    × (a.local_stop ≡ true → b.local_stop ≡ true)

abbrev pub SameButCount : ResponseAccumulator → ResponseAccumulator → Type 0
SameButCount a b =
    (b.text_buf ≡ a.text_buf)
    × (b.thinking_buf ≡ a.thinking_buf)
    × (b.max_tokens_budget ≡ a.max_tokens_budget)

no_rest : (t : Text) → t ≡ take (length t) t
no_rest [] = refl
no_rest (c ∷ t) = ap (λ u. c ∷ u) (no_rest t)

quarter : (n m : ℕ) → ltb (n / 4) m ≡ true → n < m * 4
quarter n m h = ground (arith, h)

quarter_not : (n m : ℕ) → leb m (n / 4) ≡ false → n < m * 4
quarter_not n m h = ground (arith, h)

take_whole-Accounts :
    (a : ResponseAccumulator) (delta : Text)
    → (0 < limit a → length delta ≤ limit a - a.output_rune_count)
    → Accounts a delta (take_whole a delta).0 (take_whole a delta).1
      × SameButCount a (take_whole a delta).0
take_whole-Accounts a delta fits =
    elim (Bool-cases
      (leb (pos_part a.max_tokens_budget) ((a.output_rune_count + length delta) / 4))) [
        | inl e ↦
            rw e
              ((no_rest delta, refl, fits, λ h. ground (arith, h), λ h. refl), (refl, refl, refl))
        | inr e ↦ rw e (
          (no_rest delta, refl, fits, λ h. (refl, λ l. quarter_not _ _ e), λ h. h),
          (refl, refl, refl),
        )
      ]

cut : (n : ℕ) (t : Text) → n ≤ length t → take n t ≡ take (length (take n t)) t
cut n t h = let e : length (take n t) ≡ n = omega (arith, length-take n t) in rw e refl

take_remaining-Accounts :
    (a : ResponseAccumulator) (delta : Text)
    → Accounts a delta (take_remaining a delta).0 (take_remaining a delta).1
      × SameButCount a (take_remaining a delta).0
take_remaining-Accounts a delta =
    let remaining : ℕ = pos_part a.max_tokens_budget * 4 - a.output_rune_count in
    elim (Bool-cases (leb remaining 0)) [
      | inl e ↦ rw e (
        (refl, omega arith, λ l. omega arith, λ h. ground (arith, h), λ h. refl),
        (refl, refl, refl),
      )
      | inr e ↦ rw e (elim (Bool-cases (ltb remaining (length delta))) [
        | inl f ↦
            let short : length (take remaining delta) ≡ remaining =
              ground (arith, length-take remaining delta, f) in
            rw f (
              (
                cut remaining delta (ground (arith, f)),
                ap (λ n. a.output_rune_count + n) (sym short),
                λ l. omega arith,
                λ h. ground (arith, h),
                λ h. refl,
              ),
              (refl, refl, refl),
            )
        | inr f ↦ rw f (take_whole-Accounts a delta (λ l. ground (arith, f)))
      ])
    ]

-- What the budget lets through is a start of the text, and it is counted. Where there is a budget, no
-- more passes than it leaves; and unless the response is then stopped, the whole text passed and the count
-- is below the budget. A stopped response stays stopped, and the text written so far is left alone.
pub apply_max_tokens_budget-Accounts :
    (a : ResponseAccumulator) (delta : Text)
    → Accounts a delta (apply_max_tokens_budget a delta).0 (apply_max_tokens_budget a delta).1
      × SameButCount a (apply_max_tokens_budget a delta).0
unfolding apply_max_tokens_budget
apply_max_tokens_budget-Accounts a delta = elim (Bool-cases (leb_ℤ a.max_tokens_budget (pos 0))) [
  | inl e ↦
      let none_set : limit a ≡ 0 = ground (arith, e) in
      rw e (
        (
          no_rest delta,
          refl,
          λ l. omega (arith, none_set),
          λ h. (refl, λ l. omega (arith, none_set)),
          λ h. h,
        ),
        (refl, refl, refl),
      )
  | inr e ↦
      rw e
        (elim (Bool-cases
          (ltb ((a.output_rune_count + length delta) / 4) (pos_part a.max_tokens_budget))) [
            | inl f ↦
                let below : a.output_rune_count + length delta < limit a = quarter _ _ f in
                rw f (
                  (no_rest delta, refl, λ l. omega arith, λ h. (refl, λ l. below), λ h. h),
                  (refl, refl, refl),
                )
            | inr f ↦ rw f (take_remaining-Accounts a delta)
          ])
]
