-- ===== src/Pool/Selector/Choice.antt =====
-- What each strategy promises, in terms of the accounts' counters.
use kirocc_prox.Base.{
  ℕ, zero, suc, ◌+◌, ◌*◌, ◌%◌, ◌^◌, ◌≤◌, ◌<◌, ◌≡◌, refl, inl, Bool, true, false, arith, List, [],
  ◌∷◌, some, ℤ, ◌≤ℤ◌, All, All-map, All-map2, All-at, Member, length, get_elem?, sym, ap, ◌∙◌,
}
use native.Mathlib.Nat.{add-zero, zero-add, mod-lt, mod-eq_of_lt, mod-add-mod}
use mathlib.Core.Bool.{false≢true}
use kirocc_prox.Pool.Credential.{Credential}
use kirocc_prox.Pool.Store.{Heap}
use kirocc_prox.Pool.Selector.{
  Selector, round_robin, fill_first, least_used, least_in_flight, weighted_least_in_flight,
  capacity_of, snapshot_success, snapshot_load, snapshot_load_score, less, less_load, less_success,
  pick, cursor_in,
}
use kirocc_prox.Pool.Selector.Scores.{
  IsSmall, less_success-IsStrict, less_load-IsStrict, less-IsStrict, ratio-le_of_less,
}
use kirocc_prox.Pool.Selector.Minimal.{IsDescending, pick_least-NotBetter}

-- The load of `p` is no higher than that of `q`, by the strategy's measure.
abbrev pub NoMoreLoaded : Selector → Credential → Credential → Type 0
NoMoreLoaded (round_robin cursor) p q = Unit
NoMoreLoaded fill_first p q = Unit
NoMoreLoaded least_used p q = p.success ≤ q.success
NoMoreLoaded least_in_flight p q =
    (p.in_flight ≤ q.in_flight) × (p.in_flight ≡ q.in_flight → p.success ≤ q.success)
NoMoreLoaded weighted_least_in_flight p q =
    p.in_flight * capacity_of q.max_in_flight ≤ q.in_flight * capacity_of p.max_in_flight

-- `p` has the highest priority, and among the accounts of that priority the least load.
abbrev pub IsBest : Selector → Heap → ℕ → ℕ → Type 0
IsBest s h p q =
    ((h q).priority ≤ℤ (h p).priority)
    × ((h q).priority ≡ (h p).priority → NoMoreLoaded s (h p) (h q))

-- Counters and limits for which the products of the weighted strategy fit `int64`.
abbrev pub FitsWords : Credential → Type 0
FitsWords c = (c.in_flight < 2 ^ 31) × (capacity_of c.max_in_flight < 2 ^ 31)

capacity_pos : (m : ℤ) → 0 < capacity_of m
capacity_pos m = ground arith

FitsWords-IsSmall : (c : Credential) → FitsWords c → IsSmall (snapshot_load_score c)
unfolding snapshot_load_score
FitsWords-IsSmall c w = record { few = w.0; positive = capacity_pos c.max_in_flight; small = w.1 }

weighted_le :
    (p q : Credential)
    → FitsWords p
    → FitsWords q
    → less (snapshot_load_score q) (snapshot_load_score p) ≡ false
    → NoMoreLoaded weighted_least_in_flight p q
unfolding snapshot_load_score
weighted_le p q v w h = ratio-le_of_less _ _ (FitsWords-IsSmall q w) (FitsWords-IsSmall p v) h

load_le :
    (p q : Credential)
    → less_load (snapshot_load q) (snapshot_load p) ≡ false
    → NoMoreLoaded least_in_flight p q
unfolding less_load snapshot_load
load_le p q h = (ground arith, λ e. ground arith)

success_le :
    (p q : Credential)
    → less_success (snapshot_success q) (snapshot_success p) ≡ false
    → NoMoreLoaded least_used p q
unfolding less_success snapshot_success
success_le p q h = ground arith

-- The strategies that look for the best account; round-robin does not.
abbrev pub is_greedy : Selector → Bool
is_greedy (round_robin cursor) = false
is_greedy s = true

abbrev pub Chooses : Selector → Heap → List ℕ → Type 0
Chooses s h ready =
    (p : ℕ) × ((pick h s ready).1 ≡ some p) × Member p ready × All (IsBest s h p) ready

All-valid : (h : Heap) (ps : List ℕ) → All (λ q. Unit {0}) ps
All-valid h [] = tt
All-valid h (p ∷ ps) = (tt, All-valid h ps)

-- Every strategy but round-robin picks an account of the slice that has the highest priority and,
-- among the accounts of that priority, the least load by the strategy's own measure (for the
-- weighted one, the ratio of requests in flight to capacity, compared with no rounding). The slice
-- is not empty and sorted by falling priority, and the counters and limits are below 2 ^ 31.
pub pick-IsBest :
    (s : Selector) (h : Heap) (c : ℕ) (rest : List ℕ)
    → is_greedy s ≡ true
    → IsDescending h (c ∷ rest)
    → All (λ q. FitsWords (h q)) (c ∷ rest)
    → Chooses s h (c ∷ rest)
unfolding pick
pick-IsBest (round_robin cursor) h c rest g d w = absurd (false≢true g)
pick-IsBest fill_first h c rest g d w = (
  c,
  refl,
  inl refl,
  ((omega arith, λ _. tt), All-map _ (IsBest fill_first h c) rest (λ q l. (l, λ _. tt)) d.0),
)
pick-IsBest least_used h c rest g d w =
    let (p, e, m, others) =
      pick_least-NotBetter h snapshot_success less_success _ less_success-IsStrict c rest
        (All-valid h (c ∷ rest)) d in
    (
      p,
      e,
      m,
      All-map _ (IsBest least_used h p) (c ∷ rest)
          (λ q n. (n.0, λ same. success_le (h p) (h q) (n.1 same))) others,
    )
pick-IsBest least_in_flight h c rest g d w =
    let (p, e, m, others) =
      pick_least-NotBetter h snapshot_load less_load _ less_load-IsStrict c rest
        (All-valid h (c ∷ rest)) d in
    (
      p,
      e,
      m,
      All-map _ (IsBest least_in_flight h p) (c ∷ rest)
          (λ q n. (n.0, λ same. load_le (h p) (h q) (n.1 same))) others,
    )
pick-IsBest weighted_least_in_flight h c rest g d w =
    let small =
      All-map _ (λ q. IsSmall (snapshot_load_score (h q))) (c ∷ rest)
        (λ q f. FitsWords-IsSmall (h q) f) w in
    let (p, e, m, others) =
      pick_least-NotBetter h snapshot_load_score less IsSmall less-IsStrict c rest small d in
    (
      p,
      e,
      m,
      All-map2 _ _ (IsBest weighted_least_in_flight h p) (c ∷ rest)
          (λ q n f. (
            n.0,
            λ same.
                weighted_le (h p) (h q) (All-at (λ q. FitsWords (h q)) (c ∷ rest) w m) f (n.1 same),
          ))
          others w,
    )

-- The selector after k calls on the same slice.
pub after_picks : Heap → List ℕ → ℕ → Selector → Selector
after_picks h ready zero s = s
after_picks h ready (suc k) s = after_picks h ready k (pick h s ready).0

cursor_in_lem :
    (cursor : ℕ) (ready : List ℕ) → cursor < length ready → cursor_in cursor ready ≡ cursor
cursor_in_lem cursor ready h = ground arith

after_picks-round_robin :
    (h : Heap) (c : ℕ) (rest : List ℕ) (k cursor : ℕ)
    → cursor < length (c ∷ rest)
    → after_picks h (c ∷ rest) k (round_robin cursor)
      ≡ round_robin ((cursor + k) % length (c ∷ rest))
unfolding after_picks pick
after_picks-round_robin h c rest zero cursor l = ap round_robin (sym (rw add-zero (mod-eq_of_lt l)))
after_picks-round_robin h c rest (suc k) cursor l =
    rw
      (
        cursor_in_lem cursor (c ∷ rest) l,
        after_picks-round_robin h c rest k ((cursor + 1) % length (c ∷ rest))
            (mod-lt _ (omega arith)),
      )
      (ap round_robin (mod-add-mod _ _ _ ∙ ap (λ i. i % length (c ∷ rest)) (omega arith)))

-- Round-robin is fair: on a slice of n accounts that does not change, the call number k (from 0)
-- of a fresh selector picks the account at position k mod n.
pub round_robin_cycles :
    (h : Heap) (c : ℕ) (rest : List ℕ) (k : ℕ)
    → (pick h (after_picks h (c ∷ rest) k (round_robin 0)) (c ∷ rest)).1
      ≡ get_elem? (c ∷ rest) (k % length (c ∷ rest))
unfolding pick
round_robin_cycles h c rest k =
    rw (after_picks-round_robin h c rest k 0 (omega arith), zero-add k)
      (ap (get_elem? (c ∷ rest))
        (cursor_in_lem (k % length (c ∷ rest)) (c ∷ rest) (mod-lt _ (omega arith))))
