-- ===== src/Pool/Selector.antt =====
-- internal/pool/selector.go and selector_strategies.go: the five scheduling strategies.
pub mod Scores
pub mod Minimal
pub mod Choice
use kirocc_prox.Base.{
  ℕ, suc, ◌+◌, ◌*◌, ◌%◌, Bool, true, false, not, ◌&&◌, ◌||◌, Option, none, some, List, [], ◌∷◌,
  String, str_eq, ltb, leb, ◌==◌, ◌^◌, if◌then◌else◌, ℤ, pos, negsuc, ltb_ℤ, eq_ℤ, wrap64, length,
  get_elem?,
}
use kirocc_prox.Pool.Credential.{Credential}
use kirocc_prox.Pool.Store.{Heap}

-- A selector with its state: only round-robin keeps one.
pub data Selector : Type 0 where
  round_robin : ℕ → Selector
  fill_first least_used least_in_flight weighted_least_in_flight : Selector

unfoldable pub new_selector : String → Selector
new_selector strategy =
    if str_eq strategy "fill-first"
    then fill_first
    else if str_eq strategy "least-used"
    then least_used
    else if str_eq strategy "least-inflight"
    then least_in_flight
    else if str_eq strategy "weighted-least-inflight"
    then weighted_least_in_flight
    else round_robin 0

pub record LoadScore : Type 0 where
  pub in_flight : ℕ
  pub capacity : ℕ
  pub success : ℕ

-- `if capacity <= 0 { capacity = 1 << 30 }`
abbrev pub capacity_of : ℤ → ℕ
capacity_of (negsuc n) = 2 ^ 30
capacity_of (pos n) = if n == 0 then 2 ^ 30 else n

unfoldable pub snapshot_success : Credential → ℕ
snapshot_success c = c.success

unfoldable pub snapshot_load : Credential → ℕ × ℕ
snapshot_load c = (c.in_flight, c.success)

unfoldable pub snapshot_load_score : Credential → LoadScore
snapshot_load_score c = record {
  in_flight = c.in_flight;
  capacity = capacity_of c.max_in_flight;
  success = c.success;
}

-- The two products are computed in `int64`.
unfoldable pub less : LoadScore → LoadScore → Bool
less s other =
    let left = wrap64 (s.in_flight * other.capacity) in
    let right = wrap64 (other.in_flight * s.capacity) in
    if not (eq_ℤ left right)
    then ltb_ℤ left right
    else if not (s.in_flight == other.in_flight)
    then ltb s.in_flight other.in_flight
    else ltb s.success other.success

-- `inFlight < bestInFlight || (inFlight == bestInFlight && success < bestSuccess)`
unfoldable pub less_load : ℕ × ℕ → ℕ × ℕ → Bool
less_load (n, s) (bn, bs) = ltb n bn || n == bn && ltb s bs

unfoldable pub less_success : ℕ → ℕ → Bool
less_success s best = ltb s best

-- The loop that the three least-loaded strategies share: it stops at the first credential of
-- another priority, and carries the best one with its score, as read when it was met.
module _ {S : Type 0} (h : Heap) (score : Credential → S) (lt : S → S → Bool) where
  unfoldable pub scan : ℤ → ℕ → S → List ℕ → ℕ
  scan top best best_score [] = best
  scan top best best_score (c ∷ rest) =
      let s = score (h c) in
      let better = scan top c s rest in
      let same = scan top best best_score rest in
      if not (eq_ℤ (h c).priority top) then best else if lt s best_score then better else same

  -- `topPrio`, `best` and its score start at the head of the ready slice.
  unfoldable pub pick_least : List ℕ → Option ℕ
  pick_least [] = none
  pick_least (c ∷ rest) = some (scan (h c).priority c (score (h c)) rest)

-- `if s.cursor < 0 || s.cursor >= len(ready) { s.cursor = 0 }`; the cursor is never negative.
abbrev pub cursor_in : ℕ → List ℕ → ℕ
cursor_in cursor ready = if leb (length ready) cursor then 0 else cursor

abbrev pub pick_round_robin : ℕ → List ℕ → Selector × Option ℕ
pick_round_robin cursor [] = (round_robin cursor, none)
pick_round_robin cursor (c ∷ rest) =
    let i = cursor_in cursor (c ∷ rest) in
    (round_robin ((i + 1) % length (c ∷ rest)), get_elem? (c ∷ rest) i)

abbrev pub pick_first : List ℕ → Option ℕ
pick_first [] = none
pick_first (c ∷ rest) = some c

-- `Pick`: the selector after the call, and the choice; `none` is `ErrNoReady`.
unfoldable pub pick : Heap → Selector → List ℕ → Selector × Option ℕ
pick h (round_robin cursor) ready = pick_round_robin cursor ready
pick h fill_first ready = (fill_first, pick_first ready)
pick h least_used ready = (least_used, pick_least h snapshot_success less_success ready)
pick h least_in_flight ready = (least_in_flight, pick_least h snapshot_load less_load ready)
pick h weighted_least_in_flight ready =
    (weighted_least_in_flight, pick_least h snapshot_load_score less ready)
