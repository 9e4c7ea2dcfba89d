-- ===== src/Usage/Recent.antt =====
-- What `Recent` and `Oldest` of internal/usage/store_memory.go answer.
use kirocc_prox.Base.{
  ℕ, zero, suc, ◌+◌, ◌-◌, ◌≤◌, ◌<◌, min, ◌≡◌, refl, sym, ap, ◌∙◌, Bool, true, false, arith, List,
  [], ◌∷◌, ◌++◌, some, leb, ℤ, pos, negsuc, leb_ℤ, pos_part, length, get_elem?, take, keep_if,
  length-append, Bool-cases, inl, inr,
}
use native.Mathlib.Nat.{add-zero, zero-add}
use kirocc_prox.Usage.Records.{Record, Filter, match_filter}
use kirocc_prox.Usage.Memory.{MemoryStore, new_memory_store, append, slot, scan_ring, recent}
use kirocc_prox.Usage.Ring.{Refines, new_memory_store-Refines, append-Refines}

-- The store after the records of a log, the oldest first, and the log with the newest first.
unfoldable pub appends : MemoryStore → List Record → MemoryStore
appends m [] = m
appends m (r ∷ rs) = appends (append m r) rs

unfoldable pub newest_first : List Record → List Record → List Record
newest_first log [] = log
newest_first log (r ∷ rs) = newest_first (r ∷ log) rs

appends-Refines :
    (m : MemoryStore) (log rs : List Record)
    → Refines m log
    → Refines (appends m rs) (newest_first log rs)
unfolding appends newest_first
appends-Refines m log [] h = h
appends-Refines m log (r ∷ rs) h =
    appends-Refines (append m r) (r ∷ log) rs (append-Refines m log r h)

cap-append : (m : MemoryStore) (r : Record) → (append m r).cap ≡ m.cap
unfolding append
cap-append m r = ground arith

cap-appends : (m : MemoryStore) (rs : List Record) → (appends m rs).cap ≡ m.cap
unfolding appends
cap-appends m [] = refl
cap-appends m (r ∷ rs) = cap-appends (append m r) rs ∙ cap-append m r

pub append_assoc :
    (xs : List Record) (x : Record) (ys : List Record) → (xs ++ x ∷ []) ++ ys ≡ xs ++ x ∷ ys
append_assoc [] x ys = refl
append_assoc (y ∷ xs) x ys = ap (λ zs. y ∷ zs) (append_assoc xs x ys)

pub append_nil : (xs : List Record) → xs ++ [] ≡ xs
append_nil [] = refl
append_nil (x ∷ xs) = ap (λ zs. x ∷ zs) (append_nil xs)

abbrev passes : Filter → Record → Bool
passes f rec = match_filter rec f

take_nil : (n : ℕ) → take {A = Record} n [] ≡ []
take_nil zero = refl
take_nil (suc n) = refl

plus_one : (i j : ℕ) → i + 1 + j ≡ i + suc j
plus_one i j = omega arith

last_taken : (limit n : ℕ) → (n < limit) × (limit ≤ n + 1) → limit - n ≡ 1
last_taken limit n h = omega arith

taken_next :
    (r : Record) (limit n k : ℕ) (rs : List Record)
    → n < limit
    → k ≡ n + 1
    → r ∷ take (limit - k) rs ≡ take (limit - n) (r ∷ rs)
taken_next r limit n k rs h e = let one : limit - n ≡ suc (limit - k) = omega arith in rw one refl

-- The loop, on a store whose next k slots hold the first k records of the list.
scan_ring_lem :
    (m : MemoryStore) (f : Filter) (limit i k : ℕ) (log out : List Record)
    → ((j : ℕ) → j < k → get_elem? m.buf (slot m (i + j)) ≡ get_elem? log j)
    → k ≤ length log
    → length out < limit
    → scan_ring m f limit i k out
      ≡ some (out ++ take (limit - length out) (keep_if (passes f) (take k log)))
unfolding scan_ring
scan_ring_lem m f limit i zero log out at n l =
    ap some (sym (ap (λ zs. out ++ zs) (take_nil (limit - length out)) ∙ append_nil out))
scan_ring_lem m f limit i (suc k) [] out at n l = ground arith
scan_ring_lem m f limit i (suc k) (r ∷ log) out at n l =
    let e : get_elem? m.buf (slot m i) ≡ some r =
      ap (λ j. get_elem? m.buf (slot m j)) (sym (add-zero i)) ∙ at 0 (omega arith) in
    let next : (j : ℕ) → j < k → get_elem? m.buf (slot m (i + 1 + j)) ≡ get_elem? log j =
      λ j h. ap (λ x. get_elem? m.buf (slot m x)) (plus_one i j) ∙ at (suc j) (omega arith) in
    rw e (elim (Bool-cases (match_filter r f)) [
      | inr drops ↦ rw drops (scan_ring_lem m f limit (i + 1) k log out next (omega arith) l)
      | inl keeps ↦ rw keeps (elim (Bool-cases (leb limit (length (out ++ r ∷ [])))) [
        | inl stop ↦
            rw (stop, last_taken limit (length out) (ground (arith, length-append out (r ∷ []))))
              refl
        | inr more ↦ rw more (
            scan_ring_lem m f limit (i + 1) k log (out ++ r ∷ []) next (omega arith) (ground arith)
            ∙ ap some (
                append_assoc out r _
                ∙ ap (λ zs. out ++ zs)
                    (taken_next r limit (length out) (length (out ++ r ∷ []))
                      (keep_if (passes f) (take k log)) l (length-append out (r ∷ [])))))
      ])
    ])

slots_of_log :
    (m : MemoryStore) (log : List Record)
    → Refines m log
    → (j : ℕ) → j < length m.buf
    → get_elem? m.buf (slot m (0 + j)) ≡ get_elem? log j
slots_of_log m log (h, n, fresh, filled, at) j l = rw (zero-add j) (at j l)

take-min : (n : ℕ) (xs : List Record) → take (min n (length xs)) xs ≡ take n xs
take-min zero xs = let none_left : min 0 (length xs) ≡ 0 = omega arith in rw none_left refl
take-min (suc n) [] = take_nil (min (suc n) 0)
take-min (suc n) (x ∷ xs) =
    let one : min (suc n) (suc (length xs)) ≡ suc (min n (length xs)) = omega arith in
    rw one (ap (λ zs. x ∷ zs) (take-min n xs))

sub_zero : (n : ℕ) → n - 0 ≡ n
sub_zero n = omega arith

pos_part_pos : (i : ℤ) → leb_ℤ i (pos 0) ≡ false → 0 < pos_part i
pos_part_pos (pos n) h = ground arith
pos_part_pos (negsuc n) h = ground arith

pos_part_zero : (i : ℤ) → leb_ℤ i (pos 0) ≡ true → pos_part i ≡ 0
pos_part_zero (pos n) h = ground arith
pos_part_zero (negsuc n) h = refl

recent-Refines :
    (m : MemoryStore) (limit : ℤ) (f : Filter) (log : List Record)
    → Refines m log
    → recent m f limit ≡ some (take (pos_part limit) (keep_if (passes f) (take m.cap log)))
unfolding recent
recent-Refines m limit f log h = elim (Bool-cases (leb_ℤ limit (pos 0))) [
  | inl e ↦ rw (e, pos_part_zero limit e) refl
  | inr e ↦ rw e (
      scan_ring_lem m f (pos_part limit) 0 (length m.buf) log [] (slots_of_log m log h)
        (ground (arith, h.1)) (pos_part_pos limit e)
      ∙ rw (h.1, take-min m.cap log, sub_zero (pos_part limit)) refl)
]

-- On a store made for a positive or a default capacity and filled with any records, `Recent` never
-- reads out of range, and returns the newest records that match the filter, as many as the limit
-- allows, among the newest that fill the capacity, in reverse order of insertion.
pub recent-newest :
    (capacity limit : ℤ) (f : Filter) (rs : List Record)
    → recent (appends (new_memory_store capacity) rs) f limit
      ≡ some (
          take (pos_part limit) (
            keep_if
              (λ rec. match_filter rec f)
              (take (new_memory_store capacity).cap (newest_first [] rs))))
recent-newest capacity limit f rs =
    recent-Refines (appends (new_memory_store capacity) rs) limit f (newest_first [] rs)
      (appends-Refines (new_memory_store capacity) [] rs (new_memory_store-Refines capacity))
    ∙ rw (cap-appends (new_memory_store capacity) rs) refl
