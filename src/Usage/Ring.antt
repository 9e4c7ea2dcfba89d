-- ===== src/Usage/Ring.antt =====
-- The ring buffer of internal/usage/store_memory.go against the log of all records, the newest first.
use kirocc_prox.Base.{
  ℕ, zero, suc, ◌+◌, ◌-◌, ◌%◌, ◌≤◌, ◌<◌, min, ◌≡◌, refl, ap, ◌∙◌, true, false, arith, List, [], ◌∷◌,
  ◌++◌, none, some, if◌then◌else◌, ltb, ◌==◌, ℤ, length, get_elem?, set, length-append, length-set,
  Bool-cases, inl, inr,
}
use native.Mathlib.Nat.{mod-eq_of_lt, mod-eq-sub-mod}
use kirocc_prox.Usage.Records.{Record}
use kirocc_prox.Usage.Memory.{MemoryStore, new_memory_store, append, slot}

mod_wrap : (x c : ℕ) → x < c + c → x % c ≡ (if ltb x c then x else x - c)
mod_wrap x c h = elim (Bool-cases (ltb x c)) [
  | inl e ↦ rw e (mod-eq_of_lt (ground arith))
  | inr e ↦ rw e (mod-eq-sub-mod (ground arith) ∙ mod-eq_of_lt (ground arith))
]

get_elem?-append :
    (xs : List Record) (r : Record) (i : ℕ)
    → get_elem? (xs ++ r ∷ []) i
      ≡ (if ltb i (length xs) then get_elem? xs i else if i == length xs then some r else none)
get_elem?-append [] r zero = refl
get_elem?-append [] r (suc i) = ground arith
get_elem?-append (x ∷ xs) r zero = ground arith
get_elem?-append (x ∷ xs) r (suc i) = ground (arith, get_elem?-append xs r i)

get_elem?-set :
    (xs : List Record) (r : Record) (h i : ℕ)
    → h < length xs
    → get_elem? (set xs h r) i ≡ (if i == h then some r else get_elem? xs i)
get_elem?-set [] r h i l = ground arith
get_elem?-set (x ∷ xs) r zero zero l = ground arith
get_elem?-set (x ∷ xs) r zero (suc i) l = ground arith
get_elem?-set (x ∷ xs) r (suc h) zero l = ground arith
get_elem?-set (x ∷ xs) r (suc h) (suc i) l = ground (arith, get_elem?-set xs r h i (omega arith))

-- The store holds the newest records of the log, as many as it has room for: position `slot m i`
-- holds the record number i from the newest.
abbrev pub Refines : MemoryStore → List Record → Type 0
Refines m log =
    (m.head < m.cap)
    × (length m.buf ≡ min m.cap (length log))
    × (m.full ≡ false → (m.head ≡ 0) × (length log ≤ m.cap))
    × (m.full ≡ true → length m.buf ≡ m.cap)
    × ((i : ℕ) → i < length m.buf → get_elem? m.buf (slot m i) ≡ get_elem? log i)

pub new_memory_store-Refines : (capacity : ℤ) → Refines (new_memory_store capacity) []
unfolding new_memory_store
new_memory_store-Refines capacity =
    (ground arith, ground arith, λ _. (refl, omega arith), λ e. ground arith, λ i l. ground arith)

-- After the head has moved on, round 0 reads the position just written and round i + 1 reads what
-- round i read before.
over_first : (head cap : ℕ) → head < cap → ((head + 1) % cap + cap - 1 - 0) % cap ≡ head
over_first head cap h =
    ground (arith, mod_wrap (head + 1) cap, mod_wrap ((head + 1) % cap + cap - 1 - 0) cap)

over_next :
    (head cap i : ℕ)
    → head < cap
    → suc i < cap
    → ((head + 1) % cap + cap - 1 - suc i) % cap ≡ (head + cap - 1 - i) % cap
over_next head cap i h l = ground (
  arith,
  mod_wrap (head + 1) cap,
  mod_wrap ((head + 1) % cap + cap - 1 - suc i) cap,
  mod_wrap (head + cap - 1 - i) cap,
)

shift_slot : (n k i : ℕ) → n ≡ k + 1 → n - 1 - suc i ≡ k - 1 - i
shift_slot n k i e = omega arith

room_slot :
    (buf log : List Record) (r : Record) (i : ℕ)
    → ((j : ℕ) → j < length buf → get_elem? buf (length buf - 1 - j) ≡ get_elem? log j)
    → i ≤ length buf
    → get_elem? (buf ++ r ∷ []) (length (buf ++ r ∷ []) - 1 - i) ≡ get_elem? (r ∷ log) i
room_slot buf log r zero at l =
    ground (arith, length-append buf (r ∷ []), get_elem?-append buf r (length (buf ++ r ∷ []) - 1))
room_slot buf log r (suc i) at l = ground (
  arith,
  length-append buf (r ∷ []),
  get_elem?-append buf r (length (buf ++ r ∷ []) - 1 - suc i),
  ap (get_elem? buf)
      (shift_slot (length (buf ++ r ∷ [])) (length buf) i (length-append buf (r ∷ []))),
  at i (omega arith),
)

over_slot :
    (buf log : List Record) (r : Record) (head cap i : ℕ)
    → head < cap
    → length buf ≡ cap
    → ((j : ℕ) → j < cap → get_elem? buf ((head + cap - 1 - j) % cap) ≡ get_elem? log j)
    → i < cap
    → get_elem? (set buf head r) (((head + 1) % cap + cap - 1 - i) % cap) ≡ get_elem? (r ∷ log) i
over_slot buf log r head cap zero h n at l =
    rw (over_first head cap h) (ground (arith, get_elem?-set buf r head head (omega arith)))
over_slot buf log r head cap (suc i) h n at l = rw (over_next head cap i h l) (
    ground (
      arith,
      get_elem?-set buf r head ((head + cap - 1 - i) % cap) (omega arith),
      at i (omega arith),
      mod_wrap (head + cap - 1 - i) cap,
    ))

-- To append a record to the store is to put it in front of the log, whether the store has room or
-- overwrites its oldest record.
pub append-Refines :
    (m : MemoryStore) (log : List Record) (r : Record)
    → Refines m log
    → Refines (append m r) (r ∷ log)
unfolding append
append-Refines m log r (h, n, fresh, filled, at) = elim (Bool-cases (ltb (length m.buf) m.cap)) [
  | inl e ↦
      let f : m.full ≡ false = ground (arith, filled) in
      rw (e, f)
        (
          h,
          ground (arith, length-append m.buf (r ∷ [])),
          λ _. ((fresh f).0, ground (arith, fresh f)),
          λ g. ground arith,
          λ i l.
              room_slot m.buf log r i (λ j k. ground (arith, at j k, f))
                (ground (arith, length-append m.buf (r ∷ []))),
        )
  | inr e ↦ rw e (
    ground (arith, mod_wrap (m.head + 1) m.cap),
    ground (arith, length-set m.buf m.head r),
    λ g. ground arith,
    λ g. ground (arith, length-set m.buf m.head r),
    λ i l.
        over_slot m.buf log r m.head m.cap i h (ground arith)
          (λ j k. elim (Bool-cases m.full) [
            | inl g ↦ ground (arith, at j (ground arith), g)
            | inr g ↦
                ground
                  (arith, at j (ground arith), g, fresh g, mod_wrap (m.head + m.cap - 1 - j) m.cap)
          ])
          (ground (arith, length-set m.buf m.head r)),
  )
]
