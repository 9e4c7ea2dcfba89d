-- ===== src/Pool/Credential/InFlight.antt =====
-- The in-flight counters of one account against the list of requests that hold a slot on it.
use kirocc_prox.Base.{
  ℕ, suc, ◌+◌, ◌-◌, ◌<◌, ◌≡◌, refl, ◌≢◌, ◌⊎◌, true, false, List, [], ◌∷◌, String, str_eq,
  str_eq_iff, arith, pos, ◌≤ℤ◌, Map, lookup, lookup-insert, lookup-remove, length, if◌then◌else◌,
}
use kirocc_prox.Pool.Credential.{
  Credential, count_of, bump_model, drop_model, reserve, release_reservation, is_full,
  add_in_flight,
}

-- How many of the requests are for the model.
unfoldable pub count : String → List String → ℕ
count m [] = 0
count m (x ∷ xs) = if str_eq x m then suc (count m xs) else count m xs

-- The list without the first request for the model.
unfoldable pub erase : String → List String → List String
erase m [] = []
erase m (x ∷ xs) = if str_eq x m then xs else x ∷ erase m xs

count-erase :
    (m n : String) (xs : List String)
    → count n (erase m xs) ≡ (if str_eq m n then count n xs - 1 else count n xs)
unfolding count erase
count-erase m n [] = ground arith
count-erase m n (x ∷ xs) =
    ground (arith, str_eq_iff x m, str_eq_iff m n, str_eq_iff x n, count-erase m n xs)

length-erase :
    (m : String) (xs : List String) → 0 < count m xs → suc (length (erase m xs)) ≡ length xs
unfolding count erase
length-erase m [] h = absurd (omega arith)
length-erase m (x ∷ xs) h = ground (arith, length-erase m xs)

-- The counter of one model after a change to the counter of another.
count-bump_model :
    (m n : String) (d : Map ℕ)
    → n ≢ ""
    → count_of (lookup n (bump_model m d))
      ≡ (if str_eq m n then suc (count_of (lookup n d)) else count_of (lookup n d))
count-bump_model m n d h =
    ground (arith, str_eq_iff m n, str_eq_iff m "", lookup-insert m n (count_of (lookup m d) + 1) d)

count-drop_model :
    (m n : String) (d : Map ℕ)
    → n ≢ ""
    → count_of (lookup n (drop_model m d))
      ≡ (if str_eq m n then count_of (lookup n d) - 1 else count_of (lookup n d))
count-drop_model m n d h = ground (
  arith,
  str_eq_iff m n,
  str_eq_iff m "",
  lookup-insert m n (count_of (lookup m d) - 1) d,
  lookup-remove m n d,
)

-- One account and the models of the requests that hold one of its slots.
pub record Session : Type 0 where
  pub cred : Credential
  pub held : List String

-- What a client can do: reserve a slot, or give back one that is held.
pub data Step : Session → Session → Type 0 where
  reserved :
      (s : Session) (model : String) (now : ℕ)
      → (reserve s.cred model now).1 ≡ true
      → Step s (record { cred = (reserve s.cred model now).0; held = model ∷ s.held })
  refused :
      (s : Session) (model : String) (now : ℕ)
      → (reserve s.cred model now).1 ≡ false
      → Step s (record s { cred = (reserve s.cred model now).0 })
  released :
      (s : Session) (model : String) (now : ℕ)
      → 0 < count model s.held
      → Step s (record { cred = release_reservation s.cred model now; held = erase model s.held })

pub data Reach (s : Session) : Session → Type 0 where
  here : Reach s s
  next : {t u : Session} → Reach s t → Step t u → Reach s u

-- The counters are exact, and within the account's limit if it has one.
pub record IsExact (s : Session) : Type 0 where
  pub total : s.cred.in_flight ≡ length s.held
  pub by_model :
      (m : String) → m ≢ "" → count_of (lookup m s.cred.in_flight_by_model) ≡ count m s.held
  pub capped : (s.cred.max_in_flight ≤ℤ pos 0) ⊎ (pos s.cred.in_flight ≤ℤ s.cred.max_in_flight)

reserve_accepted :
    (c : Credential) (m : String) (now : ℕ)
    → (reserve c m now).1 ≡ true
    → (is_full c ≡ false) × ((reserve c m now).0 ≡ add_in_flight c m)
unfolding reserve
reserve_accepted c m now h = ground arith

-- A refused reservation changes nothing.
pub reserve_refused :
    (c : Credential) (m : String) (now : ℕ) → (reserve c m now).1 ≡ false → (reserve c m now).0 ≡ c
unfolding reserve
reserve_refused c m now h = ground arith

add_in_flight-IsExact :
    (c : Credential) (m : String) (held : List String)
    → is_full c ≡ false
    → IsExact (record { cred = c; held = held })
    → IsExact (record { cred = add_in_flight c m; held = m ∷ held })
unfolding count
add_in_flight-IsExact c m held room v = record {
  total = omega (arith, v.total);
  by_model = λ n h. rw (count-bump_model m n c.in_flight_by_model h, v.by_model n h) refl;
  capped = ground arith;
}

released-IsExact :
    (c : Credential) (m : String) (now : ℕ) (held : List String)
    → 0 < count m held
    → IsExact (record { cred = c; held = held })
    → IsExact (record { cred = release_reservation c m now; held = erase m held })
unfolding release_reservation
released-IsExact c m now held some_held v = record {
  total = ground (arith, length-erase m held some_held);
  by_model = λ n h.
      rw (count-drop_model m n c.in_flight_by_model h, v.by_model n h, count-erase m n held) refl;
  capped = ground arith;
}

Step-IsExact : {s t : Session} → Step s t → IsExact s → IsExact t
Step-IsExact (reserved s m now h) v =
    rw (reserve_accepted s.cred m now h).1
      (add_in_flight-IsExact s.cred m s.held (reserve_accepted s.cred m now h).0 v)
Step-IsExact (refused s m now h) v = rw (reserve_refused s.cred m now h) v
Step-IsExact (released s m now h) v = released-IsExact s.cred m now s.held h v

-- Start from an account whose counters are exact. After any sequence of reservations, refused or
-- not, and of releases of slots that are held, the account's counter is the number of requests in
-- flight, the counter of each model the number of those for that model, and the total is within
-- the account's limit if it has one.
pub Reach-IsExact : {s t : Session} → IsExact s → Reach s t → IsExact t
Reach-IsExact v here = v
Reach-IsExact v (next r st) = Step-IsExact st (Reach-IsExact v r)

-- To give back a slot that was just reserved restores the account's counter and the counter of
-- every model, whatever they were.
pub release_reservation-reserve :
    (c : Credential) (m : String) (now later : ℕ)
    → (reserve c m now).1 ≡ true
    → let d = release_reservation (reserve c m now).0 m later in
      (d.in_flight ≡ c.in_flight)
      × ((n : String)
          → n ≢ ""
          → count_of (lookup n d.in_flight_by_model) ≡ count_of (lookup n c.in_flight_by_model))
unfolding release_reservation
release_reservation-reserve c m now later h = rw (reserve_accepted c m now h).1 (
  ground arith,
  λ n k.
      rw
        (
          count-drop_model m n (bump_model m c.in_flight_by_model) k,
          count-bump_model m n c.in_flight_by_model k,
        )
        (ground arith),
)
