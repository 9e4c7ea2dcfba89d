-- ===== src/Pool/Conductor/Candidates.antt =====
-- internal/pool/conductor_default.go: which accounts a round of
-- `pickAndReserve` chooses among, and that it chooses one of them.
use kirocc_prox.Base.{
  ℕ, zero, suc, ◌<◌, ◌≡◌, refl, subst, ◌≢◌, Bool, true, false, arith, List, [], ◌∷◌, none, some,
  String, if◌then◌else◌, Map, lookup, keep_if, All, All-map2, length, get_elem?, Bool-cases,
  Option-cases, inl, inr, ◌⊎◌, ltb_ℤ, eq_ℤ, ℤ,
}
use kirocc_prox.Pool.Credential.{Credential, is_ready_for}
use kirocc_prox.Pool.Store.{Heap}
use kirocc_prox.Pool.Selector.{
  Selector, pick, pick_least, scan, round_robin, fill_first, least_used, least_in_flight,
  weighted_least_in_flight, cursor_in,
}
use kirocc_prox.Pool.Scheduler.State.{Scheduler}
use kirocc_prox.Pool.Scheduler.Listing.{ready, all, pointers, sort_stable, insert_sorted}
use kirocc_prox.Pool.Region.{filter_by_region, filter_by_region-Narrows}
use kirocc_prox.Pool.Conductor.{filter_ready_for_model, candidates}

get_elem?-All :
    (P : ℕ → Type 0) (xs : List ℕ) (i : ℕ)
    → i < length xs
    → All P xs
    → (p : ℕ) × (get_elem? xs i ≡ some p) × P p
get_elem?-All P [] i l h = ground arith
get_elem?-All P (x ∷ xs) zero l h = (x, refl, h.0)
get_elem?-All P (x ∷ xs) (suc i) l h = get_elem?-All P xs i (omega arith) h.1

module _ {S : Type 0} (h : Heap) (score : Credential → S) (lt : S → S → Bool) (P : ℕ → Type 0) where
  scan-All :
      (top : ℤ) (b : ℕ) (bs : S) (xs : List ℕ) → P b → All P xs → P (scan h score lt top b bs xs)
  unfolding scan
  scan-All top b bs [] g a = g
  scan-All top b bs (c ∷ rest) g a = elim (Bool-cases (eq_ℤ (h c).priority top)) [
    | inr e ↦ rw e g
    | inl e ↦ rw e (elim (Bool-cases (lt (score (h c)) bs)) [
      | inl f ↦ rw f (scan-All top c (score (h c)) rest a.0 a.1)
      | inr f ↦ rw f (scan-All top b bs rest g a.1)
    ])
  ]

  pick_least-All :
      (c : ℕ) (rest : List ℕ)
      → All P (c ∷ rest)
      → (p : ℕ) × (pick_least h score lt (c ∷ rest) ≡ some p) × P p
  unfolding pick_least
  pick_least-All c rest a = (_, refl, scan-All (h c).priority c (score (h c)) rest a.0 a.1)

-- Every strategy picks one of the accounts of a slice that is not empty.
pub pick-All :
    (P : ℕ → Type 0) (h : Heap) (s : Selector) (c : ℕ) (rest : List ℕ)
    → All P (c ∷ rest)
    → (p : ℕ) × ((pick h s (c ∷ rest)).1 ≡ some p) × P p
unfolding pick
pick-All P h (round_robin cursor) c rest a =
    get_elem?-All P (c ∷ rest) (cursor_in cursor (c ∷ rest)) (ground arith) a
pick-All P h fill_first c rest a = (c, refl, a.0)
pick-All P h least_used c rest a = pick_least-All h _ _ P c rest a
pick-All P h least_in_flight c rest a = pick_least-All h _ _ P c rest a
pick-All P h weighted_least_in_flight c rest a = pick_least-All h _ _ P c rest a

pub pick_nothing : (h : Heap) (s : Selector) → (pick h s []).1 ≡ none
unfolding pick pick_least
pick_nothing h (round_robin cursor) = refl
pick_nothing h fill_first = refl
pick_nothing h least_used = refl
pick_nothing h least_in_flight = refl
pick_nothing h weighted_least_in_flight = refl

abbrev pub IsReadyAt : Heap → String → ℕ → ℕ → Type 0
IsReadyAt h model now p = is_ready_for (h p) model now ≡ true

abbrev pub IsRegistered : Map ℕ → ℕ → Type 0
IsRegistered creds p = (id : String) × (lookup id creds ≡ some p)

pointers-IsRegistered :
    (creds : Map ℕ) (ids : List String) → All (IsRegistered creds) (pointers creds ids)
unfolding pointers
pointers-IsRegistered creds [] = tt
pointers-IsRegistered creds (id ∷ ids) = elim (Option-cases (lookup id creds)) [
  | inl e ↦ rw (e, All) (pointers-IsRegistered creds ids)
  | inr (p, e) ↦ rw (e, All) ((id, e), pointers-IsRegistered creds ids)
]

keep_if-All : (test : ℕ → Bool) (P : ℕ → Type 0) (xs : List ℕ) → All P xs → All P (keep_if test xs)
keep_if-All test P [] a = tt
keep_if-All test P (x ∷ xs) a = elim (Bool-cases (test x)) [
  | inl e ↦ rw e (a.0, keep_if-All test P xs a.1)
  | inr e ↦ rw e (keep_if-All test P xs a.1)
]

keep_if-Passes : (test : ℕ → Bool) (xs : List ℕ) → All (λ p. test p ≡ true) (keep_if test xs)
keep_if-Passes test [] = tt
keep_if-Passes test (x ∷ xs) = elim (Bool-cases (test x)) [
  | inl e ↦ rw e (e, keep_if-Passes test xs)
  | inr e ↦ rw e (keep_if-Passes test xs)
]

keep_if-none : (test : ℕ → Bool) (xs : List ℕ) → keep_if test xs ≡ [] → All (λ p. test p ≡ false) xs
keep_if-none test [] h = tt
keep_if-none test (x ∷ xs) h = elim (Bool-cases (test x)) [
  | inl e ↦ ground (arith, h, e)
  | inr e ↦ (e, keep_if-none test xs (ground (arith, h, e)))
]

insert_sorted-All :
    (h : Heap) (P : ℕ → Type 0) (p : ℕ) (xs : List ℕ)
    → P p
    → All P xs
    → All P (insert_sorted h p xs)
unfolding insert_sorted
insert_sorted-All h P p [] g a = (g, tt)
insert_sorted-All h P p (q ∷ qs) g a = elim (Bool-cases (ltb_ℤ (h p).priority (h q).priority)) [
  | inl e ↦ rw e (a.0, insert_sorted-All h P p qs g a.1)
  | inr e ↦ rw e (g, a)
]

sort_stable-All : (h : Heap) (P : ℕ → Type 0) (xs : List ℕ) → All P xs → All P (sort_stable h xs)
unfolding sort_stable
sort_stable-All h P [] a = tt
sort_stable-All h P (p ∷ ps) a =
    insert_sorted-All h P p (sort_stable h ps) a.0 (sort_stable-All h P ps a.1)

insert_sorted_from :
    (h : Heap) (P : ℕ → Type 0) (p : ℕ) (xs : List ℕ)
    → All P (insert_sorted h p xs)
    → P p × All P xs
unfolding insert_sorted
insert_sorted_from h P p [] a = (a.0, tt)
insert_sorted_from h P p (q ∷ qs) a = elim (Bool-cases (ltb_ℤ (h p).priority (h q).priority)) [
  | inl e ↦
      let b : P q × All P (insert_sorted h p qs) =
        subst (λ t. All P (if t then q ∷ insert_sorted h p qs else p ∷ q ∷ qs)) e a in
      let (g, rest) = insert_sorted_from h P p qs b.1 in (g, (b.0, rest))
  | inr e ↦ subst (λ t. All P (if t then q ∷ insert_sorted h p qs else p ∷ q ∷ qs)) e a
]

sort_stable_from : (h : Heap) (P : ℕ → Type 0) (xs : List ℕ) → All P (sort_stable h xs) → All P xs
unfolding sort_stable
sort_stable_from h P [] a = tt
sort_stable_from h P (p ∷ ps) a =
    let (g, rest) = insert_sorted_from h P p (sort_stable h ps) a in
    (g, sort_stable_from h P ps rest)

-- An account that is not ready for any model is not ready for this one.
ready_for_any :
    (c : Credential) (model : String) (now : ℕ)
    → is_ready_for c "" now ≡ false
    → is_ready_for c model now ≡ false
unfolding is_ready_for
ready_for_any c model now h = ground (arith, h)

-- Where the test and then another passes nothing, the other fails everywhere, if it implies the test.
keep_if_twice :
    (test other : ℕ → Bool) (xs : List ℕ)
    → ((p : ℕ) → test p ≡ false → other p ≡ false)
    → All (λ p. other p ≡ false) (keep_if test xs)
    → All (λ p. other p ≡ false) xs
keep_if_twice test other [] f a = tt
keep_if_twice test other (x ∷ xs) f a = elim (Bool-cases (test x)) [
  | inl e ↦
      let b : (other x ≡ false) × All (λ p. other p ≡ false) (keep_if test xs) =
        subst (λ t. All (λ p. other p ≡ false) (if t then x ∷ keep_if test xs else keep_if test xs))
          e a in
      (b.0, keep_if_twice test other xs f b.1)
  | inr e ↦ (
    f x e,
    keep_if_twice test other xs f (
        subst (λ t. All (λ p. other p ≡ false) (if t then x ∷ keep_if test xs else keep_if test xs))
          e a),
  )
]

-- The slice before the region hint, and what it tells.
narrowed : Scheduler → String → ℕ → List ℕ
narrowed s model now = filter_ready_for_model s.heap (ready s now) model now

abbrev pub IsCandidate : Scheduler → String → ℕ → ℕ → Type 0
IsCandidate s model now p = IsRegistered s.creds p × IsReadyAt s.heap model now p

narrowed-IsCandidate :
    (s : Scheduler) (model : String) (now : ℕ)
    → All (IsCandidate s model now) (narrowed s model now)
unfolding narrowed filter_ready_for_model ready all
narrowed-IsCandidate s model now =
    All-map2 (IsRegistered s.creds) (IsReadyAt s.heap model now) (IsCandidate s model now) _
      (λ p r t. (r, t))
      (keep_if-All _ (IsRegistered s.creds) _ (
        sort_stable-All s.heap (IsRegistered s.creds) _
          (keep_if-All _ (IsRegistered s.creds) _ (pointers-IsRegistered s.creds s.order))))
      (keep_if-Passes (λ p. is_ready_for (s.heap p) model now) _)

narrowed_empty :
    (s : Scheduler) (model : String) (now : ℕ)
    → narrowed s model now ≡ []
    → All (λ p. is_ready_for (s.heap p) model now ≡ false) (all s)
unfolding narrowed filter_ready_for_model ready
narrowed_empty s model now e =
    keep_if_twice (λ p. is_ready_for (s.heap p) "" now) (λ p. is_ready_for (s.heap p) model now)
      (all s) (λ p. ready_for_any (s.heap p) model now)
      (sort_stable_from s.heap _ _ (keep_if-none (λ p. is_ready_for (s.heap p) model now) _ e))

List-cases : (xs : List ℕ) → (xs ≡ []) ⊎ ((x : ℕ) × (rest : List ℕ) × (xs ≡ x ∷ rest))
List-cases [] = inl refl
List-cases (x ∷ rest) = inr (x, rest, refl)

not_nil : (x : ℕ) (rest : List ℕ) → (x ∷ rest) ≢ []
not_nil x rest e = ground arith

filter_by_region-nil : (h : Heap) (hint : String) → filter_by_region h [] hint ≡ []
unfolding filter_by_region
filter_by_region-nil h hint = ground arith

-- The candidates are accounts for the request, and there are some if any registered account is ready.
pub candidates_lem :
    (s : Scheduler) (model hint : String) (now : ℕ)
    → ((candidates s model hint now ≡ [])
        × (All (λ p. is_ready_for (s.heap p) model now ≡ false) (all s)))
      ⊎ ((c : ℕ) × (rest : List ℕ) × (candidates s model hint now ≡ c ∷ rest)
          × All (IsCandidate s model now) (c ∷ rest))
unfolding candidates narrowed
candidates_lem s model hint now = elim (List-cases (narrowed s model now)) [
  | inl e ↦ inl (rw e (filter_by_region-nil s.heap hint), narrowed_empty s model now e)
  | inr (x, xs, e) ↦
      let (some_left, within) =
        filter_by_region-Narrows s.heap (narrowed s model now) hint (IsCandidate s model now)
          (rw e (not_nil x xs)) (narrowed-IsCandidate s model now) in
      elim (List-cases (filter_by_region s.heap (narrowed s model now) hint)) [
        | inl f ↦ elim (some_left f) [ ]
        | inr (c, rest, f) ↦ inr (c, rest, f, subst (All (IsCandidate s model now)) f within)
      ]
]
