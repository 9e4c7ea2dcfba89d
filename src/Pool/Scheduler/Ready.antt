-- ===== src/Pool/Scheduler/Ready.antt =====
-- `Ready`: sorted by falling priority, stable, and exactly the registered accounts that are ready.
use kirocc_prox.Base.{
  ℕ, ◌≡◌, refl, inl, inr, false, List, [], ◌∷◌, arith, ℤ, ◌≤ℤ◌, eq_ℤ, All, All-map, ltb_ℤ,
  if◌then◌else◌, Bool-cases, keep_if, ◌∙◌, ap,
}
use kirocc_prox.Pool.Credential.{is_ready_for}
use kirocc_prox.Pool.Store.{Heap}
use kirocc_prox.Pool.Scheduler.State.{Scheduler}
use kirocc_prox.Pool.Scheduler.Listing.{all, insert_sorted, sort_stable, ready}
use kirocc_prox.Pool.Selector.Minimal.{IsDescending}

module _ (h : Heap) where
  insert_sorted-All :
      (P : ℕ → Type 0) (p : ℕ) (qs : List ℕ) → P p → All P qs → All P (insert_sorted h p qs)
  unfolding insert_sorted
  insert_sorted-All P p [] a v = (a, tt)
  insert_sorted-All P p (q ∷ qs) a v = ground (arith, insert_sorted-All P p qs a v.1)

  insert_sorted-IsDescending :
      (p : ℕ) (qs : List ℕ) → IsDescending h qs → IsDescending h (insert_sorted h p qs)
  unfolding insert_sorted
  insert_sorted-IsDescending p [] d = (tt, tt)
  insert_sorted-IsDescending p (q ∷ qs) d =
      elim (Bool-cases (ltb_ℤ (h p).priority (h q).priority)) [
        | inl below ↦ rw below (
          insert_sorted-All (λ r. (h r).priority ≤ℤ (h q).priority) p qs (ground arith) d.0,
          insert_sorted-IsDescending p qs d.1,
        )
        | inr above ↦ rw above (
          (le_of_not_lt above, All-map _ _ qs (λ r k. le_trans_ℤ r q p k (le_of_not_lt above)) d.0),
          d,
        )
      ]
    where
      le_of_not_lt : ltb_ℤ (h p).priority (h q).priority ≡ false → (h q).priority ≤ℤ (h p).priority
      le_of_not_lt e = ground arith

      le_trans_ℤ :
          (a b c : ℕ)
          → (h a).priority ≤ℤ (h b).priority
          → (h b).priority ≤ℤ (h c).priority
          → (h a).priority ≤ℤ (h c).priority
      le_trans_ℤ a b c k l = omega arith

  sort_stable-IsDescending : (ps : List ℕ) → IsDescending h (sort_stable h ps)
  unfolding sort_stable
  sort_stable-IsDescending [] = tt
  sort_stable-IsDescending (p ∷ ps) = insert_sorted-IsDescending p _ (sort_stable-IsDescending ps)

  -- The accounts of one priority, in their order.
  abbrev pub group : ℤ → List ℕ → List ℕ
  group k = keep_if (λ p. eq_ℤ (h p).priority k)

  group-insert_sorted :
      (k : ℤ) (p : ℕ) (qs : List ℕ) → group k (insert_sorted h p qs) ≡ group k (p ∷ qs)
  unfolding insert_sorted
  group-insert_sorted k p [] = refl
  group-insert_sorted k p (q ∷ qs) = ground (arith, group-insert_sorted k p qs)

  group-sort_stable : (k : ℤ) (ps : List ℕ) → group k (sort_stable h ps) ≡ group k ps
  unfolding sort_stable
  group-sort_stable k [] = refl
  group-sort_stable k (p ∷ ps) =
      group-insert_sorted k p (sort_stable h ps)
      ∙ ap (λ qs. if eq_ℤ (h p).priority k then p ∷ qs else qs) (group-sort_stable k ps)

  -- A stable sort by falling priority: sorted, and each group of equal priority in its old order.
  pub record IsStableSort (ps qs : List ℕ) : Type 0 where
    pub sorted : IsDescending h qs
    pub stable : (k : ℤ) → group k qs ≡ group k ps

-- `Ready` returns the registered accounts that are ready now, the higher priorities first and
-- accounts of one priority in the order in which they were registered: no account is lost or
-- repeated, and none that is not ready appears.
pub ready-IsStableSort :
    (s : Scheduler) (now : ℕ)
    → IsStableSort s.heap (keep_if (λ p. is_ready_for (s.heap p) "" now) (all s)) (ready s now)
unfolding ready
ready-IsStableSort s now = record {
  sorted = sort_stable-IsDescending s.heap _;
  stable = λ k. group-sort_stable s.heap k _;
}
