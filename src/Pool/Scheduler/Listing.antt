-- ===== src/Pool/Scheduler/Listing.antt =====
-- internal/pool/scheduler_default.go: `All` and `Ready`.
use kirocc_prox.Base.{
  ℕ, none, some, List, [], ◌∷◌, String, if◌then◌else◌, ltb_ℤ, Map, lookup, keep_if,
}
use kirocc_prox.Pool.Credential.{is_ready_for}
use kirocc_prox.Pool.Store.{Heap}
use kirocc_prox.Pool.Scheduler.State.{Scheduler}

-- The registered pointers in insertion order.
unfoldable pub pointers : Map ℕ → List String → List ℕ
pointers m [] = []
pointers m (id ∷ ids) = elim (lookup id m) [ none ↦ pointers m ids | some p ↦ p ∷ pointers m ids ]

unfoldable pub all : Scheduler → List ℕ
all s = pointers s.creds s.order

-- `sort.SliceStable` by falling priority: equal priorities keep their order.
unfoldable pub insert_sorted : Heap → ℕ → List ℕ → List ℕ
insert_sorted h p [] = p ∷ []
insert_sorted h p (q ∷ qs) =
    if ltb_ℤ (h p).priority (h q).priority then q ∷ insert_sorted h p qs else p ∷ q ∷ qs

unfoldable pub sort_stable : Heap → List ℕ → List ℕ
sort_stable h [] = []
sort_stable h (p ∷ ps) = insert_sorted h p (sort_stable h ps)

unfoldable pub ready : Scheduler → ℕ → List ℕ
ready s now = sort_stable s.heap (keep_if (λ p. is_ready_for (s.heap p) "" now) (all s))
