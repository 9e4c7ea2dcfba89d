-- ===== src/Pool/SessionTests.antt =====
-- Sticky sessions and region hints on concrete input, and their theorems at inputs that meet the
-- hypotheses.
use kirocc_prox.Base.{
  zero, suc, pos, ◌≤◌, ◌≡◌, refl, ◌≢◌, false, [], ◌∷◌, arith, Option, none, some, String,
  str_eq_iff, All, lookup, insert, remove,
}
use kirocc_prox.Pool.Affinity.{Affinity, get, set, gets, bound, gets-set, set-bound}
use kirocc_prox.Pool.Region.{
  region_continent, before_dash, filter_by_region, filter_by_region-Narrows,
}
use kirocc_prox.Pool.Credential.{Credential, no_quota}
use kirocc_prox.Pool.Store.{Heap}
use kirocc_prox.Pool.Credential.{is_ready_for, reserve}
use kirocc_prox.Pool.Selector.{fill_first, pick}
use kirocc_prox.Pool.Scheduler.State.{Scheduler}
use kirocc_prox.Pool.Scheduler.Listing.{ready, sort_stable, insert_sorted, all, pointers}
use kirocc_prox.Pool.Conductor.{
  Conductor, acquire, acquired, pick_and_reserve, candidates, filter_ready_for_model, local_reserve,
  bind,
}
use kirocc_prox.Pool.Conductor.Complete.{Served, acquire-IsServed}
use kirocc_prox.Pool.Conductor.Sticky.{IsBoundIn, LeavesBound, acquire-keeps_bound}

abbrev sessions : Affinity
sessions = record { ttl = 100; entries = ("s", record { cred_id = "a"; expire_at = 50 }) ∷ [] }

gets_runs :
    ((get sessions "s" 50).1 ≡ some "a")
    × ((get sessions "s" 51).1 ≡ none)
    × ((get (get sessions "s" 50).0 "s" 150).1 ≡ some "a")
unfolding get lookup insert remove
gets_runs = (refl, refl, refl)

gets-set_example : bound (gets (set sessions "t" "b" 10) "t" (90 ∷ 170 ∷ [])) "t" 260 ≡ some "b"
gets-set_example =
    gets-set sessions "t" "b" 10 (90 ∷ 170 ∷ []) 260 (λ e. ground (arith, str_eq_iff "t" ""))
      (λ e. ground (arith, str_eq_iff "b" ""))
      (omega arith, omega arith, (omega arith, omega arith, (omega arith, omega arith)))

abbrev account_in : String → Credential
account_in region = record {
  id = region;
  label = "";
  provider = "kiro";
  priority = pos 1;
  disabled = false;
  disable_cooling = false;
  max_in_flight = pos 3;
  proxy_url = "";
  runtime_id = 0;
  region = region;
  quota = no_quota;
  model_states = [];
  success = 0;
  failed = 0;
  in_flight = 0;
  in_flight_by_model = [];
  last_used_at = 0;
  disabled_reason = "";
  disabled_at = 0;
  last_quota = none;
  last_quota_at = 0;
  last_quota_error = "";
  last_quota_error_at = 0;
}

abbrev regions : Heap
regions zero = account_in "us-east-1"
regions (suc zero) = account_in "eu-west-1"
regions (suc (suc n)) = account_in "us-west-2"

filter_by_region_runs :
    (filter_by_region regions (0 ∷ 1 ∷ 2 ∷ []) "us-west-2" ≡ 2 ∷ [])
    × (filter_by_region regions (0 ∷ 1 ∷ 2 ∷ []) "us-west-9" ≡ 0 ∷ 2 ∷ [])
    × (filter_by_region regions (0 ∷ 1 ∷ 2 ∷ []) "ap-1" ≡ 0 ∷ 1 ∷ 2 ∷ [])
unfolding filter_by_region region_continent before_dash
filter_by_region_runs = (refl, refl, refl)

filter_by_region-Narrows_example :
    (filter_by_region regions (0 ∷ 2 ∷ []) "us-west-9" ≢ [])
    × All (λ p. p ≤ 2) (filter_by_region regions (0 ∷ 2 ∷ []) "us-west-9")
filter_by_region-Narrows_example =
    filter_by_region-Narrows regions (0 ∷ 2 ∷ []) "us-west-9" (λ p. p ≤ 2) (λ e. ground arith)
      (omega arith, (omega arith, tt))

abbrev two_regions : Scheduler
two_regions = record {
  heap = regions;
  creds = ("us-east-1", 0) ∷ ("eu-west-1", 1) ∷ [];
  order = "us-east-1" ∷ "eu-west-1" ∷ [];
  next_runtime_id = 2;
  runtime = false;
  store = false;
  calls = [];
}

abbrev sticky : Affinity
sticky = record {
  ttl = 100;
  entries = ("s", record { cred_id = "eu-west-1"; expire_at = 50 }) ∷ [];
}

-- The session "s" is bound to the second account until 50.
abbrev conductor : Conductor
conductor = record { sched = two_regions; selector = fill_first; affinity = some sticky }

acquire_runs :
    ((acquire conductor "m" "t" "" 5 []).1 ≡ acquired 0)
    × ((acquire conductor "m" "t" "eu-central-1" 5 []).1 ≡ acquired 1)
    × ((acquire conductor "m" "s" "" 5 []).1 ≡ acquired 1)
    × ((acquire conductor "m" "s" "" 51 []).1 ≡ acquired 0)
unfolding acquire pick_and_reserve candidates filter_ready_for_model ready sort_stable insert_sorted
    all pointers lookup is_ready_for filter_by_region region_continent before_dash pick
    local_reserve reserve get insert remove
acquire_runs = (refl, refl, refl, refl)

acquire-IsServed_example :
    Served two_regions "m" 5
      (acquire conductor "m" "t" "eu-central-1" 5 []).0.sched
      (acquire conductor "m" "t" "eu-central-1" 5 []).1
acquire-IsServed_example = acquire-IsServed conductor "m" "t" "eu-central-1" 5

-- Another request binds its own session meanwhile.
abbrev bind_other : Conductor → Conductor
bind_other d = record d { affinity = bind d.affinity "t" false "eu-west-1" 5 }

bind_other-LeavesBound : LeavesBound "s" "eu-west-1" 105 bind_other
bind_other-LeavesBound d h = leaves d.affinity h
  where
    leaves :
        (aff : Option Affinity)
        → IsBoundIn "s" "eu-west-1" 105 aff
        → IsBoundIn "s" "eu-west-1" 105 (bind aff "t" false "eu-west-1" 5)
    leaves none k = elim k [ ]
    leaves (some a) k = ground (
      arith,
      set-bound a "t" "s" "eu-west-1" 5 105 (λ e. ground (arith, str_eq_iff "t" ""))
          (λ e. ground (arith, str_eq_iff "eu-west-1" "")),
      str_eq_iff "t" "s",
      k,
    )

acquire-keeps_bound_example :
    IsBoundIn "s" "eu-west-1" 105 (acquire conductor "m" "s" "" 5 (bind_other ∷ [])).0.affinity
unfolding bound lookup
acquire-keeps_bound_example =
    acquire-keeps_bound conductor sticky "m" "s" "" "eu-west-1" 5 105 (bind_other ∷ []) refl refl
      (omega arith) (omega arith) (bind_other-LeavesBound, tt)
