-- ===== src/Pool/Tests.antt =====
-- The pool's definitions on concrete accounts, and the theorems at inputs that meet their hypotheses.
use kirocc_prox.Base.{
  ℕ, ◌≡◌, refl, inl, inr, false, [], ◌∷◌, arith, none, some, String, str_eq_iff, if◌then◌else◌,
  lookup, insert, remove, pos, negsuc, get_elem?, ◌%◌, ◌==◌, ◌*◌, keep_if,
}
use kirocc_prox.Pool.Backoff.{
  next_backoff, backoff_for, clamp_level, clamp_retry_after, second, minute, documented_schedule,
  next_backoff-documented_schedule,
}
use kirocc_prox.Pool.Credential.{Credential, no_quota, is_ready_for, reserve}
use kirocc_prox.Pool.Credential.Ready.{reserve-is_ready_for}
use kirocc_prox.Pool.Credential.InFlight.{Session, Step, Reach, IsExact, Reach-IsExact, count}
use kirocc_prox.Pool.Store.{Heap}
use kirocc_prox.Pool.Selector.{weighted_least_in_flight, round_robin, pick}
use kirocc_prox.Pool.Selector.Choice.{Chooses, pick-IsBest, after_picks, round_robin_cycles}
use kirocc_prox.Pool.Scheduler.State.{Scheduler, new_default_scheduler}
use kirocc_prox.Pool.Scheduler.Listing.{all, ready, pointers}
use kirocc_prox.Pool.Scheduler.Register.{register, load_all, load_one}
use kirocc_prox.Pool.Scheduler.Admin.{add, remove_cred, remove_first}
use kirocc_prox.Pool.Scheduler.Marks.{mark_rate_limit}
use kirocc_prox.Pool.Scheduler.Invariant.{IsValid}
use kirocc_prox.Pool.Scheduler.Ready.{IsStableSort, ready-IsStableSort}
use kirocc_prox.Pool.Scheduler.Histories
use kirocc_prox.Pool.Scheduler.Handoff.{Releases, release_after_reload, release_after_replacement}
use kirocc_prox.Pool.Scheduler.Outcomes.{mark_rate_limit_cools}

abbrev account : String → ℕ → ℕ → Credential
account id priority busy = record {
  id = id;
  label = "";
  provider = "kiro";
  priority = pos priority;
  disabled = false;
  disable_cooling = false;
  max_in_flight = pos 3;
  proxy_url = "";
  runtime_id = 0;
  region = "us-east-1";
  quota = no_quota;
  model_states = [];
  success = 0;
  failed = 0;
  in_flight = busy;
  in_flight_by_model = [];
  last_used_at = 0;
  disabled_reason = "";
  disabled_at = 0;
  last_quota = none;
  last_quota_at = 0;
  last_quota_error = "";
  last_quota_error_at = 0;
}

next_backoff_runs :
    (next_backoff (pos 2) (pos 0) ≡ 120 * second)
    × (next_backoff (pos 40) (negsuc 4) ≡ 30 * minute)
    × (next_backoff (pos 0) (pos 5) ≡ 30 * second)
unfolding next_backoff backoff_for clamp_level clamp_retry_after
next_backoff_runs = (refl, refl, refl)

next_backoff-documented_schedule_example : next_backoff (pos 3) (pos 0) ≡ documented_schedule 3
next_backoff-documented_schedule_example = next_backoff-documented_schedule 3 (pos 0) (omega arith)

reserve-is_ready_for_example :
    (reserve (account "a" 1 3) "m" 5).1 ≡ is_ready_for (account "a" 1 3) "m" 5
reserve-is_ready_for_example = reserve-is_ready_for (account "a" 1 3) "m" 5

-- One account with room for three, and two requests that come and go.
abbrev idle : Session
idle = record { cred = account "a" 1 0; held = [] }

idle-IsExact : IsExact idle
unfolding lookup count
idle-IsExact = record { total = refl; by_model = λ m h. refl; capped = inr (omega arith) }

Reach-IsExact_example :
    IsExact
      (record { cred = (reserve (reserve (account "a" 1 0) "m" 5).0 "" 6).0; held = "" ∷ "m" ∷ [] })
unfolding reserve lookup
Reach-IsExact_example = Reach-IsExact idle-IsExact (
    Reach.next (Reach.next Reach.here (Step.reserved idle "m" 5 refl)) (
      Step.reserved (record { cred = (reserve (account "a" 1 0) "m" 5).0; held = "m" ∷ [] }) "" 6
        refl))

-- Three objects behind the addresses 0, 1 and 2, and a second object for "a" behind 3.
abbrev three : Heap
three p =
    if p == 0
    then account "a" 1 2
    else if p == 1
    then account "b" 2 3
    else if p == 2
    then account "c" 2 1
    else account "a" 1 0

pick-IsBest_example : Chooses weighted_least_in_flight three (1 ∷ 2 ∷ 0 ∷ [])
pick-IsBest_example =
    pick-IsBest weighted_least_in_flight three 1 (2 ∷ 0 ∷ []) refl
      ((omega arith, (omega arith, tt)), ((omega arith, tt), (tt, tt)))
      ((omega arith, omega arith), ((omega arith, omega arith), ((omega arith, omega arith), tt)))

round_robin_cycles_example :
    (pick three (after_picks three (1 ∷ 2 ∷ 0 ∷ []) 7 (round_robin 0)) (1 ∷ 2 ∷ 0 ∷ [])).1
    ≡ get_elem? (1 ∷ 2 ∷ 0 ∷ []) (7 % 3)
round_robin_cycles_example = round_robin_cycles three 1 (2 ∷ 0 ∷ []) 7

-- "a" and "b" are registered; a reload brings the object behind 3 for "a", and drops "b" for "c".
abbrev loaded : Scheduler
loaded = register (new_default_scheduler three) (some 0 ∷ some 1 ∷ [])

program : Unit {0}
unfolding new_default_scheduler register load_all load_one lookup insert remove add remove_cred
    remove_first all pointers
program = tt

loaded-Reach : Histories.Reach (new_default_scheduler three) loaded
unfolding new_default_scheduler
loaded-Reach = Histories.Reach.next Histories.Reach.here (
    Histories.Step.registers (some 0 ∷ some 1 ∷ [])
      ((λ e. ground (arith, str_eq_iff "a" "b"), tt), (tt, tt)))

loaded-IsValid : IsValid loaded
loaded-IsValid = Histories.history-IsValid three loaded-Reach

history-IsValid_example : IsValid (mark_rate_limit loaded "a" "m" (pos 0) 9)
history-IsValid_example =
    Histories.history-IsValid three
      (Histories.Reach.next loaded-Reach (Histories.Step.is_limited "a" "m" (pos 0) 9))

ready-IsStableSort_example :
    IsStableSort loaded.heap
      (keep_if (λ p. is_ready_for (loaded.heap p) "" 5) (all loaded))
      (ready loaded 5)
ready-IsStableSort_example = ready-IsStableSort loaded 5

found_a : lookup "a" loaded.creds ≡ some 0
unfolding program
found_a = refl

mark_rate_limit_cools_example :
    is_ready_for ((mark_rate_limit loaded "a" "m" (pos 0) 9).heap 0) "m" 10 ≡ false
unfolding program
mark_rate_limit_cools_example =
    (mark_rate_limit_cools loaded "a" 0 found_a "m" (pos 0) 9 refl).0 "m" 10 (omega arith)

release_after_reload_example : Releases (register loaded (some 3 ∷ some 2 ∷ [])) 0 3 "" 9
unfolding program
release_after_reload_example =
    (release_after_reload loaded (some 3 ∷ some 2 ∷ []) 0 3 "" 9 loaded-IsValid
      ((λ e. ground (arith, str_eq_iff "a" "c"), tt), (tt, tt)) (inl refl) refl (omega arith)
      (λ e. ground (arith, str_eq_iff "a" ""))).2

release_after_replacement_example : (add (remove_cred loaded "a").0 (some 3)).1 ≡ none
unfolding program
release_after_replacement_example =
    (release_after_replacement loaded 0 3 "" 9 loaded-IsValid refl (omega arith)
      (λ e. ground (arith, str_eq_iff "a" ""))).0
