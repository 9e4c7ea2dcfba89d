-- ===== src/Pool/Conductor.antt =====
-- internal/pool/conductor_default.go: the choice and the reservation of an account for a request, with
-- no Redis store attached (`runtime` is nil). A request reads the clock once, `hint` is the region in
-- its context, and token refresh is left out.
pub mod Candidates
pub mod Complete
pub mod Sticky
use kirocc_prox.Base.{
  ℕ, ◌≡◌, refl, Bool, true, false, List, [], ◌∷◌, Option, none, some, String, str_eq, if◌then◌else◌,
  lookup, keep_if, ltb, ℤ, pos, leb_ℤ, ltb_ℤ, pos_part, ◌/◌, ◌*◌,
}
use kirocc_prox.Pool.Backoff.{second, minute}
use kirocc_prox.Pool.Credential.{Credential, is_ready_for, reserve, release_reservation}
use kirocc_prox.Pool.Store.{Heap, update}
use kirocc_prox.Pool.Selector.{Selector, pick}
use kirocc_prox.Pool.Scheduler.State.{Scheduler}
use kirocc_prox.Pool.Scheduler.Listing.{ready}
use kirocc_prox.Pool.Scheduler.Register.{lookup_id, release_successor}
use kirocc_prox.Pool.Affinity.{Affinity, get, set}
use kirocc_prox.Pool.Region.{filter_by_region}

pub record Conductor : Type 0 where
  pub sched : Scheduler
  pub selector : Selector
  pub affinity : Option Affinity

-- `Acquire` returns a pointer or an error.
pub data Acquired : Type 0 where
  acquired : ℕ → Acquired
  no_ready : Acquired
  context_done : Acquired

unfoldable pub new_conductor : Scheduler → Selector → Option Affinity → Conductor
new_conductor s sel aff = record { sched = s; selector = sel; affinity = aff }

-- `localReserve` on the credential behind a pointer.
unfoldable pub local_reserve : Scheduler → ℕ → String → ℕ → Scheduler × Bool
local_reserve s p model now =
    let r = reserve (s.heap p) model now in (record s { heap = update s.heap p r.0 }, r.1)

unfoldable pub filter_ready_for_model : Heap → List ℕ → String → ℕ → List ℕ
filter_ready_for_model h creds model now = keep_if (λ p. is_ready_for (h p) model now) creds

-- The slice that a round of `pickAndReserve` hands to the selector.
unfoldable pub candidates : Scheduler → String → String → ℕ → List ℕ
candidates s model hint now =
    filter_by_region s.heap (filter_ready_for_model s.heap (ready s now) model now) hint

-- A round after `Pick`, in the state that `Reserve` meets.
abbrev pub reserve_picked : Conductor → String → ℕ → Option ℕ → Conductor × Acquired
reserve_picked d model now none = (d, no_ready)
reserve_picked d model now (some p) =
    let r = local_reserve d.sched p model now in
    (record d { sched = r.0 }, if r.1 then acquired p else context_done)

-- A round that reserved nothing is followed by another one.
abbrev pub or_again : Conductor × Acquired → Conductor × Acquired → Conductor × Acquired
or_again (d, acquired p) again = (d, acquired p)
or_again (d, no_ready) again = (d, no_ready)
or_again (d, context_done) again = again

-- The selector's choice, which may move its cursor.
abbrev pub pick_one : Conductor → String → String → ℕ → Conductor × Option ℕ
pick_one d model hint now =
    let picked = pick d.sched.heap d.selector (candidates d.sched model hint now) in
    (record d { selector = picked.0 }, picked.1)

-- `pickAndReserve`. `others` are the steps of other requests between `Pick` and `Reserve`, one for each
-- round, on all that the requests share. The context is done when they are used up: then a round that
-- fails is the last one.
unfoldable pub pick_and_reserve :
    Conductor → String → String → ℕ → List (Conductor → Conductor) → Conductor × Acquired
pick_and_reserve d model hint now [] =
    let (d', picked) = pick_one d model hint now in reserve_picked d' model now picked
pick_and_reserve d model hint now (other ∷ others) =
    let picked = pick_one d model hint now in
    let r = reserve_picked (other picked.0) model now picked.1 in
    let again = pick_and_reserve r.0 model hint now others in or_again r again

-- `d.affinity != nil && sessionID != "" && !hadBinding`
abbrev pub bind : Option Affinity → String → Bool → String → ℕ → Option Affinity
bind none session had_binding id now = none
bind (some a) session true id now = some a
bind (some a) session false id now = some (set a session id now)

abbrev pub bind_acquired : Conductor × Acquired → String → Bool → ℕ → Conductor × Acquired
bind_acquired (d, acquired p) session had_binding now = (
  record d { affinity = bind d.affinity session had_binding (d.sched.heap p).id now },
  acquired p,
)
bind_acquired (d, no_ready) session had_binding now = (d, no_ready)
bind_acquired (d, context_done) session had_binding now = (d, context_done)

abbrev pub acquire_new :
    Conductor
    → String
    → String
    → String
    → ℕ
    → List (Conductor → Conductor)
    → Bool
    → Conductor × Acquired
acquire_new d model session hint now others had_binding =
    bind_acquired (pick_and_reserve d model hint now others) session had_binding now

-- The bound account, if it is registered and takes the request.
abbrev pub acquire_bound :
    Conductor
    → String
    → String
    → String
    → ℕ
    → List (Conductor → Conductor)
    → Option ℕ
    → Conductor × Acquired
acquire_bound d model session hint now others none =
    acquire_new d model session hint now others true
acquire_bound d model session hint now others (some p) =
    let (s, ok) = local_reserve d.sched p model now in
    if ok
    then (record d { sched = s }, acquired p)
    else acquire_new (record d { sched = s }) model session hint now others true

abbrev pub acquire_found :
    Conductor
    → String
    → String
    → String
    → ℕ
    → List (Conductor → Conductor)
    → Option String
    → Conductor × Acquired
acquire_found d model session hint now others none =
    acquire_new d model session hint now others false
acquire_found d model session hint now others (some id) =
    acquire_bound d model session hint now others (lookup_id d.sched id)

abbrev pub acquire_with :
    Conductor
    → String
    → String
    → String
    → ℕ
    → List (Conductor → Conductor)
    → Option Affinity
    → Conductor × Acquired
acquire_with d model session hint now others none =
    acquire_new d model session hint now others false
acquire_with d model session hint now others (some a) =
    let (a', found) = get a session now in
    acquire_found (record d { affinity = some a' }) model session hint now others found

unfoldable pub acquire :
    Conductor → String → String → String → ℕ → List (Conductor → Conductor) → Conductor × Acquired
acquire d model session hint now others = acquire_with d model session hint now others d.affinity

abbrev release_held : Scheduler × Bool → Option ℕ → String → ℕ → Scheduler
release_held (s, true) held model now = s
release_held (s, false) none model now = s
release_held (s, false) (some p) model now = record s {
  heap = update s.heap p (release_reservation (s.heap p) model now);
}

-- `Release`: on the registered successor of the account, or else on the object that the request holds.
unfoldable pub release : Conductor → Option ℕ → String → ℕ → Conductor
release d held model now = record d {
  sched = release_held (release_successor d.sched held model now) held model now;
}

unfoldable pub reservation_renew_interval : ℤ → ℕ
reservation_renew_interval ttl =
    if leb_ℤ ttl (pos 0)
    then minute
    else if ltb (pos_part ttl / 3) (second / 10)
    then second / 10
    else if ltb minute (pos_part ttl / 3)
    then minute
    else pos_part ttl / 3

unfoldable pub reservation_renew_retry_interval : ℤ → ℕ
reservation_renew_retry_interval base =
    if leb_ℤ base (pos 0)
    then second
    else if ltb (pos_part base / 4) second
    then second
    else if ltb (15 * second) (pos_part base / 4)
    then 15 * second
    else pos_part base / 4

-- A nil affinity has a term too.
unfoldable pub affinity_ttl : Option Affinity → ℕ
affinity_ttl none = 30 * minute
affinity_ttl (some a) = if ltb 0 a.ttl then a.ttl else 30 * minute
