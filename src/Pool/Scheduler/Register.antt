-- ===== src/Pool/Scheduler/Register.antt =====
-- internal/pool/scheduler_default.go: `Register`, `copyRuntimeState` and the release of a
-- reservation that was made before a reload.
use kirocc_prox.Base.{
  ℕ, ◌+◌, ◌==◌, Bool, true, false, Option, none, some, List, [], ◌∷◌, ◌++◌, String, str_eq,
  if◌then◌else◌, Map, lookup, insert,
}
use kirocc_prox.Pool.Credential.{Credential, release_reservation}
use kirocc_prox.Pool.Store.{Heap, update}
use kirocc_prox.Pool.Scheduler.State.{Scheduler}

-- The runtime fields that a reload copies from the old object.
unfoldable pub copy_runtime_state : Credential → Credential → Credential
copy_runtime_state src dst = record dst {
  quota = src.quota;
  success = src.success;
  failed = src.failed;
  in_flight = src.in_flight;
  last_used_at = src.last_used_at;
  disabled = src.disabled;
  disabled_reason = src.disabled_reason;
  disabled_at = src.disabled_at;
  last_quota = src.last_quota;
  last_quota_at = src.last_quota_at;
  last_quota_error = src.last_quota_error;
  last_quota_error_at = src.last_quota_error_at;
  model_states = src.model_states;
  in_flight_by_model = src.in_flight_by_model;
}

-- The locals of `Register`'s loop, with the state that it writes.
pub record Loading : Type 0 where
  pub heap : Heap
  pub next : Map ℕ
  pub order : List String
  pub next_runtime_id : ℕ

-- A credential that the old map knows keeps its identity and, if it is another object, its state.
abbrev pub adopt : Heap → ℕ → ℕ → Credential
adopt h old p =
    let c = record (h p) { runtime_id = (h old).runtime_id } in
    if old == p then c else copy_runtime_state (h old) c

abbrev pub load_known : Loading → ℕ → Option ℕ → Loading
load_known l p (some old) = record l {
  heap = update l.heap p (adopt l.heap old p);
  next = insert (l.heap p).id p l.next;
  order = l.order ++ (l.heap p).id ∷ [];
}
load_known l p none = record l {
  heap = update l.heap p (record (l.heap p) { runtime_id = l.next_runtime_id + 1 });
  next = insert (l.heap p).id p l.next;
  order = l.order ++ (l.heap p).id ∷ [];
  next_runtime_id = l.next_runtime_id + 1;
}

-- One round of the loop; a nil pointer and an empty ID are skipped.
unfoldable pub load_one : Map ℕ → Loading → Option ℕ → Loading
load_one old l none = l
load_one old l (some p) =
    if str_eq (l.heap p).id "" then l else load_known l p (lookup (l.heap p).id old)

unfoldable pub load_all : Map ℕ → Loading → List (Option ℕ) → Loading
load_all old l [] = l
load_all old l (c ∷ cs) = load_all old (load_one old l c) cs

unfoldable pub register : Scheduler → List (Option ℕ) → Scheduler
register s cs =
    let start : Loading = record {
      heap = s.heap;
      next = [];
      order = [];
      next_runtime_id = s.next_runtime_id;
    } in
    let l = load_all s.creds start cs in
    record s { heap = l.heap; creds = l.next; order = l.order; next_runtime_id = l.next_runtime_id }

-- `Lookup`; `none` is nil.
abbrev pub lookup_id : Scheduler → String → Option ℕ
lookup_id s id = lookup id s.creds

abbrev pub release_current : Scheduler → Credential → String → ℕ → Option ℕ → Scheduler × Bool
release_current s cred model now none = (s, false)
release_current s cred model now (some p) =
    if (s.heap p).runtime_id == cred.runtime_id
    then (record s { heap = update s.heap p (release_reservation (s.heap p) model now) }, true)
    else (s, false)

-- `DefaultScheduler.ReleaseReservation`: the request holds a pointer that may be out of date.
unfoldable pub release_successor : Scheduler → Option ℕ → String → ℕ → Scheduler × Bool
release_successor s none model now = (s, false)
release_successor s (some held) model now =
    release_current s (s.heap held) model now (lookup (s.heap held).id s.creds)
