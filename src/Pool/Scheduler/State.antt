-- ===== src/Pool/Scheduler/State.antt =====
-- internal/pool/scheduler_default.go: the scheduler and what it asks of the stores.
use kirocc_prox.Base.{ℕ, Bool, false, List, [], ◌∷◌, ◌++◌, String, if◌then◌else◌, Map}
use kirocc_prox.Pool.Store.{Heap}

-- What the scheduler asks of the Redis store and of the credential store.
pub data Call : Type 0 where
  set_cooldown : String → String → ℕ → Call
  clear_cooldown : String → String → Call
  save_one : ℕ → Call

pub record Scheduler : Type 0 where
  pub heap : Heap
  pub creds : Map ℕ
  pub order : List String
  pub next_runtime_id : ℕ
  pub runtime : Bool  -- a Redis store is attached
  pub store : Bool  -- a credential store is attached
  pub calls : List Call

pub data Error : Type 0 where
  credential_not_found duplicate_id invalid_credential : Error

unfoldable pub new_default_scheduler : Heap → Scheduler
new_default_scheduler h = record {
  heap = h;
  creds = [];
  order = [];
  next_runtime_id = 0;
  runtime = false;
  store = false;
  calls = [];
}

unfoldable pub set_runtime_state : Scheduler → Bool → Scheduler
set_runtime_state s attached = record s { runtime = attached }

unfoldable pub set_credential_store : Scheduler → Bool → Scheduler
set_credential_store s attached = record s { store = attached }

abbrev pub call_if : Bool → Call → List Call → List Call
call_if attached c calls = if attached then calls ++ c ∷ [] else calls

unfoldable pub persist_credential_async : Scheduler → ℕ → Scheduler
persist_credential_async s p = record s { calls = call_if s.store (save_one p) s.calls }
