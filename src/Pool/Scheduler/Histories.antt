-- ===== src/Pool/Scheduler/Histories.antt =====
-- Every operation of the scheduler as a step, and what holds after any history of them.
use kirocc_prox.Base.{ℕ, Bool, List, arith, Option, String, ℤ}
use kirocc_prox.Pool.Credential.{Credential, KiroQuotaSnapshot, reserve}
use kirocc_prox.Pool.Store.{Heap, update}
use kirocc_prox.Pool.Scheduler.State.{
  Scheduler, set_runtime_state, set_credential_store, new_default_scheduler,
}
use kirocc_prox.Pool.Scheduler.Register.{register, release_successor}
use kirocc_prox.Pool.Scheduler.Marks.{
  mark_success, mark_rate_limit, mark_auth_error, refresh_quota, record_quota_error,
}
use kirocc_prox.Pool.Scheduler.Admin.{set_enabled, add, remove_cred}
use kirocc_prox.Pool.Scheduler.Invariant.{
  IsValid, new-IsValid, SameIdentity, Inv-update, mark_success-IsValid, mark_rate_limit-IsValid,
  mark_auth_error-IsValid, record_quota_error-IsValid, set_enabled-IsValid, refresh_quota-IsValid,
  release_successor-IsValid,
}
use kirocc_prox.Pool.Scheduler.Membership.{add-IsValid, remove_cred-IsValid}
use kirocc_prox.Pool.Scheduler.Reload.{IsDistinct, register-IsValid}

-- One call on the scheduler, or one reservation on a credential that a request was given.
pub data Step (s : Scheduler) : Scheduler → Type 0 where
  attaches_runtime : (b : Bool) → Step s (set_runtime_state s b)
  attaches_store : (b : Bool) → Step s (set_credential_store s b)
  registers : (cs : List (Option ℕ)) → IsDistinct s.heap cs → Step s (register s cs)
  adds : (c : Option ℕ) → Step s (add s c).0
  removes : (id : String) → Step s (remove_cred s id).0
  enables : (id : String) (on : Bool) (now : ℕ) → Step s (set_enabled s id on now).0
  reserves :
      (p : ℕ) (model : String) (now : ℕ)
      → Step s (record s { heap = update s.heap p (reserve (s.heap p) model now).0 })
  releases : (c : Option ℕ) (model : String) (now : ℕ) → Step s (release_successor s c model now).0
  succeeds : (id model : String) (now : ℕ) → Step s (mark_success s id model now)
  is_limited :
      (id model : String) (retry_after : ℤ) (now : ℕ)
      → Step s (mark_rate_limit s id model retry_after now)
  fails_auth : (id reason : String) (now : ℕ) → Step s (mark_auth_error s id reason now)
  refreshes :
      (id : String) (snap : Option KiroQuotaSnapshot) (now : ℕ)
      → Step s (refresh_quota s id snap now)
  fails_quota : (id message : String) (now : ℕ) → Step s (record_quota_error s id message now)

pub data Reach (s : Scheduler) : Scheduler → Type 0 where
  here : Reach s s
  next : {t u : Scheduler} → Reach s t → Step t u → Reach s u

reserve-SameIdentity :
    (c : Credential) (model : String) (now : ℕ) → SameIdentity c (reserve c model now).0
unfolding reserve
reserve-SameIdentity c model now = ground arith

Step-IsValid : {s t : Scheduler} → Step s t → IsValid s → IsValid t
unfolding set_runtime_state set_credential_store
Step-IsValid (attaches_runtime b) v = v
Step-IsValid (attaches_store b) v = v
Step-IsValid {s} (registers cs d) v = register-IsValid s cs d v
Step-IsValid {s} (adds c) v = add-IsValid s c v
Step-IsValid {s} (removes id) v = remove_cred-IsValid s id v
Step-IsValid {s} (enables id on now) v = set_enabled-IsValid s id now v on
Step-IsValid {s} (reserves p model now) v =
    Inv-update p _ (reserve-SameIdentity (s.heap p) model now) v
Step-IsValid {s} (releases c model now) v = release_successor-IsValid model now s c v
Step-IsValid {s} (succeeds id model now) v = mark_success-IsValid s id now v model
Step-IsValid {s} (is_limited id model retry_after now) v =
    mark_rate_limit-IsValid s id now v model retry_after
Step-IsValid {s} (fails_auth id reason now) v = mark_auth_error-IsValid s id now v reason
Step-IsValid {s} (refreshes id snap now) v = refresh_quota-IsValid id now s snap v
Step-IsValid {s} (fails_quota id message now) v = record_quota_error-IsValid s id now v message

Reach-IsValid : {s t : Scheduler} → IsValid s → Reach s t → IsValid t
Reach-IsValid v here = v
Reach-IsValid v (next r st) = Step-IsValid st (Reach-IsValid v r)

-- After any history of calls that starts from a new scheduler, each registered account stands under
-- its own ID, no two accounts share a runtime identity, and the order lists each registered ID once
-- and no other ID. A reload must bring different IDs.
pub history-IsValid : (h : Heap) {s : Scheduler} → Reach (new_default_scheduler h) s → IsValid s
history-IsValid h r = Reach-IsValid (new-IsValid h) r
