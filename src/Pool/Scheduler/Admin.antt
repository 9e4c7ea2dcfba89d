-- ===== src/Pool/Scheduler/Admin.antt =====
-- internal/pool/scheduler_default.go: what an operator changes, one credential at a time.
use kirocc_prox.Base.{
  ℕ, ◌+◌, ◌==◌, Bool, true, false, Option, none, some, List, [], ◌∷◌, ◌++◌, String, str_eq,
  if◌then◌else◌, lookup, insert, remove,
}
use kirocc_prox.Pool.Credential.{Credential, no_quota}
use kirocc_prox.Pool.Store.{update}
use kirocc_prox.Pool.Scheduler.State.{
  Scheduler, clear_cooldown, Error, credential_not_found, duplicate_id, invalid_credential, call_if,
  persist_credential_async,
}

abbrev pub enabled : Credential → Credential
enabled c = record c { disabled = false; disabled_reason = ""; disabled_at = 0; quota = no_quota }

-- `if c.DisabledAt.IsZero() { c.DisabledAt = time.Now() }`
abbrev pub disabled_by_operator : Credential → ℕ → Credential
disabled_by_operator c now = record c {
  disabled = true;
  disabled_at = if c.disabled_at == 0 then now else c.disabled_at;
}

-- The two branches of `SetEnabled` on a registered credential.
unfoldable pub set_found : Scheduler → String → Bool → ℕ → ℕ → Scheduler
unfolding persist_credential_async
set_found s id true now p =
    persist_credential_async
      (record s {
        heap = update s.heap p (enabled (s.heap p));
        calls = call_if s.runtime (clear_cooldown id "") s.calls;
      })
      p
set_found s id false now p =
    persist_credential_async
      (record s { heap = update s.heap p (disabled_by_operator (s.heap p) now) }) p

unfoldable pub set_enabled : Scheduler → String → Bool → ℕ → Scheduler × Option Error
unfolding set_found
set_enabled s id on now = elim (lookup id s.creds) [
  | none ↦ (s, some credential_not_found)
  | some p ↦ (set_found s id on now p, none)
]

abbrev pub add_new : Scheduler → ℕ → Option ℕ → Scheduler × Option Error
add_new s p (some q) = (s, some duplicate_id)
add_new s p none = (
  record s {
    heap = update s.heap p (record (s.heap p) { runtime_id = s.next_runtime_id + 1 });
    creds = insert (s.heap p).id p s.creds;
    order = s.order ++ (s.heap p).id ∷ [];
    next_runtime_id = s.next_runtime_id + 1;
  },
  none,
)

unfoldable pub add : Scheduler → Option ℕ → Scheduler × Option Error
add s none = (s, some invalid_credential)
add s (some p) =
    if str_eq (s.heap p).id ""
    then (s, some invalid_credential)
    else add_new s p (lookup (s.heap p).id s.creds)

-- The loop of `Remove`: the first entry of the order with the ID goes.
unfoldable pub remove_first : String → List String → List String
remove_first id [] = []
remove_first id (x ∷ xs) = if str_eq x id then xs else x ∷ remove_first id xs

-- `Remove`
unfoldable pub remove_cred : Scheduler → String → Scheduler × Option Error
remove_cred s id = elim (lookup id s.creds) [
  | none ↦ (s, some credential_not_found)
  | some p ↦ (record s { creds = remove id s.creds; order = remove_first id s.order }, none)
]
