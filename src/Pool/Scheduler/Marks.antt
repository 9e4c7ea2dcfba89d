-- ===== src/Pool/Scheduler/Marks.antt =====
-- internal/pool/scheduler_default.go: the outcomes that handlers and the quota poller report.
use kirocc_prox.Base.{
  ℕ, ◌+◌, ◌*◌, true, not, ◌&&◌, Option, none, some, List, [], ◌∷◌, ◌++◌, String, str_eq, ltb,
  if◌then◌else◌, ℤ, pos, Map, lookup, insert,
}
use kirocc_prox.Pool.Backoff.{next_backoff, minute}
use kirocc_prox.Pool.Credential.{
  Credential, QuotaState, ModelState, KiroQuotaSnapshot, no_quota, no_model_state,
}
use kirocc_prox.Pool.Store.{update}
use kirocc_prox.Pool.Scheduler.State.{
  Scheduler, Call, set_cooldown, clear_cooldown, call_if, persist_credential_async,
}

-- `ensureModelStateLocked` and the update of the state that it returns.
abbrev pub model_state_of : Option ModelState → ModelState
model_state_of none = no_model_state
model_state_of (some ms) = ms

abbrev pub with_model : Credential → String → (ModelState → ModelState) → Map ModelState
with_model c model f =
    if str_eq model ""
    then c.model_states
    else insert model (f (model_state_of (lookup model c.model_states))) c.model_states

abbrev pub succeeded : Credential → String → ℕ → Credential
succeeded c model now = record c {
  quota = no_quota;
  success = c.success + 1;
  last_used_at = now;
  model_states =
      with_model c model (λ ms. record ms { quota = no_quota; success = ms.success + 1 });
}

unfoldable pub mark_success : Scheduler → String → String → ℕ → Scheduler
mark_success s id model now = elim (lookup id s.creds) [
  | none ↦ s
  | some p ↦ record s {
    heap = update s.heap p (succeeded (s.heap p) model now);
    calls = call_if s.runtime (clear_cooldown id model) s.calls;
  }
]

abbrev pub cooled : QuotaState → ℤ → ℕ → QuotaState
cooled q retry_after now = record {
  exceeded = true;
  next_recover_at = now + next_backoff (pos q.backoff_level) retry_after;
  backoff_level = q.backoff_level + 1;
}

abbrev pub rate_limited : Credential → String → ℤ → ℕ → Credential
rate_limited c model retry_after now =
    if c.disable_cooling
    then record c {
      failed = c.failed + 1;
      model_states = with_model c model (λ ms. record ms { failed = ms.failed + 1 });
    }
    else record c {
      failed = c.failed + 1;
      quota = cooled c.quota retry_after now;
      model_states =
          with_model c model
            (λ ms. record ms { quota = cooled ms.quota retry_after now; failed = ms.failed + 1 });
    }

-- The account's cooldown, and the model's if a model is named and its duration positive.
abbrev pub cooldown_calls : Credential → String → String → ℤ → List Call
cooldown_calls c id model retry_after =
    let d = next_backoff (pos c.quota.backoff_level) retry_after in
    let ms = model_state_of (lookup model c.model_states) in
    let md = next_backoff (pos ms.quota.backoff_level) retry_after in
    set_cooldown id "" d
    ∷ (if not (str_eq model "") && ltb 0 md then set_cooldown id model md ∷ [] else [])

unfoldable pub mark_rate_limit : Scheduler → String → String → ℤ → ℕ → Scheduler
mark_rate_limit s id model retry_after now = elim (lookup id s.creds) [
  | none ↦ s
  | some p ↦ record s {
    heap = update s.heap p (rate_limited (s.heap p) model retry_after now);
    calls =
        if not (s.heap p).disable_cooling && s.runtime
        then s.calls ++ cooldown_calls (s.heap p) id model retry_after
        else s.calls;
  }
]

-- `24*time.Hour`
abbrev pub auth_cooldown : ℕ
auth_cooldown = 24 * (60 * minute)

unfoldable pub mark_auth_error : Scheduler → String → String → ℕ → Scheduler
unfolding persist_credential_async
mark_auth_error s id reason now = elim (lookup id s.creds) [
  | none ↦ s
  | some p ↦
      persist_credential_async
        (record s {
          heap =
              update s.heap p (record (s.heap p) {
                disabled = true;
                disabled_reason = reason;
                disabled_at = now;
              });
          calls = call_if s.runtime (set_cooldown id "" auth_cooldown) s.calls;
        })
        p
]

abbrev pub ban_reason_of : KiroQuotaSnapshot → String
ban_reason_of snap = if str_eq snap.ban_reason "" then "banned" else snap.ban_reason

abbrev pub after_ban : Scheduler → String → Option KiroQuotaSnapshot → ℕ → Scheduler
after_ban s id none now = s
after_ban s id (some snap) now =
    if snap.banned then mark_auth_error s id (ban_reason_of snap) now else s

-- The snapshot is stored and the last fetch error forgotten.
unfoldable pub refreshed : Scheduler → ℕ → Option KiroQuotaSnapshot → ℕ → Scheduler
refreshed s p snap now = record s {
  heap = update s.heap p (record (s.heap p) {
    last_quota = snap;
    last_quota_at = now;
    last_quota_error = "";
    last_quota_error_at = 0;
  });
}

unfoldable pub refresh_quota : Scheduler → String → Option KiroQuotaSnapshot → ℕ → Scheduler
unfolding refreshed mark_auth_error persist_credential_async
refresh_quota s id snap now = elim (lookup id s.creds) [
  | none ↦ s
  | some p ↦ persist_credential_async (after_ban (refreshed s p snap now) id snap now) p
]

unfoldable pub record_quota_error : Scheduler → String → String → ℕ → Scheduler
unfolding persist_credential_async
record_quota_error s id message now = elim (lookup id s.creds) [
  | none ↦ s
  | some p ↦
      persist_credential_async
        (record s {
          heap =
              update s.heap p
                (record (s.heap p) { last_quota_error = message; last_quota_error_at = now });
        })
        p
]
