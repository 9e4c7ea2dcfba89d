-- ===== src/Pool/Scheduler/Outcomes.antt =====
-- What the reported outcomes mean for the next selections of an account.
use kirocc_prox.Base.{
  ℕ, suc, ◌+◌, ◌≤◌, ◌<◌, ◌≡◌, refl, inl, inr, true, false, List, [], ◌∷◌, ◌++◌, arith, none, some,
  String, str_eq, str_eq_iff, str_eq_refl, if◌then◌else◌, lookup, lookup-insert, Option-cases, ℤ,
  pos, length, subst,
}
use native.Mathlib.Nat.{add-zero}
use kirocc_prox.Pool.Backoff.{
  default_base_backoff, default_max_backoff, documented_schedule, next_backoff_bounds,
  next_backoff-documented_schedule,
}
use kirocc_prox.Pool.Credential.{
  Credential, QuotaState, ModelState, no_quota, is_ready_for, is_in_cooldown, is_full,
  is_model_cooling, model_cooling,
}
use kirocc_prox.Pool.Store.{update_self}
use kirocc_prox.Pool.Scheduler.State.{Scheduler, persist_credential_async}
use kirocc_prox.Pool.Scheduler.Marks.{
  mark_success, mark_rate_limit, mark_auth_error, succeeded, rate_limited, with_model,
  model_state_of,
}
use kirocc_prox.Pool.Scheduler.Admin.{set_enabled, set_found}

-- The model states after an update of one model.
lookup-with_model :
    (c : Credential) (model m : String) (f : ModelState → ModelState)
    → lookup m (with_model c model f) ≡ (
        if str_eq model ""
        then lookup m c.model_states
        else if str_eq model m
        then some (f (model_state_of (lookup model c.model_states)))
        else lookup m c.model_states)
lookup-with_model c model m f =
    ground (
      arith,
      lookup-insert model m (f (model_state_of (lookup model c.model_states))) c.model_states,
    )

-- An update that keeps the model's quota changes no model's cooldown.
counted_cooling :
    (c : Credential) (model m : String) (t : ℕ)
    → model_cooling (lookup m (with_model c model (λ ms. record ms { failed = ms.failed + 1 }))) t
      ≡ model_cooling (lookup m c.model_states) t
counted_cooling c model m t =
    rw (lookup-with_model c model m (λ ms. record ms { failed = ms.failed + 1 }))
      (ground (arith, str_eq_iff model m))

cleared_cooling :
    (c : Credential) (model : String) (now t : ℕ)
    → is_model_cooling (succeeded c model now) model t ≡ false
cleared_cooling c model now t =
    rw
      (lookup-with_model c model model
        (λ ms. record ms { quota = no_quota; success = ms.success + 1 }))
      (ground (arith, str_eq_refl model))

module _ (s : Scheduler) (id : String) (p : ℕ) (found : lookup id s.creds ≡ some p) where
  limited_at :
      (model : String) (retry_after : ℤ) (now : ℕ)
      → (mark_rate_limit s id model retry_after now).heap p
        ≡ rate_limited (s.heap p) model retry_after now
  unfolding mark_rate_limit
  limited_at model retry_after now = rw (found, mark_rate_limit) (update_self s.heap p _)

  -- A rate limit keeps an account from every selection, whatever the model, for at least the next 30
  -- seconds, and its own cooldown is over 30 minutes later at the latest. Cooling is not disabled
  -- for the account.
  pub mark_rate_limit_cools :
      (model : String) (retry_after : ℤ) (now : ℕ)
      → (s.heap p).disable_cooling ≡ false
      → let c = (mark_rate_limit s id model retry_after now).heap p in
        ((m : String) (t : ℕ) → t < now + default_base_backoff → is_ready_for c m t ≡ false)
        × ((t : ℕ) → now + default_max_backoff ≤ t → is_in_cooldown c t ≡ false)
  unfolding is_ready_for is_in_cooldown
  mark_rate_limit_cools model retry_after now cooling =
      rw (limited_at model retry_after now, cooling)
        (
          λ m t early.
              ground (arith, next_backoff_bounds (pos (s.heap p).quota.backoff_level) retry_after),
          λ t late.
              ground (arith, next_backoff_bounds (pos (s.heap p).quota.backoff_level) retry_after),
        )

  -- Where cooling is disabled, a rate limit is counted and changes no selection, for any model at
  -- any time.
  pub mark_rate_limit_ignored :
      (model : String) (retry_after : ℤ) (now : ℕ)
      → (s.heap p).disable_cooling ≡ true
      → let c = (mark_rate_limit s id model retry_after now).heap p in
        (c.failed ≡ (s.heap p).failed + 1)
        × ((m : String) (t : ℕ) → is_ready_for c m t ≡ is_ready_for (s.heap p) m t)
  unfolding is_ready_for
  mark_rate_limit_ignored model retry_after now cooling =
      rw (limited_at model retry_after now, cooling)
        (refl, λ m t. ground (arith, counted_cooling (s.heap p) model m t))

  succeeded_at :
      (model : String) (now : ℕ)
      → (mark_success s id model now).heap p ≡ succeeded (s.heap p) model now
  unfolding mark_success
  succeeded_at model now = rw (found, mark_success) (update_self s.heap p _)

  -- A success ends the cooldown of the account and of the model, and the next rate limit starts the
  -- schedule afresh: only the switch, the limit on requests in flight and other models' cooldowns
  -- still keep the account from a selection.
  pub mark_success_clears :
      (model : String) (now t : ℕ)
      → let c = (mark_success s id model now).heap p in
        (is_ready_for c model t
          ≡ (if (s.heap p).disabled then false else if is_full (s.heap p) then false else true))
        × (c.quota.backoff_level ≡ 0)
        × (c.success ≡ (s.heap p).success + 1)
  unfolding is_ready_for
  mark_success_clears model now t =
      rw (succeeded_at model now)
        (ground (arith, cleared_cooling (s.heap p) model now t), refl, refl)

  -- An account whose credentials were refused is never selected again until it is enabled.
  pub mark_auth_error_disables :
      (reason m : String) (now t : ℕ)
      → is_ready_for ((mark_auth_error s id reason now).heap p) m t ≡ false
  unfolding is_ready_for mark_auth_error persist_credential_async
  mark_auth_error_disables reason m now t =
      rw (found, mark_auth_error) (rw (update_self s.heap p _) refl)

  -- Once enabled again, an account is as ready as one that was never limited: only its limit on
  -- requests in flight and the cooldowns of single models count. The operator's call succeeds.
  pub set_enabled_restores :
      (m : String) (now t : ℕ)
      → let (s', refused) = set_enabled s id true now in
        (refused ≡ none)
        × (is_ready_for (s'.heap p) m t ≡ (
            if is_full (s.heap p)
            then false
            else if is_model_cooling (s.heap p) m t
            then false
            else true))
  unfolding is_ready_for set_enabled set_found persist_credential_async
  set_enabled_restores m now t = rw (found, set_enabled) (refl, rw (update_self s.heap p _) refl)

-- Rate limits with no `Retry-After`, at the given times.
unfoldable pub limits : Scheduler → String → String → List ℕ → Scheduler
limits s id model [] = s
limits s id model (t ∷ ts) = limits (mark_rate_limit s id model (pos 0) t) id model ts

creds-mark_rate_limit :
    (s : Scheduler) (id model : String) (r : ℤ) (t : ℕ)
    → (mark_rate_limit s id model r t).creds ≡ s.creds
unfolding mark_rate_limit
creds-mark_rate_limit s id model r t = elim (Option-cases (lookup id s.creds)) [
  | inl e ↦ rw (e, mark_rate_limit) refl
  | inr (p, e) ↦ rw (e, mark_rate_limit) refl
]

-- A cooldown that began at `t` with backoff level k.
abbrev pub IsEscalated : QuotaState → ℕ → ℕ → Type 0
IsEscalated q t k =
    (q.exceeded ≡ true)
    × (q.next_recover_at ≡ t + documented_schedule k)
    × (q.backoff_level ≡ k + 1)

suc_shift : (n k : ℕ) → n + 1 + k ≡ n + suc k
suc_shift n k = omega arith

-- An account that is limited again and again, with no success between, is kept out for longer each
-- time: after limits at the times `ts` and one more at `t`, from backoff level n, the account's
-- cooldown ends at `t` plus 30 seconds doubled once for each level reached, and at most 30 minutes.
pub limits_escalate :
    (s : Scheduler) (id model : String) (p n : ℕ) (ts : List ℕ) (t : ℕ)
    → lookup id s.creds ≡ some p
    → (s.heap p).disable_cooling ≡ false
    → (s.heap p).quota.backoff_level ≡ n
    → IsEscalated ((limits s id model (ts ++ t ∷ [])).heap p).quota t (n + length ts)
unfolding limits
limits_escalate s id model p n [] t found cooling level =
    rw (limited_at s id p found model (pos 0) t, cooling)
      (
        refl,
        rw (level, next_backoff-documented_schedule n (pos 0) (omega arith), add-zero) refl,
        omega (arith, level),
      )
limits_escalate s id model p n (t' ∷ ts) t found cooling level =
    let s' = mark_rate_limit s id model (pos 0) t' in
    let at = limited_at s id p found model (pos 0) t' in
    subst (λ (k : ℕ). IsEscalated ((limits s' id model (ts ++ t ∷ [])).heap p).quota t k)
      (suc_shift n (length ts))
      (limits_escalate s' id model p (n + 1) ts t
        (rw (creds-mark_rate_limit s id model (pos 0) t') found) (rw (at, cooling) refl)
        (rw (at, cooling) (omega (arith, level))))
