-- ===== src/Pool/Scheduler/Handoff.antt =====
-- A request that was admitted before a reload, or whose account was removed meanwhile, gives its slot
-- back to the right account or to none.
use kirocc_prox.Base.{
  ℕ, ◌≡◌, refl, ◌≢◌, true, false, List, [], arith, Option, none, some, String, str_eq_iff,
  str_eq_refl, lookup, remove, lookup-insert, lookup-remove, sym, subst, ◌∙◌, ap, Member,
}
use kirocc_prox.Pool.Credential.{Credential, release_reservation}
use kirocc_prox.Pool.Store.{update}
use kirocc_prox.Pool.Scheduler.State.{Scheduler}
use kirocc_prox.Pool.Scheduler.Register.{
  Loading, copy_runtime_state, register, release_successor, release_current,
}
use kirocc_prox.Pool.Scheduler.Admin.{add, add_new, remove_cred, remove_first}
use kirocc_prox.Pool.Scheduler.Invariant.{IsValid}
use kirocc_prox.Pool.Scheduler.Reload.{IsDistinct}
use kirocc_prox.Pool.Scheduler.Takeover.{inherit, load_all-takes_over}

-- What a release on the successor of a reloaded account does.
abbrev pub Releases : Scheduler → ℕ → ℕ → String → ℕ → Type 0
Releases s held p model now =
    release_successor s (some held) model now
    ≡ (record s { heap = update s.heap p (release_reservation (s.heap p) model now) }, true)

release_known :
    (s : Scheduler) (held p : ℕ) (model : String) (now : ℕ)
    → lookup (s.heap held).id s.creds ≡ some p
    → (s.heap p).runtime_id ≡ (s.heap held).runtime_id
    → Releases s held p model now
unfolding release_successor
release_known s held p model now e same = rw (e, release_current) (ground arith)

-- The one has the other's identity, cooldowns, counters, switch and last quota.
abbrev pub HasStateOf : Credential → Credential → Type 0
HasStateOf c d =
    (c.quota ≡ d.quota)
    × (c.success ≡ d.success)
    × (c.failed ≡ d.failed)
    × (c.in_flight ≡ d.in_flight)
    × (c.last_used_at ≡ d.last_used_at)
    × (c.disabled ≡ d.disabled)
    × (c.disabled_reason ≡ d.disabled_reason)
    × (c.disabled_at ≡ d.disabled_at)
    × (c.last_quota ≡ d.last_quota)
    × (c.last_quota_at ≡ d.last_quota_at)
    × (c.last_quota_error ≡ d.last_quota_error)
    × (c.last_quota_error_at ≡ d.last_quota_error_at)
    × (c.model_states ≡ d.model_states)
    × (c.in_flight_by_model ≡ d.in_flight_by_model)
    × (c.runtime_id ≡ d.runtime_id)

-- The one has the other's name, settings and region.
abbrev pub HasSettingsOf : Credential → Credential → Type 0
HasSettingsOf c d =
    (c.id ≡ d.id)
    × (c.label ≡ d.label)
    × (c.provider ≡ d.provider)
    × (c.priority ≡ d.priority)
    × (c.disable_cooling ≡ d.disable_cooling)
    × (c.max_in_flight ≡ d.max_in_flight)
    × (c.proxy_url ≡ d.proxy_url)
    × (c.region ≡ d.region)

HasStateOf-inherit : (o p : Credential) → HasStateOf (inherit o p) o
unfolding inherit copy_runtime_state
HasStateOf-inherit o p =
    (refl, refl, refl, refl, refl, refl, refl, refl, refl, refl, refl, refl, refl, refl, refl)

HasSettingsOf-inherit : (o p : Credential) → HasSettingsOf (inherit o p) p
unfolding inherit copy_runtime_state
HasSettingsOf-inherit o p = (refl, refl, refl, refl, refl, refl, refl, refl)

-- A request took its slot on the object `o` of an account, and the credentials are reloaded with
-- another object `p` for that account before the request ends. The account's identity, its cooldowns,
-- for all models and for each, its counters, of requests in flight too, its disabled flag and its last
-- quota come over to `p` unchanged, while its name, settings and region are those of the new object; and
-- the request's release, which still names `o`, takes the slot off `p`. IDs in the new list differ and
-- are not empty.
pub release_after_reload :
    (s : Scheduler) (cs : List (Option ℕ)) (o p : ℕ) (model : String) (now : ℕ)
    → IsValid s
    → IsDistinct s.heap cs
    → Member (some p) cs
    → lookup (s.heap p).id s.creds ≡ some o
    → o ≢ p
    → (s.heap p).id ≢ ""
    → let s' = register s cs in
      HasStateOf (s'.heap p) (s.heap o)
      × HasSettingsOf (s'.heap p) (s.heap p)
      × Releases s' o p model now
unfolding register
release_after_reload s cs o p model now v d m e ne named =
    let l : Loading = record {
      heap = s.heap;
      next = [];
      order = [];
      next_runtime_id = s.next_runtime_id;
    } in
    let (found, state, old) = load_all-takes_over s.creds cs l p o d m e (v.named _ o e) ne named in
    let (x0, x1, x2, x3, x4, x5, x6, x7, x8, x9, x10, x11, x12, x13, same) =
      HasStateOf-inherit (s.heap o) (s.heap p) in
    (
      subst (λ c. HasStateOf c (s.heap o)) (sym state) (HasStateOf-inherit (s.heap o) (s.heap p)),
      subst (λ c. HasSettingsOf c (s.heap p)) (sym state)
          (HasSettingsOf-inherit (s.heap o) (s.heap p)),
      release_known _ o p model now (rw (old, v.named _ o e) found) (
          ap (λ (c : Credential). c.runtime_id) state
          ∙ same
          ∙ sym (ap (λ (c : Credential). c.runtime_id) old)),
    )

-- What `Remove` and `Add` return where they succeed.
abbrev without : Scheduler → String → Scheduler
without s id = record s { creds = remove id s.creds; order = remove_first id s.order }

abbrev with_new : Scheduler → ℕ → Scheduler
with_new s p = (add_new s p none).0

remove_found :
    (s : Scheduler) (id : String) (o : ℕ)
    → lookup id s.creds ≡ some o
    → remove_cred s id ≡ (without s id, none)
unfolding remove_cred
remove_found s id o e = rw (e, remove_cred) refl

add_absent :
    (s : Scheduler) (p : ℕ)
    → (s.heap p).id ≢ ""
    → lookup (s.heap p).id s.creds ≡ none
    → add s (some p) ≡ (with_new s p, none)
unfolding add
add_absent s p named e = rw (e, add_new) (ground (arith, str_eq_iff (s.heap p).id ""))

absent_after : (s : Scheduler) (id : String) → lookup id (remove id s.creds) ≡ none
absent_after s id = ground (arith, lookup-remove id id s.creds, str_eq_refl id)

release_stranger :
    (s : Scheduler) (o p : ℕ) (model : String) (now : ℕ)
    → IsValid s
    → lookup (s.heap p).id s.creds ≡ some o
    → o ≢ p
    → let s' = with_new (without s (s.heap p).id) p in
      release_successor s' (some o) model now ≡ (s', false)
unfolding release_successor
release_stranger s o p model now v e ne = ground (
  arith,
  v.named (s.heap p).id o e,
  v.fresh (s.heap p).id o e,
  lookup-insert (s.heap p).id (s.heap p).id p (remove (s.heap p).id s.creds),
  str_eq_refl (s.heap p).id,
)

-- An account is removed while a request holds a slot on it, and another account is added under the
-- same ID. The request's release then finds a stranger: it changes nothing and reports false.
pub release_after_replacement :
    (s : Scheduler) (o p : ℕ) (model : String) (now : ℕ)
    → IsValid s
    → lookup (s.heap p).id s.creds ≡ some o
    → o ≢ p
    → (s.heap p).id ≢ ""
    → let (removed, _) = remove_cred s (s.heap p).id in
      let (s', refused) = add removed (some p) in
      (refused ≡ none) × (release_successor s' (some o) model now ≡ (s', false))
release_after_replacement s o p model now v e ne named =
    rw
      (
        remove_found s _ o e,
        add_absent (without s (s.heap p).id) p named (absent_after s (s.heap p).id),
      )
      (refl, release_stranger s o p model now v e ne)
