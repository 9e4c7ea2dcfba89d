-- ===== src/Pool/Scheduler/Invariant.antt =====
-- The representation invariant of the scheduler, and that its operations keep it.
use kirocc_prox.Base.{
  ℕ, suc, ◌≤◌, ◌<◌, ◌≡◌, refl, inl, inr, Bool, true, false, List, [], ◌∷◌, ◌++◌, arith, Option,
  none, some, String, str_eq, str_eq_iff, if◌then◌else◌, Map, lookup, ◌==◌, Bool-cases,
  Option-cases, sym, ◌∙◌, ℤ,
}
use kirocc_prox.Pool.Credential.{Credential, KiroQuotaSnapshot, release_reservation}
use kirocc_prox.Pool.Store.{Heap, update}
use kirocc_prox.Pool.Scheduler.State.{Scheduler, persist_credential_async, new_default_scheduler}
use kirocc_prox.Pool.Scheduler.Register.{release_successor, release_current}
use kirocc_prox.Pool.Scheduler.Marks.{
  mark_success, mark_rate_limit, mark_auth_error, refresh_quota, record_quota_error, refreshed,
  after_ban,
}
use kirocc_prox.Pool.Scheduler.Admin.{set_enabled, set_found, remove_first}

-- How often an ID stands in the order.
unfoldable pub count : String → List String → ℕ
count id [] = 0
count id (x ∷ xs) = if str_eq x id then suc (count id xs) else count id xs

pub count-snoc :
    (id x : String) (xs : List String)
    → count id (xs ++ x ∷ []) ≡ (if str_eq x id then suc (count id xs) else count id xs)
unfolding count
count-snoc id x [] = refl
count-snoc id x (y ∷ ys) = ground (arith, count-snoc id x ys)

pub count-remove_first :
    (id x : String) (xs : List String)
    → count x xs ≤ 1
    → count id (remove_first x xs) ≡ (if str_eq x id then 0 else count id xs)
unfolding count remove_first
count-remove_first id x [] h = ground arith
count-remove_first id x (y ∷ ys) h =
    ground (arith, str_eq_iff y x, str_eq_iff y id, str_eq_iff x id, count-remove_first id x ys)

abbrev pub size : Option ℕ → ℕ
size none = 0
size (some p) = 1

-- Each registered pointer stands under the ID of its credential, with a runtime identity that was
-- handed out and that no other ID has; the order lists each registered ID once, and no other.
pub record Inv (heap : Heap) (creds : Map ℕ) (order : List String) (next_id : ℕ) : Type 0 where
  pub named : (id : String) (p : ℕ) → lookup id creds ≡ some p → (heap p).id ≡ id
  pub fresh :
      (id : String) (p : ℕ)
      → lookup id creds ≡ some p
      → (0 < (heap p).runtime_id) × ((heap p).runtime_id ≤ next_id)
  pub distinct :
      (i j : String) (p q : ℕ)
      → lookup i creds ≡ some p
      → lookup j creds ≡ some q
      → (heap p).runtime_id ≡ (heap q).runtime_id
      → i ≡ j
  pub listed : (id : String) → count id order ≡ size (lookup id creds)

abbrev pub IsValid : Scheduler → Type 0
IsValid s = Inv s.heap s.creds s.order s.next_runtime_id

-- A new scheduler is valid.
pub new-IsValid : (h : Heap) → IsValid (new_default_scheduler h)
unfolding new_default_scheduler lookup count
new-IsValid h = record {
  named = λ id p e. cc;
  fresh = λ id p e. cc;
  distinct = λ i j p q e f g. cc;
  listed = λ id. refl;
}

-- A write that leaves the ID and the identity of the object alone.
abbrev pub SameIdentity : Credential → Credential → Type 0
SameIdentity c d = (d.id ≡ c.id) × (d.runtime_id ≡ c.runtime_id)

pub SameIdentity-update :
    (h : Heap) (p q : ℕ) (d : Credential)
    → SameIdentity (h p) d
    → SameIdentity (h q) (update h p d q)
SameIdentity-update h p q d v = ground arith

pub Inv-update :
    {h : Heap} {m : Map ℕ} {o : List String} {n : ℕ} (p : ℕ) (d : Credential)
    → SameIdentity (h p) d
    → Inv h m o n
    → Inv (update h p d) m o n
Inv-update {h} {m} {o} {n} p d v i = record {
  named = λ id q e. (same q).0 ∙ i.named id q e;
  fresh = λ id q e. rw (same q).1 (i.fresh id q e);
  distinct = λ a b q r e f g. i.distinct a b q r e f (sym (same q).1 ∙ g ∙ (same r).1);
  listed = i.listed;
}
  where
    same : (q : ℕ) → SameIdentity (h q) (update h p d q)
    same q = SameIdentity-update h p q d v

-- The operations that write to one registered credential.
module _ (s : Scheduler) (id : String) (now : ℕ) (v : IsValid s) where
  pub mark_success-IsValid : (model : String) → IsValid (mark_success s id model now)
  unfolding mark_success
  mark_success-IsValid model = elim (Option-cases (lookup id s.creds)) [
    | inl e ↦ rw (e, mark_success) v
    | inr (p, e) ↦ rw (e, mark_success) (Inv-update p _ (refl, refl) v)
  ]

  pub mark_rate_limit-IsValid :
      (model : String) (retry_after : ℤ) → IsValid (mark_rate_limit s id model retry_after now)
  unfolding mark_rate_limit
  mark_rate_limit-IsValid model retry_after = elim (Option-cases (lookup id s.creds)) [
    | inl e ↦ rw (e, mark_rate_limit) v
    | inr (p, e) ↦ rw (e, mark_rate_limit) (Inv-update p _ (ground arith, ground arith) v)
  ]

  pub mark_auth_error-IsValid : (reason : String) → IsValid (mark_auth_error s id reason now)
  unfolding mark_auth_error persist_credential_async
  mark_auth_error-IsValid reason = elim (Option-cases (lookup id s.creds)) [
    | inl e ↦ rw (e, mark_auth_error) v
    | inr (p, e) ↦ rw (e, mark_auth_error) (Inv-update p _ (refl, refl) v)
  ]

  pub record_quota_error-IsValid :
      (message : String) → IsValid (record_quota_error s id message now)
  unfolding record_quota_error persist_credential_async
  record_quota_error-IsValid message = elim (Option-cases (lookup id s.creds)) [
    | inl e ↦ rw (e, record_quota_error) v
    | inr (p, e) ↦ rw (e, record_quota_error) (Inv-update p _ (refl, refl) v)
  ]

  set_found-IsValid : (on : Bool) (p : ℕ) → IsValid (set_found s id on now p)
  unfolding set_found persist_credential_async
  set_found-IsValid true p = Inv-update p _ (refl, refl) v
  set_found-IsValid false p = Inv-update p _ (refl, refl) v

  pub set_enabled-IsValid : (on : Bool) → IsValid (set_enabled s id on now).0
  unfolding set_enabled
  set_enabled-IsValid on = elim (Option-cases (lookup id s.creds)) [
    | inl e ↦ rw (e, set_enabled) v
    | inr (p, e) ↦ rw (e, set_enabled) (set_found-IsValid on p)
  ]

  -- The write of `RefreshQuota` before a ban is looked at.
  refreshed-IsValid : (p : ℕ) (snap : Option KiroQuotaSnapshot) → IsValid (refreshed s p snap now)
  unfolding refreshed
  refreshed-IsValid p snap = Inv-update p _ (refl, refl) v

module _ (id : String) (now : ℕ) where
  after_ban-IsValid :
      (s : Scheduler) (snap : Option KiroQuotaSnapshot)
      → IsValid s
      → IsValid (after_ban s id snap now)
  after_ban-IsValid s none v = v
  after_ban-IsValid s (some snap) v = elim (Bool-cases snap.banned) [
    | inl e ↦ rw e (mark_auth_error-IsValid s id now v _)
    | inr e ↦ rw e v
  ]

  pub refresh_quota-IsValid :
      (s : Scheduler) (snap : Option KiroQuotaSnapshot)
      → IsValid s
      → IsValid (refresh_quota s id snap now)
  unfolding refresh_quota persist_credential_async
  refresh_quota-IsValid s snap v = elim (Option-cases (lookup id s.creds)) [
    | inl e ↦ rw (e, refresh_quota) v
    | inr (p, e) ↦
        rw (e, refresh_quota) (after_ban-IsValid _ snap (refreshed-IsValid s id now v p snap))
  ]

  release_current-IsValid :
      (s : Scheduler) (cred : Credential) (o : Option ℕ)
      → IsValid s
      → IsValid (release_current s cred id now o).0
  unfolding release_reservation
  release_current-IsValid s cred none v = v
  release_current-IsValid s cred (some p) v =
      elim (Bool-cases ((s.heap p).runtime_id == cred.runtime_id)) [
        | inl e ↦ rw e (Inv-update p _ (refl, refl) v)
        | inr e ↦ rw e v
      ]

  pub release_successor-IsValid :
      (s : Scheduler) (held : Option ℕ) → IsValid s → IsValid (release_successor s held id now).0
  unfolding release_successor
  release_successor-IsValid s none v = v
  release_successor-IsValid s (some p) v = release_current-IsValid s (s.heap p) _ v
