-- ===== src/Pool/Scheduler/Reload.antt =====
-- A reload of the credentials: `Register` keeps the scheduler valid, and requests that were admitted
-- before it give their slots back to the object that took the account over.
use kirocc_prox.Base.{
  ℕ, ◌+◌, ◌≤◌, ◌<◌, ◌≡◌, refl, ◌≢◌, ◌⊎◌, inl, inr, List, [], ◌∷◌, arith, Option, none, some, String,
  str_eq, str_eq_iff, Map, lookup, insert, lookup-insert, Bool-cases, sym, ◌∙◌, ap, All, subst,
}
use kirocc_prox.Pool.Credential.{Credential}
use kirocc_prox.Pool.Store.{Heap, update}
use kirocc_prox.Pool.Scheduler.State.{Scheduler}
use kirocc_prox.Pool.Scheduler.Register.{
  Loading, adopt, copy_runtime_state, load_known, load_one, load_all, register,
}
use kirocc_prox.Pool.Scheduler.Invariant.{Inv, IsValid, count}
use kirocc_prox.Pool.Scheduler.Membership.{Inv-insert, entry}

-- The pointer is nil, or names a credential with another ID.
abbrev pub Differs : Heap → String → Option ℕ → Type 0
Differs h id none = Unit
Differs h id (some q) = (h q).id ≢ id

-- The credentials to load have different IDs.
abbrev pub IsDistinct : Heap → List (Option ℕ) → Type 0
IsDistinct h [] = Unit
IsDistinct h (none ∷ cs) = IsDistinct h cs
IsDistinct h (some p ∷ cs) = All (Differs h (h p).id) cs × IsDistinct h cs

pub adopt-id : (h : Heap) (o p : ℕ) → (adopt h o p).id ≡ (h p).id
unfolding copy_runtime_state
adopt-id h o p = ground arith

adopt-runtime_id : (h : Heap) (o p : ℕ) → (adopt h o p).runtime_id ≡ (h o).runtime_id
unfolding copy_runtime_state
adopt-runtime_id h o p = ground arith

abbrev Absent : Heap → Map ℕ → Option ℕ → Type 0
Absent h m none = Unit
Absent h m (some q) = lookup (h q).id m ≡ none

-- Loading into an empty map, from a scheduler that is valid.
module _ (h₀ : Heap) (m₀ : Map ℕ) (o₀ : List String) (n₀ : ℕ) (old : Inv h₀ m₀ o₀ n₀) where
  -- Where the identity of a loaded object comes from.
  Origin : Loading → String → ℕ → Type 0
  Origin l id p =
      ((o : ℕ) × (lookup id m₀ ≡ some o) × ((l.heap p).runtime_id ≡ (h₀ o).runtime_id))
      ⊎ ((lookup id m₀ ≡ none) × (n₀ < (l.heap p).runtime_id))

  record Loaded (l : Loading) : Type 0 where
    ids : (q : ℕ) → (l.heap q).id ≡ (h₀ q).id
    grow : n₀ ≤ l.next_runtime_id
    inv : Inv l.heap l.next l.order l.next_runtime_id
    untouched :
        (id : String) (o : ℕ) → lookup id m₀ ≡ some o → lookup id l.next ≡ none → l.heap o ≡ h₀ o
    origin : (id : String) (p : ℕ) → lookup id l.next ≡ some p → Origin l id p

  -- No loaded object has the identity of an account that is not loaded yet.
  apart_known :
      (l : Loading) (id : String) (o : ℕ)
      → Loaded l
      → lookup id m₀ ≡ some o
      → lookup id l.next ≡ none
      → (j : String) (r : ℕ) → lookup j l.next ≡ some r
      → (l.heap r).runtime_id ≢ (h₀ o).runtime_id
  unfolding Origin
  apart_known l id o v known missing j r found same = elim (v.origin j r found) [
    | inl (o', known', e) ↦
        let j≡id : j ≡ id = old.distinct j id o' o known' known (sym e ∙ same) in
        cc (subst (λ k. lookup k l.next ≡ none) (sym j≡id) missing, found)
    | inr (_, above) ↦ omega (arith, old.fresh id o known, same, above)
  ]

  load_known-Inv :
      (l : Loading) (p : ℕ) (o : Option ℕ)
      → Loaded l
      → lookup (l.heap p).id m₀ ≡ o
      → lookup (l.heap p).id l.next ≡ none
      → let l' = load_known l p o in Inv l'.heap l'.next l'.order l'.next_runtime_id
  load_known-Inv l p (some o) v known missing =
      Inv-insert v.inv p (adopt l.heap o p) (l.heap p).id l.next_runtime_id refl
        (adopt-id l.heap o p) missing (omega arith)
        (rw (adopt-runtime_id l.heap o p, v.untouched (l.heap p).id o known missing)
          (old.fresh (l.heap p).id o known).0)
        (rw (adopt-runtime_id l.heap o p, v.untouched (l.heap p).id o known missing)
          (omega (arith, old.fresh (l.heap p).id o known, v.grow)))
        (λ j r found.
          rw (adopt-runtime_id l.heap o p, v.untouched (l.heap p).id o known missing)
            (apart_known l (l.heap p).id o v known missing j r found))
  load_known-Inv l p none v known missing =
      Inv-insert v.inv p (record (l.heap p) { runtime_id = l.next_runtime_id + 1 }) (l.heap p).id
        (l.next_runtime_id + 1) refl refl missing (omega arith) (omega arith) (omega arith)
        (λ j r found same. absurd (omega (arith, v.inv.fresh j r found, same)))

  missing_before :
      (x id : String) (p : ℕ) (m : Map ℕ)
      → lookup id (insert x p m) ≡ none
      → (x ≢ id) × (lookup id m ≡ none)
  missing_before x id p m e = ground (arith, lookup-insert x id p m, str_eq_iff x id)

  update_ne : (h : Heap) (p q : ℕ) (d : Credential) → q ≢ p → update h p d q ≡ h q
  update_ne h p q d ne = ground arith

  named_old :
      (l : Loading) (p o : ℕ)
      → Loaded l
      → (id : String) → lookup id m₀ ≡ some o
      → o ≡ p
      → (l.heap p).id ≡ id
  named_old l p o v id known e = rw (← e) (v.ids o ∙ old.named id o known)

  identity : {c e : Credential} → c ≡ e → c.runtime_id ≡ e.runtime_id
  identity k = ap (λ (c : Credential). c.runtime_id) k

  -- An object that the loop has not reached is as it was.
  load_known-untouched :
      (l : Loading) (p : ℕ) (w : Option ℕ)
      → Loaded l
      → (id : String) (o : ℕ) → lookup id m₀ ≡ some o
      → lookup id (load_known l p w).next ≡ none
      → (load_known l p w).heap o ≡ h₀ o
  load_known-untouched l p (some o') v id o known missing =
      let (ne, before) = missing_before (l.heap p).id id p l.next missing in
      update_ne l.heap p o _ (λ e. ne (named_old l p o v id known e))
      ∙ v.untouched id o known before
  load_known-untouched l p none v id o known missing =
      let (ne, before) = missing_before (l.heap p).id id p l.next missing in
      update_ne l.heap p o _ (λ e. ne (named_old l p o v id known e))
      ∙ v.untouched id o known before

  load_known-ids :
      (l : Loading) (p : ℕ) (w : Option ℕ)
      → Loaded l
      → (q : ℕ) → ((load_known l p w).heap q).id ≡ (h₀ q).id
  load_known-ids l p (some o) v q = ground (arith, v.ids q, adopt-id l.heap o p)
  load_known-ids l p none v q = ground (arith, v.ids q)

  load_known-Origin :
      (l : Loading) (p : ℕ) (w : Option ℕ)
      → Loaded l
      → lookup (l.heap p).id m₀ ≡ w
      → lookup (l.heap p).id l.next ≡ none
      → (id : String) (q : ℕ) → lookup id (load_known l p w).next ≡ some q
      → Origin (load_known l p w) id q
  unfolding Origin
  load_known-Origin l p (some o) v known missing id q e =
      elim (entry v.inv p (adopt l.heap o p) (l.heap p).id refl missing id q e) [
        | inl (same, _, k) ↦ inl (
          o,
          rw same known,
          rw k (adopt-runtime_id l.heap o p ∙ identity (v.untouched (l.heap p).id o known missing)),
        )
        | inr (_, found, k) ↦ rw k (v.origin id q found)
      ]
  load_known-Origin l p none v known missing id q e =
      elim (entry v.inv p (record (l.heap p) { runtime_id = l.next_runtime_id + 1 }) (l.heap p).id
        refl missing id q e) [
          | inl (same, _, k) ↦ inr (rw same known, rw k (omega (arith, v.grow)))
          | inr (_, found, k) ↦ rw k (v.origin id q found)
        ]

  load_known-Loaded :
      (l : Loading) (p : ℕ) (w : Option ℕ)
      → Loaded l
      → lookup (l.heap p).id m₀ ≡ w
      → lookup (l.heap p).id l.next ≡ none
      → Loaded (load_known l p w)
  load_known-Loaded l p w v known missing = record {
    ids = load_known-ids l p w v;
    grow = grows w;
    inv = load_known-Inv l p w v known missing;
    untouched = load_known-untouched l p w v;
    origin = load_known-Origin l p w v known missing;
  }
    where
      grows : (o : Option ℕ) → n₀ ≤ (load_known l p o).next_runtime_id
      grows (some o) = v.grow
      grows none = omega (arith, v.grow)

  -- The IDs of the credentials that are still to come are not in the new map.
  Absent-insert :
      (m : Map ℕ) (p : ℕ) (cs : List (Option ℕ))
      → All (Differs h₀ (h₀ p).id) cs
      → All (Absent h₀ m) cs
      → All (Absent h₀ (insert (h₀ p).id p m)) cs
  Absent-insert m p [] d a = tt
  Absent-insert m p (none ∷ cs) d a = (tt, Absent-insert m p cs d.1 a.1)
  Absent-insert m p (some q ∷ cs) d a = (
    ground (arith, lookup-insert (h₀ p).id (h₀ q).id p m, str_eq_iff (h₀ p).id (h₀ q).id, d.0, a.0),
    Absent-insert m p cs d.1 a.1,
  )

  Absent-load_known :
      (l : Loading) (p : ℕ) (w : Option ℕ) (cs : List (Option ℕ))
      → Loaded l
      → All (Differs h₀ (h₀ p).id) cs
      → All (Absent h₀ l.next) cs
      → All (Absent h₀ (load_known l p w).next) cs
  Absent-load_known l p (some o) cs v d a = rw (v.ids p) (Absent-insert l.next p cs d a)
  Absent-load_known l p none cs v d a = rw (v.ids p) (Absent-insert l.next p cs d a)

  load_all-Loaded :
      (cs : List (Option ℕ)) (l : Loading)
      → IsDistinct h₀ cs
      → All (Absent h₀ l.next) cs
      → Loaded l
      → Loaded (load_all m₀ l cs)
  unfolding load_all load_one
  load_all-Loaded [] l d a v = v
  load_all-Loaded (none ∷ cs) l d a v = load_all-Loaded cs l d a.1 v
  load_all-Loaded (some p ∷ cs) l d a v = elim (Bool-cases (str_eq (l.heap p).id "")) [
    | inl e ↦ rw e (load_all-Loaded cs l d.1 a.1 v)
    | inr e ↦ rw e (
        load_all-Loaded cs _ d.1 (Absent-load_known l p _ cs v d.0 a.1)
          (load_known-Loaded l p _ v refl (rw (v.ids p) a.0)))
  ]

  start : Loading
  start = record { heap = h₀; next = []; order = []; next_runtime_id = n₀ }

  start-Loaded : Loaded start
  unfolding start lookup Origin count
  start-Loaded = record {
    ids = λ q. refl;
    grow = omega arith;
    inv = record {
      named = λ id p e. cc;
      fresh = λ id p e. cc;
      distinct = λ i j p q e f g. cc;
      listed = λ id. refl;
    };
    untouched = λ id o known missing. refl;
    origin = λ id p e. cc;
  }

  start-Absent : (cs : List (Option ℕ)) → All (Absent h₀ []) cs
  unfolding lookup
  start-Absent [] = tt
  start-Absent (none ∷ cs) = (tt, start-Absent cs)
  start-Absent (some p ∷ cs) = (refl, start-Absent cs)

-- `Register` keeps the scheduler valid, whatever the new list has in common with the old one: each
-- ID is listed once and every account has an identity of its own. The IDs of the new list differ.
pub register-IsValid :
    (s : Scheduler) (cs : List (Option ℕ))
    → IsDistinct s.heap cs
    → IsValid s
    → IsValid (register s cs)
unfolding register start
register-IsValid s cs d v =
    (load_all-Loaded s.heap s.creds s.order s.next_runtime_id v cs _ d
      (start-Absent s.heap s.creds s.order s.next_runtime_id v cs)
      (start-Loaded s.heap s.creds s.order s.next_runtime_id v)).inv
