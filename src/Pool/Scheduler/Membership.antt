-- ===== src/Pool/Scheduler/Membership.antt =====
-- Registration and removal of one credential keep the scheduler valid.
use kirocc_prox.Base.{
  ℕ, ◌+◌, ◌≤◌, ◌<◌, ◌≡◌, refl, ◌≢◌, ◌⊎◌, inl, inr, List, [], ◌∷◌, ◌++◌, arith, Option, none, some,
  String, str_eq, str_eq_iff, Map, lookup, insert, remove, lookup-insert, lookup-remove, Bool-cases,
  Option-cases, sym, ◌∙◌, ap,
}
use kirocc_prox.Pool.Credential.{Credential}
use kirocc_prox.Pool.Store.{Heap, update}
use kirocc_prox.Pool.Scheduler.State.{Scheduler}
use kirocc_prox.Pool.Scheduler.Admin.{add, add_new, remove_cred, remove_first}
use kirocc_prox.Pool.Scheduler.Invariant.{Inv, IsValid, count, count-snoc, count-remove_first, size}

-- One more entry, under an ID that the map does not have, whose object gets the identity `r`.
module _ {h : Heap} {m : Map ℕ} {o : List String} {n : ℕ} (i : Inv h m o n) (p : ℕ) (d : Credential)
    (x : String) where
  -- An entry of the new map is the new one or an old one, whose object is not `p`.
  abbrev pub Entry : String → ℕ → Type 0
  Entry id q =
      ((id ≡ x) × (q ≡ p) × (update h p d q ≡ d))
      ⊎ ((id ≢ x) × (lookup id m ≡ some q) × (update h p d q ≡ h q))

  pub entry :
      (h p).id ≡ x
      → lookup x m ≡ none
      → (id : String) (q : ℕ) → lookup id (insert x p m) ≡ some q
      → Entry id q
  entry same missing id q e = elim (Bool-cases (str_eq x id)) [
    | inl k ↦ inl (ground (arith, str_eq_iff x id, lookup-insert x id p m))
    | inr k ↦ inr (ground (arith, str_eq_iff x id, lookup-insert x id p m, i.named id q))
  ]

  -- The entry is new, and its object gets an identity that no entry has.
  pub Inv-insert :
      (n' : ℕ)
      → (h p).id ≡ x
      → d.id ≡ x
      → lookup x m ≡ none
      → n ≤ n'
      → 0 < d.runtime_id
      → d.runtime_id ≤ n'
      → ((j : String) (r : ℕ) → lookup j m ≡ some r → (h r).runtime_id ≢ d.runtime_id)
      → Inv (update h p d) (insert x p m) (o ++ x ∷ []) n'
  Inv-insert n' same names missing grow low high apart = record {
    named = λ id q e. grind (arith, entry same missing id q e, i.named id q);
    fresh = λ id q e. elim (entry same missing id q e) [
      | inl (_, _, k) ↦ rw k (low, high)
      | inr (_, old, k) ↦ rw k (omega (arith, i.fresh id q old))
    ];
    distinct = λ a b q r e f g. elim (entry same missing a q e) [
      | inl (e', _, k) ↦ elim (entry same missing b r f) [
        | inl (y, _, l) ↦ e' ∙ sym y
        | inr (_, old, l) ↦ absurd (apart b r old (sym (id_of l) ∙ sym g ∙ id_of k))
      ]
      | inr (_, old, k) ↦ elim (entry same missing b r f) [
        | inl (y, _, l) ↦ absurd (apart a q old (sym (id_of k) ∙ g ∙ id_of l))
        | inr (_, old', l) ↦ i.distinct a b q r old old' (sym (id_of k) ∙ g ∙ id_of l)
      ]
    ];
    listed = λ id. ground (
      arith,
      count-snoc id x o,
      lookup-insert x id p m,
      i.listed id,
      i.listed x,
      str_eq_iff x id,
    );
  }
    where
      id_of : {c e : Credential} → c ≡ e → c.runtime_id ≡ e.runtime_id
      id_of k = ap (λ (c : Credential). c.runtime_id) k

add_new-IsValid :
    (s : Scheduler) (p : ℕ) (o : Option ℕ)
    → lookup (s.heap p).id s.creds ≡ o
    → IsValid s
    → IsValid (add_new s p o).0
add_new-IsValid s p (some q) e v = v
add_new-IsValid s p none e v =
    Inv-insert v p (record (s.heap p) { runtime_id = s.next_runtime_id + 1 }) (s.heap p).id
      (s.next_runtime_id + 1) refl refl e (omega arith) (omega arith) (omega arith)
      (λ j r found same. absurd (omega (arith, v.fresh j r found, same)))

-- `Add` keeps the scheduler valid, also where it refuses.
pub add-IsValid : (s : Scheduler) (o : Option ℕ) → IsValid s → IsValid (add s o).0
unfolding add
add-IsValid s none v = v
add-IsValid s (some p) v = elim (Bool-cases (str_eq (s.heap p).id "")) [
  | inl e ↦ rw e v
  | inr e ↦ rw e (add_new-IsValid s p _ refl v)
]

module _ {h : Heap} {m : Map ℕ} {o : List String} {n : ℕ} (i : Inv h m o n) (x : String) where
  still : (id : String) (p : ℕ) → lookup id (remove x m) ≡ some p → lookup id m ≡ some p
  still id p e = ground (arith, lookup-remove x id m)

  at_most_once : count x o ≤ 1
  at_most_once = rw (i.listed x) (size_le (lookup x m))
    where
      size_le : (r : Option ℕ) → size r ≤ 1
      size_le none = omega arith
      size_le (some p) = omega arith

  Inv-remove : Inv h (remove x m) (remove_first x o) n
  Inv-remove = record {
    named = λ id p e. i.named id p (still id p e);
    fresh = λ id p e. i.fresh id p (still id p e);
    distinct = λ a b p q e f g. i.distinct a b p q (still a p e) (still b q f) g;
    listed = λ id.
        ground (arith, count-remove_first id x o at_most_once, lookup-remove x id m, i.listed id);
  }

-- `Remove` keeps the scheduler valid, also where it refuses.
pub remove_cred-IsValid : (s : Scheduler) (id : String) → IsValid s → IsValid (remove_cred s id).0
unfolding remove_cred
remove_cred-IsValid s id v = elim (Option-cases (lookup id s.creds)) [
  | inl e ↦ rw (e, remove_cred) v
  | inr (p, e) ↦ rw (e, remove_cred) (Inv-remove v id)
]
