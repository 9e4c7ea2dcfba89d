-- ===== src/Pool/Scheduler/Takeover.antt =====
-- The loop of `Register` seen from one account: which object takes it over, and with what state.
use kirocc_prox.Base.{
  ℕ, ◌≡◌, refl, ◌≢◌, inl, inr, List, [], ◌∷◌, arith, Option, none, some, String, str_eq_iff,
  str_eq_refl, Map, lookup, lookup-insert, Option-cases, sym, ◌∙◌, ap, All, All-map, All-at, Member,
  subst,
}
use kirocc_prox.Pool.Credential.{Credential}
use kirocc_prox.Pool.Store.{Heap, update}
use kirocc_prox.Pool.Scheduler.Register.{
  Loading, copy_runtime_state, load_known, load_one, load_all,
}
use kirocc_prox.Pool.Scheduler.Reload.{Differs, IsDistinct, adopt-id}

update_ne : (h : Heap) (p q : ℕ) (d : Credential) → q ≢ p → update h p d q ≡ h q
update_ne h p q d ne = ground arith

-- The new object with the old one's identity and runtime state.
unfoldable pub inherit : Credential → Credential → Credential
inherit src dst = copy_runtime_state src (record dst { runtime_id = src.runtime_id })

module _ (m₀ : Map ℕ) where
  -- A round of the loop writes to one object, keeps every ID, and adds one ID to the map.
  load_one-id : (l : Loading) (c : Option ℕ) (q : ℕ) → ((load_one m₀ l c).heap q).id ≡ (l.heap q).id
  unfolding load_one
  load_one-id l none q = refl
  load_one-id l (some p) q = elim (Option-cases (lookup (l.heap p).id m₀)) [
    | inl e ↦ rw (e, load_known) (ground arith)
    | inr (o, e) ↦ rw (e, load_known) (ground (arith, adopt-id l.heap o p))
  ]

  load_one-heap : (l : Loading) (p q : ℕ) → q ≢ p → (load_one m₀ l (some p)).heap q ≡ l.heap q
  unfolding load_one
  load_one-heap l p q ne = elim (Option-cases (lookup (l.heap p).id m₀)) [
    | inl e ↦ rw (e, load_known) (ground arith)
    | inr (o, e) ↦ rw (e, load_known) (ground arith)
  ]

  load_one-next :
      (l : Loading) (p : ℕ) (id : String)
      → (l.heap p).id ≢ id
      → lookup id (load_one m₀ l (some p)).next ≡ lookup id l.next
  unfolding load_one
  load_one-next l p id ne = elim (Option-cases (lookup (l.heap p).id m₀)) [
    | inl e ↦
        rw (e, load_known)
          (ground (arith, lookup-insert (l.heap p).id id p l.next, str_eq_iff (l.heap p).id id))
    | inr (o, e) ↦
        rw (e, load_known)
          (ground (arith, lookup-insert (l.heap p).id id p l.next, str_eq_iff (l.heap p).id id))
  ]

  Differs-ids :
      (h k : Heap) (id : String) (c : Option ℕ)
      → ((q : ℕ) → (k q).id ≡ (h q).id)
      → Differs h id c
      → Differs k id c
  Differs-ids h k id none same d = tt
  Differs-ids h k id (some q) same d = rw (same q) d

  All-Differs-ids :
      (h k : Heap) (id : String) (cs : List (Option ℕ))
      → ((q : ℕ) → (k q).id ≡ (h q).id)
      → All (Differs h id) cs
      → All (Differs k id) cs
  All-Differs-ids h k id cs same d =
      All-map (Differs h id) (Differs k id) cs (λ c. Differs-ids h k id c same) d

  IsDistinct-ids :
      (h k : Heap) (cs : List (Option ℕ))
      → ((q : ℕ) → (k q).id ≡ (h q).id)
      → IsDistinct h cs
      → IsDistinct k cs
  IsDistinct-ids h k [] same d = tt
  IsDistinct-ids h k (none ∷ cs) same d = IsDistinct-ids h k cs same d
  IsDistinct-ids h k (some p ∷ cs) same d =
      (rw (same p) (All-Differs-ids h k (h p).id cs same d.0), IsDistinct-ids h k cs same d.1)

  -- The rest of the loop leaves an ID alone that does not come up any more.
  load_all-keeps :
      (cs : List (Option ℕ)) (l : Loading) (id : String) (p : ℕ)
      → (l.heap p).id ≡ id
      → All (Differs l.heap id) cs
      → (lookup id (load_all m₀ l cs).next ≡ lookup id l.next)
        × ((load_all m₀ l cs).heap p ≡ l.heap p)
  unfolding load_all load_one
  load_all-keeps [] l id p e d = (refl, refl)
  load_all-keeps (none ∷ cs) l id p e d = load_all-keeps cs l id p e d.1
  load_all-keeps (some q ∷ cs) l id p e d =
      let l' = load_one m₀ l (some q) in
      let (kept, same) =
        load_all-keeps cs l' id p (load_one-id l (some q) p ∙ e)
          (All-Differs-ids l.heap l'.heap id cs (load_one-id l (some q)) d.1) in
      (
        kept ∙ load_one-next l q id d.0,
        same ∙ load_one-heap l q p (λ k. d.0 (ap (λ (r : ℕ). (l.heap r).id) (sym k) ∙ e)),
      )

  -- The object that takes an account over has the old identity and the old state.
  abbrev pub TakenOver : Loading → Heap → ℕ → ℕ → Type 0
  TakenOver l' h o p =
      (lookup (h p).id l'.next ≡ some p) × (l'.heap p ≡ inherit (h o) (h p)) × (l'.heap o ≡ h o)

  TakenOver-heap :
      (l : Loading) (h k : Heap) (o p : ℕ)
      → h p ≡ k p
      → h o ≡ k o
      → TakenOver l h o p
      → TakenOver l k o p
  TakenOver-heap l h k o p e f t = rw (← e, ← f) t

  load_one-known :
      (l : Loading) (p o : ℕ)
      → lookup (l.heap p).id m₀ ≡ some o
      → o ≢ p
      → (l.heap p).id ≢ ""
      → TakenOver (load_one m₀ l (some p)) l.heap o p
  unfolding load_one inherit
  load_one-known l p o e ne named =
      rw (e, load_known)
        (ground (
          arith,
          str_eq_iff (l.heap p).id "",
          str_eq_refl (l.heap p).id,
          lookup-insert (l.heap p).id (l.heap p).id p l.next,
        ))

  load_all-TakenOver :
      (cs : List (Option ℕ)) (l : Loading) (h : Heap) (p o : ℕ)
      → (l.heap p).id ≡ (h p).id
      → (l.heap o).id ≡ (h p).id
      → All (Differs l.heap (h p).id) cs
      → TakenOver l h o p
      → TakenOver (load_all m₀ l cs) h o p
  load_all-TakenOver cs l h p o ep eo d (found, state, old) =
      let (kept, same) = load_all-keeps cs l (h p).id p ep d in
      let (_, same') = load_all-keeps cs l (h p).id o eo d in
      (kept ∙ found, same ∙ state, same' ∙ old)

  Differs-at :
      (h : Heap) (id : String) (p : ℕ) (cs : List (Option ℕ))
      → All (Differs h id) cs
      → Member (some p) cs
      → (h p).id ≢ id
  Differs-at h id p cs d m = All-at (Differs h id) cs d m

  pub load_all-takes_over :
      (cs : List (Option ℕ)) (l : Loading) (p o : ℕ)
      → IsDistinct l.heap cs
      → Member (some p) cs
      → lookup (l.heap p).id m₀ ≡ some o
      → (l.heap o).id ≡ (l.heap p).id
      → o ≢ p
      → (l.heap p).id ≢ ""
      → TakenOver (load_all m₀ l cs) l.heap o p
  unfolding load_all load_one
  load_all-takes_over [] l p o d m e same ne named = elim m [ ]
  load_all-takes_over (none ∷ cs) l p o d (inl here) e same ne named = absurd (ground arith)
  load_all-takes_over (none ∷ cs) l p o d (inr m) e same ne named =
      load_all-takes_over cs l p o d m e same ne named
  load_all-takes_over (some q ∷ cs) l p o d (inl here) e same ne named =
      let l' = load_one m₀ l (some p) in
      let ids = load_one-id l (some p) in
      let q≡p : q ≡ p = ground arith in
      subst (λ (r : ℕ). TakenOver (load_all m₀ (load_one m₀ l (some r)) cs) l.heap o p) (sym q≡p)
        (load_all-TakenOver cs l' l.heap p o (ids p) (ids o ∙ same)
          (All-Differs-ids l.heap l'.heap (l.heap p).id cs ids
            (subst (λ (r : ℕ). All (Differs l.heap (l.heap r).id) cs) q≡p d.0))
          (load_one-known l p o e ne named))
  load_all-takes_over (some q ∷ cs) l p o d (inr m) e same ne named =
      let l' = load_one m₀ l (some q) in
      let ids = load_one-id l (some q) in
      let differs = Differs-at l.heap (l.heap q).id p cs d.0 m in
      let at_p : l'.heap p ≡ l.heap p =
        load_one-heap l q p (λ k. differs (ap (λ (r : ℕ). (l.heap r).id) k)) in
      let at_o : l'.heap o ≡ l.heap o =
        load_one-heap l q o (λ k. differs (sym same ∙ ap (λ (r : ℕ). (l.heap r).id) k)) in
      TakenOver-heap (load_all m₀ l' cs) l'.heap l.heap o p at_p at_o (
        load_all-takes_over cs l' p o (IsDistinct-ids l.heap l'.heap cs ids d.1) m (rw (ids p) e)
          (ids o ∙ same ∙ sym (ids p)) ne (rw (ids p) named))
