-- ===== src/Respconv/ChunkDelta/Kmp.antt =====
-- The search of internal/respconv/chunk_delta.go, with its failure table.
use kirocc_prox.Base.{
  take_exact, append_nil, ℕ, suc, ◌-◌, ◌≤◌, ◌<◌, ◌≡◌, refl, sym, ap, subst, ◌∙◌, arith, List, [],
  ◌∷◌, ◌++◌, length, take, get_elem?, length-append, ◌==◌, Bool-cases, inl, inr,
}
use kirocc_prox.Respconv.Text.{Text}
use kirocc_prox.Respconv.ChunkDelta.{advance, build, match, reset_full, kmp_overlap, entry}
use kirocc_prox.Respconv.ChunkDelta.Overlap.{Overlaps, IsLongest, Overlaps-zero}
use kirocc_prox.Respconv.ChunkDelta.Table.{Table, shorter, advance_best, Table-snoc}

snoc_append : (u : Text) (c : ℕ) (v : Text) → (u ++ c ∷ []) ++ v ≡ u ++ c ∷ v
snoc_append [] c v = refl
snoc_append (x ∷ u) c v = ap (λ w. x ∷ w) (snoc_append u c v)

module _ (first : ℕ) (rest : Text) where
  abbrev b : Text
  b = first ∷ rest

  build-Table :
      (u cs : Text) (fail : List ℕ) (k : ℕ)
      → rest ≡ u ++ cs
      → Table first rest fail (suc (length u))
      → IsLongest b u k
      → Table first rest (build b fail k cs) (length b)
  unfolding build
  build-Table u [] fail k e table longest =
      subst (λ n. Table first rest fail (suc n)) (ap length (sym (e ∙ append_nil u))) table
  build-Table u (c ∷ cs) fail k e table longest =
      let (over, best) =
        advance_best first rest u fail (suc (length u)) c k table (omega (arith, longest.1.0))
          longest in
      let e' : rest ≡ (u ++ c ∷ []) ++ cs = e ∙ sym (snoc_append u c cs) in
      let size : length (u ++ c ∷ []) ≡ suc (length u) = omega (arith, length-append u (c ∷ [])) in
      let next : IsLongest b (u ++ c ∷ []) (advance b fail k c) = (
        omega (arith, over.0, ap length e', length-append (u ++ c ∷ []) cs),
        over,
        λ m l o. best m o,
      ) in
      let read : take (suc (length u)) rest ≡ u ++ c ∷ [] =
        rw (e', sym size) (take_exact (u ++ c ∷ []) cs) in
      build-Table (u ++ c ∷ []) cs (fail ++ advance b fail k c ∷ []) (advance b fail k c) e'
        (subst (λ n. Table first rest (fail ++ advance b fail k c ∷ []) (suc n)) (sym size)
          (Table-snoc first rest fail (suc (length u)) (advance b fail k c) table
            (subst (λ w. IsLongest b w (advance b fail k c)) (sym read) next)))
        next

  -- What the second loop does at a full match.
  reset_full-IsLongest :
      (t : Text) (fail : List ℕ) (r : ℕ)
      → Table first rest fail (length b)
      → Overlaps b t r × ((m : ℕ) → Overlaps b t m → m ≤ r)
      → IsLongest b t (reset_full b fail r)
  reset_full-IsLongest t fail r table (over, best) = elim (Bool-cases (r == length b)) [
    | inl e ↦
        let whole : r ≡ suc (length rest) = ground (arith, e) in
        let (low, small, over', best') =
          shorter first rest t fail (length b) (length rest) table (omega arith)
            (subst (Overlaps b t) whole over) in
        let last : r - 1 ≡ length rest = omega arith in
        rw (e, last) (small, over', λ m h o. best' m (omega arith) o)
    | inr e ↦ rw e (ground (arith, e, over.1), over, λ m h o. best m o)
  ]

  match-IsLongest :
      (t cs : Text) (fail : List ℕ) (k : ℕ)
      → Table first rest fail (length b)
      → IsLongest b t k
      → IsLongest b (t ++ cs) (match b fail k cs)
  unfolding match
  match-IsLongest t [] fail k table longest =
      subst (λ w. IsLongest b w k) (sym (append_nil t)) longest
  match-IsLongest t (c ∷ cs) fail k table longest =
      subst (λ w. IsLongest b w (match b fail (reset_full b fail (advance b fail k c)) cs))
        (snoc_append t c cs)
        (match-IsLongest (t ++ c ∷ []) cs fail (reset_full b fail (advance b fail k c)) table (
          reset_full-IsLongest (t ++ c ∷ []) fail (advance b fail k c) table (
            advance_best first rest t fail (length b) c k table (omega (arith, longest.0))
              longest)))

empty-IsLongest : (d : ℕ) (b : Text) → IsLongest (d ∷ b) [] 0
empty-IsLongest d b = (omega arith, Overlaps-zero (d ∷ b) [], λ m h o. o.0)

first_entry : (d : ℕ) (b : Text) → Table d b (0 ∷ []) 1
first_entry d b = (
  refl,
  λ i l.
      let e : 0 ≡ i = omega arith in
      subst (λ i. IsLongest (d ∷ b) (take i b) (entry (get_elem? (0 ∷ []) i))) e
        (empty-IsLongest d b),
)

-- The overlap that the search finds is the longest one that is shorter than the chunk: the previous text
-- ends with that many of the chunk's first bytes, and with no longer part of its start short of the whole.
pub kmp_overlap-IsLongest : (a b : Text) → 0 < length b → IsLongest b a (kmp_overlap a b)
unfolding kmp_overlap
kmp_overlap-IsLongest a [] l = ground arith
kmp_overlap-IsLongest [] (d ∷ b) l = (omega arith, Overlaps-zero (d ∷ b) [], λ m h o. o.0)
kmp_overlap-IsLongest (c ∷ a) (d ∷ b) l =
    match-IsLongest d b [] (c ∷ a) (build (d ∷ b) (0 ∷ []) 0 b) 0
      (build-Table d b [] b (0 ∷ []) 0 refl (first_entry d b) (empty-IsLongest d b))
      (empty-IsLongest d b)
