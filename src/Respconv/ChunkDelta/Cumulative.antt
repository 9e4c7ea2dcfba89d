-- ===== src/Respconv/ChunkDelta/Cumulative.antt =====
-- Streams of chunks through `ComputeDelta` of internal/respconv/chunk_delta.go.
use kirocc_prox.Base.{
  take_exact, drop_exact, append_assoc, append_nil, ℕ, zero, suc, ◌+◌, ◌-◌, ◌≤◌, ◌<◌, ◌≡◌, refl,
  sym, ap, ◌∙◌, true, false, ◌&&◌, arith, List, [], ◌∷◌, ◌++◌, length, take, drop, get_elem?,
  take-append-drop, length-append, ltb, ◌==◌, Bool-cases, ◌⊎◌, inl, inr, get_elem?-drop,
  get_elem?-take, get_elem?-beyond,
}
use kirocc_prox.Respconv.Text.{Text, text_eq, EndsWith}
use kirocc_prox.Respconv.ChunkDelta.{compute_delta, kmp_overlap, after_overlap}
use kirocc_prox.Respconv.ChunkDelta.Overlap.{Overlaps}
use kirocc_prox.Respconv.ChunkDelta.Kmp.{kmp_overlap-IsLongest}

pub text_eq_lem : (s t : Text) → text_eq s t ≡ true → s ≡ t
unfolding text_eq
text_eq_lem [] [] h = refl
text_eq_lem [] (d ∷ t) h = ground (arith, h)
text_eq_lem (c ∷ s) [] h = ground (arith, h)
text_eq_lem (c ∷ s) (d ∷ t) h = elim (Bool-cases (c == d)) [
  | inl e ↦
      let same : c ≡ d = ground (arith, e) in rw (same, text_eq_lem s t (ground (arith, h, e))) refl
  | inr e ↦ ground (arith, h, e)
]

pub text_eq_refl : (s : Text) → text_eq s s ≡ true
unfolding text_eq
text_eq_refl [] = refl
text_eq_refl (c ∷ s) = ground (arith, text_eq_refl s)

append_longer : (u : Text) (d : ℕ) (v : Text) → text_eq (u ++ d ∷ v) u ≡ false
unfolding text_eq
append_longer [] d v = refl
append_longer (x ∷ u) d v = ground (arith, append_longer u d v)

pub compute_delta-append : (previous d : Text) → compute_delta (previous ++ d) previous ≡ d
unfolding compute_delta
compute_delta-append [] d = refl
compute_delta-append (p ∷ previous) [] = rw (append_nil previous, text_eq_refl (p ∷ previous)) refl
compute_delta-append (p ∷ previous) (x ∷ d) =
    let longer : ltb (length (p ∷ previous)) (length ((p ∷ previous) ++ x ∷ d)) ≡ true =
      ground (arith, length-append (p ∷ previous) (x ∷ d)) in
    rw
      (
        append_longer (p ∷ previous) x d,
        longer,
        take_exact (p ∷ previous) (x ∷ d),
        text_eq_refl (p ∷ previous),
        drop_exact (p ∷ previous) (x ∷ d),
      )
      refl

-- The chunks of a stream that grows by the given pieces, and what is emitted for a stream of chunks.
unfoldable pub grow : Text → List Text → List Text
grow previous [] = []
grow previous (d ∷ ds) = (previous ++ d) ∷ grow (previous ++ d) ds

unfoldable pub deltas : Text → List Text → List Text
deltas previous [] = []
deltas previous (chunk ∷ chunks) = compute_delta chunk previous ∷ deltas chunk chunks

-- A stream of cumulative chunks is taken apart again into the pieces that it grew by, empty ones
-- included, wherever the pieces are cut.
pub deltas-grow : (previous : Text) (ds : List Text) → deltas previous (grow previous ds) ≡ ds
unfolding deltas grow
deltas-grow previous [] = refl
deltas-grow previous (d ∷ ds) =
    rw (compute_delta-append previous d, deltas-grow (previous ++ d) ds) refl

get_elem?-ext : (xs ys : Text) → ((i : ℕ) → get_elem? xs i ≡ get_elem? ys i) → xs ≡ ys
get_elem?-ext [] [] h = refl
get_elem?-ext [] (y ∷ ys) h = ground (arith, h 0)
get_elem?-ext (x ∷ xs) [] h = ground (arith, h 0)
get_elem?-ext (x ∷ xs) (y ∷ ys) h =
    let first : x ≡ y = ground (arith, h 0) in rw (first, get_elem?-ext xs ys (λ i. h (suc i))) refl

overlap_at :
    (b t : Text) (n i : ℕ)
    → n ≤ length t
    → (i < n → get_elem? t (length t - n + i) ≡ get_elem? b i)
    → get_elem? (drop (length t - n) t) i ≡ get_elem? (take n b) i
overlap_at b t n i short same = ground (
  arith,
  get_elem?-drop (length t - n) t i,
  get_elem?-take n b i,
  get_elem?-beyond t (length t - n + i),
)

Overlaps-EndsWith : (b t : Text) (n : ℕ) → Overlaps b t n → EndsWith t (take n b)
Overlaps-EndsWith b t n (short, within, same) = (
  take (length t - n) t,
  sym (take-append-drop (length t - n) t)
      ∙ ap (λ w. take (length t - n) t ++ w)
          (get_elem?-ext (drop (length t - n) t) (take n b)
            (λ i. overlap_at b t n i short (same i))),
)

-- The text sent so far ends with the chunk.
overlap_covers :
    (chunk previous : Text) (n : ℕ)
    → EndsWith previous (take n chunk)
    → EndsWith (previous ++ after_overlap n chunk) chunk
overlap_covers chunk previous zero h = (previous, refl)
overlap_covers chunk previous (suc n) (u, e) =
    let some_bytes : ltb 0 (suc n) ≡ true = ground arith in
    rw some_bytes (
      u,
      ap (λ w. w ++ drop (suc n) chunk) e
          ∙ append_assoc u (take (suc n) chunk) (drop (suc n) chunk)
          ∙ ap (λ w. u ++ w) (take-append-drop (suc n) chunk),
    )

abbrev IsCovered : Text → Text → Text → Type 0
IsCovered chunk previous delta =
    EndsWith (previous ++ delta) chunk ⊎ ((delta ≡ []) × ((d : Text) × (previous ≡ chunk ++ d)))

searched-IsCovered :
    (chunk previous : Text)
    → IsCovered chunk previous (after_overlap (kmp_overlap previous chunk) chunk)
searched-IsCovered [] previous = inl (_, sym (append_nil _))
searched-IsCovered (c ∷ chunk) previous =
    let longest = kmp_overlap-IsLongest previous (c ∷ chunk) (omega arith) in
    inl (
      overlap_covers (c ∷ chunk) previous (kmp_overlap previous (c ∷ chunk))
        (Overlaps-EndsWith (c ∷ chunk) previous (kmp_overlap previous (c ∷ chunk)) longest.1))

prefix_split :
    (u chunk : Text) → text_eq (take (length u) chunk) u ≡ true → chunk ≡ u ++ drop (length u) chunk
prefix_split u chunk e =
    sym (take-append-drop (length u) chunk)
    ∙ ap (λ w. w ++ drop (length u) chunk) (text_eq_lem (take (length u) chunk) u e)

-- Whatever the chunk is, what was sent before and the delta together end with the chunk, unless the
-- chunk is a part of the start of what was sent before: then nothing is sent.
pub compute_delta-covers :
    (chunk previous : Text)
    → EndsWith (previous ++ compute_delta chunk previous) chunk
      ⊎ ((compute_delta chunk previous ≡ []) × ((d : Text) × (previous ≡ chunk ++ d)))
unfolding compute_delta
compute_delta-covers chunk [] = inl ([], refl)
compute_delta-covers chunk (p ∷ previous) =
    let u : Text = p ∷ previous in
    elim (Bool-cases (text_eq chunk u)) [
      | inl e ↦ rw e (inl ([], append_nil u ∙ sym (text_eq_lem chunk u e)))
      | inr e ↦
          rw e
            (elim (Bool-cases
              (ltb (length u) (length chunk) && text_eq (take (length u) chunk) u)) [
                | inl f ↦ rw f (inl ([], sym (prefix_split u chunk (ground (arith, f)))))
                | inr f ↦
                    rw f
                      (elim (Bool-cases
                        (ltb (length chunk) (length u) && text_eq (take (length chunk) u) chunk)) [
                          | inl g ↦ rw g (inr (refl, (_, prefix_split chunk u (ground (arith, g)))))
                          | inr g ↦ rw g (searched-IsCovered chunk u)
                        ])
              ])
    ]
