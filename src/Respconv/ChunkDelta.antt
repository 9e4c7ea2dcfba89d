-- ===== src/Respconv/ChunkDelta.antt =====
-- internal/respconv/chunk_delta.go: the new part of a text that comes in cumulative chunks. Strings are
-- lists of bytes.
pub mod Overlap
pub mod Table
pub mod Kmp
pub mod Cumulative
mod Tests
use kirocc_prox.Base.{
  ℕ, zero, suc, ◌+◌, ◌-◌, Bool, true, false, ◌&&◌, List, [], ◌∷◌, ◌++◌, Option, none, some,
  if◌then◌else◌, ltb, ◌==◌, length, take, drop, get_elem?,
}
use kirocc_prox.Respconv.Text.{Text, text_eq}

abbrev pub holds_byte : Option ℕ → ℕ → Bool
holds_byte none c = false
holds_byte (some d) c = d == c

abbrev pub entry : Option ℕ → ℕ
entry none = 0
entry (some k) = k

-- `for k > 0 && b[k] != c { k = fail[k-1] }`. Each round makes k smaller, so that k rounds are enough.
unfoldable pub fall_back : Text → List ℕ → ℕ → ℕ → ℕ → ℕ
fall_back b fail c zero k = k
fall_back b fail c (suc rounds) k =
    let again = fall_back b fail c rounds (entry (get_elem? fail (k - 1))) in
    if k == 0 then k else if holds_byte (get_elem? b k) c then k else again

-- The loop body that the two loops share: fall back, then advance on a match.
unfoldable pub advance : Text → List ℕ → ℕ → ℕ → ℕ
advance b fail k c =
    let j = fall_back b fail c k k in if holds_byte (get_elem? b j) c then j + 1 else j

-- The first loop, over the bytes of b that are left.
unfoldable pub build : Text → List ℕ → ℕ → Text → List ℕ
build b fail k [] = fail
build b fail k (c ∷ cs) = build b (fail ++ advance b fail k c ∷ []) (advance b fail k c) cs

abbrev pub reset_full : Text → List ℕ → ℕ → ℕ
reset_full b fail k = if k == length b then entry (get_elem? fail (k - 1)) else k

-- The second loop, over the bytes of a that are left.
unfoldable pub match : Text → List ℕ → ℕ → Text → ℕ
match b fail k [] = k
match b fail k (c ∷ cs) = match b fail (reset_full b fail (advance b fail k c)) cs

unfoldable pub kmp_overlap : Text → Text → ℕ
kmp_overlap [] b = 0
kmp_overlap (c ∷ a) [] = 0
kmp_overlap (c ∷ a) (d ∷ b) = match (d ∷ b) (build (d ∷ b) (0 ∷ []) 0 b) 0 (c ∷ a)

abbrev pub after_overlap : ℕ → Text → Text
after_overlap overlap chunk = if ltb 0 overlap then drop overlap chunk else chunk

unfoldable pub compute_delta : Text → Text → Text
compute_delta chunk [] = chunk
compute_delta chunk (p ∷ previous) =
    if text_eq chunk (p ∷ previous)
    then []
    else if ltb (length (p ∷ previous)) (length chunk)
        && text_eq (take (length (p ∷ previous)) chunk) (p ∷ previous)
    then drop (length (p ∷ previous)) chunk
    else if ltb (length chunk) (length (p ∷ previous))
        && text_eq (take (length chunk) (p ∷ previous)) chunk
    then []
    else after_overlap (kmp_overlap (p ∷ previous) chunk) chunk
