-- ===== src/Respconv/ChunkDelta/Tests.antt =====
-- The delta of chunks on concrete texts: a is 97, and so on.
use kirocc_prox.Base.{◌≡◌, refl, arith, [], ◌∷◌, ◌++◌, ◌⊎◌}
use kirocc_prox.Respconv.Text.{Text, text_eq, EndsWith}
use kirocc_prox.Respconv.ChunkDelta.{kmp_overlap, match, build, advance, fall_back, compute_delta}
use kirocc_prox.Respconv.ChunkDelta.Overlap.{IsLongest}
use kirocc_prox.Respconv.ChunkDelta.Kmp.{kmp_overlap-IsLongest}
use kirocc_prox.Respconv.ChunkDelta.Cumulative.{compute_delta-covers}

abbrev abc : Text
abc = 97 ∷ 98 ∷ 99 ∷ []

abbrev xabc : Text
xabc = 120 ∷ abc

-- The previous text "xab" ends with the first two bytes of "abc".
overlap_runs : kmp_overlap (120 ∷ 97 ∷ 98 ∷ []) abc ≡ 2
unfolding kmp_overlap match build advance fall_back
overlap_runs = refl

-- The previous text "xabc" ends with all of the chunk "abc", but no shorter part of its start is at the
-- end: the chunk is sent once more.
whole_runs : (kmp_overlap xabc abc ≡ 0) × (compute_delta abc xabc ≡ abc)
unfolding kmp_overlap match build advance fall_back compute_delta text_eq
whole_runs = (refl, refl)

kmp_overlap-IsLongest_example : IsLongest abc xabc (kmp_overlap xabc abc)
kmp_overlap-IsLongest_example = kmp_overlap-IsLongest xabc abc (omega arith)

compute_delta-covers_example :
    EndsWith ((120 ∷ 97 ∷ 98 ∷ []) ++ compute_delta abc (120 ∷ 97 ∷ 98 ∷ [])) abc
    ⊎ ((compute_delta abc (120 ∷ 97 ∷ 98 ∷ []) ≡ [])
        × ((d : Text) × (120 ∷ 97 ∷ 98 ∷ [] ≡ abc ++ d)))
compute_delta-covers_example = compute_delta-covers abc (120 ∷ 97 ∷ 98 ∷ [])
