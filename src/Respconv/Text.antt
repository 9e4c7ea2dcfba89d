-- ===== src/Respconv/Text.antt =====
-- Text as a list: of code points in internal/respconv/stop_sequence.go, token_budget.go and
-- thinking_tags.go, of bytes in chunk_delta.go. It comes out of JSON and is valid UTF-8, where a search
-- by bytes finds what a search by characters finds.
use kirocc_prox.Base.{
  ℕ, suc, Bool, true, false, List, [], ◌∷◌, ◌++◌, ◌≡◌, Option, none, some, if◌then◌else◌, ◌==◌,
}

abbrev pub Text : Type 0
Text = List ℕ

unfoldable pub is_prefix : Text → Text → Bool
is_prefix [] t = true
is_prefix (c ∷ s) [] = false
is_prefix (c ∷ s) (d ∷ t) = if c == d then is_prefix s t else false

abbrev pub next_index : Option ℕ → Option ℕ
next_index none = none
next_index (some i) = some (suc i)

-- `strings.Index`: the first position where the second text occurs.
unfoldable pub index : Text → Text → Option ℕ
index [] s = if is_prefix s [] then some 0 else none
index (c ∷ t) s = if is_prefix s (c ∷ t) then some 0 else next_index (index t s)

-- `==` on strings.
unfoldable pub text_eq : Text → Text → Bool
text_eq [] [] = true
text_eq [] (d ∷ t) = false
text_eq (c ∷ s) [] = false
text_eq (c ∷ s) (d ∷ t) = if c == d then text_eq s t else false

abbrev pub EndsWith : Text → Text → Type 0
EndsWith t s = (u : Text) × (t ≡ u ++ s)
