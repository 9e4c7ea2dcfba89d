-- ===== src/Kiroproto/ToolUse/Pieces.antt =====
-- A tool call whose input comes in pieces, for internal/kiroproto/tooluse.go.
use kirocc_prox.Base.{
  ℕ, ◌≡◌, refl, ap, ◌∙◌, true, false, List, [], ◌∷◌, ◌++◌, none, some, String, str_eq, str_eq_refl,
  append_nil, append_assoc, map,
}
use kirocc_prox.Kiroproto.Event.{tool_use}
use kirocc_prox.Kiroproto.ToolUse.{
  absent, decoded, no_input, fragment, RawToolUse, ToolUseAccumulator, empty_accumulator, new_tool,
  update, updates, flush,
}

unfoldable pub joined : List (List ℕ) → List ℕ
joined [] = []
joined (d ∷ ds) = d ++ joined ds

abbrev pub piece : String → String → List ℕ → RawToolUse
piece id name d = record {
  tool_use_id = decoded id;
  name = decoded name;
  input = fragment d;
  stop = absent;
}

abbrev pub last : String → String → RawToolUse
last id name = record {
  tool_use_id = decoded id;
  name = decoded name;
  input = no_input;
  stop = decoded true;
}

-- The frames of one call: its pieces, then its stop. No identifier is generated for them.
abbrev pub frames : String → String → List (List ℕ) → List (String × RawToolUse)
frames id name ds = map (λ d. ("", piece id name d)) ds ++ ("", last id name) ∷ []

module _ (id name : String) (real : str_eq id "" ≡ false) where
  abbrev holding : List ℕ → ToolUseAccumulator
  holding t = record { tool_name = name; tool_use_id = id; tool_input = t }

  not_new :
      (t : List ℕ) (raw : RawToolUse)
      → raw.tool_use_id ≡ decoded id
      → new_tool (holding t) "" raw ≡ none
  unfolding new_tool
  not_new t raw e = rw (e, str_eq_refl id, real) refl

  is_new :
      (raw : RawToolUse)
      → raw.tool_use_id ≡ decoded id
      → new_tool empty_accumulator "" raw ≡ some id
  unfolding new_tool
  is_new raw e = rw (e, real) refl

  held :
      (t : List ℕ) (ds : List (List ℕ))
      → (updates (holding t) (frames id name ds)).1 ≡ tool_use true id name (t ++ joined ds) ∷ []
  unfolding updates update joined flush
  held t [] = rw (not_new t (last id name) refl, append_nil t) refl
  held t (d ∷ ds) =
      rw (not_new t (piece id name d) refl)
        (held (t ++ d) ds ∙ ap (λ u. tool_use true id name u ∷ []) (append_assoc t d (joined ds)))

  -- The pieces of a tool call with an identifier are joined: the call is emitted once, at its stop frame,
  -- with its name and all of its input.
  pub updates-frames :
      (ds : List (List ℕ))
      → (updates empty_accumulator (frames id name ds)).1 ≡ tool_use true id name (joined ds) ∷ []
  unfolding updates update joined flush
  updates-frames [] = rw (is_new (last id name) refl) refl
  updates-frames (d ∷ ds) = rw (is_new (piece id name d) refl) (held d ds)
