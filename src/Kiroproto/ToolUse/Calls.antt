-- ===== src/Kiroproto/ToolUse/Calls.antt =====
-- The tool calls of a stream, for internal/kiroproto/tooluse.go.
use kirocc_prox.Base.{
  ◌≡◌, refl, sym, ap, ◌∙◌, Bool, true, false, List, [], ◌∷◌, ◌++◌, Option, none, some, String,
  str_eq, if◌then◌else◌, Bool-cases, inl, inr, append_nil, append_assoc,
}
use kirocc_prox.Kiroproto.Event.{Event, tool_use}
use kirocc_prox.Kiroproto.ToolUse.{
  Field, absent, undecodable, decoded, RawInput, no_input, bad_string, fragment, value, RawToolUse,
  ToolUseAccumulator, decoded_or, new_tool, flush, start_tool, take_input, stop_tool, fill, update,
  updates,
}

-- The identifiers of the tool calls among the events, those without one left out.
abbrev pub named : String → List String
named id = if str_eq id "" then [] else id ∷ []

abbrev pub emitted_id : Event → List String
emitted_id (tool_use stop id name input) = named id
emitted_id _ = []

unfoldable pub emitted : List Event → List String
emitted [] = []
emitted (e ∷ es) = emitted_id e ++ emitted es

abbrev pub opened_id : Option String → List String
opened_id none = []
opened_id (some id) = named id

-- The identifiers of the tool calls that the payloads open.
unfoldable pub opened : ToolUseAccumulator → List (String × RawToolUse) → List String
opened a [] = []
opened a ((fresh, raw) ∷ raws) =
    opened_id (new_tool a fresh raw) ++ opened (update a fresh raw).0 raws

emitted-append : (es fs : List Event) → emitted (es ++ fs) ≡ emitted es ++ emitted fs
unfolding emitted
emitted-append [] fs = refl
emitted-append (e ∷ es) fs =
    ap (λ u. emitted_id e ++ u) (emitted-append es fs)
    ∙ sym (append_assoc (emitted_id e) (emitted es) (emitted fs))

emitted-flush : (a : ToolUseAccumulator) → emitted (flush a).1 ≡ named a.tool_use_id
unfolding emitted flush
emitted-flush a = elim (Bool-cases (str_eq a.tool_use_id "")) [
  | inl e ↦ rw e refl
  | inr e ↦ rw (e, e) refl
]

fill-id : (a : ToolUseAccumulator) (raw : RawToolUse) → (fill a raw).tool_use_id ≡ a.tool_use_id
fill-id a raw = by_input (record a { tool_name = decoded_or raw.name a.tool_name }) raw.input
  where
    by_input :
        (b : ToolUseAccumulator) (i : RawInput) → (take_input b i).tool_use_id ≡ b.tool_use_id
    by_input b no_input = refl
    by_input b bad_string = refl
    by_input b (fragment s) = refl
    by_input b (value v) = refl

started_ids :
    (a : ToolUseAccumulator) (o : Option String)
    → emitted (start_tool a o).1 ++ named (start_tool a o).0.tool_use_id
      ≡ named a.tool_use_id ++ opened_id o
unfolding emitted
started_ids a none = sym (append_nil (named a.tool_use_id))
started_ids a (some id) = ap (λ u. u ++ named id) (emitted-flush a)

stopped_ids :
    (a : ToolUseAccumulator) (stop : Field Bool)
    → emitted (stop_tool a stop).1 ++ named (stop_tool a stop).0.tool_use_id ≡ named a.tool_use_id
unfolding emitted
stopped_ids a absent = refl
stopped_ids a undecodable = refl
stopped_ids a (decoded false) = refl
stopped_ids a (decoded true) =
    append_nil (named a.tool_use_id ++ []) ∙ append_nil (named a.tool_use_id)

update_ids :
    (a : ToolUseAccumulator) (fresh : String) (raw : RawToolUse)
    → emitted (update a fresh raw).1 ++ named (update a fresh raw).0.tool_use_id
      ≡ named a.tool_use_id ++ opened_id (new_tool a fresh raw)
unfolding update
update_ids a fresh raw =
    let s : ToolUseAccumulator × List Event = start_tool a (new_tool a fresh raw) in
    let t : ToolUseAccumulator × List Event = stop_tool (fill s.0 raw) raw.stop in
    ap (λ u. u ++ named t.0.tool_use_id) (emitted-append s.1 t.1)
    ∙ append_assoc (emitted s.1) (emitted t.1) (named t.0.tool_use_id)
    ∙ ap (λ u. emitted s.1 ++ u) (stopped_ids (fill s.0 raw) raw.stop ∙ ap named (fill-id s.0 raw))
    ∙ started_ids a (new_tool a fresh raw)

-- Every tool call that is opened is emitted, once and in the order in which they are opened, whether its
-- stop frame arrives or not; the one that was open before comes first.
pub updates-emitted :
    (a : ToolUseAccumulator) (raws : List (String × RawToolUse))
    → emitted (updates a raws).1 ≡ named a.tool_use_id ++ opened a raws
unfolding updates opened
updates-emitted a [] = emitted-flush a ∙ sym (append_nil (named a.tool_use_id))
updates-emitted a ((fresh, raw) ∷ raws) =
    let r : ToolUseAccumulator × List Event = update a fresh raw in
    let rest : ToolUseAccumulator × List Event = updates r.0 raws in
    emitted-append r.1 rest.1
    ∙ ap (λ u. emitted r.1 ++ u) (updates-emitted r.0 raws)
    ∙ sym (append_assoc (emitted r.1) (named r.0.tool_use_id) (opened r.0 raws))
    ∙ ap (λ u. u ++ opened r.0 raws) (update_ids a fresh raw)
    ∙ append_assoc (named a.tool_use_id) (opened_id (new_tool a fresh raw)) (opened r.0 raws)
