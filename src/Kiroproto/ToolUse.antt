-- ===== src/Kiroproto/ToolUse.antt =====
-- internal/kiroproto/tooluse.go: tool calls that arrive in several frames. The fields of a payload come
-- decoded; `uuid.New()` is a parameter.
pub mod Calls
pub mod Pieces
use kirocc_prox.Base.{
  ℕ, Bool, true, false, not, ◌&&◌, List, [], ◌∷◌, ◌++◌, Option, none, some, String, str_eq,
  if◌then◌else◌,
}
use kirocc_prox.Kiroproto.Event.{Event, tool_use}

-- A field of the payload: missing, refused by `json.Unmarshal`, or decoded.
pub data Field {ℓ} (A : Type ℓ) : Type ℓ where
  absent : Field A
  undecodable : Field A
  decoded : A → Field A

-- The input starts with a quotation mark and decodes to a string, or does not, or it is another value.
pub data RawInput : Type 0 where
  no_input : RawInput
  bad_string : RawInput
  fragment : List ℕ → RawInput
  value : List ℕ → RawInput

pub record RawToolUse : Type 0 where
  pub tool_use_id : Field String
  pub name : Field String
  pub input : RawInput
  pub stop : Field Bool

pub record ToolUseAccumulator : Type 0 where
  pub tool_name : String
  pub tool_use_id : String
  pub tool_input : List ℕ

-- The zero value.
abbrev pub empty_accumulator : ToolUseAccumulator
empty_accumulator = record { tool_name = ""; tool_use_id = ""; tool_input = [] }

abbrev pub decoded_or : Field String → String → String
decoded_or absent old = old
decoded_or undecodable old = old
decoded_or (decoded s) old = s

abbrev pub is_present : Field String → Bool
is_present absent = false
is_present undecodable = true
is_present (decoded s) = true

-- `isNewTool`, with the identifier of the new tool.
unfoldable pub new_tool : ToolUseAccumulator → String → RawToolUse → Option String
new_tool a fresh raw =
    let current = decoded_or raw.tool_use_id "" in
    if not (str_eq current "") && not (str_eq current a.tool_use_id)
    then some current
    else if str_eq current "" && str_eq a.tool_use_id "" && is_present raw.name
    then some fresh
    else none

abbrev pub build_and_reset : ToolUseAccumulator → ToolUseAccumulator × Event
build_and_reset a = (empty_accumulator, tool_use true a.tool_use_id a.tool_name a.tool_input)

unfoldable pub flush : ToolUseAccumulator → ToolUseAccumulator × List Event
flush a =
    if str_eq a.tool_use_id "" then (a, []) else ((build_and_reset a).0, (build_and_reset a).1 ∷ [])

-- A new tool flushes the one in progress.
abbrev pub start_tool : ToolUseAccumulator → Option String → ToolUseAccumulator × List Event
start_tool a none = (a, [])
start_tool a (some id) = (record { tool_name = ""; tool_use_id = id; tool_input = [] }, (flush a).1)

abbrev pub take_input : ToolUseAccumulator → RawInput → ToolUseAccumulator
take_input a no_input = a
take_input a bad_string = a
take_input a (fragment s) = record a { tool_input = a.tool_input ++ s }
take_input a (value v) = record a { tool_input = v }

abbrev pub stop_tool : ToolUseAccumulator → Field Bool → ToolUseAccumulator × List Event
stop_tool a absent = (a, [])
stop_tool a undecodable = (a, [])
stop_tool a (decoded false) = (a, [])
stop_tool a (decoded true) = ((build_and_reset a).0, (build_and_reset a).1 ∷ [])

abbrev pub fill : ToolUseAccumulator → RawToolUse → ToolUseAccumulator
fill a raw = take_input (record a { tool_name = decoded_or raw.name a.tool_name }) raw.input

unfoldable pub update : ToolUseAccumulator → String → RawToolUse → ToolUseAccumulator × List Event
update a fresh raw =
    let started = start_tool a (new_tool a fresh raw) in
    let stopped = stop_tool (fill started.0 raw) raw.stop in (stopped.0, started.1 ++ stopped.1)

-- A whole stream: each payload with the identifier that `uuid.New()` would give, and the flush at the end.
unfoldable pub updates :
    ToolUseAccumulator → List (String × RawToolUse) → ToolUseAccumulator × List Event
updates a [] = flush a
updates a ((fresh, raw) ∷ raws) =
    let r = update a fresh raw in let rest = updates r.0 raws in (rest.0, r.1 ++ rest.1)
