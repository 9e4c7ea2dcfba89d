-- ===== src/Respconv/Events.antt =====
-- internal/respconv/event_processor.go, and `accumulateThinking` and `FinalizeStream` of accumulator.go:
-- one event of the stream after the other. Text is a list of code points: `ComputeDelta` works on bytes,
-- and in valid UTF-8 an overlap of bytes is one of characters. The JSON decoder and the tool input
-- validator are parameters.
pub mod Unchanged
pub mod Parts
pub mod Deltas
pub mod Runs
pub mod Streams
pub mod Literal
pub mod Shapes
mod Tests
use kirocc_prox.Base.{
  ℕ, ◌+◌, ◌/◌, Bool, true, false, not, ◌&&◌, ◌||◌, List, [], ◌∷◌, ◌++◌, Option, none, some, String,
  str_eq, if◌then◌else◌, leb, ℤ, pos, ltb_ℤ, pos_part, length, Map, lookup,
}
use kirocc_prox.Kiroproto.Event.{
  Event, assistant_response, reasoning_content, tool_use, metadata, metering, message_metadata,
  context_usage, invalid_state, exception, other_type, error_text,
}
use kirocc_prox.Respconv.Text.{Text}
use kirocc_prox.Respconv.Accumulator.{ToolCall, InvalidToolCall, ResponseAccumulator}
use kirocc_prox.Respconv.ChunkDelta.{compute_delta}
use kirocc_prox.Respconv.StopSequence.{apply_stop_sequence_filter, flush_stop_seq_pending}
use kirocc_prox.Respconv.TokenBudget.{apply_max_tokens_budget}
use kirocc_prox.Respconv.ThinkingTags.{is_empty, parse_thinking_tags, finalize_thinking_tags}

pub record EventDelta : Type 0 where
  pub text_delta : Text
  pub thinking_delta : Text
  pub signature_delta : String
  pub redacted_content : String
  pub tool_stop : Bool
  pub tool_use_id : String
  pub tool_name : String
  pub tool_input : Text
  pub is_error : Bool
  pub error_message : String
  pub stop_signal : Bool
  pub stop_reason : String
  pub stop_sequence : Text

abbrev pub no_delta : EventDelta
no_delta = record {
  text_delta = [];
  thinking_delta = [];
  signature_delta = "";
  redacted_content = "";
  tool_stop = false;
  tool_use_id = "";
  tool_name = "";
  tool_input = [];
  is_error = false;
  error_message = "";
  stop_signal = false;
  stop_reason = "";
  stop_sequence = [];
}

-- What the tool input validator answers: the input in a normal form, or why it is refused.
pub data Verdict : Type 0 where
  accepted : Text → Verdict
  refused : String → Verdict

-- `json.Unmarshal` of the thinking tool's input, `jsontext.Value.IsValid`, and `toolInputValidator`.
pub record Checks : Type 0 where
  pub thought_of : Text → Option Text
  pub is_valid : Text → Bool
  pub validator : Option (String → Text → Verdict)

abbrev pub signal_stop : ResponseAccumulator → EventDelta → EventDelta
signal_stop a d =
    if a.local_stop then record d { stop_signal = true; stop_reason = a.stop_reason } else d

abbrev pub write_thinking :
    ResponseAccumulator × Text → EventDelta → ResponseAccumulator × EventDelta
write_thinking (a, []) d = (a, d)
write_thinking (a, c ∷ t) d =
    (record a { thinking_buf = a.thinking_buf ++ c ∷ t }, record d { thinking_delta = c ∷ t })

unfoldable pub accumulate_thinking :
    ResponseAccumulator → Text → EventDelta → ResponseAccumulator × EventDelta
accumulate_thinking a thought d =
    let r = write_thinking (apply_max_tokens_budget a thought) d in (r.0, signal_stop r.0 r.1)

abbrev pub think : ResponseAccumulator → Text → EventDelta → ResponseAccumulator × EventDelta
think a [] d = (a, d)
think a (c ∷ t) d = accumulate_thinking a (c ∷ t) d

abbrev pub filter_stops : ResponseAccumulator → Text → List Text → ResponseAccumulator × Text
filter_stops a t [] = (a, t)
filter_stops a t (s ∷ ss) = apply_stop_sequence_filter a t

abbrev pub spend : ResponseAccumulator × Text → ResponseAccumulator × Text
spend (a, []) = (a, [])
spend (a, c ∷ t) = if a.local_stop then (a, c ∷ t) else apply_max_tokens_budget a (c ∷ t)

abbrev pub write_text : ResponseAccumulator × Text → ResponseAccumulator × Text
write_text (a, []) = (a, [])
write_text (a, c ∷ t) = (record a { text_buf = a.text_buf ++ c ∷ t }, c ∷ t)

-- The branch `if textOut != ""`, which an assistant event and the end of the stream share.
unfoldable pub emit_text : ResponseAccumulator → Text → ResponseAccumulator × Text
emit_text a [] = (a, [])
emit_text a (c ∷ t) =
    write_text (spend (filter_stops (record a { has_text = true }) (c ∷ t) a.stop_sequences))

abbrev pub signal_sequence : ResponseAccumulator → EventDelta → EventDelta
signal_sequence a d =
    if a.local_stop
    then record d {
      stop_signal = true;
      stop_reason = a.stop_reason;
      stop_sequence = a.stop_sequence;
    }
    else d

-- What is parsed out of a delta goes to the thinking first, then to the text.
unfoldable pub deliver : ResponseAccumulator × Text × Text → ResponseAccumulator × EventDelta
deliver (a, text_out, thinking_out) =
    let r = think a thinking_out no_delta in
    let s = emit_text r.0 text_out in (s.0, signal_sequence s.0 (record r.1 { text_delta = s.1 }))

abbrev pub assistant_delta : ResponseAccumulator → Text → ResponseAccumulator × EventDelta
assistant_delta a [] = (a, no_delta)
assistant_delta a (c ∷ delta) =
    if a.local_stop then (a, no_delta) else deliver (parse_thinking_tags a (c ∷ delta))

abbrev pub reasoning_delta :
    ResponseAccumulator → Text → EventDelta → ResponseAccumulator × EventDelta
reasoning_delta a [] d = (a, d)
reasoning_delta a (c ∷ delta) d =
    if a.local_stop then (a, d) else accumulate_thinking a (c ∷ delta) d

abbrev pub see_signature : ResponseAccumulator → String → ResponseAccumulator × EventDelta
see_signature a signature =
    if str_eq signature "" || str_eq signature a.signature
    then (a, no_delta)
    else (record a { signature = signature }, record no_delta { signature_delta = signature })

unfoldable pub process_reasoning :
    ResponseAccumulator → Text → String → String → ResponseAccumulator × EventDelta
process_reasoning a text signature redacted =
    let r = see_signature a signature in
    if not (str_eq redacted "")
    then (r.0, record r.1 { redacted_content = redacted })
    else if r.0.suppress_reasoning_content
    then r
    else reasoning_delta (record r.0 { last_thinking = text })
        (compute_delta text r.0.last_thinking) r.1

abbrev pub original_name : String → Option String → String
original_name name none = name
original_name name (some mapped) = mapped

abbrev pub think_thought : ResponseAccumulator → Option Text → ResponseAccumulator × EventDelta
think_thought a none = (a, no_delta)
think_thought a (some thought) = think a thought no_delta

abbrev pub tool_delta : String → String → Text → EventDelta
tool_delta id name input = record no_delta {
  tool_stop = true;
  tool_use_id = id;
  tool_name = name;
  tool_input = input;
}

abbrev pub validated : Option (String → Text → Verdict) → String → Text → Verdict
validated none name input = accepted input
validated (some validate) name input = validate name input

-- `a.outputRuneCount += toolRunes` and the check of the budget.
abbrev pub count_tool : ResponseAccumulator → ℕ → ResponseAccumulator
count_tool a runes =
    let total = a.output_rune_count + runes in
    if ltb_ℤ (pos 0) a.max_tokens_budget && leb (pos_part a.max_tokens_budget) (total / 4)
    then record a { output_rune_count = total; local_stop = true; stop_reason = "max_tokens" }
    else record a { output_rune_count = total }

module _ (checks : Checks) where
  abbrev pub record_tool :
      ResponseAccumulator → String → String → Text → ResponseAccumulator × EventDelta
  record_tool a id name input =
      let b =
        count_tool
          (record a {
            has_tool_use = true;
            tool_parse_error = a.tool_parse_error || not (checks.is_valid input);
          })
          (length input) in
      (
        record b {
          tool_calls = a.tool_calls ++ record { id = id; name = name; input = input } ∷ [];
        },
        signal_stop b (tool_delta id name input),
      )

  abbrev pub judge :
      ResponseAccumulator → String → String → Text → Verdict → ResponseAccumulator × EventDelta
  judge a id name input (accepted normalized) = record_tool a id name normalized
  judge a id name input (refused reason) = (
    record a {
      invalid_tool_calls =
          a.invalid_tool_calls
          ++ record { id = id; name = name; input = input; reason = reason } ∷ [];
    },
    no_delta,
  )

  unfoldable pub process_tool_use :
      ResponseAccumulator → Bool → String → String → Text → ResponseAccumulator × EventDelta
  process_tool_use a stop id tool_name input =
      let name = original_name tool_name (lookup tool_name a.tool_name_map) in
      if not stop || a.local_stop
      then (a, no_delta)
      else if str_eq name "thinking"
      then think_thought a (checks.thought_of input)
      else if not (str_eq a.drop_tool_name "") && str_eq tool_name a.drop_tool_name
      then (a, tool_delta id name input)
      else judge a id name input (validated checks.validator name input)

  unfoldable pub process_event : ResponseAccumulator → Event → ResponseAccumulator × EventDelta
  process_event a (assistant_response content) =
      assistant_delta (record a { last_content = content }) (compute_delta content a.last_content)
  process_event a (reasoning_content text signature redacted) =
      process_reasoning a text signature redacted
  process_event a (tool_use stop id name input) = process_tool_use a stop id name input
  process_event a (metadata input output cache_read cache_write) = (
    record a {
      has_metadata = true;
      input_tokens = input;
      output_tokens = output;
      cache_read_input_tokens = cache_read;
      cache_write_input_tokens = cache_write;
    },
    no_delta,
  )
  process_event a (metering input output) =
      if a.has_metadata
      then (a, no_delta)
      else (record a { input_tokens = input; output_tokens = output }, no_delta)
  process_event a (message_metadata id) = (record a { conversation_id = id }, no_delta)
  process_event a context_usage = (record a { has_context_usage = true }, no_delta)
  process_event a (invalid_state message reason) =
      (a, record no_delta { is_error = true; error_message = error_text message reason })
  process_event a (exception message reason) =
      (a, record no_delta { is_error = true; error_message = error_text message reason })
  process_event a other_type = (a, no_delta)

  -- The events of a stream, with the deltas that they give.
  unfoldable pub process_events :
      ResponseAccumulator → List Event → ResponseAccumulator × List EventDelta
  process_events a [] = (a, [])
  process_events a (e ∷ es) =
      let r = process_event a e in let rest = process_events r.0 es in (rest.0, r.1 ∷ rest.1)

-- `FinalizeStream`'s first part: the thinking tags.
abbrev pub finalize_tags : ResponseAccumulator × Text × Text → ResponseAccumulator × Text × Text
finalize_tags (a, text_out, thinking_out) =
    let r = think a thinking_out no_delta in
    let s = emit_text r.0 text_out in (s.0, s.1, r.1.thinking_delta)

-- Its second part: what the stop sequence filter kept back. `remaining` goes through the budget.
abbrev pub flush_rest : ResponseAccumulator × Text → ResponseAccumulator × Text
flush_rest (a, []) = (a, [])
flush_rest (a, c ∷ t) =
    if a.local_stop then (a, []) else write_text (apply_max_tokens_budget a (c ∷ t))

unfoldable pub finalize_stream : ResponseAccumulator → ResponseAccumulator × Text × Text
finalize_stream a =
    let (b, text, thinking) = finalize_tags (finalize_thinking_tags a) in
    let r = flush_rest (flush_stop_seq_pending b) in (r.0, text ++ r.1, thinking)
