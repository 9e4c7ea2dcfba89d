-- ===== src/Kiroproto/Stream.antt =====
-- `ParseStream` of internal/kiroproto/eventstream.go. The decoding of the payloads by `json.Unmarshal`,
-- the checksum, Go's conversion of bytes to a string, the context and the generated identifiers are
-- parameters; the callback is a step on a state of its own.
pub mod Returns
pub mod Frames
use kirocc_prox.Base.{
  ℕ, zero, suc, ◌+◌, Bool, true, false, List, [], ◌∷◌, ◌++◌, Option, none, some, String, str_eq,
  if◌then◌else◌, ltb, ◌||◌, ℤ, length, add_ℤ,
}
use kirocc_prox.Kiroproto.Event.{
  Event, assistant_response, reasoning_content, metadata, metering, message_metadata, context_usage,
  invalid_state, exception,
}
use kirocc_prox.Kiroproto.Frame.{
  Bytes, FrameError, ReadResult, end_of_stream, failed, frame, read_frame,
}
use kirocc_prox.Kiroproto.Headers.{extract_frame_headers}
use kirocc_prox.Kiroproto.ToolUse.{RawToolUse, ToolUseAccumulator, flush, update}

-- What `json.Unmarshal` gives for the payload of each type of event, or `none` for an error. The message
-- of an exception is empty where it has none.
pub record Decoders : Type 0 where
  pub content : Bytes → Option (List ℕ)
  pub reasoning : Bytes → Option (List ℕ × String × String)
  pub raw_tool_use : Bytes → Option RawToolUse
  pub token_usage : Bytes → Option (ℤ × ℤ × ℤ × ℤ)
  pub usage : Bytes → Option (ℤ × ℤ)
  pub state_reason : Bytes → Option (String × String)
  pub conversation_id : Bytes → Option String
  pub is_context_usage : Bytes → Bool
  pub exception_message : Bytes → String

-- What the parser reads beside the stream.
pub record Outside : Type 0 where
  pub crc : Bytes → ℕ
  pub to_string : Bytes → String
  pub decoders : Decoders
  pub done : ℕ → Bool
  pub new_id : ℕ → String

-- What the switch on the event type does: call back, return an error, update the tool calls, or nothing.
pub data Action : Type 0 where
  call : Event → Action
  refuse : Action
  tool : RawToolUse → Action
  skip : Action

abbrev pub or_refuse : Option Event → Action
or_refuse none = refuse
or_refuse (some e) = call e

abbrev pub or_skip : Option Event → Action
or_skip none = skip
or_skip (some e) = call e

abbrev pub decode_content : Option (List ℕ) → Option Event
decode_content none = none
decode_content (some t) = some (assistant_response t)

abbrev pub decode_reasoning : Option (List ℕ × String × String) → Option Event
decode_reasoning none = none
decode_reasoning (some (t, s, r)) = some (reasoning_content t s r)

-- The input tokens are the uncached ones and those read from the cache.
abbrev pub decode_metadata : Option (ℤ × ℤ × ℤ × ℤ) → Option Event
decode_metadata none = none
decode_metadata (some (uncached, output, cache_read, cache_write)) =
    some (metadata (add_ℤ uncached cache_read) output cache_read cache_write)

abbrev pub decode_metering : Option (ℤ × ℤ) → Option Event
decode_metering none = none
decode_metering (some (input, output)) = some (metering input output)

abbrev pub decode_state : Option (String × String) → Option Event
decode_state none = none
decode_state (some (reason, message)) = some (invalid_state message reason)

abbrev pub decode_conversation : Option String → Option Event
decode_conversation none = none
decode_conversation (some id) = some (message_metadata id)

abbrev pub decode_tool : Option RawToolUse → Action
decode_tool none = skip
decode_tool (some raw) = tool raw

unfoldable pub action : Decoders → String → Bytes → Action
action d event_type payload =
    if str_eq event_type "assistantResponseEvent"
    then or_refuse (decode_content (d.content payload))
    else if str_eq event_type "reasoningContentEvent"
    then or_refuse (decode_reasoning (d.reasoning payload))
    else if str_eq event_type "toolUseEvent"
    then decode_tool (d.raw_tool_use payload)
    else if str_eq event_type "metadataEvent"
    then or_skip (decode_metadata (d.token_usage payload))
    else if str_eq event_type "meteringEvent"
    then or_skip (decode_metering (d.usage payload))
    else if str_eq event_type "invalidStateEvent"
    then or_refuse (decode_state (d.state_reason payload))
    else if str_eq event_type "messageMetadataEvent"
    then or_skip (decode_conversation (d.conversation_id payload))
    else if str_eq event_type "contextUsageEvent"
    then (if d.is_context_usage payload then call context_usage else skip)
    else skip

-- How `ParseStream` returns: nil, the context's error, an error of the frame, or one of decoding. It does
-- not return with the fuel used up.
pub data Outcome : Type 0 where
  returned : Outcome
  cancelled : Outcome
  frame_error : FrameError → Outcome
  decode_error : Outcome
  out_of_fuel : Outcome

module _ (o : Outside) (S : Type 0) (callback : S → Event → S × Bool) where
  -- `slices.ContainsFunc(events, callback)`: up to the first that asks to stop.
  unfoldable pub deliver : S → List Event → S × Bool
  deliver s [] = (s, false)
  deliver s (e ∷ es) =
      let r = callback s e in let rest = deliver r.0 es in if r.1 then (r.0, true) else rest

  -- What follows a frame: go on with the accumulator, or return.
  pub data Next : Type 0 where
    go_on : ToolUseAccumulator → S → Next
    return : Outcome → S → Next

  abbrev pub unless_stopped : ToolUseAccumulator → S × Bool → Next
  unless_stopped acc (s, true) = return returned s
  unless_stopped acc (s, false) = go_on acc s

  abbrev pub act : ToolUseAccumulator → S → String → Action → Next
  act acc s fresh (call e) = unless_stopped acc (callback s e)
  act acc s fresh refuse = return decode_error s
  act acc s fresh skip = go_on acc s
  act acc s fresh (tool raw) =
      unless_stopped (update acc fresh raw).0 (deliver s (update acc fresh raw).1)

  -- A frame with its types.
  unfoldable pub handle : ToolUseAccumulator → S → String → String × String → Bytes → Next
  handle acc s fresh (msg_type, event_type) payload =
      if str_eq msg_type "exception"
      then return returned
          (callback s (exception (o.decoders.exception_message payload) event_type)).0
      else act acc s fresh (action o.decoders event_type payload)

  -- The rest of a round after a frame, with the rounds that follow as the first argument.
  abbrev pub proceed : (Bytes → ToolUseAccumulator → S → Outcome × S) → Bytes → Next → Outcome × S
  proceed rounds rest (go_on acc s) = rounds rest acc s
  proceed rounds rest (return outcome s) = (outcome, s)

  -- The rest of a round after `readFrame`. At the end of the stream a tool call in progress is flushed.
  abbrev pub take_frame :
      (Bytes → ToolUseAccumulator → S → Outcome × S)
      → String
      → ToolUseAccumulator
      → S
      → ReadResult
      → Outcome × S
  take_frame rounds fresh acc s end_of_stream = (returned, (deliver s (flush acc).1).0)
  take_frame rounds fresh acc s (failed e) = (frame_error e, s)
  take_frame rounds fresh acc s (frame headers payload rest) =
      proceed rounds rest (handle acc s fresh (extract_frame_headers o.to_string headers) payload)

  -- The loop, on fuel; n counts the rounds.
  unfoldable pub parse_stream : ℕ → ℕ → Bytes → ToolUseAccumulator → S → Outcome × S
  parse_stream zero n stream acc s = (out_of_fuel, s)
  parse_stream (suc fuel) n stream acc s =
      let rounds = parse_stream fuel (suc n) in
      if o.done n
      then (cancelled, s)
      else take_frame rounds (o.new_id n) acc s (read_frame o.crc stream)
