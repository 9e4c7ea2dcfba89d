-- ===== src/Response.antt =====
-- internal/app/messages/response.go: `handleStreamingResponse`, with the gate of gate_writer.go in front of
-- the client. The events are those that `kiroproto.ParseStream` hands to its callback, and `failed` tells
-- whether it returns an error after them; it returns none once the callback has returned true.
-- `write_failed` stands for the client's connection: whether `WriteErr` reports a failure for what a
-- writer has written. Logging, metrics, the capture of events and the cache commit are left out.
pub mod Delivery
pub mod Told
mod Tests
use kirocc_prox.Base.{
  ℕ, Bool, true, false, not, ◌||◌, ◌&&◌, List, [], ◌∷◌, Option, none, some, String, str_eq,
  if◌then◌else◌,
}
use kirocc_prox.Kiroproto.Event.{
  Event, assistant_response, reasoning_content, tool_use, metadata, metering, message_metadata,
  context_usage, invalid_state, exception, other_type,
}
use kirocc_prox.Respconv.Accumulator.{InvalidToolCall, is_empty_visible_end_turn}
use kirocc_prox.Respconv.Events.{Checks}
use kirocc_prox.Respconv.Writer.{Sse, SseWriter, handle_event, finish, write_error}

-- The locals of the handler, which its callback writes. `lost` tells that a write to the client failed.
pub record Attempt : Type 0 where
  pub writer : SseWriter
  pub stream_err : Bool
  pub local_stop : Bool
  pub invalid_reason : String
  pub is_exception : Bool
  pub lost : Bool

unfoldable pub new_attempt : SseWriter → Attempt
new_attempt sw = record {
  writer = sw;
  stream_err = false;
  local_stop = false;
  invalid_reason = "";
  is_exception = false;
  lost = false;
}

-- A response in JSON.
pub record HttpError : Type 0 where
  pub status : ℕ
  pub err_type : String
  pub message : String

-- What the client gets, part of the stream or a JSON error, and the outcome that is returned: an empty
-- reason asks for no retry. `writer` and `lost` are the handler's at the end.
pub record Response : Type 0 where
  pub body : List Sse
  pub json_error : Option HttpError
  pub reason : String
  pub invalid_calls : List InvalidToolCall
  pub writer : SseWriter
  pub lost : Bool

-- The first visible output promotes the gate: what it has buffered goes to the client, and so does
-- each write after that. Until then the client has nothing.
abbrev pub is_promoted : SseWriter → Bool
is_promoted sw = sw.visible_fired

unfoldable pub passed_on : SseWriter → List Sse
passed_on sw = if is_promoted sw then sw.sent else []

abbrev pub note_error : Attempt → Event → Attempt
note_error a (invalid_state message reason) = record a { invalid_reason = reason }
note_error a (exception message reason) = record a { is_exception = true }
note_error a _ = a

abbrev pub is_retryable_invalid_state : String → Bool
is_retryable_invalid_state reason =
    str_eq reason "CONTENT_LENGTH_EXCEEDS_THRESHOLD"
    || (str_eq reason "INVALID_CONVERSATION_STATE" || str_eq reason "STALE_CONVERSATION")

abbrev pub answer_json : Attempt → HttpError → Response
answer_json a e = record {
  body = [];
  json_error = some e;
  reason = "";
  invalid_calls = [];
  writer = a.writer;
  lost = a.lost;
}

-- What the gate holds back is discarded, and the outcome asks for a retry.
abbrev pub ask_retry : Attempt → String → List InvalidToolCall → Response
ask_retry a reason calls = record {
  body = [];
  json_error = none;
  reason = reason;
  invalid_calls = calls;
  writer = a.writer;
  lost = a.lost;
}

abbrev pub answer_stream : Attempt → SseWriter → Response
answer_stream a sw = record {
  body = passed_on sw;
  json_error = none;
  reason = "";
  invalid_calls = [];
  writer = sw;
  lost = a.lost;
}

unfoldable pub handle_upstream_error : Attempt → Response
handle_upstream_error a =
    if a.is_exception
    then answer_json a
        (record { status = 502; err_type = "api_error"; message = "upstream exception" })
    else if is_retryable_invalid_state a.invalid_reason
    then ask_retry a a.invalid_reason []
    else answer_json a (record {
      status = 400;
      err_type = "invalid_request_error";
      message = "invalid state: request rejected by upstream";
    })

unfoldable pub write_streaming_or_json_error : Attempt → Response
write_streaming_or_json_error a =
    if a.writer.started && is_promoted a.writer
    then answer_stream a (write_error a.writer "stream_error" "upstream stream error")
    else record (answer_json a
        (record { status = 502; err_type = "stream_error"; message = "upstream stream error" })) {
          body = passed_on a.writer;
        }

-- After `Finish`: only thinking and no visible text is retried.
abbrev pub conclude : Attempt → SseWriter → Response
conclude a sw =
    if is_empty_visible_end_turn sw.acc && not (is_promoted sw)
    then ask_retry (record a { writer = sw }) "empty_visible_end_turn" []
    else answer_stream a sw

abbrev pub has_calls : List InvalidToolCall → Bool
has_calls [] = false
has_calls (c ∷ cs) = true

-- The handler after `ParseStream`.
unfoldable pub respond : Attempt → Bool → Response
respond a err =
    if a.stream_err && not a.writer.started
    then handle_upstream_error a
    else if a.stream_err && not (is_promoted a.writer)
    then handle_upstream_error a
    else if err
    then write_streaming_or_json_error a
    else if has_calls a.writer.acc.invalid_tool_calls && not (is_promoted a.writer)
    then ask_retry a "invalid_tool_use" a.writer.acc.invalid_tool_calls
    else if a.stream_err || a.local_stop
    then answer_stream a a.writer
    else conclude a (finish a.writer)

module _ (checks : Checks) (write_failed : SseWriter → Bool) where
  -- The callback after `HandleEvent`.
  abbrev pub after_event : Attempt → Bool → Attempt × Bool
  after_event a should_stop =
      if write_failed a.writer
      then (record a { stream_err = true; lost = true }, true)
      else if should_stop
      then (if a.writer.acc.local_stop
          then (record a { local_stop = true }, true)
          else (record a { stream_err = true }, true))
      else (a, false)

  unfoldable pub on_event : Attempt → Event → Attempt × Bool
  on_event a e =
      if a.stream_err || a.local_stop
      then (a, true)
      else if write_failed a.writer
      then (record a { stream_err = true; lost = true }, true)
      else (let r = handle_event checks a.writer e in
          after_event (record (note_error a e) { writer = r.0 }) r.1)

  -- `ParseStream` with that callback, and whether it returns an error.
  unfoldable pub take_events : Attempt → List Event → Bool → Attempt × Bool
  take_events a [] failed = (a, failed)
  take_events a (e ∷ es) failed =
      let r = on_event a e in
      let rest = take_events r.0 es failed in if r.1 then (r.0, false) else rest

  unfoldable pub handle_streaming_response : SseWriter → List Event → Bool → Response
  handle_streaming_response sw es failed =
      let r = take_events (new_attempt sw) es failed in respond r.0 r.1
