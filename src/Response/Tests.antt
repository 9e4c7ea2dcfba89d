-- ===== src/Response/Tests.antt =====
-- Streaming responses on concrete events, and the theorems there.
use kirocc_prox.Base.{◌≡◌, refl, Bool, true, false, List, [], ◌∷◌, none, some, pos}
use kirocc_prox.Kiroproto.Event.{Event, exception, assistant_response, reasoning_content}
use kirocc_prox.Respconv.Text.{text_eq, index, is_prefix}
use kirocc_prox.Respconv.Accumulator.{
  ResponseAccumulator, empty_accumulator, is_empty_visible_end_turn,
}
use kirocc_prox.Respconv.TokenBudget.{apply_max_tokens_budget}
use kirocc_prox.Respconv.ChunkDelta.{compute_delta}
use kirocc_prox.Respconv.StopSequence.{
  apply_stop_sequence_filter, first_match, resolve_stop_reason, flush_stop_seq_pending,
}
use kirocc_prox.Respconv.ThinkingTags.{parse_thinking_tags, finalize_thinking_tags}
use kirocc_prox.Respconv.Events.{
  Checks, process_event, process_reasoning, accumulate_thinking, deliver, emit_text,
  finalize_stream,
}
use kirocc_prox.Respconv.Writer.{
  thinking_block, text_block, message_start, content_block_start, content_block_delta,
  content_block_stop, message_delta, message_stop, thinking_delta, signature_delta, text_delta,
  new_sse_writer, ensure_started, close_active_block, switch_block, write_thinking_delta,
  write_signature_delta, fire_visible_output, write_text_delta, finish, write_error,
  handle_assistant, handle_reasoning, handle_event, SseWriter,
}
use kirocc_prox.Response.{
  handle_streaming_response, take_events, on_event, new_attempt, respond, passed_on,
  handle_upstream_error,
}
use kirocc_prox.Response.Delivery.{IsDelivered, handle_streaming_response-IsDelivered}

abbrev checks : Checks
checks = record { thought_of = λ t. some t; is_valid = λ t. true; validator = none }

-- Thinking with its signature after it, then text, then more thinking with a signature of its own.
abbrev two_thoughts : List Event
two_thoughts =
    reasoning_content (1 ∷ []) "" ""
    ∷ reasoning_content (1 ∷ []) "first" ""
    ∷ assistant_response (7 ∷ [])
    ∷ reasoning_content (1 ∷ 2 ∷ []) "" ""
    ∷ reasoning_content (1 ∷ 2 ∷ []) "second" ""
    ∷ []

-- No write fails.
abbrev stays_open : SseWriter → Bool
stays_open sw = false

-- The second thinking block carries the signature of the first one, and its own is never sent.
stale_signature_runs :
    (handle_streaming_response checks stays_open
      (new_sse_writer (empty_accumulator (pos 0)))
      two_thoughts
      false).body
    ≡ message_start
      ∷ content_block_start (pos 0) (thinking_block "")
      ∷ content_block_delta (pos 0) (thinking_delta (1 ∷ []))
      ∷ content_block_delta (pos 0) (signature_delta "first")
      ∷ content_block_stop (pos 0)
      ∷ content_block_start (pos 1) text_block
      ∷ content_block_delta (pos 1) (text_delta (7 ∷ []))
      ∷ content_block_stop (pos 1)
      ∷ content_block_start (pos 2) (thinking_block "first")
      ∷ content_block_delta (pos 2) (thinking_delta (2 ∷ []))
      ∷ content_block_stop (pos 2)
      ∷ message_delta "end_turn" none
      ∷ message_stop
      ∷ []
unfolding handle_streaming_response take_events on_event new_attempt respond passed_on
    is_empty_visible_end_turn handle_event process_event process_reasoning accumulate_thinking
    apply_max_tokens_budget compute_delta text_eq deliver emit_text parse_thinking_tags index
    is_prefix handle_reasoning handle_assistant write_thinking_delta write_signature_delta
    write_text_delta switch_block close_active_block ensure_started fire_visible_output finish
    finalize_stream finalize_thinking_tags flush_stop_seq_pending resolve_stop_reason new_sse_writer
stale_signature_runs = refl

-- A stop sequence at the very start of the text: the whole message is written behind the gate, and
-- nothing of it goes to the client.
abbrev with_stop : ResponseAccumulator
with_stop = record (empty_accumulator (pos 0)) { stop_sequences = (7 ∷ []) ∷ [] }

empty_body_runs :
    let r =
      handle_streaming_response checks stays_open
        (new_sse_writer with_stop)
        (assistant_response (7 ∷ 8 ∷ []) ∷ [])
        false in
    (r.body ≡ []) × (r.json_error ≡ none) × (r.reason ≡ "")
unfolding handle_streaming_response take_events on_event new_attempt respond passed_on
    is_empty_visible_end_turn handle_event process_event apply_max_tokens_budget compute_delta
    text_eq deliver emit_text parse_thinking_tags index is_prefix handle_assistant
    close_active_block ensure_started finish finalize_stream finalize_thinking_tags
    flush_stop_seq_pending resolve_stop_reason new_sse_writer apply_stop_sequence_filter first_match
empty_body_runs = (refl, refl, refl)

-- Thinking and then an exception: what the gate holds is discarded for an error in JSON.
exception_runs :
    let r =
      handle_streaming_response checks stays_open
        (new_sse_writer (empty_accumulator (pos 0)))
        (reasoning_content (1 ∷ []) "" "" ∷ exception "overloaded" "" ∷ [])
        false in
    (r.body ≡ [])
    × (r.json_error
        ≡ some (record { status = 502; err_type = "api_error"; message = "upstream exception" }))
unfolding handle_streaming_response take_events on_event new_attempt respond passed_on
    handle_upstream_error handle_event process_event process_reasoning accumulate_thinking
    apply_max_tokens_budget compute_delta text_eq handle_reasoning write_thinking_delta
    write_signature_delta switch_block close_active_block ensure_started write_error new_sse_writer
exception_runs = (refl, refl)

handle_streaming_response-IsDelivered_example : IsDelivered (
    handle_streaming_response checks stays_open
      (new_sse_writer (empty_accumulator (pos 0)))
      two_thoughts
      false)
handle_streaming_response-IsDelivered_example =
    handle_streaming_response-IsDelivered checks stays_open (empty_accumulator (pos 0)) two_thoughts
      false
