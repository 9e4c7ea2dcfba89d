-- ===== src/Respconv/Writer/Messages.antt =====
-- Whole messages of internal/respconv/streaming.go.
use kirocc_prox.Base.{
  ◌≡◌, refl, ap, ◌∙◌, Bool, true, false, not, arith, [], ◌∷◌, ◌++◌, Option, none, some, String,
  str_eq, if_cases, if_both, ◌⊎◌, inl, inr,
}
use kirocc_prox.Kiroproto.Event.{
  Event, assistant_response, reasoning_content, tool_use, metadata, metering, message_metadata,
  context_usage, invalid_state, exception, other_type,
}
use kirocc_prox.Respconv.Text.{Text}
use kirocc_prox.Respconv.Accumulator.{ResponseAccumulator}
use kirocc_prox.Respconv.StopSequence.{resolve_stop_reason}
use kirocc_prox.Respconv.Events.{EventDelta, finalize_stream}
use kirocc_prox.Respconv.Writer.{
  Block, tool_use_block, redacted_thinking_block, tool_use_type, redacted_thinking,
  input_json_delta, message_delta, message_stop, error, SseWriter, ensure_started,
  close_active_block, start_block, write_thinking_delta, write_signature_delta, fire_visible_output,
  think_if, text_if, start_text_if, end_message, finish, write_error, finish_if, handle_assistant,
  reason_text, handle_reasoning, write_tool, tool_thought, handle_error, handle_delta,
}
use kirocc_prox.Respconv.Writer.Protocol.{
  over, ending, between, phase, IsFresh, IsLive, IsGood, open_phase, sent_next,
  ensure_started-IsLive, close_active_block-IsLive, start_block-IsLive, write_delta-IsLive,
}
use kirocc_prox.Respconv.Writer.Blocks.{
  write_thinking_delta-IsLive, fire-IsLive, write_signature_delta-IsGood, think_if-IsGood,
  think_if-IsLive, text_if-IsLive, start_text_if-IsGood,
}

-- The message is over.
abbrev pub IsOver : SseWriter → Type 0
IsOver s = phase s ≡ some over

closed_between :
    (s : SseWriter) → IsLive s × (s.active_type ≡ none) → phase s ≡ some (between s.block_index)
closed_between s ((started, here), e) = here ∙ ap (λ a. some (open_phase s.block_index a)) e

end_message-IsOver :
    (s : SseWriter) (r : String × Option Text) → IsLive s → IsOver (end_message s r)
end_message-IsOver s (reason, sequence) live =
    let c : SseWriter = close_active_block s in
    let here = closed_between c (close_active_block-IsLive s live) in
    sent_next (c.sent ++ message_delta reason sequence ∷ []) message_stop ending over
      (sent_next c.sent (message_delta reason sequence) (between c.block_index) ending here refl)
      refl

pub finish-IsOver : (s : SseWriter) → IsGood s → IsOver (finish s)
unfolding finish
finish-IsOver s good =
    let t : SseWriter = ensure_started s in
    let f : ResponseAccumulator × Text × Text = finalize_stream t.acc in
    let u : SseWriter = record t { acc = record f.0 { invalid_tool_calls = [] } } in
    end_message-IsOver (text_if (think_if u f.2) f.1) (resolve_stop_reason f.0)
      (text_if-IsLive (think_if u f.2) f.1 (think_if-IsLive u f.2 (ensure_started-IsLive s good)))

pub write_error-IsOver :
    (s : SseWriter) (err_type message : String) → IsLive s → IsOver (write_error s err_type message)
unfolding write_error
write_error-IsOver s err_type message live =
    let c : SseWriter = close_active_block s in
    sent_next c.sent (error err_type message) (between c.block_index) over
      (closed_between c (close_active_block-IsLive s live)) refl

-- What `HandleEvent` leaves: a message that can go on, or the end, which is that of the message or comes
-- before its start.
abbrev pub IsHandled : SseWriter × Bool → Type 0
IsHandled (s, false) = IsGood s
IsHandled (s, true) = IsOver s ⊎ IsFresh s

finish_if-IsHandled : (s : SseWriter) (c : Bool) → IsGood s → IsHandled (finish_if s c)
finish_if-IsHandled s true good = inl (finish-IsOver s good)
finish_if-IsHandled s false good = good

handle_assistant-IsHandled :
    (s : SseWriter) (d : EventDelta) → IsGood s → IsHandled (handle_assistant s d)
unfolding handle_assistant
handle_assistant-IsHandled s d good =
    finish_if-IsHandled (start_text_if (think_if s d.thinking_delta) d.text_delta) d.stop_signal (
      start_text_if-IsGood (think_if s d.thinking_delta) d.text_delta
        (think_if-IsGood s d.thinking_delta good))

reason_text-IsHandled :
    (s : SseWriter) (d : EventDelta) (t : Text) → IsGood s → IsHandled (reason_text s d t)
reason_text-IsHandled s d [] good = write_signature_delta-IsGood s d.signature_delta good
reason_text-IsHandled s d (c ∷ t) good =
    finish_if-IsHandled (write_signature_delta (write_thinking_delta s (c ∷ t)) d.signature_delta)
      d.stop_signal
      (write_signature_delta-IsGood (write_thinking_delta s (c ∷ t)) d.signature_delta
        (inr (write_thinking_delta-IsLive s (c ∷ t) good)))

handle_reasoning-IsHandled :
    (s : SseWriter) (d : EventDelta) → IsGood s → IsHandled (handle_reasoning s d)
unfolding handle_reasoning
handle_reasoning-IsHandled s d good =
    let c : SseWriter = close_active_block (ensure_started s) in
    let (live, none_active) =
      close_active_block-IsLive (ensure_started s) (ensure_started-IsLive s good) in
    let block : Block = redacted_thinking_block d.redacted_content in
    let b : SseWriter = start_block c redacted_thinking block in
    if_both {A = SseWriter × Bool} IsHandled (not (str_eq d.redacted_content ""))
      {x = (close_active_block b, false)} {y = reason_text s d d.thinking_delta}
      (inr
        (close_active_block-IsLive b
          (start_block-IsLive c redacted_thinking block live none_active refl)).0)
      (reason_text-IsHandled s d d.thinking_delta good)

write_tool-IsLive : (s : SseWriter) (d : EventDelta) → IsGood s → IsLive (write_tool s d)
unfolding write_tool
write_tool-IsLive s d good =
    let f : SseWriter = fire_visible_output (ensure_started s) in
    let c : SseWriter = close_active_block f in
    let block : Block = tool_use_block d.tool_use_id d.tool_name in
    let b : SseWriter = start_block c tool_use_type block in
    let (live, none_active) =
      close_active_block-IsLive f (fire-IsLive (ensure_started s) (ensure_started-IsLive s good)) in
    (write_delta-IsLive b tool_use_type (input_json_delta d.tool_input)
      (start_block-IsLive c tool_use_type block live none_active refl) refl refl).0

tool_thought-IsHandled :
    (s : SseWriter) (d : EventDelta) (t : Text) → IsGood s → IsHandled (tool_thought s d t)
tool_thought-IsHandled s d [] good =
    if_both {A = SseWriter × Bool} IsHandled d.tool_stop
      {x = finish_if (write_tool s d) d.stop_signal} {y = (s, false)}
      (finish_if-IsHandled (write_tool s d) d.stop_signal (inr (write_tool-IsLive s d good))) good
tool_thought-IsHandled s d (c ∷ t) good =
    finish_if-IsHandled (write_thinking_delta s (c ∷ t)) d.stop_signal
      (inr (write_thinking_delta-IsLive s (c ∷ t) good))

handle_error-IsHandled :
    (s : SseWriter) (err_type : String) (d : EventDelta)
    → IsGood s
    → IsHandled (handle_error s err_type d)
handle_error-IsHandled s err_type d (inl fresh) =
    if_cases {A = SseWriter × Bool} IsHandled s.started
      {x = (write_error s err_type d.error_message, true)} {y = (s, true)}
      (λ e. ground (arith, e, fresh.0)) (λ e. inr fresh)
handle_error-IsHandled s err_type d (inr live) =
    if_cases {A = SseWriter × Bool} IsHandled s.started
      {x = (write_error s err_type d.error_message, true)} {y = (s, true)}
      (λ e. inl (write_error-IsOver s err_type d.error_message live))
      (λ e. ground (arith, e, live.0))

pub handle_delta-IsHandled :
    (s : SseWriter) (e : Event) (d : EventDelta) → IsGood s → IsHandled (handle_delta s e d)
handle_delta-IsHandled s (assistant_response content) d good = handle_assistant-IsHandled s d good
handle_delta-IsHandled s (reasoning_content t signature redacted) d good =
    handle_reasoning-IsHandled s d good
handle_delta-IsHandled s (tool_use stop id name input) d good =
    tool_thought-IsHandled s d d.thinking_delta good
handle_delta-IsHandled s (invalid_state message reason) d good =
    handle_error-IsHandled s "invalid_state" d good
handle_delta-IsHandled s (exception message reason) d good =
    handle_error-IsHandled s "api_error" d good
handle_delta-IsHandled s (metadata i o r w) d good = good
handle_delta-IsHandled s (metering i o) d good = good
handle_delta-IsHandled s (message_metadata id) d good = good
handle_delta-IsHandled s context_usage d good = good
handle_delta-IsHandled s other_type d good = good
