-- ===== src/Respconv/Writer/Told.antt =====
-- What a client reads against what the accumulator holds, for internal/respconv/streaming.go.
use kirocc_prox.Base.{
  refl, sym, ap, subst, ◌∙◌, Bool, true, false, not, arith, [], ◌∷◌, ◌++◌, String, str_eq, if_cases,
  if_both, append_nil,
}
use kirocc_prox.Kiroproto.Event.{
  Event, assistant_response, reasoning_content, tool_use, metadata, metering, message_metadata,
  context_usage, invalid_state, exception, other_type,
}
use kirocc_prox.Respconv.Text.{Text}
use kirocc_prox.Respconv.Accumulator.{ResponseAccumulator}
use kirocc_prox.Respconv.Events.{EventDelta, Checks, process_event}
use kirocc_prox.Respconv.Events.Deltas.{process_event-Gives}
use kirocc_prox.Respconv.Events.Shapes.{Shape, IsReasoning, process_event-Shape}
use kirocc_prox.Respconv.Events.Parts.{IsSilent}
use kirocc_prox.Respconv.Writer.{
  Block, tool_use_block, redacted_thinking_block, tool_use_type, redacted_thinking,
  input_json_delta, error, SseWriter, write_sse, ensure_started, close_active_block, start_block,
  write_delta, write_thinking_delta, write_signature_delta, fire_visible_output, think_if,
  start_text_if, write_error, finish_if, handle_assistant, reason_text, handle_reasoning,
  write_tool, tool_thought, handle_error, handle_delta, handle_event,
}
use kirocc_prox.Respconv.Writer.Content.{
  sent_text, sent_thinking, Sends, Sends-none, after_quiet, then_quiet, write_sse-Sends,
  ensure_started-Sends, close_active_block-Sends, start_block-Sends, write_delta-Sends,
  write_thinking_delta-Sends, fire-Sends, write_signature_delta-Sends,
}
use kirocc_prox.Respconv.Writer.Owing.{
  IsTold, Owes, Sends-IsTold, think_if-Sends, start_text_if-Sends, thinking_then_text,
  finish_if-IsTold,
}

reason_text-IsTold :
    (s : SseWriter) (d : EventDelta) (t : Text) → Owes s [] t → IsTold (reason_text s d t).0
reason_text-IsTold s d [] owed =
    Sends-IsTold s (write_signature_delta s d.signature_delta) [] [] owed
      (write_signature_delta-Sends s d.signature_delta)
reason_text-IsTold s d (c ∷ t) owed =
    let v : SseWriter = write_thinking_delta s (c ∷ t) in
    let w : SseWriter = write_signature_delta v d.signature_delta in
    finish_if-IsTold w d.stop_signal (
      Sends-IsTold s w [] (c ∷ t) owed (
        then_quiet s v w [] (c ∷ t) (write_thinking_delta-Sends s (c ∷ t))
          (write_signature_delta-Sends v d.signature_delta)))

handle_reasoning-IsTold :
    (s : SseWriter) (d : EventDelta)
    → IsReasoning d
    → Owes s d.text_delta d.thinking_delta
    → IsTold (handle_reasoning s d).0
unfolding handle_reasoning
handle_reasoning-IsTold s d (no_text, redacted) owed =
    let e : SseWriter = ensure_started s in
    let c : SseWriter = close_active_block e in
    let block : Block = redacted_thinking_block d.redacted_content in
    let b : SseWriter = start_block c redacted_thinking block in
    let owed' : Owes s [] d.thinking_delta = subst (λ u. Owes s u d.thinking_delta) no_text owed in
    if_cases {A = SseWriter × Bool} (λ r. IsTold r.0) (not (str_eq d.redacted_content ""))
      {x = (close_active_block b, false)} {y = reason_text s d d.thinking_delta}
      (λ h.
        Sends-IsTold s (close_active_block b) [] []
          (subst (λ k. Owes s [] k) (redacted (ground (arith, h))) owed')
          (after_quiet s e (close_active_block b) [] [] (ensure_started-Sends s) (
            after_quiet e c (close_active_block b) [] [] (close_active_block-Sends e) (
              after_quiet c b (close_active_block b) [] []
                (start_block-Sends c redacted_thinking block) (close_active_block-Sends b)))))
      (λ h. reason_text-IsTold s d d.thinking_delta owed')

write_tool-Sends : (s : SseWriter) (d : EventDelta) → Sends s (write_tool s d) [] []
unfolding write_tool
write_tool-Sends s d =
    let e : SseWriter = ensure_started s in
    let f : SseWriter = fire_visible_output e in
    let c : SseWriter = close_active_block f in
    let block : Block = tool_use_block d.tool_use_id d.tool_name in
    let b : SseWriter = start_block c tool_use_type block in
    let w : SseWriter = write_delta b (input_json_delta d.tool_input) in
    after_quiet s e w [] [] (ensure_started-Sends s) (
      after_quiet e f w [] [] (fire-Sends e) (
        after_quiet f c w [] [] (close_active_block-Sends f) (
          after_quiet c b w [] [] (start_block-Sends c tool_use_type block)
            (write_delta-Sends b (input_json_delta d.tool_input)))))

tool_thought-IsTold :
    (s : SseWriter) (d : EventDelta) (t : Text) → Owes s [] t → IsTold (tool_thought s d t).0
tool_thought-IsTold s d [] owed =
    if_both {A = SseWriter × Bool} (λ r. IsTold r.0) d.tool_stop
      {x = finish_if (write_tool s d) d.stop_signal} {y = (s, false)}
      (finish_if-IsTold (write_tool s d) d.stop_signal
        (Sends-IsTold s (write_tool s d) [] [] owed (write_tool-Sends s d)))
      (Sends-IsTold s s [] [] owed (Sends-none s))
tool_thought-IsTold s d (c ∷ t) owed =
    finish_if-IsTold (write_thinking_delta s (c ∷ t)) d.stop_signal (
      Sends-IsTold s (write_thinking_delta s (c ∷ t)) [] (c ∷ t) owed
        (write_thinking_delta-Sends s (c ∷ t)))

handle_assistant-IsTold :
    (s : SseWriter) (d : EventDelta)
    → Owes s d.text_delta d.thinking_delta
    → IsTold (handle_assistant s d).0
unfolding handle_assistant
handle_assistant-IsTold s d owed =
    let v : SseWriter = think_if s d.thinking_delta in
    let w : SseWriter = start_text_if v d.text_delta in
    finish_if-IsTold w d.stop_signal (
      Sends-IsTold s w d.text_delta d.thinking_delta owed (
        thinking_then_text s v w d.text_delta d.thinking_delta (think_if-Sends s d.thinking_delta)
          (start_text_if-Sends v d.text_delta)))

silent_IsTold :
    (s : SseWriter) (d : EventDelta) → IsSilent d → Owes s d.text_delta d.thinking_delta → IsTold s
silent_IsTold s d (no_text, no_thinking) owed =
    Sends-IsTold s s [] []
      (subst (λ u. Owes s u []) no_text (subst (λ k. Owes s d.text_delta k) no_thinking owed))
      (Sends-none s)

write_error-Sends :
    (s : SseWriter) (err_type message : String) → Sends s (write_error s err_type message) [] []
unfolding write_error
write_error-Sends s err_type message =
    let c : SseWriter = close_active_block s in
    after_quiet s c (write_sse c (error err_type message)) [] [] (close_active_block-Sends s)
      (write_sse-Sends c c (error err_type message) refl refl)

pub write_error-IsTold :
    (s : SseWriter) (err_type message : String) → IsTold s → IsTold (write_error s err_type message)
write_error-IsTold s err_type message told =
    Sends-IsTold s (write_error s err_type message) [] []
      (
        sym told.0 ∙ sym (append_nil (sent_text s.sent)),
        sym told.1 ∙ sym (append_nil (sent_thinking s.sent)),
      )
      (write_error-Sends s err_type message)

handle_error-IsTold :
    (s : SseWriter) (err_type : String) (d : EventDelta)
    → IsSilent d
    → Owes s d.text_delta d.thinking_delta
    → IsTold (handle_error s err_type d).0
handle_error-IsTold s err_type d silent owed =
    let told : IsTold s = silent_IsTold s d silent owed in
    let w : SseWriter = write_error s err_type d.error_message in
    if_both {A = SseWriter × Bool} (λ r. IsTold r.0) s.started {x = (w, true)} {y = (s, true)}
      (write_error-IsTold s err_type d.error_message told) told

handle_delta-IsTold :
    (checks : Checks) (s : SseWriter) (e : Event) (d : EventDelta)
    → Shape checks e d
    → Owes s d.text_delta d.thinking_delta
    → IsTold (handle_delta s e d).0
handle_delta-IsTold checks s (assistant_response content) d shape owed =
    handle_assistant-IsTold s d owed
handle_delta-IsTold checks s (reasoning_content t signature redacted) d shape owed =
    handle_reasoning-IsTold s d shape owed
handle_delta-IsTold checks s (tool_use stop id name input) d shape owed =
    tool_thought-IsTold s d d.thinking_delta (subst (λ u. Owes s u d.thinking_delta) shape owed)
handle_delta-IsTold checks s (invalid_state message reason) d shape owed =
    handle_error-IsTold s "invalid_state" d shape owed
handle_delta-IsTold checks s (exception message reason) d shape owed =
    handle_error-IsTold s "api_error" d shape owed
handle_delta-IsTold checks s (metadata i o r w) d shape owed = silent_IsTold s d shape owed
handle_delta-IsTold checks s (metering i o) d shape owed = silent_IsTold s d shape owed
handle_delta-IsTold checks s (message_metadata id) d shape owed = silent_IsTold s d shape owed
handle_delta-IsTold checks s context_usage d shape owed = silent_IsTold s d shape owed
handle_delta-IsTold checks s other_type d shape owed = silent_IsTold s d shape owed

-- One call keeps the writer's text and thinking in step with the accumulator's.
pub handle_event-IsTold :
    (checks : Checks) (s : SseWriter) (e : Event) → IsTold s → IsTold (handle_event checks s e).0
unfolding handle_event
handle_event-IsTold checks s e (told_text, told_thinking) =
    let p : ResponseAccumulator × EventDelta = process_event checks s.acc e in
    let t : SseWriter = record s { acc = p.0 } in
    let (text_more, thinking_more, x0, x1, x2, x3) = process_event-Gives checks s.acc e in
    handle_delta-IsTold checks t e p.1 (process_event-Shape checks s.acc e) (
      text_more ∙ ap (λ u. u ++ p.1.text_delta) (sym told_text),
      thinking_more ∙ ap (λ u. u ++ p.1.thinking_delta) (sym told_thinking),
    )
