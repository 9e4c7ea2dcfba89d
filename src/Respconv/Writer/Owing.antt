-- ===== src/Respconv/Writer/Owing.antt =====
-- What is still to be sent, and the end of a message, for internal/respconv/streaming.go.
use kirocc_prox.Base.{
  ◌≡◌, refl, sym, ap, subst, ◌∙◌, Bool, true, false, [], ◌∷◌, ◌++◌, Option, String, append_nil,
}
use kirocc_prox.Respconv.Text.{Text}
use kirocc_prox.Respconv.Accumulator.{ResponseAccumulator}
use kirocc_prox.Respconv.StopSequence.{resolve_stop_reason}
use kirocc_prox.Respconv.Events.{finalize_stream}
use kirocc_prox.Respconv.Events.Runs.{finalize_stream-Step}
use kirocc_prox.Respconv.Writer.{
  message_delta, message_stop, SseWriter, write_sse, ensure_started, close_active_block,
  write_text_delta, think_if, text_if, start_text_if, end_message, finish, finish_if,
}
use kirocc_prox.Respconv.Writer.Content.{
  sent_text, sent_thinking, Sends, Sends-none, Sends-trans, after_quiet, then_quiet,
  write_sse-Sends, ensure_started-Sends, close_active_block-Sends, write_thinking_delta-Sends,
  write_text_delta-Sends,
}

-- All the text and thinking of the accumulator are sent.
abbrev pub IsTold : SseWriter → Type 0
IsTold s = (sent_text s.sent ≡ s.acc.text_buf) × (sent_thinking s.sent ≡ s.acc.thinking_buf)

-- This text and this thinking of the accumulator are not sent yet.
abbrev pub Owes : SseWriter → Text → Text → Type 0
Owes s u k =
    (s.acc.text_buf ≡ sent_text s.sent ++ u) × (s.acc.thinking_buf ≡ sent_thinking s.sent ++ k)

pub Sends-IsTold : (s t : SseWriter) (u k : Text) → Owes s u k → Sends s t u k → IsTold t
Sends-IsTold s t u k (text_owed, thinking_owed) (a, b, same) = (
  a ∙ sym text_owed ∙ ap (λ c. c.text_buf) (sym same),
  b ∙ sym thinking_owed ∙ ap (λ c. c.thinking_buf) (sym same),
)

pub think_if-Sends : (s : SseWriter) (t : Text) → Sends s (think_if s t) [] t
think_if-Sends s [] = Sends-none s
think_if-Sends s (c ∷ t) = write_thinking_delta-Sends s (c ∷ t)

text_if-Sends : (s : SseWriter) (t : Text) → Sends s (text_if s t) t []
text_if-Sends s [] = Sends-none s
text_if-Sends s (c ∷ t) = write_text_delta-Sends s (c ∷ t)

pub start_text_if-Sends : (s : SseWriter) (t : Text) → Sends s (start_text_if s t) t []
start_text_if-Sends s [] = Sends-none s
start_text_if-Sends s (c ∷ t) =
    let e : SseWriter = ensure_started s in
    after_quiet s e (write_text_delta e (c ∷ t)) (c ∷ t) [] (ensure_started-Sends s)
      (write_text_delta-Sends e (c ∷ t))

pub thinking_then_text :
    (s t v : SseWriter) (u k : Text) → Sends s t [] k → Sends t v u [] → Sends s v u k
thinking_then_text s t v u k h h' =
    subst (λ w. Sends s v u w) (append_nil k) (Sends-trans s t v [] k u [] h h')

end_message-Sends : (s : SseWriter) (r : String × Option Text) → Sends s (end_message s r) [] []
end_message-Sends s (reason, sequence) =
    let c : SseWriter = close_active_block s in
    let d : SseWriter = write_sse c (message_delta reason sequence) in
    after_quiet s c (write_sse d message_stop) [] [] (close_active_block-Sends s) (
      after_quiet c d (write_sse d message_stop) [] []
        (write_sse-Sends c c (message_delta reason sequence) refl refl)
        (write_sse-Sends d d message_stop refl refl))

pub finish-IsTold : (s : SseWriter) → IsTold s → IsTold (finish s)
unfolding finish
finish-IsTold s (told_text, told_thinking) =
    let t : SseWriter = ensure_started s in
    let f : ResponseAccumulator × Text × Text = finalize_stream t.acc in
    let u : SseWriter = record t { acc = record f.0 { invalid_tool_calls = [] } } in
    let v : SseWriter = think_if u f.2 in
    let w : SseWriter = text_if v f.1 in
    let (quiet_text, quiet_thinking, same) = ensure_started-Sends s in
    let (text_more, thinking_more, x0, x1, x2, x3) = finalize_stream-Step t.acc in
    let sent_so_far : sent_text t.sent ≡ t.acc.text_buf =
      quiet_text ∙ append_nil (sent_text s.sent) ∙ told_text ∙ ap (λ a. a.text_buf) (sym same) in
    let thought_so_far : sent_thinking t.sent ≡ t.acc.thinking_buf =
      quiet_thinking
      ∙ append_nil (sent_thinking s.sent)
      ∙ told_thinking
      ∙ ap (λ a. a.thinking_buf) (sym same) in
    Sends-IsTold u (end_message w (resolve_stop_reason f.0)) f.1 f.2
      (
        text_more ∙ ap (λ z. z ++ f.1) (sym sent_so_far),
        thinking_more ∙ ap (λ z. z ++ f.2) (sym thought_so_far),
      )
      (then_quiet u w (end_message w (resolve_stop_reason f.0)) f.1 f.2
        (thinking_then_text u v w f.1 f.2 (think_if-Sends u f.2) (text_if-Sends v f.1))
        (end_message-Sends w (resolve_stop_reason f.0)))

pub finish_if-IsTold : (s : SseWriter) (c : Bool) → IsTold s → IsTold (finish_if s c).0
finish_if-IsTold s true told = finish-IsTold s told
finish_if-IsTold s false told = told
