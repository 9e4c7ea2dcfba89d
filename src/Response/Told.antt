-- ===== src/Response/Told.antt =====
-- The text and the thinking that the client of a streaming response reads, against the accumulator.
use kirocc_prox.Base.{◌≡◌, refl, false, [], ◌⊎◌}
use kirocc_prox.Kiroproto.Event.{
  Event, assistant_response, reasoning_content, tool_use, metadata, metering, message_metadata,
  context_usage, invalid_state, exception, other_type,
}
use kirocc_prox.Respconv.Writer.Content.{sent_text, sent_thinking}
use kirocc_prox.Respconv.Writer.Owing.{IsTold}
use kirocc_prox.Response.{Attempt, Response, note_error}

-- The client reads nothing, as no message was begun or nothing visible was put out, or it reads all the
-- text and thinking of the accumulator.
abbrev pub ReadsAll : Response → Type 0
ReadsAll r =
    ((r.body ≡ []) × ((r.writer.started ≡ false) ⊎ (r.writer.visible_fired ≡ false)))
    ⊎ ((sent_text r.body ≡ r.writer.acc.text_buf)
        × (sent_thinking r.body ≡ r.writer.acc.thinking_buf))

abbrev WriterIsTold : Response → Type 0
WriterIsTold r = IsTold r.writer

note_error-writer : (a : Attempt) (e : Event) → (note_error a e).writer ≡ a.writer
note_error-writer a (invalid_state message reason) = refl
note_error-writer a (exception message reason) = refl
note_error-writer a (assistant_response content) = refl
note_error-writer a (reasoning_content t signature redacted) = refl
note_error-writer a (tool_use stop id name input) = refl
note_error-writer a (metadata i o r w) = refl
note_error-writer a (metering i o) = refl
note_error-writer a (message_metadata id) = refl
note_error-writer a context_usage = refl
note_error-writer a other_type = refl
