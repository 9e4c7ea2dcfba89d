-- ===== src/Respconv/Writer.antt =====
-- internal/respconv/streaming.go: the server-sent events of a response. `sent` is what the
-- writer hands to its `http.ResponseWriter`, which may hold it back or fail. The message's identifier and
-- model, and the usage in the events, are left out.
pub mod Protocol
pub mod Blocks
pub mod Messages
pub mod Content
pub mod Owing
pub mod Told
use kirocc_prox.Base.{
  ℕ, suc, Bool, true, false, not, List, [], ◌∷◌, ◌++◌, Option, none, some, String, str_eq,
  if◌then◌else◌, ℤ, pos, negsuc, ◌||◌,
}
use kirocc_prox.Kiroproto.Event.{
  Event, assistant_response, reasoning_content, tool_use, metadata, metering, message_metadata,
  context_usage, invalid_state, exception, other_type,
}
use kirocc_prox.Respconv.Text.{Text}
use kirocc_prox.Respconv.Accumulator.{ResponseAccumulator}
use kirocc_prox.Respconv.StopSequence.{resolve_stop_reason}
use kirocc_prox.Respconv.Events.{EventDelta, Checks, process_event, finalize_stream}

-- The content block of a `content_block_start`.
pub data Block : Type 0 where
  thinking_block : (signature : String) → Block
  text_block : Block
  tool_use_block : (id name : String) → Block
  redacted_thinking_block : (data_ : String) → Block

pub data BlockType : Type 0 where
  thinking : BlockType
  text : BlockType
  tool_use_type : BlockType
  redacted_thinking : BlockType

pub data Delta : Type 0 where
  text_delta : Text → Delta
  thinking_delta : Text → Delta
  signature_delta : String → Delta
  input_json_delta : Text → Delta

pub data Sse : Type 0 where
  message_start : Sse
  content_block_start : ℤ → Block → Sse
  content_block_delta : ℤ → Delta → Sse
  content_block_stop : ℤ → Sse
  message_delta : (stop_reason : String) → (stop_sequence : Option Text) → Sse
  message_stop : Sse
  error : (err_type message : String) → Sse

-- `visible` counts the calls of OnVisibleOutput.
pub record SseWriter : Type 0 where
  pub block_index : ℤ
  pub active_type : Option BlockType
  pub started : Bool
  pub acc : ResponseAccumulator
  pub signature_sent : Bool
  pub visible_fired : Bool
  pub visible : ℕ
  pub sent : List Sse

unfoldable pub new_sse_writer : ResponseAccumulator → SseWriter
new_sse_writer acc = record {
  block_index = negsuc 0;
  active_type = none;
  started = false;
  acc = acc;
  signature_sent = false;
  visible_fired = false;
  visible = 0;
  sent = [];
}

abbrev pub write_sse : SseWriter → Sse → SseWriter
write_sse s x = record s { sent = s.sent ++ x ∷ [] }

abbrev pub next_index : ℤ → ℤ
next_index (pos n) = pos (suc n)
next_index (negsuc n) = pos n

unfoldable pub ensure_started : SseWriter → SseWriter
ensure_started s = if s.started then s else write_sse (record s { started = true }) message_start

abbrev pub close_of : SseWriter → Option BlockType → SseWriter
close_of s none = s
close_of s (some t) = write_sse (record s { active_type = none }) (content_block_stop s.block_index)

unfoldable pub close_active_block : SseWriter → SseWriter
close_active_block s = close_of s s.active_type

-- `blockIndex++`, the active type, and the start of a block.
abbrev pub start_block : SseWriter → BlockType → Block → SseWriter
start_block s t block =
    write_sse (record s { block_index = next_index s.block_index; active_type = some t })
      (content_block_start (next_index s.block_index) block)

abbrev pub is_active : BlockType → Option BlockType → Bool
is_active thinking (some thinking) = true
is_active text (some text) = true
is_active _ _ = false

abbrev pub block_of : BlockType → String → Block
block_of text signature = text_block
block_of _ signature = thinking_block signature

abbrev pub sends_signature : BlockType → String → Bool → Bool
sends_signature text signature sent = sent
sends_signature _ signature sent = sent || not (str_eq signature "")

-- For thinking and text blocks. An empty signature is no field of the block.
unfoldable pub switch_block : SseWriter → BlockType → SseWriter
switch_block s t =
    let c = close_active_block s in
    if is_active t s.active_type
    then s
    else start_block
        (record c { signature_sent = sends_signature t c.acc.signature c.signature_sent }) t
        (block_of t c.acc.signature)

abbrev pub write_delta : SseWriter → Delta → SseWriter
write_delta s d = write_sse s (content_block_delta s.block_index d)

unfoldable pub write_thinking_delta : SseWriter → Text → SseWriter
write_thinking_delta s t = write_delta (switch_block (ensure_started s) thinking) (thinking_delta t)

abbrev pub signature_to : SseWriter → Option BlockType → String → SseWriter
signature_to s (some thinking) signature = record (write_delta s (signature_delta signature)) {
  signature_sent = true;
}
signature_to s _ signature = s

unfoldable pub write_signature_delta : SseWriter → String → SseWriter
write_signature_delta s signature =
    let t = ensure_started s in
    if str_eq signature "" || s.signature_sent then s else signature_to t t.active_type signature

unfoldable pub fire_visible_output : SseWriter → SseWriter
fire_visible_output s =
    if s.visible_fired then s else record s { visible_fired = true; visible = suc s.visible }

unfoldable pub write_text_delta : SseWriter → Text → SseWriter
write_text_delta s t = write_delta (switch_block (fire_visible_output s) text) (text_delta t)

abbrev pub think_if : SseWriter → Text → SseWriter
think_if s [] = s
think_if s (c ∷ t) = write_thinking_delta s (c ∷ t)

abbrev pub text_if : SseWriter → Text → SseWriter
text_if s [] = s
text_if s (c ∷ t) = write_text_delta s (c ∷ t)

abbrev pub start_text_if : SseWriter → Text → SseWriter
start_text_if s [] = s
start_text_if s (c ∷ t) = write_text_delta (ensure_started s) (c ∷ t)

abbrev pub end_message : SseWriter → String × Option Text → SseWriter
end_message s (reason, sequence) =
    write_sse (write_sse (close_active_block s) (message_delta reason sequence)) message_stop

unfoldable pub finish : SseWriter → SseWriter
finish s =
    let t = ensure_started s in
    let f = finalize_stream t.acc in
    let u = record t { acc = record f.0 { invalid_tool_calls = [] } } in
    end_message (text_if (think_if u f.2) f.1) (resolve_stop_reason f.0)

unfoldable pub write_error : SseWriter → String → String → SseWriter
write_error s err_type message = write_sse (close_active_block s) (error err_type message)

-- Finish on a stop signal, with what `HandleEvent` then returns.
abbrev pub finish_if : SseWriter → Bool → SseWriter × Bool
finish_if s true = (finish s, true)
finish_if s false = (s, false)

unfoldable pub handle_assistant : SseWriter → EventDelta → SseWriter × Bool
handle_assistant s d =
    finish_if (start_text_if (think_if s d.thinking_delta) d.text_delta) d.stop_signal

abbrev pub reason_text : SseWriter → EventDelta → Text → SseWriter × Bool
reason_text s d [] = (write_signature_delta s d.signature_delta, false)
reason_text s d (c ∷ t) =
    finish_if (write_signature_delta (write_thinking_delta s (c ∷ t)) d.signature_delta)
      d.stop_signal

unfoldable pub handle_reasoning : SseWriter → EventDelta → SseWriter × Bool
handle_reasoning s d =
    if not (str_eq d.redacted_content "")
    then (
      close_active_block (
          start_block (close_active_block (ensure_started s)) redacted_thinking
            (redacted_thinking_block d.redacted_content)),
      false,
    )
    else reason_text s d d.thinking_delta

unfoldable pub write_tool : SseWriter → EventDelta → SseWriter
write_tool s d =
    write_delta
      (start_block (close_active_block (fire_visible_output (ensure_started s))) tool_use_type
        (tool_use_block d.tool_use_id d.tool_name))
      (input_json_delta d.tool_input)

abbrev pub tool_thought : SseWriter → EventDelta → Text → SseWriter × Bool
tool_thought s d [] = if d.tool_stop then finish_if (write_tool s d) d.stop_signal else (s, false)
tool_thought s d (c ∷ t) = finish_if (write_thinking_delta s (c ∷ t)) d.stop_signal

abbrev pub handle_error : SseWriter → String → EventDelta → SseWriter × Bool
handle_error s err_type d =
    if s.started then (write_error s err_type d.error_message, true) else (s, true)

-- By the type of the event.
abbrev pub handle_delta : SseWriter → Event → EventDelta → SseWriter × Bool
handle_delta s (assistant_response content) d = handle_assistant s d
handle_delta s (reasoning_content t signature redacted) d = handle_reasoning s d
handle_delta s (tool_use stop id name input) d = tool_thought s d d.thinking_delta
handle_delta s (invalid_state message reason) d = handle_error s "invalid_state" d
handle_delta s (exception message reason) d = handle_error s "api_error" d
handle_delta s _ d = (s, false)

module _ (checks : Checks) where
  unfoldable pub handle_event : SseWriter → Event → SseWriter × Bool
  handle_event s e =
      let r = process_event checks s.acc e in handle_delta (record s { acc = r.0 }) e r.1
