-- ===== src/Kiroproto/Event.antt =====
-- internal/kiroproto/eventstream.go: the events that are handed on. Text is a list of code points.
use kirocc_prox.Base.{ℕ, Bool, List, String, str_eq, if◌then◌else◌, ℤ}

-- `Event`: its type with the fields that are read for it. An event of another type changes
-- nothing.
pub data Event : Type 0 where
  assistant_response : (content : List ℕ) → Event
  reasoning_content : (thinking_text : List ℕ) → (signature redacted_content : String) → Event
  tool_use : (tool_stop : Bool) → (tool_use_id tool_name : String) → (tool_input : List ℕ) → Event
  metadata : (input_tokens output_tokens cache_read cache_write : ℤ) → Event
  metering : (input_tokens output_tokens : ℤ) → Event
  message_metadata : (conversation_id : String) → Event
  context_usage : Event
  invalid_state : (error_message invalid_state_reason : String) → Event
  exception : (error_message invalid_state_reason : String) → Event
  other_type : Event

-- `Event.ErrorText`
unfoldable pub error_text : String → String → String
error_text message reason = if str_eq message "" then reason else message
