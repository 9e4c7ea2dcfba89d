-- ===== src/Reqconv.antt =====
-- internal/reqconv: the conversion of Anthropic requests, and the message types it works on.
pub mod Messages
pub mod ToolResults
pub mod Normalizer
pub mod Conversation
mod Tests
