-- ===== src/Kiroproto.antt =====
-- internal/kiroproto: the event stream of the Kiro service.
pub mod Event
pub mod Frame
pub mod Headers
pub mod ToolUse
pub mod Stream
mod Tests
mod StreamTests
