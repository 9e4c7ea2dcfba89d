-- ===== src/Respconv.antt =====
-- internal/respconv: the conversion of Kiro's event stream into an Anthropic response.
pub mod Text
pub mod Accumulator
pub mod TokenBudget
pub mod ThinkingTags
pub mod Events
pub mod Writer
pub mod ChunkDelta
pub mod StopSequence
mod Tests
