-- ===== src/Usage.antt =====
-- internal/usage: the records of upstream calls, kept in memory and in a persistent store.
pub mod Records
pub mod Memory
pub mod Ring
pub mod Recent
pub mod Rollup
pub mod Aggregator
mod Tests
