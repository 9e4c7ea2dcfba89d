-- ===== src/Pool.antt =====
-- internal/pool: the credential pool that schedules upstream accounts.
pub mod Backoff
pub mod Credential
pub mod Store
pub mod Selector
pub mod Scheduler
pub mod Affinity
pub mod Conductor
pub mod Region
mod Tests
mod SessionTests
