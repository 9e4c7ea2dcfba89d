-- ===== src/Pool/Scheduler.antt =====
-- internal/pool/scheduler_default.go: the scheduler's map of credentials, and the outcomes that
-- handlers report to it. A method that takes a lock runs as one step on the state, which holds the
-- heap of credentials too; `now` is `time.Now()` of the call. What a method tells Redis and the
-- credential store is recorded in `calls`, in order.
pub mod State
pub mod Register
pub mod Listing
pub mod Marks
pub mod Admin
pub mod Ready
pub mod Invariant
pub mod Membership
pub mod Reload
pub mod Handoff
pub mod Takeover
pub mod Histories
pub mod Outcomes
