-- ===== src/Scheduler.antt =====
-- crates/beacon-api/src/scheduler.rs: the background workers.
pub mod Evaluate
pub mod Observe
pub mod Release
pub mod Workers
pub mod Retention
