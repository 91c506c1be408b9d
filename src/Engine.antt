-- ===== src/Engine.antt =====
-- crates/zerochain-engine: what runs the stages of workflows.
pub mod Snapshots
pub mod Marks
pub mod Outcome
mod Tests
