-- ===== src/Plan.antt =====
-- crates/zerochain-core/src/plan.rs: the execution plan over a workflow graph.
mod Types
mod FromGraph
mod State
mod Update
pub mod Next
pub mod Progress
pub mod Marks
pub mod Run
pub mod Loops
pub mod Loaded
pub mod Finish
mod Tests
unfoldable pub use Types.*
unfoldable pub use FromGraph.*
unfoldable pub use State.*
unfoldable pub use Update.*
