-- ===== src/Graph/Order.antt =====
-- The proofs about `topological_order` of crates/zerochain-core/src/graph.rs.
pub mod Spec
mod Walk
pub mod Sound
pub mod Fuel
pub mod Cycle
pub mod Ascending
mod Tests
