-- ===== src/Memory.antt =====
-- crates/zerochain-memory: the graph of contributions that the agents share.
pub mod Record
pub mod Index
pub mod Store
pub mod Tests
