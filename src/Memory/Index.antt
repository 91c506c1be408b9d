-- ===== src/Memory/Index.antt =====
-- crates/zerochain-memory/src/graph_index.rs: the index over the contribution records. The map of
-- verdicts and that of metric groups are in the order in which their keys came; their order does
-- not show, since what is made from them is sorted by keys that differ.
mod Data
mod Query
mod View
pub mod Invariant
pub mod Leaves
pub mod Latest
pub mod Ordered
pub mod Verdicts
pub mod Effective
unfoldable pub use Data.*
unfoldable pub use Query.*
unfoldable pub use View.*
