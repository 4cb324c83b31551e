-- ===== src/Node.antt =====
-- encoded-search/src/node.rs: the resolved probe tree.
pub mod Tree
pub mod Values
pub mod Runs
pub mod RunRows
pub mod Formed
pub mod Laid
pub mod Kinds
pub mod Bounds
pub mod Pair
mod Tests
pub mod Packed
pub mod Parts
pub mod Reads
pub mod Walk
pub mod Patched
pub mod Copies
pub mod Readable
pub mod InRange
pub mod ReadBack
mod ReadTests
