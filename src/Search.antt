-- ===== src/Search.antt =====
-- encoded-search/src/search.rs: the searches over a virtual index range.
pub mod Partition
pub mod Ascending
pub mod Agrees
pub mod Sinks
pub mod Cuts
mod Tests
