-- ===== src/Columns.antt =====
-- core/src/columns: kernels over columns of term codes.
pub mod Groups
pub mod Starts
pub mod Placed
pub mod Grouped
pub mod Join
pub mod Slots
pub mod Entered
pub mod Numbered
pub mod Rows
pub mod Nested
pub mod Ordered
pub mod Merge
pub mod Equi
pub mod Tests
pub mod Distinct
pub mod FirstSeen
pub mod Gather
pub mod RunStarts
pub mod RunTests
pub mod Counted
pub mod Counts
