-- ===== src/View.antt =====
-- core/src/store/view: which base rows a view covers.
pub mod Selection
pub mod Ascending
pub mod Restrict
pub mod Narrow
pub mod Runs
pub mod Window
pub mod Split
pub mod Kept
pub mod Formed
pub mod Tests
pub mod Masks
pub mod MaskRows
pub mod MaskTests
