-- ===== src/Scan.antt =====
-- core/src/store/scan: how a scan goes over its rows.
pub mod Pieces
pub mod Cover
pub mod Splits
pub mod Held
pub mod Tests
