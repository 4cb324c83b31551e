-- ===== src/Zones.antt =====
-- core/src/zone_stats: the zone maps of a table's code columns.
pub mod Counts
pub mod Places
pub mod Counted
pub mod States
pub mod ZoneMap
pub mod Builder
pub mod Bounds
pub mod Described
pub mod Decided
pub mod Gathered
pub mod Pushed
pub mod Slices
pub mod Cuts
pub mod Built
pub mod Checks
pub mod Bits
pub mod Rows
pub mod Walk
pub mod Classes
pub mod Recorded
pub mod Parts
pub mod Tests
