-- ===== src/Dict.antt =====
-- core/src/store/layouts/dictionary: terms as codes, and chunks of codes decoded into rows.
pub mod Bytes
pub mod Prefix
pub mod Searches
pub mod Chunks
pub mod Terms
pub mod Lookup
pub mod Lines
pub mod Written
pub mod Printed
pub mod Printout
pub mod Resident
pub mod Encode
pub mod Ranks
pub mod Roundtrip
pub mod Tests
pub mod Memo
pub mod Held
pub mod Rows
pub mod Tracks
pub mod Plain
