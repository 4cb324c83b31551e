-- ===== src/Lib.antt =====
-- vortex-rdf: an RDF quad store over columns of term codes that stay compressed. This library
-- models the code that searches and joins those columns and that keeps account of which rows a
-- view covers, and proves what it answers.
--
-- The parts, and the files that model them (paths from the repository's root):
-- encoded-search/src/search.rs: Search.Partition (`partition`), Search.Ascending
--   (`search_ascending_capped`, its loops one function each), Search.Sinks (`EqSink`, `Count`,
--   `Offsets`). Search.Agrees compares the searches, and Search.Cuts has what a search by blocks,
--   runs or chunks, relies on.
-- encoded-search/src/words.rs: Words, a buffer of words by their width.
-- encoded-search/src/node.rs, bitpacked.rs, delta.rs: Node.Tree (the nodes of the probe tree),
--   Node.Values (the reads and the searches of each kind), Node.Pair (the pair of bounds). A node
--   calls the searches of the first part and the words of the second. Node.Formed says what an
--   array's constructors guarantee; Node.Runs, Node.RunRows, Node.Laid, Kinds and Bounds lead to the
--   bounds. Node.Reads has the bulk reads (`read_into`) and Node.Packed those of bit-packed words;
--   Node.Walk, Patched, Parts, Copies, Readable and ReadBack compare them with the point reads, and
--   Node.InRange has the arrays' construction invariants and the places that a point read indexes.
-- core/src/columns/mod.rs: Columns.Distinct (`distinct_first_seen`, `value_counts`), with FirstSeen,
--   Counted and Counts about them, Columns.RunStarts (`run_starts`), and `take` in Columns.Gather,
--   beside the gather of join.rs.
-- core/src/columns/join.rs: Columns.Groups (`Groups`, its counting passes over arrays that are
--   lists written in place), Columns.Join (the dense and the hashed index, the merge, the join).
--   Columns.Starts, Placed, Grouped, Slots, Entered, Numbered, Rows, Nested, Ordered, Merge and Equi
--   lead from the passes to the join.
-- core/src/store/view/selection.rs: View.Selection (`RowSelection` and its narrowings),
--   View.Window, Split and Masks. View.Ascending, Restrict, Narrow, Runs, Formed, Kept and
--   MaskRows are about them.
-- core/src/store/scan/pieces.rs: Scan.Pieces (`growing_pieces`), Scan.Cover. And read_plan.rs there:
--   Scan.Splits (`ids_by_split`, `Footprint`), Scan.Held.
-- core/src/store/layouts/dictionary: Dict.Bytes and Prefix (byte strings and their prefixes),
--   Dict.Searches, Chunks and Terms (term_dict.rs and storage/mod.rs: the searches, the chunks of
--   terms, `TermDictionary`) with Lookup; Dict.Memo, Rows and Lines (codec/mod.rs: `TermMemo`, the row
--   decoders, the N-Quads lines) with Held, Tracks, Plain, Written, Printed and Printout; Dict.Resident
--   (`decode_resident`); Dict.Encode (ingest.rs, `encode_quads`) with Ranks and Roundtrip.
-- core/src/zone_stats: Zones.Counts (value_counts.rs: `Counts` and its state), Zones.ZoneMap
--   (zone_map.rs: `ColumnZones`), Zones.Builder (quad_zones.rs: `ZoneBuilder`, and the pass over a
--   column in store/resident.rs), Zones.Checks (zone_set.rs: `ZoneSet`). Places, Counted, States and
--   Recorded are about the counts, Bounds, Described, Decided and Rows about what a map answers,
--   Gathered, Pushed, Slices, Cuts and Built about the builder, Bits, Walk, Classes and Parts about
--   the sets of checks.
-- Prelude has the names that all of them share; a module Tests holds runs on concrete data.
--
-- Numbers are the native naturals. A sum that the code saturates or wraps is written with its
-- bound; `usize` and `u64` both have 64 bits. A loop is a recursion on fuel, which the function
-- itself gives from the window, the lists or the ranges that each round shrinks, and the theorems
-- show that it is enough: they are equations with searches and lists that no fuel bounds. A refused
-- join is a value (`refused`), with its pair count.
--
-- The kernels of the fastlanes crates are parameters (Node.Tree.FastLanes, and Node.Packed.Bulk for
-- the batch unpacks, with the law that they read what the single unpack does), and so are the masks
-- of the vortex crates (View.Masks.Masks, by what each operation answers at a bit, for the
-- slices and ids that it accepts), or for the tombstones alone the test that a mask's `value` is. A buffer of ids and a hash map are lists.
-- Caches (a chunk's last value, a delta block) hold what the functions compute and are no part of
-- the state. Input and output, the arrays of the vortex crates, the asynchronous reads, the
-- bindings and the command line are not modelled; nor yet the equality searches, the indexes, the
-- file-backed dictionary, the queries and the writes, nor the reads of a file's zone tables.
pub mod Dict
pub mod Prelude
pub mod Search
pub mod Words
pub mod Node
pub mod Columns
pub mod View
pub mod Scan
pub mod Zones
