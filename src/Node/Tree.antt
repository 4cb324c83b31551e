-- ===== src/Node/Tree.antt =====
-- encoded-search/src/node.rs, bitpacked.rs and delta.rs: the nodes of the probe tree, and the
-- FastLanes kernels that the bit-packed and the delta nodes call.
use vortex_rdf.Prelude.{ℕ, zero, suc, List}
use vortex_rdf.Words.{Words}
use vortex_rdf.Words

-- Values per FastLanes chunk.
abbrev pub fl_chunk : ℕ
fl_chunk = 1024

abbrev pub u64_mod : ℕ
u64_mod = 0x1_0000_0000_0000_0000

-- The kernels of the fastlanes crates: the value at one position of packed words of so many bits,
-- and the inverse of the delta transform of a block, by the bytes of its words.
pub record FastLanes : Type 0 where
  pub unpack : Words → ℕ → ℕ → ℕ
  pub undelta : ℕ → List ℕ → List ℕ → List ℕ
  pub untranspose : ℕ → List ℕ → List ℕ

pub data DeltaWidth : Type 0 where
  u8 u16 u32 u64 : DeltaWidth

-- How many bases a block carries.
abbrev pub lanes : DeltaWidth → ℕ
lanes DeltaWidth.u8 = 128
lanes DeltaWidth.u16 = 64
lanes DeltaWidth.u32 = 32
lanes DeltaWidth.u64 = 16

abbrev pub delta_bytes : DeltaWidth → ℕ
delta_bytes DeltaWidth.u8 = 1
delta_bytes DeltaWidth.u16 = 2
delta_bytes DeltaWidth.u32 = 4
delta_bytes DeltaWidth.u64 = 8

-- `Patches` is the `Option` of the patches, and `Chunks` the vector of the chunks, each with its
-- first row. The caches of a chunk's last value and of a delta node's decoded blocks hold what the
-- functions of the same name compute, so they are no part of the state.
mutual
  pub data Node : Type 0 where
    primitive : Words → Node
    constant : (value len : ℕ) → Node
    sequence : (base multiplier len : ℕ) → Node
    run_end : (ends values : Node) (offset len : ℕ) → Node
    frame_of_reference : (reference : ℕ) (child : Node) → Node
    chunked_reference : (references : Node) (offset : ℕ) (child : Node) → Node
    bit_packed : (packed : Words) (bit_width offset len : ℕ) (patches : Patches) → Node
    slice : (child : Node) (start len : ℕ) → Node
    chunked : (chunks : Chunks) (len : ℕ) → Node
    dict : (codes values : Node) → Node
    delta : (bases deltas : Node) (width : DeltaWidth) (offset len : ℕ) → Node
    sparse : (fill : ℕ) (patches : PatchProbe) (len : ℕ) → Node
    run_length : (values indices value_offsets : Node) (base offset len : ℕ) → Node

  pub data PatchProbe : Type 0 where
    probe : (indices values : Node) (offset : ℕ) → PatchProbe

  pub data Patches : Type 0 where
    unpatched : Patches
    patched : PatchProbe → Patches

  pub data Chunks : Type 0 where
    done : Chunks
    chunk : (start : ℕ) (node : Node) → Chunks → Chunks

unfoldable mutual
  pub len : Node → ℕ
  len (primitive w) = Words.len w
  len (constant value n) = n
  len (sequence base multiplier n) = n
  len (run_end ends values offset n) = n
  len (frame_of_reference reference child) = len child
  len (chunked_reference references offset child) = len child
  len (bit_packed packed bit_width offset n patches) = n
  len (slice child start n) = n
  len (chunked chunks n) = n
  len (dict codes values) = len codes
  len (delta bases deltas width offset n) = n
  len (sparse fill patches n) = n
  len (run_length values indices value_offsets base offset n) = n

abbrev pub chunk_count : Chunks → ℕ
chunk_count done = 0
chunk_count (chunk start node cs) = suc (chunk_count cs)

-- The first row of chunk `c`, and its length.
abbrev pub chunk_start : Chunks → ℕ → ℕ
chunk_start done c = 0
chunk_start (chunk start node cs) zero = start
chunk_start (chunk start node cs) (suc c) = chunk_start cs c

unfoldable pub chunk_len : Chunks → ℕ → ℕ
unfolding len
chunk_len done c = 0
chunk_len (chunk start node cs) zero = len node
chunk_len (chunk start node cs) (suc c) = chunk_len cs c
