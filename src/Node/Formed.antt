-- ===== src/Node/Formed.antt =====
-- encoded-search/src/node.rs: what the nodes' searches rely on, as the arrays' constructors
-- guarantee it.
use vortex_rdf.Prelude.{ℕ, ◌+◌, ◌*◌, ◌≤◌, ◌<◌, ◌≡◌, arith}
use vortex_rdf.Words
use vortex_rdf.Node.Tree.{
  Node, Chunks, primitive, constant, sequence, run_end, frame_of_reference, chunked_reference,
  bit_packed, slice, chunked, dict, delta, sparse, run_length, done, chunk, len, u64_mod, FastLanes,
}
use vortex_rdf.Node.Values.{value_at, div_ceil}
use vortex_rdf.Node.Runs.{IsRunEnds}

module _ (fl : FastLanes) where
  -- A sequence stays below 2 ^ 64, run ends rise and reach the window's end, a reference and
  -- its sums are `u64`s, words fit their width, and chunks follow one another, none empty.
  unfoldable mutual
    pub IsFormed : Node → Type 0
    IsFormed (primitive w) = Words.IsFitting w
    IsFormed (constant value n) = Unit
    IsFormed (sequence base multiplier n) =
        (0 < multiplier) × ((i : ℕ) → i < n → base + i * multiplier < u64_mod)
    IsFormed (run_end ends values offset n) = IsRunEnds (len ends) (value_at fl ends) offset n
    IsFormed (frame_of_reference reference child) =
        (reference < u64_mod)
        × ((i : ℕ) → i < len child → reference + value_at fl child i < u64_mod)
        × IsFormed child
    IsFormed (chunked_reference references offset child) = Unit
    IsFormed (bit_packed packed bit_width offset n patches) = Unit
    IsFormed (slice child start n) = Unit
    IsFormed (chunked chunks n) = IsLaid chunks 0 n
    IsFormed (dict codes values) = Unit
    IsFormed (delta bases deltas width offset n) = Unit
    IsFormed (sparse fill patches n) = Unit
    IsFormed (run_length values indices value_offsets base offset n) = Unit

    pub IsLaid : Chunks → ℕ → ℕ → Type 0
    IsLaid done from total = from ≡ total
    IsLaid (chunk start node cs) from total =
        (start ≡ from) × (0 < len node) × IsFormed node × IsLaid cs (from + len node) total

pub div_ceil_passes : (g m i : ℕ) → 0 < m → i < div_ceil g m → i * m < g
div_ceil_passes g m i p h = grind arith

pub div_ceil_fails : (g m i : ℕ) → 0 < m → div_ceil g m ≤ i → g ≤ i * m
div_ceil_fails g m i p h = grind arith
