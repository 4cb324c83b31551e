-- ===== src/Node/Reads.antt =====
-- encoded-search/src/node.rs, `read_into`, `overwrite`, `runs_in` and `chunk_windows`: the bulk reads
-- of the probe tree.
-- A read of `n` values writes each of its places, so that it is the list of them; `none` is the failed
-- assertion of the walk over the runs. A place past the end of an array reads 0 here: Node.InRange
-- says which reads stay inside.
use vortex_rdf.Prelude.{
  ℕ, zero, suc, ◌+◌, ◌-◌, ◌/◌, ◌%◌, Option, none, some, List, [], ◌∷◌, ◌++◌, map, if◌then◌else◌,
  ltb, leb, ◌==◌, min, max, length, take, drop, replicate, range_from,
}
use vortex_rdf.Prelude.Arrays.{set}
use vortex_rdf.Search.Partition.{partition}
use vortex_rdf.Words.{Words}
use vortex_rdf.Words
use vortex_rdf.Node.Tree.{
  Node, PatchProbe, Patches, Chunks, primitive, constant, sequence, run_end, frame_of_reference,
  chunked_reference, bit_packed, slice, chunked, dict, delta, sparse, run_length, done, chunk,
  probe, patched, unpatched, len, chunk_count, chunk_start, fl_chunk, u64_mod, FastLanes,
}
use vortex_rdf.Node.Values.{value_at, lower_bound, saturating_add, decode_block}
use vortex_rdf.Node.Packed.{Bulk, ◌>>=◌, read_parts}

-- A run's rows in the window, `from..to`, and its value.
pub record RunWindow : Type 0 where
  pub from : ℕ
  pub to : ℕ
  pub value : ℕ

-- The walk from run `run` at position `at`, the window being `first..last`. A step passes a run, so
-- the runs are steps enough; behind the last run the assertion fails.
unfoldable pub walk_runs :
    ℕ → ℕ → (end_at value_of : ℕ → ℕ) → ℕ → ℕ → ℕ → ℕ → Option (List RunWindow)
walk_runs zero nruns end_at value_of run at first last = if ltb at last then none else some []
walk_runs (suc fuel) nruns end_at value_of run at first last =
    let end = min (max (end_at run) at) last in
    let rest = walk_runs fuel nruns end_at value_of (run + 1) end first last in
    let window : RunWindow = record { from = at - first; to = end - first; value = value_of run } in
    let walked = rest >>= λ windows. some (window ∷ windows) in
    if ltb at last then if ltb run nruns then walked else none else some []

unfoldable pub runs_in : ℕ → (end_at value_of : ℕ → ℕ) → ℕ → ℕ → ℕ → Option (List RunWindow)
unfolding walk_runs
runs_in nruns end_at value_of offset start n =
    let first = start + offset in
    let run = partition nruns (λ r. leb (end_at r) first) in
    walk_runs (nruns - run) nruns end_at value_of run first first (first + n)

-- The windows follow one another, so that filling each leaves their values one after the other.
unfoldable pub fill_runs : List RunWindow → List ℕ
fill_runs [] = []
fill_runs (w ∷ windows) = replicate (w.to - w.from) w.value ++ fill_runs windows

-- `for (k, o) in out.iter_mut().enumerate()`.
unfoldable pub map_indexed : (ℕ → ℕ → ℕ) → ℕ → List ℕ → List ℕ
map_indexed f k [] = []
map_indexed f k (o ∷ out) = f k o ∷ map_indexed f (suc k) out

-- The loop of `overwrite` from patch `at`, which passes a patch in each round.
unfoldable pub overwrite_from : ℕ → ℕ → (key_at value_of : ℕ → ℕ) → ℕ → ℕ → ℕ → List ℕ → List ℕ
overwrite_from zero n key_at value_of at first end out = out
overwrite_from (suc fuel) n key_at value_of at first end out =
    let rest =
      overwrite_from fuel n key_at value_of (at + 1) first end
        (set out (key_at at - first) (value_of at)) in
    if ltb at n then if leb end (key_at at) then out else rest else out

-- The copies of a delta node from its decoded blocks, `n` values to come; each takes one at least.
unfoldable pub copy_blocks : ℕ → (ℕ → List ℕ) → ℕ → ℕ → List ℕ
copy_blocks zero block physical n = []
copy_blocks (suc fuel) block physical n =
    let at = physical % fl_chunk in
    let count = min (fl_chunk - at) n in
    let rest = copy_blocks fuel block (physical + count) (n - count) in
    if ltb 0 n then take count (drop at (block (physical / fl_chunk))) ++ rest else []

-- `if out.is_empty() { return }`.
abbrev pub unless_empty : ℕ → Option (List ℕ) → Option (List ℕ)
unless_empty zero out = some []
unless_empty (suc n) out = out

module _ (fl : FastLanes) (bulk : Bulk fl) where
  unfoldable pub overwrite : PatchProbe → ℕ → List ℕ → List ℕ
  unfolding overwrite_from value_at
  overwrite (probe indices values offset) start out =
      let first = start + offset in
      let at = lower_bound fl indices first in
      overwrite_from (len indices) (len indices) (value_at fl indices) (value_at fl values) at first
        (first + length out) out

  unfoldable pub overwrite_all : Patches → ℕ → List ℕ → List ℕ
  unfolding overwrite
  overwrite_all unpatched start out = out
  overwrite_all (patched p) start out = overwrite p start out

  -- `PackedNode::read_into`.
  unfoldable pub read_packed : Words → ℕ → ℕ → Patches → ℕ → ℕ → Option (List ℕ)
  unfolding read_parts overwrite_all
  read_packed packed bit_width offset patches start n = do
    out ←
        if bit_width == 0
        then some (replicate n 0)
        else read_parts fl bulk packed bit_width (offset + start) n
    some (overwrite_all patches start out)

  unfoldable mutual
    unfolding len value_at runs_in fill_runs map_indexed copy_blocks decode_block overwrite
        read_packed

    pub read_into : Node → ℕ → ℕ → Option (List ℕ)
    read_into (primitive w) start n =
        unless_empty n (some (Words.read_into w start (replicate n 0)))
    read_into (constant value m) start n = unless_empty n (some (replicate n value))
    read_into (sequence base multiplier m) start n =
        unless_empty n
          (some (map (λ k. value_at fl (sequence base multiplier m) (start + k)) (range_from 0 n)))
    read_into (run_end ends values offset m) start n = unless_empty n (
        runs_in (len ends) (value_at fl ends) (value_at fl values) offset start n >>= λ windows.
        some (fill_runs windows))
    read_into (frame_of_reference reference child) start n =
        unless_empty n
          (read_into child start n >>= λ out. some (map (λ o. saturating_add reference o) out))
    read_into (chunked_reference references offset child) start n = unless_empty n (
        read_into child start n >>= λ out. some (
          map_indexed
            (λ k o. (o + value_at fl references ((offset + start + k) / fl_chunk)) % u64_mod) 0
            out))
    read_into (bit_packed packed bit_width offset m patches) start n =
        unless_empty n (read_packed packed bit_width offset patches start n)
    read_into (slice child at m) start n = unless_empty n (read_into child (at + start) n)
    read_into (chunked chunks m) start n = unless_empty n (
        read_chunks chunks
          (partition (chunk_count chunks) (λ c. leb (chunk_start chunks c) start) - 1) start n 0)
    read_into (dict codes values) start n =
        unless_empty n
          (read_into codes start n >>= λ out. some (map (λ o. value_at fl values o) out))
    read_into (delta bases deltas width offset m) start n = unless_empty n (
        some (
          copy_blocks n (decode_block fl (value_at fl bases) (value_at fl deltas) width)
            (offset + start) n))
    read_into (sparse fill patches m) start n =
        unless_empty n (some (overwrite patches start (replicate n fill)))
    read_into (run_length values indices value_offsets base offset m) start n = unless_empty n (
        some (
          map (λ k. value_at fl (run_length values indices value_offsets base offset m) (start + k))
            (range_from 0 n)))

    -- `chunk_windows`: past the chunks before the window, each chunk's part of it, `before` values
    -- already read.
    pub read_chunks : Chunks → ℕ → ℕ → ℕ → ℕ → Option (List ℕ)
    read_chunks done skip start n before = some []
    read_chunks (chunk at node cs) (suc skip) start n before = read_chunks cs skip start n before
    read_chunks (chunk at node cs) zero start n before =
        let from = start + before - at in
        let count = min (len node - from) (n - before) in
        let out = read_into node from count >>= λ xs.
        read_chunks cs 0 start n (before + count) >>= λ ys. some (xs ++ ys) in
        if ltb before n then out else some []
