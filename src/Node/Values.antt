-- ===== src/Node/Values.antt =====
-- encoded-search/src/node.rs: point reads and bounds searches of the probe tree, each node by its
-- children's. A place past the end of a slice or of the chunks, where the code would panic, reads 0;
-- Node.InRange says when no read meets one.
use vortex_rdf.Prelude.{
  ℕ, zero, suc, ◌+◌, ◌-◌, ◌*◌, ◌/◌, ◌%◌, ◌^◌, ◌&&◌, List, map, Option, none, some, if◌then◌else◌,
  ltb, leb, ◌==◌, min, get_or, range_from,
}
use vortex_rdf.Search.Partition.{partition}
use vortex_rdf.Search.Ascending.{search_ascending}
use vortex_rdf.Words.{Words}
use vortex_rdf.Words
use vortex_rdf.Node.Tree.{
  Node, PatchProbe, Patches, Chunks, primitive, constant, sequence, run_end, frame_of_reference,
  chunked_reference, bit_packed, slice, chunked, dict, delta, sparse, run_length, probe, unpatched,
  patched, done, chunk, len, chunk_count, chunk_start, fl_chunk, u64_mod, FastLanes, DeltaWidth,
  lanes, delta_bytes,
}

-- `u64::saturating_add`.
abbrev pub saturating_add : ℕ → ℕ → ℕ
saturating_add a b = min (a + b) (u64_mod - 1)

abbrev pub or_else : Option ℕ → ℕ → ℕ
or_else (some v) d = v
or_else none d = d

-- The smallest number of `step`s that reach `gap`.
abbrev pub div_ceil : ℕ → ℕ → ℕ
div_ceil gap step = (gap + step - 1) / step

-- What each encoding reads, over the point reads of its children.
unfoldable pub run_of : ℕ → (ℕ → ℕ) → ℕ → ℕ
run_of nruns end_at pos = partition nruns (λ r. leb (end_at r) pos)

unfoldable pub chunked_for_value_at : (references child : ℕ → ℕ) → ℕ → ℕ → ℕ
chunked_for_value_at references child offset i =
    (child i + references ((offset + i) / fl_chunk)) % u64_mod

unfoldable pub run_length_value : (values indices value_offsets : ℕ → ℕ) → ℕ → ℕ → ℕ → ℕ
run_length_value values indices value_offsets base offset i =
    values (value_offsets ((offset + i) / fl_chunk) - base + indices (offset + i))

-- `T::try_from(v).unwrap_or_default()`.
abbrev pub narrow : DeltaWidth → ℕ → ℕ
narrow width v = if ltb v (2 ^ (8 * delta_bytes width)) then v else 0

module _ (fl : FastLanes) where
  unfoldable pub decode_block : (bases deltas : ℕ → ℕ) → DeltaWidth → ℕ → List ℕ
  decode_block bases deltas width b =
      let deltas_of = map (λ j. narrow width (deltas (b * fl_chunk + j))) (range_from 0 fl_chunk) in
      let bases_of =
        map (λ l. narrow width (bases (b * lanes width + l))) (range_from 0 (lanes width)) in
      fl.untranspose (delta_bytes width) (fl.undelta (delta_bytes width) deltas_of bases_of)

  unfoldable pub delta_value : (bases deltas : ℕ → ℕ) → DeltaWidth → ℕ → ℕ → ℕ
  unfolding decode_block
  delta_value bases deltas width offset i =
      get_or (decode_block bases deltas width ((offset + i) / fl_chunk)) ((offset + i) % fl_chunk) 0

  unfoldable pub packed_value : Words → ℕ → ℕ → ℕ → ℕ
  packed_value packed bit_width offset i =
      if bit_width == 0 then 0 else fl.unpack packed bit_width (i + offset)

-- The runs that overlap the window: the first of them, and their number.
unfoldable pub window_runs : ℕ → (ℕ → ℕ) → ℕ → ℕ → ℕ × ℕ
unfolding run_of
window_runs nruns end_at offset n =
    if n == 0
    then (0, 0)
    else if offset == 0 && (ltb 0 nruns && end_at (nruns - 1) == n)
    then (0, nruns)
    else (
      run_of nruns end_at offset,
      min (run_of nruns end_at (offset + n - 1) + 1) nruns - run_of nruns end_at offset,
    )

-- The first row of a run in the window's own rows.
unfoldable pub run_start : (ℕ → ℕ) → ℕ → ℕ → ℕ → ℕ
run_start end_at run offset n = if run == 0 then 0 else min (end_at (run - 1) - offset) n

unfoldable pub runend_lower_bound : ℕ → (end_at value_at : ℕ → ℕ) → ℕ → ℕ → ℕ → ℕ
unfolding window_runs run_start
runend_lower_bound nruns end_at value_at offset n needle =
    let (first, span) = window_runs nruns end_at offset n in
    let k = search_ascending span (λ k. value_at (first + k)) needle in
    run_start end_at (first + k) offset n

module _ (fl : FastLanes) where
  unfoldable mutual
    unfolding len

    pub value_at : Node → ℕ → ℕ
    value_at (primitive w) i = Words.get w i
    value_at (constant value n) i = value
    value_at (sequence base multiplier n) i = (base + i * multiplier) % u64_mod
    value_at (run_end ends values offset n) i =
        value_at values (run_of (len ends) (value_at ends) (i + offset))
    value_at (frame_of_reference reference child) i = saturating_add reference (value_at child i)
    value_at (chunked_reference references offset child) i =
        chunked_for_value_at (value_at references) (value_at child) offset i
    value_at (bit_packed packed bit_width offset n patches) i =
        or_else (patch_at patches i) (packed_value fl packed bit_width offset i)
    value_at (slice child start n) i = value_at child (start + i)
    value_at (chunked chunks n) i =
        let c = partition (chunk_count chunks) (λ c. leb (chunk_start chunks c) i) - 1 in
        chunk_value chunks c (i - chunk_start chunks c)
    value_at (dict codes values) i = value_at values (value_at codes i)
    value_at (delta bases deltas width offset n) i =
        delta_value fl (value_at bases) (value_at deltas) width offset i
    value_at (sparse fill patches n) i = or_else (lookup patches i) fill
    value_at (run_length values indices value_offsets base offset n) i =
        run_length_value (value_at values) (value_at indices) (value_at value_offsets) base offset i

    -- `PatchProbe::lookup`.
    pub lookup : PatchProbe → ℕ → Option ℕ
    lookup (probe indices values offset) i =
        let key = i + offset in
        let at = lower_bound indices key in
        if ltb at (len indices) && value_at indices at == key
        then some (value_at values at)
        else none

    pub patch_at : Patches → ℕ → Option ℕ
    patch_at unpatched i = none
    patch_at (patched p) i = lookup p i

    -- The value at `i` of chunk `c`.
    pub chunk_value : Chunks → ℕ → ℕ → ℕ
    chunk_value done c i = 0
    chunk_value (chunk start node cs) zero i = value_at node i
    chunk_value (chunk start node cs) (suc c) i = chunk_value cs c i

    -- `Chunk::last` of chunk `c`.
    pub chunk_last : Chunks → ℕ → ℕ
    chunk_last done c = 0
    chunk_last (chunk start node cs) zero = value_at node (len node - 1)
    chunk_last (chunk start node cs) (suc c) = chunk_last cs c

    pub chunk_lower_bound : Chunks → ℕ → ℕ → ℕ
    chunk_lower_bound done c needle = 0
    chunk_lower_bound (chunk start node cs) zero needle = lower_bound node needle
    chunk_lower_bound (chunk start node cs) (suc c) needle = chunk_lower_bound cs c needle

    pub lower_bound : Node → ℕ → ℕ
    lower_bound (primitive w) needle = Words.lower_bound w needle
    lower_bound (constant value n) needle = if ltb value needle then n else 0
    lower_bound (sequence base multiplier n) needle =
        if leb needle base then 0 else min (div_ceil (needle - base) multiplier) n
    lower_bound (run_end ends values offset n) needle =
        runend_lower_bound (len ends) (value_at ends) (value_at values) offset n needle
    lower_bound (frame_of_reference reference child) needle =
        let below = lower_bound child (needle - reference) in
        if leb needle reference then 0 else below
    lower_bound (chunked_reference references offset child) needle =
        partition (len child)
          (λ i. ltb (chunked_for_value_at (value_at references) (value_at child) offset i) needle)
    lower_bound (bit_packed packed bit_width offset n patches) needle =
        search_ascending n
          (λ i. or_else (patch_at patches i) (packed_value fl packed bit_width offset i)) needle
    lower_bound (slice child start n) needle =
        partition n (λ i. ltb (value_at child (start + i)) needle)
    lower_bound (chunked chunks n) needle =
        let c = partition (chunk_count chunks) (λ c. ltb (chunk_last chunks c) needle) in
        if c == chunk_count chunks
        then n
        else chunk_start chunks c + chunk_lower_bound chunks c needle
    lower_bound (dict codes values) needle =
        partition (len codes) (λ i. ltb (value_at values (value_at codes i)) needle)
    lower_bound (delta bases deltas width offset n) needle =
        partition n
          (λ i. ltb (delta_value fl (value_at bases) (value_at deltas) width offset i) needle)
    lower_bound (sparse fill patches n) needle =
        partition n (λ i. ltb (or_else (lookup patches i) fill) needle)
    lower_bound (run_length values indices value_offsets base offset n) needle = partition n (λ i.
        ltb
          (run_length_value (value_at values) (value_at indices) (value_at value_offsets) base
            offset i)
          needle)

  -- `needle.checked_add(1)` fails at the largest `u64`.
  unfoldable pub upper_bound : Node → ℕ → ℕ
  upper_bound node needle =
      if ltb (needle + 1) u64_mod then lower_bound node (needle + 1) else len node
