-- ===== src/Node/InRange.antt =====
-- encoded-search/src/node.rs, bitpacked.rs and delta.rs: the construction invariants of the arrays,
-- and that the point reads of a node index its children inside them.
use vortex_rdf.Prelude.{
  ℕ, zero, suc, ◌+◌, ◌-◌, ◌*◌, ◌/◌, ◌≤◌, ◌<◌, arith, tests, inl, inr, leb, leb→le, ltb, ltb→lt,
  Bool-cases,
}
use vortex_rdf.Search.Partition.{partition, IsSplit}
use vortex_rdf.Search.Cuts.{locate}
use vortex_rdf.Words
use vortex_rdf.Node.Tree.{
  Node, PatchProbe, Patches, Chunks, primitive, constant, sequence, run_end, frame_of_reference,
  chunked_reference, bit_packed, slice, chunked, dict, delta, sparse, run_length, done, chunk,
  probe, patched, unpatched, len, chunk_len, chunk_count, chunk_start, fl_chunk, lanes, FastLanes,
}
use vortex_rdf.Node.Values.{value_at, lower_bound, run_of}
use vortex_rdf.Node.Runs.{IsRunEnds, run_of-IsSplit}
use vortex_rdf.Node.Formed.{IsLaid}
use vortex_rdf.Node.Laid.{chunk_stop, laid-IsCut}

module _ (fl : FastLanes) where
  -- What the arrays' constructors guarantee: runs reach the window's end and have a value each, each
  -- position has its reference, a slice lies in its child, chunks follow one another, a code is below
  -- the values' length, a delta block has its deltas and bases, a patch has its value, and the
  -- offsets and indices of a run-length node point inside its values.
  unfoldable mutual
    unfolding len value_at

    pub IsBacked : Node → Type 0
    IsBacked (primitive w) = Unit
    IsBacked (constant value n) = Unit
    IsBacked (sequence base multiplier n) = Unit
    IsBacked (run_end ends values offset n) =
        IsRunEnds (len ends) (value_at fl ends) offset n
        × (len ends ≤ len values)
        × IsBacked ends
        × IsBacked values
    IsBacked (frame_of_reference reference child) = IsBacked child
    IsBacked (chunked_reference references offset child) =
        ((i : ℕ) → i < len child → (offset + i) / fl_chunk < len references)
        × IsBacked references
        × IsBacked child
    IsBacked (bit_packed packed bit_width offset n patches) = HasPatches patches
    IsBacked (slice child start n) = (start + n ≤ len child) × IsBacked child
    IsBacked (chunked chunks n) = IsLaid fl chunks 0 n × AreBacked chunks
    IsBacked (dict codes values) =
        ((i : ℕ) → i < len codes → value_at fl codes i < len values)
        × IsBacked codes
        × IsBacked values
    IsBacked (delta bases deltas width offset n) =
        ((i : ℕ) → i < n → (offset + i) / fl_chunk * fl_chunk + fl_chunk ≤ len deltas)
        × ((i : ℕ) → i < n → (offset + i) / fl_chunk * lanes width + lanes width ≤ len bases)
        × IsBacked deltas
        × IsBacked bases
    IsBacked (sparse fill patches n) = HasValues patches
    IsBacked (run_length values indices value_offsets base offset n) =
        (offset + n ≤ len indices)
        × ((i : ℕ)
            → i < n
            → ((offset + i) / fl_chunk < len value_offsets)
              × (base ≤ value_at fl value_offsets ((offset + i) / fl_chunk))
              × (value_at fl value_offsets ((offset + i) / fl_chunk)
                    - base
                    + value_at fl indices (offset + i)
                  < len values))
        × IsBacked values
        × IsBacked indices
        × IsBacked value_offsets

    pub HasValues : PatchProbe → Type 0
    HasValues (probe indices values offset) =
        (len indices ≤ len values) × IsBacked indices × IsBacked values

    pub HasPatches : Patches → Type 0
    HasPatches unpatched = Unit
    HasPatches (patched p) = HasValues p

    pub AreBacked : Chunks → Type 0
    AreBacked done = Unit
    AreBacked (chunk start node cs) = IsBacked node × AreBacked cs

  -- The point read at `i` indexes only what is there: a word of the slice, each end that a bisection
  -- may compare and the value of the run, the block's reference, the chunk's row, the code's value,
  -- the deltas and bases of the block, each patch index and the value of a patch that is met, and
  -- the offset, index and value of a run-length position, whose offset is not below the base.
  -- The packed words of a bit-packed node are the kernel's to read.
  unfoldable mutual
    unfolding len value_at run_of

    pub ReadsInside : Node → ℕ → Type 0
    ReadsInside (primitive w) i = i < Words.len w
    ReadsInside (constant value n) i = Unit
    ReadsInside (sequence base multiplier n) i = Unit
    ReadsInside (run_end ends values offset n) i =
        ((r : ℕ) → r < len ends → ReadsInside ends r)
        × ReadsInside values (run_of (len ends) (value_at fl ends) (i + offset))
    ReadsInside (frame_of_reference reference child) i = ReadsInside child i
    ReadsInside (chunked_reference references offset child) i =
        ReadsInside child i × ReadsInside references ((offset + i) / fl_chunk)
    ReadsInside (bit_packed packed bit_width offset n patches) i = PatchesInside patches i
    ReadsInside (slice child start n) i = ReadsInside child (start + i)
    ReadsInside (chunked chunks n) i =
        let c = partition (chunk_count chunks) (λ c. leb (chunk_start chunks c) i) - 1 in
        ChunkInside chunks c (i - chunk_start chunks c)
    ReadsInside (dict codes values) i =
        ReadsInside codes i × ReadsInside values (value_at fl codes i)
    ReadsInside (delta bases deltas width offset n) i =
        ((j : ℕ) → j < fl_chunk → ReadsInside deltas ((offset + i) / fl_chunk * fl_chunk + j))
        × ((l : ℕ)
            → l < lanes width
            → ReadsInside bases ((offset + i) / fl_chunk * lanes width + l))
    ReadsInside (sparse fill patches n) i = PatchInside patches i
    ReadsInside (run_length values indices value_offsets base offset n) i =
        ReadsInside value_offsets ((offset + i) / fl_chunk)
        × (base ≤ value_at fl value_offsets ((offset + i) / fl_chunk))
        × ReadsInside indices (offset + i)
        × ReadsInside values (
            value_at fl value_offsets ((offset + i) / fl_chunk)
            - base
            + value_at fl indices (offset + i))

    pub PatchInside : PatchProbe → ℕ → Type 0
    PatchInside (probe indices values offset) i =
        ((j : ℕ) → j < len indices → ReadsInside indices j)
        × (lower_bound fl indices (i + offset) < len indices
            → ReadsInside values (lower_bound fl indices (i + offset)))

    pub PatchesInside : Patches → ℕ → Type 0
    PatchesInside unpatched i = Unit
    PatchesInside (patched p) i = PatchInside p i

    pub ChunkInside : Chunks → ℕ → ℕ → Type 0
    ChunkInside done c i = ⊥
    ChunkInside (chunk start node cs) zero i = ReadsInside node i
    ChunkInside (chunk start node cs) (suc c) i = ChunkInside cs c i

  -- The run of a position of the window is one of the runs.
  run_of-lt :
      (nruns : ℕ) (end_at : ℕ → ℕ) (offset n i : ℕ)
      → IsRunEnds nruns end_at offset n
      → i < n
      → run_of nruns end_at (i + offset) < nruns
  run_of-lt nruns end_at offset n i ends p =
      let run : ℕ = run_of nruns end_at (i + offset) in
      let found : IsSplit nruns (λ r. leb (end_at r) (i + offset)) run =
        run_of-IsSplit nruns end_at offset n ends (i + offset) in
      let many : 0 < nruns = ends.nonempty (omega arith) in
      elim (Bool-cases (ltb run nruns)) [
        | inl less ↦ ltb→lt _ _ less
        | inr all ↦ absurd (
            omega (
              tests,
              leb→le _ _ (found.passing (nruns - 1) (omega tests)),
              ends.reaching (omega arith),
            ))
      ]

  mutual
    unfolding len value_at chunk_len IsBacked ReadsInside

    pub backed-ReadsInside :
        (node : Node) (i : ℕ) → IsBacked node → i < len node → ReadsInside node i
    backed-ReadsInside (primitive w) i h p = p
    backed-ReadsInside (constant value n) i h p = tt
    backed-ReadsInside (sequence base multiplier n) i h p = tt
    backed-ReadsInside (run_end ends values offset n) i h p =
        let run : run_of (len ends) (value_at fl ends) (i + offset) < len ends =
          run_of-lt (len ends) (value_at fl ends) offset n i h.0 p in
        (
          λ r q. backed-ReadsInside ends r h.2 q,
          backed-ReadsInside values _ h.3 (omega (arith, run, h.1)),
        )
    backed-ReadsInside (frame_of_reference reference child) i h p = backed-ReadsInside child i h p
    backed-ReadsInside (chunked_reference references offset child) i h p =
        (backed-ReadsInside child i h.2 p, backed-ReadsInside references _ h.1 (h.0 i p))
    backed-ReadsInside (bit_packed packed bit_width offset n patches) i h p =
        patches-Inside patches i h
    backed-ReadsInside (slice child start n) i h p =
        backed-ReadsInside child (start + i) h.1 (omega (arith, h.0))
    backed-ReadsInside (chunked chunks n) i h p =
        let at =
          locate (chunk_count chunks) n (chunk_start chunks) (chunk_stop chunks)
            (laid-IsCut fl chunks n h.0) i p in
        chunk-Inside chunks _ _ h.1 at.known (omega (arith, at.from, at.before))
    backed-ReadsInside (dict codes values) i h p =
        (backed-ReadsInside codes i h.1 p, backed-ReadsInside values _ h.2 (h.0 i p))
    backed-ReadsInside (delta bases deltas width offset n) i h p = (
      λ j q. backed-ReadsInside deltas _ h.2 (omega (arith, h.0 i p)),
      λ l q. backed-ReadsInside bases _ h.3 (omega (arith, h.1 i p)),
    )
    backed-ReadsInside (sparse fill patches n) i h p = patch-Inside patches i h
    backed-ReadsInside (run_length values indices value_offsets base offset n) i h p =
        let at = h.1 i p in
        (
          backed-ReadsInside value_offsets _ h.4 at.0,
          at.1,
          backed-ReadsInside indices _ h.3 (omega (arith, h.0)),
          backed-ReadsInside values _ h.2 at.2,
        )

    patch-Inside : (p : PatchProbe) (i : ℕ) → HasValues p → PatchInside p i
    patch-Inside (probe indices values offset) i h = (
      λ j q. backed-ReadsInside indices j h.1 q,
      λ q. backed-ReadsInside values _ h.2 (omega (arith, h.0)),
    )

    patches-Inside : (p : Patches) (i : ℕ) → HasPatches p → PatchesInside p i
    patches-Inside unpatched i h = tt
    patches-Inside (patched p) i h = patch-Inside p i h

    chunk-Inside :
        (cs : Chunks) (c i : ℕ)
        → AreBacked cs
        → c < chunk_count cs
        → i < chunk_len cs c
        → ChunkInside cs c i
    chunk-Inside done c i h p q = absurd (omega arith)
    chunk-Inside (chunk start node cs) zero i h p q = backed-ReadsInside node i h.0 q
    chunk-Inside (chunk start node cs) (suc c) i h p q = chunk-Inside cs c i h.1 (omega arith) q
