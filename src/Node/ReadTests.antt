-- ===== src/Node/ReadTests.antt =====
-- The bulk reads of encoded-search/src/node.rs on a concrete array, and each theorem at an input.
use vortex_rdf.Prelude.{◌+◌, ◌*◌, ◌≡◌, refl, [], ◌∷◌, map, some, range_from, arith}
use vortex_rdf.Prelude.Checks.{each_below}
use vortex_rdf.Search.Partition.{partition}
use vortex_rdf.Words.{Words}
use vortex_rdf.Words
use vortex_rdf.Node.Tree.{
  Node, primitive, run_end, frame_of_reference, bit_packed, chunked, done, chunk, patched, probe,
  dict, len, fl_chunk, FastLanes,
}
use vortex_rdf.Node.Values.{value_at, run_of}
use vortex_rdf.Node.Formed.{IsFormed}
use vortex_rdf.Node.Packed.{Bulk, read_parts}
use vortex_rdf.Node.Reads.{read_into, runs_in, overwrite}
use vortex_rdf.Node.Readable.{IsReadable}
use vortex_rdf.Node.InRange.{IsBacked}

-- Kernels of words that are packed at their own width, in order.
abbrev plain : FastLanes
plain = record {
  unpack = λ w bit_width i. Words.get w i;
  undelta = λ bytes deltas bases. deltas;
  untranspose = λ bytes block. block;
}

abbrev batch : Bulk plain
batch = record {
  unpack_chunk = λ w bit_width c. map (λ i. Words.get w (c * fl_chunk + i)) (range_from 0 fl_chunk);
  unpack_indices = λ w bit_width c positions. map (λ i. Words.get w (c * fl_chunk + i)) positions;
  unpack_chunk_lem = λ w bit_width c. refl;
  unpack_indices_lem = λ w bit_width c positions. refl;
}

-- The rows 1 3 3 10 10 14 14 14 20 300 24, with 300 a patch; in three chunks.
abbrev ends : Node
ends = primitive (Words.u16 (1 ∷ 3 ∷ 9 ∷ []))

abbrev patch_index : Node
patch_index = primitive (Words.u8 (7 ∷ []))

abbrev patch_value : Node
patch_value = primitive (Words.u16 (300 ∷ []))

abbrev runs : Node
runs = frame_of_reference 10 (run_end ends (primitive (Words.u8 (9 ∷ 0 ∷ 4 ∷ []))) 1 5)

abbrev packed : Node
packed = bit_packed (Words.u8 (20 ∷ 22 ∷ 24 ∷ [])) 8 0 3 (patched (probe patch_index patch_value 6))

abbrev coded : Node
coded = dict (primitive (Words.u8 (0 ∷ 1 ∷ 1 ∷ []))) (primitive (Words.u8 (1 ∷ 3 ∷ [])))

abbrev column : Node
column = chunked (chunk 0 coded (chunk 3 runs (chunk 8 packed done))) 11

read : Unit {0}
unfolding partition Words.len Words.get Words.read_into Words.lower_bound value_at len IsFormed
    IsReadable read_into each_below run_of runs_in read_parts overwrite
read = tt

across_chunks : read_into plain batch column 2 8 ≡ some (3 ∷ 10 ∷ 10 ∷ 14 ∷ 14 ∷ 14 ∷ 20 ∷ 300 ∷ [])
unfolding read
across_chunks = refl

-- A code past the values is no dictionary's.
code_past_values :
    ¬ IsBacked plain (dict (primitive (Words.u8 (5 ∷ []))) (primitive (Words.u8 (7 ∷ []))))
unfolding read IsBacked
code_past_values h = absurd (omega (arith, h.0 0 (omega arith)))
