-- ===== src/Node/Tests.antt =====
-- The probe tree of encoded-search/src/node.rs on a concrete array, and each theorem at an input.
use vortex_rdf.Prelude.{ℕ, zero, suc, ◌<◌, ◌≡◌, refl, [], ◌∷◌, true, arith, ltb, ltb→lt}
use vortex_rdf.Prelude.Checks.{each_below, each_below_at, steps_ascend, steps_ascend_sound}
use vortex_rdf.Search.Partition.{partition, IsSplit}
use vortex_rdf.Search.Ascending.{search_ascending}
use vortex_rdf.Search.Agrees.{IsAscending, under, up_to, under-IsMonotone, up_to-IsMonotone}
use vortex_rdf.Words.{Words}
use vortex_rdf.Words
use vortex_rdf.Node.Tree.{
  Node, primitive, sequence, run_end, frame_of_reference, bit_packed, chunked, done, chunk, patched,
  probe, len, u64_mod, FastLanes,
}
use vortex_rdf.Node.Values.{value_at, lower_bound, upper_bound, packed_value, runend_lower_bound}
use vortex_rdf.Node.Formed.{IsFormed}
use vortex_rdf.Node.Bounds.{lower_bound-eq-partition, upper_bound-IsSplit}
use vortex_rdf.Node.Pair.{bounds, bounds-eq-partition}

-- Kernels of words that are packed at their own width, in order.
abbrev plain : FastLanes
plain = record {
  unpack = λ w bit_width i. Words.get w i;
  undelta = λ bytes deltas bases. deltas;
  untranspose = λ bytes block. block;
}

-- The rows 1 3 3 10 10 14 14 14 20 300 24, with 300 a patch; cut in four chunks.
abbrev words : Node
words = primitive (Words.u8 (1 ∷ 3 ∷ 3 ∷ []))

abbrev runs : Node
runs =
    frame_of_reference 10
      (run_end (primitive (Words.u16 (1 ∷ 3 ∷ 9 ∷ []))) (primitive (Words.u8 (9 ∷ 0 ∷ 4 ∷ []))) 1 5)

abbrev packed : Node
packed =
    bit_packed (Words.u8 (20 ∷ 22 ∷ 0 ∷ [])) 8 0 3
      (patched (probe (primitive (Words.u8 (7 ∷ []))) (primitive (Words.u16 (300 ∷ []))) 5))

abbrev column : Node
column =
    chunked (chunk 0 words (chunk 3 runs (chunk 8 packed (chunk 11 (sequence 400 5 4) done)))) 15

read : Unit {0}
unfolding partition search_ascending Words.lower_bound Words.len Words.get packed_value
    runend_lower_bound upper_bound value_at len each_below steps_ascend IsFormed bounds
read = tt

column_values :
    (value_at plain column 4 ≡ 10)
    × (value_at plain column 5 ≡ 14)
    × (value_at plain column 10 ≡ 300)
    × (value_at plain column 14 ≡ 415)
unfolding read
column_values = (refl, refl, refl, refl)

column-bounds : (bounds plain column 14 ≡ (5, 8)) × (lower_bound plain column 301 ≡ 11)
unfolding read
column-bounds = (refl, refl)

column-IsAscending : IsAscending 15 (value_at plain column)
unfolding read
column-IsAscending i j p q = steps_ascend_sound 15 (value_at plain column) i j refl p q

column_words : (i : ℕ) → i < 15 → value_at plain column i < u64_mod
unfolding read
column_words i h =
    ltb→lt _ _ (each_below_at (λ k. ltb (value_at plain column k) u64_mod) 15 i h refl)

fits : (n m : ℕ) (v : ℕ → ℕ) → each_below (λ k. ltb (v k) m) n ≡ true → (i : ℕ) → i < n → v i < m
fits n m v h i p = ltb→lt _ _ (each_below_at (λ k. ltb (v k) m) n i p h)

column-IsFormed : IsFormed plain column
unfolding read
column-IsFormed = (
  refl,
  omega arith,
  fits 3 256 _ refl,
  (
    refl,
    omega arith,
    (
      omega arith,
      fits 5 u64_mod _ refl,
      record {
        positive = λ h. omega arith;
        rising = runs_rise;
        nonempty = λ h. omega arith;
        reaching = λ h. omega arith;
      },
    ),
    (refl, omega arith, tt, (refl, omega arith, (omega arith, λ i h. omega arith), refl)),
  ),
)
  where
    ends : ℕ → ℕ
    ends = value_at plain (primitive (Words.u16 (1 ∷ 3 ∷ 9 ∷ [])))

    runs_rise : (r : ℕ) → suc r < 3 → ends r < ends (suc r)
    runs_rise zero h = omega arith
    runs_rise (suc zero) h = omega arith
    runs_rise (suc (suc r)) h = absurd (omega arith)

lower_bound-eq-partition_example :
    lower_bound plain column 14 ≡ partition 15 (under (value_at plain column) 14)
unfolding read
lower_bound-eq-partition_example =
    lower_bound-eq-partition plain column 14 (omega arith) column-IsFormed
      (under-IsMonotone 15 (value_at plain column) 14 column-IsAscending)

bounds-eq-partition_example : bounds plain column 14 ≡ (
  partition 15 (under (value_at plain column) 14),
  partition 15 (up_to (value_at plain column) 14),
)
unfolding read
bounds-eq-partition_example =
    bounds-eq-partition plain column 14 (omega arith) column-IsFormed column_words
      column-IsAscending

upper_bound-IsSplit_example :
    IsSplit 15 (up_to (value_at plain column) 14) (upper_bound plain column 14)
unfolding read
upper_bound-IsSplit_example =
    upper_bound-IsSplit plain column 14 (omega arith) column-IsFormed column_words
      (up_to-IsMonotone 15 (value_at plain column) 14 column-IsAscending)

abbrev narrow_words : Words
narrow_words = Words.u8 (1 ∷ 3 ∷ 3 ∷ [])

narrow_words-IsAscending : IsAscending 3 (λ i. Words.get narrow_words i)
unfolding read
narrow_words-IsAscending i j p q = steps_ascend_sound 3 (λ k. Words.get narrow_words k) i j refl p q
