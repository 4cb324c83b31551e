-- ===== src/View/MaskTests.antt =====
-- The masks of core/src/store/view/selection.rs on concrete rows, and each theorem at an input.
use vortex_rdf.Prelude.{
  ℕ, ◌+◌, ◌-◌, ◌≡◌, refl, Bool, true, false, not, ◌&&◌, leb, ltb, [], ◌∷◌, none, some, get_or,
  arith, range_from,
}
use vortex_rdf.View.Selection.{span, range, ids, mem, filter}
use vortex_rdf.View.Window.{covered}
use vortex_rdf.View.MaskRows.{to_mask-covered}
use vortex_rdf.View.Masks.{
  Masks, to_mask, live_mask, window_rows, point_sized_live_rows, live_mask-covered,
}

-- A mask as its number of bits and its test.
abbrev tests_of_bits : Masks
tests_of_bits = record {
  Mask = ℕ × (ℕ → Bool);
  value = λ m i. m.1 i;
  bits = λ m. m.0;
  new_true = λ n. (n, λ i. true);
  new_false = λ n. (n, λ i. false);
  from_slice = λ n a b. (n, λ i. leb a i && ltb i b);
  from_indices = λ n xs. (n, λ i. mem i xs);
  negate = λ m. (m.0, λ i. not (m.1 i));
  part = λ m a b. (b - a, λ i. m.1 (a + i));
  new_true_lem = λ n i h. refl;
  new_false_lem = λ n i h. refl;
  from_slice_lem = λ n a b i p q h. refl;
  from_indices_lem = λ n xs i p q h. refl;
  negate_lem = λ m i h. refl;
  part_lem = λ m a b i p h. refl;
  bits-part = λ m a b p. refl;
}

abbrev tombstones : ℕ × (ℕ → Bool)
tombstones = (10, λ row. leb 2 row && leb row 3)

windowed : (window_rows 2 5 4 ≡ some (span 2 4)) × (window_rows 4 5 4 ≡ none)
unfolding window_rows
windowed = (refl, refl)

few_live :
    point_sized_live_rows (range (span 1 5)) (some (λ row. leb 2 row && leb row 3)) 10
    ≡ some (1 ∷ 4 ∷ [])
unfolding point_sized_live_rows filter
few_live = refl

to_mask-covered_example :
    filter (tests_of_bits.value (to_mask tests_of_bits (range (span 3 7)) 10)) (range_from 0 10)
    ≡ covered (range (span 3 7)) 10
to_mask-covered_example = to_mask-covered tests_of_bits (range (span 3 7)) 10 tt

live_mask-covered_example :
    tests_of_bits.value (live_mask tests_of_bits (ids (1 ∷ 3 ∷ 6 ∷ [])) tombstones 10) 1
    ≡ not (tests_of_bits.value tombstones (get_or (covered (ids (1 ∷ 3 ∷ 6 ∷ [])) 10) 1 0))
live_mask-covered_example =
    live_mask-covered tests_of_bits (ids (1 ∷ 3 ∷ 6 ∷ [])) tombstones 10 1 refl (omega arith)
