-- ===== src/Scan/Tests.antt =====
-- The pieces of core/src/store/scan/pieces.rs on concrete ranges, and each theorem at an input.
use vortex_rdf.Prelude.{◌≡◌, refl, true, some, none, [], ◌∷◌, List, max, arith}
use vortex_rdf.View.Selection.{Range, span}
use vortex_rdf.Scan.Splits.{ids_by_split, footprint_of, take_fits, points_fit}
use vortex_rdf.Scan.Pieces.{growing_pieces}
use vortex_rdf.Scan.Cover.{
  AllFit, Grows, range_end, piece_rows, range_rows, growing_pieces-rows, growing_pieces-Grows,
}

abbrev ranges : List Range
ranges = span 10 20 ∷ span 50 50 ∷ span 100 400 ∷ []

cut : growing_pieces ranges 64 ≡ (0, span 10 20) ∷ (2, span 100 356) ∷ (2, span 356 400) ∷ []
unfolding growing_pieces
cut = refl

ranges-AllFit : AllFit ranges
ranges-AllFit = omega arith

growing_pieces-rows_example : piece_rows (growing_pieces ranges 64) ≡ range_rows 0 ranges
growing_pieces-rows_example = growing_pieces-rows ranges 64 ranges-AllFit

growing_pieces-Grows_example : Grows (range_end ranges) (max 64 1) (growing_pieces ranges 64)
growing_pieces-Grows_example = growing_pieces-Grows ranges 64 ranges-AllFit

abbrev splits : List Range
splits = span 0 100 ∷ span 100 300 ∷ span 300 310 ∷ []

-- One group for each split that holds an id, and the ids behind the last split.
in_splits :
    ids_by_split (5 ∷ 7 ∷ 300 ∷ 309 ∷ 400 ∷ []) splits
    ≡ (some (span 0 100), 5 ∷ 7 ∷ [])
      ∷ (some (span 300 310), 300 ∷ 309 ∷ [])
      ∷ (none, 400 ∷ [])
      ∷ []
unfolding ids_by_split
in_splits = refl

weighed : footprint_of (5 ∷ 300 ∷ 309 ∷ []) splits ≡ record { ids = 3; splits = 2; rows = 110 }
unfolding footprint_of
weighed = refl

reads_fit :
    (take_fits (footprint_of (5 ∷ 300 ∷ 309 ∷ []) splits) ≡ true)
    × (points_fit (footprint_of (5 ∷ 300 ∷ 309 ∷ []) splits) ≡ true)
unfolding take_fits points_fit footprint_of
reads_fit = (refl, refl)
