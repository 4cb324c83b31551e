-- ===== src/Scan/Pieces.antt =====
-- core/src/store/scan/pieces.rs, `growing_pieces`: ranges of rows cut into pieces that grow.
use vortex_rdf.Prelude.{ℕ, zero, suc, ◌-◌, ◌*◌, List, [], ◌∷◌, ◌++◌, if◌then◌else◌, ltb, min, max}
use vortex_rdf.View.Selection.{u64_max, saturating_add, Range, span}

abbrev pub saturating_mul : ℕ → ℕ → ℕ
saturating_mul a b = min (a * b) u64_max

-- `PIECE_GROWTH`.
abbrev pub piece_growth : ℕ
piece_growth = 4

-- The pieces of the current range `index`, of which `start..end` is left, and the size of the next
-- piece. A piece takes a row at least, so the rows are rounds enough.
unfoldable pub range_pieces : ℕ → ℕ → ℕ → ℕ → ℕ → List (ℕ × Range) × ℕ
range_pieces zero index start end size = ([], size)
range_pieces (suc fuel) index start end size =
    let stop = min (saturating_add start size) end in
    let rest = range_pieces fuel index stop end (saturating_mul size piece_growth) in
    if ltb start end then ((index, span start stop) ∷ rest.0, rest.1) else ([], size)

-- The ranges from `index` on, one after the other, the size carried from range to range.
unfoldable pub all_pieces : ℕ → List Range → ℕ → List (ℕ × Range)
unfolding range_pieces
all_pieces index [] size = []
all_pieces index (r ∷ ranges) size =
    let here = range_pieces (r.end - r.start) index r.start r.end size in
    here.0 ++ all_pieces (suc index) ranges here.1

unfoldable pub growing_pieces : List Range → ℕ → List (ℕ × Range)
unfolding all_pieces
growing_pieces ranges first = all_pieces 0 ranges (max first 1)
