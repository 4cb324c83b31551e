-- ===== src/Scan/Cover.antt =====
-- core/src/store/scan/pieces.rs, `growing_pieces`: the pieces cover the ranges, and how they grow.
use mathlib.Core.List.{append_assoc}
use vortex_rdf.Prelude.{
  ℕ, zero, suc, ◌+◌, ◌-◌, ◌≤◌, ◌<◌, ◌≡◌, refl, sym, ap, ◌∙◌, inl, inr, List, [], ◌∷◌, ◌++◌, map,
  arith, tests, Bool-cases, ltb, ltb→lt, min, max, length, range_from, range_from-append,
}
use vortex_rdf.View.Selection.{u64_max, saturating_add, Range, rows_of}
use vortex_rdf.Scan.Pieces.{saturating_mul, piece_growth, range_pieces, all_pieces, growing_pieces}

-- The rows of the pieces, and of the ranges, each beside its range's index.
abbrev pub beside : ℕ → List ℕ → List (ℕ × ℕ)
beside index rows = map (λ row. (index, row)) rows

abbrev pub piece_rows : List (ℕ × Range) → List (ℕ × ℕ)
piece_rows [] = []
piece_rows ((index, r) ∷ pieces) = beside index (rows_of r) ++ piece_rows pieces

abbrev pub range_rows : ℕ → List Range → List (ℕ × ℕ)
range_rows index [] = []
range_rows index (r ∷ ranges) = beside index (rows_of r) ++ range_rows (suc index) ranges

piece_rows-append :
    (ps qs : List (ℕ × Range)) → piece_rows (ps ++ qs) ≡ piece_rows ps ++ piece_rows qs
piece_rows-append [] qs = refl
piece_rows-append ((index, r) ∷ ps) qs =
    ap (λ rows. beside index (rows_of r) ++ rows) (piece_rows-append ps qs)
    ∙ sym (append_assoc (beside index (rows_of r)) (piece_rows ps) (piece_rows qs))

beside-append :
    (index : ℕ) (xs ys : List ℕ) → beside index (xs ++ ys) ≡ beside index xs ++ beside index ys
beside-append index [] ys = refl
beside-append index (x ∷ xs) ys = ap (λ rows. (index, x) ∷ rows) (beside-append index xs ys)

-- The ranges end within a word.
abbrev pub AllFit : List Range → Type 0
AllFit [] = Unit {0}
AllFit (r ∷ ranges) = (r.end ≤ u64_max) × AllFit ranges

range_pieces-rows :
    (fuel index start end size : ℕ)
    → end - start ≤ fuel
    → end ≤ u64_max
    → 0 < size
    → (piece_rows (range_pieces fuel index start end size).0
        ≡ beside index (range_from start (end - start)))
      × (0 < (range_pieces fuel index start end size).1)
unfolding range_pieces
range_pieces-rows zero index start end size f fit p =
    let e : 0 ≡ end - start = omega arith in (ap (λ n. beside index (range_from start n)) e, p)
range_pieces-rows (suc fuel) index start end size f fit p = elim (Bool-cases (ltb start end)) [
  | inl rows ↦
      let lt : start < end = ltb→lt start end rows in
      let stop = min (saturating_add start size) end in
      let ih =
        range_pieces-rows fuel index stop end (saturating_mul size piece_growth) (omega arith) fit
          (omega arith) in
      let here = range_from start (stop - start) in
      let e : start + (stop - start) ≡ stop = omega arith in
      let w : stop - start + (end - stop) ≡ end - start = omega arith in
      rw rows (
        ap (λ rest. beside index here ++ rest) ih.0
            ∙ sym (beside-append index here (range_from stop (end - stop)))
            ∙ ap (beside index) (
                ap (λ s. here ++ range_from s (end - stop)) (sym e)
                ∙ range_from-append start (stop - start) (end - stop)
                ∙ ap (range_from start) w),
        ih.1,
      )
  | inr no_rows ↦
      let e : 0 ≡ end - start = omega tests in
      rw no_rows (ap (λ n. beside index (range_from start n)) e, p)
]

all_pieces-rows :
    (ranges : List Range) (index size : ℕ)
    → AllFit ranges
    → 0 < size
    → piece_rows (all_pieces index ranges size) ≡ range_rows index ranges
unfolding all_pieces
all_pieces-rows [] index size fit p = refl
all_pieces-rows (r ∷ ranges) index size fit p =
    let here = range_pieces-rows (r.end - r.start) index r.start r.end size (omega arith) fit.0 p in
    let pieces = range_pieces (r.end - r.start) index r.start r.end size in
    piece_rows-append pieces.0 (all_pieces (suc index) ranges pieces.1) ∙ λ i.
    here.0 i ++ all_pieces-rows ranges (suc index) pieces.1 fit.1 here.1 i

-- The pieces of ranges that end within a word cover exactly the rows of the ranges, in order, each
-- row beside the index of its range, whatever the size of the first piece.
pub growing_pieces-rows :
    (ranges : List Range) (first : ℕ)
    → AllFit ranges
    → piece_rows (growing_pieces ranges first) ≡ range_rows 0 ranges
unfolding growing_pieces
growing_pieces-rows ranges first fit = all_pieces-rows ranges 0 (max first 1) fit (omega arith)

-- Each piece holds a row and ends at the end of its range or, before that, behind `size` rows; the
-- size is four times as large from piece to piece, up to the largest word. `ends` has the ends of the
-- ranges.
abbrev pub Grows : (ℕ → ℕ) → ℕ → List (ℕ × Range) → Type 0
Grows ends size [] = Unit {0}
Grows ends size ((index, r) ∷ pieces) =
    (r.start < r.end)
    × (r.end ≡ min (r.start + size) (ends index))
    × Grows ends (saturating_mul size piece_growth) pieces

abbrev pub range_end : List Range → ℕ → ℕ
range_end [] index = 0
range_end (r ∷ ranges) zero = r.end
range_end (r ∷ ranges) (suc index) = range_end ranges index

-- The size at which the pieces behind these start.
abbrev size_after : ℕ → List (ℕ × Range) → ℕ
size_after size [] = size
size_after size (p ∷ pieces) = size_after (saturating_mul size piece_growth) pieces

module _ (ends : ℕ → ℕ) where
  Grows-append :
      (size : ℕ) (ps qs : List (ℕ × Range))
      → Grows ends size ps
      → Grows ends (size_after size ps) qs
      → Grows ends size (ps ++ qs)
  Grows-append size [] qs h k = k
  Grows-append size ((index, r) ∷ ps) qs h k =
      (h.0, h.1, Grows-append (saturating_mul size piece_growth) ps qs h.2 k)

  range_pieces-Grows :
      (fuel index start end size : ℕ)
      → end ≤ u64_max
      → ends index ≡ end
      → 0 < size
      → Grows ends size (range_pieces fuel index start end size).0
        × (size_after size (range_pieces fuel index start end size).0
            ≡ (range_pieces fuel index start end size).1)
        × (0 < (range_pieces fuel index start end size).1)
  unfolding range_pieces
  range_pieces-Grows zero index start end size fit e p = (tt, refl, p)
  range_pieces-Grows (suc fuel) index start end size fit e p = elim (Bool-cases (ltb start end)) [
    | inl rows ↦
        let lt : start < end = ltb→lt start end rows in
        let stop = min (saturating_add start size) end in
        let ih =
          range_pieces-Grows fuel index stop end (saturating_mul size piece_growth) fit e
            (omega arith) in
        rw rows ((omega arith, omega (arith, e), ih.0), ih.1, ih.2)
    | inr no_rows ↦ rw no_rows (tt, refl, p)
  ]

  all_pieces-Grows :
      (ranges : List Range) (index size : ℕ)
      → AllFit ranges
      → ((k : ℕ) → k < length ranges → ends (index + k) ≡ range_end ranges k)
      → 0 < size
      → Grows ends size (all_pieces index ranges size)
  unfolding all_pieces
  all_pieces-Grows [] index size fit e p = tt
  all_pieces-Grows (r ∷ ranges) index size fit e p =
      let z : index ≡ index + 0 = omega arith in
      let own : ends index ≡ r.end = ap ends z ∙ e 0 (omega arith) in
      let here = range_pieces-Grows (r.end - r.start) index r.start r.end size fit.0 own p in
      let pieces = range_pieces (r.end - r.start) index r.start r.end size in
      let behind : (k : ℕ) → k < length ranges → ends (suc index + k) ≡ range_end ranges k = λ k h.
        let w : suc index + k ≡ index + suc k = omega arith in
        ap ends w ∙ e (suc k) (omega arith) in
      Grows-append size pieces.0 (all_pieces (suc index) ranges pieces.1) here.0
        (rw here.1 (all_pieces-Grows ranges (suc index) pieces.1 fit.1 behind here.2))

-- The pieces of ranges that end within a word grow fourfold: each holds a row, and ends at its
-- range's end or exactly behind as many rows as the size, which starts at `first`, or one row where
-- that is none, and is four times as large from piece to piece, up to the largest word.
pub growing_pieces-Grows :
    (ranges : List Range) (first : ℕ)
    → AllFit ranges
    → Grows (range_end ranges) (max first 1) (growing_pieces ranges first)
unfolding growing_pieces
growing_pieces-Grows ranges first fit =
    all_pieces-Grows (range_end ranges) ranges 0 (max first 1) fit
      (λ k h. let z : 0 + k ≡ k = omega arith in ap (range_end ranges) z) (omega arith)
