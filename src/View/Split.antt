-- ===== src/View/Split.antt =====
-- core/src/store/view/selection.rs, `split`: a selection cut into contiguous pieces.
use native.Mathlib.Nat.{lt-div-mul-add}
use vortex_rdf.Prelude.{
  ℕ, zero, suc, ◌+◌, ◌-◌, ◌*◌, ◌/◌, ◌≤◌, ◌<◌, ◌≡◌, refl, sym, ap, ◌∙◌, false, inl, inr, List, [],
  ◌∷◌, ◌++◌, arith, tests, Bool-cases, if◌then◌else◌, ltb, ltb→lt, ◌==◌, ==_iff, drop, take, length,
  length-drop, range_from, min, max, take-append-drop, range_from-append, drop-all, drop-drop,
  take-min,
}
use vortex_rdf.View.Selection.{
  u64_max, saturating_add, span, RowSelection, range, ids, slice, SelectedRows, run, listed,
  as_rows, len,
}
use vortex_rdf.View.Window.{listing, covered, FitsWord, covered-range, as_rows-FitsWord, rows-equal}

abbrev pub div_ceil : ℕ → ℕ → ℕ
div_ceil a b = (a + b - 1) / b

-- `(start..end).step_by(per)`, a sub-range from each step. A step is a row at least, so the rows
-- are steps enough.
unfoldable pub run_pieces : ℕ → ℕ → ℕ → ℕ → List RowSelection
run_pieces zero start end per = []
run_pieces (suc fuel) start end per =
    let rest = run_pieces fuel (start + per) end per in
    if ltb start end then range (span start (min (saturating_add start per) end)) ∷ rest else []

-- `(0..len).step_by(per)`, a slice from each step.
unfoldable pub id_pieces : ℕ → List ℕ → ℕ → ℕ → List RowSelection
id_pieces zero xs start per = []
id_pieces (suc fuel) xs start per =
    let rest = id_pieces fuel xs (start + per) per in
    if ltb start (length xs)
    then ids (slice xs start (min (start + per) (length xs))) ∷ rest
    else []

unfoldable pub split_rows : SelectedRows → ℕ → List RowSelection
unfolding run_pieces id_pieces
split_rows (run r) n =
    let count = r.end - r.start in
    if count == 0 then [] else run_pieces count r.start r.end (div_ceil count n)
split_rows (listed xs) n =
    if length xs == 0 then [] else id_pieces (length xs) xs 0 (div_ceil (length xs) n)

unfoldable pub split : RowSelection → ℕ → ℕ → List RowSelection
unfolding split_rows
split s n base_len = split_rows (as_rows s base_len) (max n 1)

-- The rows of the pieces, one after the other.
abbrev pub covered_all : List RowSelection → ℕ → List ℕ
covered_all [] base_len = []
covered_all (s ∷ pieces) base_len = covered s base_len ++ covered_all pieces base_len

module _ (per base_len : ℕ) (some_rows : 0 < per) where
  run_pieces-covered :
      (fuel start end : ℕ)
      → end - start ≤ fuel
      → end ≤ base_len
      → base_len ≤ u64_max
      → covered_all (run_pieces fuel start end per) base_len ≡ range_from start (end - start)
  unfolding run_pieces
  run_pieces-covered zero start end f p q =
      let e : 0 ≡ end - start = omega arith in ap (range_from start) e
  run_pieces-covered (suc fuel) start end f p q = elim (Bool-cases (ltb start end)) [
    | inl rows ↦
        let lt : start < end = ltb→lt start end rows in
        let stop = min (saturating_add start per) end in
        let ih = run_pieces-covered fuel (start + per) end (omega arith) p q in
        let behind : range_from (start + per) (end - (start + per))
            ≡ range_from (start + (stop - start)) (end - stop) =
          rows-equal (start + per) (start + (stop - start)) (end - (start + per)) (end - stop)
            (omega arith) (λ c. omega (arith, c)) in
        let whole : stop - start + (end - stop) ≡ end - start = omega arith in
        rw rows (
          (λ i. covered-range start stop base_len (omega arith) (omega arith) i ++ (ih ∙ behind) i)
          ∙ range_from-append start (stop - start) (end - stop)
          ∙ ap (range_from start) whole)
    | inr no_rows ↦ let e : 0 ≡ end - start = omega tests in rw no_rows (ap (range_from start) e)
  ]

  length-run_pieces :
      (fuel start end n : ℕ) → end - start ≤ n * per → length (run_pieces fuel start end per) ≤ n
  unfolding run_pieces
  length-run_pieces zero start end n h = omega arith
  length-run_pieces (suc fuel) start end zero h =
      let z : 0 * per ≡ 0 = omega arith in
      let e : ltb start end ≡ false = ground (arith, h, z) in rw e (omega arith)
  length-run_pieces (suc fuel) start end (suc n) h = elim (Bool-cases (ltb start end)) [
    | inl rows ↦
        let e : suc n * per ≡ per + n * per = grind arith in
        rw rows (omega (arith, length-run_pieces fuel (start + per) end n (omega arith)))
    | inr no_rows ↦ rw no_rows (omega arith)
  ]

  id_pieces-covered :
      (fuel : ℕ) (xs : List ℕ) (start : ℕ)
      → length xs - start ≤ fuel
      → covered_all (id_pieces fuel xs start per) base_len ≡ drop start xs
  unfolding id_pieces
  id_pieces-covered zero xs start f = sym (drop-all start xs (omega arith))
  id_pieces-covered (suc fuel) xs start f = elim (Bool-cases (ltb start (length xs))) [
    | inl rows ↦
        let lt = ltb→lt start (length xs) rows in
        let stop = min (start + per) (length xs) in
        let ih = id_pieces-covered fuel xs (start + per) (omega arith) in
        let cut : take (stop - start) (drop start xs) ≡ take per (drop start xs) =
          take-min per (drop start xs) (stop - start) (omega (arith, length-drop start xs)) in
        rw rows
          ((λ i. cut i ++ (ih ∙ drop-drop start per xs) i) ∙ take-append-drop per (drop start xs))
    | inr no_rows ↦ rw no_rows (sym (drop-all start xs (omega tests)))
  ]

  length-id_pieces :
      (fuel : ℕ) (xs : List ℕ) (start n : ℕ)
      → length xs - start ≤ n * per
      → length (id_pieces fuel xs start per) ≤ n
  unfolding id_pieces
  length-id_pieces zero xs start n h = omega arith
  length-id_pieces (suc fuel) xs start zero h =
      let z : 0 * per ≡ 0 = omega arith in
      let e : ltb start (length xs) ≡ false = ground (arith, h, z) in rw e (omega arith)
  length-id_pieces (suc fuel) xs start (suc n) h = elim (Bool-cases (ltb start (length xs))) [
    | inl rows ↦
        let e : suc n * per ≡ per + n * per = grind arith in
        rw rows (omega (arith, length-id_pieces fuel xs (start + per) n (omega arith)))
    | inr no_rows ↦ rw no_rows (omega arith)
  ]

-- Pieces of the rounded-up size are enough.
div_ceil-covers : (count n : ℕ) → 0 < n → count ≤ n * div_ceil count n
div_ceil-covers count n h =
    let b = lt-div-mul-add {a = count + n - 1} h in
    let e : n * div_ceil count n ≡ div_ceil count n * n = grind arith in omega (arith, b, e)

div_ceil-positive : (count n : ℕ) → 0 < n → 0 < count → 0 < div_ceil count n
div_ceil-positive count n h p = elim (Bool-cases (div_ceil count n == 0)) [
  | inl none_left ↦
      let z = (==_iff (div_ceil count n) 0).0 none_left in
      let e : n * div_ceil count n ≡ n * 0 = ap (λ k. n * k) z in
      absurd (omega (arith, div_ceil-covers count n h, e))
  | inr some_left ↦ ground arith
]

split_rows-covered :
    (rows : SelectedRows) (n base_len : ℕ)
    → FitsWord rows base_len
    → 0 < n
    → (covered_all (split_rows rows n) base_len ≡ listing rows) × (length (split_rows rows n) ≤ n)
unfolding split_rows
split_rows-covered (run r) n base_len fits h =
    let count = r.end - r.start in
    elim (Bool-cases (count == 0)) [
      | inl no_rows ↦
          let e : 0 ≡ count = let f = (==_iff count 0).0 no_rows in omega (arith, f) in
          rw no_rows (ap (range_from r.start) e, omega arith)
      | inr rows ↦
          let p : 0 < count = ground arith in
          let per = div_ceil-positive count n h p in
          rw rows (
            run_pieces-covered (div_ceil count n) base_len per count r.start r.end (omega arith)
                (omega (arith, fits.1)) fits.2,
            length-run_pieces (div_ceil count n) base_len per count r.start r.end n
                (div_ceil-covers count n h),
          )
    ]
split_rows-covered (listed xs) n base_len fits h = elim (Bool-cases (length xs == 0)) [
  | inl no_rows ↦
      let e : length xs ≡ 0 = (==_iff (length xs) 0).0 no_rows in
      rw no_rows (nothing xs e, omega arith)
  | inr rows ↦
      let p : 0 < length xs = ground arith in
      let per = div_ceil-positive (length xs) n h p in
      rw rows (
        id_pieces-covered (div_ceil (length xs) n) base_len per (length xs) xs 0 (omega arith),
        length-id_pieces (div_ceil (length xs) n) base_len per (length xs) xs 0 n
            (omega (arith, div_ceil-covers (length xs) n h)),
      )
]
  where
    nothing : (ys : List ℕ) → length ys ≡ 0 → [] ≡ ys
    nothing [] e = refl
    nothing (y ∷ ys) e = absurd (omega (arith, e))

-- Where the rows fit a `usize`, the pieces of a selection are at most the number asked for, or one
-- where none is asked for, and one after the other they cover exactly the rows of the selection, in
-- order.
pub split-covered :
    (s : RowSelection) (n base_len : ℕ)
    → base_len ≤ u64_max
    → len s base_len ≤ u64_max
    → (covered_all (split s n base_len) base_len ≡ covered s base_len)
      × (length (split s n base_len) ≤ max n 1)
unfolding split
split-covered s n base_len p q =
    split_rows-covered (as_rows s base_len) (max n 1) base_len (as_rows-FitsWord s base_len p q)
      (omega arith)
