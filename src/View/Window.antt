-- ===== src/View/Window.antt =====
-- core/src/store/view/selection.rs, `window`, `filter_rows` and `narrow_to_ids`: the rows of a view
-- in base row order, and what is kept of them.
use vortex_rdf.Prelude.{
  drop-range_from, take-range_from, ℕ, zero, suc, ◌+◌, ◌-◌, ◌≤◌, ◌<◌, ◌≡◌, refl, sym, ap, ◌∙◌, Bool,
  true, not, inl, inr, List, [], ◌∷◌, arith, Bool-cases, if◌then◌else◌, leb, leb→le, leb→lt, ◌==◌,
  ==_iff, drop, take, length, length-drop, take-min, drop-min, range_from, min, max, Option, none,
  some,
}
use vortex_rdf.View.Selection.{
  u64_max, saturating_add, span, RowSelection, all, range, ids, filter, slice, SelectedRows, run,
  listed, rows_of, as_rows, empty, from_ids, range_or_empty, len,
}

-- The rows that the selection covers out of `base_len`, in order.
abbrev pub listing : SelectedRows → List ℕ
listing (run r) = rows_of r
listing (listed xs) = xs

abbrev pub covered : RowSelection → ℕ → List ℕ
covered s base_len = listing (as_rows s base_len)

unfoldable pub filter_rows : RowSelection → ℕ → (ℕ → Bool) → List ℕ
filter_rows s base_len keep = elim (as_rows s base_len) [
  | run r ↦ filter keep (rows_of r)
  | listed xs ↦ filter keep xs
]

unfoldable pub window_of_rows : SelectedRows → ℕ → ℕ → RowSelection
window_of_rows (run r) offset limit =
    let start = min (saturating_add r.start offset) r.end in
    range_or_empty (span start (min (saturating_add start limit) r.end))
window_of_rows (listed xs) offset limit =
    let start = min offset (length xs) in
    let end = min (saturating_add start limit) (length xs) in
    if start == end then empty else ids (slice xs start end)

-- `live` is the negation of the tombstones' mask.
unfoldable pub window : RowSelection → ℕ → ℕ → Option (ℕ → Bool) → ℕ → RowSelection
unfolding window_of_rows
window s offset limit none base_len = window_of_rows (as_rows s base_len) offset limit
window s offset limit (some deleted) base_len =
    from_ids
      (take limit (drop offset (filter (λ id. not (deleted id)) (listing (as_rows s base_len)))))

-- Which rows are live.
abbrev pub live : Option (ℕ → Bool) → ℕ → Bool
live none row = true
live (some deleted) row = not (deleted row)

filter-true : (xs : List ℕ) → filter (λ id. true) xs ≡ xs
unfolding filter
filter-true [] = refl
filter-true (x ∷ xs) = ap (λ ys. x ∷ ys) (filter-true xs)

covered-from_ids : (xs : List ℕ) (base_len : ℕ) → covered (from_ids xs) base_len ≡ xs
covered-from_ids [] base_len =
    let e : max (min 0 base_len) (min 0 base_len) - min 0 base_len ≡ 0 = omega arith in
    ap (range_from (min 0 base_len)) e
covered-from_ids (x ∷ xs) base_len = refl

-- An empty run is no row, wherever it stands.
pub rows-equal : (a b m n : ℕ) → m ≡ n → (0 < m → a ≡ b) → range_from a m ≡ range_from b n
rows-equal a b zero n e f = ap (range_from b) e
rows-equal a b (suc m) n e f = λ i. range_from (f (omega arith) i) (e i)

covered-range_or_empty :
    (a b base_len : ℕ)
    → b ≤ base_len
    → covered (range_or_empty (span a b)) base_len ≡ range_from a (b - a)
covered-range_or_empty a b base_len h = elim (Bool-cases (leb b a)) [
  | inl no_rows ↦
      let le : b ≤ a = leb→le b a no_rows in
      rw no_rows (
        rows-equal (min 0 base_len) a (max (min 0 base_len) (min 0 base_len) - min 0 base_len)
          (b - a) (omega arith) (λ c. absurd (omega arith)))
  | inr rows ↦
      let lt : a < b = leb→lt b a rows in
      rw rows (
        rows-equal (min a base_len) a (max (min b base_len) (min a base_len) - min a base_len)
          (b - a) (omega arith) (λ c. omega arith))
]

-- A range inside the base is not clamped.
pub covered-range :
    (a b base_len : ℕ)
    → b ≤ base_len
    → a < b
    → covered (range (span a b)) base_len ≡ range_from a (b - a)
covered-range a b base_len h less =
    rows-equal (min a base_len) a (max (min b base_len) (min a base_len) - min a base_len) (b - a)
      (omega arith) (λ c. omega arith)

-- The rows fit a `usize`.
abbrev pub FitsWord : SelectedRows → ℕ → Type 0
FitsWord (run r) base_len = (r.start ≤ r.end) × (r.end ≤ base_len) × (base_len ≤ u64_max)
FitsWord (listed xs) base_len = length xs ≤ u64_max

window_of_rows-covered :
    (rows : SelectedRows) (offset limit base_len : ℕ)
    → FitsWord rows base_len
    → covered (window_of_rows rows offset limit) base_len ≡ take limit (drop offset (listing rows))
unfolding window_of_rows
window_of_rows-covered (run r) offset limit base_len fits =
    let start = min (saturating_add r.start offset) r.end in
    let end = min (saturating_add start limit) r.end in
    covered-range_or_empty start end base_len (omega (arith, fits.1))
    ∙ rows-equal start (r.start + offset) (end - start) (min limit (r.end - r.start - offset))
        (omega (arith, fits.0, fits.1, fits.2)) (λ c. omega (arith, fits.0, fits.1, fits.2, c))
    ∙ sym (take-range_from limit (r.start + offset) (r.end - r.start - offset))
    ∙ ap (take limit) (sym (drop-range_from offset r.start (r.end - r.start)))
window_of_rows-covered (listed xs) offset limit base_len fits =
    let start = min offset (length xs) in
    let end = min (saturating_add start limit) (length xs) in
    let width : end - start ≡ min limit (length (drop start xs)) =
      omega (arith, length-drop start xs, fits) in
    let from : drop start xs ≡ drop offset xs = drop-min offset xs start (omega arith) in
    let kept : slice xs start end ≡ take limit (drop offset xs) =
      take-min limit (drop start xs) (end - start) width ∙ ap (take limit) from in
    elim (Bool-cases (start == end)) [
      | inl none_left ↦
          let e : end - start ≡ 0 = let f = (==_iff start end).0 none_left in omega (arith, f) in
          rw none_left
            (covered-from_ids [] base_len ∙ sym (ap (λ n. take n (drop start xs)) e) ∙ kept)
      | inr some_left ↦ rw some_left kept
    ]

pub as_rows-FitsWord :
    (s : RowSelection) (base_len : ℕ)
    → base_len ≤ u64_max
    → len s base_len ≤ u64_max
    → FitsWord (as_rows s base_len) base_len
as_rows-FitsWord all base_len p q = (omega arith, omega arith, p)
as_rows-FitsWord (range r) base_len p q = (omega arith, omega arith, p)
as_rows-FitsWord (ids xs) base_len p q = q

-- Where the rows fit a `usize`, a window covers exactly the `limit` rows behind the first `offset`
-- of the selection's live rows in base row order, all of them live where there are no tombstones.
pub window-covered :
    (s : RowSelection) (offset limit : ℕ) (deleted : Option (ℕ → Bool)) (base_len : ℕ)
    → base_len ≤ u64_max
    → len s base_len ≤ u64_max
    → covered (window s offset limit deleted base_len) base_len
      ≡ take limit (drop offset (filter_rows s base_len (live deleted)))
unfolding window filter_rows
window-covered s offset limit none base_len p q =
    window_of_rows-covered (as_rows s base_len) offset limit base_len
      (as_rows-FitsWord s base_len p q)
    ∙ ap (λ xs. take limit (drop offset xs)) (by_shape (as_rows s base_len))
  where
    by_shape :
        (rows : SelectedRows)
        → listing rows ≡ (elim rows [
          | run r ↦ filter (live none) (rows_of r)
          | listed xs ↦ filter (live none) xs
        ])
    by_shape (run r) = sym (filter-true (rows_of r))
    by_shape (listed xs) = sym (filter-true xs)
window-covered s offset limit (some deleted) base_len p q =
    covered-from_ids _ base_len
    ∙ ap (λ xs. take limit (drop offset xs)) (by_shape (as_rows s base_len))
  where
    by_shape :
        (rows : SelectedRows)
        → filter (λ id. not (deleted id)) (listing rows) ≡ (elim rows [
          | run r ↦ filter (live (some deleted)) (rows_of r)
          | listed xs ↦ filter (live (some deleted)) xs
        ])
    by_shape (run r) = refl
    by_shape (listed xs) = refl
