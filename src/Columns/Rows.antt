-- ===== src/Columns/Rows.antt =====
-- core/src/columns/join.rs, `CodeGroups::build`, `RightIndex::rows_for` and `match_count`: the rows
-- that a code finds, and how many pairs a left column makes of them.
use vortex_rdf.Prelude.{
  ℕ, suc, ◌+◌, ◌-◌, ◌*◌, ◌≤◌, ◌<◌, ◌≡◌, refl, ap, ◌∙◌, true, false, none, some, inl, inr, List, [],
  ◌∷◌, arith, Bool-cases, if◌then◌else◌, leb, min, max, length, range_from, length-map, leb→le,
}
use vortex_rdf.Search.Sinks.{matches, count_words, length-matches, length-range_from}
use vortex_rdf.Columns.Groups.{group_count, group_rows}
use vortex_rdf.Columns.Starts.{AllBelow}
use vortex_rdf.Columns.Grouped.{group_count-le}
use vortex_rdf.Columns.Join.{
  Span, span_of, span_slot, fold_range, code_range, dense_table_fits, hashed_slot, u64_mod,
  usize_max, saturating_add, enter_all, row_slots, slot, RightIndex, dense_index, hashed_index,
  code_groups, rows_for, rows_count, sum_counts, fold_counts, match_count,
}
use vortex_rdf.Columns.Slots.{AllWithin-AllBelow, fold_range-AllWithin, group_rows-span}
use vortex_rdf.Columns.Entered.{enter_all-IsNumbered, enter_all-AllFound, row_slots-map}
use vortex_rdf.Columns.Numbered.{group_rows-hashed, hashed_slot-le, AllFound-AllBelow}

fold_range-below :
    (n lo hi : ℕ) (cs : List ℕ) → AllBelow n cs → hi < n → (fold_range cs lo hi).1 < n
unfolding fold_range
fold_range-below n lo hi [] small h = h
fold_range-below n lo hi (c ∷ cs) small h =
    fold_range-below n (min lo c) (max hi c) cs small.1 (omega (arith, small.0))

-- A column's smallest and largest code, and its index over them.
module _ (c : ℕ) (cs : List ℕ) where
  abbrev lowest : ℕ
  lowest = (fold_range cs c c).0

  abbrev highest : ℕ
  highest = (fold_range cs c c).1

  abbrev code_span : Span
  code_span = record { min_code = lowest; width = highest - lowest + 1 }

  rows_for-dense :
      (code : ℕ)
      → code < u64_mod
      → AllBelow u64_mod (c ∷ cs)
      → rows_for (dense_index (c ∷ cs) code_span) code ≡ matches 0 (c ∷ cs) code
  unfolding rows_for dense_index slot
  rows_for-dense code known small =
      let w = fold_range-AllWithin cs c c in
      group_rows-span lowest highest code known (omega (arith, w.0, w.1))
        (fold_range-below u64_mod c c cs small.1 small.0) (c ∷ cs) (w.0, w.1, w.2)

rows_for-hashed :
    (right : List ℕ) (code : ℕ) → rows_for (hashed_index right) code ≡ matches 0 right code
unfolding rows_for hashed_index slot
rows_for-hashed right code =
    let entries = enter_all [] right in
    rw (row_slots-map [] right) (
      group_rows-hashed entries (enter_all-IsNumbered [] right tt) right code
        (enter_all-AllFound [] right))

-- Dense or hashed, the index of a column of 64-bit codes finds for a 64-bit code exactly the rows
-- that hold it, ascending.
pub rows_for-eq-matches :
    (right : List ℕ) (code : ℕ)
    → code < u64_mod
    → AllBelow u64_mod right
    → rows_for (code_groups right) code ≡ matches 0 right code
unfolding code_groups span_of code_range
rows_for-eq-matches [] code known small = rows_for-hashed [] code
rows_for-eq-matches (c ∷ cs) code known small =
    elim (dense_table_fits (highest c cs - lowest c cs) (length (c ∷ cs)))
      as (λ b.
        rows_for
          (elim (if b then some (code_span c cs) else none) [
            | none ↦ hashed_index (c ∷ cs)
            | some s ↦ dense_index (c ∷ cs) s
          ])
          code
        ≡ matches 0 (c ∷ cs) code) [
          | true ↦ rows_for-dense c cs code known small
          | false ↦ rows_for-hashed (c ∷ cs) code
        ]

-- The rows of the code are among those of the index.
abbrev IsCovered : ℕ → RightIndex → Type 0
IsCovered code index = rows_count index code ≤ length index.groups.rows

dense_within :
    (c : ℕ) (cs : List ℕ) (code : ℕ) → IsCovered code (dense_index (c ∷ cs) (code_span c cs))
unfolding dense_index slot span_slot
dense_within c cs code =
    let w = fold_range-AllWithin cs c c in
    group_count-le (highest c cs - lowest c cs + 1) _
      (AllWithin-AllBelow (lowest c cs) (highest c cs) (c ∷ cs) (w.0, w.1, w.2)) _ (omega arith)

hashed_within : (right : List ℕ) (code : ℕ) → IsCovered code (hashed_index right)
unfolding hashed_index slot
hashed_within right code =
    let entries = enter_all [] right in
    let numbered = enter_all-IsNumbered [] right tt in
    group_count-le (length entries) (row_slots [] right)
      (rw (row_slots-map [] right)
        (AllFound-AllBelow entries numbered right (enter_all-AllFound [] right)))
      (hashed_slot entries code) (hashed_slot-le entries numbered code)

slot_within :
    (right : List ℕ) (code : ℕ) → AllBelow u64_mod right → IsCovered code (code_groups right)
unfolding code_groups span_of code_range
slot_within [] code small = hashed_within [] code
slot_within (c ∷ cs) code small =
    elim (dense_table_fits (highest c cs - lowest c cs) (length (c ∷ cs)))
      as (λ b. IsCovered code (elim (if b then some (code_span c cs) else none) [
        | none ↦ hashed_index (c ∷ cs)
        | some s ↦ dense_index (c ∷ cs) s
      ])) [ true ↦ dense_within c cs code | false ↦ hashed_within (c ∷ cs) code ]

pub rows_count-eq-count_words :
    (right : List ℕ) (code : ℕ)
    → code < u64_mod
    → AllBelow u64_mod right
    → rows_count (code_groups right) code ≡ count_words right code
unfolding rows_for group_rows
rows_count-eq-count_words right code known small =
    let index = code_groups right in
    let found = ap (λ xs. length xs) (rows_for-eq-matches right code known small) in
    let k = slot index.slots code in
    let e : length (rows_for index code) ≡ rows_count index code =
      length-map _ (range_from _ (group_count index.groups k)) ∙ length-range_from _ _ in
    omega (arith, e, found, length-matches 0 right code)

-- The pairs that the columns make: for each left row, the right rows of its code.
unfoldable pub pair_count : List ℕ → List ℕ → ℕ
pair_count [] right = 0
pair_count (code ∷ left) right = count_words right code + pair_count left right

module _ (right : List ℕ) (small : AllBelow u64_mod right) where
  sum_counts-eq-pair_count :
      (left : List ℕ)
      → AllBelow u64_mod left
      → sum_counts (code_groups right) left ≡ pair_count left right
  unfolding sum_counts pair_count
  sum_counts-eq-pair_count [] known = refl
  sum_counts-eq-pair_count (code ∷ left) known = omega (
    arith,
    rows_count-eq-count_words right code known.0 small,
    sum_counts-eq-pair_count left known.1,
  )

  fold_counts-saturates :
      (left : List ℕ) (total : ℕ)
      → AllBelow u64_mod left
      → total ≤ usize_max
      → fold_counts (code_groups right) total left ≡ min (total + pair_count left right) usize_max
  unfolding fold_counts pair_count
  fold_counts-saturates [] total known h = omega arith
  fold_counts-saturates (code ∷ left) total known h = omega (
    arith,
    rows_count-eq-count_words right code known.0 small,
    fold_counts-saturates left (saturating_add total (rows_count (code_groups right) code)) known.1
        (omega arith),
  )

  sum_counts-le :
      (left : List ℕ)
      → sum_counts (code_groups right) left ≤ length left * length (code_groups right).groups.rows
  unfolding sum_counts
  sum_counts-le [] = omega arith
  sum_counts-le (code ∷ left) =
      let n = length (code_groups right).groups.rows in
      let e : suc (length left) * n ≡ n + length left * n = grind arith in
      omega (arith, slot_within right code small, sum_counts-le left, e)

  -- The count is the number of pairs, up to the word's largest value.
  pub match_count-lem :
      (left : List ℕ)
      → AllBelow u64_mod left
      → match_count (code_groups right) left ≡ min (pair_count left right) usize_max
  unfolding match_count
  match_count-lem left known =
      elim (Bool-cases (leb (length left * length (code_groups right).groups.rows) usize_max)) [
        | inl fits ↦ rw fits (
            omega (arith, leb→le _ _ fits, sum_counts-eq-pair_count left known, sum_counts-le left))
        | inr wide ↦ rw wide (omega (arith, fold_counts-saturates left 0 known (omega arith)))
      ]
