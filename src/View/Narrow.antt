-- ===== src/View/Narrow.antt =====
-- core/src/store/view/selection.rs, `intersect_range`, `intersect_ids`, `intersect_runs`: a
-- narrowing covers the rows that the selection and the argument both cover.
use vortex_rdf.Prelude.{
  ℕ, ◌-◌, ◌≤◌, ◌<◌, ◌≡◌, refl, ap, ◌∙◌, Bool, true, false, ◌&&◌, ◌||◌, List, [], ◌∷◌, arith,
}
use vortex_rdf.View.Selection.{
  u64_max, Range, RowSelection, all, range, ids, range_contains, mem, rows_of, clip, run_rows,
  from_runs, contains, intersect_range, intersect_ids,
}
use vortex_rdf.View.Ascending.{IsRising, mem-filter, mem-append, mem-range_from}
use vortex_rdf.View.Restrict.{restrict_ids-eq-filter, intersect_sorted_ids-mem}

-- An id list is ascending and unique, and a range does not end before it starts.
abbrev pub IsFormed : RowSelection → Type 0
IsFormed all = Unit {0}
IsFormed (range r) = r.start ≤ r.end
IsFormed (ids xs) = IsRising xs

module _ (s : RowSelection) (formed : IsFormed s) where
  -- A well-formed selection narrowed to a range, which does not end before it starts, covers exactly
  -- the rows of both.
  pub intersect_range-contains :
      (r : Range) (row : ℕ)
      → r.start ≤ r.end
      → contains (intersect_range s r) row ≡ contains s row && range_contains r row
  unfolding contains intersect_range
  intersect_range-contains r row order = by_case s formed
    where
      by_case :
          (t : RowSelection)
          → IsFormed t
          → contains (intersect_range t r) row ≡ contains t row && range_contains r row
      by_case all h = refl
      by_case (range current) h = ground arith
      by_case (ids xs) h =
          ap (mem row) (restrict_ids-eq-filter r order xs h) ∙ mem-filter (range_contains r) row xs

  -- A well-formed selection narrowed to ascending, unique ids covers exactly those of them that it
  -- covered.
  pub intersect_ids-contains :
      (xs : List ℕ) (row : ℕ)
      → IsRising xs
      → contains (intersect_ids s xs) row ≡ contains s row && mem row xs
  unfolding contains intersect_ids
  intersect_ids-contains xs row up = by_case s formed
    where
      swap : (a b : Bool) → (a && b) ≡ (b && a)
      swap true true = refl
      swap true false = refl
      swap false true = refl
      swap false false = refl

      by_case :
          (t : RowSelection)
          → IsFormed t
          → contains (intersect_ids t xs) row ≡ contains t row && mem row xs
      by_case all h = refl
      by_case (range r) h =
          ap (mem row) (restrict_ids-eq-filter r h xs up)
          ∙ mem-filter (range_contains r) row xs
          ∙ swap (mem row xs) (range_contains r row)
      by_case (ids current) h = intersect_sorted_ids-mem current xs row h up

-- Some run holds the row.
abbrev pub any_contains : List Range → ℕ → Bool
any_contains [] row = false
any_contains (r ∷ runs) row = range_contains r row || any_contains runs row

-- Ascending, disjoint runs, from the bound on.
abbrev pub AreRuns : ℕ → List Range → Type 0
AreRuns from [] = Unit {0}
AreRuns from (r ∷ runs) =
    (from ≤ r.start) × (r.start ≤ r.end) × (r.end ≤ u64_max) × AreRuns r.end runs

pub any_contains-before :
    (runs : List Range) (from row : ℕ)
    → AreRuns from runs
    → row < from
    → any_contains runs row ≡ false
any_contains-before [] from row h p = refl
any_contains-before (r ∷ runs) from row h p =
    let rest = any_contains-before runs r.end row h.3 (omega (arith, h.0, h.1)) in
    ground (arith, rest, h.0)

run_rows-mem : (runs : List Range) (row : ℕ) → mem row (run_rows runs) ≡ any_contains runs row
run_rows-mem [] row = unfold mem in refl
run_rows-mem (r ∷ runs) row =
    let here = mem-range_from row r.start (r.end - r.start) in
    let held : mem row (rows_of r) ≡ range_contains r row = ground (arith, here) in
    mem-append row (rows_of r) (run_rows runs) ∙ λ i. held i || run_rows-mem runs row i

pub clip-contains :
    (within : Range) (runs : List Range) (row : ℕ)
    → any_contains (clip within runs) row ≡ range_contains within row && any_contains runs row
unfolding clip
clip-contains within [] row = ground arith
clip-contains within (r ∷ runs) row = ground (arith, clip-contains within runs row)

pub from_runs-contains :
    (runs : List Range) (row : ℕ) → contains (from_runs runs) row ≡ any_contains runs row
unfolding contains
from_runs-contains [] row = ground arith
from_runs-contains (r ∷ []) row = ground arith
from_runs-contains (r ∷ q ∷ runs) row = run_rows-mem (r ∷ q ∷ runs) row
