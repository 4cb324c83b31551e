-- ===== src/View/Tests.antt =====
-- The selections of core/src/store/view/selection.rs on concrete rows, and each theorem at an
-- input.
use vortex_rdf.Prelude.{
  ℕ, ◌≤◌, ◌≡◌, refl, Bool, ◌&&◌, leb, [], ◌∷◌, some, List, max, take, drop, length, arith,
}
use vortex_rdf.View.Selection.{
  Range, span, all, range, ids, mem, filter, contains, intersect_range, intersect_ids,
  intersect_runs, narrow_to_ids, intersect_sorted_ids,
}
use vortex_rdf.View.Ascending.{IsRising}
use vortex_rdf.View.Restrict.{intersect_sorted_ids-mem}
use vortex_rdf.View.Narrow.{IsFormed, AreRuns, any_contains}
use vortex_rdf.View.Runs.{intersect_runs-contains}
use vortex_rdf.View.Formed.{narrowed-IsFormed}
use vortex_rdf.View.Window.{covered, filter_rows, live, window, window-covered}
use vortex_rdf.View.Split.{covered_all, split, split-covered}
use vortex_rdf.View.Kept.{narrow_to_ids-covered}

abbrev listed_ids : List ℕ
listed_ids = 1 ∷ 4 ∷ 5 ∷ 9 ∷ 12 ∷ 20 ∷ []

abbrev runs : List Range
runs = span 0 2 ∷ span 4 6 ∷ span 10 13 ∷ []

abbrev tombstones : ℕ → Bool
tombstones row = leb 2 row && leb row 3

run : Unit {0}
unfolding intersect_runs window split narrow_to_ids filter_rows filter intersect_range
run = tt

runs_of_list : intersect_runs (ids listed_ids) runs ≡ ids (1 ∷ 4 ∷ 5 ∷ 12 ∷ [])
unfolding run
runs_of_list = refl

live_window : window all 1 3 (some tombstones) 10 ≡ ids (1 ∷ 4 ∷ 5 ∷ [])
unfolding run
live_window = refl

pieces :
    split (range (span 5 12)) 3 10 ≡ range (span 5 7) ∷ range (span 7 9) ∷ range (span 9 10) ∷ []
unfolding run
pieces = refl

listed-IsRising : IsRising listed_ids
listed-IsRising = omega arith

runs-AreRuns : AreRuns 0 runs
runs-AreRuns = omega arith

intersect_sorted_ids-mem_example :
    mem 4 (intersect_sorted_ids listed_ids (4 ∷ 12 ∷ [])) ≡ mem 4 listed_ids && mem 4 (4 ∷ 12 ∷ [])
intersect_sorted_ids-mem_example =
    intersect_sorted_ids-mem listed_ids (4 ∷ 12 ∷ []) 4 listed-IsRising (omega arith)

intersect_runs-contains_example :
    contains (intersect_runs (ids listed_ids) runs) 5
    ≡ contains (ids listed_ids) 5 && any_contains runs 5
intersect_runs-contains_example =
    intersect_runs-contains (ids listed_ids) runs 5 listed-IsRising runs-AreRuns

narrowed-IsFormed_example :
    IsFormed (intersect_range (ids listed_ids) (span 4 10))
    × IsFormed (intersect_ids (ids listed_ids) (4 ∷ 12 ∷ []))
    × IsFormed (intersect_runs (ids listed_ids) runs)
narrowed-IsFormed_example =
    narrowed-IsFormed (ids listed_ids) (span 4 10) (4 ∷ 12 ∷ []) runs listed-IsRising (omega arith)
      (omega arith) runs-AreRuns

window-covered_example :
    covered (window (range (span 2 9)) 1 3 (some tombstones) 20) 20
    ≡ take 3 (drop 1 (filter_rows (range (span 2 9)) 20 (live (some tombstones))))
window-covered_example =
    window-covered (range (span 2 9)) 1 3 (some tombstones) 20 (omega arith) (omega arith)

split-covered_example :
    (covered_all (split (range (span 5 12)) 3 10) 10 ≡ covered (range (span 5 12)) 10)
    × (length (split (range (span 5 12)) 3 10) ≤ max 3 1)
split-covered_example = split-covered (range (span 5 12)) 3 10 (omega arith) (omega arith)

narrow_to_ids-covered_example :
    let rows = covered (range (span 5 12)) 20 in
    let kept = filter (leb 8) rows in
    covered (narrow_to_ids (range (span 5 12)) kept (length rows)) 20 ≡ kept
narrow_to_ids-covered_example = narrow_to_ids-covered (range (span 5 12)) 20 (leb 8) (omega arith)
