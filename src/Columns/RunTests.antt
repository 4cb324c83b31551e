-- ===== src/Columns/RunTests.antt =====
-- `run_starts` of core/src/columns/mod.rs on concrete columns, and each theorem at an input.
use vortex_rdf.Prelude.{ℕ, ◌≡◌, refl, [], ◌∷◌, none, some, List}
use vortex_rdf.Columns.RunStarts.{run_starts, AreStarts, run_starts-AreStarts}

abbrev subjects : List ℕ
subjects = 5 ∷ 5 ∷ 6 ∷ 6 ∷ []

abbrev objects : List ℕ
objects = 1 ∷ 1 ∷ 1 ∷ 2 ∷ []

runs : run_starts (subjects ∷ objects ∷ []) ≡ some (0 ∷ 2 ∷ 3 ∷ [])
unfolding run_starts
runs = refl

uneven_columns : run_starts (subjects ∷ (1 ∷ []) ∷ []) ≡ none
unfolding run_starts
uneven_columns = refl

run_starts-AreStarts_example :
    AreStarts (subjects ∷ objects ∷ []) 4 (run_starts (subjects ∷ objects ∷ []))
run_starts-AreStarts_example = run_starts-AreStarts subjects (objects ∷ [])
