-- ===== src/View/Formed.antt =====
-- core/src/store/view/selection.rs: a narrowed selection's ids ascend, each once.
use mathlib.Core.List.{append-nil}
use vortex_rdf.Prelude.{
  ℕ, zero, suc, ◌-◌, ◌≤◌, ◌<◌, subst, inl, inr, List, [], ◌∷◌, ◌++◌, arith, tests, Bool-cases, ltb,
  range_from, min, max,
}
use vortex_rdf.View.Selection.{
  u64_max, Range, RowSelection, all, range, ids, clip, run_rows, rows_of, from_runs, window_ids,
  from_windows, run_windows, slice, range_contains, intersect_range, intersect_ids, intersect_runs,
}
use vortex_rdf.View.Ascending.{AllOver, IsRising, IsRising-filter}
use vortex_rdf.View.Restrict.{restrict_ids-eq-filter, intersect_sorted_ids-IsRising}
use vortex_rdf.View.Narrow.{IsFormed, AreRuns, any_contains}
use vortex_rdf.View.Runs.{window_ids-eq-filter}
use vortex_rdf.View.Kept.{AllUnder, range_from-AllUnder, range_from-IsRising}

abbrev AllFrom : ℕ → List ℕ → Type 0
AllFrom a [] = Unit {0}
AllFrom a (x ∷ xs) = (a ≤ x) × AllFrom a xs

AllFrom-widen : (a b : ℕ) (xs : List ℕ) → a ≤ b → AllFrom b xs → AllFrom a xs
AllFrom-widen a b [] p h = tt
AllFrom-widen a b (x ∷ xs) p h = (omega (arith, h.0), AllFrom-widen a b xs p h.1)

AllFrom-AllOver : (a b : ℕ) (xs : List ℕ) → a < b → AllFrom b xs → AllOver a xs
AllFrom-AllOver a b [] p h = tt
AllFrom-AllOver a b (x ∷ xs) p h = (omega (arith, h.0), AllFrom-AllOver a b xs p h.1)

AllOver-append : (a : ℕ) (xs ys : List ℕ) → AllOver a xs → AllOver a ys → AllOver a (xs ++ ys)
AllOver-append a [] ys p q = q
AllOver-append a (x ∷ xs) ys p q = (p.0, AllOver-append a xs ys p.1 q)

AllFrom-append : (a : ℕ) (xs ys : List ℕ) → AllFrom a xs → AllFrom a ys → AllFrom a (xs ++ ys)
AllFrom-append a [] ys p q = q
AllFrom-append a (x ∷ xs) ys p q = (p.0, AllFrom-append a xs ys p.1 q)

IsRising-append :
    (bound : ℕ) (xs ys : List ℕ)
    → IsRising xs
    → AllUnder bound xs
    → IsRising ys
    → AllFrom bound ys
    → IsRising (xs ++ ys)
IsRising-append bound [] ys p u q f = q
IsRising-append bound (x ∷ xs) ys p u q f = (
  AllOver-append x xs ys p.0 (AllFrom-AllOver x bound ys u.0 f),
  IsRising-append bound xs ys p.1 u.1 q f,
)

range_from-AllFrom : (a b n : ℕ) → a ≤ b → AllFrom a (range_from b n)
range_from-AllFrom a b zero h = tt
range_from-AllFrom a b (suc n) h = (h, range_from-AllFrom a (suc b) n (omega arith))

AreRuns-widen : (a b : ℕ) (runs : List Range) → a ≤ b → AreRuns b runs → AreRuns a runs
AreRuns-widen a b [] p h = tt
AreRuns-widen a b (r ∷ runs) p h = (omega (arith, h.0), h.1, h.2, h.3)

clip-AreRuns :
    (within : Range) (runs : List Range) (from : ℕ)
    → AreRuns from runs
    → AreRuns from (clip within runs)
unfolding clip
clip-AreRuns within [] from h = tt
clip-AreRuns within (r ∷ runs) from h =
    let start = max r.start within.start in
    let end = min r.end within.end in
    elim (Bool-cases (ltb start end)) [
      | inl rows ↦ rw rows (
        omega (arith, h.0),
        omega tests,
        omega (arith, h.2),
        AreRuns-widen end r.end (clip within runs) (omega arith)
            (clip-AreRuns within runs r.end h.3),
      )
      | inr no_rows ↦ rw no_rows (
          AreRuns-widen from r.end (clip within runs) (omega (arith, h.0, h.1))
            (clip-AreRuns within runs r.end h.3))
    ]

run_rows-AllFrom : (runs : List Range) (from : ℕ) → AreRuns from runs → AllFrom from (run_rows runs)
run_rows-AllFrom [] from h = tt
run_rows-AllFrom (r ∷ runs) from h =
    AllFrom-append from (rows_of r) (run_rows runs)
      (range_from-AllFrom from r.start (r.end - r.start) h.0)
      (AllFrom-widen from r.end (run_rows runs) (omega (arith, h.0, h.1))
        (run_rows-AllFrom runs r.end h.3))

run_rows-IsRising : (runs : List Range) (from : ℕ) → AreRuns from runs → IsRising (run_rows runs)
run_rows-IsRising [] from h = tt
run_rows-IsRising (r ∷ runs) from h =
    IsRising-append r.end (rows_of r) (run_rows runs)
      (range_from-IsRising r.start (r.end - r.start))
      (range_from-AllUnder r.start (r.end - r.start) r.end (omega (arith, h.1)))
      (run_rows-IsRising runs r.end h.3) (run_rows-AllFrom runs r.end h.3)

from_runs-IsFormed : (runs : List Range) (from : ℕ) → AreRuns from runs → IsFormed (from_runs runs)
from_runs-IsFormed [] from h = omega arith
from_runs-IsFormed (r ∷ []) from h = h.1
from_runs-IsFormed (r ∷ q ∷ runs) from h = run_rows-IsRising (r ∷ q ∷ runs) from h

from_windows-IsFormed :
    (xs : List ℕ) (windows : List Range)
    → IsRising (window_ids xs windows)
    → IsFormed (from_windows xs windows)
from_windows-IsFormed xs [] h = omega arith
from_windows-IsFormed xs (w ∷ []) h = subst IsRising (append-nil (slice xs w.start w.end)) h
from_windows-IsFormed xs (w ∷ v ∷ windows) h = h

intersect_range-IsFormed :
    (s : RowSelection) (r : Range) → IsFormed s → r.start ≤ r.end → IsFormed (intersect_range s r)
unfolding intersect_range
intersect_range-IsFormed all r h order = order
intersect_range-IsFormed (range current) r h order = omega arith
intersect_range-IsFormed (ids xs) r h order =
    rw (restrict_ids-eq-filter r order xs h) (IsRising-filter (range_contains r) xs h)

intersect_ids-IsFormed :
    (s : RowSelection) (xs : List ℕ) → IsFormed s → IsRising xs → IsFormed (intersect_ids s xs)
unfolding intersect_ids
intersect_ids-IsFormed all xs h up = up
intersect_ids-IsFormed (range r) xs h up =
    rw (restrict_ids-eq-filter r h xs up) (IsRising-filter (range_contains r) xs up)
intersect_ids-IsFormed (ids current) xs h up = intersect_sorted_ids-IsRising current xs h up

intersect_runs-IsFormed :
    (s : RowSelection) (runs : List Range)
    → IsFormed s
    → AreRuns 0 runs
    → IsFormed (intersect_runs s runs)
unfolding intersect_runs
intersect_runs-IsFormed all runs h are =
    from_runs-IsFormed _ 0 (clip-AreRuns (record { start = 0; end = u64_max }) runs 0 are)
intersect_runs-IsFormed (range r) runs h are = from_runs-IsFormed _ 0 (clip-AreRuns r runs 0 are)
intersect_runs-IsFormed (ids xs) runs h are =
    from_windows-IsFormed xs (run_windows xs 0 runs)
      (rw (window_ids-eq-filter xs runs are h) (IsRising-filter (any_contains runs) xs h))

-- Narrowed to an ordered range, to ascending, unique ids or to ascending, disjoint runs, a
-- well-formed selection stays well formed: its ids ascend, each once, or its range does not end
-- before it starts.
pub narrowed-IsFormed :
    (s : RowSelection) (r : Range) (xs : List ℕ) (runs : List Range)
    → IsFormed s
    → r.start ≤ r.end
    → IsRising xs
    → AreRuns 0 runs
    → IsFormed (intersect_range s r)
      × IsFormed (intersect_ids s xs)
      × IsFormed (intersect_runs s runs)
narrowed-IsFormed s r xs runs formed order up are = (
  intersect_range-IsFormed s r formed order,
  intersect_ids-IsFormed s xs formed up,
  intersect_runs-IsFormed s runs formed are,
)
