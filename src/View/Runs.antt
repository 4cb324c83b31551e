-- ===== src/View/Runs.antt =====
-- core/src/store/view/selection.rs, `intersect_runs` on an id list: the windows of ascending runs,
-- each searched from where the last one ended.
use mathlib.Core.List.{append-nil}
use vortex_rdf.Prelude.{
  ℕ, ◌+◌, ◌-◌, ◌≤◌, ◌<◌, ◌≡◌, refl, sym, ap, ◌∙◌, Bool, true, false, ◌&&◌, inl, inr, List, [], ◌∷◌,
  ◌++◌, arith, tests, Bool-cases, ltb, ltb→lt, ltb→le, drop, take, drop-drop,
}
use vortex_rdf.View.Selection.{
  u64_max, Range, span, RowSelection, all, range, ids, range_contains, mem, filter, partition_point,
  slice, clip, run_windows, window_ids, from_windows, contains, intersect_runs,
}
use vortex_rdf.View.Ascending.{IsRising, mem-filter, filter-hit, filter-miss, filter-from}
use vortex_rdf.View.Narrow.{
  IsFormed, any_contains, AreRuns, any_contains-before, clip-contains, from_runs-contains,
}

-- The windows' ids, the rest of the list in hand: each run's stretch, and the runs behind it in
-- what is left.
abbrev after : ℕ → List ℕ → List ℕ
after bound xs = drop (partition_point (λ id. ltb id bound) xs) xs

abbrev until : ℕ → List ℕ → List ℕ
until bound xs = take (partition_point (λ id. ltb id bound) xs) xs

unfoldable stretches : List ℕ → List Range → List ℕ
unfolding partition_point
stretches xs [] = []
stretches xs (r ∷ runs) =
    until r.end (after r.start xs) ++ stretches (after r.end (after r.start xs)) runs

window_ids-eq-stretches :
    (xs : List ℕ) (runs : List Range) (from : ℕ)
    → window_ids xs (run_windows xs from runs) ≡ stretches (drop from xs) runs
unfolding run_windows stretches
window_ids-eq-stretches xs [] from = refl
window_ids-eq-stretches xs (r ∷ runs) from =
    let l = partition_point (λ id. ltb id r.start) (drop from xs) in
    let lo = from + l in
    let h = partition_point (λ id. ltb id r.end) (drop lo xs) in
    let hi = lo + h in
    let front : drop lo xs ≡ after r.start (drop from xs) = drop-drop from l xs in
    let back : drop hi xs ≡ after r.end (after r.start (drop from xs)) =
      drop-drop lo h xs ∙ ap (after r.end) front in
    let ih = window_ids-eq-stretches xs runs hi ∙ ap (λ ys. stretches ys runs) back in
    let w : hi - lo ≡ h = omega arith in
    let here : slice xs lo hi ≡ until r.end (after r.start (drop from xs)) =
      ap (λ n. take n (drop lo xs)) w ∙ ap (until r.end) front in
    elim (Bool-cases (ltb lo hi)) [
      | inl some_ids ↦ rw some_ids (λ i. here i ++ ih i)
      | inr no_ids ↦
          let z : hi - lo ≡ 0 = omega tests in
          let gone : until r.end (after r.start (drop from xs)) ≡ [] =
            sym here ∙ ap (λ n. take n (drop lo xs)) z in
          rw no_ids
            (ih ∙ λ i. sym gone i ++ stretches (after r.end (after r.start (drop from xs))) runs)
    ]

-- One run of the list, the runs behind it already known to keep what they hold.
module _ (r : Range) (runs : List Range) (order : r.start ≤ r.end) (behind : AreRuns r.end runs)
    (rest : (ys : List ℕ) → IsRising ys → stretches ys runs ≡ filter (any_contains runs) ys) where
  abbrev keep : ℕ → Bool
  keep = any_contains (r ∷ runs)

  filter_nil : filter (any_contains runs) [] ≡ filter keep []
  unfolding filter
  filter_nil = refl

  -- Past the start of the run.
  reached :
      (x : ℕ) (xs : List ℕ)
      → IsRising (x ∷ xs)
      → r.start ≤ x
      → until r.end (x ∷ xs) ++ stretches (after r.end (x ∷ xs)) runs ≡ filter keep (x ∷ xs)
  unfolding partition_point
  reached x [] up p = elim (Bool-cases (ltb x r.end)) [
    | inl inside ↦
        let hit : keep x ≡ true = ground (arith, inside) in
        rw inside (ap (λ ys. x ∷ ys) (rest [] tt ∙ filter_nil) ∙ sym (filter-hit keep x [] hit))
    | inr past ↦
        let e : r.end ≤ x = ltb→le x r.end past in
        let same : (z : ℕ) → x ≤ z → any_contains runs z ≡ keep z = λ z h. ground (arith, h, e) in
        rw past (rest (x ∷ []) up ∙ filter-from (any_contains runs) keep x [] tt same)
  ]
  reached x (y ∷ xs) up p = elim (Bool-cases (ltb x r.end)) [
    | inl inside ↦
        let hit : keep x ≡ true = ground (arith, inside) in
        rw inside (
          ap (λ ys. x ∷ ys) (reached y xs up.1 (omega (arith, up.0)))
          ∙ sym (filter-hit keep x (y ∷ xs) hit))
    | inr past ↦
        let e : r.end ≤ x = ltb→le x r.end past in
        let same : (z : ℕ) → x ≤ z → any_contains runs z ≡ keep z = λ z h. ground (arith, h, e) in
        rw past (rest (x ∷ y ∷ xs) up ∙ filter-from (any_contains runs) keep x (y ∷ xs) up.0 same)
  ]

  stretch-eq-filter : (xs : List ℕ) → IsRising xs → stretches xs (r ∷ runs) ≡ filter keep xs
  unfolding stretches partition_point
  stretch-eq-filter [] up = rest [] tt ∙ filter_nil
  stretch-eq-filter (x ∷ xs) up = elim (Bool-cases (ltb x r.start)) [
    | inl before ↦
        let lt : x < r.start = ltb→lt x r.start before in
        let none_behind = any_contains-before runs r.end x behind (omega arith) in
        let miss : keep x ≡ false = ground (arith, none_behind, lt) in
        rw before (stretch-eq-filter xs up.1 ∙ sym (filter-miss keep x xs miss))
    | inr over ↦ rw over (reached x xs up (ltb→le x r.start over))
  ]

stretches-eq-filter :
    (runs : List Range) (from : ℕ) (xs : List ℕ)
    → AreRuns from runs
    → IsRising xs
    → stretches xs runs ≡ filter (any_contains runs) xs
unfolding stretches filter
stretches-eq-filter [] from [] h up = refl
stretches-eq-filter [] from (x ∷ xs) h up = stretches-eq-filter [] from xs h up.1
stretches-eq-filter (r ∷ runs) from xs h up =
    stretch-eq-filter r runs h.1 h.3 (λ ys asc. stretches-eq-filter runs r.end ys h.3 asc) xs up

-- The windows hold the ids of the list that some run holds.
pub window_ids-eq-filter :
    (xs : List ℕ) (runs : List Range)
    → AreRuns 0 runs
    → IsRising xs
    → window_ids xs (run_windows xs 0 runs) ≡ filter (any_contains runs) xs
window_ids-eq-filter xs runs h up =
    window_ids-eq-stretches xs runs 0 ∙ stretches-eq-filter runs 0 xs h up

from_windows-contains :
    (xs : List ℕ) (windows : List Range) (row : ℕ)
    → contains (from_windows xs windows) row ≡ mem row (window_ids xs windows)
unfolding contains mem
from_windows-contains xs [] row = ground arith
from_windows-contains xs (w ∷ []) row = ap (mem row) (sym (append-nil (slice xs w.start w.end)))
from_windows-contains xs (w ∷ v ∷ windows) row = refl

-- A well-formed selection narrowed to ascending, disjoint runs covers exactly the rows in some run
-- that it covered.
pub intersect_runs-contains :
    (s : RowSelection) (runs : List Range) (row : ℕ)
    → IsFormed s
    → AreRuns 0 runs
    → contains (intersect_runs s runs) row ≡ contains s row && any_contains runs row
unfolding contains intersect_runs
intersect_runs-contains all runs row formed h =
    from_runs-contains (clip (span 0 u64_max) runs) row
    ∙ clip-contains (span 0 u64_max) runs row
    ∙ below_max runs 0 row h
  where
    below_max :
        (rs : List Range) (from id : ℕ)
        → AreRuns from rs
        → range_contains (span 0 u64_max) id && any_contains rs id ≡ any_contains rs id
    below_max [] from id a = ground arith
    below_max (r ∷ rs) from id a = let ih = below_max rs r.end id a.3 in ground (arith, ih, a.2)
intersect_runs-contains (range r) runs row formed h =
    from_runs-contains (clip r runs) row ∙ clip-contains r runs row
intersect_runs-contains (ids xs) runs row formed h =
    from_windows-contains xs (run_windows xs 0 runs) row
    ∙ ap (mem row) (window_ids-eq-filter xs runs h formed)
    ∙ mem-filter (any_contains runs) row xs
