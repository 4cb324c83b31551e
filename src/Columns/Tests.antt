-- ===== src/Columns/Tests.antt =====
-- The kernels of core/src/columns on concrete columns, and each theorem at an input.
use vortex_rdf.Prelude.{ℕ, ◌≡◌, refl, [], ◌∷◌, ◌++◌, map, none, some, List, min, get_or, arith}
use vortex_rdf.Search.Sinks.{matches, count_words}
use vortex_rdf.Columns.Groups.{build, group_rows, group_count}
use vortex_rdf.Columns.Starts.{AllBelow}
use vortex_rdf.Columns.Grouped.{group_rows-build}
use vortex_rdf.Columns.Join.{
  u64_mod, usize_max, ok, refused, rows_for, code_groups, equi_join_indices, join_count, ◌>>◌,
  within_cap,
}
use vortex_rdf.Columns.Rows.{pair_count}
use vortex_rdf.Columns.Nested.{nested_loop, nested_left, nested_right}
use vortex_rdf.Columns.Distinct.{distinct_first_seen, value_counts}
use vortex_rdf.Columns.FirstSeen.{first_seen, distinct_first_seen-eq-first_seen}
use vortex_rdf.Columns.Counts.{value_counts-eq-counted}
use vortex_rdf.Columns.Gather.{take_at, gather, all_parallel, gather-eq-nested}
use vortex_rdf.Columns.Equi.{equi_join_indices-eq-nested_loop, join_count-eq-pair_count}

abbrev left_codes : List ℕ
left_codes = 3 ∷ 1 ∷ 9 ∷ 1 ∷ []

abbrev right_codes : List ℕ
right_codes = 1 ∷ 3 ∷ 1 ∷ 2 ∷ []

-- A span past every table, which the hashed index takes.
abbrev wide_codes : List ℕ
wide_codes = 1 ∷ 4_294_967_303 ∷ 1 ∷ []

run : Unit {0}
unfolding equi_join_indices join_count code_groups rows_for build group_rows group_count
run = tt

probed :
    equi_join_indices left_codes right_codes (some 5)
    ≡ ok (0 ∷ 1 ∷ 1 ∷ 3 ∷ 3 ∷ [], 1 ∷ 0 ∷ 2 ∷ 0 ∷ 2 ∷ [])
unfolding run
probed = refl

past_cap : equi_join_indices left_codes right_codes (some 4) ≡ refused 5
unfolding run
past_cap = refl

hashed_rows : rows_for (code_groups wide_codes) 1 ≡ 0 ∷ 2 ∷ []
unfolding run
hashed_rows = refl

merged :
    equi_join_indices (1 ∷ 1 ∷ 4 ∷ []) (0 ∷ 1 ∷ 1 ∷ 4 ∷ []) none
    ≡ ok (0 ∷ 0 ∷ 1 ∷ 1 ∷ 2 ∷ [], 1 ∷ 2 ∷ 1 ∷ 2 ∷ 3 ∷ [])
unfolding run
merged = refl

left-AllBelow : AllBelow u64_mod left_codes
left-AllBelow = omega arith

right-AllBelow : AllBelow u64_mod right_codes
right-AllBelow = omega arith

group_rows-build_example : group_rows (build 4 right_codes) 1 ≡ matches 0 right_codes 1
group_rows-build_example = group_rows-build 4 right_codes (omega arith) 1 (omega arith)

equi_join_indices-eq-nested_loop_example :
    equi_join_indices left_codes right_codes (some 4) ≡ nested_loop left_codes right_codes (some 4)
equi_join_indices-eq-nested_loop_example =
    equi_join_indices-eq-nested_loop left_codes right_codes left-AllBelow right-AllBelow (some 4)

join_count-eq-pair_count_example :
    join_count left_codes right_codes ≡ min (pair_count left_codes right_codes) usize_max
join_count-eq-pair_count_example =
    join_count-eq-pair_count left_codes right_codes left-AllBelow right-AllBelow

distinct_and_counted :
    (distinct_first_seen (5 ∷ 3 ∷ 5 ∷ 9 ∷ 3 ∷ []) ≡ 5 ∷ 3 ∷ 9 ∷ [])
    × (value_counts (7 ∷ 4_294_967_303 ∷ 4_294_967_303 ∷ []) ≡ (7 ∷ 4_294_967_303 ∷ [], 1 ∷ 2 ∷ []))
unfolding distinct_first_seen value_counts
distinct_and_counted = (refl, refl)

taken : take_at (4 ∷ 5 ∷ 6 ∷ []) (2 ∷ 0 ∷ []) ≡ ok (6 ∷ 4 ∷ [])
unfolding take_at
taken = refl

taken_past : take_at (4 ∷ 5 ∷ 6 ∷ []) (2 ∷ 3 ∷ []) ≡ refused 1
unfolding take_at
taken_past = refl

value_counts-eq-counted_example :
    let codes : List ℕ = 5 ∷ 3 ∷ 5 ∷ [] in
    value_counts codes ≡ (first_seen [] codes, map (count_words codes) (first_seen [] codes))
value_counts-eq-counted_example = value_counts-eq-counted (5 ∷ 3 ∷ 5 ∷ [])

distinct_first_seen-eq-first_seen_example :
    distinct_first_seen (5 ∷ 3 ∷ 5 ∷ []) ≡ first_seen [] (5 ∷ 3 ∷ 5 ∷ [])
distinct_first_seen-eq-first_seen_example = distinct_first_seen-eq-first_seen (5 ∷ 3 ∷ 5 ∷ [])

gather-eq-nested_example :
    let subjects : List ℕ = 40 ∷ 41 ∷ 42 ∷ 43 ∷ [] in
    let objects : List ℕ = 70 ∷ 71 ∷ 72 ∷ 73 ∷ [] in
    gather (code_groups right_codes) left_codes (subjects ∷ []) (objects ∷ []) none
    ≡ some (do
      within_cap (min (pair_count left_codes right_codes) usize_max) none
      ok (
          map
            (λ column. map (λ i. get_or column i 0) (nested_left 0 left_codes right_codes))
            (subjects ∷ [])
          ++ map
              (λ column. map (λ i. get_or column i 0) (nested_right 0 left_codes right_codes))
              (objects ∷ [])))
unfolding run all_parallel
gather-eq-nested_example =
    gather-eq-nested right_codes right-AllBelow left_codes ((40 ∷ 41 ∷ 42 ∷ 43 ∷ []) ∷ [])
      ((70 ∷ 71 ∷ 72 ∷ 73 ∷ []) ∷ []) none left-AllBelow refl refl
