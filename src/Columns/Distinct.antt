-- ===== src/Columns/Distinct.antt =====
-- core/src/columns/mod.rs, `distinct_first_seen` and `value_counts`: the distinct codes of a column
-- as they are first seen, and how often each occurs, by a table or by a hash map.
use vortex_rdf.Prelude.{
  ℕ, ◌+◌, ◌-◌, Bool, true, false, Option, none, some, List, [], ◌∷◌, ◌++◌, if◌then◌else◌, ◌==◌, max,
  length, get_or, replicate,
}
use vortex_rdf.Prelude.Arrays.{set}
use vortex_rdf.Columns.Join.{dense_table_fits, find_slot}

unfoldable pub fold_max : List ℕ → ℕ → ℕ
fold_max [] m = m
fold_max (c ∷ cs) m = fold_max cs (max m c)

unfoldable pub max_code : List ℕ → Option ℕ
unfolding fold_max
max_code [] = none
max_code (c ∷ cs) = some (fold_max cs c)

-- The pass with the table `seen`.
unfoldable pub dense_distinct : List Bool → List ℕ → List ℕ
dense_distinct seen [] = []
dense_distinct seen (c ∷ cs) =
    let hit = get_or seen c false in
    let rest = dense_distinct (if hit then seen else set seen c true) cs in
    if hit then rest else c ∷ rest

-- The hash set of the codes met, as their list.
unfoldable pub holds : List ℕ → ℕ → Bool
holds [] c = false
holds (d ∷ seen) c = let rest = holds seen c in if d == c then true else rest

unfoldable pub hashed_distinct : List ℕ → List ℕ → List ℕ
unfolding holds
hashed_distinct seen [] = []
hashed_distinct seen (c ∷ cs) =
    let hit = holds seen c in
    let rest = hashed_distinct (if hit then seen else c ∷ seen) cs in if hit then rest else c ∷ rest

unfoldable pub distinct_first_seen : List ℕ → List ℕ
unfolding max_code dense_distinct hashed_distinct dense_table_fits
distinct_first_seen codes = elim (max_code codes) [
  | none ↦ []
  | some top ↦
      if dense_table_fits top (length codes)
      then dense_distinct (replicate (top + 1) false) codes
      else hashed_distinct [] codes
]

-- The codes in the order first seen, and their counts.
abbrev pub Counts : Type 0
Counts = List ℕ × List ℕ

-- `counts[k] += 1`.
abbrev pub increment : List ℕ → ℕ → List ℕ
increment counts k = set counts k (get_or counts k 0 + 1)

-- The pass with the table of 1-based positions in `order`, 0 for a code not seen.
unfoldable pub dense_counts : List ℕ → Counts → List ℕ → Counts
dense_counts slot out [] = out
dense_counts slot out (c ∷ cs) =
    let s = get_or slot c 0 in
    dense_counts (if s == 0 then set slot c (length out.0 + 1) else slot)
      (if s == 0 then (out.0 ++ c ∷ [], out.1 ++ 1 ∷ []) else (out.0, increment out.1 (s - 1))) cs

-- The pass with the map of positions in `order`.
unfoldable pub hashed_counts : List (ℕ × ℕ) → Counts → List ℕ → Counts
unfolding find_slot
hashed_counts slot out [] = out
hashed_counts slot out (c ∷ cs) = elim (find_slot c slot) [
  | some i ↦ hashed_counts slot (out.0, increment out.1 i) cs
  | none ↦ hashed_counts ((c, length out.0) ∷ slot) (out.0 ++ c ∷ [], out.1 ++ 1 ∷ []) cs
]

unfoldable pub value_counts : List ℕ → Counts
unfolding max_code dense_counts hashed_counts dense_table_fits
value_counts codes = elim (max_code codes) [
  | none ↦ ([], [])
  | some top ↦
      if dense_table_fits top (length codes)
      then dense_counts (replicate (top + 1) 0) ([], []) codes
      else hashed_counts [] ([], []) codes
]
