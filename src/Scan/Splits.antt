-- ===== src/Scan/Splits.antt =====
-- core/src/store/scan/read_plan.rs: ids grouped by the split of a file that holds them, and the
-- footprint that the reads by id are weighed with.
use vortex_rdf.Prelude.{
  ℕ, zero, suc, ◌+◌, ◌-◌, Bool, ◌||◌, List, [], ◌∷◌, Option, none, some, if◌then◌else◌, leb, ltb,
  length, take, drop,
}
use vortex_rdf.View.Selection.{Range, partition_point}
use vortex_rdf.View.Masks.{point_sized}
use vortex_rdf.Scan.Pieces.{saturating_mul}

-- `splits[idx..].partition_point(|s| s.end <= first)`, on the splits left.
unfoldable pub splits_before : ℕ → List Range → ℕ
splits_before first [] = 0
splits_before first (s ∷ splits) =
    let rest = splits_before first splits in if leb s.end first then suc rest else 0

unfoldable pub first_split : List Range → Option Range
first_split [] = none
first_split (s ∷ splits) = some s

-- How many of the ids left the first of the splits left holds: all of them behind the last split.
unfoldable pub held : List Range → List ℕ → ℕ
unfolding partition_point
held [] rest = length rest
held (s ∷ splits) rest = partition_point (λ id. ltb id s.end) rest

abbrev pub Group : Type 0
Group = Option Range × List ℕ

-- The iterator from the ids and the splits left; a group takes an id at least.
unfoldable pub next_groups : ℕ → List ℕ → List Range → List Group
unfolding splits_before first_split held
next_groups zero rest splits = []
next_groups (suc fuel) [] splits = []
next_groups (suc fuel) (first ∷ rest) splits =
    let left = drop (splits_before first splits) splits in
    let n = held left (first ∷ rest) in
    (first_split left, take n (first ∷ rest))
    ∷ next_groups fuel (drop n (first ∷ rest)) (drop 1 left)

unfoldable pub ids_by_split : List ℕ → List Range → List Group
unfolding next_groups
ids_by_split ids splits = next_groups (length ids) ids splits

pub record Footprint : Type 0 where
  pub ids : ℕ
  pub splits : ℕ
  pub rows : ℕ

-- `map_while` and `fold` of `Footprint::of`: the groups before the one that no split holds.
unfoldable pub touched : List Group → ℕ × ℕ
touched [] = (0, 0)
touched ((none, ids) ∷ groups) = (0, 0)
touched ((some s, ids) ∷ groups) =
    let rest = touched groups in (suc rest.0, (s.end - s.start) + rest.1)

unfoldable pub footprint_of : List ℕ → List Range → Footprint
unfolding ids_by_split touched
footprint_of xs ranges =
    let held_by = touched (ids_by_split xs ranges) in
    record { ids = length xs; splits = held_by.0; rows = held_by.1 }

unfoldable pub sparse : Footprint → ℕ → Bool
sparse f rows_per_id = leb (saturating_mul f.ids rows_per_id) f.rows

unfoldable pub few_per_split : Footprint → ℕ → Bool
few_per_split f per_split = leb f.ids (saturating_mul per_split f.splits)

-- `TAKE_ROWS` and `POINT_IDS_PER_SPLIT`.
abbrev pub take_rows : ℕ
take_rows = 16

abbrev pub point_ids_per_split : ℕ
point_ids_per_split = 16

unfoldable pub take_fits : Footprint → Bool
unfolding sparse
take_fits f = sparse f take_rows

unfoldable pub points_fit : Footprint → Bool
unfolding few_per_split
points_fit f = point_sized f.ids || few_per_split f point_ids_per_split
