-- ===== src/Zones/Tests.antt =====
-- Zone statistics on small columns.
use vortex_rdf.Prelude.{
  ℕ, zero, suc, ◌+◌, ◌<◌, ◌≤◌, ◌≡◌, ◌≢◌, refl, false, List, [], ◌∷◌, map, none, some, arith, inr,
  length, range_from, take, drop,
}
use vortex_rdf.Prelude.Fallible.{ok}
use vortex_rdf.Search.Sinks.{count_words}
use vortex_rdf.Zones.Counts.{
  Pairs, values, new, add_all, recorded, to_scalar, merge_partials, pairs,
}
use vortex_rdf.Zones.Places.{count_at, IsAscending, AllCounted, Represents}
use vortex_rdf.Zones.Counted.{add_all-Represents, merge_partials-Represents}
use vortex_rdf.Zones.ZoneMap.{
  column_bounds, with_recorded, with_records, eq_holds, least, greatest, ColumnZones,
  recorded_count, zones, zone_bounds, zone_rows,
}
use vortex_rdf.Zones.Builder.{recording, fold_column, finish}
use vortex_rdf.Zones.Described.{zone_slice, bounds_of, Describes, recorded_of-IsRecord}
use vortex_rdf.Zones.Gathered.{concat, count_words-le}
use vortex_rdf.Zones.Built.{column-Describes}
use vortex_rdf.Zones.Checks.{
  ZoneSet, ZoneClass, no_row, every_row, mixed, class, parts, recorded_in, checks, only_bounds,
  new_set,
}
use vortex_rdf.Zones.Recorded.{AllStand, with_recorded-with_records}
use vortex_rdf.Zones.Walk.{AllDescribe}
use vortex_rdf.Zones.Classes.{Says, class-Says}
use vortex_rdf.Zones.Decided.{Settles, eq_holds-Settles}
use vortex_rdf.Zones.Parts.{covered, parts-covered, asked_of, recorded_in-count}

-- `records_each_value_with_its_count`, `records_up_to_max_values`, `merges_partials` and
-- `decodes_only_well_formed_states`.
counts_example :
    recorded (add_all new (5 ∷ 5 ∷ 3 ∷ 9 ∷ 3 ∷ 3 ∷ []) 16) ≡ some ((3, 3) ∷ (5, 2) ∷ (9, 1) ∷ [])
unfolding add_all recorded
counts_example = refl

sixteen_example : recorded (add_all new (range_from 0 17) 16) ≡ none
unfolding add_all recorded
sixteen_example = refl

merged_example :
    merge_partials (values ((1, 1) ∷ (2, 2) ∷ [])) (values ((2, 1) ∷ (3, 1) ∷ [])) 16
    ≡ values ((1, 1) ∷ (2, 3) ∷ (3, 1) ∷ [])
unfolding merge_partials
merged_example = refl

unsorted_example : pairs (3 ∷ 1 ∷ []) (2 ∷ 5 ∷ []) ≡ none
unfolding pairs
unsorted_example = refl

abbrev few : Pairs
few = (3, 1) ∷ (5, 2) ∷ []

few-Represents : Represents 2 (λ x. count_at x few) (values few)
unfolding Represents IsAscending AllCounted count_at
few-Represents =
    ((omega arith, (omega arith, tt)), (omega arith, (omega arith, tt)), omega arith, λ x. refl)

few_of_16 : Represents 16 (λ x. count_at x few) (values few)
unfolding Represents IsAscending AllCounted count_at
few_of_16 =
    ((omega arith, (omega arith, tt)), (omega arith, (omega arith, tt)), omega arith, λ x. refl)

few_small : (x : ℕ) → count_at x few ≤ 3
unfolding count_at
few_small x = ground arith

add_all-Represents_example :
    Represents 2
      (λ x. count_at x few + count_words (5 ∷ 5 ∷ 9 ∷ []) x)
      (add_all (values few) (5 ∷ 5 ∷ 9 ∷ []) 2)
add_all-Represents_example =
    add_all-Represents 2 (λ x. count_at x few) (values few) (5 ∷ 5 ∷ 9 ∷ [])
      (λ x. omega (arith, few_small x, count_words-le (5 ∷ 5 ∷ 9 ∷ []) x)) few-Represents

merge_partials-Represents_example :
    Represents 2 (λ x. count_at x few + count_at x few) (merge_partials (values few) (values few) 2)
merge_partials-Represents_example =
    merge_partials-Represents 2 (λ x. count_at x few) (λ x. count_at x few) (values few)
      (values few) (λ x. omega (arith, few_small x)) few-Represents few-Represents

column-Describes_example :
    (z : ColumnZones) × (finish
        (fold_column recording ((5 ∷ 5 ∷ []) ∷ (3 ∷ []) ∷ []))
        (length (concat ((5 ∷ 5 ∷ []) ∷ (3 ∷ []) ∷ [])))
      ≡ ok (some z))
    × Describes (concat ((5 ∷ 5 ∷ []) ∷ (3 ∷ []) ∷ [])) z
column-Describes_example =
    column-Describes ((5 ∷ 5 ∷ []) ∷ (3 ∷ []) ∷ []) recording (inr refl)
      (unfold concat in omega arith)

-- The codes 5, 5, 3 and 7, 7, in zones of three rows; the first has a record.
abbrev codes : List ℕ
codes = 5 ∷ 5 ∷ 3 ∷ 7 ∷ 7 ∷ []

abbrev map_of_codes : ColumnZones
map_of_codes = record {
  mins = 3 ∷ 7 ∷ [];
  maxes = 5 ∷ 7 ∷ [];
  bounds = some (3, 7);
  recorded = some (some few ∷ none ∷ []);
  zone_len = 3;
  row_count = 5;
}

few_of_codes : (x : ℕ) → count_at x few ≡ count_words (5 ∷ 5 ∷ 3 ∷ []) x
unfolding count_at count_words
few_of_codes x = ground arith

codes-Describes : Describes codes map_of_codes
unfolding Describes column_bounds zone_bounds zones recorded_count zone_slice least greatest
    IsAscending
codes-Describes = (refl, refl, at)
  where
    at :
        (zone : ℕ)
        → zone < zones map_of_codes
        → (zone_bounds map_of_codes zone ≡ bounds_of (zone_slice map_of_codes zone codes))
          × ((code n : ℕ)
              → recorded_count map_of_codes zone code ≡ some n
              → n ≡ count_words (zone_slice map_of_codes zone codes) code)
    at zero h = (
      refl,
      λ code n e.
          recorded_of-IsRecord (5 ∷ 5 ∷ 3 ∷ []) (some few) code n
            ((omega arith, (omega arith, tt)), few_of_codes) e,
    )
    at (suc zero) h = (refl, λ code n e. recorded_of-IsRecord (7 ∷ 7 ∷ []) none code n tt e)
    at (suc (suc k)) h = absurd (omega arith)

-- Checks of 4, which the record lacks, and of 7, which the second zone is of.
abbrev check : ℕ → ZoneSet
check code = record {
  first = record { bit = 2; code = code; zones = map_of_codes };
  others = [];
  unzoned = 0;
  bounds_only = false;
}

class_examples :
    ◌≡◌ {A = List ZoneClass}
      (class (check 4) 0
        ∷ class (check 7) 1
        ∷ class (check 5) 0
        ∷ class (only_bounds (check 4)) 0
        ∷ [])
      (no_row ∷ every_row ∷ mixed 4 ∷ mixed 4 ∷ [])
unfolding class only_bounds
class_examples = refl

check-AllDescribe : (code : ℕ) → AllDescribe (checks (check code)) (codes ∷ [])
unfolding AllDescribe
check-AllDescribe code = (codes-Describes, tt)

eq_holds-Settles_example :
    Settles
      (eq_holds map_of_codes 0 5)
      (zone_slice map_of_codes 0 codes)
      (recorded_count map_of_codes 0 5)
      5
unfolding zones zone_slice
eq_holds-Settles_example =
    eq_holds-Settles codes map_of_codes 0 5 codes-Describes (omega arith) (omega arith)
      (omega arith)

check-taken : (code : ℕ) → new_set (checks (check code)) 0 ≢ none
unfolding new_set
check-taken code e = ground arith

class-Says_example : Says (class (check 4) 0) (check 4) (codes ∷ []) 0 2
unfolding zone_rows zones
class-Says_example =
    class-Says (check 4) (codes ∷ []) 0 2 (check-taken 4) (check-AllDescribe 4) (omega arith)
      (omega arith, omega arith)

parts-covered_example : covered (parts (check 4) (1, 9)) ≡ range_from 1 4
parts-covered_example = parts-covered (check 4) 1 9 (omega arith)

recorded_in-count_example : 2 ≡ count_words (take 3 (drop 0 codes)) 5
unfolding zones recorded_in asked_of
recorded_in-count_example =
    recorded_in-count (check 5) (codes ∷ []) 2 2 (record { zone = 0; rows = (0, 3) })
      (check-taken 5) (check-AllDescribe 5) (omega arith) refl

both-AllStand : AllStand map_of_codes codes 0 (values few ∷ values ((7, 2) ∷ []) ∷ [])
unfolding AllStand Represents IsAscending AllCounted zone_slice zone_rows
both-AllStand = (
  ((omega arith, (omega arith, tt)), (omega arith, (omega arith, tt)), omega arith, few_of_codes),
  (((omega arith, tt), (omega arith, tt), omega arith, two_of_codes), tt),
)
  where
    two_of_codes : (x : ℕ) → count_at x ((7, 2) ∷ []) ≡ count_words (7 ∷ 7 ∷ []) x
    two_of_codes x = unfold count_at count_words in ground arith

with_recorded-with_records_example :
    with_recorded map_of_codes (map to_scalar (values few ∷ values ((7, 2) ∷ []) ∷ []))
    ≡ with_records map_of_codes (map recorded (values few ∷ values ((7, 2) ∷ []) ∷ []))
with_recorded-with_records_example =
    with_recorded-with_records map_of_codes codes refl (values few ∷ values ((7, 2) ∷ []) ∷ [])
      both-AllStand
