-- ===== src/Zones/ZoneMap.antt =====
-- core/src/zone_stats/zone_map.rs: `ColumnZones`, the zone map of a code column, and how a zone
-- stands against `x = code`. Counts of zones and rows are numbers, `u64` and `usize` alike.
use vortex_rdf.Prelude.{
  ℕ, zero, suc, ◌+◌, ◌-◌, ◌*◌, ◌/◌, Bool, true, false, ◌&&◌, ◌||◌, not, List, [], ◌∷◌, Option, none,
  some, if◌then◌else◌, ltb, ◌==◌, min, max, length, get_or, get_elem?,
}
use vortex_rdf.Prelude.Fallible.{Result, ok, err}
use vortex_rdf.Zones.Counts.{
  Pairs, Place, found, missing, binary_search_by_key, State, decode_state,
}

-- `ZONE_ROWS`.
abbrev pub zone_rows_max : ℕ
zone_rows_max = 8192

-- The pairs that each zone recorded, or nothing for a zone of too many values.
abbrev pub RecordedZones : Type 0
RecordedZones = List (Option Pairs)

pub record ColumnZones : Type 0 where
  pub mins : List ℕ
  pub maxes : List ℕ
  pub bounds : Option (ℕ × ℕ)
  pub recorded : Option RecordedZones
  pub zone_len : ℕ
  pub row_count : ℕ

-- What the maps are refused for: columns of bounds, and records, of another number of zones.
pub data InvalidInput : Type 0 where
  zone_bounds_mismatch : ℕ → ℕ → ℕ → ℕ → InvalidInput
  recorded_mismatch : ℕ → ℕ → InvalidInput

unfoldable pub div_ceil : ℕ → ℕ → ℕ
div_ceil a b = (a + b - 1) / b

-- `mins.iter().min()` and `maxes.iter().max()`.
unfoldable pub least : ℕ → List ℕ → ℕ
least m [] = m
least m (c ∷ cs) = least (min m c) cs

unfoldable pub greatest : ℕ → List ℕ → ℕ
greatest m [] = m
greatest m (c ∷ cs) = greatest (max m c) cs

unfoldable pub folded_bounds : List ℕ → List ℕ → Option (ℕ × ℕ)
unfolding least greatest
folded_bounds (lo ∷ los) (hi ∷ his) = some (least lo los, greatest hi his)
folded_bounds [] his = none
folded_bounds (lo ∷ los) [] = none

unfoldable pub from_bounds : List ℕ → List ℕ → ℕ → ℕ → Result InvalidInput ColumnZones
unfolding div_ceil folded_bounds
from_bounds mins maxes zone_len row_count =
    let zones = length mins in
    let fits =
      not (zone_len == 0) && ((length maxes == zones) && (div_ceil row_count zone_len == zones)) in
    if fits
    then ok (record {
      mins = mins;
      maxes = maxes;
      bounds = folded_bounds mins maxes;
      recorded = none;
      zone_len = zone_len;
      row_count = row_count;
    })
    else err (zone_bounds_mismatch zones (length maxes) row_count zone_len)

unfoldable pub zones : ColumnZones → ℕ
zones z = length z.mins

unfoldable pub with_records : ColumnZones → RecordedZones → Result InvalidInput ColumnZones
unfolding zones
with_records z records =
    if length records == zones z
    then ok (record {
      mins = z.mins;
      maxes = z.maxes;
      bounds = z.bounds;
      recorded = some records;
      zone_len = z.zone_len;
      row_count = z.row_count;
    })
    else err (recorded_mismatch (length records) (zones z))

-- The bounds of all the column's rows, folded from the zones'.
unfoldable pub column_bounds : ColumnZones → Option (ℕ × ℕ)
column_bounds z = z.bounds

-- The bounds of a zone that there is; the program asks for no other.
unfoldable pub zone_bounds : ColumnZones → ℕ → ℕ × ℕ
zone_bounds z zone = (get_or z.mins zone 0, get_or z.maxes zone 0)

unfoldable pub eq_on_bounds : ℕ → ℕ → ℕ → Option Bool
eq_on_bounds lo hi code =
    let outside = ltb code lo || ltb hi code in
    let only = (lo == code) && (hi == code) in
    if outside then some false else if only then some true else none

-- The zone's rows, from the first to behind the last. `(zone + 1) * zone_len` is not cut to 64 bits,
-- which it passes only with a row count near 2 ^ 64.
unfoldable pub zone_rows : ColumnZones → ℕ → ℕ × ℕ
zone_rows z zone = (zone * z.zone_len, min (suc zone * z.zone_len) z.row_count)

unfoldable pub rows_at : Place → Pairs → ℕ
rows_at (found at) ps = (get_or ps at (0, 0)).1
rows_at (missing at) ps = 0

-- A zone's entry, which is missing past the last zone and empty for a zone of too many values.
unfoldable pub recorded_of : Option (Option Pairs) → ℕ → Option ℕ
unfolding binary_search_by_key rows_at
recorded_of (some (some ps)) code = some (rows_at (binary_search_by_key code ps) ps)
recorded_of (some none) code = none
recorded_of none code = none

unfoldable pub recorded_in_zone : Option RecordedZones → ℕ → ℕ → Option ℕ
unfolding recorded_of
recorded_in_zone (some records) zone code = recorded_of (get_elem? records zone) code
recorded_in_zone none zone code = none

unfoldable pub recorded_count : ColumnZones → ℕ → ℕ → Option ℕ
unfolding recorded_in_zone
recorded_count z zone code = recorded_in_zone z.recorded zone code

-- The record asked where the bounds settle nothing.
unfoldable pub asked : Option Bool → Option ℕ → Option Bool
asked none (some zero) = some false
asked none (some (suc n)) = none
asked none none = none
asked (some held) count = some held

unfoldable pub eq_holds : ColumnZones → ℕ → ℕ → Option Bool
unfolding zone_bounds eq_on_bounds recorded_count asked
eq_holds z zone code =
    let b = zone_bounds z zone in asked (eq_on_bounds b.0 b.1 code) (recorded_count z zone code)

-- A zone's state of a file's table, whose lists were read: its pairs, if they sum to its rows.
unfoldable pub sum_of : Pairs → ℕ
sum_of [] = 0
sum_of (p ∷ ps) = p.1 + sum_of ps

unfoldable pub if_sum : Option Pairs → ℕ → Option Pairs
unfolding sum_of
if_sum (some ps) rows = if sum_of ps == rows then some ps else none
if_sum none rows = none

unfoldable pub decode_states : List State → (ℕ → ℕ) → ℕ → RecordedZones
unfolding if_sum
decode_states [] rows zone = []
decode_states (s ∷ states) rows zone =
    if_sum (decode_state s) (rows zone) ∷ decode_states states rows (suc zone)

unfoldable pub with_recorded : ColumnZones → List State → Result InvalidInput ColumnZones
unfolding decode_states with_records zone_rows
with_recorded z states =
    with_records z (decode_states states (λ zone. let rows = zone_rows z zone in rows.1 - rows.0) 0)
