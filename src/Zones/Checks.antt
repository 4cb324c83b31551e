-- ===== src/Zones/Checks.antt =====
-- core/src/zone_stats/zone_set.rs: `ZoneSet`, how each zone of a table stands against checks of
-- `x = code`, and a range of its rows cut at its zones.
use vortex_rdf.Prelude.{
  ℕ, zero, suc, ◌+◌, ◌-◌, ◌*◌, ◌/◌, ◌%◌, Bool, true, false, ◌&&◌, ◌||◌, List, [], ◌∷◌, map, Option,
  none, some, if◌then◌else◌, ltb, ◌==◌, min, max, range_from,
}
use vortex_rdf.Zones.ZoneMap.{
  ColumnZones, zones, zone_bounds, zone_rows, eq_on_bounds, recorded_count, eq_holds,
}

-- How a zone stands; `mixed` has the bits of the checks that it leaves to its rows.
pub data ZoneClass : Type 0 where
  no_row every_row : ZoneClass
  mixed : ℕ → ZoneClass

pub record ZoneCheck : Type 0 where
  pub bit : ℕ
  pub code : ℕ
  pub zones : ColumnZones

pub record ZonePart : Type 0 where
  pub zone : ℕ
  pub rows : ℕ × ℕ

-- The zones of the first check stand for the geometry of all.
pub record ZoneSet : Type 0 where
  pub first : ZoneCheck
  pub others : List ZoneCheck
  pub unzoned : ℕ
  pub bounds_only : Bool

abbrev pub checks : ZoneSet → List ZoneCheck
checks s = s.first ∷ s.others

unfoldable pub same_geometry : ColumnZones → ColumnZones → Bool
unfolding zones
same_geometry y z =
    (z.zone_len == y.zone_len) && ((zones z == zones y) && (z.row_count == y.row_count))

unfoldable pub all_fit : ColumnZones → List ZoneCheck → Bool
unfolding same_geometry
all_fit y [] = true
all_fit y (c ∷ cs) = (ltb c.bit 32 && same_geometry y c.zones) && all_fit y cs

unfoldable pub new_set : List ZoneCheck → ℕ → Option ZoneSet
unfolding all_fit
new_set [] unzoned = none
new_set (c ∷ cs) unzoned =
    let fit = all_fit c.zones (c ∷ cs) in
    if fit
    then some (record { first = c; others = cs; unzoned = unzoned; bounds_only = false })
    else none

unfoldable pub only_bounds : ZoneSet → ZoneSet
only_bounds s = record {
  first = s.first;
  others = s.others;
  unzoned = s.unzoned;
  bounds_only = true;
}

-- `bits | 1 << b`, by binary digits.
unfoldable pub or_bit : ℕ → ℕ → ℕ
or_bit bits zero = let has = bits % 2 == 1 in if has then bits else bits + 1
or_bit bits (suc b) = or_bit (bits / 2) b * 2 + bits % 2

unfoldable pub is_false : Option Bool → Bool
is_false (some false) = true
is_false (some true) = false
is_false none = false

unfoldable pub ruled_out : List ZoneCheck → ℕ → Bool
unfolding zone_bounds eq_on_bounds is_false
ruled_out [] zone = false
ruled_out (c ∷ cs) zone =
    let b = zone_bounds c.zones zone in is_false (eq_on_bounds b.0 b.1 c.code) || ruled_out cs zone

unfoldable pub every_bit : List ZoneCheck → ℕ → ℕ
unfolding or_bit
every_bit [] bits = bits
every_bit (c ∷ cs) bits = every_bit cs (or_bit bits c.bit)

-- Where a check leaves the walk, goes on, or goes on with its bit.
unfoldable pub settle : Option Bool → ZoneClass → ZoneClass → ZoneClass
settle (some false) rest unsettled = no_row
settle (some true) rest unsettled = rest
settle none rest unsettled = unsettled

unfoldable pub class_of : List ZoneCheck → ℕ → ℕ → ZoneClass
unfolding settle or_bit eq_holds
class_of [] zone zero = every_row
class_of [] zone (suc n) = mixed (suc n)
class_of (c ∷ cs) zone unsettled =
    settle (eq_holds c.zones zone c.code) (class_of cs zone unsettled)
      (class_of cs zone (or_bit unsettled c.bit))

unfoldable pub class : ZoneSet → ℕ → ZoneClass
unfolding ruled_out every_bit class_of
class s zone =
    let out = ruled_out (checks s) zone in
    let by_bounds = if out then no_row else mixed (every_bit (checks s) s.unzoned) in
    if s.bounds_only then by_bounds else class_of (checks s) zone s.unzoned

-- The zones that a range of rows touches, each with its rows.
unfoldable pub part_of : ColumnZones → ℕ × ℕ → ℕ → ZonePart
unfolding zone_rows
part_of z rows zone =
    let whole = zone_rows z zone in
    record { zone = zone; rows = (max whole.0 rows.0, min whole.1 rows.1) }

unfoldable pub parts : ZoneSet → ℕ × ℕ → List ZonePart
unfolding part_of
parts s rows =
    let z = s.first.zones in
    let end = min rows.1 z.row_count in
    let from = rows.0 / z.zone_len in
    let touched =
      map (part_of z (rows.0, end)) (range_from from (suc ((end - 1) / z.zone_len) - from)) in
    if ltb rows.0 end then touched else []

unfoldable pub find_check : ℕ → List ZoneCheck → Option ZoneCheck
find_check bit [] = none
find_check bit (c ∷ cs) = let rest = find_check bit cs in if c.bit == bit then some c else rest

unfoldable pub count_of : Option ZoneCheck → ℕ → Option ℕ
unfolding recorded_count
count_of (some c) zone = recorded_count c.zones zone c.code
count_of none zone = none

unfoldable pub recorded_in : ZoneSet → ℕ → ZonePart → Option ℕ
unfolding find_check count_of zone_rows
recorded_in s bit part =
    let whole = zone_rows s.first.zones part.zone in
    let is_whole = (part.rows.0 == whole.0) && (part.rows.1 == whole.1) in
    let count = count_of (find_check bit (checks s)) part.zone in if is_whole then count else none
