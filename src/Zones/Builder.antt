-- ===== src/Zones/Builder.antt =====
-- core/src/zone_stats/quad_zones.rs: `ZoneBuilder`, a column's zone map gathered in row order; and
-- the pass of core/src/store/resident.rs that feeds it.
use vortex_rdf.Prelude.{
  ℕ, zero, suc, ◌+◌, ◌-◌, ◌||◌, not, List, [], ◌∷◌, ◌++◌, Option, none, some, if◌then◌else◌, ltb,
  ◌==◌, min, max, length, take, drop,
}
use vortex_rdf.Prelude.Fallible.{Result, ok, ◌>>=◌}
use vortex_rdf.Columns.Join.{u64_mod}
use vortex_rdf.Zones.Counts.{Counts, new, add_all, recorded, max_values}
use vortex_rdf.Zones.ZoneMap.{
  zone_rows_max, RecordedZones, ColumnZones, InvalidInput, from_bounds, with_records,
}

abbrev pub u64_max : ℕ
u64_max = u64_mod - 1

pub record ZoneBuilder : Type 0 where
  pub mins : List ℕ
  pub maxes : List ℕ
  pub lo : ℕ
  pub hi : ℕ
  pub filled : ℕ
  pub rows : ℕ
  pub records : Option (RecordedZones × Counts)

abbrev pub new_builder : ZoneBuilder
new_builder = record {
  mins = [];
  maxes = [];
  lo = u64_max;
  hi = 0;
  filled = 0;
  rows = 0;
  records = none;
}

abbrev pub recording : ZoneBuilder
recording = record {
  mins = [];
  maxes = [];
  lo = u64_max;
  hi = 0;
  filled = 0;
  rows = 0;
  records = some ([], new);
}

unfoldable pub room : ZoneBuilder → ℕ
room b = zone_rows_max - b.filled

unfoldable pub count_in : Option (RecordedZones × Counts) → List ℕ → Option (RecordedZones × Counts)
count_in none part = none
count_in (some r) part = some (r.0, add_all r.1 part max_values)

unfoldable pub close_records : Option (RecordedZones × Counts) → Option (RecordedZones × Counts)
close_records none = none
close_records (some r) = some (r.0 ++ recorded r.1 ∷ [], new)

unfoldable pub close : ZoneBuilder → ZoneBuilder
unfolding close_records
close b = record {
  mins = b.mins ++ b.lo ∷ [];
  maxes = b.maxes ++ b.hi ∷ [];
  lo = u64_max;
  hi = 0;
  filled = 0;
  rows = b.rows;
  records = close_records b.records;
}

unfoldable pub fold_part : ZoneBuilder → List ℕ → ℕ → ℕ → ZoneBuilder
unfolding count_in
fold_part b part lo hi = record {
  mins = b.mins;
  maxes = b.maxes;
  lo = min b.lo lo;
  hi = max b.hi hi;
  filled = b.filled + length part;
  rows = b.rows + length part;
  records = count_in b.records part;
}

unfoldable pub push : ZoneBuilder → List ℕ → ℕ → ℕ → ZoneBuilder
unfolding fold_part close
push b [] lo hi = b
push b (c ∷ cs) lo hi =
    let next = fold_part b (c ∷ cs) lo hi in
    if next.filled == zone_rows_max then close next else next

unfoldable pub with_kept :
    Result InvalidInput ColumnZones
    → Option (RecordedZones × Counts)
    → Result InvalidInput (Option ColumnZones)
with_kept zones (some r) = zones >>= (λ z. with_records z r.0) >>= (λ z. ok (some z))
with_kept zones none = zones >>= (λ z. ok (some z))

unfoldable pub finish : ZoneBuilder → ℕ → Result InvalidInput (Option ColumnZones)
unfolding close with_kept
finish b rows =
    let partly = not (b.rows == rows) || (rows == 0) in
    let last = if ltb 0 b.filled then close b else b in
    if partly
    then ok none
    else with_kept (from_bounds last.mins last.maxes zone_rows_max rows) last.records

-- What a part of `compress_int_column` reads of its codes: the smallest and the largest.
unfoldable pub part_bounds : ℕ → ℕ → List ℕ → ℕ × ℕ
part_bounds lo hi [] = (lo, hi)
part_bounds lo hi (v ∷ vs) =
    part_bounds (if ltb v lo then v else lo) (if ltb hi v then v else hi) vs

-- The loop of `compress_int_column` over the codes left. A round takes a row at least, as a zone
-- that is being filled has room, so the length of the list is rounds enough.
unfoldable pub fold_codes : ℕ → ZoneBuilder → List ℕ → ZoneBuilder
unfolding push part_bounds room
fold_codes zero b vs = b
fold_codes (suc fuel) b [] = b
fold_codes (suc fuel) b (v ∷ vs) =
    let n = min (room b) (length (v ∷ vs)) in
    let part = take n (v ∷ vs) in
    let found = part_bounds u64_max 0 part in
    fold_codes fuel (push b part found.0 found.1) (drop n (v ∷ vs))

-- The slices of a column whose chunks are all primitive arrays of codes, one after the other.
unfoldable pub fold_column : ZoneBuilder → List (List ℕ) → ZoneBuilder
unfolding fold_codes
fold_column b [] = b
fold_column b (vs ∷ slices) = fold_column (fold_codes (length vs) b vs) slices
