-- ===== src/Zones/Cuts.antt =====
-- core/src/zone_stats/quad_zones.rs: zones that cut a column's codes, and the map that they make.
use vortex_rdf.Prelude.{
  ℕ, zero, suc, ◌+◌, ◌-◌, ◌*◌, ◌/◌, ◌≤◌, ◌<◌, ◌≡◌, refl, sym, ap, ◌∙◌, true, List, [], ◌∷◌, ◌++◌,
  Option, none, some, arith, ◌==◌, ==_iff, min, max, length, get_or, take, drop, take-min,
  length-drop,
}
use vortex_rdf.Prelude.Fallible.{ok}
use vortex_rdf.Search.Sinks.{count_words}
use vortex_rdf.Zones.Counts.{Counts}
use vortex_rdf.Zones.Bounds.{least-le, least-append, greatest-append}
use vortex_rdf.Zones.ZoneMap.{
  column_bounds, least, greatest, zone_rows_max, RecordedZones, ColumnZones, from_bounds, div_ceil,
  zones, zone_bounds, zone_rows, with_records, folded_bounds, recorded_in_zone, recorded_count,
}
use vortex_rdf.Zones.Builder.{with_kept, u64_max}
use vortex_rdf.Zones.Described.{zone_slice, Describes, bounds_of}
use vortex_rdf.Zones.Gathered.{AreBounds, Keeps, concat}
use vortex_rdf.Zones.Slices.{AreBounds-lengths, AreBounds-at, AreRecords-length, AreRecords-at}

-- Zones `rs` that cut `codes` into stretches of `zone_rows_max`, the last of which is not empty.
pub record Cuts (codes : List ℕ) (rs : List (List ℕ)) : Type 0 where
  pub whole : codes ≡ concat rs
  pub least_rows : (length rs - 1) * zone_rows_max < length codes
  pub most_rows : length codes ≤ length rs * zone_rows_max
  pub slices :
      (k : ℕ) → k < length rs → take zone_rows_max (drop (k * zone_rows_max) codes) ≡ get_or rs k []

-- The zones' bounds folded are the bounds of all their rows.
folded_min :
    (m : ℕ) (rs : List (List ℕ)) (los his : List ℕ)
    → AreBounds rs los his
    → m ≤ u64_max
    → least m los ≡ min m (least u64_max (concat rs))
unfolding AreBounds concat least
folded_min m [] [] [] a h = omega arith
folded_min m [] [] (hi ∷ his) a h = absurd a
folded_min m [] (lo ∷ los) his a h = absurd a
folded_min m (r ∷ rs) [] his a h = absurd a
folded_min m (r ∷ rs) (lo ∷ los) [] a h = absurd a
folded_min m (r ∷ rs) (lo ∷ los) (hi ∷ his) a h = omega (
  arith,
  folded_min (min m lo) rs los his a.2 (omega arith),
  a.0,
  least-append u64_max r (concat rs),
)

folded_max :
    (m : ℕ) (rs : List (List ℕ)) (los his : List ℕ)
    → AreBounds rs los his
    → greatest m his ≡ max m (greatest 0 (concat rs))
unfolding AreBounds concat greatest
folded_max m [] [] [] a = omega arith
folded_max m [] [] (hi ∷ his) a = absurd a
folded_max m [] (lo ∷ los) his a = absurd a
folded_max m (r ∷ rs) [] his a = absurd a
folded_max m (r ∷ rs) (lo ∷ los) [] a = absurd a
folded_max m (r ∷ rs) (lo ∷ los) (hi ∷ his) a =
    omega (arith, folded_max (max m hi) rs los his a.2, a.1, greatest-append 0 r (concat rs))

folded_bounds-lem :
    (rs : List (List ℕ)) (los his : List ℕ)
    → AreBounds rs los his
    → 0 < length rs
    → folded_bounds los his ≡ some (bounds_of (concat rs))
unfolding AreBounds concat folded_bounds
folded_bounds-lem [] los his a h = absurd (omega arith)
folded_bounds-lem (r ∷ rs) [] his a h = absurd a
folded_bounds-lem (r ∷ rs) (lo ∷ los) [] a h = absurd a
folded_bounds-lem (r ∷ rs) (lo ∷ los) (hi ∷ his) a h =
    let small : lo ≤ u64_max = omega (arith, a.0, least-le u64_max r) in
    let low : least lo los ≡ least u64_max (r ++ concat rs) =
      omega (arith, folded_min lo rs los his a.2 small, a.0, least-append u64_max r (concat rs)) in
    let high : greatest hi his ≡ greatest 0 (r ++ concat rs) =
      omega (arith, folded_max hi rs los his a.2, a.1, greatest-append 0 r (concat rs)) in
    λ i. some (low i, high i)

module _ (codes : List ℕ) (rs : List (List ℕ)) (los his : List ℕ) (cuts : Cuts codes rs)
    (bounds : AreBounds rs los his) where
  abbrev map_of : Option RecordedZones → ColumnZones
  map_of kept = record {
    mins = los;
    maxes = his;
    bounds = folded_bounds los his;
    recorded = kept;
    zone_len = zone_rows_max;
    row_count = length codes;
  }

  from_bounds-eq : from_bounds los his zone_rows_max (length codes) ≡ ok (map_of none)
  unfolding from_bounds div_ceil
  from_bounds-eq =
      let ends = AreBounds-lengths rs los his bounds in
      let same : (length his == length los) ≡ true =
        (==_iff (length his) (length los)).1 (ends.1 ∙ sym ends.0) in
      let count : (length codes + zone_rows_max - 1) / zone_rows_max ≡ length los =
        omega (arith, ends.0, cuts.least_rows, cuts.most_rows) in
      let all : ((length codes + zone_rows_max - 1) / zone_rows_max == length los) ≡ true =
        (==_iff ((length codes + zone_rows_max - 1) / zone_rows_max) (length los)).1 count in
      rw (same, all) refl

  slice_of :
      (kept : Option RecordedZones) (k : ℕ)
      → k < length rs
      → zone_slice (map_of kept) k codes ≡ get_or rs k []
  unfolding zone_slice zone_rows
  slice_of kept k h =
      let rest = drop (k * zone_rows_max) codes in
      let size = min (suc k * zone_rows_max) (length codes) - k * zone_rows_max in
      let fits : size ≡ min zone_rows_max (length rest) =
        omega (arith, length-drop (k * zone_rows_max) codes) in
      take-min zone_rows_max rest size fits ∙ cuts.slices k h

  map_of-Describes :
      (kept : Option RecordedZones)
      → ((k code n : ℕ)
          → k < length rs
          → recorded_count (map_of kept) k code ≡ some n
          → n ≡ count_words (get_or rs k []) code)
      → Describes codes (map_of kept)
  unfolding Describes zones zone_bounds
  map_of-Describes kept exact = (
    refl,
    unfold column_bounds in
        (folded_bounds-lem rs los his bounds (omega (arith, cuts.least_rows, cuts.most_rows))
          ∙ ap (λ xs. some (bounds_of xs)) (sym cuts.whole)),
    λ zone h.
        let ends = AreBounds-lengths rs los his bounds in
        let within : zone < length rs = omega (arith, h, ends.0) in
        let slice = slice_of kept zone within in
        (
          AreBounds-at rs los his zone bounds within ∙ ap bounds_of (sym slice),
          λ code n e. exact zone code n within e ∙ ap (λ xs. count_words xs code) (sym slice),
        ),
  )

  pub with_kept-Describes :
      (records : Option (RecordedZones × Counts)) (current : List ℕ)
      → Keeps rs current records
      → (z : ColumnZones) × (with_kept (from_bounds los his zone_rows_max (length codes)) records
          ≡ ok (some z))
        × Describes codes z
  unfolding with_kept Keeps
  with_kept-Describes none current k = (
    map_of none,
    rw from_bounds-eq refl,
    map_of-Describes none
        (λ j code n h e. unfold recorded_count recorded_in_zone in absurd (ground arith)),
  )
  with_kept-Describes (some r) current k =
      let ends = AreBounds-lengths rs los his bounds in
      let same : (length r.0 == length los) ≡ true =
        (==_iff (length r.0) (length los)).1 (AreRecords-length rs r.0 k.0 ∙ sym ends.0) in
      (
        map_of (some r.0),
        rw from_bounds-eq (unfold with_records zones in rw same refl),
        map_of-Describes (some r.0) (λ j code n h e.
            AreRecords-at rs r.0 j code n k.0 h (unfold recorded_count recorded_in_zone in e)),
      )

-- The zones at the end: those closed, and the one that was being filled if it holds a row.
pub get_or-before :
    (rs : List (List ℕ)) (r : List ℕ) (k : ℕ)
    → k < length rs
    → get_or (rs ++ r ∷ []) k [] ≡ get_or rs k []
get_or-before [] r k h = absurd (omega arith)
get_or-before (q ∷ rs) r zero h = refl
get_or-before (q ∷ rs) r (suc k) h = get_or-before rs r k (omega arith)

pub get_or-behind : (rs : List (List ℕ)) (r : List ℕ) → get_or (rs ++ r ∷ []) (length rs) [] ≡ r
get_or-behind [] r = refl
get_or-behind (q ∷ rs) r = get_or-behind rs r
