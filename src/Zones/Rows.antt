-- ===== src/Zones/Rows.antt =====
-- core/src/zone_stats/zone_map.rs: what a zone map answers of one row of a zone.
use vortex_rdf.Prelude.{
  ℕ, zero, suc, ◌+◌, ◌-◌, ◌*◌, ◌≤◌, ◌<◌, ◌≡◌, ◌≢◌, refl, sym, ap, ◌∙◌, true, false, List, [], ◌∷◌,
  some, arith, ◌==◌, ==_iff, min, length, get_or, drop, length-take, length-drop,
}
use vortex_rdf.Prelude.Arrays.{get_or-take}
use vortex_rdf.Search.Sinks.{count_words, flag}
use vortex_rdf.Zones.ZoneMap.{ColumnZones, zones, zone_rows, eq_holds}
use vortex_rdf.Zones.Described.{zone_slice, Describes, eq_holds-none, eq_holds-all}
use vortex_rdf.Zones.Gathered.{count_words-le}
use vortex_rdf.Zones.Checks.{same_geometry}

abbrev pub InZone : ColumnZones → ℕ → ℕ → Type 0
InZone z zone row = ((zone_rows z zone).0 ≤ row) × (row < (zone_rows z zone).1)

get_or-none :
    (xs : List ℕ) (code k : ℕ) → count_words xs code ≡ 0 → k < length xs → get_or xs k 0 ≢ code
unfolding count_words
get_or-none [] code k z h = absurd (omega arith)
get_or-none (x ∷ xs) code zero z h =
    λ e. let hit = (==_iff x code).1 e in let one = ap flag hit in absurd (omega (arith, z, one))
get_or-none (x ∷ xs) code (suc k) z h = get_or-none xs code k (omega (arith, z)) (omega arith)

get_or-all :
    (xs : List ℕ) (code k : ℕ)
    → count_words xs code ≡ length xs
    → k < length xs
    → get_or xs k 0 ≡ code
unfolding count_words
get_or-all [] code k z h = absurd (omega arith)
get_or-all (x ∷ xs) code zero z h = ground (arith, count_words-le xs code)
get_or-all (x ∷ xs) code (suc k) z h =
    let most : flag (x == code) ≤ 1 = ground arith in
    let rest : count_words xs code ≡ length xs = omega (arith, z, most, count_words-le xs code) in
    get_or-all xs code k rest (omega arith)

get_or-drop : (n : ℕ) (xs : List ℕ) (k : ℕ) → get_or (drop n xs) k 0 ≡ get_or xs (n + k) 0
get_or-drop zero xs k = let e : k ≡ 0 + k = omega arith in ap (λ j. get_or xs j 0) e
get_or-drop (suc n) [] k = refl
get_or-drop (suc n) (x ∷ xs) k =
    let e : suc (n + k) ≡ suc n + k = omega arith in
    get_or-drop n xs k ∙ ap (λ j. get_or (x ∷ xs) j 0) e

-- A row of a zone, in the zone's slice.
module _ (codes : List ℕ) (z : ColumnZones) (described : Describes codes z) (zone row : ℕ) where
  place : ℕ
  place = row - (zone_rows z zone).0

  row_in_slice :
      InZone z zone row
      → (place < length (zone_slice z zone codes))
        × (get_or (zone_slice z zone codes) place 0 ≡ get_or codes row 0)
  unfolding zone_slice place Describes
  row_in_slice h =
      let rows = zone_rows z zone in
      let rest = drop rows.0 codes in
      let last : rows.1 ≤ z.row_count = unfold zone_rows in omega arith in
      let long : row < length codes = omega (arith, h.1, last, described.0) in
      let at : rows.0 + (row - rows.0) ≡ row = omega (arith, h.0) in
      (
        omega (arith, h.0, h.1, long, length-take (rows.1 - rows.0) rest, length-drop rows.0 codes),
        get_or-take 0 (rows.1 - rows.0) rest (row - rows.0) (omega (arith, h.0, h.1))
            ∙ get_or-drop rows.0 codes (row - rows.0)
            ∙ ap (λ j. get_or codes j 0) at,
      )

  pub row-none :
      (code : ℕ)
      → zone < zones z
      → InZone z zone row
      → eq_holds z zone code ≡ some false
      → get_or codes row 0 ≢ code
  row-none code h within e = λ same.
      let s = row_in_slice within in
      get_or-none (zone_slice z zone codes) code place
        (eq_holds-none codes z described zone code h e) s.0 (s.1 ∙ same)

  pub row-all :
      (code : ℕ)
      → zone < zones z
      → InZone z zone row
      → eq_holds z zone code ≡ some true
      → get_or codes row 0 ≡ code
  row-all code h within e =
      let s = row_in_slice within in
      sym s.1
      ∙ get_or-all (zone_slice z zone codes) code place
          (eq_holds-all codes z described zone code h e) s.0

-- Zone maps of one geometry have the same rows in a zone.
pub geometry-InZone :
    (y z : ColumnZones) (zone row : ℕ)
    → same_geometry y z ≡ true
    → zone < zones y
    → InZone y zone row
    → (zone < zones z) × InZone z zone row
unfolding same_geometry
geometry-InZone y z zone row e h within =
    let len : y.zone_len ≡ z.zone_len = ground arith in
    let count : zones z ≡ zones y = ground arith in
    let rows : y.row_count ≡ z.row_count = ground arith in
    let same : zone_rows y zone ≡ zone_rows z zone =
      unfold zone_rows in λ i. (zone * len i, min (suc zone * len i) (rows i)) in
    (
      omega (arith, h, count),
      (omega (arith, within.0, ap (λ r. r.0) same), omega (arith, within.1, ap (λ r. r.1) same)),
    )
