-- ===== src/Zones/Parts.antt =====
-- core/src/zone_stats/zone_set.rs, `ZoneSet::parts` and `recorded_in`: a range of rows cut at its
-- zones, and the rows of a whole zone that its record counts.
use mathlib.Core.List.{append-nil}
use native.Mathlib.Nat.{div-mul-le_self, lt-div-mul-add, le-div_iff_mul-le}
use vortex_rdf.Prelude.{
  ◌≢◌, none, ℕ, zero, suc, ◌+◌, ◌-◌, ◌*◌, ◌/◌, ◌≤◌, ◌<◌, ◌≡◌, sym, ap, ◌∙◌, ◌⊎◌, true, inl, inr,
  List, [], ◌∷◌, ◌++◌, map, some, arith, Bool-cases, if◌then◌else◌, ltb, leb, ◌==◌, ◌&&◌, min, max,
  take, drop, range_from, range_from-append,
}
use vortex_rdf.Search.Sinks.{count_words}
use vortex_rdf.Zones.ZoneMap.{ColumnZones, zones, zone_rows}
use vortex_rdf.Zones.Described.{zone_slice, Describes}
use vortex_rdf.Zones.Walk.{new_set-fits, AllDescribe}
use vortex_rdf.Zones.Checks.{
  new_set, ZoneCheck, ZoneSet, ZonePart, checks, same_geometry, all_fit, part_of, parts, find_check,
  count_of, recorded_in,
}

-- The rows of parts, one after the other.
unfoldable pub covered : List ZonePart → List ℕ
covered [] = []
covered (p ∷ ps) = range_from p.rows.0 (p.rows.1 - p.rows.0) ++ covered ps

join :
    (from m next n total : ℕ)
    → ((n ≡ 0) × (total ≡ m)) ⊎ ((from + m ≡ next) × (total ≡ m + n))
    → range_from from m ++ range_from next n ≡ range_from from total
join from m next n total (inl h) =
    ap (λ k. range_from from m ++ range_from next k) h.0
    ∙ append-nil (range_from from m)
    ∙ ap (range_from from) (sym h.1)
join from m next n total (inr h) =
    ap (λ k. range_from from m ++ range_from k n) (sym h.0)
    ∙ range_from-append from m n
    ∙ ap (range_from from) (sym h.1)

-- Where a range is cut: `low` and `high` are the ends of a zone, `far` that of the last.
cut :
    (a e low high far : ℕ)
    → a < high
    → low ≤ high
    → high ≤ far
    → ((min far e - max high a ≡ 0) × (min far e - max low a ≡ min high e - max low a))
      ⊎ ((max low a + (min high e - max low a) ≡ max high a)
          × (min far e - max low a ≡ (min high e - max low a) + (min far e - max high a)))
cut a e low high far h l f = elim (Bool-cases (leb e high)) [
  | inl short ↦ inl (ground arith, ground arith)
  | inr long ↦ inr (ground arith, ground arith)
]

module _ (z : ColumnZones) (a e : ℕ) (fits : e ≤ z.row_count) where
  abbrev at : ℕ → ℕ
  at k = k * z.zone_len

  at-steps : (k n : ℕ) → (at k ≤ at (suc k)) × (at (suc k) ≤ at (k + suc n))
  at-steps k n =
      let e : suc k * z.zone_len ≡ k * z.zone_len + z.zone_len = grind arith in
      let f : (k + suc n) * z.zone_len ≡ suc k * z.zone_len + n * z.zone_len = grind arith in
      (omega (arith, e), omega (arith, f))

  covered-parts :
      (k n : ℕ)
      → a < at (suc k)
      → covered (map (part_of z (a, e)) (range_from k n))
        ≡ range_from (max (at k) a) (min (at (k + n)) e - max (at k) a)
  unfolding covered part_of zone_rows
  covered-parts k zero h =
      let same : k + 0 ≡ k = omega arith in
      let z' : 0 ≡ min (at (k + 0)) e - max (at k) a = omega (arith, ap at same) in
      ap (range_from (max (at k) a)) z'
  covered-parts k (suc n) h =
      let steps = at-steps k n in
      let more = at-steps (suc k) n in
      let far : at (suc k + n) ≡ at (k + suc n) = ap at (omega arith) in
      let own : min (min (at (suc k)) z.row_count) e ≡ min (at (suc k)) e = omega (arith, fits) in
      let ih = covered-parts (suc k) n (omega (arith, h, more.0)) in
      (λ i.
        range_from (max (at k) a) (own i - max (at k) a)
        ++ (ih ∙ ap (λ t. range_from (max (at (suc k)) a) (min t e - max (at (suc k)) a)) far) i)
      ∙ join (max (at k) a) (min (at (suc k)) e - max (at k) a) (max (at (suc k)) a)
          (min (at (k + suc n)) e - max (at (suc k)) a) (min (at (k + suc n)) e - max (at k) a)
          (cut a e (at k) (at (suc k)) (at (k + suc n)) h steps.0 steps.1)

-- The parts of a range are its rows within the table, each once and in order.
pub parts-covered :
    (s : ZoneSet) (a b : ℕ)
    → 0 < s.first.zones.zone_len
    → covered (parts s (a, b)) ≡ range_from a (min b s.first.zones.row_count - a)
unfolding parts
parts-covered s a b some_len =
    let z = s.first.zones in
    let e = min b z.row_count in
    let from = a / z.zone_len in
    let last = (e - 1) / z.zone_len in
    elim (Bool-cases (ltb a e)) [
      | inl some_rows ↦
          let h : a < e = ground arith in
          let low : from * z.zone_len ≤ a = div-mul-le_self a z.zone_len in
          let high : a < suc from * z.zone_len =
            let f : suc from * z.zone_len ≡ from * z.zone_len + z.zone_len = grind arith in
            omega (arith, f, lt-div-mul-add {a = a} some_len) in
          let end : e ≤ suc last * z.zone_len =
            let f : suc last * z.zone_len ≡ last * z.zone_len + z.zone_len = grind arith in
            omega (arith, f, lt-div-mul-add {a = e - 1} some_len) in
          let order : from ≤ last =
            (le-div_iff_mul-le {x = from} {y = e - 1} some_len).1 (omega (arith, h, low)) in
          let far : from + (suc last - from) ≡ suc last = omega (arith, order) in
          let to : (from + (suc last - from)) * z.zone_len ≡ suc last * z.zone_len =
            ap (λ k. k * z.zone_len) far in
          rw some_rows (
            covered-parts z a e (omega arith) from (suc last - from) high ∙ λ i.
            range_from (start low i) (size low end to i))
      | inr no_rows ↦
          let none' : 0 ≡ e - a = ground arith in
          rw no_rows (unfold covered in ap (range_from a) none')
    ]
  where
    start :
        (a / s.first.zones.zone_len * s.first.zones.zone_len ≤ a)
        → max (a / s.first.zones.zone_len * s.first.zones.zone_len) a ≡ a
    start low = omega (arith, low)

    size :
        {t u : ℕ}
        → (a / s.first.zones.zone_len * s.first.zones.zone_len ≤ a)
        → min b s.first.zones.row_count ≤ u
        → t ≡ u
        → min t (min b s.first.zones.row_count)
            - max (a / s.first.zones.zone_len * s.first.zones.zone_len) a
          ≡ min b s.first.zones.row_count - a
    size low end to = omega (arith, low, end, to)

-- The column and the code of the first check that has a bit.
unfoldable pub asked_of : ℕ → List ZoneCheck → List (List ℕ) → List ℕ × ℕ
asked_of bit [] columns = ([], 0)
asked_of bit (c ∷ cs) [] = ([], 0)
asked_of bit (c ∷ cs) (xs ∷ columns) =
    let rest = asked_of bit cs columns in if c.bit == bit then (xs, c.code) else rest

geometry-slice :
    (y z : ColumnZones) (zone : ℕ) (codes : List ℕ)
    → same_geometry y z ≡ true
    → (zones z ≡ zones y) × (zone_slice z zone codes ≡ zone_slice y zone codes)
unfolding same_geometry zone_slice
geometry-slice y z zone codes e =
    let len : z.zone_len ≡ y.zone_len = ground arith in
    let count : zones z ≡ zones y = ground arith in
    let rows : z.row_count ≡ y.row_count = ground arith in
    let same : zone_rows z zone ≡ zone_rows y zone =
      unfold zone_rows in λ i. (zone * len i, min (suc zone * len i) (rows i)) in
    (count, ap (λ r. take (r.1 - r.0) (drop r.0 codes)) same)

module _ (y : ColumnZones) (zone bit : ℕ) (h : zone < zones y) where
  count_of-lem :
      (cs : List ZoneCheck) (columns : List (List ℕ)) (n : ℕ)
      → all_fit y cs ≡ true
      → AllDescribe cs columns
      → count_of (find_check bit cs) zone ≡ some n
      → let found = asked_of bit cs columns in n ≡ count_words (zone_slice y zone found.0) found.1
  unfolding count_of find_check asked_of AllDescribe all_fit Describes
  count_of-lem [] columns n fit d e = absurd (ground arith)
  count_of-lem (c ∷ cs) [] n fit d e = absurd d
  count_of-lem (c ∷ cs) (xs ∷ columns) n fit d e =
      let own : same_geometry y c.zones ≡ true = ground arith in
      let fits : all_fit y cs ≡ true = ground arith in
      let same = geometry-slice y c.zones zone xs own in
      elim (Bool-cases (c.bit == bit)) [
        | inl here ↦ rw here (
            (d.0.2 zone (omega (arith, h, same.0))).1 c.code n (rw here at e)
            ∙ ap (λ rows. count_words rows c.code) same.1)
        | inr there ↦ rw there (count_of-lem cs columns n fits d.1 (rw there at e))
      ]

-- A count that a part's record gives for a check's code is the number of the part's rows of the
-- check's column that hold the code; the checks' zone maps are those of their columns, and
-- `ZoneSet::new` takes them.
pub recorded_in-count :
    (s : ZoneSet) (columns : List (List ℕ)) (bit n : ℕ) (part : ZonePart)
    → new_set (checks s) s.unzoned ≢ none
    → AllDescribe (checks s) columns
    → part.zone < zones s.first.zones
    → recorded_in s bit part ≡ some n
    → let found = asked_of bit (checks s) columns in
      n ≡ count_words (take (part.rows.1 - part.rows.0) (drop part.rows.0 found.0)) found.1
unfolding recorded_in
recorded_in-count s columns bit n part taken d h e =
    let fit = new_set-fits s taken in
    let y = s.first.zones in
    let whole = zone_rows y part.zone in
    let found = asked_of bit (checks s) columns in
    elim (Bool-cases ((part.rows.0 == whole.0) && (part.rows.1 == whole.1))) [
      | inl all ↦
          let start : whole.0 ≡ part.rows.0 = ground arith in
          let end : whole.1 ≡ part.rows.1 = ground arith in
          count_of-lem y part.zone bit h (checks s) columns n fit d (rw all at e)
          ∙ unfold zone_slice in
            λ i. count_words (take (end i - start i) (drop (start i) found.0)) found.1
      | inr some_rows ↦ absurd (ground arith)
    ]
