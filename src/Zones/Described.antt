-- ===== src/Zones/Described.antt =====
-- core/src/zone_stats/zone_map.rs: what a zone map answers of a zone's rows.
use vortex_rdf.Prelude.{
  ℕ, zero, suc, ◌-◌, ◌<◌, ◌≡◌, refl, sym, ap, subst, ◌∙◌, ◌⊎◌, Bool, true, false, inl, inr, List,
  [], ◌∷◌, Option, none, some, arith, Bool-cases, Option-cases, ltb, leb, ◌==◌, ==_iff, length,
  take, drop,
}
use vortex_rdf.Dict.Memo.{u32_max}
use vortex_rdf.Search.Sinks.{count_words}
use vortex_rdf.Zones.Counts.{
  Pairs, Place, found, missing, later, binary_search_by_key, keys, Counts, values, too_many,
  recorded, all_u32, keep_u32,
}
use vortex_rdf.Zones.Places.{weight, count_at, IsAscending, Represents}
use vortex_rdf.Zones.ZoneMap.{
  column_bounds, ColumnZones, least, greatest, zones, zone_bounds, zone_rows, eq_on_bounds, rows_at,
  recorded_of, recorded_count, asked, eq_holds,
}
use vortex_rdf.Zones.Builder.{u64_max}
use vortex_rdf.Zones.Bounds.{eq_on_bounds-none, eq_on_bounds-all}

-- A zone's rows of a column.
unfoldable pub zone_slice : ColumnZones → ℕ → List ℕ → List ℕ
unfolding zone_rows
zone_slice z zone codes = let rows = zone_rows z zone in take (rows.1 - rows.0) (drop rows.0 codes)

-- The bounds of a stretch of rows, and its record, if there is one.
abbrev pub bounds_of : List ℕ → ℕ × ℕ
bounds_of rows = (least u64_max rows, greatest 0 rows)

abbrev pub IsRecord : List ℕ → Option Pairs → Type 0
IsRecord rows none = Unit {0}
IsRecord rows (some ps) = IsAscending 0 (keys ps) × ((x : ℕ) → count_at x ps ≡ count_words rows x)

-- `z` is the zone map of `codes`: it covers them with their exact bounds, each zone's bounds are exact, and what it recorded of a code is
-- the number of its rows that hold the code.
unfoldable pub Describes : List ℕ → ColumnZones → Type 0
Describes codes z =
    (z.row_count ≡ length codes)
    × (column_bounds z ≡ some (bounds_of codes))
    × ((zone : ℕ)
        → zone < zones z
        → (zone_bounds z zone ≡ bounds_of (zone_slice z zone codes))
          × ((code n : ℕ)
              → recorded_count z zone code ≡ some n
              → n ≡ count_words (zone_slice z zone codes) code))

-- The search in a record's pairs.
pub count_at-below : (lo x : ℕ) (ps : Pairs) → IsAscending lo (keys ps) → x < lo → count_at x ps ≡ 0
unfolding count_at IsAscending
count_at-below lo x [] a h = refl
count_at-below lo x (p ∷ ps) a h =
    let miss : weight p.0 p.1 x ≡ 0 = ground (arith, a.0) in
    omega (arith, miss, count_at-below (suc p.0) x ps a.1 (omega (arith, a.0)))

rows_at-later :
    (place : Place) (p : ℕ × ℕ) (ps : Pairs) → rows_at (later place) (p ∷ ps) ≡ rows_at place ps
unfolding rows_at later
rows_at-later (found at) p ps = refl
rows_at-later (missing at) p ps = refl

rows_at-eq-count_at :
    (lo code : ℕ) (ps : Pairs)
    → IsAscending lo (keys ps)
    → rows_at (binary_search_by_key code ps) ps ≡ count_at code ps
unfolding binary_search_by_key rows_at count_at IsAscending
rows_at-eq-count_at lo code [] a = refl
rows_at-eq-count_at lo code (p ∷ ps) a = elim (Bool-cases (p.0 == code)) [
  | inl e ↦
      let same = (==_iff p.0 code).0 e in
      rw e (sym (omega (arith, count_at-below (suc p.0) code ps a.1 (omega (arith, same)))))
  | inr e ↦ elim (Bool-cases (ltb code p.0)) [
    | inl b ↦
        let low : code < suc p.0 = ground arith in
        rw (e, b) (omega (arith, count_at-below (suc p.0) code ps a.1 low))
    | inr b ↦
        rw (e, b)
          (rows_at-later (binary_search_by_key code ps) p ps
            ∙ rows_at-eq-count_at (suc p.0) code ps a.1
            ∙ omega arith)
  ]
]

-- What a zone's record says of a code is the number of its rows that hold it.
pub recorded_of-IsRecord :
    (rows : List ℕ) (record' : Option Pairs) (code n : ℕ)
    → IsRecord rows record'
    → recorded_of (some record') code ≡ some n
    → n ≡ count_words rows code
unfolding recorded_of
recorded_of-IsRecord rows none code n r e = absurd (ground arith)
recorded_of-IsRecord rows (some ps) code n r e =
    let v : rows_at (binary_search_by_key code ps) ps ≡ n = ground arith in
    sym v ∙ rows_at-eq-count_at 0 code ps r.0 ∙ r.1 code

-- The record that counts leave.
or_nil : Option Pairs → Pairs
or_nil none = []
or_nil (some ps) = ps

keep_u32-some :
    (p : ℕ × ℕ) (o : Option Pairs) (qs : Pairs)
    → keep_u32 p o ≡ some qs
    → (ps : Pairs) × (o ≡ some ps) × (p ∷ ps ≡ qs)
unfolding keep_u32 or_nil
keep_u32-some p none qs e = absurd (ground arith)
keep_u32-some p (some ps) qs e = elim (Bool-cases (leb p.1 u32_max)) [
  | inl fits ↦ (ps, refl, ap or_nil (rw fits at e))
  | inr fits ↦ absurd (ground arith)
]

pub all_u32-same : (ps qs : Pairs) → all_u32 ps ≡ some qs → ps ≡ qs
unfolding all_u32 or_nil
all_u32-same [] qs e = ap or_nil e
all_u32-same (p ∷ ps) qs e =
    let kept = keep_u32-some p (all_u32 ps) qs e in
    ap (λ xs. p ∷ xs) (all_u32-same ps kept.0 kept.1) ∙ kept.2

pub recorded-IsRecord :
    (max : ℕ) (rows : List ℕ) (counts : Counts)
    → Represents max (count_words rows) counts
    → IsRecord rows (recorded counts)
unfolding Represents recorded
recorded-IsRecord max rows too_many r = tt
recorded-IsRecord max rows (values ps) r = elim (Option-cases (all_u32 ps)) [
  | inl n ↦ rw n tt
  | inr s ↦ let same = all_u32-same ps s.0 s.1 in rw (s.1, sym same) (r.0, r.3)
]

-- The answer of the bounds, or of the record where they settle nothing.
asked-none :
    (held : Option Bool) (count : Option ℕ)
    → asked held count ≡ some false
    → (held ≡ some false) ⊎ (count ≡ some 0)
unfolding asked
asked-none (some held) count e = inl e
asked-none none (some zero) e = inr refl
asked-none none (some (suc n)) e = absurd (ground arith)
asked-none none none e = absurd (ground arith)

asked-all :
    (held : Option Bool) (count : Option ℕ) → asked held count ≡ some true → held ≡ some true
unfolding asked
asked-all (some held) count e = e
asked-all none (some zero) e = absurd (ground arith)
asked-all none (some (suc n)) e = absurd (ground arith)
asked-all none none e = absurd (ground arith)

module _ (codes : List ℕ) (z : ColumnZones) (described : Describes codes z) (zone code : ℕ) where
  abbrev slice : List ℕ
  slice = zone_slice z zone codes

  on_bounds :
      (held : Bool)
      → zone < zones z
      → eq_on_bounds (zone_bounds z zone).0 (zone_bounds z zone).1 code ≡ some held
      → eq_on_bounds (least u64_max slice) (greatest 0 slice) code ≡ some held
  unfolding Describes
  on_bounds held h e = subst (λ b. eq_on_bounds b.0 b.1 code ≡ some held) (described.2 zone h).0 e

  -- A zone that is said to hold a code in no row holds it in none: by its bounds, or by its record.
  pub eq_holds-none :
      zone < zones z
      → eq_holds z zone code ≡ some false
      → count_words (zone_slice z zone codes) code ≡ 0
  unfolding Describes eq_holds
  eq_holds-none h e =
      let b = zone_bounds z zone in
      elim (asked-none (eq_on_bounds b.0 b.1 code) (recorded_count z zone code) e) [
        | inl out ↦ eq_on_bounds-none u64_max 0 code slice (on_bounds false h out)
        | inr nothing ↦ sym ((described.2 zone h).1 code 0 nothing)
      ]

  -- A zone that is said to hold a code in every row does.
  pub eq_holds-all :
      zone < zones z
      → eq_holds z zone code ≡ some true
      → count_words (zone_slice z zone codes) code ≡ length (zone_slice z zone codes)
  unfolding Describes eq_holds
  eq_holds-all h e =
      let b = zone_bounds z zone in
      let held = asked-all (eq_on_bounds b.0 b.1 code) (recorded_count z zone code) e in
      eq_on_bounds-all u64_max 0 code slice (on_bounds true h held)
