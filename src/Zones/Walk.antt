-- ===== src/Zones/Walk.antt =====
-- core/src/zone_stats/zone_set.rs: the walk of `ZoneSet::class` over its checks.
use vortex_rdf.Prelude.{
  ◌&&◌, ◌||◌, ℕ, zero, suc, ◌<◌, ◌≡◌, ◌≢◌, ◌⊎◌, refl, sym, ap, ◌∙◌, Bool, true, false, inl, inr,
  List, [], ◌∷◌, Option, none, some, arith, Bool-cases, ◌==◌, get_or,
}
use vortex_rdf.Zones.ZoneMap.{
  ColumnZones, zones, zone_bounds, eq_on_bounds, recorded_count, asked, eq_holds,
}
use vortex_rdf.Zones.Described.{Describes}
use vortex_rdf.Zones.Checks.{
  new_set, ZoneSet, checks, ZoneClass, no_row, every_row, mixed, ZoneCheck, same_geometry, all_fit,
  or_bit, is_false, ruled_out, every_bit, settle, class_of,
}
use vortex_rdf.Zones.Bits.{has_bit, has_bit-pos, has_bit-or_bit, or_bit-pos}
use vortex_rdf.Zones.Rows.{InZone, row-none, row-all, geometry-InZone}

-- Each check's zone map is that of the check's column.
unfoldable pub AllDescribe : List ZoneCheck → List (List ℕ) → Type 0
AllDescribe [] columns = Unit {0}
AllDescribe (c ∷ cs) [] = ⊥
AllDescribe (c ∷ cs) (xs ∷ columns) = Describes xs c.zones × AllDescribe cs columns

-- The row holds each check's code.
unfoldable pub Passes : List ZoneCheck → List (List ℕ) → ℕ → Type 0
Passes [] columns row = Unit {0}
Passes (c ∷ cs) [] row = ⊥
Passes (c ∷ cs) (xs ∷ columns) row = (get_or xs row 0 ≡ c.code) × Passes cs columns row

-- Where a walk that settles a check ends.
settle-none :
    (held : Option Bool) (rest unsettled : ZoneClass)
    → settle held rest unsettled ≡ no_row
    → (held ≡ some false) ⊎ ((rest ≡ no_row) ⊎ (unsettled ≡ no_row))
unfolding settle
settle-none (some false) rest unsettled e = inl refl
settle-none (some true) rest unsettled e = inr (inl e)
settle-none none rest unsettled e = inr (inr e)

settle-all :
    (held : Option Bool) (rest unsettled : ZoneClass)
    → settle held rest unsettled ≡ every_row
    → ((held ≡ some true) × (rest ≡ every_row)) ⊎ (unsettled ≡ every_row)
unfolding settle
settle-all (some false) rest unsettled e = absurd (ground arith)
settle-all (some true) rest unsettled e = inl (refl, e)
settle-all none rest unsettled e = inr e

settle-mixed :
    (held : Option Bool) (rest unsettled : ZoneClass) (bits : ℕ)
    → settle held rest unsettled ≡ mixed bits
    → ((held ≡ some true) × (rest ≡ mixed bits)) ⊎ ((held ≡ none) × (unsettled ≡ mixed bits))
unfolding settle
settle-mixed (some false) rest unsettled bits e = absurd (ground arith)
settle-mixed (some true) rest unsettled bits e = inl (refl, e)
settle-mixed none rest unsettled bits e = inr (refl, e)

is_false-eq : (held : Option Bool) → is_false held ≡ true → held ≡ some false
unfolding is_false
is_false-eq (some false) e = refl
is_false-eq (some true) e = absurd (ground arith)
is_false-eq none e = absurd (ground arith)

module _ (y : ColumnZones) (zone row : ℕ) (h : zone < zones y) (within : InZone y zone row) where
  check-none :
      (c : ZoneCheck) (xs : List ℕ)
      → same_geometry y c.zones ≡ true
      → Describes xs c.zones
      → eq_holds c.zones zone c.code ≡ some false
      → get_or xs row 0 ≢ c.code
  check-none c xs fit d e =
      let at = geometry-InZone y c.zones zone row fit h within in
      row-none xs c.zones d zone row c.code at.0 at.1 e

  pub class_of-none :
      (cs : List ZoneCheck) (columns : List (List ℕ)) (bits : ℕ)
      → all_fit y cs ≡ true
      → AllDescribe cs columns
      → class_of cs zone bits ≡ no_row
      → Passes cs columns row
      → ⊥
  unfolding class_of all_fit AllDescribe Passes
  class_of-none [] columns zero fit d e p = ground arith
  class_of-none [] columns (suc n) fit d e p = ground arith
  class_of-none (c ∷ cs) [] bits fit d e p = d
  class_of-none (c ∷ cs) (xs ∷ columns) bits fit d e p =
      let own : same_geometry y c.zones ≡ true = ground arith in
      let fits : all_fit y cs ≡ true = ground arith in
      let bits' = or_bit bits c.bit in
      elim (settle-none (eq_holds c.zones zone c.code) (class_of cs zone bits)
        (class_of cs zone bits') e) [
          | inl held ↦ check-none c xs own d.0 held p.0
          | inr (inl rest) ↦ class_of-none cs columns bits fits d.1 rest p.1
          | inr (inr rest) ↦ class_of-none cs columns bits' fits d.1 rest p.1
        ]

  pub class_of-all :
      (cs : List ZoneCheck) (columns : List (List ℕ)) (bits : ℕ)
      → all_fit y cs ≡ true
      → AllDescribe cs columns
      → class_of cs zone bits ≡ every_row
      → (bits ≡ 0) × Passes cs columns row
  unfolding class_of all_fit AllDescribe Passes
  class_of-all [] columns zero fit d e = (refl, tt)
  class_of-all [] columns (suc n) fit d e = absurd (ground arith)
  class_of-all (c ∷ cs) [] bits fit d e = absurd d
  class_of-all (c ∷ cs) (xs ∷ columns) bits fit d e =
      let own : same_geometry y c.zones ≡ true = ground arith in
      let fits : all_fit y cs ≡ true = ground arith in
      let bits' = or_bit bits c.bit in
      let at = geometry-InZone y c.zones zone row own h within in
      elim (settle-all (eq_holds c.zones zone c.code) (class_of cs zone bits)
        (class_of cs zone bits') e) [
          | inl held ↦
              let rest = class_of-all cs columns bits fits d.1 held.1 in
              (rest.0, (row-all xs c.zones d.0 zone row c.code at.0 at.1 held.0, rest.1))
          | inr unsettled ↦
              let rest = class_of-all cs columns bits' fits d.1 unsettled in
              absurd (omega (arith, rest.0, or_bit-pos bits c.bit))
        ]

  pub ruled_out-none :
      (cs : List ZoneCheck) (columns : List (List ℕ))
      → all_fit y cs ≡ true
      → AllDescribe cs columns
      → ruled_out cs zone ≡ true
      → Passes cs columns row
      → ⊥
  unfolding ruled_out all_fit AllDescribe Passes
  ruled_out-none [] columns fit d e p = ground arith
  ruled_out-none (c ∷ cs) [] fit d e p = d
  ruled_out-none (c ∷ cs) (xs ∷ columns) fit d e p =
      let own : same_geometry y c.zones ≡ true = ground arith in
      let fits : all_fit y cs ≡ true = ground arith in
      let b = zone_bounds c.zones zone in
      elim (Bool-cases (is_false (eq_on_bounds b.0 b.1 c.code))) [
        | inl out ↦
            let bounds = is_false-eq (eq_on_bounds b.0 b.1 c.code) out in
            let count = recorded_count c.zones zone c.code in
            let held : eq_holds c.zones zone c.code ≡ some false =
              unfold eq_holds asked in ap (λ o. asked o count) bounds in
            check-none c xs own d.0 held p.0
        | inr in' ↦ ruled_out-none cs columns fits d.1 (ground arith) p.1
      ]

-- Whether a check leaves a zone to its rows, and whether one of them has a bit.
unfoldable pub is_open : Bool → Option Bool → Bool
is_open true held = true
is_open false none = true
is_open false (some held) = false

unfoldable pub open_bit : Bool → List ZoneCheck → ℕ → ℕ → Bool
unfolding is_open
open_bit only [] zone j = false
open_bit only (c ∷ cs) zone j =
    ((c.bit == j) && is_open only (eq_holds c.zones zone c.code)) || open_bit only cs zone j

-- Whether a check rules a zone out.
unfoldable pub refuted : List ZoneCheck → ℕ → Bool
unfolding is_false
refuted [] zone = false
refuted (c ∷ cs) zone = is_false (eq_holds c.zones zone c.code) || refuted cs zone

module _ (zone : ℕ) where
  pub class_of-mixed :
      (cs : List ZoneCheck) (bits found : ℕ)
      → class_of cs zone bits ≡ mixed found
      → (0 < found)
        × (refuted cs zone ≡ false)
        × ((j : ℕ) → has_bit found j ≡ has_bit bits j || open_bit false cs zone j)
  unfolding class_of refuted open_bit is_open is_false
  class_of-mixed [] zero found e = absurd (ground arith)
  class_of-mixed [] (suc n) found e =
      let same : suc n ≡ found = ground arith in
      (omega (arith, same), refl, λ j. rw (sym same) (ground arith))
  class_of-mixed (c ∷ cs) bits found e =
      let held = eq_holds c.zones zone c.code in
      let bits' = or_bit bits c.bit in
      elim (settle-mixed held (class_of cs zone bits) (class_of cs zone bits') found e) [
        | inl all ↦
            let rest = class_of-mixed cs bits found all.1 in
            (rest.0, rw all.0 rest.1, λ j. rw all.0 (ground (arith, rest.2 j)))
        | inr left ↦
            let rest = class_of-mixed cs bits' found left.1 in
            (
              rest.0,
              rw left.0 rest.1,
              λ j. rw left.0 (ground (arith, rest.2 j, has_bit-or_bit bits c.bit j)),
            )
      ]

  pub every_bit-lem :
      (cs : List ZoneCheck) (bits j : ℕ)
      → has_bit (every_bit cs bits) j ≡ has_bit bits j || open_bit true cs zone j
  unfolding every_bit open_bit is_open
  every_bit-lem [] bits j = ground arith
  every_bit-lem (c ∷ cs) bits j =
      ground (arith, every_bit-lem cs (or_bit bits c.bit) j, has_bit-or_bit bits c.bit j)

  pub every_bit-pos : (c : ZoneCheck) (cs : List ZoneCheck) (bits : ℕ) → 0 < every_bit (c ∷ cs) bits
  unfolding open_bit is_open
  every_bit-pos c cs bits =
      let here : (c.bit == c.bit) ≡ true = ground arith in
      has_bit-pos (every_bit (c ∷ cs) bits) c.bit
        (every_bit-lem (c ∷ cs) bits c.bit ∙ rw here (ground arith))

-- Checks that `ZoneSet::new` takes have one geometry.
pub new_set-fits :
    (s : ZoneSet) → new_set (checks s) s.unzoned ≢ none → all_fit s.first.zones (checks s) ≡ true
unfolding new_set
new_set-fits s taken = elim (Bool-cases (all_fit s.first.zones (checks s))) [
  | inl fit ↦ fit
  | inr refused ↦ absurd (taken (rw refused refl))
]
