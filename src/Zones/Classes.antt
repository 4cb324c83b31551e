-- ===== src/Zones/Classes.antt =====
-- core/src/zone_stats/zone_set.rs, `ZoneSet::class`: what the class of a zone says of its rows.
use vortex_rdf.Prelude.{
  ◌||◌, subst, ℕ, ◌<◌, ◌≡◌, none, ◌≢◌, refl, sym, ap, ◌∙◌, true, false, inl, inr, List, Bool-cases,
  if◌then◌else◌,
}
use vortex_rdf.Zones.ZoneMap.{zones}
use vortex_rdf.Zones.Checks.{
  new_set, ZoneClass, no_row, every_row, mixed, ZoneSet, checks, ruled_out, every_bit, class_of,
  class,
}
use vortex_rdf.Zones.Bits.{has_bit}
use vortex_rdf.Zones.Rows.{InZone}
use vortex_rdf.Zones.Walk.{
  new_set-fits, AllDescribe, Passes, class_of-none, class_of-all, ruled_out-none, open_bit, refuted,
  class_of-mixed, every_bit-lem, every_bit-pos,
}

-- What the class of a zone says: in a zone of class `no_row` no row passes every check; in one of
-- class `every_row` each does, and no check is without a zone map; and else no check that is asked
-- rules the zone out, some check is left, and the bits are those of the checks that are left to the
-- rows: those that their zone maps do not settle (or, by the bounds alone, all), and the unzoned.
unfoldable pub Says : ZoneClass → ZoneSet → List (List ℕ) → ℕ → ℕ → Type 0
unfolding Passes
Says no_row s columns zone row = ¬ (Passes (checks s) columns row)
Says every_row s columns zone row = (s.unzoned ≡ 0) × Passes (checks s) columns row
Says (mixed bits) s columns zone row =
    (0 < bits)
    × ((if s.bounds_only then ruled_out (checks s) zone else refuted (checks s) zone) ≡ false)
    × ((j : ℕ) → has_bit bits j ≡ has_bit s.unzoned j || open_bit s.bounds_only (checks s) zone j)

-- The class of a zone is right of each of its rows, and leaves open no more than the zone maps do; by
-- the records and the bounds, or by the bounds alone. The checks' zone maps are those of their
-- columns, and `ZoneSet::new` takes them.
pub class-Says :
    (s : ZoneSet) (columns : List (List ℕ)) (zone row : ℕ)
    → new_set (checks s) s.unzoned ≢ none
    → AllDescribe (checks s) columns
    → zone < zones s.first.zones
    → InZone s.first.zones zone row
    → Says (class s zone) s columns zone row
unfolding class Says
class-Says s columns zone row taken d h within =
    let fit = new_set-fits s taken in
    let y = s.first.zones in
    elim (Bool-cases s.bounds_only) [
      | inl only ↦
          subst (λ c. Says c s columns zone row) (sym (by_bounds only))
            (elim (Bool-cases (ruled_out (checks s) zone)) [
              | inl out ↦
                  rw out (λ p. ruled_out-none y zone row h within (checks s) columns fit d out p)
              | inr kept ↦ rw kept (kept_says only kept)
            ])
      | inr both ↦
          subst (λ c. Says c s columns zone row) (sym (by_all both))
            (says both (class_of (checks s) zone s.unzoned) refl
              (λ e p. class_of-none y zone row h within (checks s) columns s.unzoned fit d e p)
              (λ e. class_of-all y zone row h within (checks s) columns s.unzoned fit d e))
    ]
  where
    bounded : ZoneClass
    bounded = if ruled_out (checks s) zone then no_row else mixed (every_bit (checks s) s.unzoned)

    by_bounds : s.bounds_only ≡ true → class s zone ≡ bounded
    by_bounds only = ap (λ b. if b then bounded else class_of (checks s) zone s.unzoned) only

    by_all : s.bounds_only ≡ false → class s zone ≡ class_of (checks s) zone s.unzoned
    by_all both = ap (λ b. if b then bounded else class_of (checks s) zone s.unzoned) both

    kept_says :
        s.bounds_only ≡ true
        → ruled_out (checks s) zone ≡ false
        → Says (mixed (every_bit (checks s) s.unzoned)) s columns zone row
    kept_says only kept = (
      every_bit-pos zone s.first s.others s.unzoned,
      ap (λ b. if b then ruled_out (checks s) zone else refuted (checks s) zone) only ∙ kept,
      λ j.
          every_bit-lem zone (checks s) s.unzoned j
          ∙ ap (λ b. has_bit s.unzoned j || open_bit b (checks s) zone j) (sym only),
    )

    says :
        s.bounds_only ≡ false
        → (c : ZoneClass) → class_of (checks s) zone s.unzoned ≡ c
        → (c ≡ no_row → Passes (checks s) columns row → ⊥)
        → (c ≡ every_row → (s.unzoned ≡ 0) × Passes (checks s) columns row)
        → Says c s columns zone row
    says both no_row e f g = f refl
    says both every_row e f g = g refl
    says both (mixed bits) e f g =
        let left = class_of-mixed zone (checks s) s.unzoned bits e in
        (
          left.0,
          ap (λ b. if b then ruled_out (checks s) zone else refuted (checks s) zone) both ∙ left.1,
          λ j. left.2 j ∙ ap (λ b. has_bit s.unzoned j || open_bit b (checks s) zone j) (sym both),
        )
