-- ===== src/Zones/Decided.antt =====
-- core/src/zone_stats/zone_map.rs, `ColumnZones::eq_holds`: when a zone map settles `x = code`.
use vortex_rdf.Prelude.{
  ℕ, ◌≤◌, ◌<◌, ◌≡◌, ◌⊎◌, ◌↔◌, refl, ap, ◌∙◌, Bool, true, false, inl, inr, List, [], ◌∷◌, Option,
  none, some, arith, min, max, length,
}
use vortex_rdf.Search.Sinks.{count_words}
use vortex_rdf.Zones.ZoneMap.{
  ColumnZones, least, greatest, zones, zone_bounds, eq_on_bounds, recorded_count, asked, eq_holds,
}
use vortex_rdf.Zones.Builder.{u64_max}
use vortex_rdf.Zones.Described.{zone_slice, Describes, bounds_of}
use vortex_rdf.Zones.Gathered.{count_words-le}
use vortex_rdf.Zones.Described.{eq_holds-none, eq_holds-all}

-- Rows that all hold the code.
rest_all :
    (x code : ℕ) (xs : List ℕ)
    → count_words (x ∷ xs) code ≡ length (x ∷ xs)
    → (x ≡ code) × (count_words xs code ≡ length xs)
unfolding count_words
rest_all x code xs all =
    let few = count_words-le xs code in (ground (arith, few), ground (arith, few))

least-same : (code : ℕ) (xs : List ℕ) → count_words xs code ≡ length xs → least code xs ≡ code
unfolding least
least-same code [] all = refl
least-same code (x ∷ xs) all =
    let r = rest_all x code xs all in
    let e : min code x ≡ code = omega (arith, r.0) in
    ap (λ m. least m xs) e ∙ least-same code xs r.1

greatest-same : (code : ℕ) (xs : List ℕ) → count_words xs code ≡ length xs → greatest code xs ≡ code
unfolding greatest
greatest-same code [] all = refl
greatest-same code (x ∷ xs) all =
    let r = rest_all x code xs all in
    let e : max code x ≡ code = omega (arith, r.0) in
    ap (λ m. greatest m xs) e ∙ greatest-same code xs r.1

bounds_of-same :
    (code : ℕ) (xs : List ℕ)
    → code ≤ u64_max
    → 0 < length xs
    → count_words xs code ≡ length xs
    → bounds_of xs ≡ (code, code)
unfolding least greatest
bounds_of-same code [] small some_rows all = absurd (omega arith)
bounds_of-same code (x ∷ xs) small some_rows all =
    let r = rest_all x code xs all in
    let e : min u64_max x ≡ code = omega (arith, r.0) in
    let f : max 0 x ≡ code = omega (arith, r.0) in
    λ i. (
      (ap (λ m. least m xs) e ∙ least-same code xs r.1) i,
      (ap (λ m. greatest m xs) f ∙ greatest-same code xs r.1) i,
    )

eq_on_bounds-same : (code : ℕ) → eq_on_bounds code code code ≡ some true
unfolding eq_on_bounds
eq_on_bounds-same code = ground arith

asked-settled :
    (held : Option Bool) (count : Option ℕ) (n : ℕ)
    → count ≡ some n
    → n ≡ 0
    → (asked held count ≡ some false) ⊎ (held ≡ some true)
unfolding asked
asked-settled (some false) count n e z = inl refl
asked-settled (some true) count n e z = inr refl
asked-settled none count n e z = inl (rw (e, z) refl)

-- What the rows of a zone settle: rows that all hold the code, and, with a record, rows of which
-- none does.
unfoldable pub Settles : Option Bool → List ℕ → Option ℕ → ℕ → Type 0
Settles held rows count code =
    ((held ≡ some true) ↔ (count_words rows code ≡ length rows))
    × ((n : ℕ) → count ≡ some n → (held ≡ some false) ↔ (count_words rows code ≡ 0))

-- A zone is taken whole for a code of 64 bits exactly when each of its rows holds the code; a zone
-- with a record is passed over exactly when none does. The zone map is that of the codes, and the
-- zone has a row.
pub eq_holds-Settles :
    (codes : List ℕ) (z : ColumnZones) (zone code : ℕ)
    → Describes codes z
    → zone < zones z
    → 0 < length (zone_slice z zone codes)
    → code ≤ u64_max
    → Settles (eq_holds z zone code) (zone_slice z zone codes) (recorded_count z zone code) code
unfolding Settles
eq_holds-Settles codes z zone code described h some_rows small =
    let rows = zone_slice z zone codes in
    let b = zone_bounds z zone in
    let count = recorded_count z zone code in
    let on_bounds : zone_bounds z zone ≡ bounds_of rows =
      unfold Describes in (described.2 zone h).0 in
    let exact : (n : ℕ) → count ≡ some n → n ≡ count_words rows code =
      unfold Describes in λ n e. (described.2 zone h).1 code n e in
    (
      (
        eq_holds-all codes z described zone code h,
        λ all.
            let same = on_bounds ∙ bounds_of-same code rows small some_rows all in
            let held : eq_on_bounds b.0 b.1 code ≡ some true =
              ap (λ p. eq_on_bounds p.0 p.1 code) same ∙ eq_on_bounds-same code in
            unfold eq_holds asked in ap (λ o. asked o count) held,
      ),
      λ n e. (
        eq_holds-none codes z described zone code h,
        λ zero'. elim (asked-settled (eq_on_bounds b.0 b.1 code) count n e (exact n e ∙ zero')) [
          | inl out ↦ unfold eq_holds in out
          | inr all ↦
              let taken : eq_holds z zone code ≡ some true =
                unfold eq_holds asked in ap (λ o. asked o count) all in
              let full = eq_holds-all codes z described zone code h taken in
              absurd (omega (arith, full, zero', some_rows))
        ],
      ),
    )
