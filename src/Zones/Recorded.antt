-- ===== src/Zones/Recorded.antt =====
-- core/src/zone_stats/zone_map.rs, `decode_states`: the records of a file's zone table.
use vortex_rdf.Prelude.{
  ℕ, suc, ◌+◌, ◌-◌, ◌≡◌, refl, sym, ap, ◌∙◌, true, false, inl, inr, List, [], ◌∷◌, map, arith,
  Bool-cases, Option-cases, if◌then◌else◌, ◌==◌, ==_iff, length, length-take, length-drop, drop,
}
use vortex_rdf.Search.Sinks.{count_words, flag}
use vortex_rdf.Zones.Counts.{
  Pairs, Counts, values, too_many, keys, max_values, recorded, all_u32, to_scalar,
}
use vortex_rdf.Zones.Places.{weight, count_at, IsAscending, Represents}
use vortex_rdf.Zones.ZoneMap.{
  ColumnZones, zone_rows, sum_of, if_sum, decode_states, with_records, with_recorded,
}
use vortex_rdf.Zones.Described.{zone_slice, count_at-below, all_u32-same}
use vortex_rdf.Zones.States.{decode_state-to_scalar}

-- The rows that do not hold the code.
unfoldable without : ℕ → List ℕ → List ℕ
without k [] = []
without k (r ∷ rows) = let rest = without k rows in if r == k then rest else r ∷ rest

length-without :
    (k : ℕ) (rows : List ℕ) → length rows ≡ count_words rows k + length (without k rows)
unfolding without count_words
length-without k [] = omega arith
length-without k (r ∷ rows) = elim (Bool-cases (r == k)) [
  | inl e ↦ rw e (omega (arith, length-without k rows))
  | inr e ↦ rw e (omega (arith, length-without k rows))
]

count_words-without_self : (k : ℕ) (rows : List ℕ) → count_words (without k rows) k ≡ 0
unfolding without count_words
count_words-without_self k [] = refl
count_words-without_self k (r ∷ rows) = elim (Bool-cases (r == k)) [
  | inl e ↦ rw e (count_words-without_self k rows)
  | inr e ↦ let miss = ap flag e in rw e (omega (arith, miss, count_words-without_self k rows))
]

count_words-without_other :
    (k x : ℕ) (rows : List ℕ)
    → (k == x) ≡ false
    → count_words (without k rows) x ≡ count_words rows x
unfolding without count_words
count_words-without_other k x [] h = refl
count_words-without_other k x (r ∷ rows) h = elim (Bool-cases (r == k)) [
  | inl e ↦
      let miss : flag (r == x) ≡ 0 = ground arith in
      rw e (omega (arith, miss, count_words-without_other k x rows h))
  | inr e ↦ rw e (omega (arith, count_words-without_other k x rows h))
]

-- Exact pairs sum to the number of rows.
sum_of-length :
    (lo : ℕ) (ps : Pairs) (rows : List ℕ)
    → IsAscending lo (keys ps)
    → ((x : ℕ) → count_at x ps ≡ count_words rows x)
    → sum_of ps ≡ length rows
unfolding sum_of IsAscending count_at count_words
sum_of-length lo [] [] a exact = refl
sum_of-length lo [] (r ∷ rows) a exact = absurd (ground (arith, exact r))
sum_of-length lo (p ∷ ps) rows a exact =
    let k = p.0 in
    let below = count_at-below (suc k) k ps a.1 (omega arith) in
    let own : p.1 ≡ count_words rows k =
      let here : weight k p.1 k ≡ p.1 = ground arith in omega (arith, exact k, below, here) in
    let rest : (x : ℕ) → count_at x ps ≡ count_words (without k rows) x = λ x.
      elim (Bool-cases (k == x)) [
        | inl e ↦
            let same = (==_iff k x).0 e in
            ap (λ y. count_at y ps) (sym same)
            ∙ below
            ∙ sym (count_words-without_self k rows)
            ∙ ap (λ y. count_words (without k rows) y) same
        | inr e ↦
            let none' : weight k p.1 x ≡ 0 = rw e refl in
            omega (arith, exact x, none', count_words-without_other k x rows e)
      ] in
    omega (arith, own, length-without k rows, sum_of-length (suc k) ps (without k rows) a.1 rest)

if_sum-recorded :
    (rows : List ℕ) (counts : Counts) (n : ℕ)
    → n ≡ length rows
    → Represents max_values (count_words rows) counts
    → if_sum (recorded counts) n ≡ recorded counts
unfolding if_sum recorded Represents
if_sum-recorded rows too_many n e r = refl
if_sum-recorded rows (values ps) n e r = elim (Option-cases (all_u32 ps)) [
  | inl nothing ↦ rw nothing refl
  | inr s ↦
      let same = all_u32-same ps s.0 s.1 in
      let sum = sum_of-length 0 ps rows r.0 r.3 ∙ sym e in
      let hit : (sum_of s.0 == n) ≡ true = (==_iff (sum_of s.0) n).1 (ap sum_of (sym same) ∙ sum) in
      rw (s.1, hit) refl
]

-- Each of the counts stands for the rows of its zone, from zone `zone` on.
unfoldable pub AllStand : ColumnZones → List ℕ → ℕ → List Counts → Type 0
AllStand z codes zone [] = Unit {0}
AllStand z codes zone (c ∷ cs) =
    Represents max_values (count_words (zone_slice z zone codes)) c × AllStand z codes (suc zone) cs

module _ (z : ColumnZones) (codes : List ℕ) (covers : z.row_count ≡ length codes) where
  abbrev rows_of : ℕ → ℕ
  rows_of zone = (zone_rows z zone).1 - (zone_rows z zone).0

  rows_of-length : (zone : ℕ) → rows_of zone ≡ length (zone_slice z zone codes)
  unfolding zone_slice zone_rows
  rows_of-length zone =
      let rows = zone_rows z zone in
      omega
        (arith, covers, length-take (rows.1 - rows.0) (drop rows.0 codes), length-drop rows.0 codes)

  decode_states-recorded :
      (zone : ℕ) (counts : List Counts)
      → AllStand z codes zone counts
      → decode_states (map to_scalar counts) rows_of zone ≡ map recorded counts
  unfolding AllStand decode_states
  decode_states-recorded zone [] stand = refl
  decode_states-recorded zone (c ∷ cs) stand =
      let slice = zone_slice z zone codes in
      let here =
        ap (λ o. if_sum o (rows_of zone)) (decode_state-to_scalar (count_words slice) c stand.0)
        ∙ if_sum-recorded slice c (rows_of zone) (rows_of-length zone) stand.0 in
      λ i. here i ∷ decode_states-recorded (suc zone) cs stand.1 i

  -- The states of a file's zone table, written from counts of each zone's rows, give a zone map the
  -- records that a build of the same rows gives it, and no record is lost; the map covers the rows.
  pub with_recorded-with_records :
      (counts : List Counts)
      → AllStand z codes 0 counts
      → with_recorded z (map to_scalar counts) ≡ with_records z (map recorded counts)
  unfolding with_recorded
  with_recorded-with_records counts stand =
      ap (with_records z) (decode_states-recorded 0 counts stand)
