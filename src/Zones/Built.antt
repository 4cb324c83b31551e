-- ===== src/Zones/Built.antt =====
-- core/src/zone_stats/quad_zones.rs, `ZoneBuilder::finish`: the zone map of the codes gathered.
use vortex_rdf.Prelude.{
  ℕ, ◌*◌, ◌<◌, ◌≡◌, ◌≢◌, ◌⊎◌, refl, sym, ap, subst, ◌∙◌, true, false, inl, inr, List, [], ◌∷◌, ◌++◌,
  none, some, arith, Bool-cases, ltb, ◌==◌, ==_iff, length, length-append, get_or, take, drop,
  take-all,
}
use vortex_rdf.Prelude.Fallible.{ok}
use vortex_rdf.Zones.ZoneMap.{zone_rows_max, ColumnZones}
use vortex_rdf.Zones.Builder.{
  ZoneBuilder, close, close_records, finish, new_builder, recording, fold_column,
}
use vortex_rdf.Zones.Described.{Describes}
use mathlib.Core.List.{append-nil}
use vortex_rdf.Zones.Gathered.{
  concat-append, concat, AllFull, Gathered, AreBounds-append, close_records-Keeps,
}
use vortex_rdf.Zones.Pushed.{fold_column-Gathered}
use mathlib.Core.List.{append-nil}
use vortex_rdf.Zones.Gathered.{concat-append, new_builder-Gathered, recording-Gathered}
use vortex_rdf.Zones.Slices.{length-codes, closed_slice, last_slice}
use vortex_rdf.Zones.Cuts.{Cuts, get_or-before, get_or-behind, with_kept-Describes}

length-nil : (xs : List ℕ) → length xs ≡ 0 → xs ≡ []
length-nil [] z = refl
length-nil (x ∷ xs) z = absurd (omega arith)

module _ (codes : List ℕ) (rs : List (List ℕ)) (last : List ℕ) (full : AllFull rs) where
  whole_Cuts : codes ≡ concat rs ++ last → length last ≡ 0 → 0 < length codes → Cuts codes rs
  whole_Cuts e z some_rows =
      let size = ap length e ∙ length-codes last rs full in
      record {
        whole = e ∙ ap (λ xs. concat rs ++ xs) (length-nil last z) ∙ append-nil (concat rs);
        least_rows = omega (arith, size, z);
        most_rows = omega (arith, size, z);
        slices = λ k h.
            ap (λ xs. take zone_rows_max (drop (k * zone_rows_max) xs)) e
            ∙ closed_slice last rs k full h;
      }

  more_Cuts :
      codes ≡ concat rs ++ last
      → 0 < length last
      → length last < zone_rows_max
      → Cuts codes (rs ++ last ∷ [])
  more_Cuts e some_rows short =
      let size = ap length e ∙ length-codes last rs full in
      let more = length-append rs (last ∷ []) in
      record {
        whole = e ∙ sym (concat-append rs last);
        least_rows = omega (arith, size, more);
        most_rows = omega (arith, size, more);
        slices = λ k h.
            ap (λ xs. take zone_rows_max (drop (k * zone_rows_max) xs)) e
            ∙ elim (Bool-cases (ltb k (length rs))) [
              | inl before ↦
                  let h' : k < length rs = ground arith in
                  closed_slice last rs k full h' ∙ sym (get_or-before rs last k h')
              | inr behind ↦
                  let at : k ≡ length rs = ground (arith, more) in
                  ap (λ j. take zone_rows_max (drop (j * zone_rows_max) (concat rs ++ last))) at
                  ∙ ap (take zone_rows_max) (last_slice last rs full)
                  ∙ take-all zone_rows_max last (omega arith)
                  ∙ sym (get_or-behind rs last)
                  ∙ ap (λ j. get_or (rs ++ last ∷ []) j []) (sym at)
            ];
      }

-- A builder that has gathered `codes`, which are not empty, finishes with their zone map: the exact
-- bounds of all the rows, and a zone for each 8,192 rows begun, with the exact bounds of its rows, and
-- with exact counts where it has a record.
pub finish-Describes :
    (codes : List ℕ) (b : ZoneBuilder)
    → Gathered codes b
    → 0 < length codes
    → (z : ColumnZones) × (finish b (length codes) ≡ ok (some z)) × Describes codes z
unfolding finish
finish-Describes codes b g some_rows =
    let seen : (b.rows == length codes) ≡ true = (==_iff b.rows (length codes)).1 g.seen in
    let rows : (length codes == 0) ≡ false = ground arith in
    elim (Bool-cases (ltb 0 b.filled)) [
      | inl filling ↦
          let here : 0 < length g.current = ground (arith, g.filling.0) in
          let short : length g.current < zone_rows_max = omega (arith, g.filling.0, g.filling.1) in
          let rs = g.closed ++ g.current ∷ [] in
          rw (seen, rows, filling)
            (unfold close in
              with_kept-Describes codes rs (b.mins ++ b.lo ∷ []) (b.maxes ++ b.hi ∷ [])
                (more_Cuts codes g.closed g.current g.full g.joined here short)
                (AreBounds-append g.closed g.current b.mins b.maxes b.lo b.hi g.bounds g.low g.high)
                (close_records b.records) []
                (close_records-Keeps g.closed g.current b.records g.kept))
      | inr nothing ↦
          let empty : length g.current ≡ 0 = ground (arith, g.filling.0) in
          rw (seen, rows, nothing)
            (with_kept-Describes codes g.closed b.mins b.maxes
              (whole_Cuts codes g.closed g.current g.full g.joined empty some_rows) g.bounds
              b.records g.current g.kept)
    ]

-- A column whose codes were only partly seen has no zone map.
pub finish-partly :
    (codes : List ℕ) (b : ZoneBuilder) (rows : ℕ)
    → Gathered codes b
    → rows ≢ length codes
    → finish b rows ≡ ok none
unfolding finish
finish-partly codes b rows g other =
    let seen : (b.rows == rows) ≡ false = elim (Bool-cases (b.rows == rows)) [
      | inl e ↦ absurd (other (sym ((==_iff b.rows rows).0 e) ∙ g.seen))
      | inr e ↦ e
    ] in
    rw seen refl

-- A column of codes that is fed slice by slice, cut anywhere, has the zone map of its codes, with
-- records or without: the exact bounds of the column and of each zone, and exact counts where a zone
-- has a record. The column is not empty.
pub column-Describes :
    (slices : List (List ℕ)) (b : ZoneBuilder)
    → (b ≡ new_builder) ⊎ (b ≡ recording)
    → 0 < length (concat slices)
    → (z : ColumnZones) × (finish (fold_column b slices) (length (concat slices)) ≡ ok (some z))
      × Describes (concat slices) z
column-Describes slices b (inl e) some_rows =
    finish-Describes (concat slices) (fold_column b slices)
      (fold_column-Gathered [] slices b (subst (λ c. Gathered [] c) (sym e) new_builder-Gathered))
      some_rows
column-Describes slices b (inr e) some_rows =
    finish-Describes (concat slices) (fold_column b slices)
      (fold_column-Gathered [] slices b (subst (λ c. Gathered [] c) (sym e) recording-Gathered))
      some_rows
