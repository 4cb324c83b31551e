-- ===== src/View/MaskRows.antt =====
-- core/src/store/view/selection.rs, `to_mask`: the rows of a selection's mask over its base.
use vortex_rdf.Prelude.{
  ℕ, ◌-◌, ◌≤◌, ◌<◌, ◌≡◌, refl, sym, ◌∙◌, false, ◌&&◌, inl, inr, List, [], ◌∷◌, arith, Bool-cases,
  ltb, leb, leb→lt, range_from,
}
use vortex_rdf.View.Selection.{RowSelection, all, range, ids, mem, filter, clamped, contains}
use vortex_rdf.View.Ascending.{
  AllOver, IsRising, IsRising-filter, mem-AllOver, mem-filter, mem-range_from,
}
use vortex_rdf.View.Kept.{AllUnder, range_from-IsRising}
use vortex_rdf.View.Window.{covered}
use vortex_rdf.View.Masks.{Masks, to_mask}

-- Ascending lists of the same numbers are equal.
head-le : (x y : ℕ) (xs ys : List ℕ) → AllOver y ys → mem x (x ∷ xs) ≡ mem x (y ∷ ys) → y ≤ x
unfolding mem
head-le x y xs ys over same = elim (Bool-cases (ltb x y)) [
  | inl less ↦
      let none' = mem-AllOver x y ys (ground arith) over in absurd (ground (arith, same, none'))
  | inr more ↦ ground arith
]

rising-ext :
    (xs ys : List ℕ) → IsRising xs → IsRising ys → ((row : ℕ) → mem row xs ≡ mem row ys) → xs ≡ ys
unfolding mem
rising-ext [] [] p q same = refl
rising-ext [] (y ∷ ys) p q same = absurd (ground (arith, same y))
rising-ext (x ∷ xs) [] p q same = absurd (ground (arith, same x))
rising-ext (x ∷ xs) (y ∷ ys) p q same =
    let below = head-le x y xs ys q.0 (same x) in
    let above = head-le y x ys xs p.0 (sym (same y)) in
    let e : x ≡ y = omega (arith, below, above) in
    let rest : (row : ℕ) → mem row xs ≡ mem row ys = λ row. elim (Bool-cases (leb row x)) [
      | inl low ↦
          mem-AllOver row x xs (ground arith) p.0
          ∙ sym (mem-AllOver row y ys (ground (arith, e)) q.0)
      | inr high ↦ ground (arith, same row, e)
    ] in
    λ i. e i ∷ rising-ext xs ys p.1 q.1 rest i

mem-AllUnder : (row bound : ℕ) (xs : List ℕ) → bound ≤ row → AllUnder bound xs → mem row xs ≡ false
unfolding mem
mem-AllUnder row bound [] p h = refl
mem-AllUnder row bound (x ∷ xs) p h = ground (arith, h.0, mem-AllUnder row bound xs p h.1)

-- A selection of rows of a base: its ids ascend and are rows of the base.
abbrev pub IsOver : RowSelection → ℕ → Type 0
IsOver all base_len = Unit {0}
IsOver (range r) base_len = Unit {0}
IsOver (ids xs) base_len = IsRising xs × AllUnder base_len xs

covered-IsRising :
    (s : RowSelection) (base_len : ℕ) → IsOver s base_len → IsRising (covered s base_len)
covered-IsRising all base_len over = range_from-IsRising 0 (base_len - 0)
covered-IsRising (range r) base_len over =
    let c = clamped r base_len in range_from-IsRising c.start (c.end - c.start)
covered-IsRising (ids xs) base_len over = over.0

mem-covered :
    (s : RowSelection) (base_len row : ℕ)
    → IsOver s base_len
    → mem row (covered s base_len) ≡ ltb row base_len && contains s row
unfolding contains
mem-covered all base_len row over = ground (arith, mem-range_from row 0 (base_len - 0))
mem-covered (range r) base_len row over =
    let c = clamped r base_len in ground (arith, mem-range_from row c.start (c.end - c.start))
mem-covered (ids xs) base_len row over = elim (Bool-cases (ltb row base_len)) [
  | inl inside ↦ rw inside refl
  | inr behind ↦ rw behind (mem-AllUnder row base_len xs (ground arith) over.1)
]

module _ (masks : Masks) where
  to_mask-contains :
      (s : RowSelection) (base_len row : ℕ)
      → IsOver s base_len
      → row < base_len
      → masks.value (to_mask masks s base_len) row ≡ contains s row
  unfolding to_mask contains
  to_mask-contains all base_len row over h = masks.new_true_lem base_len row h
  to_mask-contains (range r) base_len row over h =
      let c = clamped r base_len in
      elim (Bool-cases (leb c.end c.start)) [
        | inl no_rows ↦ rw no_rows (masks.new_false_lem base_len row h ∙ ground (arith, no_rows, h))
        | inr rows ↦
            let some_row : c.start < c.end = leb→lt c.end c.start rows in
            rw rows (
              masks.from_slice_lem base_len c.start c.end row some_row (omega arith) h
              ∙ ground (arith, rows, h))
      ]
  to_mask-contains (ids xs) base_len row over h =
      masks.from_indices_lem base_len xs row over.0 over.1 h

  -- The bits that are set in the mask of a selection over its base are, in order and each once, the
  -- rows that the selection covers; its ids, if it has ids, ascend and are rows of the base.
  pub to_mask-covered :
      (s : RowSelection) (base_len : ℕ)
      → IsOver s base_len
      → filter (masks.value (to_mask masks s base_len)) (range_from 0 base_len) ≡ covered s base_len
  to_mask-covered s base_len over =
      let mask = to_mask masks s base_len in
      let bit = λ (row : ℕ). masks.value mask row in
      rising-ext (filter bit (range_from 0 base_len)) (covered s base_len)
        (IsRising-filter bit (range_from 0 base_len) (range_from-IsRising 0 base_len))
        (covered-IsRising s base_len over)
        (λ row. mem-filter bit row (range_from 0 base_len) ∙ elim (Bool-cases (ltb row base_len)) [
          | inl inside ↦
              let e = to_mask-contains s base_len row over (ground arith) in
              ground
                (arith, e, mem-range_from row 0 base_len, mem-covered s base_len row over, inside)
          | inr behind ↦
              ground (arith, mem-range_from row 0 base_len, mem-covered s base_len row over, behind)
        ])
