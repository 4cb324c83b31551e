-- ===== src/View/Kept.antt =====
-- core/src/store/view/selection.rs, `narrow_to_ids`: the rows that pass a test, in the least form.
use vortex_rdf.Prelude.{
  ℕ, zero, suc, ◌+◌, ◌-◌, ◌≤◌, ◌<◌, ◌≡◌, refl, sym, ap, ◌∙◌, Bool, inl, inr, List, [], ◌∷◌, arith,
  Bool-cases, if◌then◌else◌, ◌==◌, ==_iff, length, range_from, min, max,
}
use vortex_rdf.View.Selection.{
  span, RowSelection, all, range, ids, filter, narrow_to_ids, stretch, last_of,
}
use vortex_rdf.View.Ascending.{AllOver, IsRising, IsRising-filter}
use vortex_rdf.View.Narrow.{IsFormed}
use vortex_rdf.View.Window.{covered, covered-range}

module _ (keep : ℕ → Bool) where
  length-filter : (xs : List ℕ) → length (filter keep xs) ≤ length xs
  unfolding filter
  length-filter [] = omega arith
  length-filter (x ∷ xs) = ground (arith, length-filter xs)

  -- A test that loses no row keeps them all.
  filter-whole : (xs : List ℕ) → length (filter keep xs) ≡ length xs → filter keep xs ≡ xs
  unfolding filter
  filter-whole [] e = refl
  filter-whole (x ∷ xs) e = elim (Bool-cases (keep x)) [
    | inl kept ↦
        let f : length (filter keep xs) ≡ length xs = ground (arith, kept, e) in
        rw kept (ap (λ ys. x ∷ ys) (filter-whole xs f))
    | inr left ↦ absurd (ground (arith, left, e, length-filter xs))
  ]

abbrev pub AllUnder : ℕ → List ℕ → Type 0
AllUnder bound [] = Unit {0}
AllUnder bound (x ∷ xs) = (x < bound) × AllUnder bound xs

pub range_from-AllUnder : (a n bound : ℕ) → a + n ≤ bound → AllUnder bound (range_from a n)
range_from-AllUnder a zero bound h = tt
range_from-AllUnder a (suc n) bound h =
    (omega arith, range_from-AllUnder (suc a) n bound (omega arith))

filter-AllUnder :
    (keep : ℕ → Bool) (bound : ℕ) (xs : List ℕ)
    → AllUnder bound xs
    → AllUnder bound (filter keep xs)
unfolding filter
filter-AllUnder keep bound [] h = tt
filter-AllUnder keep bound (x ∷ xs) h = elim (Bool-cases (keep x)) [
  | inl kept ↦ rw kept (h.0, filter-AllUnder keep bound xs h.1)
  | inr left ↦ rw left (filter-AllUnder keep bound xs h.1)
]

range_from-AllOver : (a b n : ℕ) → a < b → AllOver a (range_from b n)
range_from-AllOver a b zero h = tt
range_from-AllOver a b (suc n) h = (h, range_from-AllOver a (suc b) n (omega arith))

pub range_from-IsRising : (a n : ℕ) → IsRising (range_from a n)
range_from-IsRising a zero = tt
range_from-IsRising a (suc n) =
    (range_from-AllOver a (suc a) n (omega arith), range_from-IsRising (suc a) n)

last_of-under :
    (bound first : ℕ) (rest : List ℕ) → AllUnder bound (first ∷ rest) → last_of first rest < bound
last_of-under bound first [] h = h.0
last_of-under bound first (x ∷ xs) h = last_of-under bound x xs h.1

last_of-from :
    (first : ℕ) (rest : List ℕ) → IsRising (first ∷ rest) → first + length rest ≤ last_of first rest
last_of-from first [] h = omega arith
last_of-from first (x ∷ xs) h = omega (arith, last_of-from x xs h.1, h.0.0)

-- Ascending ids with no gap are a range.
contiguous-range :
    (first : ℕ) (rest : List ℕ)
    → IsRising (first ∷ rest)
    → last_of first rest ≡ first + length rest
    → first ∷ rest ≡ range_from first (length (first ∷ rest))
contiguous-range first [] h e = refl
contiguous-range first (x ∷ xs) h e =
    let next : x ≡ suc first = omega (arith, last_of-from x xs h.1, h.0.0, e) in
    let ih = contiguous-range x xs h.1 (omega (arith, next, e)) in
    ap (λ ys. first ∷ ys) (ih ∙ ap (λ a. range_from a (suc (length xs))) next)

-- A selection of every row or of a range has its rows inside the base.
abbrev IsInside : RowSelection → ℕ → List ℕ → Type 0
IsInside all base_len xs = AllUnder base_len xs
IsInside (range r) base_len xs = AllUnder base_len xs
IsInside (ids ys) base_len xs = Unit {0}

ranged :
    (base_len first : ℕ) (rest : List ℕ)
    → AllUnder base_len (first ∷ rest)
    → IsRising (first ∷ rest)
    → covered
        (if last_of first rest - first + 1 == length (first ∷ rest)
          then range (span first (last_of first rest + 1))
          else ids (first ∷ rest))
        base_len
      ≡ first ∷ rest
ranged base_len first rest under up =
    elim (Bool-cases (last_of first rest - first + 1 == length (first ∷ rest))) [
      | inl whole ↦
          let from = last_of-from first rest up in
          let f = (==_iff (last_of first rest - first + 1) (length (first ∷ rest))).0 whole in
          let e : last_of first rest ≡ first + length rest = omega (arith, f, from) in
          let w : last_of first rest + 1 - first ≡ length (first ∷ rest) = omega (arith, e) in
          rw whole (
            covered-range first (last_of first rest + 1) base_len
              (omega (arith, last_of-under base_len first rest under)) (omega (arith, from))
            ∙ ap (range_from first) w
            ∙ sym (contiguous-range first rest up e))
      | inr gaps ↦ rw gaps refl
    ]

stretch-covered :
    (s : RowSelection) (base_len first : ℕ) (rest : List ℕ)
    → IsInside s base_len (first ∷ rest)
    → IsRising (first ∷ rest)
    → covered (stretch s first rest) base_len ≡ first ∷ rest
stretch-covered all base_len first rest h up = ranged base_len first rest h up
stretch-covered (range r) base_len first rest h up = ranged base_len first rest h up
stretch-covered (ids ys) base_len first rest h up = refl

narrow-covered :
    (s : RowSelection) (base_len count : ℕ) (xs : List ℕ)
    → IsInside s base_len xs
    → IsRising xs
    → (length xs ≡ count → covered s base_len ≡ xs)
    → covered (narrow_to_ids s xs count) base_len ≡ xs
unfolding narrow_to_ids
narrow-covered s base_len count [] h up whole =
    let e : max (min 0 base_len) (min 0 base_len) - min 0 base_len ≡ 0 = omega arith in
    ap (range_from (min 0 base_len)) e
narrow-covered s base_len count (first ∷ rest) h up whole =
    elim (Bool-cases (length (first ∷ rest) == count)) [
      | inl same ↦ rw same (whole ((==_iff (length (first ∷ rest)) count).0 same))
      | inr fewer ↦ rw fewer (stretch-covered s base_len first rest h up)
    ]

covered-IsRising : (s : RowSelection) (base_len : ℕ) → IsFormed s → IsRising (covered s base_len)
covered-IsRising all base_len h = range_from-IsRising 0 (base_len - 0)
covered-IsRising (range r) base_len h = range_from-IsRising _ _
covered-IsRising (ids xs) base_len h = h

covered-IsInside :
    (s : RowSelection) (base_len : ℕ) (keep : ℕ → Bool)
    → IsInside s base_len (filter keep (covered s base_len))
covered-IsInside all base_len keep =
    filter-AllUnder keep base_len (range_from 0 (base_len - 0))
      (range_from-AllUnder 0 (base_len - 0) base_len (omega arith))
covered-IsInside (range r) base_len keep =
    filter-AllUnder keep base_len _ (range_from-AllUnder _ _ base_len (omega arith))
covered-IsInside (ids xs) base_len keep = tt

-- A well-formed selection narrowed to its rows that passed a test covers exactly those, in order,
-- whether it stays as it is, becomes a range or becomes an id list.
pub narrow_to_ids-covered :
    (s : RowSelection) (base_len : ℕ) (keep : ℕ → Bool)
    → IsFormed s
    → covered
        (narrow_to_ids s (filter keep (covered s base_len)) (length (covered s base_len)))
        base_len
      ≡ filter keep (covered s base_len)
narrow_to_ids-covered s base_len keep formed =
    let rows = covered s base_len in
    narrow-covered s base_len (length rows) (filter keep rows) (covered-IsInside s base_len keep)
      (IsRising-filter keep rows (covered-IsRising s base_len formed))
      (λ e. sym (filter-whole keep rows e))
