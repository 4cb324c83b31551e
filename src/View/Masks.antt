-- ===== src/View/Masks.antt =====
-- core/src/store/view/selection.rs, `to_mask`, `live_mask` and the point-sized reads: a selection as
-- a mask, and its live rows. The masks of the vortex crates are an interface: what each operation
-- answers at a bit inside the mask, for a slice that is not empty and for ascending indices inside it.
use vortex_rdf.Prelude.{
  ℕ, zero, suc, ◌+◌, ◌-◌, ◌≤◌, ◌<◌, ◌≡◌, refl, sym, ap, subst, ◌∙◌, Bool, true, false, not, ◌&&◌,
  inl, inr, Option, none, some, List, [], ◌∷◌, arith, Bool-cases, if◌then◌else◌, ltb, leb, ◌==◌,
  length, get_or, min, range_from,
}
use vortex_rdf.Search.Sinks.{length-range_from}
use vortex_rdf.View.Selection.{
  saturating_add, Range, span, RowSelection, all, range, ids, mem, clamped,
}
use vortex_rdf.View.Ascending.{AllOver, IsRising}
use vortex_rdf.View.Kept.{AllUnder}
use vortex_rdf.View.Window.{covered, filter_rows, live}

pub record Masks : Type 1 where
  pub Mask : Type 0
  pub value : Mask → ℕ → Bool
  pub bits : Mask → ℕ
  pub new_true : ℕ → Mask
  pub new_false : ℕ → Mask
  pub from_slice : ℕ → ℕ → ℕ → Mask
  pub from_indices : ℕ → List ℕ → Mask
  pub negate : Mask → Mask
  pub part : Mask → ℕ → ℕ → Mask
  pub new_true_lem : (n i : ℕ) → i < n → value (new_true n) i ≡ true
  pub new_false_lem : (n i : ℕ) → i < n → value (new_false n) i ≡ false
  pub from_slice_lem :
      (n a b i : ℕ) → a < b → b ≤ n → i < n → value (from_slice n a b) i ≡ leb a i && ltb i b
  pub from_indices_lem :
      (n : ℕ) (xs : List ℕ) (i : ℕ)
      → IsRising xs
      → AllUnder n xs
      → i < n
      → value (from_indices n xs) i ≡ mem i xs
  pub negate_lem : (m : Mask) (i : ℕ) → i < bits m → value (negate m) i ≡ not (value m i)
  pub part_lem :
      (m : Mask) (a b i : ℕ) → b ≤ bits m → i < b - a → value (part m a b) i ≡ value m (a + i)
  pub bits-part : (m : Mask) (a b : ℕ) → b ≤ bits m → bits (part m a b) ≡ b - a

-- `POINT_GATHER_MAX_ROWS`.
abbrev pub point_gather_max_rows : ℕ
point_gather_max_rows = 256

abbrev pub point_sized : ℕ → Bool
point_sized rows = leb rows point_gather_max_rows

abbrev pub is_point_sized : RowSelection → Bool
is_point_sized all = false
is_point_sized (range r) = point_sized (r.end - r.start)
is_point_sized (ids xs) = point_sized (length xs)

unfoldable pub point_sized_live_rows : RowSelection → Option (ℕ → Bool) → ℕ → Option (List ℕ)
unfolding filter_rows
point_sized_live_rows s deleted base_len =
    if is_point_sized s then some (filter_rows s base_len (live deleted)) else none

-- The rows `offset..offset + limit` of a run, clamped to its width.
unfoldable pub window_rows : ℕ → ℕ → ℕ → Option Range
window_rows offset limit width =
    let start = min offset width in
    let end = min (saturating_add offset limit) width in
    if ltb start end then some (span start end) else none

-- The positions, from `at` on, of the ids that are not tombstoned.
unfoldable pub live_positions : (ℕ → Bool) → ℕ → List ℕ → List ℕ
live_positions deleted at [] = []
live_positions deleted at (x ∷ xs) =
    let rest = live_positions deleted (suc at) xs in if deleted x then rest else at ∷ rest

module _ (masks : Masks) where
  unfoldable pub to_mask : RowSelection → ℕ → masks.Mask
  to_mask all base_len = masks.new_true base_len
  to_mask (range r) base_len =
      let c = clamped r base_len in
      if leb c.end c.start
      then masks.new_false base_len
      else masks.from_slice base_len c.start c.end
  to_mask (ids xs) base_len = masks.from_indices base_len xs

  unfoldable pub live_mask : RowSelection → masks.Mask → ℕ → masks.Mask
  unfolding live_positions
  live_mask all deleted base_len = masks.negate deleted
  live_mask (range r) deleted base_len =
      let c = clamped r base_len in masks.negate (masks.part deleted c.start c.end)
  live_mask (ids xs) deleted base_len =
      masks.from_indices (length xs) (live_positions (masks.value deleted) 0 xs)

  -- The positions hold those of the live ids.
  mem-live_positions_before :
      (deleted : ℕ → Bool) (at i : ℕ) (xs : List ℕ)
      → i < at
      → mem i (live_positions deleted at xs) ≡ false
  unfolding live_positions mem
  mem-live_positions_before deleted at i [] h = refl
  mem-live_positions_before deleted at i (x ∷ xs) h =
      ground (arith, mem-live_positions_before deleted (suc at) i xs)

  mem-live_positions :
      (deleted : ℕ → Bool) (at k : ℕ) (xs : List ℕ)
      → k < length xs
      → mem (at + k) (live_positions deleted at xs) ≡ not (deleted (get_or xs k 0))
  unfolding live_positions mem
  mem-live_positions deleted at k [] h = absurd (omega arith)
  mem-live_positions deleted at zero (x ∷ xs) h =
      let z : at + 0 ≡ at = omega arith in
      ap (λ i. mem i (live_positions deleted at (x ∷ xs))) z
      ∙ ground (arith, mem-live_positions_before deleted (suc at) at xs)
  mem-live_positions deleted at (suc k) (x ∷ xs) h =
      let z : at + suc k ≡ suc at + k = omega arith in
      let ih = mem-live_positions deleted (suc at) k xs (omega arith) in
      let skip : (at == suc at + k) ≡ false = ground arith in
      ap (λ i. mem i (live_positions deleted at (x ∷ xs))) z ∙ ground (arith, ih, skip)

  live_positions-AllUnder :
      (deleted : ℕ → Bool) (at : ℕ) (xs : List ℕ)
      → AllUnder (at + length xs) (live_positions deleted at xs)
  unfolding live_positions
  live_positions-AllUnder deleted at [] = tt
  live_positions-AllUnder deleted at (x ∷ xs) =
      let z : suc at + length xs ≡ at + suc (length xs) = omega arith in
      let rest =
        subst (λ n. AllUnder n (live_positions deleted (suc at) xs)) z
          (live_positions-AllUnder deleted (suc at) xs) in
      elim (Bool-cases (deleted x)) [
        | inl dead ↦ rw dead rest
        | inr kept ↦ rw kept (omega arith, rest)
      ]

  live_positions-AllOver :
      (deleted : ℕ → Bool) (a at : ℕ) (xs : List ℕ)
      → a < at
      → AllOver a (live_positions deleted at xs)
  unfolding live_positions
  live_positions-AllOver deleted a at [] h = tt
  live_positions-AllOver deleted a at (x ∷ xs) h =
      let rest = live_positions-AllOver deleted a (suc at) xs (omega arith) in
      elim (Bool-cases (deleted x)) [ inl dead ↦ rw dead rest | inr kept ↦ rw kept (h, rest) ]

  live_positions-IsRising :
      (deleted : ℕ → Bool) (at : ℕ) (xs : List ℕ) → IsRising (live_positions deleted at xs)
  unfolding live_positions
  live_positions-IsRising deleted at [] = tt
  live_positions-IsRising deleted at (x ∷ xs) =
      let rest = live_positions-IsRising deleted (suc at) xs in
      elim (Bool-cases (deleted x)) [
        | inl dead ↦ rw dead rest
        | inr kept ↦ rw kept (live_positions-AllOver deleted at (suc at) xs (omega arith), rest)
      ]

  get_or-range_from : (start n k : ℕ) → k < n → get_or (range_from start n) k 0 ≡ start + k
  get_or-range_from start zero k h = absurd (omega arith)
  get_or-range_from start (suc n) zero h = omega arith
  get_or-range_from start (suc n) (suc k) h =
      get_or-range_from (suc start) n k (omega arith)
      ∙ (let z : suc start + k ≡ start + suc k = omega arith in z)

  -- The live mask of a selection, under tombstones over the whole base, has at each of its own rows,
  -- in order, exactly whether that base row is not tombstoned.
  pub live_mask-covered :
      (s : RowSelection) (deleted : masks.Mask) (base_len k : ℕ)
      → masks.bits deleted ≡ base_len
      → k < length (covered s base_len)
      → masks.value (live_mask s deleted base_len) k
        ≡ not (masks.value deleted (get_or (covered s base_len) k 0))
  unfolding live_mask
  live_mask-covered all deleted base_len k e h =
      let size = length-range_from 0 (base_len - 0) in
      masks.negate_lem deleted k (omega (arith, e, h, size))
      ∙ ap (λ i. not (masks.value deleted i))
          (sym (
            get_or-range_from 0 (base_len - 0) k (omega (arith, h, size))
            ∙ (let z : 0 + k ≡ k = omega arith in z)))
  live_mask-covered (range r) deleted base_len k e h =
      let c = clamped r base_len in
      let size = length-range_from c.start (c.end - c.start) in
      let inside : c.end ≤ masks.bits deleted = omega (arith, e) in
      masks.negate_lem (masks.part deleted c.start c.end) k
        (omega (arith, h, size, masks.bits-part deleted c.start c.end inside))
      ∙ ap not (masks.part_lem deleted c.start c.end k inside (omega (arith, h, size)))
      ∙ ap (λ i. not (masks.value deleted i))
          (sym (get_or-range_from c.start (c.end - c.start) k (omega (arith, h, size))))
  live_mask-covered (ids xs) deleted base_len k e h =
      let z : k ≡ 0 + k = omega arith in
      let n : 0 + length xs ≡ length xs = omega arith in
      let positions = live_positions (masks.value deleted) 0 xs in
      masks.from_indices_lem (length xs) positions k
        (live_positions-IsRising (masks.value deleted) 0 xs)
        (subst (λ m. AllUnder m positions) n (live_positions-AllUnder (masks.value deleted) 0 xs)) h
      ∙ ap (λ i. mem i (live_positions (masks.value deleted) 0 xs)) z
      ∙ mem-live_positions (masks.value deleted) 0 k xs h
