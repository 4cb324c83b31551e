-- ===== src/Search/Ascending.antt =====
-- encoded-search/src/search.rs, `search_ascending` and `search_ascending_capped`: bisection, with
-- the split points placed by interpolation while the window is wide.
-- `usize` and `u64` values are natural numbers; the product of the interpolation fits the 128 bits
-- that it is taken in, since both factors are at most 2 ^ 64.
use vortex_rdf.Prelude.{
  ℕ, zero, suc, ◌+◌, ◌-◌, ◌*◌, ◌/◌, Bool, true, false, Option, none, some, if◌then◌else◌, ltb, leb,
  ◌&&◌, ◌||◌, min, max,
}
use vortex_rdf.Search.Partition.{middle}

abbrev pub interpolation_steps : ℕ
interpolation_steps = 4

abbrev pub interpolation_min : ℕ
interpolation_min = 16

-- The variables of the first loop. `past` is the first position found to hold a value above the
-- needle, `below` and `at` are the values at `lo - 1` and `hi` once they have been read.
pub record Seek : Type 0 where
  pub lo : ℕ
  pub hi : ℕ
  pub past : ℕ
  pub below : Option ℕ
  pub at : Option ℕ

-- The variables of the later loops: the window, the cap, and the two values that bracket it.
pub record Span : Type 0 where
  pub lo : ℕ
  pub hi : ℕ
  pub past : ℕ
  pub b : ℕ
  pub a : ℕ

abbrev pub is_none : Option ℕ → Bool
is_none none = true
is_none (some v) = false

abbrev pub clamp : ℕ → ℕ → ℕ → ℕ
clamp x low high = max low (min x high)

-- The split point that an even spread between the two values gives.
unfoldable pub split_point : ℕ → Span → ℕ
split_point needle s =
    clamp (s.lo - 1 + (needle - s.b) * (s.hi - s.lo + 1) / (s.a - s.b)) s.lo (s.hi - 1)

module _ (value : ℕ → ℕ) (needle : ℕ) where
  -- What the closure `probe` does to `past` when it reads the value at `i`.
  unfoldable pub cap : ℕ → ℕ → ℕ
  cap i past = if ltb needle (value i) && ltb i past then i else past

  -- One round of the first loop, at `mid`.
  unfoldable pub land : ℕ → Seek → Seek
  land i s =
      if ltb (value i) needle
      then record s { lo = i + 1; below = some (value i); past = cap i s.past }
      else record s { hi = i; at = some (value i); past = cap i s.past }

  -- Bisect until a probe has landed on each side of the needle.
  unfoldable pub bracket : ℕ → Seek → Seek
  bracket zero s = s
  bracket (suc fuel) s =
      let next = bracket fuel (land (middle s.lo s.hi) s) in
      if ltb s.lo s.hi && (is_none s.below || is_none s.at) then next else s

  unfoldable pub split : ℕ → Span → Span
  split i s =
      if ltb (value i) needle
      then record s { lo = i + 1; b = value i; past = cap i s.past }
      else record s { hi = i; a = value i; past = cap i s.past }

  -- The `for` of at most `interpolation_steps` rounds, left early by `break`.
  unfoldable pub interpolate : ℕ → Span → Span
  interpolate zero s = s
  interpolate (suc rounds) s =
      let next = interpolate rounds (split (split_point needle s) s) in
      if leb (s.hi - s.lo) interpolation_min || ltb (s.a - s.b) ((s.hi - s.lo) / 4) then s else next

  -- The last loop, which bisects what is left.
  unfoldable pub bisect : ℕ → ℕ → ℕ → ℕ → ℕ × ℕ
  bisect zero lo hi past = (lo, past)
  bisect (suc fuel) lo hi past =
      let mid = middle lo hi in
      let upper = bisect fuel (mid + 1) hi (cap mid past) in
      let lower = bisect fuel lo mid (cap mid past) in
      if ltb lo hi then if ltb (value mid) needle then upper else lower else (lo, past)

  -- `if let (Some(b), Some(a)) = (below, at)`.
  unfoldable pub interpolated : Seek → Option ℕ → Option ℕ → ℕ → ℕ × ℕ
  interpolated s (some b) (some a) n =
      let t =
        interpolate interpolation_steps
          (record { lo = s.lo; hi = s.hi; past = s.past; b = b; a = a }) in
      bisect n t.lo t.hi t.past
  interpolated s none at n = bisect n s.lo s.hi s.past
  interpolated s (some b) none n = bisect n s.lo s.hi s.past

abbrev pub whole : ℕ → Seek
whole n = record { lo = 0; hi = n; past = n; below = none; at = none }

unfoldable pub search_ascending_capped : ℕ → (ℕ → ℕ) → ℕ → ℕ × ℕ
unfolding bracket interpolate bisect interpolated land split split_point cap
search_ascending_capped n value needle =
    let s = bracket value needle n (whole n) in interpolated value needle s s.below s.at n

unfoldable pub search_ascending : ℕ → (ℕ → ℕ) → ℕ → ℕ
unfolding search_ascending_capped
search_ascending n value needle = (search_ascending_capped n value needle).0
