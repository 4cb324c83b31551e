-- ===== src/Dict/Searches.antt =====
-- core/src/store/layouts/dictionary/term_dict.rs: the searches over a range of positions.
use Prim.Native.Nat.{Ordering}
use vortex_rdf.Prelude.{
  ℕ, zero, suc, ◌+◌, ◌-◌, ◌*◌, ◌≤◌, ◌<◌, ◌≡◌, ◌↔◌, ◌⊎◌, refl, Bool, true, inl, inr, ap, arith, min,
  if◌then◌else◌, leb, ltb, tests, Bool-cases, Option, none, some,
}
use vortex_rdf.Search.Partition.{
  middle, partition_loop, IsSplit, IsMonotone, IsWindow, IsWindow-upper, IsWindow-lower,
  partition_loop-IsSplit,
}

abbrev pub usize_max : ℕ
usize_max = 0xFFFF_FFFF_FFFF_FFFF

-- `lower_bound_by`: the loop of `partition`, over a range.
unfoldable pub lower_bound_by : ℕ → ℕ → (ℕ → Bool) → ℕ
unfolding partition_loop
lower_bound_by lo hi below = partition_loop (hi - lo) below lo hi

-- The loop of `gallop_lower_bound_by`. Each round moves `lo` up, so `end - lo` rounds are enough.
unfoldable pub gallop_loop : ℕ → (ℕ → Bool) → ℕ → ℕ → ℕ → ℕ
unfolding lower_bound_by
gallop_loop zero below lo end step = end
gallop_loop (suc fuel) below lo end step =
    let probe = min (min (lo + (step - 1)) usize_max) (end - 1) in
    let farther = gallop_loop fuel below (probe + 1) end (min (step * 2) usize_max) in
    if ltb lo end then if below probe then farther else lower_bound_by lo probe below else end

unfoldable pub gallop_lower_bound_by : ℕ → ℕ → (ℕ → Bool) → ℕ
unfolding gallop_loop
gallop_lower_bound_by lo end below = gallop_loop (end - lo) below lo end 1

unfoldable pub next_lower_bound_by : ℕ → ℕ → ℕ → (ℕ → Bool) → ℕ
unfolding gallop_lower_bound_by lower_bound_by
next_lower_bound_by lo end left below =
    if ltb (end - lo) (min (left * left) usize_max)
    then gallop_lower_bound_by lo end below
    else lower_bound_by lo end below

-- The loop of `find_by`, which returns on the first hit.
unfoldable pub find_loop : ℕ → (ℕ → Ordering) → ℕ → ℕ → Option ℕ
find_loop zero cmp lo hi = none
find_loop (suc fuel) cmp lo hi =
    let mid = middle lo hi in
    let above = find_loop fuel cmp (mid + 1) hi in
    let under = find_loop fuel cmp lo mid in
    if ltb lo hi
    then elim (cmp mid) [ Ordering.lt ↦ above | Ordering.eq ↦ some mid | Ordering.gt ↦ under ]
    else none

unfoldable pub find_by : ℕ → ℕ → (ℕ → Ordering) → Option ℕ
unfolding find_loop
find_by lo hi cmp = find_loop (hi - lo) cmp lo hi

module _ {n : ℕ} {below : ℕ → Bool} (mono : IsMonotone n below) where
  pub lower_bound_by-IsSplit :
      (lo hi : ℕ) → IsWindow n below lo hi → IsSplit n below (lower_bound_by lo hi below)
  unfolding lower_bound_by
  lower_bound_by-IsSplit lo hi w = partition_loop-IsSplit mono (hi - lo) lo hi (omega arith) w

  gallop_loop-IsSplit :
      (fuel lo step : ℕ)
      → n ≤ usize_max
      → IsWindow n below lo n
      → n - lo ≤ fuel
      → 0 < step
      → IsSplit n below (gallop_loop fuel below lo n step)
  unfolding gallop_loop
  gallop_loop-IsSplit zero lo step small w enough pos = record {
    within = omega arith;
    passing = λ i h. w.passing i (omega (arith, w.ordered));
    failing = λ i p q. absurd (omega arith);
  }
  gallop_loop-IsSplit (suc fuel) lo step small w enough pos = elim (Bool-cases (ltb lo n)) [
    | inr empty ↦ rw empty (record {
      within = omega arith;
      passing = λ i h. w.passing i (omega (tests, w.ordered));
      failing = λ i p q. absurd (omega arith);
    })
    | inl more ↦
        let probe : ℕ = min (min (lo + (step - 1)) usize_max) (n - 1) in
        let inside : probe < n = omega tests in
        let past : lo ≤ probe = omega tests in
        rw more (elim (Bool-cases (below probe)) [
          | inl t ↦ rw t (
              gallop_loop-IsSplit fuel (probe + 1) (min (step * 2) usize_max) small
                (IsWindow-upper mono probe w past inside t) (omega tests) (omega arith))
          | inr f ↦
              rw f (lower_bound_by-IsSplit lo probe (IsWindow-lower mono probe w past inside f))
        ])
  ]

  -- Galloping and bisecting find the same bound, whichever is chosen for the needles left.
  pub next_lower_bound_by-IsSplit :
      (lo left : ℕ)
      → n ≤ usize_max
      → IsWindow n below lo n
      → IsSplit n below (next_lower_bound_by lo n left below)
  unfolding next_lower_bound_by gallop_lower_bound_by
  next_lower_bound_by-IsSplit lo left small w =
      elim (Bool-cases (ltb (n - lo) (min (left * left) usize_max))) [
        | inl dense ↦
            rw dense (gallop_loop-IsSplit (n - lo) lo 1 small w (omega arith) (omega arith))
        | inr few ↦ rw few (lower_bound_by-IsSplit lo n w)
      ]

-- A comparison with a needle that the positions below `n` meet once at most, in order.
pub record IsRanked (n : ℕ) (cmp : ℕ → Ordering) : Type 0 where
  pub falls : (i j : ℕ) → i ≤ j → j < n → cmp j ≡ Ordering.lt → cmp i ≡ Ordering.lt
  pub rises : (i j : ℕ) → i ≤ j → j < n → cmp i ≡ Ordering.gt → cmp j ≡ Ordering.gt
  pub once : (i j : ℕ) → i < n → j < n → cmp i ≡ Ordering.eq → cmp j ≡ Ordering.eq → i ≡ j

pub Ordering-cases : (o : Ordering) → (o ≡ Ordering.lt) ⊎ (o ≡ Ordering.eq) ⊎ (o ≡ Ordering.gt)
Ordering-cases Ordering.lt = inl refl
Ordering-cases Ordering.eq = inr (inl refl)
Ordering-cases Ordering.gt = inr (inr refl)

module _ (n : ℕ) (cmp : ℕ → Ordering) where
  find_loop_found :
      (fuel lo hi r : ℕ)
      → find_loop fuel cmp lo hi ≡ some r
      → (lo ≤ r) × (r < hi) × (cmp r ≡ Ordering.eq)
  unfolding find_loop
  find_loop_found zero lo hi r h = absurd (cc h)
  find_loop_found (suc fuel) lo hi r h = elim (Bool-cases (ltb lo hi)) [
    | inr empty ↦ ground (arith, empty, h)
    | inl more ↦ elim (Ordering-cases (cmp (middle lo hi))) [
      | inl less ↦ ground (arith, more, less, h, find_loop_found fuel (middle lo hi + 1) hi r)
      | inr (inl same) ↦ ground (arith, more, same, h)
      | inr (inr greater) ↦
          ground (arith, more, greater, h, find_loop_found fuel lo (middle lo hi) r)
    ]
  ]

  find_loop_complete :
      (fuel lo hi i : ℕ)
      → IsRanked n cmp
      → hi ≤ n
      → hi - lo ≤ fuel
      → lo ≤ i
      → i < hi
      → cmp i ≡ Ordering.eq
      → find_loop fuel cmp lo hi ≡ some i
  unfolding find_loop
  find_loop_complete zero lo hi i v w f p q e = absurd (omega arith)
  find_loop_complete (suc fuel) lo hi i v w f p q e =
      let mid : ℕ = middle lo hi in
      let inside : mid < hi = omega arith in
      let more : ltb lo hi ≡ true = ground arith in
      elim (Ordering-cases (cmp mid)) [
        | inl less ↦ elim (Bool-cases (leb i mid)) [
          | inl le ↦ absurd (cc (v.falls i mid (omega tests) (omega arith) less, e))
          | inr gt ↦
              rw (more, less)
                (find_loop_complete fuel (mid + 1) hi i v w (omega arith) (omega tests) q e)
        ]
        | inr (inl same) ↦
            rw (more, same) (ap some (v.once mid i (omega arith) (omega arith) same e))
        | inr (inr greater) ↦ elim (Bool-cases (leb mid i)) [
          | inl le ↦ absurd (cc (v.rises mid i (omega tests) (omega arith) greater, e))
          | inr gt ↦
              rw (more, greater)
                (find_loop_complete fuel lo mid i v (omega arith) (omega arith) p (omega tests) e)
        ]
      ]

  -- The bisection that returns on a hit finds exactly the position that meets the needle.
  pub find_by_iff :
      (i : ℕ) → IsRanked n cmp → (find_by 0 n cmp ≡ some i) ↔ ((i < n) × (cmp i ≡ Ordering.eq))
  unfolding find_by
  find_by_iff i v = (
    λ h. let f = find_loop_found (n - 0) 0 n i h in (f.1, f.2),
    λ h. find_loop_complete (n - 0) 0 n i v (omega arith) (omega arith) (omega arith) h.0 h.1,
  )
