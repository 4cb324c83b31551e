-- ===== src/Search/Agrees.antt =====
-- encoded-search/src/search.rs: the interpolating search answers as the bisection does.
use vortex_rdf.Prelude.{
  ℕ, zero, suc, ◌+◌, ◌-◌, ◌/◌, ◌≤◌, ◌<◌, ◌≡◌, refl, Bool, false, Option, none, some, inl, inr,
  arith, ltb, leb, tests, ltb→lt, ltb→le, Bool-cases, sym, ◌||◌,
}
use vortex_rdf.Search.Partition.{
  middle, partition, partition-IsSplit, partition-eq_of_IsSplit, IsSplit, IsMonotone, IsWindow,
  IsWindow-upper, IsWindow-lower, IsWindow→IsSplit, IsWindow-whole,
}
use vortex_rdf.Search.Ascending.{
  Seek, Span, cap, land, bracket, split_point, split, interpolate, bisect, interpolated, whole,
  search_ascending_capped, search_ascending, interpolation_min, is_none,
}

-- The values ascend over the range.
abbrev pub IsAscending : ℕ → (ℕ → ℕ) → Type 0
IsAscending n value = (i j : ℕ) → i ≤ j → j < n → value i ≤ value j

abbrev pub under : (ℕ → ℕ) → ℕ → ℕ → Bool
under value needle i = ltb (value i) needle

pub under-IsMonotone :
    (n : ℕ) (value : ℕ → ℕ) (needle : ℕ) → IsAscending n value → IsMonotone n (under value needle)
under-IsMonotone n value needle asc i j p q t = omega (tests, asc i j p q)

module _ (n : ℕ) (value : ℕ → ℕ) (needle : ℕ) where
  -- A cap is the length, or a position whose value is above the needle.
  pub record IsCap (past : ℕ) : Type 0 where
    pub within : past ≤ n
    pub above : past < n → needle < value past

  cap-IsCap : (i past : ℕ) → i < n → IsCap past → IsCap (cap value needle i past)
  unfolding cap
  cap-IsCap i past h c = ground (arith, c.within, c.above)

  -- The answer of a search: the split point, and a cap.
  abbrev pub IsAnswer : ℕ × ℕ → Type 0
  IsAnswer r = IsSplit n (under value needle) r.0 × IsCap r.1

  -- What holds of the later loops' variables: the two values lie on their sides of the needle.
  record IsBracketed (s : Span) : Type 0 where
    window : IsWindow n (under value needle) s.lo s.hi
    capped : IsCap s.past
    started : 0 < s.lo
    low : s.b < needle
    high : needle ≤ s.a

  record IsSeeking (s : Seek) : Type 0 where
    window : IsWindow n (under value needle) s.lo s.hi
    capped : IsCap s.past
    low : (b : ℕ) → s.below ≡ some b → (0 < s.lo) × (b < needle)
    high : (a : ℕ) → s.at ≡ some a → needle ≤ a

-- The clamp keeps every split point inside a window that is not empty.
pub split_point-inside :
    (needle : ℕ) (s : Span)
    → s.lo < s.hi
    → (s.lo ≤ split_point needle s) × (split_point needle s < s.hi)
unfolding split_point
split_point-inside needle s h = omega arith

module _ (n : ℕ) (value : ℕ → ℕ) (needle : ℕ) (mono : IsMonotone n (under value needle)) where
  bisect-IsAnswer :
      (fuel lo hi past : ℕ)
      → hi - lo ≤ fuel
      → IsWindow n (under value needle) lo hi
      → IsCap n value needle past
      → IsAnswer n value needle (bisect value needle fuel lo hi past)
  unfolding bisect
  bisect-IsAnswer zero lo hi past f w c = (IsWindow→IsSplit w (omega arith), c)
  bisect-IsAnswer (suc fuel) lo hi past f w c = elim (Bool-cases (ltb lo hi)) [
    | inr empty ↦ rw empty (IsWindow→IsSplit w (ltb→le lo hi empty), c)
    | inl h ↦
        let p : middle lo hi < hi = omega tests in
        let c' = cap-IsCap n value needle (middle lo hi) past (omega (arith, w.within)) c in
        rw h (elim (Bool-cases (under value needle (middle lo hi))) [
          | inl t ↦ rw t (
              bisect-IsAnswer fuel (middle lo hi + 1) hi _ (omega arith)
                (IsWindow-upper mono (middle lo hi) w (omega arith) p t) c')
          | inr t ↦ rw t (
              bisect-IsAnswer fuel lo (middle lo hi) _ (omega arith)
                (IsWindow-lower mono (middle lo hi) w (omega arith) p t) c')
        ])
  ]

  split-IsBracketed :
      (s : Span) (i : ℕ)
      → IsBracketed n value needle s
      → s.lo ≤ i
      → i < s.hi
      → IsBracketed n value needle (split value needle i s)
  unfolding split
  split-IsBracketed s i v p q =
      let c = cap-IsCap n value needle i s.past (omega (arith, v.window.within)) v.capped in
      elim (Bool-cases (under value needle i)) [
        | inl t ↦ rw t (record {
          window = IsWindow-upper mono i v.window p q t;
          capped = c;
          started = omega arith;
          low = ltb→lt _ _ t;
          high = v.high;
        })
        | inr t ↦ rw t (record {
          window = IsWindow-lower mono i v.window p q t;
          capped = c;
          started = v.started;
          low = v.low;
          high = ltb→le _ _ t;
        })
      ]

  land-IsSeeking :
      (s : Seek) (i : ℕ)
      → IsSeeking n value needle s
      → s.lo ≤ i
      → i < s.hi
      → IsSeeking n value needle (land value needle i s)
  unfolding land
  land-IsSeeking s i v p q =
      let c = cap-IsCap n value needle i s.past (omega (arith, v.window.within)) v.capped in
      elim (Bool-cases (under value needle i)) [
        | inl t ↦ rw t (record {
          window = IsWindow-upper mono i v.window p q t;
          capped = c;
          low = λ b e. ground (arith, ltb→lt _ _ t);
          high = v.high;
        })
        | inr t ↦ rw t (record {
          window = IsWindow-lower mono i v.window p q t;
          capped = c;
          low = v.low;
          high = λ a e. ground (arith, ltb→le _ _ t);
        })
      ]

  interpolate-IsBracketed :
      (rounds : ℕ) (s : Span)
      → IsBracketed n value needle s
      → IsBracketed n value needle (interpolate value needle rounds s)
  unfolding interpolate
  interpolate-IsBracketed zero s v = v
  interpolate-IsBracketed (suc rounds) s v =
      elim (Bool-cases (leb (s.hi - s.lo) interpolation_min)) [
        | inl narrow ↦ rw narrow v
        | inr wide ↦ rw wide (elim (Bool-cases (ltb (s.a - s.b) ((s.hi - s.lo) / 4))) [
          | inl flat ↦ rw flat v
          | inr spread ↦ rw spread (interpolate-IsBracketed rounds _ (next wide))
        ])
      ]
    where
      next :
          leb (s.hi - s.lo) interpolation_min ≡ false
          → IsBracketed n value needle (split value needle (split_point needle s) s)
      next wide =
          let inside = split_point-inside needle s (omega tests) in
          split-IsBracketed s _ v inside.0 inside.1

  bracket-IsSeeking :
      (fuel : ℕ) (s : Seek)
      → IsSeeking n value needle s
      → IsSeeking n value needle (bracket value needle fuel s)
  unfolding bracket
  bracket-IsSeeking zero s v = v
  bracket-IsSeeking (suc fuel) s v = elim (Bool-cases (ltb s.lo s.hi)) [
    | inr empty ↦ rw empty v
    | inl open_window ↦ rw open_window (elim (Bool-cases (is_none s.below || is_none s.at)) [
      | inr bracketed ↦ rw bracketed v
      | inl more ↦ rw more (
          bracket-IsSeeking fuel _
            (land-IsSeeking s (middle s.lo s.hi) v (omega arith) (omega tests)))
    ])
  ]

  interpolated-IsAnswer :
      (s : Seek) (below at : Option ℕ)
      → below ≡ s.below
      → at ≡ s.at
      → IsSeeking n value needle s
      → IsAnswer n value needle (interpolated value needle s below at n)
  unfolding interpolated
  interpolated-IsAnswer s none at p q v =
      bisect-IsAnswer n s.lo s.hi s.past (omega (arith, v.window.within)) v.window v.capped
  interpolated-IsAnswer s (some b) none p q v =
      bisect-IsAnswer n s.lo s.hi s.past (omega (arith, v.window.within)) v.window v.capped
  interpolated-IsAnswer s (some b) (some a) p q v =
      bisect-IsAnswer n _ _ _ (omega (arith, t.window.within)) t.window t.capped
    where
      start : Span
      start = record { lo = s.lo; hi = s.hi; past = s.past; b = b; a = a }

      t : IsBracketed n value needle (interpolate value needle 4 start)
      t = interpolate-IsBracketed 4 start (record {
        window = v.window;
        capped = v.capped;
        started = (v.low b (sym p)).0;
        low = (v.low b (sym p)).1;
        high = v.high a (sym q);
      })

  whole-IsSeeking : IsSeeking n value needle (whole n)
  whole-IsSeeking = record {
    window = IsWindow-whole;
    capped = record { within = omega arith; above = λ h. absurd (omega arith) };
    low = λ b e. absurd (cc);
    high = λ a e. absurd (cc);
  }

  pub search_ascending_capped-IsAnswer :
      IsAnswer n value needle (search_ascending_capped n value needle)
  unfolding search_ascending_capped
  search_ascending_capped-IsAnswer =
      interpolated-IsAnswer _ _ _ refl refl (bracket-IsSeeking n (whole n) whole-IsSeeking)

-- The interpolating search, whose every probe lies inside the range, finds the point where values
-- below the needle end, if they come before all others; and its second answer is the length or a
-- position that holds a value above the needle.
pub search_ascending_capped-Answers :
    (n : ℕ) (value : ℕ → ℕ) (needle : ℕ)
    → IsMonotone n (under value needle)
    → ((search_ascending_capped n value needle).0 ≡ partition n (under value needle))
      × IsCap n value needle (search_ascending_capped n value needle).1
search_ascending_capped-Answers n value needle mono =
    let answer = search_ascending_capped-IsAnswer n value needle mono in
    (sym (partition-eq_of_IsSplit mono answer.0), answer.1)

-- Where the values below the needle come before all others, the interpolating search answers what
-- the bisection does.
pub search_ascending-eq-partition :
    (n : ℕ) (value : ℕ → ℕ) (needle : ℕ)
    → IsMonotone n (under value needle)
    → search_ascending n value needle ≡ partition n (under value needle)
unfolding search_ascending
search_ascending-eq-partition n value needle mono =
    (search_ascending_capped-Answers n value needle mono).0

abbrev pub up_to : (ℕ → ℕ) → ℕ → ℕ → Bool
up_to value needle i = leb (value i) needle

pub up_to-IsMonotone :
    (n : ℕ) (value : ℕ → ℕ) (needle : ℕ) → IsAscending n value → IsMonotone n (up_to value needle)
up_to-IsMonotone n value needle asc i j p q t = omega (tests, asc i j p q)

-- Over ascending values the search answers what the bisection does, and the rows that hold the
-- needle end at or before the cap, which is the length or a position with a larger value.
pub search_ascending_capped_correct :
    (n : ℕ) (value : ℕ → ℕ) (needle : ℕ)
    → IsAscending n value
    → let found = search_ascending_capped n value needle in
      (found.0 ≡ partition n (under value needle))
      × (partition n (up_to value needle) ≤ found.1)
      × (found.1 ≤ n)
      × (found.1 < n → needle < value found.1)
search_ascending_capped_correct n value needle asc =
    let answer =
      search_ascending_capped-Answers n value needle (under-IsMonotone n value needle asc) in
    let ends = partition-IsSplit (up_to-IsMonotone n value needle asc) in
    let past = (search_ascending_capped n value needle).1 in
    (
      answer.0,
      ground (arith, answer.1.within, answer.1.above, ends.within, ends.passing past),
      answer.1.within,
      answer.1.above,
    )
