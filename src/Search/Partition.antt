-- ===== src/Search/Partition.antt =====
-- encoded-search/src/search.rs, `partition`: bisection over a virtual index range.
use vortex_rdf.Prelude.{
  ℕ, zero, suc, ◌+◌, ◌-◌, ◌/◌, ◌≤◌, ◌<◌, ◌≡◌, refl, Bool, true, false, inl, inr, sym, ◌∙◌, arith,
  if◌then◌else◌, ltb, ltb→lt, ltb→le, tests, Bool-cases,
}

abbrev pub middle : ℕ → ℕ → ℕ
middle lo hi = lo + (hi - lo) / 2

-- `while lo < hi { … }`. The window shrinks each round, so `hi - lo` rounds are enough; with the
-- fuel spent the window is empty, and the loop would end by its test.
unfoldable pub partition_loop : ℕ → (ℕ → Bool) → ℕ → ℕ → ℕ
partition_loop zero below lo hi = lo
partition_loop (suc fuel) below lo hi =
    let mid = middle lo hi in
    let upper = partition_loop fuel below (mid + 1) hi in
    let lower = partition_loop fuel below lo mid in
    if ltb lo hi then if below mid then upper else lower else lo

unfoldable pub partition : ℕ → (ℕ → Bool) → ℕ
unfolding partition_loop
partition n below = partition_loop n below 0 n

-- `r` splits the indices below `n` into those that pass the test and those that do not.
pub record IsSplit (n : ℕ) (below : ℕ → Bool) (r : ℕ) : Type 0 where
  pub within : r ≤ n
  pub passing : (i : ℕ) → i < r → below i ≡ true
  pub failing : (i : ℕ) → r ≤ i → i < n → below i ≡ false

-- The test never passes again once it has failed.
abbrev pub IsMonotone : ℕ → (ℕ → Bool) → Type 0
IsMonotone n below = (i j : ℕ) → i ≤ j → j < n → below j ≡ true → below i ≡ true

pub record IsWindow (n : ℕ) (below : ℕ → Bool) (lo hi : ℕ) : Type 0 where
  pub ordered : lo ≤ hi
  pub within : hi ≤ n
  pub passing : (i : ℕ) → i < lo → below i ≡ true
  pub failing : (i : ℕ) → hi ≤ i → i < n → below i ≡ false

module _ {n : ℕ} {below : ℕ → Bool} where
  pub IsWindow→IsSplit : {lo hi : ℕ} → IsWindow n below lo hi → hi ≤ lo → IsSplit n below lo
  IsWindow→IsSplit w e = record {
    within = omega (arith, w.within, w.ordered);
    passing = w.passing;
    failing = λ i p q. w.failing i (omega (arith, w.ordered)) q;
  }

  pub IsWindow-whole : IsWindow n below 0 n
  IsWindow-whole = record {
    ordered = omega arith;
    within = omega arith;
    passing = λ i h. absurd (omega arith);
    failing = λ i p q. absurd (omega arith);
  }

  -- Tests that agree on the range have the same split point.
  pub IsSplit-congr :
      (other : ℕ → Bool) (r : ℕ)
      → ((i : ℕ) → i < n → below i ≡ other i)
      → IsSplit n below r
      → IsSplit n other r
  IsSplit-congr other r same v = record {
    within = v.within;
    passing = λ i p. sym (same i (omega (arith, v.within))) ∙ v.passing i p;
    failing = λ i p q. sym (same i q) ∙ v.failing i p q;
  }

  pub IsMonotone-congr :
      (other : ℕ → Bool)
      → ((i : ℕ) → i < n → below i ≡ other i)
      → IsMonotone n below
      → IsMonotone n other
  IsMonotone-congr other same mono i j p q t =
      sym (same i (omega arith)) ∙ mono i j p q (same j q ∙ t)

  pub IsSplit-unique : (r s : ℕ) → IsSplit n below r → IsSplit n below s → r ≡ s
  IsSplit-unique r s v w =
      ground (arith, v.within, w.within, v.passing s, w.passing r, v.failing r, w.failing s)

module _ {n : ℕ} {below : ℕ → Bool} (mono : IsMonotone n below) where
  -- A probe inside the window that passes moves its lower end past the probe.
  pub IsWindow-upper :
      {lo hi : ℕ} (i : ℕ)
      → IsWindow n below lo hi
      → lo ≤ i
      → i < hi
      → below i ≡ true
      → IsWindow n below (i + 1) hi
  IsWindow-upper {lo} {hi} i w p q t = record {
    ordered = omega arith;
    within = w.within;
    passing = λ j r. mono j i (omega arith) (omega (arith, w.within)) t;
    failing = w.failing;
  }

  pub fails_after : (i j : ℕ) → i ≤ j → j < n → below i ≡ false → below j ≡ false
  fails_after i j p q f = elim (Bool-cases (below j)) [
    | inl t ↦ ground (arith, mono i j p q t)
    | inr e ↦ e
  ]

  pub IsWindow-lower :
      {lo hi : ℕ} (i : ℕ)
      → IsWindow n below lo hi
      → lo ≤ i
      → i < hi
      → below i ≡ false
      → IsWindow n below lo i
  IsWindow-lower {lo} {hi} i w p q f = record {
    ordered = p;
    within = omega (arith, w.within);
    passing = w.passing;
    failing = λ j r s. fails_after i j r s f;
  }

  pub partition_loop-IsSplit :
      (fuel lo hi : ℕ)
      → hi - lo ≤ fuel
      → IsWindow n below lo hi
      → IsSplit n below (partition_loop fuel below lo hi)
  unfolding partition_loop
  partition_loop-IsSplit zero lo hi f w = IsWindow→IsSplit w (omega arith)
  partition_loop-IsSplit (suc fuel) lo hi f w = elim (Bool-cases (ltb lo hi)) [
    | inr empty ↦ rw empty (IsWindow→IsSplit w (ltb→le lo hi empty))
    | inl h ↦ rw h (elim (Bool-cases (below (middle lo hi))) [
      | inl t ↦ rw t (
          partition_loop-IsSplit fuel (middle lo hi + 1) hi (omega tests)
            (IsWindow-upper (middle lo hi) w (omega arith) (omega tests) t))
      | inr t ↦ rw t (
          partition_loop-IsSplit fuel lo (middle lo hi) (omega tests)
            (IsWindow-lower (middle lo hi) w (omega arith) (omega tests) t))
    ])
  ]

  pub partition-IsSplit : IsSplit n below (partition n below)
  unfolding partition
  partition-IsSplit = partition_loop-IsSplit n 0 n (omega arith) IsWindow-whole

-- The bisection probes only indices of its range.
pub partition_loop-congr :
    (fuel lo hi n : ℕ) (below other : ℕ → Bool)
    → hi ≤ n
    → ((i : ℕ) → i < n → below i ≡ other i)
    → partition_loop fuel below lo hi ≡ partition_loop fuel other lo hi
unfolding partition_loop
partition_loop-congr zero lo hi n below other h same = refl
partition_loop-congr (suc fuel) lo hi n below other h same = elim (Bool-cases (ltb lo hi)) [
  | inr empty ↦ rw empty
  | inl p ↦ rw p (
      let inside : middle lo hi < n = omega tests in
      ground (
        arith,
        same (middle lo hi) inside,
        partition_loop-congr fuel (middle lo hi + 1) hi n below other h same,
        partition_loop-congr fuel lo (middle lo hi) n below other (omega arith) same,
      ))
]

pub partition-congr :
    (n : ℕ) (below other : ℕ → Bool)
    → ((i : ℕ) → i < n → below i ≡ other i)
    → partition n below ≡ partition n other
unfolding partition
partition-congr n below other same = partition_loop-congr n 0 n n below other (omega arith) same

partition-le_loop :
    (fuel lo hi : ℕ) (below : ℕ → Bool) → lo ≤ hi → partition_loop fuel below lo hi ≤ hi
unfolding partition_loop
partition-le_loop zero lo hi below h = h
partition-le_loop (suc fuel) lo hi below h = elim (Bool-cases (ltb lo hi)) [
  | inr empty ↦ rw empty h
  | inl p ↦ rw p (
      ground (
        arith,
        ltb→lt lo hi p,
        partition-le_loop fuel (middle lo hi + 1) hi below,
        partition-le_loop fuel lo (middle lo hi) below,
      ))
]

-- Whatever the test, the answer is an index of the range or its length.
pub partition-le : (n : ℕ) (below : ℕ → Bool) → partition n below ≤ n
unfolding partition
partition-le n below = partition-le_loop n 0 n below (omega arith)

-- A split point found any other way is the bisection's answer.
pub partition-eq_of_IsSplit :
    {n : ℕ} {below : ℕ → Bool} {r : ℕ}
    → IsMonotone n below
    → IsSplit n below r
    → partition n below ≡ r
partition-eq_of_IsSplit mono w = IsSplit-unique _ _ (partition-IsSplit mono) w

-- A split point of the indices from `lo` up to `past`, where those before pass and those after
-- fail.
pub shifted-IsSplit :
    {n lo past q : ℕ} {below : ℕ → Bool}
    → lo ≤ past
    → past ≤ n
    → ((i : ℕ) → i < lo → below i ≡ true)
    → ((i : ℕ) → past ≤ i → i < n → below i ≡ false)
    → IsSplit (past - lo) (λ i. below (lo + i)) q
    → IsSplit n below (lo + q)
shifted-IsSplit {n} {lo} {past} {q} order fits before after s = record {
  within = omega (arith, s.within);
  passing = λ i p. elim (Bool-cases (ltb i lo)) [
    | inl early ↦ before i (ltb→lt _ _ early)
    | inr late ↦
        let e : lo + (i - lo) ≡ i = omega tests in rw e at (s.passing (i - lo) (omega tests))
  ];
  failing = λ i p h. elim (Bool-cases (ltb i past)) [
    | inl inside ↦
        let e : lo + (i - lo) ≡ i = omega arith in
        rw e at (s.failing (i - lo) (omega arith) (omega tests))
    | inr beyond ↦ after i (ltb→le _ _ beyond) h
  ];
}

pub shifted-IsMonotone :
    {n : ℕ} (lo past : ℕ) {below : ℕ → Bool}
    → past ≤ n
    → IsMonotone n below
    → IsMonotone (past - lo) (λ i. below (lo + i))
shifted-IsMonotone lo past fits mono i j p q t =
    mono (lo + i) (lo + j) (omega arith) (omega arith) t
