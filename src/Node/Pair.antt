-- ===== src/Node/Pair.antt =====
-- encoded-search/src/node.rs, `Node::bounds` and `runend_bounds`: both bounds of a needle at once.
use vortex_rdf.Prelude.{
  ℕ, ◌+◌, ◌-◌, ◌≤◌, ◌<◌, ◌≡◌, sym, true, not, ◌||◌, inl, inr, arith, tests, Bool-cases, ltb, leb,
  ltb→lt, ltb→le, le→leb, lt→leb, if◌then◌else◌, ◌==◌,
}
use vortex_rdf.Search.Partition.{
  partition, IsSplit, IsMonotone, partition-IsSplit, IsSplit-unique, IsSplit-congr,
  IsMonotone-congr, fails_after, shifted-IsSplit, shifted-IsMonotone,
}
use vortex_rdf.Search.Ascending.{search_ascending, search_ascending_capped}
use vortex_rdf.Search.Agrees.{
  IsAscending, under, up_to, under-IsMonotone, up_to-IsMonotone, IsCap,
  search_ascending_capped-IsAnswer,
}
use vortex_rdf.Node.Tree.{Node, run_end, frame_of_reference, bit_packed, len, u64_mod, FastLanes}
use vortex_rdf.Node.Values.{
  value_at, lower_bound, upper_bound, window_runs, run_start, run_of, saturating_add, or_else,
  patch_at, packed_value,
}
use vortex_rdf.Node.Runs.{IsRunEnds, window_runs-IsWindowRuns}
use vortex_rdf.Node.RunRows.{window-IsSplit, runs-IsMonotone}
use vortex_rdf.Node.Formed.{IsFormed}
use vortex_rdf.Node.Kinds.{run_start-le, no_row-IsSplit, search_ascending-IsSplit}
use vortex_rdf.Node.Bounds.{node-IsSplit, upper_bound-IsSplit}

-- The run past the needle's, searched for only where the next run repeats the value.
unfoldable pub past_run : ℕ → (ℕ → ℕ) → ℕ → ℕ → ℕ
past_run span value needle k =
    if k == span || not (value k == needle)
    then k
    else if k + 1 == span || ltb needle (value (k + 1))
    then k + 1
    else k + 1 + partition (span - k - 1) (λ j. leb (value (k + 1 + j)) needle)

unfoldable pub runend_bounds : ℕ → (end_at value_at : ℕ → ℕ) → ℕ → ℕ → ℕ → ℕ × ℕ
unfolding window_runs run_start past_run
runend_bounds nruns end_at value_at offset n needle =
    let (first, span) = window_runs nruns end_at offset n in
    let value = λ (k : ℕ). value_at (first + k) in
    let k = search_ascending span value needle in
    (
      run_start end_at (first + k) offset n,
      run_start end_at (first + past_run span value needle k) offset n,
    )

-- One search for the lower bound; the upper bound is searched below its cap only.
unfoldable pub capped_bounds : ℕ → (ℕ → ℕ) → ℕ → ℕ × ℕ
capped_bounds n value needle =
    let (lo, past) = search_ascending_capped n value needle in
    (lo, lo + partition (past - lo) (λ i. leb (value (lo + i)) needle))

module _ (fl : FastLanes) where
  unfoldable pub bounds : Node → ℕ → ℕ × ℕ
  unfolding value_at len runend_bounds capped_bounds
  bounds (run_end ends values offset n) needle =
      runend_bounds (len ends) (value_at fl ends) (value_at fl values) offset n needle
  bounds (frame_of_reference reference child) needle =
      let inner = bounds child (needle - reference) in
      if ltb needle reference then (0, 0) else inner
  bounds (bit_packed packed bit_width offset n patches) needle =
      capped_bounds n
        (λ i. or_else (patch_at fl patches i) (packed_value fl packed bit_width offset i)) needle
  bounds node needle = (lower_bound fl node needle, upper_bound fl node needle)

-- Both split points of the range, and a needle's values between them.
pub record AreBounds (n : ℕ) (value : ℕ → ℕ) (needle : ℕ) (r : ℕ × ℕ) : Type 0 where
  pub lower : IsSplit n (under value needle) r.0
  pub upper : IsSplit n (up_to value needle) r.1

module _ (n : ℕ) (value : ℕ → ℕ) (needle : ℕ) (low : IsMonotone n (under value needle))
    (high : IsMonotone n (up_to value needle)) where
  -- The needle's values end where they do below any cap.
  cap-IsSplit :
      (lo past : ℕ)
      → IsSplit n (under value needle) lo
      → IsCap n value needle past
      → lo ≤ past
      → IsSplit n
          (up_to value needle)
          (lo + partition (past - lo) (λ i. leb (value (lo + i)) needle))
  cap-IsSplit lo past split cap order =
      shifted-IsSplit order cap.within (λ i p. le→leb _ _ (omega (tests, split.passing i p)))
        (λ i p h. fails_after high past i p h (lt→leb _ _ (cap.above (omega arith))))
        (partition-IsSplit (shifted-IsMonotone lo past cap.within high))

  lower-le-cap :
      (lo past : ℕ) → IsSplit n (under value needle) lo → IsCap n value needle past → lo ≤ past
  lower-le-cap lo past split cap = elim (Bool-cases (ltb past lo)) [
    | inr order ↦ ltb→le _ _ order
    | inl early ↦ absurd (
        omega (
          tests,
          split.within,
          split.passing past (ltb→lt _ _ early),
          cap.above (omega (tests, split.within)),
        ))
  ]

  absent-IsSplit :
      (k : ℕ)
      → IsSplit n (under value needle) k
      → (k == n || not (value k == needle)) ≡ true
      → IsSplit n (up_to value needle) k
  absent-IsSplit k split absent = record {
    within = split.within;
    passing = λ i p. le→leb _ _ (omega (tests, split.passing i p));
    failing = λ i p h.
        fails_after high k i p h (ground (arith, split.failing k (omega arith) (omega arith)));
  }

  reached :
      (k : ℕ)
      → IsSplit n (under value needle) k
      → value k ≡ needle
      → (i : ℕ) → i < k + 1
      → up_to value needle i ≡ true
  reached k split e i p = elim (Bool-cases (ltb i k)) [
    | inl before ↦ le→leb _ _ (omega (tests, split.passing i (ltb→lt _ _ before)))
    | inr here ↦ let f : i ≡ k = omega tests in rw f (le→leb _ _ (omega arith))
  ]

  larger_next :
      (k i : ℕ)
      → k + 1 ≤ i
      → i < n
      → (k + 1 == n || ltb needle (value (k + 1))) ≡ true
      → needle < value (k + 1)
  larger_next k i p h next = ground arith

  capped_bounds-AreBounds : AreBounds n value needle (capped_bounds n value needle)
  unfolding capped_bounds
  capped_bounds-AreBounds =
      let answer = search_ascending_capped-IsAnswer n value needle low in
      let found = search_ascending_capped n value needle in
      let order : found.0 ≤ found.1 = lower-le-cap _ _ answer.0 answer.1 in
      record { lower = answer.0; upper = cap-IsSplit _ _ answer.0 answer.1 order }

  past_run-IsSplit :
      (k : ℕ)
      → IsSplit n (under value needle) k
      → IsSplit n (up_to value needle) (past_run n value needle k)
  unfolding past_run
  past_run-IsSplit k split = elim (Bool-cases (k == n || not (value k == needle))) [
    | inl absent ↦ rw absent (absent-IsSplit k split absent)
    | inr found ↦
        let here : (k < n) × (value k ≡ needle) = ground (arith, split.within) in
        let upto : (i : ℕ) → i < k + 1 → up_to value needle i ≡ true = reached k split here.1 in
        rw found (elim (Bool-cases (k + 1 == n || ltb needle (value (k + 1)))) [
          | inl next ↦ rw next (record {
            within = omega (arith, here.0);
            passing = upto;
            failing =
                λ i p h. fails_after high (k + 1) i p h (lt→leb _ _ (larger_next k i p h next));
          })
          | inr more ↦
              let e : n - k - 1 ≡ n - (k + 1) = omega arith in
              rw more (
                rw e (
                  shifted-IsSplit (omega (arith, here.0)) (omega arith) upto
                    (λ i p h. absurd (omega arith))
                    (partition-IsSplit (shifted-IsMonotone (k + 1) n (omega arith) high))))
        ])
  ]

runend_bounds-AreBounds :
    (nruns : ℕ) (end_at values : ℕ → ℕ) (offset n needle : ℕ)
    → IsRunEnds nruns end_at offset n
    → let value = λ (i : ℕ). values (run_of nruns end_at (i + offset)) in
      IsMonotone n (under value needle)
      → IsMonotone n (up_to value needle)
      → AreBounds n value needle (runend_bounds nruns end_at values offset n needle)
unfolding runend_bounds
runend_bounds-AreBounds nruns end_at values offset n needle ends low high =
    elim (Bool-cases (ltb 0 n)) [
      | inl some_rows ↦
          let h : 0 < n = ltb→lt _ _ some_rows in
          let rows = window_runs-IsWindowRuns nruns end_at offset n ends h in
          let low_runs =
            runs-IsMonotone nruns end_at offset n ends h _ _ rows (λ v. ltb v needle) values low in
          let high_runs =
            runs-IsMonotone nruns end_at offset n ends h _ _ rows (λ v. leb v needle) values high in
          let found = search_ascending-IsSplit _ _ needle low_runs in
          record {
            lower =
                window-IsSplit nruns end_at offset n ends h _ _ rows (λ v. ltb v needle) values _
                  low found;
            upper =
                window-IsSplit nruns end_at offset n ends h _ _ rows (λ v. leb v needle) values _
                  high (past_run-IsSplit _ _ needle low_runs high_runs _ found);
          }
      | inr no_rows ↦ record {
        lower = no_row-IsSplit _ (ltb→le _ _ no_rows) (run_start-le end_at _ offset n);
        upper = no_row-IsSplit _ (ltb→le _ _ no_rows) (run_start-le end_at _ offset n);
      }
    ]

-- Below its reference a frame of reference holds nothing; above it, its child's values shifted.
reference-AreBounds :
    (reference n needle : ℕ) (value : ℕ → ℕ) (inner : ℕ × ℕ)
    → needle < u64_mod
    → ((i : ℕ) → i < n → reference + value i < u64_mod)
    → let sums = λ (i : ℕ). saturating_add reference (value i) in
      IsMonotone n (under sums needle)
      → IsMonotone n (up_to sums needle)
      → (reference ≤ needle
          → IsMonotone n (under value (needle - reference))
          → IsMonotone n (up_to value (needle - reference))
          → AreBounds n value (needle - reference) inner)
      → AreBounds n sums needle (if ltb needle reference then (0, 0) else inner)
reference-AreBounds reference n needle value inner small fits low high child =
    elim (Bool-cases (ltb needle reference)) [
      | inl none_here ↦ rw none_here (record {
        lower = record {
          within = omega arith;
          passing = λ i p. absurd (omega arith);
          failing = λ i p q. ground (arith, fits i q);
        };
        upper = record {
          within = omega arith;
          passing = λ i p. absurd (omega arith);
          failing = λ i p q. ground (arith, fits i q);
        };
      })
      | inr above ↦
          let under_same : (i : ℕ)
              → i < n
              → ltb (value i) (needle - reference)
                ≡ ltb (saturating_add reference (value i)) needle =
            λ i p. ground (arith, fits i p) in
          let up_to_same : (i : ℕ)
              → i < n
              → leb (value i) (needle - reference)
                ≡ leb (saturating_add reference (value i)) needle =
            λ i p. ground (arith, fits i p) in
          let s =
            child (ltb→le _ _ above) (IsMonotone-congr _ (λ i p. sym (under_same i p)) low)
              (IsMonotone-congr _ (λ i p. sym (up_to_same i p)) high) in
          rw above (record {
            lower = IsSplit-congr _ _ under_same s.lower;
            upper = IsSplit-congr _ _ up_to_same s.upper;
          })
    ]

module _ (fl : FastLanes) where
  two_searches :
      (node : Node) (needle : ℕ)
      → needle < u64_mod
      → IsFormed fl node
      → ((i : ℕ) → i < len node → value_at fl node i < u64_mod)
      → IsMonotone (len node) (under (value_at fl node) needle)
      → IsMonotone (len node) (up_to (value_at fl node) needle)
      → AreBounds
          (len node)
          (value_at fl node)
          needle
          (lower_bound fl node needle, upper_bound fl node needle)
  two_searches node needle small formed words low high = record {
    lower = node-IsSplit fl node needle small formed low;
    upper = upper_bound-IsSplit fl node needle small formed words high;
  }

  bounds-AreBounds :
      (node : Node) (needle : ℕ)
      → needle < u64_mod
      → IsFormed fl node
      → ((i : ℕ) → i < len node → value_at fl node i < u64_mod)
      → IsMonotone (len node) (under (value_at fl node) needle)
      → IsMonotone (len node) (up_to (value_at fl node) needle)
      → AreBounds (len node) (value_at fl node) needle (bounds fl node needle)
  unfolding bounds IsFormed
  bounds-AreBounds (run_end ends values offset n) needle small formed words low high =
      runend_bounds-AreBounds (len ends) (value_at fl ends) (value_at fl values) offset n needle
        formed low high
  bounds-AreBounds (frame_of_reference reference child) needle small formed words low high =
      reference-AreBounds reference (len child) needle (value_at fl child) _ small formed.1 low high
        (λ h l u.
          bounds-AreBounds child (needle - reference) (omega arith) formed.2
            (λ i p. omega (arith, formed.1 i p)) l u)
  bounds-AreBounds (bit_packed packed bit_width offset n patches) needle small formed words low
        high =
      capped_bounds-AreBounds n _ needle low high
  bounds-AreBounds node needle small formed words low high =
      two_searches node needle small formed words low high

  -- Over a well-formed node's words, sorted ascending, the pair of bounds of a `u64` needle is the
  -- two bisections of the values: the half-open run of the needle's rows, empty at its insertion
  -- point where there are none.
  pub bounds-eq-partition :
      (node : Node) (needle : ℕ)
      → needle < u64_mod
      → IsFormed fl node
      → ((i : ℕ) → i < len node → value_at fl node i < u64_mod)
      → IsAscending (len node) (value_at fl node)
      → bounds fl node needle ≡ (
        partition (len node) (under (value_at fl node) needle),
        partition (len node) (up_to (value_at fl node) needle),
      )
  bounds-eq-partition node needle small formed words asc =
      let low = under-IsMonotone (len node) (value_at fl node) needle asc in
      let high = up_to-IsMonotone (len node) (value_at fl node) needle asc in
      let both = bounds-AreBounds node needle small formed words low high in
      let l = IsSplit-unique _ _ both.lower (partition-IsSplit low) in
      let u = IsSplit-unique _ _ both.upper (partition-IsSplit high) in λ i. (l i, u i)
