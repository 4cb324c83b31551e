-- ===== src/Node/Runs.antt =====
-- encoded-search/src/node.rs, `window_runs`, `run_start` and the run-end bounds: the rows of a
-- run-end array's window, run by run.
use vortex_rdf.Prelude.{
  ℕ, zero, suc, ◌+◌, ◌-◌, ◌≤◌, ◌<◌, ◌≡◌, ◌&&◌, inl, inr, arith, ltb, leb, ◌==◌, min, tests, ltb→lt,
  ltb→le, leb→le, leb→lt, Bool-cases,
}
use vortex_rdf.Search.Partition.{IsSplit, IsMonotone, partition-IsSplit, partition-eq_of_IsSplit}
use vortex_rdf.Node.Values.{run_of, window_runs}

-- The ends rise, the first of them past 0, and the runs reach the end of the window.
pub record IsRunEnds (nruns : ℕ) (end_at : ℕ → ℕ) (offset n : ℕ) : Type 0 where
  pub positive : 0 < nruns → 0 < end_at 0
  pub rising : (r : ℕ) → suc r < nruns → end_at r < end_at (suc r)
  pub nonempty : 0 < n → 0 < nruns
  pub reaching : 0 < n → offset + n ≤ end_at (nruns - 1)

module _ (nruns : ℕ) (end_at : ℕ → ℕ) (offset n : ℕ) (ends : IsRunEnds nruns end_at offset n) where
  end-lt-end : (k r : ℕ) → r + suc k < nruns → end_at r < end_at (r + suc k)
  end-lt-end zero r h =
      let e : r + suc zero ≡ suc r = omega arith in rw e (ends.rising r (omega arith))
  end-lt-end (suc k) r h =
      let e : r + suc (suc k) ≡ suc r + suc k = omega arith in
      rw e (omega (arith, end-lt-end k (suc r) (omega arith), ends.rising r (omega arith)))

  pub ends_rise : (r s : ℕ) → r < s → s < nruns → end_at r < end_at s
  ends_rise r s p q =
      let e : r + suc (s - suc r) ≡ s = omega arith in
      rw e at (end-lt-end (s - suc r) r (omega arith))

  ends_order : (r s : ℕ) → r ≤ s → s < nruns → end_at r ≤ end_at s
  ends_order r s p q = elim (Bool-cases (ltb r s)) [
    | inl less ↦ omega (arith, ends_rise r s (ltb→lt _ _ less) q)
    | inr same ↦ let e : r ≡ s = omega tests in rw e (omega arith)
  ]

  ended-IsMonotone : (pos : ℕ) → IsMonotone nruns (λ r. leb (end_at r) pos)
  ended-IsMonotone pos i j p q t = omega (tests, ends_order i j p q)

  pub run_of-IsSplit : (pos : ℕ) → IsSplit nruns (λ r. leb (end_at r) pos) (run_of nruns end_at pos)
  unfolding run_of
  run_of-IsSplit pos = partition-IsSplit (ended-IsMonotone pos)

  -- The run of a position is the one whose end is the first past it.
  pub run_of-eq :
      (pos r : ℕ)
      → r < nruns
      → (0 < r → end_at (r - 1) ≤ pos)
      → pos < end_at r
      → run_of nruns end_at pos ≡ r
  unfolding run_of
  run_of-eq pos r h before after = partition-eq_of_IsSplit (ended-IsMonotone pos) (record {
    within = omega arith;
    passing = λ i p.
        omega (tests, ends_order i (r - 1) (omega arith) (omega arith), before (omega arith));
    failing = λ i p q. omega (tests, ends_order r i p q);
  })

  -- What `window_runs` finds: the first run that ends past the window's start, and as many runs as
  -- overlap it.
  pub record IsWindowRuns (first span : ℕ) : Type 0 where
    pub some_run : 0 < span
    pub inside : first + span ≤ nruns
    pub starts : (r : ℕ) → r < first → end_at r ≤ offset
    pub begins : (r : ℕ) → first ≤ r → r < nruns → offset < end_at r
    pub overlaps : (r : ℕ) → suc r < first + span → end_at r < offset + n
    pub reaches : (r : ℕ) → suc r ≡ first + span → offset + n ≤ end_at r

  unsliced : 0 < n → offset ≡ 0 → 0 < nruns → end_at (nruns - 1) ≡ n → IsWindowRuns 0 nruns
  unsliced h o p e = record {
    some_run = p;
    inside = omega arith;
    starts = λ r q. absurd (omega arith);
    begins = λ r q t. omega (arith, ends_order 0 r (omega arith) t, ends.positive p);
    overlaps = λ r q. omega (arith, ends_rise r (nruns - 1) (omega arith) (omega arith));
    reaches = λ r q. let f : r ≡ nruns - 1 = omega arith in rw f (omega arith);
  }

  last-lt-nruns : 0 < n → run_of nruns end_at (offset + n - 1) < nruns
  last-lt-nruns h =
      let last : ℕ = run_of nruns end_at (offset + n - 1) in
      let found : IsSplit nruns (λ r. leb (end_at r) (offset + n - 1)) last = run_of-IsSplit _ in
      let p : 0 < nruns = ends.nonempty h in
      elim (Bool-cases (ltb last nruns)) [
        | inl less ↦ ltb→lt _ _ less
        | inr all ↦
            absurd
              (omega (tests, leb→le _ _ (found.passing (nruns - 1) (omega tests)), ends.reaching h))
      ]

  first-le-last : 0 < n → run_of nruns end_at offset ≤ run_of nruns end_at (offset + n - 1)
  first-le-last h =
      let first : ℕ = run_of nruns end_at offset in
      let last : ℕ = run_of nruns end_at (offset + n - 1) in
      let begun : IsSplit nruns (λ r. leb (end_at r) offset) first = run_of-IsSplit _ in
      let found : IsSplit nruns (λ r. leb (end_at r) (offset + n - 1)) last = run_of-IsSplit _ in
      elim (Bool-cases (ltb last first)) [
        | inr order ↦ ltb→le _ _ order
        | inl less ↦ absurd (
            omega (
              tests,
              leb→le _ _ (begun.passing last (ltb→lt _ _ less)),
              leb→lt _ _ (found.failing last (omega arith) (last-lt-nruns h)),
            ))
      ]

  sliced :
      0 < n
      → IsWindowRuns
          (run_of nruns end_at offset)
          (min (run_of nruns end_at (offset + n - 1) + 1) nruns - run_of nruns end_at offset)
  sliced h =
      let first : ℕ = run_of nruns end_at offset in
      let last : ℕ = run_of nruns end_at (offset + n - 1) in
      let begun : IsSplit nruns (λ r. leb (end_at r) offset) first = run_of-IsSplit _ in
      let found : IsSplit nruns (λ r. leb (end_at r) (offset + n - 1)) last = run_of-IsSplit _ in
      let l = last-lt-nruns h in
      let f = first-le-last h in
      record {
        some_run = omega arith;
        inside = omega arith;
        starts = λ r q. leb→le _ _ (begun.passing r q);
        begins = λ r q t. leb→lt _ _ (begun.failing r q t);
        overlaps = λ r q. omega (arith, leb→le _ _ (found.passing r (omega arith)));
        reaches = λ r q.
            let e : r ≡ last = omega arith in
            rw e (omega (arith, leb→lt _ _ (found.failing last (omega arith) l)));
      }

  pub window_runs-IsWindowRuns :
      0 < n
      → IsWindowRuns (window_runs nruns end_at offset n).0 (window_runs nruns end_at offset n).1
  unfolding window_runs
  window_runs-IsWindowRuns h = elim (Bool-cases (n == 0)) [
    | inl zero_rows ↦ absurd (ground arith)
    | inr some_rows ↦
        rw some_rows (elim (Bool-cases (offset == 0 && (ltb 0 nruns && end_at (nruns - 1) == n))) [
          | inl whole ↦ rw whole (unsliced h (ground arith) (ground arith) (ground arith))
          | inr part ↦ rw part (sliced h)
        ])
  ]
