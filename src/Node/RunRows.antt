-- ===== src/Node/RunRows.antt =====
-- encoded-search/src/node.rs: the rows of a run-end window's runs, and the split point of its rows
-- by the split point of its runs.
use vortex_rdf.Prelude.{
  ℕ, suc, ◌+◌, ◌-◌, ◌≤◌, ◌<◌, ◌≡◌, refl, sym, ap, subst, ◌∙◌, Bool, inl, inr, ◌⊎◌, arith,
  if◌then◌else◌, ltb, ◌==◌, ==_iff, min, tests, Bool-cases,
}
use vortex_rdf.Search.Partition.{IsSplit, IsMonotone, IsSplit-congr, IsMonotone-congr}
use vortex_rdf.Search.Cuts.{IsCut, IsIn, cut-IsSplit, blocks-IsMonotone}
use vortex_rdf.Node.Values.{run_of, run_start}
use vortex_rdf.Node.Runs.{IsRunEnds, IsWindowRuns, run_of-eq, ends_rise}

module _ (nruns : ℕ) (end_at : ℕ → ℕ) (offset n : ℕ) (ends : IsRunEnds nruns end_at offset n)
    (some_rows : 0 < n) (first span : ℕ)
    (rows : IsWindowRuns nruns end_at offset n ends first span) where
  -- The first row of the window's run `k`.
  abbrev row : ℕ → ℕ
  row k = run_start end_at (first + k) offset n

  row-suc : (k : ℕ) → row (suc k) ≡ min (end_at (first + k) - offset) n
  unfolding run_start
  row-suc k =
      let e : first + suc k ≡ suc (first + k) = omega arith in rw e (ground (arith, pred_suc))
    where
      pred_suc : suc (first + k) - 1 ≡ first + k
      pred_suc = omega arith

  -- Where a run's row is not 0, it is where the run before ends.
  row-pred : (k r : ℕ) → suc r ≡ first + k → row k ≡ min (end_at r - offset) n
  unfolding run_start
  row-pred k r e =
      let p : first + k ≡ suc r = sym e in
      let q : suc r - 1 ≡ r = omega arith in rw p (ground (arith, q))

  row-zero : (k : ℕ) → first + k ≡ 0 → row k ≡ 0
  unfolding run_start
  row-zero k e = rw e

  Run-cases : (k : ℕ) → (first + k ≡ 0) ⊎ ((r : ℕ) × (suc r ≡ first + k))
  Run-cases k = elim (Bool-cases (ltb 0 (first + k))) [
    | inl p ↦ inr (first + k - 1, omega tests)
    | inr z ↦ inl (omega tests)
  ]

  row-first : row 0 ≡ 0
  unfolding run_start
  row-first = ground (arith, rows.starts (first - 1))

  row-end : (k : ℕ) → suc k ≡ span → row (suc k) ≡ n
  unfolding run_start
  row-end k e = ground (arith, rows.reaches (first + k))

  row_filled : (k : ℕ) → k < span → row k < row (suc k)
  unfolding run_start
  row_filled k h =
      let begins = rows.begins (first + k) (omega arith) (omega (arith, rows.inside)) in
      elim (Run-cases k) [
        | inl z ↦ rw (row-suc k) (omega (arith, row-zero k z, begins, some_rows))
        | inr (r, e) ↦ rw (row-suc k) (
            omega (
              arith,
              row-pred k r e,
              begins,
              rows.overlaps r (omega arith),
              ends_rise nruns end_at offset n ends r (first + k) (omega arith)
                  (omega (arith, rows.inside)),
            ))
      ]

  window-IsCut : IsCut span n row (λ k. row (suc k))
  window-IsCut = record {
    first = λ h. row-first;
    filled = row_filled;
    joined = λ c h. refl;
    last = row-end;
    empty = λ e. absurd (omega (arith, rows.some_run));
  }

  run_of-row :
      (i k : ℕ)
      → IsIn span row (λ k. row (suc k)) i k
      → run_of nruns end_at (i + offset) ≡ first + k
  unfolding run_start
  run_of-row i k at =
      run_of-eq nruns end_at offset n ends (i + offset) (first + k)
        (omega (arith, rows.inside, at.known)) before (omega (arith, row-suc k, at.before))
    where
      before : 0 < first + k → end_at (first + k - 1) ≤ i + offset
      before p =
          omega (arith, row-pred k (first + k - 1) (omega arith), at.from, at.before, row-suc k)

  last-IsIn : (d : ℕ) → d < span → IsIn span row (λ k. row (suc k)) (row (suc d) - 1) d
  last-IsIn d h = record {
    known = h;
    from = omega (arith, row_filled d h);
    before = omega (arith, row_filled d h);
  }

  row-split : (k : ℕ) → k ≤ span → (if k == span then n else row k + 0) ≡ row k
  row-split k h = elim (Bool-cases (k == span)) [
    | inl all ↦ rw all (all_rows ((==_iff k span).0 all))
    | inr some ↦ rw some (omega arith)
  ]
    where
      all_rows : k ≡ span → n ≡ row k
      all_rows e =
          let f : suc (k - 1) ≡ k = omega (arith, rows.some_run) in
          sym (row-end (k - 1) (f ∙ e)) ∙ ap row f

  -- The values of the window's runs ascend as far as its rows do.
  pub runs-IsMonotone :
      (test : ℕ → Bool) (value_at : ℕ → ℕ)
      → IsMonotone n (λ i. test (value_at (run_of nruns end_at (i + offset))))
      → IsMonotone span (λ j. test (value_at (first + j)))
  runs-IsMonotone test value_at mono =
      IsMonotone-congr _ (λ d h. ap (λ r. test (value_at r)) (run_of-row _ d (last-IsIn d h)))
        (blocks-IsMonotone span n row (λ j. row (suc j)) window-IsCut _ mono)

  -- The rows of the window come before a split of its runs exactly where their runs do.
  pub window-IsSplit :
      (test : ℕ → Bool) (value_at : ℕ → ℕ) (k : ℕ)
      → IsMonotone n (λ i. test (value_at (run_of nruns end_at (i + offset))))
      → IsSplit span (λ j. test (value_at (first + j))) k
      → IsSplit n (λ i. test (value_at (run_of nruns end_at (i + offset)))) (row k)
  window-IsSplit test value_at k mono runs =
      subst (IsSplit n below) (row-split k runs.within)
        (cut-IsSplit span n row (λ j. row (suc j)) window-IsCut below k 0 mono blocks inside)
    where
      below : ℕ → Bool
      below i = test (value_at (run_of nruns end_at (i + offset)))

      read :
          (i d : ℕ) → IsIn span row (λ j. row (suc j)) i d → below i ≡ test (value_at (first + d))
      read i d at = ap (λ r. test (value_at r)) (run_of-row i d at)

      blocks : IsSplit span (λ d. below (row (suc d) - 1)) k
      blocks = IsSplit-congr _ k (λ d h. sym (read _ d (last-IsIn d h))) runs

      inside : k < span → IsSplit (row (suc k) - row k) (λ j. below (row k + j)) 0
      inside known = record {
        within = omega arith;
        passing = λ j p. absurd (omega arith);
        failing = λ j p q.
            read _ k (record { known = known; from = omega arith; before = omega arith })
            ∙ runs.failing k (omega arith) known;
      }
