-- ===== src/Node/Kinds.antt =====
-- encoded-search/src/node.rs: the lower bound of each kind of node finds a split point.
use native.Mathlib.Nat.{mod-eq_of_lt}
use vortex_rdf.Prelude.{
  ℕ, suc, ◌+◌, ◌-◌, ◌*◌, ◌%◌, ◌≤◌, ◌<◌, ◌≡◌, refl, sym, ap, ◌∙◌, Bool, inl, inr, arith, min, tests,
  Bool-cases, ltb, leb, ltb→lt, ltb→le, leb→lt, lt→ltb, le→ltb, if◌then◌else◌,
}
use vortex_rdf.Search.Partition.{
  partition, IsSplit, IsMonotone, partition-IsSplit, IsSplit-congr, IsMonotone-congr,
}
use vortex_rdf.Search.Ascending.{search_ascending}
use vortex_rdf.Search.Agrees.{under, search_ascending-eq-partition}
use vortex_rdf.Search.Cuts.{IsCut, IsIn, locate_unique, cut-IsSplit, stop-le, blocks-IsMonotone}
use vortex_rdf.Node.Tree.{Chunks, chunked, chunk_len, chunk_count, chunk_start, u64_mod, FastLanes}
use vortex_rdf.Node.Values.{
  value_at, lower_bound, chunk_value, chunk_last, chunk_lower_bound, run_of, run_start,
  runend_lower_bound, saturating_add, div_ceil,
}
use vortex_rdf.Node.Runs.{IsRunEnds, window_runs-IsWindowRuns}
use vortex_rdf.Node.RunRows.{window-IsSplit, runs-IsMonotone}
use vortex_rdf.Node.Formed.{IsLaid, div_ceil_passes, div_ceil_fails}
use vortex_rdf.Node.Laid.{laid-IsCut, chunk_stop, chunk_last-chunk_value}

-- The two searches by probes.
pub search_ascending-IsSplit :
    (n : ℕ) (value : ℕ → ℕ) (needle : ℕ)
    → IsMonotone n (under value needle)
    → IsSplit n (under value needle) (search_ascending n value needle)
search_ascending-IsSplit n value needle mono =
    rw (search_ascending-eq-partition n value needle mono) (partition-IsSplit mono)

pub constant-IsSplit :
    (value n needle : ℕ) → IsSplit n (λ i. ltb value needle) (if ltb value needle then n else 0)
constant-IsSplit value n needle = elim (Bool-cases (ltb value needle)) [
  | inl t ↦ rw t (record {
    within = omega arith;
    passing = λ i p. refl;
    failing = λ i p q. absurd (omega arith);
  })
  | inr t ↦ rw t (record {
    within = omega arith;
    passing = λ i p. absurd (omega arith);
    failing = λ i p q. refl;
  })
]

pub sequence-IsSplit :
    (base multiplier n needle : ℕ)
    → 0 < multiplier
    → ((i : ℕ) → i < n → base + i * multiplier < u64_mod)
    → IsSplit n
        (λ i. ltb ((base + i * multiplier) % u64_mod) needle)
        (if leb needle base then 0 else min (div_ceil (needle - base) multiplier) n)
sequence-IsSplit base multiplier n needle p fits = elim (Bool-cases (leb needle base)) [
  | inl low ↦ rw low (record {
    within = omega arith;
    passing = λ i q. absurd (omega arith);
    failing = λ i q h. rw (mod-eq_of_lt (fits i h)) (le→ltb _ _ (omega tests));
  })
  | inr high ↦ rw high (record {
    within = omega arith;
    passing = λ i q. rw (mod-eq_of_lt (fits i (omega arith))) (
        lt→ltb _ _ (
          omega (
            arith,
            leb→lt _ _ high,
            div_ceil_passes (needle - base) multiplier i p (omega arith),
          )));
    failing = λ i q h. rw (mod-eq_of_lt (fits i h)) (
        le→ltb _ _ (
          omega
            (arith, leb→lt _ _ high, div_ceil_fails (needle - base) multiplier i p (omega arith))));
  })
]

pub run_start-le : (end_at : ℕ → ℕ) (run offset n : ℕ) → run_start end_at run offset n ≤ n
unfolding run_start
run_start-le end_at run offset n = ground arith

pub no_row-IsSplit : {n : ℕ} (below : ℕ → Bool) {r : ℕ} → n ≤ 0 → r ≤ n → IsSplit n below r
no_row-IsSplit below z h = record {
  within = h;
  passing = λ i p. absurd (omega arith);
  failing = λ i p q. absurd (omega arith);
}

pub run_end-IsSplit :
    (nruns : ℕ) (end_at values : ℕ → ℕ) (offset n needle : ℕ)
    → IsRunEnds nruns end_at offset n
    → IsMonotone n (λ i. ltb (values (run_of nruns end_at (i + offset))) needle)
    → IsSplit n
        (λ i. ltb (values (run_of nruns end_at (i + offset))) needle)
        (runend_lower_bound nruns end_at values offset n needle)
unfolding runend_lower_bound
run_end-IsSplit nruns end_at values offset n needle ends mono = elim (Bool-cases (ltb 0 n)) [
  | inl some_rows ↦
      let h : 0 < n = ltb→lt _ _ some_rows in
      let rows = window_runs-IsWindowRuns nruns end_at offset n ends h in
      window-IsSplit nruns end_at offset n ends h _ _ rows (λ v. ltb v needle) values _ mono
        (search_ascending-IsSplit _ _ needle
          (runs-IsMonotone nruns end_at offset n ends h _ _ rows (λ v. ltb v needle) values mono))
  | inr no_rows ↦ no_row-IsSplit _ (ltb→le _ _ no_rows) (run_start-le end_at _ offset n)
]

pub chunked-IsSplit :
    (fl : FastLanes) (cs : Chunks) (n needle : ℕ)
    → IsLaid fl cs 0 n
    → IsMonotone n (under (value_at fl (chunked cs n)) needle)
    → ((c : ℕ)
        → c < chunk_count cs
        → IsMonotone (chunk_len cs c) (under (chunk_value fl cs c) needle)
        → IsSplit
            (chunk_len cs c)
            (under (chunk_value fl cs c) needle)
            (chunk_lower_bound fl cs c needle))
    → IsSplit n (under (value_at fl (chunked cs n)) needle) (lower_bound fl (chunked cs n) needle)
unfolding value_at
chunked-IsSplit fl cs n needle laid mono inside =
    cut-IsSplit m n (chunk_start cs) (chunk_stop cs) cut below c _ mono blocks split_inside
  where
    m : ℕ
    m = chunk_count cs

    below : ℕ → Bool
    below = under (value_at fl (chunked cs n)) needle

    c : ℕ
    c = partition m (λ d. ltb (chunk_last fl cs d) needle)

    cut : IsCut m n (chunk_start cs) (chunk_stop cs)
    cut = laid-IsCut fl cs n laid

    read :
        (i d : ℕ)
        → IsIn m (chunk_start cs) (chunk_stop cs) i d
        → value_at fl (chunked cs n) i ≡ chunk_value fl cs d (i - chunk_start cs d)
    read i d at =
        let e = locate_unique m n (chunk_start cs) (chunk_stop cs) cut i d at in
        let f : suc d - 1 ≡ d = omega arith in rw e (rw f)

    last_row : (d : ℕ) → d < m → below (chunk_stop cs d - 1) ≡ ltb (chunk_last fl cs d) needle
    last_row d h =
        let filled = cut.filled d h in
        let e : chunk_stop cs d - 1 - chunk_start cs d ≡ chunk_len cs d - 1 = omega arith in
        let at : IsIn m (chunk_start cs) (chunk_stop cs) (chunk_stop cs d - 1) d = record {
          known = h;
          from = omega arith;
          before = omega arith;
        } in
        ap (λ v. ltb v needle)
          (read _ d at ∙ ap (chunk_value fl cs d) e ∙ sym (chunk_last-chunk_value fl cs d))

    blocks : IsSplit m (λ d. below (chunk_stop cs d - 1)) c
    blocks =
        IsSplit-congr _ c (λ d h. sym (last_row d h))
          (partition-IsSplit (
            IsMonotone-congr _ last_row
              (blocks-IsMonotone m n (chunk_start cs) (chunk_stop cs) cut below mono)))

    row_inside :
        (d k : ℕ)
        → d < m
        → k < chunk_len cs d
        → under (chunk_value fl cs d) needle k ≡ below (chunk_start cs d + k)
    row_inside d k h p =
        let e : chunk_start cs d + k - chunk_start cs d ≡ k = omega arith in
        let at : IsIn m (chunk_start cs) (chunk_stop cs) (chunk_start cs d + k) d = record {
          known = h;
          from = omega arith;
          before = omega arith;
        } in
        ap (λ v. ltb v needle) (sym (read _ d at ∙ ap (chunk_value fl cs d) e))

    inside_mono : (d : ℕ) → d < m → IsMonotone (chunk_len cs d) (under (chunk_value fl cs d) needle)
    inside_mono d h =
        IsMonotone-congr _ (λ k p. sym (row_inside d k h p))
          (λ i j p q t.
            mono (chunk_start cs d + i) (chunk_start cs d + j) (omega arith)
              (omega (arith, stop-le m n (chunk_start cs) (chunk_stop cs) cut d h)) t)

    split_inside :
        c < m
        → IsSplit
            (chunk_stop cs c - chunk_start cs c)
            (λ k. below (chunk_start cs c + k))
            (chunk_lower_bound fl cs c needle)
    split_inside h =
        let e : chunk_stop cs c - chunk_start cs c ≡ chunk_len cs c = omega arith in
        rw e (IsSplit-congr _ _ (λ k p. row_inside c k h p) (inside c h (inside_mono c h)))

pub shifted :
    (reference v needle : ℕ)
    → reference < needle
    → needle < u64_mod
    → ltb v (needle - reference) ≡ ltb (saturating_add reference v) needle
shifted reference v needle p q = ground arith
