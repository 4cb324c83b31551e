-- ===== src/Search/Cuts.antt =====
-- A range cut into consecutive blocks, none empty: how a chunked array is laid out, and how the
-- rows of a run-end array are. The split point of the whole range lies in the first block whose
-- last row fails the test.
use vortex_rdf.Prelude.{
  ℕ, zero, suc, ◌+◌, ◌-◌, ◌≤◌, ◌<◌, ◌≡◌, Bool, true, inl, inr, arith, leb, ltb, if◌then◌else◌, ◌==◌,
  ==_iff, ltb→lt, leb→le, leb→lt, tests, Bool-cases,
}
use vortex_rdf.Search.Partition.{
  partition, IsSplit, IsMonotone, partition-IsSplit, partition-eq_of_IsSplit, fails_after,
}

-- Block `c` of `m` holds the rows from `start c` up to `stop c`.
pub record IsCut (m total : ℕ) (start stop : ℕ → ℕ) : Type 0 where
  pub first : 0 < m → start 0 ≡ 0
  pub filled : (c : ℕ) → c < m → start c < stop c
  pub joined : (c : ℕ) → suc c < m → start (suc c) ≡ stop c
  pub last : (c : ℕ) → suc c ≡ m → stop c ≡ total
  pub empty : m ≡ 0 → total ≡ 0

-- The row `i` lies in block `c`.
pub record IsIn (m : ℕ) (start stop : ℕ → ℕ) (i c : ℕ) : Type 0 where
  pub known : c < m
  pub from : start c ≤ i
  pub before : i < stop c

module _ (m total : ℕ) (start stop : ℕ → ℕ) (cut : IsCut m total start stop) where
  stop-le-start : (k c : ℕ) → c + suc k < m → stop c ≤ start (c + suc k)
  stop-le-start zero c h =
      let e : c + suc zero ≡ suc c = omega arith in rw e (omega (arith, cut.joined c))
  stop-le-start (suc k) c h =
      let e : c + suc (suc k) ≡ suc c + suc k = omega arith in
      rw e (
        omega (
          arith,
          stop-le-start k (suc c) (omega arith),
          cut.joined c (omega arith),
          cut.filled (suc c) (omega arith),
        ))

  -- A later block begins where an earlier one has ended.
  pub block_order : (c d : ℕ) → c < d → d < m → stop c ≤ start d
  block_order c d p q =
      let e : c + suc (d - suc c) ≡ d = omega arith in
      rw e at (stop-le-start (d - suc c) c (omega arith))

  pub stop-le : (c : ℕ) → c < m → stop c ≤ total
  stop-le c h = elim (Bool-cases (ltb (suc c) m)) [
    | inl more ↦
        let d : ℕ = m - 1 in
        let e : suc d ≡ m = omega arith in
        omega (
          arith,
          block_order c d (omega tests) (omega arith),
          cut.filled d (omega arith),
          cut.last d e,
        )
    | inr end ↦ omega (arith, cut.last c (omega tests))
  ]

  starts-IsMonotone : (i : ℕ) → IsMonotone m (λ c. leb (start c) i)
  starts-IsMonotone i c d p q t = elim (Bool-cases (ltb c d)) [
    | inl less ↦ omega (tests, block_order c d (ltb→lt c d less) q, cut.filled c)
    | inr same ↦ let e : c ≡ d = omega tests in rw e t
  ]

  positive : (i : ℕ) → i < total → 0 < m
  positive i h = elim (Bool-cases (ltb 0 m)) [
    | inl p ↦ ltb→lt _ _ p
    | inr z ↦ omega (tests, cut.empty (omega tests))
  ]

  first_counts :
      (i r : ℕ) → IsSplit m (λ c. leb (start c) i) r → 0 < m → leb (start 0) i ≡ true → 0 < r
  first_counts i zero found p t = absurd (ground (arith, found.failing 0 (omega arith) p))
  first_counts i (suc r) found p t = omega arith

  ends_after : (i r : ℕ) → i < total → 0 < r → IsSplit m (λ c. leb (start c) i) r → i < stop (r - 1)
  ends_after i zero h p found = absurd (omega arith)
  ends_after i (suc r) h p found =
      let e : suc r - 1 ≡ r = omega arith in
      rw e (elim (Bool-cases (ltb (suc r) m)) [
        | inl more ↦ omega (
          tests,
          cut.joined r (ltb→lt _ _ more),
          leb→lt _ _ (found.failing (suc r) (omega arith) (ltb→lt _ _ more)),
        )
        | inr end ↦ omega (tests, found.within, cut.last r (omega (tests, found.within)))
      ])

  -- The bisection over the blocks' starts finds the block of a row.
  pub locate : (i : ℕ) → i < total → IsIn m start stop i (partition m (λ c. leb (start c) i) - 1)
  locate i h =
      let r : ℕ = partition m (λ c. leb (start c) i) in
      let found : IsSplit m (λ c. leb (start c) i) r = partition-IsSplit (starts-IsMonotone i) in
      let some_block : 0 < m = positive i h in
      let first_passes : leb (start 0) i ≡ true = omega (tests, cut.first some_block) in
      let after : 0 < r = first_counts i r found some_block first_passes in
      record {
        known = omega (arith, found.within);
        from = leb→le _ _ (found.passing (r - 1) (omega arith));
        before = ends_after i r h after found;
      }

  pub locate_unique : (i c : ℕ) → IsIn m start stop i c → partition m (λ c. leb (start c) i) ≡ suc c
  locate_unique i c at = partition-eq_of_IsSplit (starts-IsMonotone i) (record {
    within = at.known;
    passing = λ d p. starts-IsMonotone i d c (omega arith) at.known (omega (tests, at.from));
    failing = λ d p q. omega (tests, block_order c d p q, at.before);
  })

  -- A test that never passes again once it has failed does so on the blocks' last rows too.
  pub blocks-IsMonotone :
      (below : ℕ → Bool) → IsMonotone total below → IsMonotone m (λ d. below (stop d - 1))
  blocks-IsMonotone below mono c d p q t = elim (Bool-cases (ltb c d)) [
    | inl less ↦
        mono (stop c - 1) (stop d - 1)
          (omega (arith, block_order c d (ltb→lt _ _ less) q, cut.filled d q))
          (omega (arith, stop-le d q, cut.filled d q)) t
    | inr same ↦ let e : c ≡ d = omega tests in rw e t
  ]

  block_before : (i c d : ℕ) → IsIn m start stop i d → i < start c → c < m → d < c
  block_before i c d at p known = elim (Bool-cases (ltb d c)) [
    | inl less ↦ ltb→lt _ _ less
    | inr more ↦ elim (Bool-cases (ltb c d)) [
      | inl above ↦
          absurd (
            omega (tests, block_order c d (ltb→lt _ _ above) at.known, at.from, cut.filled c known))
      | inr same ↦
          let e : c ≡ d = omega tests in
          absurd (omega (arith, at.from, let q : i < start d = rw e at p in q))
    ]
  ]

  -- The split point by blocks: `c` is the first block whose last row fails the test, and `r` the
  -- split point inside it.
  pub cut-IsSplit :
      (below : ℕ → Bool) (c r : ℕ)
      → IsMonotone total below
      → IsSplit m (λ d. below (stop d - 1)) c
      → (c < m → IsSplit (stop c - start c) (λ k. below (start c + k)) r)
      → IsSplit total below (if c == m then total else start c + r)
  cut-IsSplit below c r mono blocks inside = elim (Bool-cases (c == m)) [
    | inl done ↦ rw done (record {
      within = omega arith;
      passing = λ i h.
          before_block i h (located i h) (omega (arith, (==_iff c m).0 done, (located i h).known));
      failing = λ i p q. absurd (omega arith);
    })
    | inr open_block ↦ rw open_block (here (ground (arith, blocks.within)))
  ]
    where
      located : (i : ℕ) → i < total → IsIn m start stop i (partition m (λ d. leb (start d) i) - 1)
      located = locate

      before_block : (i : ℕ) {d : ℕ} → i < total → IsIn m start stop i d → d < c → below i ≡ true
      before_block i {d} h at p =
          mono i (stop d - 1) (omega (arith, at.before))
            (omega (arith, stop-le d at.known, at.before)) (blocks.passing d p)

      here : c < m → IsSplit total below (start c + r)
      here known =
          let s = inside known in
          let fits = stop-le c known in
          record {
            within = omega (arith, s.within, fits, cut.filled c known);
            passing = λ i p. elim (Bool-cases (ltb i (start c))) [
              | inl earlier ↦
                  let h : i < total = omega (tests, cut.filled c known) in
                  before_block i h (located i h)
                    (block_before i c _ (located i h) (ltb→lt _ _ earlier) known)
              | inr later ↦
                  let e : start c + (i - start c) ≡ i = omega tests in
                  rw e at (s.passing (i - start c) (omega tests))
            ];
            failing = λ i p q. elim (Bool-cases (ltb i (stop c))) [
              | inl inside_block ↦
                  let e : start c + (i - start c) ≡ i = omega tests in
                  rw e at (s.failing (i - start c) (omega tests) (omega tests))
              | inr beyond ↦
                  fails_after mono (stop c - 1) i (omega tests) q
                    (blocks.failing c (omega arith) known)
            ];
          }
