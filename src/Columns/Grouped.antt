-- ===== src/Columns/Grouped.antt =====
-- core/src/columns/join.rs, `Groups`: the two passes group every row under its slot, in order.
use vortex_rdf.Prelude.{
  ℕ, suc, ◌+◌, ◌-◌, ◌≤◌, ◌<◌, ◌≡◌, ap, ◌∙◌, inl, inr, List, [], arith, tests, Bool-cases, ltb,
  ltb→lt, length, get_or, take, replicate, length-replicate, length-take,
}
use vortex_rdf.Prelude.Arrays.{length-set, get_or-take}
use vortex_rdf.Search.Sinks.{matches, count_words}
use vortex_rdf.Columns.Groups.{build, group_count, group_rows}
use vortex_rdf.Columns.Starts.{
  AllBelow, summed, starts, length-summed, start_next, start-last, start_order,
}
use vortex_rdf.Columns.Placed.{InSlot, IsRoomy, length-place, place-matches}

module _ (slots : ℕ) (ks : List ℕ) (small : AllBelow slots ks) where
  -- The list of slot starts that `build` ends with, and where the place phase begins.
  abbrev ends : List ℕ
  ends = starts slots ks small

  abbrev fills : List ℕ
  fills = take slots ends

  fills_start : (k : ℕ) → k < slots → get_or fills k 0 ≡ get_or ends k 0
  fills_start k h = get_or-take {A = ℕ} 0 slots ends k h

  slot_order : (k m : ℕ) → k < m → m ≤ slots → get_or ends k 0 + count_words ks k ≤ get_or ends m 0
  slot_order k m p q =
      let e : suc k + (m - suc k) ≡ m = omega arith in
      omega (
        arith,
        start_next slots ks small k (omega arith),
        start_order slots ks small (m - suc k) (suc k) (omega arith),
        ap (λ i. get_or ends i 0) e,
      )

  fills-apart :
      (k m p : ℕ) → k < slots → m < slots → InSlot ks fills k p → InSlot ks fills m p → k < m → ⊥
  fills-apart k m p hk hm v w less = omega (
    arith,
    slot_order k m less (omega arith),
    fills_start k hk,
    fills_start m hm,
    v.before,
    w.from,
  )

  start-IsRoomy : IsRoomy slots ks fills (replicate (get_or ends slots 0) 0)
  start-IsRoomy = record {
    wide = omega (
      arith,
      length-take slots ends,
      length-set (get_or (summed slots ks small) slots 0) 0 (summed slots ks small) (slots + 1),
      length-summed slots ks small,
    );
    apart = λ k m p hk hm v w. elim (Bool-cases (ltb k m)) [
      | inl less ↦ absurd (fills-apart k m p hk hm v w (ltb→lt _ _ less))
      | inr more ↦ elim (Bool-cases (ltb m k)) [
        | inl less ↦ absurd (fills-apart m k p hm hk w v (ltb→lt _ _ less))
        | inr same ↦ omega tests
      ]
    ];
    inside = λ k p h v. omega (
      arith,
      slot_order k slots h (omega arith),
      fills_start k h,
      v.before,
      length-replicate {A = ℕ} (get_or ends slots 0) 0,
    );
  }

  -- Where every row's slot is below the number of slots, the two passes leave each slot's rows
  -- together and ascending, as a scan of the rows' slots finds them.
  pub group_rows-build : (k : ℕ) → k < slots → group_rows (build slots ks) k ≡ matches 0 ks k
  unfolding group_rows build
  group_rows-build k h =
      let e : k + 1 ≡ suc k = omega arith in
      let n : get_or ends (k + 1) 0 - get_or ends k 0 ≡ count_words ks k =
        omega (arith, start_next slots ks small k h, ap (λ i. get_or ends i 0) e) in
      rw (n, ← fills_start k h)
        (place-matches slots ks fills (replicate (get_or ends slots 0) 0) 0 k small start-IsRoomy h)

  pub group_rows-build_none : group_rows (build slots ks) slots ≡ []
  unfolding group_rows build
  group_rows-build_none =
      let n : get_or ends (slots + 1) 0 - get_or ends slots 0 ≡ 0 =
        omega (arith, start-last slots ks small) in
      rw n

  pub group_count-build : (k : ℕ) → k < slots → group_count (build slots ks) k ≡ count_words ks k
  unfolding group_count build
  group_count-build k h =
      let e : k + 1 ≡ suc k = omega arith in
      omega (arith, start_next slots ks small k h, ap (λ i. get_or ends i 0) e)

  pub length-rows : length (build slots ks).rows ≡ get_or ends slots 0
  unfolding build
  length-rows = length-place 0 ks fills _ ∙ length-replicate {A = ℕ} (get_or ends slots 0) 0

  group_count-build_none : group_count (build slots ks) slots ≡ 0
  unfolding group_count build
  group_count-build_none = omega (arith, start-last slots ks small)

  -- No slot holds more rows than there are.
  pub group_count-le :
      (k : ℕ) → k ≤ slots → group_count (build slots ks) k ≤ length (build slots ks).rows
  group_count-le k h = elim (Bool-cases (ltb k slots)) [
    | inl less ↦
        let p : k < slots = ltb→lt k slots less in
        omega (arith, group_count-build k p, length-rows, slot_order k slots p (omega arith))
    | inr same ↦
        let e : k ≡ slots = omega tests in
        omega (arith, group_count-build_none, ap (group_count (build slots ks)) e)
  ]
