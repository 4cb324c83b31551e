-- ===== src/Node/Patched.antt =====
-- encoded-search/src/node.rs, `PatchProbe::overwrite`: the patches walked over a read are those that
-- the lookups of its positions find.
use vortex_rdf.Prelude.{
  ℕ, zero, suc, ◌+◌, ◌-◌, ◌≤◌, ◌<◌, ◌≡◌, refl, sym, ap, ◌∙◌, ◌&&◌, inl, inr, Option, none, some,
  List, [], ◌∷◌, map, arith, tests, Bool-cases, if◌then◌else◌, ltb, leb, ltb→lt, leb→le, ◌==◌,
  ==_iff, length, get_or, range_from,
}
use vortex_rdf.Prelude.Arrays.{set, length-set, get_or-set_self, get_or-set_ne}
use vortex_rdf.Search.Partition.{partition, IsMonotone, partition-eq_of_IsSplit, partition-IsSplit}
use vortex_rdf.Search.Agrees.{under}
use vortex_rdf.Node.Tree.{Node, probe, len, u64_mod, FastLanes}
use vortex_rdf.Node.Values.{value_at, lookup, or_else}
use vortex_rdf.Node.Formed.{IsFormed}
use vortex_rdf.Node.Bounds.{lower_bound-eq-partition}
use vortex_rdf.Node.Packed.{Bulk}
use vortex_rdf.Node.Reads.{overwrite_from, overwrite}

-- A list is what its places hold.
pub list_of_places :
    (xs : List ℕ) (f : ℕ → ℕ) (s n : ℕ)
    → length xs ≡ n
    → ((i : ℕ) → i < n → get_or xs i 0 ≡ f (s + i))
    → xs ≡ map f (range_from s n)
list_of_places [] f s zero e h = refl
list_of_places [] f s (suc n) e h = absurd (omega (arith, e))
list_of_places (x ∷ xs) f s zero e h = absurd (omega (arith, e))
list_of_places (x ∷ xs) f s (suc n) e h =
    let z : s + 0 ≡ s = omega arith in
    λ i.
      (h 0 (omega arith) ∙ ap f z) i
      ∷ list_of_places xs f (suc s) n (omega (arith, e))
          (λ k p. let w : s + suc k ≡ suc s + k = omega arith in h (suc k) (omega arith) ∙ ap f w) i

module _ (n : ℕ) (key_at value_of : ℕ → ℕ)
    (rising : (j k : ℕ) → j < k → k < n → key_at j < key_at k) where
  -- The patch at a position, as `lookup` finds it.
  abbrev pub patch_of : ℕ → Option ℕ
  patch_of a =
      let j = partition n (under key_at a) in
      if ltb j n && key_at j == a then some (value_of j) else none

  under-rises : (a : ℕ) → IsMonotone n (under key_at a)
  under-rises a i j p q t = elim (Bool-cases (ltb i j)) [
    | inl less ↦ omega (tests, rising i j (ltb→lt i j less) q)
    | inr same ↦ let e : i ≡ j = omega tests in rw e t
  ]

  splits :
      (a j : ℕ)
      → j ≤ n
      → ((i : ℕ) → i < j → key_at i < a)
      → ((i : ℕ) → j ≤ i → i < n → a ≤ key_at i)
      → partition n (under key_at a) ≡ j
  splits a j p low high = partition-eq_of_IsSplit (under-rises a) (record {
    within = p;
    passing = λ i h. omega (tests, low i h);
    failing = λ i h k. omega (tests, high i h k);
  })

  patch_of-hit : (a j : ℕ) → j < n → key_at j ≡ a → patch_of a ≡ some (value_of j)
  patch_of-hit a j p e =
      let s =
        splits a j (omega arith) (λ i h. omega (arith, rising i j h p, e))
          (λ i h k. elim (Bool-cases (ltb j i)) [
            | inl less ↦ omega (tests, rising j i (ltb→lt j i less) k, e)
            | inr same ↦ let f : i ≡ j = omega tests in omega (arith, e, ap key_at f)
          ]) in
      rw s (ground (arith, p, e))

  patch_of-miss :
      (a j : ℕ)
      → j ≤ n
      → ((i : ℕ) → i < j → key_at i < a)
      → ((i : ℕ) → j ≤ i → i < n → a < key_at i)
      → patch_of a ≡ none
  patch_of-miss a j p low high =
      let s = splits a j p low (λ i h k. omega (arith, high i h k)) in
      rw s (elim (Bool-cases (ltb j n)) [
        | inl more ↦ let above = high j (omega arith) (ltb→lt j n more) in ground (arith, above)
        | inr end ↦ rw end refl
      ])

  module _ (first end : ℕ) where
    length-overwrite_from :
        (fuel at : ℕ) (out : List ℕ)
        → length (overwrite_from fuel n key_at value_of at first end out) ≡ length out
    unfolding overwrite_from
    length-overwrite_from zero at out = refl
    length-overwrite_from (suc fuel) at out =
        let next = set out (key_at at - first) (value_of at) in
        let ih =
          length-overwrite_from fuel (at + 1) next
          ∙ length-set (value_of at) 0 out (key_at at - first) in
        ground (arith, ih)

    -- Patches behind a position leave it.
    untouched :
        (fuel at i : ℕ) (out : List ℕ)
        → ((j : ℕ) → at ≤ j → j < n → first + i < key_at j)
        → get_or (overwrite_from fuel n key_at value_of at first end out) i 0 ≡ get_or out i 0
    unfolding overwrite_from
    untouched zero at i out behind = refl
    untouched (suc fuel) at i out behind =
        let next = set out (key_at at - first) (value_of at) in
        let ih = untouched fuel (at + 1) i next (λ j p q. behind j (omega arith) q) in
        elim (Bool-cases (ltb at n)) [
          | inl more ↦
              let far = behind at (omega arith) (ltb→lt at n more) in
              let kept =
                get_or-set_ne (value_of at) 0 out (key_at at - first) i
                  (λ e. absurd (omega (arith, e, far))) in
              ground (arith, ih, kept)
          | inr through ↦ rw through refl
        ]

    overwrite_from-lem :
        (fuel at i : ℕ) (out : List ℕ)
        → n - at ≤ fuel
        → at ≤ n
        → i < length out
        → first + i < end
        → ((j : ℕ) → j < at → key_at j < first + i)
        → ((j : ℕ) → at ≤ j → j < n → first ≤ key_at j)
        → get_or (overwrite_from fuel n key_at value_of at first end out) i 0
          ≡ or_else (patch_of (first + i)) (get_or out i 0)
    unfolding overwrite_from
    overwrite_from-lem zero at i out f w inside short low high =
        let miss = patch_of-miss (first + i) at w low (λ j p q. absurd (omega arith)) in
        rw miss refl
    overwrite_from-lem (suc fuel) at i out f w inside short low high =
        let next = set out (key_at at - first) (value_of at) in
        elim (Bool-cases (ltb at n)) [
          | inr through ↦
              let miss = patch_of-miss (first + i) at w low (λ j p q. absurd (omega tests)) in
              rw through (rw miss refl)
          | inl more ↦
              let here : at < n = ltb→lt at n more in
              let later : (j : ℕ) → at + 1 ≤ j → j < n → key_at at < key_at j =
                λ j p q. rising at j (omega arith) q in
              elim (Bool-cases (leb end (key_at at))) [
                | inl ended ↦
                    let far : end ≤ key_at at = leb→le end (key_at at) ended in
                    let miss = patch_of-miss (first + i) at w low (λ j p q.
                      elim (Bool-cases (ltb at j)) [
                        | inl less ↦ omega (arith, far, later j (omega tests) q)
                        | inr same ↦ let e : j ≡ at = omega tests in omega (arith, far, ap key_at e)
                      ]) in
                    rw more (rw ended (rw miss refl))
                | inr going ↦ elim (Bool-cases (key_at at == first + i)) [
                  | inl hit ↦
                      let e : key_at at ≡ first + i = (==_iff (key_at at) (first + i)).0 hit in
                      let place : key_at at - first ≡ i = omega (arith, e) in
                      let kept =
                        untouched fuel (at + 1) i next (λ j p q. omega (arith, e, later j p q)) in
                      let put : get_or next i 0 ≡ value_of at =
                        ap (λ k. get_or (set out k (value_of at)) i 0) place
                        ∙ get_or-set_self (value_of at) 0 out i inside in
                      let found = patch_of-hit (first + i) at here e in
                      rw more (rw going (rw found (kept ∙ put)))
                  | inr miss ↦ elim (Bool-cases (ltb (key_at at) (first + i))) [
                    | inl before ↦
                        let less = ltb→lt (key_at at) (first + i) before in
                        let from = high at (omega arith) here in
                        let kept =
                          get_or-set_ne (value_of at) 0 out (key_at at - first) i
                            (λ e. absurd (omega (arith, e, less, from))) in
                        let size = length-set (value_of at) 0 out (key_at at - first) in
                        let ih =
                          overwrite_from-lem fuel (at + 1) i next (omega arith) (omega arith)
                            (omega (arith, inside, size)) short
                            (λ j p. elim (Bool-cases (ltb j at)) [
                              | inl under_at ↦ low j (ltb→lt j at under_at)
                              | inr same ↦
                                  let e : j ≡ at = omega tests in omega (arith, less, ap key_at e)
                            ])
                            (λ j p q. high j (omega arith) q) in
                        rw more (rw going (ih ∙ ap (or_else (patch_of (first + i))) kept))
                    | inr behind ↦
                        let far : first + i < key_at at = ground (arith, behind, miss) in
                        let all_far : (j : ℕ) → at ≤ j → j < n → first + i < key_at j = λ j p q.
                          elim (Bool-cases (ltb at j)) [
                            | inl less ↦ omega (arith, far, later j (omega tests) q)
                            | inr same ↦
                                let e : j ≡ at = omega tests in omega (arith, far, ap key_at e)
                          ] in
                        let none_here = patch_of-miss (first + i) at w low all_far in
                        let kept =
                          untouched fuel (at + 1) i next (λ j p q. all_far j (omega arith) q) in
                        let away =
                          get_or-set_ne (value_of at) 0 out (key_at at - first) i
                            (λ e. absurd (omega (arith, e, far))) in
                        rw more (rw going (rw none_here (kept ∙ away)))
                  ]
                ]
              ]
        ]

module _ (fl : FastLanes) (bulk : Bulk fl) (indices values : Node) (offset : ℕ)
    (formed : IsFormed fl indices)
    (rising : (j k : ℕ)
      → j < k
      → k < len indices
      → value_at fl indices j < value_at fl indices k) where
  lookup-eq-patch_of :
      (i a : ℕ)
      → i + offset ≡ a
      → a < u64_mod
      → lookup fl (probe indices values offset) i
        ≡ patch_of (len indices) (value_at fl indices) (value_at fl values) rising a
  unfolding value_at
  lookup-eq-patch_of i a e small =
      let found =
        lower_bound-eq-partition fl indices a small formed
          (under-rises (len indices) (value_at fl indices) (value_at fl values) rising a) in
      rw e (rw found refl)

  -- Where the patched positions of a well-formed index node ascend strictly and the window's
  -- positions are words, the walk writes over each place of a read exactly the value that the lookup
  -- of its position finds, and leaves the others as they are.
  pub overwrite-eq-lookup :
      (start : ℕ) (out : List ℕ)
      → start + offset + length out < u64_mod
      → overwrite fl bulk (probe indices values offset) start out
        ≡ map
            (λ k. or_else (lookup fl (probe indices values offset) (start + k)) (get_or out k 0))
            (range_from 0 (length out))
  unfolding overwrite
  overwrite-eq-lookup start out small =
      let n = len indices in
      let key_at = value_at fl indices in
      let value_of = value_at fl values in
      let first = start + offset in
      let at = partition n (under key_at first) in
      let split = partition-IsSplit (under-rises n key_at value_of rising first) in
      let found =
        lower_bound-eq-partition fl indices first (omega arith) formed
          (under-rises n key_at value_of rising first) in
      rw found (
        list_of_places (overwrite_from n n key_at value_of at first (first + length out) out)
          (λ k. or_else (lookup fl (probe indices values offset) (start + k)) (get_or out k 0)) 0
          (length out)
          (length-overwrite_from n key_at value_of rising first (first + length out) n at out)
          (λ i h.
            let z : 0 + i ≡ i = omega arith in
            overwrite_from-lem n key_at value_of rising first (first + length out) n at i out
              (omega arith) split.within h (omega arith) (λ j p. omega (tests, split.passing j p))
              (λ j p q. omega (tests, split.failing j p q))
            ∙ ap (λ o. or_else o (get_or out i 0))
                (sym (lookup-eq-patch_of (start + i) (first + i) (omega arith) (omega arith)))
            ∙ ap
                (λ k.
                  or_else (lookup fl (probe indices values offset) (start + k)) (get_or out k 0))
                (sym z)))
