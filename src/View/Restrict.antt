-- ===== src/View/Restrict.antt =====
-- core/src/store/view/selection.rs, `restrict_ids` and `intersect_sorted_ids`: the searches keep of
-- an ascending id list what a test of each id would.
use vortex_rdf.Prelude.{
  ℕ, zero, suc, ◌+◌, ◌-◌, ◌/◌, ◌≤◌, ◌<◌, ◌≡◌, refl, sym, ap, ◌∙◌, Bool, true, false, ◌&&◌, inl, inr,
  List, [], ◌∷◌, arith, tests, Bool-cases, if◌then◌else◌, ltb, leb, ltb→lt, ◌==◌, drop, take,
  length,
}
use vortex_rdf.View.Selection.{
  Range, range_contains, mem, filter, partition_point, restrict_ids, gallop, merge,
  intersect_sorted_ids,
}
use vortex_rdf.View.Ascending.{
  IsRising, AllOver-widen, mem-AllOver, IsRising-drop, mem-filter, IsRising-filter, filter-over,
  filter-none, mem-drop, FirstFrom, drop-FirstFrom, partition_point-over,
}

module _ (r : Range) (order : r.start ≤ r.end) where
  pub restrict_ids-eq-filter :
      (xs : List ℕ) → IsRising xs → restrict_ids xs r ≡ filter (range_contains r) xs
  unfolding restrict_ids filter partition_point
  restrict_ids-eq-filter [] up = ground arith
  restrict_ids-eq-filter (x ∷ xs) up = elim (Bool-cases (ltb x r.start)) [
    | inl before ↦
        let under : ltb x r.end ≡ true = ground (arith, before) in
        let lo = partition_point (λ id. ltb id r.start) xs in
        let hi = partition_point (λ id. ltb id r.end) xs in
        let e : suc hi - suc lo ≡ hi - lo = omega arith in
        let miss : leb r.start x ≡ false = ground (arith, before) in
        rw before
          (rw under (rw miss (ap (λ n. take n (drop lo xs)) e ∙ restrict_ids-eq-filter xs up.1)))
    | inr reached ↦
        let le : leb r.start x ≡ true = ground (arith, reached) in
        elim (Bool-cases (ltb x r.end)) [
          | inl inside ↦
              let hi = partition_point (λ id. ltb id r.end) xs in
              let lo : partition_point (λ id. ltb id r.start) xs ≡ 0 =
                partition_point-over x r.start xs up.0 (omega (tests, reached)) in
              let e : hi ≡ hi - 0 = omega arith in
              let kept : take hi xs ≡ restrict_ids xs r =
                ap (λ n. take n xs) e ∙ sym (ap (λ k. take (hi - k) (drop k xs)) lo) in
              let s : suc hi - 0 ≡ suc hi = omega arith in
              rw reached (
                rw inside (
                  rw le (
                    ap (λ n. take n (x ∷ xs)) s
                    ∙ ap (λ ys. x ∷ ys) (kept ∙ restrict_ids-eq-filter xs up.1))))
          | inr past ↦
              let z : 0 - 0 ≡ 0 = omega arith in
              let over : (y : ℕ) → x < y → range_contains r y ≡ false =
                λ y p. ground (arith, past, p) in
              rw reached (
                rw past (
                  rw le (
                    ap (λ n. take n (x ∷ xs)) z
                    ∙ sym (filter-none (range_contains r) x xs up.0 over))))
        ]
  ]

-- The head of what is left is the id looked for, or the id is not there.
found_first : (id x : ℕ) (xs : List ℕ) → IsRising (x ∷ xs) → id ≤ x → mem id (x ∷ xs) ≡ (x == id)
unfolding mem
found_first id x xs up p = elim (Bool-cases (x == id)) [
  | inl same ↦ rw same refl
  | inr other ↦ rw other (mem-AllOver id x xs p up.0)
]

-- The search of the longer list for each id of the shorter.
pub gallop-eq-filter :
    (short rest : List ℕ)
    → IsRising short
    → IsRising rest
    → gallop short rest ≡ filter (λ id. mem id rest) short
unfolding gallop filter
gallop-eq-filter [] rest up asc = refl
gallop-eq-filter (id ∷ short) rest up asc =
    let at = partition_point (λ x. ltb x id) rest in
    let ih =
      gallop-eq-filter short (drop at rest) up.1 (IsRising-drop at rest asc)
      ∙ filter-over (λ y. mem y (drop at rest)) (λ y. mem y rest) id short up.0
          (λ y p. mem-drop id y rest (omega arith)) in
    head_of (drop at rest) (IsRising-drop at rest asc) (drop-FirstFrom id rest)
      (mem-drop id id rest (omega arith)) (gallop short (drop at rest)) ih
  where
    head_of :
        (from : List ℕ)
        → IsRising from
        → FirstFrom id from
        → mem id from ≡ mem id rest
        → (found : List ℕ) → found ≡ filter (λ y. mem y rest) short
        → (elim from [ [] ↦ found | x ∷ xs ↦ if x == id then id ∷ found else found ]) ≡ (
            if mem id rest
            then id ∷ filter (λ y. mem y rest) short
            else filter (λ y. mem y rest) short)
    head_of [] h first e found f = unfold mem in rw (← e) f
    head_of (x ∷ xs) h first e found f = rw (← e, found_first id x xs h first, f) refl

-- The merge, with a round for each id of either list.
pub merge-eq-filter :
    (fuel : ℕ) (left right : List ℕ)
    → length left + length right ≤ fuel
    → IsRising left
    → IsRising right
    → merge fuel left right ≡ filter (λ id. mem id right) left
unfolding merge filter
merge-eq-filter zero [] right f p q = refl
merge-eq-filter zero (x ∷ left) right f p q = absurd (omega arith)
merge-eq-filter (suc fuel) [] right f p q = refl
merge-eq-filter (suc fuel) (x ∷ left) [] f p q =
    unfold mem in sym (filter-none (λ id. false) x left p.0 (λ y h. refl))
merge-eq-filter (suc fuel) (x ∷ left) (y ∷ right) f p q = elim (Bool-cases (ltb x y)) [
  | inl less ↦
      let lt : x < y = ltb→lt x y less in
      let miss : mem x (y ∷ right) ≡ false =
        mem-AllOver x x (y ∷ right) (omega arith) (lt, AllOver-widen x y right (omega arith) q.0) in
      rw less (rw miss (merge-eq-filter fuel left (y ∷ right) (omega arith) p.1 q))
  | inr not_less ↦ elim (Bool-cases (ltb y x)) [
    | inl greater ↦
        let lt : y < x = ltb→lt y x greater in
        let ih = merge-eq-filter fuel (x ∷ left) right (omega arith) p q.1 in
        let agree : (z : ℕ) → y < z → mem z right ≡ mem z (y ∷ right) =
          λ z h. skip_head z y right h in
        rw not_less (
          rw greater (
            ih
            ∙ filter-over (λ z. mem z right) (λ z. mem z (y ∷ right)) y (x ∷ left)
                (lt, AllOver-widen y x left (omega arith) p.0) agree))
    | inr not_greater ↦
        let e : x ≡ y = omega tests in
        let hit : mem x (y ∷ right) ≡ true = head_found x y right e in
        let agree : (z : ℕ) → x < z → mem z right ≡ mem z (y ∷ right) =
          λ z h. skip_head z y right (omega arith) in
        rw not_less (
          rw not_greater (
            rw hit (
              ap (λ zs. x ∷ zs)
                (merge-eq-filter fuel left right (omega arith) p.1 q.1
                  ∙ filter-over (λ z. mem z right) (λ z. mem z (y ∷ right)) x left p.0 agree))))
  ]
]
  where
    skip_head : (z b : ℕ) (bs : List ℕ) → b < z → mem z bs ≡ mem z (b ∷ bs)
    skip_head z b bs h = unfold mem in ground arith

    head_found : (a b : ℕ) (bs : List ℕ) → a ≡ b → mem a (b ∷ bs) ≡ true
    head_found a b bs e = unfold mem in ground arith

-- Searched or merged, the intersection of two ascending, unique id lists holds exactly the ids that
-- both hold.
pub intersect_sorted_ids-mem :
    (left right : List ℕ) (row : ℕ)
    → IsRising left
    → IsRising right
    → mem row (intersect_sorted_ids left right) ≡ mem row left && mem row right
unfolding intersect_sorted_ids
intersect_sorted_ids-mem left right row p q = elim (Bool-cases (leb (length left) (length right))) [
  | inl first ↦ elim (Bool-cases (ltb (length left) (length right / 32))) [
    | inl apart ↦ rw first (
        rw apart (
          ap (mem row) (gallop-eq-filter left right p q)
          ∙ mem-filter (λ id. mem id right) row left))
    | inr near ↦ rw first (rw near (merged left right row p q))
  ]
  | inr second ↦ elim (Bool-cases (ltb (length right) (length left / 32))) [
    | inl apart ↦ rw second (
        rw apart (
          ap (mem row) (gallop-eq-filter right left q p)
          ∙ mem-filter (λ id. mem id left) row right
          ∙ swap (mem row right) (mem row left)))
    | inr near ↦ rw second (rw near (merged left right row p q))
  ]
]
  where
    swap : (a b : Bool) → (a && b) ≡ (b && a)
    swap true true = refl
    swap true false = refl
    swap false true = refl
    swap false false = refl

    merged :
        (l r : List ℕ) (id : ℕ)
        → IsRising l
        → IsRising r
        → mem id (merge (length l + length r) l r) ≡ mem id l && mem id r
    merged l r id h k =
        ap (mem id) (merge-eq-filter (length l + length r) l r (omega arith) h k)
        ∙ mem-filter (λ i. mem i r) id l

pub intersect_sorted_ids-IsRising :
    (left right : List ℕ)
    → IsRising left
    → IsRising right
    → IsRising (intersect_sorted_ids left right)
unfolding intersect_sorted_ids
intersect_sorted_ids-IsRising left right p q =
    elim (Bool-cases (leb (length left) (length right))) [
      | inl first ↦ elim (Bool-cases (ltb (length left) (length right / 32))) [
        | inl apart ↦
            rw first (rw apart (rw (gallop-eq-filter left right p q) (IsRising-filter _ left p)))
        | inr near ↦ rw first (rw near (merged left right p q))
      ]
      | inr second ↦ elim (Bool-cases (ltb (length right) (length left / 32))) [
        | inl apart ↦
            rw second (rw apart (rw (gallop-eq-filter right left q p) (IsRising-filter _ right q)))
        | inr near ↦ rw second (rw near (merged left right p q))
      ]
    ]
  where
    merged : (l r : List ℕ) → IsRising l → IsRising r → IsRising (merge (length l + length r) l r)
    merged l r h k =
        rw (merge-eq-filter (length l + length r) l r (omega arith) h k) (IsRising-filter _ l h)
