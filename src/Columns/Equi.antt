-- ===== src/Columns/Equi.antt =====
-- core/src/columns/join.rs, `equi_join_indices` and `join_count`: the answer of the join, whichever
-- way it is taken.
use vortex_rdf.Prelude.{
  ℕ, zero, suc, ◌+◌, ◌*◌, ◌≤◌, ◌≡◌, refl, sym, ap, ◌∙◌, true, ◌&&◌, ◌||◌, Option, none, some, inl,
  inr, List, [], ◌∷◌, ◌++◌, arith, Bool-cases, min, length, length-append, length-replicate,
  replicate,
}
use vortex_rdf.Columns.Starts.{AllBelow}
use vortex_rdf.Columns.Join.{
  u64_mod, usize_max, saturating_add, saturating_mul, ok, within_cap, Pairs, RunPair, run_total,
  all_run_pairs, merge_join_len, cross_left, cross_right, visit_runs, merge_join, is_sorted,
  is_empty, equi_join_indices, join_count,
}
use vortex_rdf.Columns.Rows.{pair_count, match_count-lem}
use vortex_rdf.Columns.Nested.{
  nested_left, nested_right, nested_loop, length-nested_left, join-eq-nested_loop,
}
use vortex_rdf.Columns.Ordered.{IsAscending, is_sorted-IsAscending}
use vortex_rdf.Columns.Merge.{visit_runs-eq-nested, nested_left-nil, nested_right-nil}

-- The rows of the visits, counted with no bound.
product_sum : List RunPair → ℕ
product_sum [] = 0
product_sum (p ∷ ps) = p.m * p.n + product_sum ps

run_total-saturates :
    (ps : List RunPair) (total : ℕ)
    → total ≤ usize_max
    → run_total total ps ≡ min (total + product_sum ps) usize_max
unfolding run_total product_sum
run_total-saturates [] total h = omega arith
run_total-saturates (p ∷ ps) total h =
    omega
      (arith, run_total-saturates ps (saturating_add total (saturating_mul p.m p.n)) (omega arith))

length-cross_left : (i m n : ℕ) → length (cross_left i m n) ≡ m * n
unfolding cross_left
length-cross_left i zero n = omega arith
length-cross_left i (suc m) n =
    let e : suc m * n ≡ n + m * n = grind arith in
    omega (
      arith,
      e,
      length-append (replicate n i) (cross_left (suc i) m n),
      length-replicate n i,
      length-cross_left (suc i) m n,
    )

length-visit_runs :
    (ps : List RunPair) (out : Pairs) → length (visit_runs ps out).0 ≡ length out.0 + product_sum ps
unfolding visit_runs product_sum
length-visit_runs [] out = omega arith
length-visit_runs (p ∷ ps) out = omega (
  arith,
  length-visit_runs ps (out.0 ++ cross_left p.i p.m p.n, out.1 ++ cross_right p.m p.j p.n),
  length-append out.0 (cross_left p.i p.m p.n),
  length-cross_left p.i p.m p.n,
)

module _ (left right : List ℕ) (p : IsAscending left) (q : IsAscending right) where
  visits_lem :
      visit_runs (all_run_pairs left right) ([], [])
      ≡ (nested_left 0 left right, nested_right 0 left right)
  visits_lem =
      visit_runs-eq-nested (length left + length right) 0 left 0 right ([], []) (omega arith) p q

  -- The counting pass over two ascending columns finds the number of pairs, saturated.
  merge_join_len-lem : merge_join_len left right ≡ min (pair_count left right) usize_max
  unfolding merge_join_len
  merge_join_len-lem = omega (
    arith,
    run_total-saturates (all_run_pairs left right) 0 (omega arith),
    length-visit_runs (all_run_pairs left right) ([], []),
    ap (λ o. length o.0) visits_lem,
    length-nested_left 0 left right,
  )

  merge_join-eq-nested_loop :
      (max_pairs : Option ℕ) → merge_join left right max_pairs ≡ nested_loop left right max_pairs
  unfolding merge_join nested_loop
  merge_join-eq-nested_loop max_pairs = rw (merge_join_len-lem, visits_lem) refl

pair_count-nil : (left : List ℕ) → pair_count left [] ≡ 0
pair_count-nil left =
    sym (length-nested_left 0 left []) ∙ ap (λ xs. length xs) (nested_left-nil 0 left)

pair_count-empty :
    (left right : List ℕ) → (is_empty left || is_empty right) ≡ true → pair_count left right ≡ 0
pair_count-empty [] right h = unfold pair_count in refl
pair_count-empty (a ∷ left) [] h = pair_count-nil (a ∷ left)
pair_count-empty (a ∷ left) (b ∷ right) h = absurd (cc)

within_cap-zero : (max_pairs : Option ℕ) → within_cap (min 0 usize_max) max_pairs ≡ ok tt
unfolding within_cap
within_cap-zero none = refl
within_cap-zero (some cap) = ground arith

nested-empty :
    (left right : List ℕ)
    → (is_empty left || is_empty right) ≡ true
    → ◌≡◌ {A = Pairs} (nested_left 0 left right, nested_right 0 left right) ([], [])
nested-empty [] right h = unfold nested_left nested_right in refl
nested-empty (a ∷ left) [] h =
    λ k. (nested_left-nil 0 (a ∷ left) k, nested_right-nil 0 (a ∷ left) k)
nested-empty (a ∷ left) (b ∷ right) h = absurd (cc)

-- An empty column makes no pair, which is past no cap.
nested_loop-empty :
    (left right : List ℕ) (max_pairs : Option ℕ)
    → (is_empty left || is_empty right) ≡ true
    → nested_loop left right max_pairs ≡ ok ([], [])
unfolding nested_loop
nested_loop-empty left right max_pairs h =
    rw (pair_count-empty left right h, within_cap-zero max_pairs)
      (ap ok (nested-empty left right h))

module _ (left right : List ℕ) (known : AllBelow u64_mod left)
    (small : AllBelow u64_mod right) where
  -- The join of two columns of 64-bit codes, merged or probed, is the nested loop's: every pair of
  -- rows with equal codes, by left row and then by right row, once; and it is refused, with the
  -- number of pairs saturated at the largest `usize`, exactly where that is past the cap.
  pub equi_join_indices-eq-nested_loop :
      (max_pairs : Option ℕ)
      → equi_join_indices left right max_pairs ≡ nested_loop left right max_pairs
  unfolding equi_join_indices
  equi_join_indices-eq-nested_loop max_pairs = elim (Bool-cases (is_empty left || is_empty right)) [
    | inl none_left ↦ rw none_left (sym (nested_loop-empty left right max_pairs none_left))
    | inr rows ↦ elim (Bool-cases (is_sorted left && is_sorted right)) [
      | inl sorted ↦ rw rows (
          rw sorted (
            merge_join-eq-nested_loop left right (is_sorted-IsAscending left (ground arith))
              (is_sorted-IsAscending right (ground arith)) max_pairs))
      | inr mixed ↦ rw rows (rw mixed (join-eq-nested_loop right small left max_pairs known))
    ]
  ]

  -- The count of two columns of 64-bit codes, merged or probed, is the number of pairs of rows with
  -- equal codes, saturated at the largest `usize`.
  pub join_count-eq-pair_count : join_count left right ≡ min (pair_count left right) usize_max
  unfolding join_count
  join_count-eq-pair_count = elim (Bool-cases (is_empty left || is_empty right)) [
    | inl none_left ↦ rw none_left (omega (arith, pair_count-empty left right none_left))
    | inr rows ↦ elim (Bool-cases (is_sorted left && is_sorted right)) [
      | inl sorted ↦ rw rows (
          rw sorted (
            merge_join_len-lem left right (is_sorted-IsAscending left (ground arith))
              (is_sorted-IsAscending right (ground arith))))
      | inr mixed ↦ rw rows (rw mixed (match_count-lem right small left known))
    ]
  ]
