-- ===== src/Columns/Merge.antt =====
-- core/src/columns/join.rs, `merge_join` and `equi_join_indices`: on ascending columns the merge
-- answers what the nested loop does, and so does the join whichever way it is taken.
use mathlib.Core.List.{append-nil, append_assoc}
use vortex_rdf.Prelude.{
  ℕ, zero, suc, ◌+◌, ◌≤◌, ◌<◌, ◌≡◌, refl, sym, ap, ◌∙◌, ◌≢◌, inl, inr, List, [], ◌∷◌, ◌++◌, arith,
  Bool-cases, ltb, ltb→lt, ltb→le, ◌==◌, ==_iff, length, length-drop, replicate, drop, range_from,
}
use vortex_rdf.Search.Sinks.{matches, count_words}
use vortex_rdf.Columns.Join.{Pairs, run_len, run_pairs, cross_left, cross_right, visit_runs}
use vortex_rdf.Columns.Nested.{nested_left, nested_right}
use vortex_rdf.Columns.Ordered.{
  AllFrom, AllFrom-widen, IsAscending, IsAscending-drop, matches-above, count_words-above,
  matches-run, count_words-run, matches-behind, count_words-behind,
}

-- A right run of `a` is nothing to the left rows above it.
module _ (a : ℕ) (right : List ℕ) where
  nested_left-behind :
      (i c : ℕ) (left : List ℕ)
      → a < c
      → AllFrom c left
      → nested_left i left right ≡ nested_left i left (drop (run_len a right) right)
  unfolding nested_left
  nested_left-behind i c [] p h = refl
  nested_left-behind i c (b ∷ left) p h =
      let ne : a ≢ b = λ e. absurd (omega (arith, h.0)) in
      λ k.
        replicate (count_words-behind a b right ne k) i ++ nested_left-behind (suc i) c left p h.1 k

  nested_right-behind :
      (j c : ℕ) (left : List ℕ)
      → a < c
      → AllFrom c left
      → nested_right j left right
        ≡ nested_right (j + run_len a right) left (drop (run_len a right) right)
  unfolding nested_right
  nested_right-behind j c [] p h = refl
  nested_right-behind j c (b ∷ left) p h =
      let ne : a ≢ b = λ e. absurd (omega (arith, h.0)) in
      λ k. matches-behind a b j right ne k ++ nested_right-behind j c left p h.1 k

-- The runs of `a` at the front of both columns make their product, and the rest goes on behind.
module _ (a : ℕ) (right : List ℕ) (above : AllFrom a right) (up : IsAscending right) where
  abbrev n : ℕ
  n = run_len a right

  nested_left-run :
      (i : ℕ) (left : List ℕ)
      → AllFrom a left
      → IsAscending left
      → nested_left i left right
        ≡ cross_left i (run_len a left) n
          ++ nested_left (i + run_len a left) (drop (run_len a left) left) (drop n right)
  unfolding nested_left cross_left run_len
  nested_left-run i [] h asc = refl
  nested_left-run i (c ∷ left) h asc = elim (Bool-cases (c == a)) [
    | inl same ↦
        let e : c ≡ a = (==_iff c a).0 same in
        let m = run_len a left in
        let here : count_words right c ≡ n =
          ap (count_words right) e ∙ count_words-run a right above up in
        let s : suc i + m ≡ i + suc m = omega arith in
        rw same (
          (λ k. replicate (here k) i ++ nested_left-run (suc i) left h.1 asc.1 k)
          ∙ sym (append_assoc (replicate n i) (cross_left (suc i) m n) _)
          ∙ ap
              (λ x.
                replicate n i
                ++ cross_left (suc i) m n
                ++ nested_left x (drop m left) (drop n right))
              s)
    | inr other ↦
        let more : a < c = ground (arith, h.0) in
        let s : i ≡ i + 0 = omega arith in
        rw other (
          nested_left-behind a right i c (c ∷ left) more (omega arith, asc.0)
          ∙ ap (λ x. nested_left x (c ∷ left) (drop n right)) s)
  ]

  nested_right-run :
      (j : ℕ) (left : List ℕ)
      → AllFrom a left
      → IsAscending left
      → nested_right j left right
        ≡ cross_right (run_len a left) j n
          ++ nested_right (j + n) (drop (run_len a left) left) (drop n right)
  unfolding nested_right cross_right run_len
  nested_right-run j [] h asc = refl
  nested_right-run j (c ∷ left) h asc = elim (Bool-cases (c == a)) [
    | inl same ↦
        let e : c ≡ a = (==_iff c a).0 same in
        let m = run_len a left in
        let here : matches j right c ≡ range_from j n =
          ap (matches j right) e ∙ matches-run a j right above up in
        rw same (
          (λ k. here k ++ nested_right-run j left h.1 asc.1 k)
          ∙ sym (append_assoc (range_from j n) (cross_right m j n) _))
    | inr other ↦
        let more : a < c = ground (arith, h.0) in
        rw other (nested_right-behind a right j c (c ∷ left) more (omega arith, asc.0))
  ]

run_len_self : (a : ℕ) (cs : List ℕ) → run_len a (a ∷ cs) ≡ suc (run_len a cs)
unfolding run_len
run_len_self a cs = ground arith

-- Columns of which one is at its end make no pair.
pub nested_left-nil : (i : ℕ) (left : List ℕ) → nested_left i left [] ≡ []
unfolding nested_left count_words
nested_left-nil i [] = refl
nested_left-nil i (c ∷ left) = nested_left-nil (suc i) left

pub nested_right-nil : (j : ℕ) (left : List ℕ) → nested_right j left [] ≡ []
unfolding nested_right matches
nested_right-nil j [] = refl
nested_right-nil j (c ∷ left) = nested_right-nil j left

-- A right code under every left one is passed over.
module _ (b c : ℕ) (left right : List ℕ) (less : b < c) (from : AllFrom c left) where
  nested_left-skip : (i : ℕ) → nested_left i left (b ∷ right) ≡ nested_left i left right
  nested_left-skip i =
      nested_left-behind b (b ∷ right) i c left less from
      ∙ ap (λ k. nested_left i left (drop k (b ∷ right))) (run_len_self b right)
      ∙ sym (nested_left-behind b right i c left less from)

  nested_right-skip : (j : ℕ) → nested_right j left (b ∷ right) ≡ nested_right (j + 1) left right
  nested_right-skip j =
      let e : j + suc (run_len b right) ≡ j + 1 + run_len b right = omega arith in
      nested_right-behind b (b ∷ right) j c left less from
      ∙ ap (λ k. nested_right (j + k) left (drop k (b ∷ right))) (run_len_self b right)
      ∙ ap (λ k. nested_right k left (drop (run_len b right) right)) e
      ∙ sym (nested_right-behind b right (j + 1) c left less from)

-- What is appended by way of a middle part is appended at once.
joined :
    (out : Pairs) (x0 y0 z0 x1 y1 z1 : List ℕ)
    → z0 ≡ x0 ++ y0
    → z1 ≡ x1 ++ y1
    → ◌≡◌ {A = Pairs} ((out.0 ++ x0) ++ y0, (out.1 ++ x1) ++ y1) (out.0 ++ z0, out.1 ++ z1)
joined out x0 y0 z0 x1 y1 z1 e f = λ k. (
  (append_assoc out.0 x0 y0 ∙ ap (λ z. out.0 ++ z) (sym e)) k,
  (append_assoc out.1 x1 y1 ∙ ap (λ z. out.1 ++ z) (sym f)) k,
)

-- With rounds enough, the visits of two ascending columns are the pairs of the nested loop.
pub visit_runs-eq-nested :
    (fuel i : ℕ) (left : List ℕ) (j : ℕ) (right : List ℕ) (out : Pairs)
    → length left + length right ≤ fuel
    → IsAscending left
    → IsAscending right
    → visit_runs (run_pairs fuel i left j right) out
      ≡ (out.0 ++ nested_left i left right, out.1 ++ nested_right j left right)
unfolding visit_runs run_pairs
visit_runs-eq-nested zero i [] j right out f p q =
    unfold nested_left nested_right in λ k. (sym (append-nil out.0) k, sym (append-nil out.1) k)
visit_runs-eq-nested zero i (a ∷ left) j right out f p q = absurd (omega arith)
visit_runs-eq-nested (suc fuel) i [] j right out f p q =
    unfold nested_left nested_right in λ k. (sym (append-nil out.0) k, sym (append-nil out.1) k)
visit_runs-eq-nested (suc fuel) i (a ∷ left) j [] out f p q = λ k. (
  (sym (append-nil out.0) ∙ ap (λ z. out.0 ++ z) (sym (nested_left-nil i (a ∷ left)))) k,
  (sym (append-nil out.1) ∙ ap (λ z. out.1 ++ z) (sym (nested_right-nil j (a ∷ left)))) k,
)
visit_runs-eq-nested (suc fuel) i (a ∷ left) j (b ∷ right) out f p q = elim (Bool-cases (ltb a b)) [
  | inl under ↦
      let less : a < b = ltb→lt a b under in
      let none_left : nested_left i (a ∷ left) (b ∷ right) ≡ nested_left (i + 1) left (b ∷ right) =
        let e : suc i ≡ i + 1 = omega arith in
        unfold nested_left in
        ap (λ k. replicate k i ++ nested_left (suc i) left (b ∷ right))
          (count_words-above a b (b ∷ right) less (omega arith, q.0))
        ∙ ap (λ k. nested_left k left (b ∷ right)) e in
      let none_right : nested_right j (a ∷ left) (b ∷ right) ≡ nested_right j left (b ∷ right) =
        unfold nested_right in
        ap (λ z. z ++ nested_right j left (b ∷ right))
          (matches-above a b j (b ∷ right) less (omega arith, q.0)) in
      rw under (
        visit_runs-eq-nested fuel (i + 1) left j (b ∷ right) out (omega arith) p.1 q ∙ λ k.
        (out.0 ++ sym none_left k, out.1 ++ sym none_right k))
  | inr not_under ↦ elim (Bool-cases (ltb b a)) [
    | inl over ↦
        let less : b < a = ltb→lt b a over in
        let from : AllFrom a (a ∷ left) = (omega arith, p.0) in
        rw not_under (
          rw over (
            visit_runs-eq-nested fuel i (a ∷ left) (j + 1) right out (omega arith) p q.1 ∙ λ k. (
              out.0 ++ sym (nested_left-skip b a (a ∷ left) right less from i) k,
              out.1 ++ sym (nested_right-skip b a (a ∷ left) right less from j) k,
            )))
    | inr not_over ↦
        let le : a ≤ b = ltb→le b a not_over in
        let from : AllFrom a (a ∷ left) = (omega arith, p.0) in
        let above : AllFrom a (b ∷ right) = (le, AllFrom-widen a b right le q.0) in
        let m = run_len a (a ∷ left) in
        let n = run_len a (b ∷ right) in
        rw not_under (
          rw not_over (
            visit_runs-eq-nested fuel (i + m) (drop m (a ∷ left)) (j + n) (drop n (b ∷ right))
              (out.0 ++ cross_left i m n, out.1 ++ cross_right m j n)
              (omega
                (arith, run_len_self a left, length-drop m (a ∷ left), length-drop n (b ∷ right)))
              (IsAscending-drop m (a ∷ left) p) (IsAscending-drop n (b ∷ right) q)
            ∙ joined out (cross_left i m n) _ _ (cross_right m j n) _ _
                (nested_left-run a (b ∷ right) above q i (a ∷ left) from p)
                (nested_right-run a (b ∷ right) above q j (a ∷ left) from p)))
  ]
]
