-- ===== src/Columns/Nested.antt =====
-- core/src/columns/join.rs, `RightIndex::join`: the loop over the left rows pairs each with the
-- rows of its code, as a nested loop does.
use mathlib.Core.List.{append-nil, append_assoc}
use vortex_rdf.Prelude.{
  ℕ, suc, ◌≡◌, refl, sym, ap, ◌∙◌, false, Option, List, [], ◌∷◌, ◌++◌, arith, if◌then◌else◌, ◌==◌,
  min, length, length-append, replicate, length-replicate,
}
use vortex_rdf.Search.Sinks.{matches, count_words, length-matches}
use vortex_rdf.Columns.Starts.{AllBelow}
use vortex_rdf.Columns.Join.{
  u64_mod, usize_max, Capped, ok, ◌>>◌, within_cap, Pairs, code_groups, join_rows, join,
}
use vortex_rdf.Columns.Rows.{rows_for-eq-matches, pair_count, match_count-lem}

-- The nested loop over the left rows from `i` and the right rows from `j`: the rows of each pair.
unfoldable pub nested_left : ℕ → List ℕ → List ℕ → List ℕ
nested_left i [] right = []
nested_left i (code ∷ left) right =
    replicate (count_words right code) i ++ nested_left (suc i) left right

unfoldable pub nested_right : ℕ → List ℕ → List ℕ → List ℕ
nested_right j [] right = []
nested_right j (code ∷ left) right = matches j right code ++ nested_right j left right

-- What the join is to answer: every pair of equal codes, by left row and then by right row; or the
-- number of pairs, saturated, where that is past the cap.
unfoldable pub nested_loop : List ℕ → List ℕ → Option ℕ → Capped Pairs
nested_loop left right max_pairs = do
  within_cap (min (pair_count left right) usize_max) max_pairs
  ok (nested_left 0 left right, nested_right 0 left right)

pub length-nested_left :
    (i : ℕ) (left right : List ℕ) → length (nested_left i left right) ≡ pair_count left right
unfolding nested_left pair_count
length-nested_left i [] right = refl
length-nested_left i (code ∷ left) right = omega (
  arith,
  length-append (replicate (count_words right code) i) (nested_left (suc i) left right),
  length-replicate (count_words right code) i,
  length-nested_left (suc i) left right,
)

-- A row with no match adds nothing either way.
skip_none :
    (i n : ℕ) (rows : List ℕ) (out : Pairs)
    → length rows ≡ n
    → (if length rows == 0 then out else (out.0 ++ replicate (length rows) i, out.1 ++ rows))
      ≡ (out.0 ++ replicate n i, out.1 ++ rows)
skip_none i n [] out e =
    λ k. ((sym (append-nil out.0) ∙ ap (λ m. out.0 ++ replicate m i) e) k, sym (append-nil out.1) k)
skip_none i n (r ∷ rows) out e =
    let t : (length (r ∷ rows) == 0) ≡ false = ground arith in
    rw t (ap (λ m. (out.0 ++ replicate m i, out.1 ++ r ∷ rows)) e)

module _ (right : List ℕ) (small : AllBelow u64_mod right) where
  join_rows-eq-nested :
      (left : List ℕ) (i : ℕ) (out : Pairs)
      → AllBelow u64_mod left
      → join_rows (code_groups right) i left out
        ≡ (out.0 ++ nested_left i left right, out.1 ++ nested_right 0 left right)
  unfolding join_rows nested_left nested_right
  join_rows-eq-nested [] i out known = λ k. (sym (append-nil out.0) k, sym (append-nil out.1) k)
  join_rows-eq-nested (code ∷ left) i out known =
      let found = rows_for-eq-matches right code known.0 small in
      let n = count_words right code in
      rw (found, skip_none i n (matches 0 right code) out (length-matches 0 right code))
        (join_rows-eq-nested left (suc i) (out.0 ++ replicate n i, out.1 ++ matches 0 right code)
            known.1
          ∙ λ k. (
            append_assoc out.0 (replicate n i) (nested_left (suc i) left right) k,
            append_assoc out.1 (matches 0 right code) (nested_right 0 left right) k,
          ))

  -- Probing the grouped column answers what the nested loop does.
  pub join-eq-nested_loop :
      (left : List ℕ) (max_pairs : Option ℕ)
      → AllBelow u64_mod left
      → join (code_groups right) left max_pairs ≡ nested_loop left right max_pairs
  unfolding join nested_loop
  join-eq-nested_loop left max_pairs known =
      rw (match_count-lem right small left known, join_rows-eq-nested left 0 ([], []) known) refl
