-- ===== src/Columns/Gather.antt =====
-- core/src/columns/join.rs, `CodeGroups::gather`, and core/src/columns/mod.rs, `take`: the columns
-- of a join, filled while its pairs are found.
use vortex_rdf.Prelude.{
  ℕ, zero, suc, ◌+◌, ◌≡◌, refl, sym, ap, ◌∙◌, Bool, true, ◌&&◌, Option, none, some, List, [], ◌∷◌,
  ◌++◌, map, map-append, arith, if◌then◌else◌, ◌==◌, ==_iff, ltb, min, length, get_or, replicate,
}
use vortex_rdf.Search.Sinks.{matches, count_words}
use vortex_rdf.Columns.Starts.{AllBelow}
use vortex_rdf.Columns.Join.{
  u64_mod, usize_max, Capped, ok, refused, ◌>>◌, within_cap, RightIndex, rows_for, rows_count,
  code_groups, match_count,
}
use vortex_rdf.Columns.Rows.{
  rows_for-eq-matches, rows_count-eq-count_words, pair_count, match_count-lem,
}
use vortex_rdf.Columns.Nested.{nested_left, nested_right}

module _ (index : RightIndex) where
  -- One left column: each value repeated for its row's matches.
  unfoldable pub gather_left : List ℕ → List ℕ → List ℕ
  gather_left [] column = []
  gather_left (code ∷ left) [] = []
  gather_left (code ∷ left) (value ∷ column) =
      replicate (rows_count index code) value ++ gather_left left column

  -- One right column, read at the rows of each left code.
  unfoldable pub gather_right : List ℕ → List ℕ → List ℕ
  unfolding rows_for
  gather_right [] column = []
  gather_right (code ∷ left) column =
      map (λ r. get_or column r 0) (rows_for index code) ++ gather_right left column

  unfoldable pub gather_columns :
      List ℕ → List (List ℕ) → List (List ℕ) → Option ℕ → Capped (List (List ℕ))
  unfolding gather_left gather_right match_count within_cap
  gather_columns left left_columns right_columns max_pairs = do
    within_cap (match_count index left) max_pairs
    ok (map (gather_left left) left_columns ++ map (gather_right left) right_columns)

-- `columns.iter().all(|column| column.len() == n)`.
unfoldable pub all_parallel : ℕ → List (List ℕ) → Bool
all_parallel n [] = true
all_parallel n (column ∷ columns) = length column == n && all_parallel n columns

-- A column that is not parallel to its keys panics, which is `none`.
unfoldable pub gather :
    RightIndex → List ℕ → List (List ℕ) → List (List ℕ) → Option ℕ → Option (Capped (List (List ℕ)))
unfolding all_parallel gather_columns
gather index left left_columns right_columns max_pairs =
    if all_parallel (length left) left_columns
      && all_parallel (length index.groups.rows) right_columns
    then some (gather_columns index left left_columns right_columns max_pairs)
    else none

-- `take`: an index past the column is an error with its position.
unfoldable pub first_past : ℕ → ℕ → List ℕ → Option ℕ
first_past at len [] = none
first_past at len (i ∷ indices) =
    let rest = first_past (suc at) len indices in if ltb i len then rest else some at

unfoldable pub take_at : List ℕ → List ℕ → Capped (List ℕ)
unfolding first_past
take_at codes indices = elim (first_past 0 (length codes) indices) [
  | some bad ↦ refused bad
  | none ↦ ok (map (λ i. get_or codes i 0) indices)
]

map-replicate : (f : ℕ → ℕ) (n a : ℕ) → map f (replicate n a) ≡ replicate n (f a)
map-replicate f zero a = refl
map-replicate f (suc n) a = ap (λ xs. f a ∷ xs) (map-replicate f n a)

module _ (right : List ℕ) (small : AllBelow u64_mod right) where
  -- The column from row `i` on, `f` being the whole column.
  gather_left-lem :
      (left column : List ℕ) (f : ℕ → ℕ) (i : ℕ)
      → AllBelow u64_mod left
      → length column ≡ length left
      → ((k : ℕ) → f (i + k) ≡ get_or column k 0)
      → gather_left (code_groups right) left column ≡ map f (nested_left i left right)
  unfolding gather_left nested_left
  gather_left-lem [] column f i known e same = refl
  gather_left-lem (code ∷ left) [] f i known e same = absurd (omega (arith, e))
  gather_left-lem (code ∷ left) (value ∷ column) f i known e same =
      let n = count_words right code in
      let here : f i ≡ value = ap f (let z : i ≡ i + 0 = omega arith in z) ∙ same 0 in
      let next : (k : ℕ) → f (suc i + k) ≡ get_or column k 0 =
        λ k. ap f (let z : suc i + k ≡ i + suc k = omega arith in z) ∙ same (suc k) in
      let counted = rows_count-eq-count_words right code known.0 small in
      let rest = gather_left-lem left column f (suc i) known.1 (omega (arith, e)) next in
      (λ k. replicate (counted k) (sym here k) ++ rest k)
      ∙ ap (λ xs. xs ++ map f (nested_left (suc i) left right)) (sym (map-replicate f n i))
      ∙ sym (map-append f (replicate n i) (nested_left (suc i) left right))

  gather_right-lem :
      (left column : List ℕ)
      → AllBelow u64_mod left
      → gather_right (code_groups right) left column
        ≡ map (λ r. get_or column r 0) (nested_right 0 left right)
  unfolding gather_right nested_right
  gather_right-lem [] column known = refl
  gather_right-lem (code ∷ left) column known =
      let g = λ (r : ℕ). get_or column r 0 in
      (λ k.
        map g (rows_for-eq-matches right code known.0 small k)
        ++ gather_right-lem left column known.1 k)
      ∙ sym (map-append g (matches 0 right code) (nested_right 0 left right))

  gather_left-all :
      (left : List ℕ) (columns : List (List ℕ))
      → AllBelow u64_mod left
      → all_parallel (length left) columns ≡ true
      → map (gather_left (code_groups right) left) columns
        ≡ map (λ column. map (λ i. get_or column i 0) (nested_left 0 left right)) columns
  unfolding all_parallel
  gather_left-all left [] known h = refl
  gather_left-all left (column ∷ columns) known h =
      let e : length column ≡ length left =
        (==_iff (length column) (length left)).0 (ground arith) in
      λ k.
        gather_left-lem left column (λ i. get_or column i 0) 0 known e
          (λ j. let z : 0 + j ≡ j = omega arith in ap (λ i. get_or column i 0) z) k
        ∷ gather_left-all left columns known (ground arith) k

  gather_right-all :
      (left : List ℕ) (columns : List (List ℕ))
      → AllBelow u64_mod left
      → map (gather_right (code_groups right) left) columns
        ≡ map (λ column. map (λ i. get_or column i 0) (nested_right 0 left right)) columns
  gather_right-all left [] known = refl
  gather_right-all left (column ∷ columns) known =
      λ k. gather_right-lem left column known k ∷ gather_right-all left columns known k

  -- Where every column runs parallel to its keys, the gathered columns of a join of 64-bit codes are
  -- the left columns at the left rows of the nested loop's pairs, then the right columns at their
  -- right rows; and they are refused as the join is.
  pub gather-eq-nested :
      (left : List ℕ) (left_columns right_columns : List (List ℕ)) (max_pairs : Option ℕ)
      → AllBelow u64_mod left
      → all_parallel (length left) left_columns ≡ true
      → all_parallel (length (code_groups right).groups.rows) right_columns ≡ true
      → gather (code_groups right) left left_columns right_columns max_pairs
        ≡ some (do
          within_cap (min (pair_count left right) usize_max) max_pairs
          ok (
              map (λ column. map (λ i. get_or column i 0) (nested_left 0 left right)) left_columns
              ++ map
                  (λ column. map (λ i. get_or column i 0) (nested_right 0 left right))
                  right_columns))
  unfolding gather gather_columns
  gather-eq-nested left left_columns right_columns max_pairs known p q =
      rw
        (
          p,
          q,
          match_count-lem right small left known,
          gather_left-all left left_columns known p,
          gather_right-all left right_columns known,
        )
        refl
