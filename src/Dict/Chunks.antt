-- ===== src/Dict/Chunks.antt =====
-- core/src/store/layouts/dictionary/storage/mod.rs: the sorted terms in chunks, with the start table
-- that maps a term's index to its chunk and its place there.
-- A chunk is the list of its terms, in whatever encoding it is held.
use vortex_rdf.Prelude.{
  ℕ, zero, suc, ◌+◌, ◌-◌, ◌≤◌, ◌<◌, ◌≡◌, refl, ap, sym, ◌∙◌, true, false, inl, inr, List, [], ◌∷◌,
  ◌++◌, arith, tests, Bool-cases, leb, ltb, length, get_or, length-append,
}
use vortex_rdf.View.Selection.{partition_point}
use vortex_rdf.Dict.Bytes.{Text}

pub record ResidentChunks : Type 0 where
  pub chunks : List (List Text)
  pub starts : List ℕ
  pub len : ℕ

-- The index of each chunk's first term, `n` being the first chunk's.
unfoldable pub starts_from : ℕ → List (List Text) → List ℕ
starts_from n [] = []
starts_from n (c ∷ cs) = n ∷ starts_from (n + length c) cs

abbrev pub flat : List (List Text) → List Text
flat [] = []
flat (c ∷ cs) = c ++ flat cs

-- `ResidentChunks::new`: the start table and the number of terms of the chunks.
unfoldable pub of_chunks : List (List Text) → ResidentChunks
unfolding starts_from
of_chunks cs = record { chunks = cs; starts = starts_from 0 cs; len = length (flat cs) }

-- `chunk_of`
unfoldable pub chunk_of : List ℕ → ℕ → ℕ × ℕ
unfolding partition_point
chunk_of starts i =
    let chunk = partition_point (λ s. leb s i) starts - 1 in (chunk, i - get_or starts chunk 0)

-- `locate`: a one-chunk column answers without searching the start table.
unfoldable pub locate : List (List Text) → List ℕ → ℕ → ℕ × ℕ
unfolding chunk_of
locate (only ∷ []) starts i = (0, i)
locate [] starts i = chunk_of starts i
locate (c ∷ d ∷ more) starts i = chunk_of starts i

-- `bytes_into`: term `i`, through its chunk.
unfoldable pub term_at : ResidentChunks → ℕ → Text
unfolding locate
term_at r i = let at = locate r.chunks r.starts i in get_or (get_or r.chunks at.0 []) at.1 []

get_or-append_left :
    (xs ys : List Text) (i : ℕ) → i < length xs → get_or (xs ++ ys) i [] ≡ get_or xs i []
get_or-append_left [] ys i h = absurd (omega arith)
get_or-append_left (x ∷ xs) ys zero h = refl
get_or-append_left (x ∷ xs) ys (suc i) h = get_or-append_left xs ys i (omega arith)

get_or-append_right :
    (xs ys : List Text) (i k : ℕ) → i ≡ length xs + k → get_or (xs ++ ys) i [] ≡ get_or ys k []
get_or-append_right [] ys i k e = let f : i ≡ k = omega arith in ap (λ j. get_or ys j []) f
get_or-append_right (x ∷ xs) ys zero k e = absurd (omega arith)
get_or-append_right (x ∷ xs) ys (suc i) k e = get_or-append_right xs ys i k (omega arith)

-- The chunks that start at `i` or before it, of chunks whose first starts at `n`.
count_from : ℕ → ℕ → List (List Text) → ℕ
count_from i n cs = partition_point (λ s. leb s i) (starts_from n cs)

count_from-later : (i n : ℕ) (cs : List (List Text)) → i < n → count_from i n cs ≡ 0
unfolding count_from starts_from partition_point
count_from-later i n [] h = refl
count_from-later i n (c ∷ cs) h = let e : leb n i ≡ false = ground arith in rw e refl

count_from-cons :
    (i n : ℕ) (c : List Text) (cs : List (List Text))
    → n ≤ i
    → count_from i n (c ∷ cs) ≡ suc (count_from i (n + length c) cs)
unfolding count_from starts_from partition_point
count_from-cons i n c cs h = let e : leb n i ≡ true = ground arith in rw e refl

count_from-pos :
    (i n : ℕ) (cs : List (List Text)) → n ≤ i → i < n + length (flat cs) → 1 ≤ count_from i n cs
count_from-pos i n [] p q = absurd (omega arith)
count_from-pos i n (c ∷ cs) p q = omega (arith, count_from-cons i n c cs p)

found_in : ℕ → ℕ → List (List Text) → ℕ → Text
found_in i n cs k = get_or (get_or cs k []) (i - get_or (starts_from n cs) k 0) []

found_in-flat :
    (i n : ℕ) (cs : List (List Text))
    → n ≤ i
    → i < n + length (flat cs)
    → found_in i n cs (count_from i n cs - 1) ≡ get_or (flat cs) (i - n) []
unfolding found_in starts_from
found_in-flat i n [] p q = absurd (omega arith)
found_in-flat i n (c ∷ cs) p q = elim (Bool-cases (ltb i (n + length c))) [
  | inl here ↦
      let e : count_from i n (c ∷ cs) - 1 ≡ 0 =
        omega
          (arith, count_from-cons i n c cs p, count_from-later i (n + length c) cs (omega tests)) in
      rw e (sym (get_or-append_left c (flat cs) (i - n) (omega tests)))
  | inr later ↦
      let past : n + length c ≤ i = omega tests in
      let k : ℕ = count_from i (n + length c) cs in
      let inside : i < n + length c + length (flat cs) = omega (arith, length-append c (flat cs)) in
      let e : count_from i n (c ∷ cs) - 1 ≡ suc (k - 1) =
        omega (arith, count_from-cons i n c cs p, count_from-pos i (n + length c) cs past inside) in
      rw e (
        found_in-flat i (n + length c) cs past inside
        ∙ sym (get_or-append_right c (flat cs) (i - n) (i - (n + length c)) (omega arith)))
]

locate-chunk_of :
    (cs : List (List Text)) (i : ℕ) → locate cs (starts_from 0 cs) i ≡ chunk_of (starts_from 0 cs) i
unfolding locate chunk_of starts_from partition_point
locate-chunk_of [] i = refl
locate-chunk_of (only ∷ []) i =
    let e : leb 0 i ≡ true = ground arith in let f : i ≡ i - 0 = omega arith in rw e (λ j. (0, f j))
locate-chunk_of (c ∷ d ∷ more) i = refl

-- A term read through the start table is the term of the chunks laid end to end.
pub term_at-flat :
    (cs : List (List Text)) (i : ℕ)
    → i < length (flat cs)
    → term_at (of_chunks cs) i ≡ get_or (flat cs) i []
unfolding term_at of_chunks count_from found_in chunk_of
term_at-flat cs i h =
    let e : i - 0 ≡ i = omega arith in
    ap (λ at. get_or (get_or cs at.0 []) at.1 []) (locate-chunk_of cs i)
    ∙ found_in-flat i 0 cs (omega arith) (omega arith)
    ∙ ap (λ j. get_or (flat cs) j []) e
