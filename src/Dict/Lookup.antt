-- ===== src/Dict/Lookup.antt =====
-- core/src/store/layouts/dictionary/term_dict.rs: lookups in a dictionary of sorted terms.
use Prim.Native.Nat.{Ordering}
use vortex_rdf.Prelude.{
  ℕ, zero, suc, ◌+◌, ◌-◌, ◌≤◌, ◌<◌, ◌≡◌, ◌↔◌, ◌⊎◌, refl, ap, sym, subst, ◌∙◌, true, not, ◌&&◌, inl,
  inr, Option, none, some, arith, tests, Bool-cases, ltb, max,
}
use vortex_rdf.Prelude.Checks.{each_below, each_below_at}
use vortex_rdf.View.Selection.{span, range_contains}
use vortex_rdf.Search.Partition.{IsSplit, IsMonotone, IsWindow-whole}
use vortex_rdf.Dict.Bytes.{
  Text, text_cmp, is_lt, text_ltb, starts_with, prefix_successor, Less, text_cmp_refl, text_cmp-eq,
  text_cmp-swap, Less-swap, Less-trans,
}
use vortex_rdf.Dict.Prefix.{AllBytes, below_end, starts_with-prefix_successor}
use vortex_rdf.Dict.Searches.{
  lower_bound_by, find_by, IsRanked, Ordering-cases, lower_bound_by-IsSplit, find_by_iff,
}
use vortex_rdf.Dict.Chunks.{term_at}
use vortex_rdf.Dict.Terms.{
  code_rank, rank_of, code_at, TermDictionary, code_space, decode, encode_exact, lower_bound,
  prefix_range, unwrap_or, map_option,
}

-- The terms ascend strictly.
abbrev pub IsSorted : TermDictionary → Type 0
IsSorted d = (i j : ℕ) → i < j → j < d.terms.len → Less (term_at d.terms i) (term_at d.terms j)

is_lt-Less : (a b : Text) → text_ltb a b ≡ true → Less a b
is_lt-Less a b h = elim (Ordering-cases (text_cmp a b)) [
  | inl e ↦ e
  | inr (inl e) ↦ absurd (cc (ap is_lt e, h))
  | inr (inr e) ↦ absurd (cc (ap is_lt e, h))
]

-- Terms each below the next one ascend.
pub steps-IsSorted :
    (d : TermDictionary)
    → each_below (λ i. text_ltb (term_at d.terms i) (term_at d.terms (suc i))) (d.terms.len - 1)
      ≡ true
    → IsSorted d
steps-IsSorted d h i zero p q = absurd (omega arith)
steps-IsSorted d h i (suc j) p q =
    let step : Less (term_at d.terms j) (term_at d.terms (suc j)) = is_lt-Less _ _ (
      each_below_at (λ k. text_ltb (term_at d.terms k) (term_at d.terms (suc k))) (d.terms.len - 1)
        j (omega arith) h) in
    elim (Bool-cases (ltb i j)) [
      | inl less ↦
          Less-trans (term_at d.terms i) (term_at d.terms j) (term_at d.terms (suc j))
            (steps-IsSorted d h i j (omega tests) (omega arith)) step
      | inr same ↦
          let e : j ≡ i = omega tests in
          subst (λ k. Less (term_at d.terms k) (term_at d.terms (suc j))) e step
    ]

module _ (d : TermDictionary) (sorted : IsSorted d) where
  abbrev term : ℕ → Text
  term i = term_at d.terms i

  sorted-cases : (i j : ℕ) → i ≤ j → j < d.terms.len → (i ≡ j) ⊎ Less (term i) (term j)
  sorted-cases i j p q = elim (Bool-cases (ltb i j)) [
    | inl less ↦ inr (sorted i j (omega tests) q)
    | inr same ↦ inl (omega tests)
  ]

  terms-IsRanked : (t : Text) → IsRanked d.terms.len (λ i. text_cmp (term i) t)
  terms-IsRanked t = record {
    falls = λ i j p q h. elim (sorted-cases i j p q) [
      | inl same ↦ ap (λ k. text_cmp (term k) t) same ∙ h
      | inr less ↦ Less-trans (term i) (term j) t less h
    ];
    rises = λ i j p q h. elim (sorted-cases i j p q) [
      | inl same ↦ sym (ap (λ k. text_cmp (term k) t) same) ∙ h
      | inr less ↦
          Less-swap t (term j) (Less-trans t (term i) (term j) (text_cmp-swap (term i) t h) less)
    ];
    once = λ i j p q e f. elim (Bool-cases (ltb i j)) [
      | inl less ↦
          let s : term i ≡ term j = text_cmp-eq (term i) t e ∙ sym (text_cmp-eq (term j) t f) in
          absurd (
            cc
              (sorted i j (omega tests) q, ap (λ x. text_cmp x (term j)) s, text_cmp_refl (term j)))
      | inr more ↦ elim (Bool-cases (ltb j i)) [
        | inl less ↦
            let s : term j ≡ term i = text_cmp-eq (term j) t f ∙ sym (text_cmp-eq (term i) t e) in
            absurd (cc (sorted j i (omega tests) p, s, text_cmp_refl (term i)))
        | inr same ↦ omega tests
      ]
    ];
  }

  below-IsMonotone : (t : Text) → IsMonotone d.terms.len (λ i. text_ltb (term i) t)
  below-IsMonotone t i j p q h =
      ap is_lt ((terms-IsRanked t).falls i j p q (is_lt-Less (term j) t h))

  rank_of-in :
      (c : ℕ) → d.base ≤ c → c - d.base < d.terms.len → rank_of (code_space d) c ≡ some (c - d.base)
  unfolding rank_of code_rank
  rank_of-in c p q = ground arith

  rank_of-found :
      (c r : ℕ)
      → rank_of (code_space d) c ≡ some r
      → (d.base ≤ c) × (c - d.base ≡ r) × (r < d.terms.len)
  unfolding rank_of code_rank
  rank_of-found c r h = ground (arith, h)

  found_iff :
      (t : Text) (i : ℕ)
      → (find_by 0 d.terms.len (λ i. text_cmp (term i) t) ≡ some i)
        ↔ ((i < d.terms.len) × (text_cmp (term i) t ≡ Ordering.eq))
  found_iff t i = find_by_iff d.terms.len (λ i. text_cmp (term i) t) i (terms-IsRanked t)

  map_option-eq-some :
      {A B : Type 0} (f : A → B) (o : Option A) (b : B)
      → map_option f o ≡ some b
      → (a : A) × (o ≡ some a) × (f a ≡ b)
  map_option-eq-some f none b h = absurd (cc h)
  map_option-eq-some f (some a) b h = (a, refl, cc h)

  decode-encode_exact : (t : Text) (c : ℕ) → encode_exact d t ≡ some c → decode d c ≡ some t
  unfolding encode_exact decode
  decode-encode_exact t c h =
      let (r, some_found, e) = map_option-eq-some (code_at (code_space d)) _ c h in
      let at = (found_iff t r).0 some_found in
      let g : c - d.base ≡ r = omega arith in
      ap (map_option term) (rank_of-in c (omega arith) (omega (arith, at.0)))
      ∙ ap some (ap term g ∙ text_cmp-eq (term r) t at.1)

  encode_exact-decode : (t : Text) (c : ℕ) → decode d c ≡ some t → encode_exact d t ≡ some c
  unfolding encode_exact decode
  encode_exact-decode t c h =
      let (r, ranked, e) = map_option-eq-some term _ t h in
      let at = rank_of-found c r ranked in
      let same : text_cmp (term r) t ≡ Ordering.eq = ap (λ x. text_cmp x t) e ∙ text_cmp_refl t in
      ap (map_option (code_at (code_space d))) ((found_iff t r).1 (at.2, same))
      ∙ ap some (omega (arith, at.0, at.1))

  -- In a dictionary of sorted terms a spelling encodes to a code exactly when the code decodes to
  -- that spelling.
  pub encode_exact_iff : (t : Text) (c : ℕ) → (encode_exact d t ≡ some c) ↔ (decode d c ≡ some t)
  encode_exact_iff t c = (decode-encode_exact t c, encode_exact-decode t c)

  bound : Text → ℕ
  bound t = lower_bound_by 0 d.terms.len (λ i. text_ltb (term i) t)

  bound-IsSplit : (t : Text) → IsSplit d.terms.len (λ i. text_ltb (term i) t) (bound t)
  unfolding bound
  bound-IsSplit t = lower_bound_by-IsSplit (below-IsMonotone t) 0 d.terms.len IsWindow-whole

  text_ltb-bound : (t : Text) (i : ℕ) → i < d.terms.len → text_ltb (term i) t ≡ ltb i (bound t)
  text_ltb-bound t i h = elim (Bool-cases (ltb i (bound t))) [
    | inl before ↦ rw before ((bound-IsSplit t).passing i (omega tests))
    | inr after ↦ rw after ((bound-IsSplit t).failing i (omega tests) h)
  ]

  end_bound : Option Text → ℕ
  end_bound none = d.terms.len
  end_bound (some end) = bound end

  below_end-bound :
      (o : Option Text) (i : ℕ) → i < d.terms.len → below_end (term i) o ≡ ltb i (end_bound o)
  unfolding end_bound
  below_end-bound none i h = ground arith
  below_end-bound (some end) i h = text_ltb-bound end i h

  range_end :
      (o : Option Text)
      → unwrap_or (map_option (lower_bound d) o) (code_at (code_space d) d.terms.len)
        ≡ d.base + end_bound o
  unfolding end_bound lower_bound bound
  range_end none = refl
  range_end (some end) = refl

  contains-span :
      (i lo hi : ℕ)
      → range_contains (span (d.base + lo) (max (d.base + hi) (d.base + lo))) (d.base + i)
        ≡ not (ltb i lo) && ltb i hi
  contains-span i lo hi = ground arith

  -- In a dictionary of sorted byte strings the code range of a prefix holds the code of each term
  -- that starts with the prefix, and of no other.
  pub prefix_range-contains :
      (prefix : Text) (i : ℕ)
      → i < d.terms.len
      → AllBytes (term i)
      → range_contains (prefix_range d prefix) (code_at (code_space d) i)
        ≡ starts_with prefix (term i)
  unfolding prefix_range lower_bound bound
  prefix_range-contains prefix i h bytes =
      ap
        (λ hi.
          range_contains (span (d.base + bound prefix) (max hi (d.base + bound prefix)))
            (d.base + i))
        (range_end (prefix_successor prefix))
      ∙ contains-span i (bound prefix) (end_bound (prefix_successor prefix))
      ∙ sym (λ j.
        not (text_ltb-bound prefix i h j) && below_end-bound (prefix_successor prefix) i h j)
      ∙ sym (starts_with-prefix_successor prefix (term i) bytes)
