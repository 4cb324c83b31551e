-- ===== src/Columns/FirstSeen.antt =====
-- core/src/columns/mod.rs, `distinct_first_seen` and `value_counts`: the table and the hash map
-- answer alike.
use vortex_rdf.Prelude.{
  ℕ, ◌+◌, ◌≤◌, ◌<◌, ◌≡◌, refl, sym, ap, subst, ◌∙◌, Bool, true, false, inl, inr, List, [], ◌∷◌,
  ◌++◌, arith, Bool-cases, if◌then◌else◌, ltb, ◌==◌, ==_iff, max, length, get_or, replicate,
  length-replicate,
}
use vortex_rdf.Prelude.Arrays.{set, length-set, get_or-set_self, get_or-set_ne, get_or-replicate}
use vortex_rdf.Search.Sinks.{count_words, flag, count_words-append}
use vortex_rdf.Columns.Starts.{AllBelow}
use vortex_rdf.Columns.Join.{dense_table_fits}
use vortex_rdf.Columns.Distinct.{
  fold_max, max_code, dense_distinct, hashed_distinct, holds, distinct_first_seen,
}

-- The code occurs among the codes before.
abbrev pub occurs : List ℕ → ℕ → Bool
occurs before c = ltb 0 (count_words before c)

-- Each code at its first occurrence, `before` being the codes already passed.
unfoldable pub first_seen : List ℕ → List ℕ → List ℕ
first_seen before [] = []
first_seen before (c ∷ cs) =
    let rest = first_seen (before ++ c ∷ []) cs in if occurs before c then rest else c ∷ rest

pub count_words-last :
    (before : List ℕ) (c x : ℕ)
    → count_words (before ++ c ∷ []) x ≡ count_words before x + flag (c == x)
count_words-last before c x =
    count_words-append before (c ∷ []) x ∙ unfold count_words in omega arith

pub fold_max-AllBelow :
    (cs : List ℕ) (m : ℕ) → (m ≤ fold_max cs m) × AllBelow (fold_max cs m + 1) cs
unfolding fold_max
fold_max-AllBelow [] m = (omega arith, tt)
fold_max-AllBelow (c ∷ cs) m =
    let ih = fold_max-AllBelow cs (max m c) in (omega (arith, ih.0), (omega (arith, ih.0), ih.1))

-- The table marks the codes that occurred.
dense_distinct-lem :
    (cs before : List ℕ) (seen : List Bool)
    → AllBelow (length seen) cs
    → ((x : ℕ) → x < length seen → get_or seen x false ≡ occurs before x)
    → dense_distinct seen cs ≡ first_seen before cs
unfolding dense_distinct first_seen
dense_distinct-lem [] before seen small marks = refl
dense_distinct-lem (c ∷ cs) before seen small marks =
    let hit = marks c small.0 in
    elim (Bool-cases (occurs before c)) [
      | inl old ↦
          let next : (x : ℕ) → x < length seen → get_or seen x false ≡ occurs (before ++ c ∷ []) x =
            λ x h. marks x h ∙ kept old x in
          rw (hit, old) (dense_distinct-lem cs (before ++ c ∷ []) seen small.1 next)
      | inr new ↦
          let size : length (set seen c true) ≡ length seen = length-set true false seen c in
          let next : (x : ℕ)
              → x < length (set seen c true)
              → get_or (set seen c true) x false ≡ occurs (before ++ c ∷ []) x =
            λ x h. elim (Bool-cases (c == x)) [
              | inl same ↦
                  let e = (==_iff c x).0 same in
                  subst (λ y. get_or (set seen c true) y false ≡ occurs (before ++ c ∷ []) y) e
                    (get_or-set_self true false seen c small.0 ∙ now)
              | inr other ↦
                  get_or-set_ne true false seen c x (λ e. absurd (ground (arith, e, other)))
                  ∙ marks x (omega (arith, h, size))
                  ∙ same_count x other
            ] in
          rw (hit, new)
            (ap (λ ys. c ∷ ys)
              (dense_distinct-lem cs (before ++ c ∷ []) (set seen c true) (rw size small.1) next))
    ]
  where
    same_count : (x : ℕ) → (c == x) ≡ false → occurs before x ≡ occurs (before ++ c ∷ []) x
    same_count x other = ground (arith, count_words-last before c x, ap flag other)

    now : true ≡ occurs (before ++ c ∷ []) c
    now = ground (arith, count_words-last before c c, ap flag ((==_iff c c).1 refl))

    kept : occurs before c ≡ true → (x : ℕ) → occurs before x ≡ occurs (before ++ c ∷ []) x
    kept old x = elim (Bool-cases (c == x)) [
      | inl same ↦
          let e = (==_iff c x).0 same in
          subst (λ y. occurs before y ≡ occurs (before ++ c ∷ []) y) e (old ∙ now)
      | inr other ↦ same_count x other
    ]

hashed_distinct-lem :
    (cs before seen : List ℕ)
    → ((x : ℕ) → holds seen x ≡ occurs before x)
    → hashed_distinct seen cs ≡ first_seen before cs
unfolding hashed_distinct first_seen
hashed_distinct-lem [] before seen marks = refl
hashed_distinct-lem (c ∷ cs) before seen marks = elim (Bool-cases (occurs before c)) [
  | inl old ↦
      let next : (x : ℕ) → holds seen x ≡ occurs (before ++ c ∷ []) x =
        λ x. marks x ∙ ground (arith, count_words-last before c x, old, occ_eq x) in
      rw (marks c, old) (hashed_distinct-lem cs (before ++ c ∷ []) seen next)
  | inr new ↦
      let next : (x : ℕ) → holds (c ∷ seen) x ≡ occurs (before ++ c ∷ []) x =
        λ x. unfold holds in ground (arith, marks x, count_words-last before c x) in
      rw (marks c, new)
        (ap (λ ys. c ∷ ys) (hashed_distinct-lem cs (before ++ c ∷ []) (c ∷ seen) next))
]
  where
    occ_eq : (x : ℕ) → c ≡ x → count_words before c ≡ count_words before x
    occ_eq x e = ap (count_words before) e

-- Each code of a column comes out once, at its first occurrence, in that order, whether its codes
-- are marked in a table or in a hash set.
pub distinct_first_seen-eq-first_seen :
    (codes : List ℕ) → distinct_first_seen codes ≡ first_seen [] codes
unfolding distinct_first_seen max_code
distinct_first_seen-eq-first_seen [] = unfold first_seen in refl
distinct_first_seen-eq-first_seen (c ∷ cs) =
    let top = fold_max cs c in
    let bound = fold_max-AllBelow cs c in
    let size : length (replicate (top + 1) false) ≡ top + 1 = length-replicate (top + 1) false in
    elim (Bool-cases (dense_table_fits top (length (c ∷ cs)))) [
      | inl dense ↦ rw dense (
          dense_distinct-lem (c ∷ cs) [] (replicate (top + 1) false)
            (subst (λ n. AllBelow n (c ∷ cs)) (sym size) (omega (arith, bound.0), bound.1))
            (λ x h. get_or-replicate false (top + 1) x ∙ unfold count_words in ground arith))
      | inr sparse ↦
          rw sparse
            (hashed_distinct-lem (c ∷ cs) [] [] (λ x. unfold holds count_words in ground arith))
    ]
