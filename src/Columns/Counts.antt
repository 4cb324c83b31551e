-- ===== src/Columns/Counts.antt =====
-- core/src/columns/mod.rs, `value_counts`: both passes end with the distinct codes as first seen and
-- the number of their occurrences.
use mathlib.Core.List.{append-nil, append_assoc}
use vortex_rdf.Prelude.{
  ℕ, ◌+◌, ◌-◌, ◌<◌, ◌≡◌, refl, sym, ap, subst, ◌∙◌, ◌≢◌, false, inl, inr, Option, none, some, List,
  [], ◌∷◌, ◌++◌, map, arith, Bool-cases, Option-cases, if◌then◌else◌, lt→ltb, le→ltb, ◌==◌, length,
  get_or, replicate, length-replicate,
}
use vortex_rdf.Prelude.Arrays.{set, length-set, get_or-set_self, get_or-set_ne, get_or-replicate}
use vortex_rdf.Search.Sinks.{count_words}
use vortex_rdf.Columns.Starts.{AllBelow}
use vortex_rdf.Columns.Join.{dense_table_fits, find_slot}
use vortex_rdf.Columns.Distinct.{
  fold_max, max_code, Counts, increment, dense_counts, hashed_counts, value_counts,
}
use vortex_rdf.Columns.FirstSeen.{occurs, first_seen, fold_max-AllBelow}
use vortex_rdf.Columns.Counted.{Tracks, increment-counts, append-counts, old-Tracks, new-Tracks}

-- What either pass ends with.
abbrev pub counted : List ℕ → List ℕ → List ℕ → Counts
counted before order cs =
    let codes = order ++ first_seen before cs in (codes, map (count_words (before ++ cs)) codes)

counted-nil :
    (before order : List ℕ)
    → ◌≡◌ {A = Counts} (order, map (count_words before) order) (counted before order [])
unfolding first_seen
counted-nil before order = λ i. (
  sym (append-nil order) i,
  map (count_words (sym (append-nil before) i)) (sym (append-nil order) i),
)

module _ (before order : List ℕ) (c : ℕ) (cs : List ℕ) where
  counted-old :
      0 < count_words before c → counted (before ++ c ∷ []) order cs ≡ counted before order (c ∷ cs)
  unfolding first_seen
  counted-old h = rw (lt→ltb 0 (count_words before c) h) (
      ap (λ xs. counted_with xs (order ++ first_seen (before ++ c ∷ []) cs))
        (append_assoc before (c ∷ []) cs))
    where
      counted_with : List ℕ → List ℕ → Counts
      counted_with xs codes = (codes, map (count_words xs) codes)

  counted-new :
      count_words before c ≡ 0
      → counted (before ++ c ∷ []) (order ++ c ∷ []) cs ≡ counted before order (c ∷ cs)
  unfolding first_seen
  counted-new z =
      let miss : occurs before c ≡ false = le→ltb 0 (count_words before c) (omega (arith, z)) in
      rw miss (λ i.
        counted_with (append_assoc before (c ∷ []) cs i)
          (append_assoc order (c ∷ []) (first_seen (before ++ c ∷ []) cs) i))
    where
      counted_with : List ℕ → List ℕ → Counts
      counted_with xs codes = (codes, map (count_words xs) codes)

hashed_counts-missed :
    (slot : List (ℕ × ℕ)) (out : Counts) (c : ℕ) (cs : List ℕ)
    → find_slot c slot ≡ none
    → hashed_counts slot out (c ∷ cs)
      ≡ hashed_counts ((c, length out.0) ∷ slot) (out.0 ++ c ∷ [], out.1 ++ 1 ∷ []) cs
unfolding hashed_counts
hashed_counts-missed slot out c cs e = rw (hashed_counts, e) refl

hashed_counts-found :
    (slot : List (ℕ × ℕ)) (out : Counts) (c k : ℕ) (cs : List ℕ)
    → find_slot c slot ≡ some k
    → hashed_counts slot out (c ∷ cs) ≡ hashed_counts slot (out.0, increment out.1 k) cs
unfolding hashed_counts
hashed_counts-found slot out c k cs e = rw (hashed_counts, e) refl

hashed_counts-lem :
    (bound : ℕ) (cs before order : List ℕ) (slot : List (ℕ × ℕ))
    → AllBelow bound cs
    → Tracks bound before order (λ x. find_slot x slot)
    → hashed_counts slot (order, map (count_words before) order) cs ≡ counted before order cs
unfolding hashed_counts
hashed_counts-lem bound [] before order slot small tracks = counted-nil before order
hashed_counts-lem bound (c ∷ cs) before order slot small tracks =
    elim (Option-cases (find_slot c slot)) [
      | inl e ↦
          let new = tracks.fresh c small.0 e in
          let step =
            hashed_counts-lem bound cs (before ++ c ∷ []) (order ++ c ∷ [])
              ((c, length order) ∷ slot) small.1
              (new-Tracks before c bound order (λ x. find_slot x slot) small.0 tracks
                (λ x. find_slot x ((c, length order) ∷ slot)) e (self_found c (length order) slot)
                (λ x p ne. other_found c x (length order) slot ne)) in
          hashed_counts-missed slot (order, map (count_words before) order) c cs e
          ∙ ap (λ n. hashed_counts ((c, length order) ∷ slot) (order ++ c ∷ [], n) cs)
              (append-counts before c order new.0 new.1)
          ∙ step
          ∙ counted-new before order c cs new.1
      | inr (k, e) ↦
          let old = tracks.known c k small.0 e in
          hashed_counts-found slot (order, map (count_words before) order) c k cs e
          ∙ ap (λ n. hashed_counts slot (order, n) cs)
              (increment-counts before c order k tracks.distinct old.0 old.1)
          ∙ hashed_counts-lem bound cs (before ++ c ∷ []) order slot small.1
              (old-Tracks before c bound order (λ x. find_slot x slot) small.0 tracks k e)
          ∙ counted-old before order c cs old.2
    ]
  where
    self_found : (d k : ℕ) (entries : List (ℕ × ℕ)) → find_slot d ((d, k) ∷ entries) ≡ some k
    self_found d k entries = unfold find_slot in ground arith

    other_found :
        (d x k : ℕ) (entries : List (ℕ × ℕ))
        → d ≢ x
        → find_slot x ((d, k) ∷ entries) ≡ find_slot x entries
    other_found d x k entries ne = unfold find_slot in ground (arith, ne)

-- The position that a table's entry stands for.
abbrev entry : ℕ → Option ℕ
entry s = if s == 0 then none else some (s - 1)

entry-suc : (n : ℕ) → entry (n + 1) ≡ some n
entry-suc n =
    let e : n + 1 - 1 ≡ n = omega arith in
    let f : (n + 1 == 0) ≡ false = ground arith in rw f (ap some e)

dense_counts-lem :
    (cs before order slot : List ℕ)
    → AllBelow (length slot) cs
    → Tracks (length slot) before order (λ x. entry (get_or slot x 0))
    → dense_counts slot (order, map (count_words before) order) cs ≡ counted before order cs
unfolding dense_counts
dense_counts-lem [] before order slot small tracks = counted-nil before order
dense_counts-lem (c ∷ cs) before order slot small tracks =
    elim (Bool-cases (get_or slot c 0 == 0)) [
      | inl unseen ↦
          let at = λ (x : ℕ). entry (get_or slot x 0) in
          let e : at c ≡ none = rw unseen refl in
          let new = tracks.fresh c small.0 e in
          let n = length order + 1 in
          let size : length (set slot c n) ≡ length slot = length-set n 0 slot c in
          let next : Tracks (length slot) (before ++ c ∷ []) (order ++ c ∷ [])
              (λ x. entry (get_or (set slot c n) x 0)) =
            new-Tracks before c (length slot) order at small.0 tracks
              (λ x. entry (get_or (set slot c n) x 0)) e
              (ap entry (get_or-set_self n 0 slot c small.0) ∙ entry-suc (length order))
              (λ x p ne. ap entry (get_or-set_ne n 0 slot c x ne)) in
          rw unseen (
            ap (λ m. dense_counts (set slot c n) (order ++ c ∷ [], m) cs)
              (append-counts before c order new.0 new.1)
            ∙ dense_counts-lem cs (before ++ c ∷ []) (order ++ c ∷ []) (set slot c n)
                (subst (λ b. AllBelow b cs) (sym size) small.1)
                (subst
                  (λ b.
                    Tracks b (before ++ c ∷ []) (order ++ c ∷ [])
                      (λ x. entry (get_or (set slot c n) x 0)))
                  (sym size) next)
            ∙ counted-new before order c cs new.1)
      | inr seen ↦
          let at = λ (x : ℕ). entry (get_or slot x 0) in
          let k = get_or slot c 0 - 1 in
          let e : at c ≡ some k = rw seen refl in
          let old = tracks.known c k small.0 e in
          rw seen (
            ap (λ m. dense_counts slot (order, m) cs)
              (increment-counts before c order k tracks.distinct old.0 old.1)
            ∙ dense_counts-lem cs (before ++ c ∷ []) order slot small.1
                (old-Tracks before c (length slot) order at small.0 tracks k e)
            ∙ counted-old before order c cs old.2)
    ]

empty-Tracks : (bound : ℕ) (at : ℕ → Option ℕ) → ((x : ℕ) → at x ≡ none) → Tracks bound [] [] at
unfolding count_words
empty-Tracks bound at nowhere = record {
  known = λ x k p e. absurd (let f = sym (nowhere x) ∙ e in cc);
  fresh = λ x p e. (tt, refl);
  distinct = tt;
}

-- The codes come out each once, at its first occurrence, and beside each the number of its
-- occurrences in the column, whether they are counted through a table or through a hash map.
pub value_counts-eq-counted :
    (codes : List ℕ)
    → value_counts codes ≡ (first_seen [] codes, map (count_words codes) (first_seen [] codes))
unfolding value_counts max_code
value_counts-eq-counted [] = unfold first_seen in refl
value_counts-eq-counted (c ∷ cs) =
    let top = fold_max cs c in
    let bound = fold_max-AllBelow cs c in
    let small : AllBelow (top + 1) (c ∷ cs) = (omega (arith, bound.0), bound.1) in
    let table : List ℕ = replicate (top + 1) 0 in
    let size : length table ≡ top + 1 = length-replicate (top + 1) 0 in
    let wide : AllBelow (length table) (c ∷ cs) =
      subst (λ n. AllBelow n (c ∷ cs)) (sym size) small in
    let nowhere : Tracks (length table) [] [] (λ x. entry (get_or table x 0)) =
      empty-Tracks (length table) (λ x. entry (get_or table x 0))
        (λ x. ap entry (get_or-replicate 0 (top + 1) x)) in
    elim (Bool-cases (dense_table_fits top (length (c ∷ cs)))) [
      | inl dense ↦ rw dense (dense_counts-lem (c ∷ cs) [] [] table wide nowhere)
      | inr sparse ↦ rw sparse (
          hashed_counts-lem (top + 1) (c ∷ cs) [] [] [] small
            (empty-Tracks (top + 1) (λ x. find_slot x []) (λ x. unfold find_slot in refl)))
    ]
