-- ===== src/Columns/Counted.antt =====
-- core/src/columns/mod.rs, `value_counts`: the table and the hash map count alike.
use vortex_rdf.Prelude.{
  ℕ, zero, suc, ◌+◌, ◌<◌, ◌≡◌, refl, sym, ap, subst, ◌∙◌, ◌≢◌, false, inl, inr, Option, none, some,
  List, [], ◌∷◌, ◌++◌, map, arith, Bool-cases, ◌==◌, ==_iff, length, get_or, length-append,
}
use vortex_rdf.Search.Sinks.{count_words, flag}
use vortex_rdf.Columns.Slots.{Missing}
use vortex_rdf.Columns.Distinct.{increment}
use vortex_rdf.Columns.FirstSeen.{count_words-last}

abbrev pub AreDistinct : List ℕ → Type 0
AreDistinct [] = Unit {0}
AreDistinct (x ∷ xs) = Missing x xs × AreDistinct xs

-- `at` finds the position in `order` of each code that occurred before.
pub record Tracks (bound : ℕ) (before order : List ℕ) (at : ℕ → Option ℕ) : Type 0 where
  pub known :
      (x k : ℕ)
      → x < bound
      → at x ≡ some k
      → (k < length order) × (get_or order k 0 ≡ x) × (0 < count_words before x)
  pub fresh : (x : ℕ) → x < bound → at x ≡ none → Missing x order × (count_words before x ≡ 0)
  pub distinct : AreDistinct order

Missing-get_or : (x k : ℕ) (xs : List ℕ) → Missing x xs → k < length xs → get_or xs k 0 ≢ x
Missing-get_or x k [] h p = absurd (omega arith)
Missing-get_or x zero (y ∷ xs) h p = h.0
Missing-get_or x (suc k) (y ∷ xs) h p = Missing-get_or x k xs h.1 (omega arith)

Missing-append : (x c : ℕ) (xs : List ℕ) → Missing x xs → c ≢ x → Missing x (xs ++ c ∷ [])
Missing-append x c [] h p = (p, tt)
Missing-append x c (y ∷ xs) h p = (h.0, Missing-append x c xs h.1 p)

AreDistinct-append :
    (c : ℕ) (xs : List ℕ) → Missing c xs → AreDistinct xs → AreDistinct (xs ++ c ∷ [])
AreDistinct-append c [] h d = (tt, tt)
AreDistinct-append c (x ∷ xs) h d =
    (Missing-append x c xs d.0 (λ e. h.0 (sym e)), AreDistinct-append c xs h.1 d.1)

get_or-append : (k : ℕ) (xs ys : List ℕ) → k < length xs → get_or (xs ++ ys) k 0 ≡ get_or xs k 0
get_or-append k [] ys p = absurd (omega arith)
get_or-append zero (x ∷ xs) ys p = refl
get_or-append (suc k) (x ∷ xs) ys p = get_or-append k xs ys (omega arith)

get_or-last : (xs : List ℕ) (c : ℕ) → get_or (xs ++ c ∷ []) (length xs) 0 ≡ c
get_or-last [] c = refl
get_or-last (x ∷ xs) c = get_or-last xs c

-- One more `c` behind the codes before.
module _ (before : List ℕ) (c : ℕ) where
  abbrev pub after : List ℕ
  after = before ++ c ∷ []

  count_other : (x : ℕ) → c ≢ x → count_words after x ≡ count_words before x
  count_other x p =
      let miss : (c == x) ≡ false = elim (Bool-cases (c == x)) [
        | inl hit ↦ absurd (p ((==_iff c x).0 hit))
        | inr miss ↦ miss
      ] in
      omega (arith, count_words-last before c x, ap flag miss)

  count_here : count_words after c ≡ suc (count_words before c)
  count_here = omega (arith, count_words-last before c c, ap flag ((==_iff c c).1 refl))

  counts-Missing :
      (order : List ℕ)
      → Missing c order
      → map (count_words before) order ≡ map (count_words after) order
  counts-Missing [] h = refl
  counts-Missing (x ∷ order) h =
      λ i. sym (count_other x (λ e. h.0 (sym e))) i ∷ counts-Missing order h.1 i

  pub increment-counts :
      (order : List ℕ) (k : ℕ)
      → AreDistinct order
      → k < length order
      → get_or order k 0 ≡ c
      → increment (map (count_words before) order) k ≡ map (count_words after) order
  increment-counts [] k d p e = absurd (omega arith)
  increment-counts (x ∷ order) zero d p e =
      let here : count_words before x + 1 ≡ count_words after x =
        omega (arith, count_here, ap (count_words before) e, ap (count_words after) e) in
      λ i. here i ∷ counts-Missing order (subst (λ y. Missing y order) e d.0) i
  increment-counts (x ∷ order) (suc k) d p e =
      let other : c ≢ x = λ f. Missing-get_or x k order d.0 (omega arith) (e ∙ f) in
      λ i. sym (count_other x other) i ∷ increment-counts order k d.1 (omega arith) e i

  pub append-counts :
      (order : List ℕ)
      → Missing c order
      → count_words before c ≡ 0
      → map (count_words before) order ++ 1 ∷ [] ≡ map (count_words after) (order ++ c ∷ [])
  append-counts [] h z =
      let e : 1 ≡ count_words after c = omega (arith, count_here, z) in λ i. e i ∷ []
  append-counts (x ∷ order) h z =
      λ i. sym (count_other x (λ e. h.0 (sym e))) i ∷ append-counts order h.1 z i

  module _ (bound : ℕ) (order : List ℕ) (at : ℕ → Option ℕ) (small : c < bound)
      (tracks : Tracks bound before order at) where
    pub old-Tracks : (k : ℕ) → at c ≡ some k → Tracks bound after order at
    old-Tracks k e = record {
      known = λ x j p f.
          let h = tracks.known x j p f in
          (h.0, h.1, omega (arith, h.2, count_words-last before c x));
      fresh = λ x p f.
          let h = tracks.fresh x p f in
          let other : c ≢ x = λ same. absurd (let g = sym e ∙ ap at same ∙ f in cc) in
          (h.0, omega (arith, h.1, count_other x other));
      distinct = tracks.distinct;
    }

    pub new-Tracks :
        (next : ℕ → Option ℕ)
        → at c ≡ none
        → next c ≡ some (length order)
        → ((x : ℕ) → x < bound → c ≢ x → next x ≡ at x)
        → Tracks bound after (order ++ c ∷ []) next
    new-Tracks next e here others =
        let new = tracks.fresh c small e in
        let size : length (order ++ c ∷ []) ≡ suc (length order) =
          omega (arith, length-append order (c ∷ [])) in
        record {
          known = λ x j p f. elim (Bool-cases (c == x)) [
            | inl same ↦
                let g : c ≡ x = (==_iff c x).0 same in
                let at_end : some j ≡ some (length order) = sym f ∙ ap next (sym g) ∙ here in
                let je : j ≡ length order = cc in
                (
                  omega (arith, je, size),
                  ap (λ i. get_or (order ++ c ∷ []) i 0) je ∙ get_or-last order c ∙ g,
                  omega (arith, count_here, ap (count_words after) g),
                )
            | inr other ↦
                let ne : c ≢ x = λ g. absurd (ground (arith, g, other)) in
                let h = tracks.known x j p (sym (others x p ne) ∙ f) in
                (
                  omega (arith, h.0, size),
                  get_or-append j order (c ∷ []) h.0 ∙ h.1,
                  omega (arith, h.2, count_other x ne),
                )
          ];
          fresh = λ x p f.
              let ne : c ≢ x = λ g. absurd (let k = sym here ∙ ap next g ∙ f in cc) in
              let h = tracks.fresh x p (sym (others x p ne) ∙ f) in
              (Missing-append x c order h.0 ne, omega (arith, h.1, count_other x ne));
          distinct = AreDistinct-append c order new.0 tracks.distinct;
        }
