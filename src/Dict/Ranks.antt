-- ===== src/Dict/Ranks.antt =====
-- core/src/store/layouts/dictionary: the ranks of the sorted terms, and the windows that hold them.
use Prim.Native.Nat.{Ordering}
use vortex_rdf.Prelude.{
  ℕ, zero, suc, ◌≤◌, ◌<◌, ◌≡◌, refl, ap, sym, ◌∙◌, Bool, true, false, ◌||◌, inl, inr, List, [], ◌∷◌,
  ◌++◌, Option, none, some, arith, Bool-cases, leb, length, get_or, take, drop, take-append-drop,
  length-drop,
}
use vortex_rdf.Dict.Bytes.{Text, text_cmp, text_cmp_refl, text_cmp-eq}
use vortex_rdf.Dict.Searches.{Ordering-cases}
use vortex_rdf.Dict.Chunks.{flat}
use vortex_rdf.Dict.Terms.{map_option}
use vortex_rdf.Dict.Encode.{insert_term, windows_of, compress_windowed, rank_in}

windows_of-flat :
    (fuel window : ℕ) (xs : List Text)
    → 0 < window
    → length xs ≤ fuel
    → flat (windows_of fuel window xs) ≡ xs
unfolding windows_of
windows_of-flat zero window [] pos h = refl
windows_of-flat zero window (x ∷ xs) pos h = absurd (omega arith)
windows_of-flat (suc fuel) window [] pos h = refl
windows_of-flat (suc fuel) window (x ∷ xs) pos h =
    ap (λ rest. take window (x ∷ xs) ++ rest)
      (windows_of-flat fuel window (drop window (x ∷ xs)) pos
        (omega (arith, length-drop window (x ∷ xs))))
    ∙ take-append-drop window (x ∷ xs)

append-nil_terms : (xs : List Text) → xs ++ [] ≡ xs
append-nil_terms [] = refl
append-nil_terms (x ∷ xs) = ap (λ ys. x ∷ ys) (append-nil_terms xs)

-- The windows of a column laid end to end are the column.
pub compress_windowed-flat :
    (xs : List Text) (window : ℕ) → 0 < window → flat (compress_windowed xs window) ≡ xs
unfolding compress_windowed
compress_windowed-flat [] window pos = refl
compress_windowed-flat (x ∷ xs) window pos = elim (Bool-cases (leb (length (x ∷ xs)) window)) [
  | inl one ↦ rw one (append-nil_terms (x ∷ xs))
  | inr more ↦ rw more (windows_of-flat (length (x ∷ xs)) window (x ∷ xs) pos (omega arith))
]

abbrev pub is_eq : Ordering → Bool
is_eq Ordering.lt = false
is_eq Ordering.eq = true
is_eq Ordering.gt = false

abbrev pub is_some : Option ℕ → Bool
is_some none = false
is_some (some r) = true

unfoldable pub held : Text → List Text → Bool
held t xs = is_some (rank_in t xs)

is_some-map_option : (f : ℕ → ℕ) (o : Option ℕ) → is_some (map_option f o) ≡ is_some o
is_some-map_option f none = refl
is_some-map_option f (some r) = refl

held-cons : (t x : Text) (xs : List Text) → held t (x ∷ xs) ≡ is_eq (text_cmp t x) || held t xs
unfolding held rank_in
held-cons t x xs = elim (Ordering-cases (text_cmp t x)) [
  | inl e ↦ rw e (is_some-map_option (λ r. suc r) (rank_in t xs))
  | inr (inl e) ↦ rw e refl
  | inr (inr e) ↦ rw e (is_some-map_option (λ r. suc r) (rank_in t xs))
]

or_twice : (b c : Bool) → b || c ≡ b || (b || c)
or_twice true c = refl
or_twice false c = refl

or_swap : (b c d : Bool) → b || (c || d) ≡ c || (b || d)
or_swap true true d = refl
or_swap true false d = refl
or_swap false true d = refl
or_swap false false d = refl

-- A term put into a list is held by it, beside those held before.
pub held-insert_term :
    (t u : Text) (xs : List Text) → held t (insert_term u xs) ≡ is_eq (text_cmp t u) || held t xs
unfolding insert_term
held-insert_term t u [] = held-cons t u []
held-insert_term t u (x ∷ xs) = elim (Ordering-cases (text_cmp u x)) [
  | inl e ↦ rw e (held-cons t u (x ∷ xs))
  | inr (inl e) ↦
      let same : u ≡ x = text_cmp-eq u x e in
      rw (e, same)
        (held-cons t x xs
          ∙ or_twice (is_eq (text_cmp t x)) (held t xs)
          ∙ ap (λ b. is_eq (text_cmp t x) || b) (sym (held-cons t x xs)))
  | inr (inr e) ↦ rw e (
      held-cons t x (insert_term u xs)
      ∙ ap (λ b. is_eq (text_cmp t x) || b) (held-insert_term t u xs)
      ∙ or_swap (is_eq (text_cmp t x)) (is_eq (text_cmp t u)) (held t xs)
      ∙ ap (λ b. is_eq (text_cmp t u) || b) (sym (held-cons t x xs)))
]

pub held-insert_term_self : (t : Text) (xs : List Text) → held t (insert_term t xs) ≡ true
held-insert_term_self t xs =
    held-insert_term t t xs ∙ ap (λ o. is_eq o || held t xs) (text_cmp_refl t)

or_right : (b c : Bool) → c ≡ true → b || c ≡ true
or_right true c h = refl
or_right false c h = h

pub held-insert_term_other :
    (t u : Text) (xs : List Text) → held t xs ≡ true → held t (insert_term u xs) ≡ true
held-insert_term_other t u xs h =
    held-insert_term t u xs ∙ or_right (is_eq (text_cmp t u)) (held t xs) h

-- The rank of a held term, and the term at it.
pub rank_in-held :
    (t : Text) (xs : List Text)
    → held t xs ≡ true
    → (r : ℕ) × (rank_in t xs ≡ some r) × (r < length xs) × (get_or xs r [] ≡ t)
unfolding rank_in
rank_in-held t [] h = unfold held rank_in in absurd (cc h)
rank_in-held t (x ∷ xs) h =
    let split : is_eq (text_cmp t x) || held t xs ≡ true = sym (held-cons t x xs) ∙ h in
    elim (Ordering-cases (text_cmp t x)) [
      | inl e ↦
          let (r, found, inside, same) =
            rank_in-held t xs (sym (ap (λ o. is_eq o || held t xs) e) ∙ split) in
          (suc r, rw e (ap (map_option (λ k. suc k)) found), omega arith, same)
      | inr (inl e) ↦ (0, rw e refl, omega arith, sym (text_cmp-eq t x e))
      | inr (inr e) ↦
          let (r, found, inside, same) =
            rank_in-held t xs (sym (ap (λ o. is_eq o || held t xs) e) ∙ split) in
          (suc r, rw e (ap (map_option (λ k. suc k)) found), omega arith, same)
    ]
