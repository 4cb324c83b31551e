-- ===== src/Dict/Prefix.antt =====
-- core/src/store/layouts/dictionary/term_dict.rs, `prefix_successor`: the strings with a prefix are
-- those from the prefix up to its successor.
use vortex_rdf.Prelude.{
  ℕ, zero, suc, ◌+◌, ◌<◌, ◌≡◌, refl, ap, ◌∙◌, Bool, true, false, not, ◌&&◌, inl, inr, [], ◌∷◌,
  Option, none, some, if◌then◌else◌, arith, Bool-cases, ◌==◌, length, get_or,
}
use vortex_rdf.Dict.Bytes.{
  Text, text_cmp, text_ltb, starts_with, stripped_end, incremented, prefix_successor,
}

abbrev pub AllBytes : Text → Type 0
AllBytes [] = Unit {0}
AllBytes (x ∷ xs) = (x < 256) × AllBytes xs

-- The stripped end behind one more byte in front.
shift : ℕ → ℕ → ℕ
shift b zero = if b == 0xFF then 0 else 1
shift b (suc k) = suc (suc k)

stripped_end-cons :
    (b : ℕ) (rest : Text) (e : ℕ) → stripped_end (b ∷ rest) (suc e) ≡ shift b (stripped_end rest e)
unfolding stripped_end shift
stripped_end-cons b rest zero = refl
stripped_end-cons b rest (suc e) = elim (Bool-cases (get_or rest e 0 == 0xFF)) [
  | inl full ↦ rw full (stripped_end-cons b rest e)
  | inr other ↦ rw other refl
]

-- The successor by recursion on the prefix.
next : ℕ → Option Text → Option Text
next b none = if b == 0xFF then none else some ((b + 1) ∷ [])
next b (some rest) = some (b ∷ rest)

incremented-shift :
    (b : ℕ) (rest : Text) (k : ℕ) → incremented (b ∷ rest) (shift b k) ≡ next b (incremented rest k)
unfolding incremented shift next
incremented-shift b rest zero = elim (Bool-cases (b == 0xFF)) [
  | inl full ↦ rw full refl
  | inr other ↦ rw other refl
]
incremented-shift b rest (suc k) = refl

prefix_successor-cons :
    (b : ℕ) (rest : Text) → prefix_successor (b ∷ rest) ≡ next b (prefix_successor rest)
unfolding prefix_successor
prefix_successor-cons b rest =
    ap (incremented (b ∷ rest)) (stripped_end-cons b rest (length rest))
    ∙ incremented-shift b rest (stripped_end rest (length rest))

-- Below the end of a range that has none when it reaches past every string.
abbrev pub below_end : Text → Option Text → Bool
below_end t none = true
below_end t (some end) = text_ltb t end

is_lt-nil : (t : Text) → text_ltb t [] ≡ false
unfolding text_cmp
is_lt-nil [] = refl
is_lt-nil (x ∷ xs) = refl

below-next :
    (b x : ℕ) (p xs : Text) (o : Option Text)
    → x < 256
    → starts_with p xs ≡ not (text_ltb xs p) && below_end xs o
    → starts_with (b ∷ p) (x ∷ xs)
      ≡ not (text_ltb (x ∷ xs) (b ∷ p)) && below_end (x ∷ xs) (next b o)
unfolding starts_with text_cmp next
below-next b x p xs none small ih = elim (Bool-cases (b == 0xFF)) [
  | inl full ↦ ground (arith, full, ih, is_lt-nil xs)
  | inr other ↦ ground (arith, other, ih, is_lt-nil xs)
]
below-next b x p xs (some end) small ih = ground (arith, ih)

below-next_nil :
    (b : ℕ) (p : Text) (o : Option Text)
    → starts_with (b ∷ p) [] ≡ not (text_ltb [] (b ∷ p)) && below_end [] o
unfolding starts_with text_cmp
below-next_nil b p o = refl

-- A string of bytes starts with a prefix exactly when it is not below the prefix and, where the
-- prefix has a successor, below that.
pub starts_with-prefix_successor :
    (prefix t : Text)
    → AllBytes t
    → starts_with prefix t ≡ not (text_ltb t prefix) && below_end t (prefix_successor prefix)
starts_with-prefix_successor [] t bytes =
    unfold starts_with prefix_successor in rw (is_lt-nil t) refl
starts_with-prefix_successor (b ∷ p) [] bytes = below-next_nil b p (prefix_successor (b ∷ p))
starts_with-prefix_successor (b ∷ p) (x ∷ xs) bytes =
    rw (prefix_successor-cons b p)
      (below-next b x p xs (prefix_successor p) bytes.0 (starts_with-prefix_successor p xs bytes.1))
