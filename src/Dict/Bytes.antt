-- ===== src/Dict/Bytes.antt =====
-- Byte strings in byte order, as `Ord` on `[u8]` compares them, and the prefixes of
-- core/src/store/layouts/dictionary/term_dict.rs (`prefix_successor`).
use Prim.Native.Nat.{compare, Ordering}
use vortex_rdf.Prelude.{
  ℕ, zero, suc, ◌+◌, ◌≡◌, refl, Bool, true, false, ◌&&◌, List, [], ◌∷◌, Option, none, some,
  if◌then◌else◌, arith, ◌==◌, length, get_or, take,
}
use vortex_rdf.Prelude.Arrays.{set}

abbrev pub Text : Type 0
Text = List ℕ

abbrev pub then_cmp : Ordering → Ordering → Ordering
then_cmp Ordering.lt rest = Ordering.lt
then_cmp Ordering.eq rest = rest
then_cmp Ordering.gt rest = Ordering.gt

unfoldable pub text_cmp : Text → Text → Ordering
text_cmp [] [] = Ordering.eq
text_cmp [] (y ∷ ys) = Ordering.lt
text_cmp (x ∷ xs) [] = Ordering.gt
text_cmp (x ∷ xs) (y ∷ ys) = then_cmp (compare x y) (text_cmp xs ys)

abbrev pub is_lt : Ordering → Bool
is_lt Ordering.lt = true
is_lt Ordering.eq = false
is_lt Ordering.gt = false

abbrev pub text_ltb : Text → Text → Bool
text_ltb a b = is_lt (text_cmp a b)

abbrev pub Less : Text → Text → Type 0
Less a b = text_cmp a b ≡ Ordering.lt

pub text_cmp_refl : (a : Text) → text_cmp a a ≡ Ordering.eq
unfolding text_cmp
text_cmp_refl [] = refl
text_cmp_refl (x ∷ xs) = ground (arith, text_cmp_refl xs)

pub text_cmp-eq : (a b : Text) → text_cmp a b ≡ Ordering.eq → a ≡ b
unfolding text_cmp
text_cmp-eq [] [] h = refl
text_cmp-eq [] (y ∷ ys) h = cc
text_cmp-eq (x ∷ xs) [] h = cc
text_cmp-eq (x ∷ xs) (y ∷ ys) h = ground (arith, text_cmp-eq xs ys)

pub text_cmp-swap : (a b : Text) → text_cmp a b ≡ Ordering.gt → Less b a
unfolding text_cmp
text_cmp-swap [] [] h = cc
text_cmp-swap [] (y ∷ ys) h = cc
text_cmp-swap (x ∷ xs) [] h = refl
text_cmp-swap (x ∷ xs) (y ∷ ys) h = ground (arith, text_cmp-swap xs ys)

pub Less-swap : (a b : Text) → Less a b → text_cmp b a ≡ Ordering.gt
unfolding text_cmp
Less-swap [] [] h = cc
Less-swap [] (y ∷ ys) h = refl
Less-swap (x ∷ xs) [] h = cc
Less-swap (x ∷ xs) (y ∷ ys) h = ground (arith, Less-swap xs ys)

pub Less-trans : (a b c : Text) → Less a b → Less b c → Less a c
unfolding text_cmp
Less-trans [] [] c p q = cc
Less-trans [] (y ∷ ys) [] p q = cc
Less-trans [] (y ∷ ys) (z ∷ zs) p q = refl
Less-trans (x ∷ xs) [] c p q = cc
Less-trans (x ∷ xs) (y ∷ ys) [] p q = cc
Less-trans (x ∷ xs) (y ∷ ys) (z ∷ zs) p q = ground (arith, Less-trans xs ys zs)

unfoldable pub starts_with : Text → Text → Bool
starts_with [] t = true
starts_with (p ∷ ps) [] = false
starts_with (p ∷ ps) (x ∷ xs) = (p == x) && starts_with ps xs

-- The end of the prefix with its trailing 0xFF bytes dropped.
unfoldable pub stripped_end : Text → ℕ → ℕ
stripped_end prefix zero = zero
stripped_end prefix (suc end) =
    let less = stripped_end prefix end in if get_or prefix end 0 == 0xFF then less else suc end

unfoldable pub incremented : Text → ℕ → Option Text
incremented prefix zero = none
incremented prefix (suc last) =
    some (set (take (suc last) prefix) last (get_or (take (suc last) prefix) last 0 + 1))

-- `prefix_successor`.
unfoldable pub prefix_successor : Text → Option Text
unfolding stripped_end incremented
prefix_successor prefix = incremented prefix (stripped_end prefix (length prefix))
