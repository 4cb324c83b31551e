-- ===== src/Prelude/Fallible.antt =====
-- `Result`: a value or an error, and the first error of a list of results.
use mathlib.Core.List.{List, [], ◌∷◌}

pub data Result {ℓ κ} (E : Type ℓ) (A : Type κ) : Type (ℓ ⊔ κ) where
  ok : A → Result E A
  err : E → Result E A

infixl 5 ◌>>=◌
abbrev pub ◌>>=◌ {ℓ κ υ} :
    {E : Type ℓ} {A : Type κ} {B : Type υ} → Result E A → (A → Result E B) → Result E B
ok a >>= f = f a
err e >>= f = err e

-- The values of a list of results, or the first error (`collect` into a `Result`, or `?` in a loop).
abbrev pub prepend {ℓ κ} : {E : Type ℓ} {A : Type κ} → A → Result E (List A) → Result E (List A)
prepend a (ok as') = ok (a ∷ as')
prepend a (err e) = err e

abbrev pub collect {ℓ κ} : {E : Type ℓ} {A : Type κ} → List (Result E A) → Result E (List A)
collect [] = ok []
collect (ok a ∷ rest) = prepend a (collect rest)
collect (err e ∷ rest) = err e
