-- ===== src/Prelude/Arrays.antt =====
-- Vectors that are written in place, as lists.
use Prim.Native.Nat.{ℕ, zero, suc, ◌+◌, ◌<◌, ◌≤◌}
use mathlib.Core.Path.{◌≡◌, refl, ap}
use mathlib.Core.Logic.{◌≢◌}
use mathlib.Core.List.{List, [], ◌∷◌, map}
use native.Mathlib.Omega.{arith}
use vortex_rdf.Prelude.Lists.{length, get_or, take, replicate, range_from}

-- `v[i] = a`; the program never writes past the end.
abbrev pub set {ℓ} : {A : Type ℓ} → List A → ℕ → A → List A
set [] i a = []
set (x ∷ xs) zero a = a ∷ xs
set (x ∷ xs) (suc i) a = x ∷ set xs i a

module _ {ℓ} {A : Type ℓ} (a d : A) where
  pub length-set : (xs : List A) (i : ℕ) → length (set xs i a) ≡ length xs
  length-set [] i = refl
  length-set (x ∷ xs) zero = refl
  length-set (x ∷ xs) (suc i) = ap suc (length-set xs i)

  pub get_or-set_self : (xs : List A) (i : ℕ) → i < length xs → get_or (set xs i a) i d ≡ a
  get_or-set_self [] i h = absurd (omega arith)
  get_or-set_self (x ∷ xs) zero h = refl
  get_or-set_self (x ∷ xs) (suc i) h = get_or-set_self xs i (omega arith)

  pub get_or-set_ne : (xs : List A) (i j : ℕ) → i ≢ j → get_or (set xs i a) j d ≡ get_or xs j d
  get_or-set_ne [] i j h = refl
  get_or-set_ne (x ∷ xs) zero zero h = absurd (h refl)
  get_or-set_ne (x ∷ xs) zero (suc j) h = refl
  get_or-set_ne (x ∷ xs) (suc i) zero h = refl
  get_or-set_ne (x ∷ xs) (suc i) (suc j) h = get_or-set_ne xs i j (λ e. h (ap suc e))

module _ {ℓ} {A : Type ℓ} (d : A) where
  pub get_or-take : (n : ℕ) (xs : List A) (i : ℕ) → i < n → get_or (take n xs) i d ≡ get_or xs i d
  get_or-take zero xs i h = absurd (omega arith)
  get_or-take (suc n) [] i h = refl
  get_or-take (suc n) (x ∷ xs) zero h = refl
  get_or-take (suc n) (x ∷ xs) (suc i) h = get_or-take n xs i (omega arith)

  pub get_or-replicate : (n i : ℕ) → get_or (replicate n d) i d ≡ d
  get_or-replicate zero i = refl
  get_or-replicate (suc n) zero = refl
  get_or-replicate (suc n) (suc i) = get_or-replicate n i

-- Functions that agree on a stretch of indices read the same values there.
pub map-range_from {ℓ} :
    {A : Type ℓ} (f g : ℕ → A) (start n : ℕ)
    → ((i : ℕ) → start ≤ i → i < start + n → f i ≡ g i)
    → map f (range_from start n) ≡ map g (range_from start n)
map-range_from f g start zero same = refl
map-range_from f g start (suc n) same = λ i.
    same start (omega arith) (omega arith) i
    ∷ map-range_from f g (suc start) n (λ k p q. same k (omega arith) (omega arith)) i
