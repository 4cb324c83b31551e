-- ===== src/Prelude/Lists.antt =====
-- Lists measured and indexed by native numbers, under the library's names.
use Prim.Native.Nat.{ℕ, zero, suc, ◌+◌, ◌-◌, ◌≤◌, min}
use mathlib.Core.Path.{◌≡◌, refl, sym, ap, ◌∙◌}
use mathlib.Core.List.{List, [], ◌∷◌, ◌++◌, map}
use mathlib.Core.Option.{Option, none, some}
use native.Mathlib.Omega.{arith}

module _ {ℓ} {A : Type ℓ} where
  abbrev pub length : List A → ℕ
  length [] = 0
  length (x ∷ xs) = suc (length xs)

  abbrev pub get_elem? : List A → ℕ → Option A
  get_elem? [] i = none
  get_elem? (x ∷ xs) zero = some x
  get_elem? (x ∷ xs) (suc i) = get_elem? xs i

  abbrev pub get_or : List A → ℕ → A → A
  get_or [] i d = d
  get_or (x ∷ xs) zero d = x
  get_or (x ∷ xs) (suc i) d = get_or xs i d

  abbrev pub take : ℕ → List A → List A
  take zero xs = []
  take (suc n) [] = []
  take (suc n) (x ∷ xs) = x ∷ take n xs

  abbrev pub drop : ℕ → List A → List A
  drop zero xs = xs
  drop (suc n) [] = []
  drop (suc n) (x ∷ xs) = drop n xs

  abbrev pub replicate : ℕ → A → List A
  replicate zero a = []
  replicate (suc n) a = a ∷ replicate n a

  pub length-append : (xs ys : List A) → length (xs ++ ys) ≡ length xs + length ys
  length-append [] ys = omega arith
  length-append (x ∷ xs) ys = omega (arith, length-append xs ys)

  pub take-append-drop : (n : ℕ) (xs : List A) → take n xs ++ drop n xs ≡ xs
  take-append-drop zero xs = refl
  take-append-drop (suc n) [] = refl
  take-append-drop (suc n) (x ∷ xs) = rw (take-append-drop n xs)

  pub length-take : (n : ℕ) (xs : List A) → length (take n xs) ≡ min n (length xs)
  length-take zero xs = omega arith
  length-take (suc n) [] = omega arith
  length-take (suc n) (x ∷ xs) = omega (arith, length-take n xs)

  pub length-drop : (n : ℕ) (xs : List A) → length (drop n xs) ≡ length xs - n
  length-drop zero xs = omega arith
  length-drop (suc n) [] = omega arith
  length-drop (suc n) (x ∷ xs) = omega (arith, length-drop n xs)

  pub take-all : (n : ℕ) (xs : List A) → length xs ≤ n → take n xs ≡ xs
  take-all zero [] h = refl
  take-all zero (x ∷ xs) h = absurd (omega arith)
  take-all (suc n) [] h = refl
  take-all (suc n) (x ∷ xs) h = ap (λ ys. x ∷ ys) (take-all n xs (omega arith))

  pub drop-all : (n : ℕ) (xs : List A) → length xs ≤ n → drop n xs ≡ []
  drop-all zero [] h = refl
  drop-all zero (x ∷ xs) h = absurd (omega arith)
  drop-all (suc n) [] h = refl
  drop-all (suc n) (x ∷ xs) h = drop-all n xs (omega arith)

  -- Bounds past the end take and drop what the end does.
  pub take-min : (n : ℕ) (xs : List A) (m : ℕ) → m ≡ min n (length xs) → take m xs ≡ take n xs
  take-min zero xs m e = let z : m ≡ 0 = omega (arith, e) in ap (λ k. take k xs) z
  take-min (suc n) [] m e = let z : m ≡ 0 = omega (arith, e) in ap (λ k. take k []) z
  take-min (suc n) (x ∷ xs) m e =
      let z : m ≡ suc (m - 1) = omega (arith, e) in
      ap (λ k. take k (x ∷ xs)) z ∙ ap (λ ys. x ∷ ys) (take-min n xs (m - 1) (omega (arith, e)))

  pub drop-min : (n : ℕ) (xs : List A) (m : ℕ) → m ≡ min n (length xs) → drop m xs ≡ drop n xs
  drop-min zero xs m e = let z : m ≡ 0 = omega (arith, e) in ap (λ k. drop k xs) z
  drop-min (suc n) [] m e = let z : m ≡ 0 = omega (arith, e) in ap (λ k. drop k []) z
  drop-min (suc n) (x ∷ xs) m e =
      let z : m ≡ suc (m - 1) = omega (arith, e) in
      ap (λ k. drop k (x ∷ xs)) z ∙ drop-min n xs (m - 1) (omega (arith, e))

  pub drop-drop : (n m : ℕ) (xs : List A) → drop (n + m) xs ≡ drop m (drop n xs)
  drop-drop zero m xs = let e : 0 + m ≡ m = omega arith in ap (λ k. drop k xs) e
  drop-drop (suc n) m [] = drop-all (suc n + m) [] (omega arith) ∙ sym (drop-all m [] (omega arith))
  drop-drop (suc n) m (x ∷ xs) =
      let e : suc n + m ≡ suc (n + m) = omega arith in
      ap (λ k. drop k (x ∷ xs)) e ∙ drop-drop n m xs

  pub length-replicate : (n : ℕ) (a : A) → length (replicate n a) ≡ n
  length-replicate zero a = refl
  length-replicate (suc n) a = ap suc (length-replicate n a)

-- The numbers `start`, `start + 1`, … , `n` of them.
abbrev pub range_from : ℕ → ℕ → List ℕ
range_from start zero = []
range_from start (suc n) = start ∷ range_from (suc start) n

pub drop-range_from : (k a n : ℕ) → drop k (range_from a n) ≡ range_from (a + k) (n - k)
drop-range_from zero a n =
    let e : a ≡ a + 0 = omega arith in
    let f : n ≡ n - 0 = omega arith in λ i. range_from (e i) (f i)
drop-range_from (suc k) a zero =
    let e : 0 ≡ 0 - suc k = omega arith in ap (range_from (a + suc k)) e
drop-range_from (suc k) a (suc n) =
    let e : suc a + k ≡ a + suc k = omega arith in
    let f : n - k ≡ suc n - suc k = omega arith in
    drop-range_from k (suc a) n ∙ λ i. range_from (e i) (f i)

pub take-range_from : (k a n : ℕ) → take k (range_from a n) ≡ range_from a (min k n)
take-range_from zero a n = let e : 0 ≡ min 0 n = omega arith in ap (range_from a) e
take-range_from (suc k) a zero = let e : 0 ≡ min (suc k) 0 = omega arith in ap (range_from a) e
take-range_from (suc k) a (suc n) =
    let e : suc (min k n) ≡ min (suc k) (suc n) = omega arith in
    ap (λ ys. a ∷ ys) (take-range_from k (suc a) n) ∙ ap (range_from a) e

pub range_from-append : (a m n : ℕ) → range_from a m ++ range_from (a + m) n ≡ range_from a (m + n)
range_from-append a zero n =
    let e : a + 0 ≡ a = omega arith in
    let f : n ≡ 0 + n = omega arith in λ i. range_from (e i) (f i)
range_from-append a (suc m) n =
    let e : a + suc m ≡ suc a + m = omega arith in
    let f : suc (m + n) ≡ suc m + n = omega arith in
    (λ i. a ∷ (range_from (suc a) m ++ range_from (e i) n))
    ∙ ap (λ ys. a ∷ ys) (range_from-append (suc a) m n)
    ∙ ap (range_from a) f

module _ {ℓ κ} {A : Type ℓ} {B : Type κ} (f : A → B) where
  pub length-map : (xs : List A) → length (map f xs) ≡ length xs
  length-map [] = refl
  length-map (x ∷ xs) = ap suc (length-map xs)

  pub take-map : (n : ℕ) (xs : List A) → take n (map f xs) ≡ map f (take n xs)
  take-map zero xs = refl
  take-map (suc n) [] = refl
  take-map (suc n) (x ∷ xs) = ap (λ ys. f x ∷ ys) (take-map n xs)

  pub drop-map : (n : ℕ) (xs : List A) → drop n (map f xs) ≡ map f (drop n xs)
  drop-map zero xs = refl
  drop-map (suc n) [] = refl
  drop-map (suc n) (x ∷ xs) = drop-map n xs

  pub map-append : (xs ys : List A) → map f (xs ++ ys) ≡ map f xs ++ map f ys
  map-append [] ys = refl
  map-append (x ∷ xs) ys = ap (λ zs. f x ∷ zs) (map-append xs ys)

-- A function of shifted indices.
pub map-shift {ℓ} :
    {A : Type ℓ} (f : ℕ → A) (by start n : ℕ)
    → map (λ i. f (by + i)) (range_from start n) ≡ map f (range_from (by + start) n)
map-shift f by start zero = refl
map-shift f by start (suc n) =
    let e : by + suc start ≡ suc (by + start) = omega arith in
    λ i. f (by + start) ∷ (map-shift f by (suc start) n ∙ ap (λ k. map f (range_from k n)) e) i
