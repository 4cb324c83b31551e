-- ===== src/View/Ascending.antt =====
-- core/src/store/view/selection.rs: ascending, unique id lists, and what a test keeps of them.
use vortex_rdf.Prelude.{
  ℕ, zero, suc, ◌+◌, ◌≤◌, ◌<◌, ◌≡◌, refl, ap, Bool, true, false, ◌&&◌, ◌||◌, inl, inr, List, [],
  ◌∷◌, ◌++◌, arith, tests, Bool-cases, ltb, leb, ◌==◌, ==_iff, drop, range_from,
}
use vortex_rdf.View.Selection.{mem, filter, partition_point}

abbrev pub AllOver : ℕ → List ℕ → Type 0
AllOver a [] = Unit {0}
AllOver a (x ∷ xs) = (a < x) × AllOver a xs

-- Ascending and unique.
abbrev pub IsRising : List ℕ → Type 0
IsRising [] = Unit {0}
IsRising (x ∷ xs) = AllOver x xs × IsRising xs

pub AllOver-widen : (a b : ℕ) (xs : List ℕ) → a ≤ b → AllOver b xs → AllOver a xs
AllOver-widen a b [] p h = tt
AllOver-widen a b (x ∷ xs) p h = (omega (arith, h.0), AllOver-widen a b xs p h.1)

pub mem-AllOver : (row a : ℕ) (xs : List ℕ) → row ≤ a → AllOver a xs → mem row xs ≡ false
unfolding mem
mem-AllOver row a [] p h = refl
mem-AllOver row a (x ∷ xs) p h =
    let e : (x == row) ≡ false = ground (arith, h.0) in rw e (mem-AllOver row a xs p h.1)

pub mem-append : (row : ℕ) (xs ys : List ℕ) → mem row (xs ++ ys) ≡ mem row xs || mem row ys
unfolding mem
mem-append row [] ys = refl
mem-append row (x ∷ xs) ys = ground (arith, mem-append row xs ys)

pub mem-range_from :
    (row start n : ℕ) → mem row (range_from start n) ≡ leb start row && ltb row (start + n)
unfolding mem
mem-range_from row start zero = ground arith
mem-range_from row start (suc n) = ground (arith, mem-range_from row (suc start) n)

pub AllOver-drop : (a n : ℕ) (xs : List ℕ) → AllOver a xs → AllOver a (drop n xs)
AllOver-drop a zero xs h = h
AllOver-drop a (suc n) [] h = tt
AllOver-drop a (suc n) (x ∷ xs) h = AllOver-drop a n xs h.1

pub IsRising-drop : (n : ℕ) (xs : List ℕ) → IsRising xs → IsRising (drop n xs)
IsRising-drop zero xs h = h
IsRising-drop (suc n) [] h = tt
IsRising-drop (suc n) (x ∷ xs) h = IsRising-drop n xs h.1

module _ (keep : ℕ → Bool) where
  pub mem-filter : (row : ℕ) (xs : List ℕ) → mem row (filter keep xs) ≡ mem row xs && keep row
  unfolding mem filter
  mem-filter row [] = refl
  mem-filter row (x ∷ xs) = elim (Bool-cases (x == row)) [
    | inl same ↦
        let e : keep x ≡ keep row = ap keep ((==_iff x row).0 same) in
        ground (arith, e, mem-filter row xs, same)
    | inr other ↦ ground (arith, mem-filter row xs, other)
  ]

  pub filter-hit : (x : ℕ) (xs : List ℕ) → keep x ≡ true → filter keep (x ∷ xs) ≡ x ∷ filter keep xs
  unfolding filter
  filter-hit x xs e = rw e refl

  pub filter-miss : (x : ℕ) (xs : List ℕ) → keep x ≡ false → filter keep (x ∷ xs) ≡ filter keep xs
  unfolding filter
  filter-miss x xs e = rw e refl

  pub AllOver-filter : (a : ℕ) (xs : List ℕ) → AllOver a xs → AllOver a (filter keep xs)
  unfolding filter
  AllOver-filter a [] h = tt
  AllOver-filter a (x ∷ xs) h = elim (Bool-cases (keep x)) [
    | inl kept ↦ rw kept (h.0, AllOver-filter a xs h.1)
    | inr left ↦ rw left (AllOver-filter a xs h.1)
  ]

  pub IsRising-filter : (xs : List ℕ) → IsRising xs → IsRising (filter keep xs)
  unfolding filter
  IsRising-filter [] h = tt
  IsRising-filter (x ∷ xs) h = elim (Bool-cases (keep x)) [
    | inl kept ↦ rw kept (AllOver-filter x xs h.0, IsRising-filter xs h.1)
    | inr left ↦ rw left (IsRising-filter xs h.1)
  ]

-- Tests that agree on what lies above the bound keep the same of it.
pub filter-over :
    (f g : ℕ → Bool) (a : ℕ) (xs : List ℕ)
    → AllOver a xs
    → ((y : ℕ) → a < y → f y ≡ g y)
    → filter f xs ≡ filter g xs
unfolding filter
filter-over f g a [] h same = refl
filter-over f g a (x ∷ xs) h same = rw (same x h.0, filter-over f g a xs h.1 same) refl

pub filter-none :
    (f : ℕ → Bool) (a : ℕ) (xs : List ℕ)
    → AllOver a xs
    → ((y : ℕ) → a < y → f y ≡ false)
    → filter f xs ≡ []
unfolding filter
filter-none f a [] h none_pass = refl
filter-none f a (x ∷ xs) h none_pass = rw (none_pass x h.0) (filter-none f a xs h.1 none_pass)

-- What a search passes over lies below what it looks for.
pub mem-drop :
    (id row : ℕ) (xs : List ℕ)
    → id ≤ row
    → mem row (drop (partition_point (λ x. ltb x id) xs) xs) ≡ mem row xs
unfolding mem partition_point
mem-drop id row [] p = refl
mem-drop id row (x ∷ xs) p = elim (Bool-cases (ltb x id)) [
  | inl less ↦
      let e : (x == row) ≡ false = ground (arith, less) in rw less (rw e (mem-drop id row xs p))
  | inr more ↦ rw more refl
]

-- The search stops at an id that is not below.
abbrev pub FirstFrom : ℕ → List ℕ → Type 0
FirstFrom id [] = Unit {0}
FirstFrom id (x ∷ xs) = id ≤ x

pub drop-FirstFrom :
    (id : ℕ) (xs : List ℕ) → FirstFrom id (drop (partition_point (λ x. ltb x id) xs) xs)
unfolding partition_point
drop-FirstFrom id [] = tt
drop-FirstFrom id (x ∷ xs) = elim (Bool-cases (ltb x id)) [
  | inl less ↦ rw less (drop-FirstFrom id xs)
  | inr more ↦ rw more (omega tests)
]

-- A search among ids that are not below ends at once.
pub partition_point-over :
    (a id : ℕ) (xs : List ℕ) → AllOver a xs → id ≤ suc a → partition_point (λ x. ltb x id) xs ≡ 0
unfolding partition_point
partition_point-over a id [] h p = refl
partition_point-over a id (x ∷ xs) h p = let e : ltb x id ≡ false = ground (arith, h.0) in rw e refl

-- Tests that agree from an id on keep the same of a list that starts there.
pub filter-from :
    (f g : ℕ → Bool) (x : ℕ) (xs : List ℕ)
    → AllOver x xs
    → ((y : ℕ) → x ≤ y → f y ≡ g y)
    → filter f (x ∷ xs) ≡ filter g (x ∷ xs)
unfolding filter
filter-from f g x xs h same =
    rw (same x (omega arith), filter-over f g x xs h (λ y p. same y (omega arith))) refl
