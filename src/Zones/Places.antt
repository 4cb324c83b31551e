-- ===== src/Zones/Places.antt =====
-- core/src/zone_stats/value_counts.rs: what counts stand for, and the places of their codes.
use vortex_rdf.Prelude.{
  ℕ, zero, suc, ◌+◌, ◌%◌, ◌≤◌, ◌<◌, ◌≡◌, refl, ap, inl, inr, List, [], ◌∷◌, arith, Bool-cases,
  if◌then◌else◌, ltb, ◌==◌, ==_iff, length, get_or,
}
use native.Mathlib.Nat.{mod-eq_of_lt}
use vortex_rdf.Prelude.Arrays.{length-set}
use vortex_rdf.Columns.Join.{u64_mod}
use vortex_rdf.Zones.Counts.{
  Pairs, Counts, values, too_many, Place, found, missing, later, binary_search_by_key, bump, insert,
  keys,
}

-- The rows of `x` among `n` rows of `key`, and the rows that pairs give a code.
abbrev pub weight : ℕ → ℕ → ℕ → ℕ
weight key n x = if key == x then n else 0

unfoldable pub count_at : ℕ → Pairs → ℕ
count_at x [] = 0
count_at x (p ∷ ps) = weight p.0 p.1 x + count_at x ps

-- Strictly ascending, from `lo` on.
unfoldable pub IsAscending : ℕ → List ℕ → Type 0
IsAscending lo [] = Unit {0}
IsAscending lo (c ∷ cs) = (lo ≤ c) × IsAscending (suc c) cs

unfoldable pub AllCounted : Pairs → Type 0
AllCounted [] = Unit {0}
AllCounted (p ∷ ps) = (0 < p.1) × AllCounted ps

-- Each code occurs.
unfoldable pub AllOccur : (ℕ → ℕ) → List ℕ → Type 0
AllOccur count [] = Unit {0}
AllOccur count (c ∷ cs) = (0 < count c) × AllOccur count cs

-- `counts` stands for rows that hold each code `x` `count x` times: each code with its rows, or that
-- there are more than `max` codes.
unfoldable pub Represents : ℕ → (ℕ → ℕ) → Counts → Type 0
unfolding IsAscending AllCounted count_at AllOccur
Represents max count (values ps) =
    IsAscending 0 (keys ps)
    × AllCounted ps
    × (length ps ≤ max)
    × ((x : ℕ) → count_at x ps ≡ count x)
Represents max count too_many =
    (codes : List ℕ) × IsAscending 0 codes × (max < length codes) × AllOccur count codes

-- Where a place is, for pairs in order.
unfoldable pub Fits : ℕ → ℕ → Pairs → Type 0
Fits key zero [] = Unit {0}
Fits key zero (p ∷ ps) = key < p.0
Fits key (suc at) [] = ⊥
Fits key (suc at) (p ∷ ps) = (p.0 < key) × Fits key at ps

unfoldable pub IsPlace : ℕ → Pairs → Place → Type 0
unfolding Fits
IsPlace key ps (found at) = (at < length ps) × ((get_or ps at (0, 0)).0 ≡ key)
IsPlace key ps (missing at) = Fits key at ps

later-IsPlace :
    (key : ℕ) (p : ℕ × ℕ) (ps : Pairs) (place : Place)
    → p.0 < key
    → IsPlace key ps place
    → IsPlace key (p ∷ ps) (later place)
unfolding later IsPlace Fits
later-IsPlace key p ps (found at) h w = (omega (arith, w.0), w.1)
later-IsPlace key p ps (missing at) h w = (h, w)

pub binary_search_by_key-IsPlace :
    (key : ℕ) (ps : Pairs) → IsPlace key ps (binary_search_by_key key ps)
unfolding binary_search_by_key IsPlace Fits
binary_search_by_key-IsPlace key [] = tt
binary_search_by_key-IsPlace key (p ∷ ps) = elim (Bool-cases (p.0 == key)) [
  | inl e ↦ rw e (omega arith, (==_iff p.0 key).0 e)
  | inr e ↦ elim (Bool-cases (ltb key p.0)) [
    | inl b ↦ rw (e, b) (ground arith)
    | inr b ↦
        rw (e, b)
          (later-IsPlace key p ps (binary_search_by_key key ps) (ground arith)
            (binary_search_by_key-IsPlace key ps))
  ]
]

-- Rows that a place is given.
pub count_at-bump :
    (key n x : ℕ) (ps : Pairs) (at : ℕ)
    → at < length ps
    → (get_or ps at (0, 0)).0 ≡ key
    → count_at key ps + n < u64_mod
    → count_at x (bump ps at n) ≡ count_at x ps + weight key n x
unfolding bump count_at
count_at-bump key n x [] at h e fits = absurd (omega arith)
count_at-bump key n x (p ∷ ps) zero h e fits =
    let same : weight p.0 p.1 key ≡ p.1 = ground arith in
    let small : p.1 + n < u64_mod = omega arith in rw (mod-eq_of_lt small) (ground arith)
count_at-bump key n x (p ∷ ps) (suc at) h e fits =
    omega (arith, count_at-bump key n x ps at (omega arith) e (omega arith))

pub count_at-insert :
    (key n x : ℕ) (ps : Pairs) (at : ℕ)
    → count_at x (insert ps at (key, n)) ≡ count_at x ps + weight key n x
unfolding insert count_at
count_at-insert key n x [] zero = omega arith
count_at-insert key n x [] (suc at) = omega arith
count_at-insert key n x (p ∷ ps) zero = omega arith
count_at-insert key n x (p ∷ ps) (suc at) = omega (arith, count_at-insert key n x ps at)

pub keys-bump : (ps : Pairs) (at n : ℕ) → keys (bump ps at n) ≡ keys ps
unfolding bump
keys-bump [] at n = refl
keys-bump (p ∷ ps) zero n = refl
keys-bump (p ∷ ps) (suc at) n = ap (λ cs. p.0 ∷ cs) (keys-bump ps at n)

pub length-bump : (ps : Pairs) (at n : ℕ) → length (bump ps at n) ≡ length ps
unfolding bump
length-bump ps at n =
    let p = get_or ps at (0, 0) in length-set (p.0, (p.1 + n) % u64_mod) (0, 0) ps at

pub insert-IsAscending :
    (lo key n : ℕ) (ps : Pairs) (at : ℕ)
    → lo ≤ key
    → IsAscending lo (keys ps)
    → Fits key at ps
    → IsAscending lo (keys (insert ps at (key, n)))
unfolding insert IsAscending Fits
insert-IsAscending lo key n [] zero h a w = (h, tt)
insert-IsAscending lo key n [] (suc at) h a w = absurd w
insert-IsAscending lo key n (p ∷ ps) zero h a w = (h, (w, a.1))
insert-IsAscending lo key n (p ∷ ps) (suc at) h a w =
    (a.0, insert-IsAscending (suc p.0) key n ps at (omega (arith, w.0)) a.1 w.1)

pub insert-AllCounted :
    (key n : ℕ) (ps : Pairs) (at : ℕ) → 0 < n → AllCounted ps → AllCounted (insert ps at (key, n))
unfolding insert AllCounted
insert-AllCounted key n [] zero h a = (h, tt)
insert-AllCounted key n [] (suc at) h a = (h, tt)
insert-AllCounted key n (p ∷ ps) zero h a = (h, a)
insert-AllCounted key n (p ∷ ps) (suc at) h a = (a.0, insert-AllCounted key n ps at h a.1)

pub bump-AllCounted :
    (ps : Pairs) (at n : ℕ)
    → (get_or ps at (0, 0)).1 + n < u64_mod
    → AllCounted ps
    → AllCounted (bump ps at n)
unfolding bump AllCounted
bump-AllCounted [] at n fits a = tt
bump-AllCounted (p ∷ ps) zero n fits a = (rw (mod-eq_of_lt fits) (omega (arith, a.0)), a.1)
bump-AllCounted (p ∷ ps) (suc at) n fits a = (a.0, bump-AllCounted ps at n fits a.1)

pub length-insert : (ps : Pairs) (at : ℕ) (p : ℕ × ℕ) → length (insert ps at p) ≡ suc (length ps)
unfolding insert
length-insert [] zero p = refl
length-insert [] (suc at) p = refl
length-insert (q ∷ ps) zero p = refl
length-insert (q ∷ ps) (suc at) p = ap suc (length-insert ps at p)

pub length-keys : (ps : Pairs) → length (keys ps) ≡ length ps
length-keys [] = refl
length-keys (p ∷ ps) = ap suc (length-keys ps)

pub get_or-count_at :
    (key : ℕ) (ps : Pairs) (at : ℕ)
    → at < length ps
    → (get_or ps at (0, 0)).0 ≡ key
    → (get_or ps at (0, 0)).1 ≤ count_at key ps
unfolding count_at
get_or-count_at key [] at h e = absurd (omega arith)
get_or-count_at key (p ∷ ps) zero h e = ground arith
get_or-count_at key (p ∷ ps) (suc at) h e = omega (arith, get_or-count_at key ps at (omega arith) e)
