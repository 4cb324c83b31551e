-- ===== src/Zones/Bounds.antt =====
-- core/src/zone_stats/zone_map.rs, `eq_on_bounds`: what exact bounds say of the rows that they bound.
use vortex_rdf.Prelude.{
  ℕ, ◌≤◌, ◌<◌, ◌≡◌, refl, ap, ◌∙◌, true, false, inl, inr, List, [], ◌∷◌, ◌++◌, some, arith,
  Bool-cases, if◌then◌else◌, ltb, ◌==◌, min, max, length,
}
use vortex_rdf.Search.Sinks.{count_words, flag}
use vortex_rdf.Zones.ZoneMap.{least, greatest, eq_on_bounds}
use vortex_rdf.Zones.Builder.{part_bounds}

pub least-min : (a b : ℕ) (cs : List ℕ) → least (min a b) cs ≡ min a (least b cs)
unfolding least
least-min a b [] = refl
least-min a b (c ∷ cs) =
    let e : min (min a b) c ≡ min a (min b c) = omega arith in
    ap (λ m. least m cs) e ∙ least-min a (min b c) cs

pub least-le : (m : ℕ) (cs : List ℕ) → least m cs ≤ m
unfolding least
least-le m [] = omega arith
least-le m (c ∷ cs) = omega (arith, least-le (min m c) cs)

pub least-append : (m : ℕ) (xs ys : List ℕ) → least m (xs ++ ys) ≡ min (least m xs) (least m ys)
unfolding least
least-append m [] ys = omega (arith, least-le m ys)
least-append m (x ∷ xs) ys =
    let swapped : min m x ≡ min x m = omega arith in
    omega (
      arith,
      least-append (min m x) xs ys,
      least-min x m ys,
      least-le (min m x) xs,
      ap (λ k. least k ys) swapped,
    )

pub greatest-max : (a b : ℕ) (cs : List ℕ) → greatest (max a b) cs ≡ max a (greatest b cs)
unfolding greatest
greatest-max a b [] = refl
greatest-max a b (c ∷ cs) =
    let e : max (max a b) c ≡ max a (max b c) = omega arith in
    ap (λ m. greatest m cs) e ∙ greatest-max a (max b c) cs

pub greatest-ge : (m : ℕ) (cs : List ℕ) → m ≤ greatest m cs
unfolding greatest
greatest-ge m [] = omega arith
greatest-ge m (c ∷ cs) = omega (arith, greatest-ge (max m c) cs)

pub greatest-append :
    (m : ℕ) (xs ys : List ℕ) → greatest m (xs ++ ys) ≡ max (greatest m xs) (greatest m ys)
unfolding greatest
greatest-append m [] ys = omega (arith, greatest-ge m ys)
greatest-append m (x ∷ xs) ys =
    let swapped : max m x ≡ max x m = omega arith in
    omega (
      arith,
      greatest-append (max m x) xs ys,
      greatest-max x m ys,
      greatest-ge (max m x) xs,
      ap (λ k. greatest k ys) swapped,
    )

-- The pass over a part reads its bounds.
pub part_bounds-lem :
    (lo hi : ℕ) (vs : List ℕ) → part_bounds lo hi vs ≡ (least lo vs, greatest hi vs)
unfolding part_bounds least greatest
part_bounds-lem lo hi [] = refl
part_bounds-lem lo hi (v ∷ vs) =
    let e : (if ltb v lo then v else lo) ≡ min lo v = ground arith in
    let f : (if ltb hi v then v else hi) ≡ max hi v = ground arith in
    (λ i. part_bounds (e i) (f i) vs) ∙ part_bounds-lem (min lo v) (max hi v) vs

count_words-below : (m code : ℕ) (cs : List ℕ) → code < least m cs → count_words cs code ≡ 0
unfolding least count_words
count_words-below m code [] h = refl
count_words-below m code (c ∷ cs) h =
    let le = least-le (min m c) cs in
    let miss : flag (c == code) ≡ 0 = ground arith in
    omega (arith, miss, count_words-below (min m c) code cs h)

count_words-above : (m code : ℕ) (cs : List ℕ) → greatest m cs < code → count_words cs code ≡ 0
unfolding greatest count_words
count_words-above m code [] h = refl
count_words-above m code (c ∷ cs) h =
    let ge = greatest-ge (max m c) cs in
    let miss : flag (c == code) ≡ 0 = ground arith in
    omega (arith, miss, count_words-above (max m c) code cs h)

count_words-only :
    (m n code : ℕ) (cs : List ℕ)
    → code ≤ least m cs
    → greatest n cs ≤ code
    → count_words cs code ≡ length cs
unfolding least greatest count_words
count_words-only m n code [] h g = refl
count_words-only m n code (c ∷ cs) h g =
    let le = least-le (min m c) cs in
    let ge = greatest-ge (max n c) cs in
    let hit : flag (c == code) ≡ 1 = ground arith in
    omega (arith, hit, count_words-only (min m c) (max n c) code cs h g)

-- Rows that exact bounds rule out or settle.
pub eq_on_bounds-none :
    (m n code : ℕ) (cs : List ℕ)
    → eq_on_bounds (least m cs) (greatest n cs) code ≡ some false
    → count_words cs code ≡ 0
unfolding eq_on_bounds
eq_on_bounds-none m n code cs e = elim (Bool-cases (ltb code (least m cs))) [
  | inl low ↦ count_words-below m code cs (ground arith)
  | inr low ↦ elim (Bool-cases (ltb (greatest n cs) code)) [
    | inl high ↦ count_words-above n code cs (ground arith)
    | inr high ↦ absurd (ground arith)
  ]
]

pub eq_on_bounds-all :
    (m n code : ℕ) (cs : List ℕ)
    → eq_on_bounds (least m cs) (greatest n cs) code ≡ some true
    → count_words cs code ≡ length cs
unfolding eq_on_bounds
eq_on_bounds-all m n code cs e = count_words-only m n code cs (ground arith) (ground arith)
