-- ===== src/Columns/Slots.antt =====
-- core/src/columns/join.rs, `Span`, `Hashed` and `RightIndex::rows_for`: a code finds the rows of
-- the right column that hold it, whichever way its slot is found.
use vortex_rdf.Prelude.{
  ℕ, suc, ◌+◌, ◌-◌, ◌≤◌, ◌<◌, ◌≡◌, refl, sym, ◌∙◌, ◌≢◌, false, ◌&&◌, some, inl, inr, List, [], ◌∷◌,
  map, arith, tests, Bool-cases, ltb, leb, ◌==◌, ==_iff, min, max, length,
}
use vortex_rdf.Search.Sinks.{matches}
use vortex_rdf.Columns.Groups.{build, group_rows}
use vortex_rdf.Columns.Starts.{AllBelow}
use vortex_rdf.Columns.Grouped.{group_rows-build, group_rows-build_none}
use vortex_rdf.Columns.Join.{u64_mod, span_slot, fold_range, find_slot}

-- The slots tell the code from every code of the column.
abbrev pub Tells : (ℕ → ℕ) → ℕ → List ℕ → Type 0
Tells f code [] = Unit {0}
Tells f code (c ∷ cs) = ((f c == f code) ≡ (c == code)) × Tells f code cs

pub matches-map :
    (f : ℕ → ℕ) (code at : ℕ) (cs : List ℕ)
    → Tells f code cs
    → matches at (map f cs) (f code) ≡ matches at cs code
unfolding matches
matches-map f code at [] h = refl
matches-map f code at (c ∷ cs) h = rw (h.0, matches-map f code (suc at) cs h.1) refl

abbrev pub Missing : ℕ → List ℕ → Type 0
Missing code [] = Unit {0}
Missing code (c ∷ cs) = (c ≢ code) × Missing code cs

pub matches-Missing : (code at : ℕ) (cs : List ℕ) → Missing code cs → matches at cs code ≡ []
unfolding matches
matches-Missing code at [] h = refl
matches-Missing code at (c ∷ cs) h =
    let e : (c == code) ≡ false = elim (Bool-cases (c == code)) [
      | inl hit ↦ absurd (h.0 ((==_iff c code).0 hit))
      | inr miss ↦ miss
    ] in
    rw (e, matches-Missing code (suc at) cs h.1) refl

-- Every code lies in the range.
abbrev pub AllWithin : ℕ → ℕ → List ℕ → Type 0
AllWithin lo hi [] = Unit {0}
AllWithin lo hi (c ∷ cs) = (lo ≤ c) × (c ≤ hi) × AllWithin lo hi cs

AllWithin-widen :
    (lo hi l h : ℕ) (cs : List ℕ) → l ≤ lo → hi ≤ h → AllWithin lo hi cs → AllWithin l h cs
AllWithin-widen lo hi l h [] p q w = tt
AllWithin-widen lo hi l h (c ∷ cs) p q w =
    (omega (arith, w.0), omega (arith, w.1), AllWithin-widen lo hi l h cs p q w.2)

pub fold_range-AllWithin :
    (cs : List ℕ) (lo hi : ℕ)
    → ((fold_range cs lo hi).0 ≤ lo)
      × (hi ≤ (fold_range cs lo hi).1)
      × AllWithin (fold_range cs lo hi).0 (fold_range cs lo hi).1 cs
unfolding fold_range
fold_range-AllWithin [] lo hi = (omega arith, omega arith, tt)
fold_range-AllWithin (c ∷ cs) lo hi =
    let ih = fold_range-AllWithin cs (min lo c) (max hi c) in
    (omega (arith, ih.0), omega (arith, ih.1), (omega (arith, ih.0), omega (arith, ih.1), ih.2))

-- The dense arm: a slot per code of the span.
pub AllWithin-AllBelow :
    (lo hi : ℕ) (cs : List ℕ) → AllWithin lo hi cs → AllBelow (hi - lo + 1) (map (λ c. c - lo) cs)
AllWithin-AllBelow lo hi [] w = tt
AllWithin-AllBelow lo hi (c ∷ cs) w = (omega (arith, w.0, w.1), AllWithin-AllBelow lo hi cs w.2)

AllWithin-Tells :
    (lo hi code : ℕ) (cs : List ℕ) → lo ≤ code → AllWithin lo hi cs → Tells (λ c. c - lo) code cs
AllWithin-Tells lo hi code [] p w = tt
AllWithin-Tells lo hi code (c ∷ cs) p w = (ground (arith, w.0), AllWithin-Tells lo hi code cs p w.2)

AllWithin-Missing :
    (lo hi code : ℕ) (cs : List ℕ)
    → ((lo ≤ code) → (code ≤ hi) → ⊥)
    → AllWithin lo hi cs
    → Missing code cs
AllWithin-Missing lo hi code [] p w = tt
AllWithin-Missing lo hi code (c ∷ cs) p w =
    (λ e. p (omega (arith, e, w.0)) (omega (arith, e, w.1)), AllWithin-Missing lo hi code cs p w.2)

module _ (lo hi code : ℕ) (small : code < u64_mod) (order : lo ≤ hi) (top : hi < u64_mod) where
  span_slot-within :
      lo ≤ code
      → code ≤ hi
      → span_slot (record { min_code = lo; width = hi - lo + 1 }) code ≡ code - lo
  unfolding span_slot
  span_slot-within p q = omega arith

  span_slot-outside :
      ((lo ≤ code) → (code ≤ hi) → ⊥)
      → span_slot (record { min_code = lo; width = hi - lo + 1 }) code ≡ hi - lo + 1
  unfolding span_slot
  span_slot-outside out = elim (Bool-cases (ltb code lo)) [
    | inl under ↦ omega (tests, under)
    | inr over ↦ elim (Bool-cases (ltb hi code)) [
      | inl above ↦ omega (tests, above, over)
      | inr inside ↦ absurd (out (omega (tests, over)) (omega (tests, inside)))
    ]
  ]

  -- Every code reaches its rows, one outside the span the empty slot.
  pub group_rows-span :
      (right : List ℕ)
      → AllWithin lo hi right
      → group_rows
          (build (hi - lo + 1) (map (λ c. c - lo) right))
          (span_slot (record { min_code = lo; width = hi - lo + 1 }) code)
        ≡ matches 0 right code
  group_rows-span right w =
      let small_slots = AllWithin-AllBelow lo hi right w in
      elim (Bool-cases (leb lo code && leb code hi)) [
        | inl inside ↦
            let p : lo ≤ code = ground arith in
            let q : code ≤ hi = ground arith in
            rw (span_slot-within p q) (
              group_rows-build (hi - lo + 1) _ small_slots (code - lo) (omega arith)
              ∙ matches-map (λ c. c - lo) code 0 right (AllWithin-Tells lo hi code right p w))
        | inr outside ↦
            let out : (lo ≤ code) → (code ≤ hi) → ⊥ = λ p q. absurd (ground (arith, p, q)) in
            rw (span_slot-outside out) (
              group_rows-build_none (hi - lo + 1) _ small_slots
              ∙ sym (matches-Missing code 0 right (AllWithin-Missing lo hi code right out w)))
      ]

-- The hashed arm: the slots number the codes as they are met.
abbrev pub IsNumbered : ℕ → List (ℕ × ℕ) → Type 0
IsNumbered n [] = Unit {0}
IsNumbered n ((c, k) ∷ entries) = (k ≡ n) × IsNumbered (suc n) entries

pub find_slot-bounds :
    (n code k : ℕ) (entries : List (ℕ × ℕ))
    → IsNumbered n entries
    → find_slot code entries ≡ some k
    → (n ≤ k) × (k < n + length entries)
unfolding find_slot
find_slot-bounds n code k [] h e = absurd (cc)
find_slot-bounds n code k ((c, s) ∷ entries) h e = elim (Bool-cases (c == code)) [
  | inl hit ↦ (ground arith, ground arith)
  | inr miss ↦
      let ih = find_slot-bounds (suc n) code k entries h.1 (ground arith) in
      (omega (arith, ih.0), omega (arith, ih.1))
]

pub find_slot-injective :
    (n c d k : ℕ) (entries : List (ℕ × ℕ))
    → IsNumbered n entries
    → find_slot c entries ≡ some k
    → find_slot d entries ≡ some k
    → c ≡ d
unfolding find_slot
find_slot-injective n c d k [] h p q = absurd (cc)
find_slot-injective n c d k ((b, s) ∷ entries) h p q = elim (Bool-cases (b == c)) [
  | inl hit ↦ elim (Bool-cases (b == d)) [
    | inl again ↦ ground arith
    | inr miss ↦
        let bound = find_slot-bounds (suc n) d k entries h.1 (ground arith) in
        ground (arith, bound.0)
  ]
  | inr miss ↦ elim (Bool-cases (b == d)) [
    | inl hit ↦
        let bound = find_slot-bounds (suc n) c k entries h.1 (ground arith) in
        ground (arith, bound.0)
    | inr both ↦ find_slot-injective (suc n) c d k entries h.1 (ground arith) (ground arith)
  ]
]
