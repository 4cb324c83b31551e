-- ===== src/Node/Copies.antt =====
-- encoded-search/src/delta.rs, `DeltaNode::read_into`, and words.rs, `Words::read_into`: stretches
-- copied from lists are what their places hold.
use vortex_rdf.Prelude.{
  ℕ, zero, suc, ◌+◌, ◌-◌, ◌/◌, ◌%◌, ◌≤◌, ◌<◌, ◌≡◌, refl, sym, ap, ◌∙◌, inl, inr, List, [], ◌∷◌,
  ◌++◌, map, arith, tests, Bool-cases, ltb, ltb→lt, min, length, get_or, take, drop, range_from,
  range_from-append, map-append,
}
use vortex_rdf.Node.Tree.{fl_chunk}
use vortex_rdf.Node.Reads.{copy_blocks, map_indexed}

pub take-drop-places :
    (xs : List ℕ) (start n : ℕ)
    → start + n ≤ length xs
    → take n (drop start xs) ≡ map (λ i. get_or xs i 0) (range_from start n)
take-drop-places xs start zero h = refl
take-drop-places [] start (suc n) h = absurd (omega arith)
take-drop-places (x ∷ xs) zero (suc n) h =
    ap (λ ys. x ∷ ys) (take-drop-places xs 0 n (omega arith) ∙ behind xs x 0 n)
  where
    behind :
        (ys : List ℕ) (y s m : ℕ)
        → map (λ i. get_or ys i 0) (range_from s m)
          ≡ map (λ i. get_or (y ∷ ys) i 0) (range_from (suc s) m)
    behind ys y s zero = refl
    behind ys y s (suc m) = ap (λ zs. get_or ys s 0 ∷ zs) (behind ys y (suc s) m)
take-drop-places (x ∷ xs) (suc start) (suc n) h =
    take-drop-places xs start (suc n) (omega arith) ∙ behind xs x start (suc n)
  where
    behind :
        (ys : List ℕ) (y s m : ℕ)
        → map (λ i. get_or ys i 0) (range_from s m)
          ≡ map (λ i. get_or (y ∷ ys) i 0) (range_from (suc s) m)
    behind ys y s zero = refl
    behind ys y s (suc m) = ap (λ zs. get_or ys s 0 ∷ zs) (behind ys y (suc s) m)

-- Functions that agree on shifted stretches.
pub map-range_shifted :
    (f g : ℕ → ℕ) (s t n : ℕ)
    → ((k : ℕ) → k < n → f (s + k) ≡ g (t + k))
    → map f (range_from s n) ≡ map g (range_from t n)
map-range_shifted f g s t zero same = refl
map-range_shifted f g s t (suc n) same =
    let a : s + 0 ≡ s = omega arith in
    let b : t + 0 ≡ t = omega arith in
    λ i.
      (ap f (sym a) ∙ same 0 (omega arith) ∙ ap g b) i
      ∷ map-range_shifted f g (suc s) (suc t) n
          (λ k p.
            let c : suc s + k ≡ s + suc k = omega arith in
            let d : t + suc k ≡ suc t + k = omega arith in
            ap f c ∙ same (suc k) (omega arith) ∙ ap g d)
          i

module _ (block : ℕ → List ℕ) (whole : (b : ℕ) → length (block b) ≡ fl_chunk) where
  abbrev pub place : ℕ → ℕ
  place p = get_or (block (p / fl_chunk)) (p % fl_chunk) 0

  -- The copies by blocks read each position from its block.
  pub copy_blocks-lem :
      (fuel physical n : ℕ)
      → n ≤ fuel
      → copy_blocks fuel block physical n ≡ map place (range_from physical n)
  unfolding copy_blocks
  copy_blocks-lem zero physical n h =
      let z : 0 ≡ n = omega arith in ap (λ k. map place (range_from physical k)) z
  copy_blocks-lem (suc fuel) physical n h = elim (Bool-cases (ltb 0 n)) [
    | inl more ↦
        let some_left : 0 < n = ltb→lt 0 n more in
        let b = physical / fl_chunk in
        let at = physical % fl_chunk in
        let count = min (fl_chunk - at) n in
        let ih = copy_blocks-lem fuel (physical + count) (n - count) (omega arith) in
        let here : take count (drop at (block b)) ≡ map place (range_from physical count) =
          take-drop-places (block b) at count (omega (arith, whole b))
          ∙ map-range_shifted (λ i. get_or (block b) i 0) place at physical count
              (λ k p.
                let q : (physical + k) / fl_chunk ≡ b = omega arith in
                let r : (physical + k) % fl_chunk ≡ at + k = omega arith in
                λ i. get_or (block (sym q i)) (sym r i) 0) in
        let total : count + (n - count) ≡ n = omega arith in
        rw more (
          (λ i. here i ++ ih i)
          ∙ sym (
              map-append place (range_from physical count)
                (range_from (physical + count) (n - count)))
          ∙ ap (map place)
              (range_from-append physical count (n - count) ∙ ap (range_from physical) total))
    | inr through ↦
        let z : 0 ≡ n = omega tests in rw through (ap (λ k. map place (range_from physical k)) z)
  ]

-- A pass over a read, with the position of each value.
pub map_indexed-map :
    (f : ℕ → ℕ → ℕ) (v : ℕ → ℕ) (k s n : ℕ)
    → map_indexed f k (map v (range_from s n)) ≡ map (λ i. f (k + i) (v (s + i))) (range_from 0 n)
unfolding map_indexed
map_indexed-map f v k s zero = refl
map_indexed-map f v k s (suc n) =
    let a : k ≡ k + 0 = omega arith in
    let b : s ≡ s + 0 = omega arith in
    λ i.
      f (a i) (v (b i))
      ∷ (map_indexed-map f v (suc k) (suc s) n
            ∙ map-range_shifted (λ j. f (suc k + j) (v (suc s + j))) (λ j. f (k + j) (v (s + j))) 0
                1 n
                (λ j p.
                  let c : suc k + (0 + j) ≡ k + (1 + j) = omega arith in
                  let d : suc s + (0 + j) ≡ s + (1 + j) = omega arith in λ l. f (c l) (v (d l))))
          i
