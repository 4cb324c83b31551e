-- ===== src/Columns/Ordered.antt =====
-- core/src/columns/join.rs, `for_each_run_pair`: what a run of equal codes in two ascending columns
-- adds to a nested loop.
use vortex_rdf.Prelude.{
  ℕ, zero, suc, ◌+◌, ◌≤◌, ◌<◌, ◌≡◌, refl, ap, ◌∙◌, ◌≢◌, true, false, inl, inr, List, [], ◌∷◌, arith,
  Bool-cases, leb, leb→le, ◌==◌, drop, range_from,
}
use vortex_rdf.Search.Sinks.{matches, count_words}
use vortex_rdf.Columns.Join.{run_len, is_sorted}

-- Every code is at least, or above, the bound.
abbrev pub AllFrom : ℕ → List ℕ → Type 0
AllFrom a [] = Unit {0}
AllFrom a (c ∷ cs) = (a ≤ c) × AllFrom a cs

abbrev pub IsAscending : List ℕ → Type 0
IsAscending [] = Unit {0}
IsAscending (c ∷ cs) = AllFrom c cs × IsAscending cs

pub AllFrom-widen : (a b : ℕ) (cs : List ℕ) → a ≤ b → AllFrom b cs → AllFrom a cs
AllFrom-widen a b [] p h = tt
AllFrom-widen a b (c ∷ cs) p h = (omega (arith, h.0), AllFrom-widen a b cs p h.1)

pub is_sorted-IsAscending : (cs : List ℕ) → is_sorted cs ≡ true → IsAscending cs
unfolding is_sorted
is_sorted-IsAscending [] h = tt
is_sorted-IsAscending (a ∷ []) h = (tt, tt)
is_sorted-IsAscending (a ∷ b ∷ cs) h =
    let p : leb a b ≡ true = ground arith in
    let q : is_sorted (b ∷ cs) ≡ true = ground arith in
    let ih = is_sorted-IsAscending (b ∷ cs) q in
    ((leb→le a b p, AllFrom-widen a b cs (leb→le a b p) ih.0), ih)

pub AllFrom-drop : (a n : ℕ) (cs : List ℕ) → AllFrom a cs → AllFrom a (drop n cs)
AllFrom-drop a zero cs h = h
AllFrom-drop a (suc n) [] h = tt
AllFrom-drop a (suc n) (c ∷ cs) h = AllFrom-drop a n cs h.1

pub IsAscending-drop : (n : ℕ) (cs : List ℕ) → IsAscending cs → IsAscending (drop n cs)
IsAscending-drop zero cs h = h
IsAscending-drop (suc n) [] h = tt
IsAscending-drop (suc n) (c ∷ cs) h = IsAscending-drop n cs h.1

-- A code below every other has no match, and neither has any of those.
pub matches-above : (a b j : ℕ) (cs : List ℕ) → a < b → AllFrom b cs → matches j cs a ≡ []
unfolding matches
matches-above a b j [] p h = refl
matches-above a b j (c ∷ cs) p h =
    let e : (c == a) ≡ false = ground (arith, h.0) in rw e (matches-above a b (suc j) cs p h.1)

pub count_words-above : (a b : ℕ) (cs : List ℕ) → a < b → AllFrom b cs → count_words cs a ≡ 0
unfolding count_words
count_words-above a b [] p h = refl
count_words-above a b (c ∷ cs) p h =
    let e : (c == a) ≡ false = ground (arith, h.0) in
    rw e (omega (arith, count_words-above a b cs p h.1))

pub run_len-above : (a b : ℕ) (cs : List ℕ) → a < b → AllFrom b cs → run_len a cs ≡ 0
unfolding run_len
run_len-above a b [] p h = refl
run_len-above a b (c ∷ cs) p h = let e : (c == a) ≡ false = ground (arith, h.0) in rw e refl

-- The matches of a code that no other precedes are the run at the front.
module _ (a : ℕ) where
  pub matches-run :
      (j : ℕ) (cs : List ℕ)
      → AllFrom a cs
      → IsAscending cs
      → matches j cs a ≡ range_from j (run_len a cs)
  unfolding matches run_len
  matches-run j [] h up = refl
  matches-run j (c ∷ cs) h up = elim (Bool-cases (c == a)) [
    | inl same ↦ rw same (ap (λ xs. j ∷ xs) (matches-run (suc j) cs h.1 up.1))
    | inr other ↦
        let more : a < c = ground (arith, h.0) in rw other (matches-above a c (suc j) cs more up.0)
  ]

  pub count_words-run :
      (cs : List ℕ) → AllFrom a cs → IsAscending cs → count_words cs a ≡ run_len a cs
  unfolding count_words run_len
  count_words-run [] h up = refl
  count_words-run (c ∷ cs) h up = elim (Bool-cases (c == a)) [
    | inl same ↦ rw same (omega (arith, count_words-run cs h.1 up.1))
    | inr other ↦
        let more : a < c = ground (arith, h.0) in
        rw other (omega (arith, count_words-above a c cs more up.0))
  ]

  -- The run holds no match of another code.
  pub matches-behind :
      (c j : ℕ) (cs : List ℕ)
      → a ≢ c
      → matches j cs c ≡ matches (j + run_len a cs) (drop (run_len a cs) cs) c
  unfolding matches run_len
  matches-behind c j [] p = refl
  matches-behind c j (d ∷ cs) p = elim (Bool-cases (d == a)) [
    | inl same ↦
        let miss : (d == c) ≡ false = elim (Bool-cases (d == c)) [
          | inl hit ↦ absurd (ground (arith, p))
          | inr miss ↦ miss
        ] in
        let e : suc j + run_len a cs ≡ j + suc (run_len a cs) = omega arith in
        rw same (
          rw miss
            (matches-behind c (suc j) cs p ∙ ap (λ k. matches k (drop (run_len a cs) cs) c) e))
    | inr other ↦ let e : j ≡ j + 0 = omega arith in rw other (ap (λ k. matches k (d ∷ cs) c) e)
  ]

  pub count_words-behind :
      (c : ℕ) (cs : List ℕ) → a ≢ c → count_words cs c ≡ count_words (drop (run_len a cs) cs) c
  unfolding count_words run_len
  count_words-behind c [] p = refl
  count_words-behind c (d ∷ cs) p = elim (Bool-cases (d == a)) [
    | inl same ↦
        let miss : (d == c) ≡ false = elim (Bool-cases (d == c)) [
          | inl hit ↦ absurd (ground (arith, p))
          | inr miss ↦ miss
        ] in
        rw same (rw miss (omega (arith, count_words-behind c cs p)))
    | inr other ↦ rw other refl
  ]
