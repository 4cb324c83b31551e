-- ===== src/Search/Sinks.antt =====
-- encoded-search/src/search.rs, `EqSink` with `Count` and `Offsets`: what an equality search
-- gathers from its window.
use mathlib.Core.List.{append-nil, append_assoc}
use native.Mathlib.Nat.{mod-eq_of_lt}
use vortex_rdf.Prelude.{
  ℕ, zero, suc, ◌+◌, ◌-◌, ◌%◌, ◌≤◌, ◌<◌, ◌≡◌, refl, sym, ap, Bool, true, false, List, [], ◌∷◌, ◌++◌,
  arith, if◌then◌else◌, ltb, ◌==◌, length, take, drop, range_from, length-append, take-append-drop,
  length-drop, length-take,
}

-- The positions `at + k` of the values equal to the needle, ascending.
unfoldable pub matches : ℕ → List ℕ → ℕ → List ℕ
matches at [] needle = []
matches at (v ∷ vs) needle =
    let rest = matches (suc at) vs needle in if v == needle then at ∷ rest else rest

-- The operations of the trait, over a state: `run` takes the offsets `start..end`, `matching` a
-- block of values, whose words are `bytes` wide, that starts at offset `at`.
pub record EqSink : Type 1 where
  pub State : Type 0
  pub run : ℕ → ℕ → State → State
  pub matching : ℕ → ℕ → List ℕ → ℕ → State → State

-- What the searches rely on: the sink takes offsets one after the other, and both operations hand
-- it the matching offsets in ascending order.
pub record Gathers (k : EqSink) : Type 1 where
  pub gather : List ℕ → k.State → k.State
  pub gather-nil : (s : k.State) → gather [] s ≡ s
  pub gather-append : (xs ys : List ℕ) (s : k.State) → gather (xs ++ ys) s ≡ gather ys (gather xs s)
  pub run_lem :
      (start n : ℕ) (s : k.State) → k.run start (start + n) s ≡ gather (range_from start n) s
  pub matching_lem :
      (bytes at : ℕ) (values : List ℕ) (needle : ℕ) (s : k.State)
      → k.matching bytes at values needle s ≡ gather (matches at values needle) s

-- `Count`.
abbrev pub flag : Bool → ℕ
flag true = 1
flag false = 0

-- `values.iter().filter(…).count()`.
unfoldable pub count_words : List ℕ → ℕ → ℕ
count_words [] needle = 0
count_words (v ∷ vs) needle = flag (v == needle) + count_words vs needle

-- A block's tally, kept in a byte.
pub tally : ℕ → List ℕ → ℕ → ℕ
tally t [] needle = t
tally t (v ∷ vs) needle = tally ((t + flag (v == needle)) % 256) vs needle

-- `values.chunks(255)`, each tallied, summed. A round takes a value at least, so the length of the
-- list is rounds enough.
pub tally_blocks : ℕ → List ℕ → ℕ → ℕ
tally_blocks zero values needle = 0
tally_blocks (suc fuel) [] needle = 0
tally_blocks (suc fuel) (v ∷ vs) needle =
    tally 0 (take 255 (v ∷ vs)) needle + tally_blocks fuel (drop 255 (v ∷ vs)) needle

unfoldable pub count_matching : ℕ → ℕ → List ℕ → ℕ → ℕ → ℕ
unfolding count_words tally tally_blocks
count_matching bytes at values needle n =
    if ltb bytes 8
    then n + tally_blocks (length values) values needle
    else n + count_words values needle

abbrev pub count : EqSink
count = record { State = ℕ; run = λ start end n. n + (end - start); matching = count_matching }

-- `Offsets`.
abbrev pub offsets : EqSink
offsets = record {
  State = List ℕ;
  run = λ start end out. out ++ range_from start (end - start);
  matching = λ bytes at values needle out. out ++ matches at values needle;
}

tally-eq-count_words :
    (t : ℕ) (vs : List ℕ) (needle : ℕ)
    → t + length vs < 256
    → tally t vs needle ≡ t + count_words vs needle
unfolding tally count_words
tally-eq-count_words t [] needle h = omega arith
tally-eq-count_words t (v ∷ vs) needle h =
    let fits : t + flag (v == needle) < 256 = ground arith in
    let ih = tally-eq-count_words (t + flag (v == needle)) vs needle in
    rw (mod-eq_of_lt fits) (ground (arith, ih))

pub count_words-append :
    (xs ys : List ℕ) (needle : ℕ)
    → count_words (xs ++ ys) needle ≡ count_words xs needle + count_words ys needle
unfolding count_words
count_words-append [] ys needle = omega arith
count_words-append (x ∷ xs) ys needle = omega (arith, count_words-append xs ys needle)

tally_blocks-eq-count_words :
    (fuel : ℕ) (vs : List ℕ) (needle : ℕ)
    → length vs ≤ fuel
    → tally_blocks fuel vs needle ≡ count_words vs needle
unfolding tally_blocks
tally_blocks-eq-count_words zero [] needle h = unfold count_words in refl
tally_blocks-eq-count_words zero (v ∷ vs) needle h = absurd (omega arith)
tally_blocks-eq-count_words (suc fuel) [] needle h = unfold count_words in refl
tally_blocks-eq-count_words (suc fuel) (v ∷ vs) needle h =
    let block = take 255 (v ∷ vs) in
    let rest = drop 255 (v ∷ vs) in
    omega (
      arith,
      tally-eq-count_words 0 block needle (omega (arith, length-take 255 (v ∷ vs))),
      tally_blocks-eq-count_words fuel rest needle (omega (arith, length-drop 255 (v ∷ vs))),
      count_words-append block rest needle,
      ap (λ xs. count_words xs needle) (take-append-drop 255 (v ∷ vs)),
    )

-- The byte tallies of the blocks never wrap: both ways of counting give the number of values equal
-- to the needle, whatever the width of the words.
pub count_matching-eq-count_words :
    (bytes at : ℕ) (values : List ℕ) (needle n : ℕ)
    → count_matching bytes at values needle n ≡ n + count_words values needle
unfolding count_matching
count_matching-eq-count_words bytes at values needle n =
    ground (arith, tally_blocks-eq-count_words (length values) values needle)

pub length-matches :
    (at : ℕ) (vs : List ℕ) (needle : ℕ) → length (matches at vs needle) ≡ count_words vs needle
unfolding matches count_words
length-matches at [] needle = refl
length-matches at (v ∷ vs) needle = ground (arith, length-matches (suc at) vs needle)

pub length-range_from : (start n : ℕ) → length (range_from start n) ≡ n
length-range_from start zero = refl
length-range_from start (suc n) = ap suc (length-range_from (suc start) n)

-- A count is the number of the offsets that the same operations would append.
pub count-Gathers : Gathers count
count-Gathers = record {
  gather = λ xs n. n + length xs;
  gather-nil = λ n. omega arith;
  gather-append = λ xs ys n. omega (arith, length-append xs ys);
  run_lem = λ start n s. omega (arith, length-range_from start n);
  matching_lem = λ bytes at values needle s. omega (
    arith,
    count_matching-eq-count_words bytes at values needle s,
    length-matches at values needle,
  );
}

pub offsets-Gathers : Gathers offsets
offsets-Gathers = record {
  gather = λ xs out. out ++ xs;
  gather-nil = λ out. append-nil out;
  gather-append = λ xs ys out. sym (append_assoc out xs ys);
  run_lem = λ start n out.
      let e : start + n - start ≡ n = omega arith in ap (λ k. out ++ range_from start k) e;
  matching_lem = λ bytes at values needle out. refl;
}
