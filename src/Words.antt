-- ===== src/Words.antt =====
-- encoded-search/src/words.rs: a canonical buffer of unsigned words, at its own width.
use vortex_rdf.Prelude.{
  ℕ, ◌*◌, ◌^◌, ◌<◌, List, arith, if◌then◌else◌, ltb, tests, length, get_or, take, drop, Bool-cases,
  inl, inr,
}
use vortex_rdf.Search.Partition.{partition, IsSplit, IsMonotone, partition-IsSplit}
use vortex_rdf.Search.Sinks.{EqSink}

pub data Words : Type 0 where
  u8 u16 u32 u64 : List ℕ → Words

abbrev pub slice : Words → List ℕ
slice (u8 s) = s
slice (u16 s) = s
slice (u32 s) = s
slice (u64 s) = s

unfoldable pub len : Words → ℕ
len w = length (slice w)

abbrev pub word_bytes : Words → ℕ
word_bytes (u8 s) = 1
word_bytes (u16 s) = 2
word_bytes (u32 s) = 4
word_bytes (u64 s) = 8

-- One more than the largest word.
abbrev pub width_mod : Words → ℕ
width_mod w = 2 ^ (8 * word_bytes w)

unfoldable pub get : Words → ℕ → ℕ
get w i = get_or (slice w) i 0

-- `out` takes the words from `start`, one for each of its places.
unfoldable pub read_into : Words → ℕ → List ℕ → List ℕ
read_into w start out = take (length out) (drop start (slice w))

-- A needle that does not fit the words matches none of them.
unfoldable pub eq_into : (k : EqSink) → Words → ℕ → ℕ → ℕ → ℕ → k.State → k.State
eq_into k w start n needle base sink =
    if ltb needle (width_mod w)
    then k.matching (word_bytes w) base (take n (drop start (slice w))) needle sink
    else sink

-- `partition_point` over the slice, or its length for a needle that does not fit the words.
unfoldable pub lower_bound : Words → ℕ → ℕ
lower_bound w needle =
    if ltb needle (width_mod w) then partition (len w) (λ i. ltb (get w i) needle) else len w

-- Every word fits its width, as the slices' types say.
abbrev pub IsFitting : Words → Type 0
IsFitting w = (i : ℕ) → i < len w → get w i < width_mod w

-- Over words that fit their width, of which those below the needle come first, the bound is the
-- first index whose word is not below the needle, also where the needle is wider than the words.
pub lower_bound-IsSplit :
    (w : Words) (needle : ℕ)
    → IsFitting w
    → IsMonotone (len w) (λ i. ltb (get w i) needle)
    → IsSplit (len w) (λ i. ltb (get w i) needle) (lower_bound w needle)
unfolding lower_bound
lower_bound-IsSplit w needle fit mono = elim (Bool-cases (ltb needle (width_mod w))) [
  | inl narrow ↦ rw narrow (partition-IsSplit mono)
  | inr wide ↦ rw wide (record {
    within = omega arith;
    passing = λ i h. omega (tests, fit i h);
    failing = λ i p q. absurd (omega arith);
  })
]
