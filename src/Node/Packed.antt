-- ===== src/Node/Packed.antt =====
-- encoded-search/src/bitpacked.rs: the bulk reads of bit-packed words, by the read rule.
-- The batch kernels of the fastlanes crate are a parameter; the parts that a read hands over follow
-- one another, so that what it fills is their values one after the other.
use vortex_rdf.Prelude.{
  ℕ, zero, suc, ◌+◌, ◌-◌, ◌*◌, ◌/◌, ◌≡◌, Option, none, some, List, [], ◌++◌, map, if◌then◌else◌,
  leb, min, max, take, drop, range_from,
}
use vortex_rdf.Words.{Words}
use vortex_rdf.Words
use vortex_rdf.Node.Tree.{FastLanes, fl_chunk}
use vortex_rdf.Node.Values.{div_ceil}

-- The batch unpacks read what the single unpack does: a chunk's 1024 values, and the values at
-- positions of a chunk.
pub record Bulk (fl : FastLanes) : Type 0 where
  pub unpack_chunk : Words → ℕ → ℕ → List ℕ
  pub unpack_indices : Words → ℕ → ℕ → List ℕ → List ℕ
  pub unpack_chunk_lem :
      (packed : Words) (bit_width c : ℕ)
      → unpack_chunk packed bit_width c
        ≡ map (λ i. fl.unpack packed bit_width (c * fl_chunk + i)) (range_from 0 fl_chunk)
  pub unpack_indices_lem :
      (packed : Words) (bit_width c : ℕ) (positions : List ℕ)
      → unpack_indices packed bit_width c positions
        ≡ map (λ i. fl.unpack packed bit_width (c * fl_chunk + i)) positions

abbrev pub unpack_crossover : ℕ → ℕ
unpack_crossover bytes =
    if leb bytes 1 then 16 else if leb bytes 2 then 32 else if leb bytes 4 then 96 else 128

abbrev pub unpack_one_by_one : ℕ
unpack_one_by_one = 6

abbrev pub part_max : ℕ
part_max = 128

pub data Tier : Type 0 where
  one_by_one positions whole : Tier

unfoldable pub unpack_tier : ℕ → ℕ → Tier
unpack_tier bytes values =
    if leb values unpack_one_by_one
    then one_by_one
    else if leb values (unpack_crossover bytes)
    then positions
    else whole

infixl 5 ◌>>=◌
abbrev pub ◌>>=◌ {ℓ κ} : {A : Type ℓ} {B : Type κ} → Option A → (A → Option B) → Option B
none >>= f = none
some a >>= f = f a

-- The parts of the chunks from `c` on that the positions `first..last` touch, each read as its
-- part `lo..hi`, one after the other.
unfoldable pub chunk_parts : (ℕ → ℕ → ℕ → Option (List ℕ)) → ℕ → ℕ → ℕ → ℕ → Option (List ℕ)
chunk_parts part zero c first last = some []
chunk_parts part (suc count) c first last = do
  xs ←
      part c (max first (c * fl_chunk) - c * fl_chunk)
        (min last (c * fl_chunk + fl_chunk) - c * fl_chunk)
  ys ← chunk_parts part count (suc c) first last
  some (xs ++ ys)

module _ (fl : FastLanes) (bulk : Bulk fl) (packed : Words) (bit_width : ℕ) where
  abbrev pub unpack : ℕ → ℕ
  unpack i = fl.unpack packed bit_width i

  -- A part past the crossover is unreachable, and one past the largest fails its assertion.
  abbrev pub short_part : Tier → ℕ → ℕ → ℕ → Option (List ℕ)
  short_part one_by_one c lo hi =
      some (map (λ i. unpack (c * fl_chunk + i)) (range_from lo (hi - lo)))
  short_part positions c lo hi =
      if leb (hi - lo) part_max
      then some (bulk.unpack_indices packed bit_width c (range_from lo (hi - lo)))
      else none
  short_part whole c lo hi = none

  unfoldable pub read_short_part : ℕ → ℕ → ℕ → Option (List ℕ)
  unfolding unpack_tier
  read_short_part c lo hi = short_part (unpack_tier (Words.word_bytes packed) (hi - lo)) c lo hi

  abbrev pub long_part : Tier → ℕ → ℕ → ℕ → Option (List ℕ)
  long_part one_by_one c lo hi = read_short_part c lo hi
  long_part positions c lo hi = read_short_part c lo hi
  long_part whole c lo hi = some (take (hi - lo) (drop lo (bulk.unpack_chunk packed bit_width c)))

  unfoldable pub read_long_part : ℕ → ℕ → ℕ → Option (List ℕ)
  unfolding unpack_tier read_short_part
  read_long_part c lo hi = long_part (unpack_tier (Words.word_bytes packed) (hi - lo)) c lo hi

  abbrev pub parts_of : Tier → ℕ → ℕ → Option (List ℕ)
  parts_of one_by_one first n = some (map unpack (range_from first n))
  parts_of positions first n =
      chunk_parts read_short_part (div_ceil (first + n) fl_chunk - first / fl_chunk)
        (first / fl_chunk) first (first + n)
  parts_of whole first n =
      chunk_parts read_long_part (div_ceil (first + n) fl_chunk - first / fl_chunk)
        (first / fl_chunk) first (first + n)

  unfoldable pub read_parts : ℕ → ℕ → Option (List ℕ)
  unfolding unpack_tier read_short_part read_long_part chunk_parts
  read_parts first n = parts_of (unpack_tier (Words.word_bytes packed) n) first n
