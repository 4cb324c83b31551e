-- ===== src/Node/Readable.antt =====
-- encoded-search/src/node.rs, `read_into`: what the bulk reads rely on, and the read of each encoding
-- over its children's.
use vortex_rdf.Prelude.{
  ℕ, zero, suc, ◌+◌, ◌/◌, ◌%◌, ◌≤◌, ◌<◌, ◌≡◌, refl, ap, ◌∙◌, inl, inr, Option, none, some, List,
  ◌∷◌, map, arith, Bool-cases, if◌then◌else◌, ◌==◌, length, get_or, replicate, range_from,
  length-replicate, length-map,
}
use vortex_rdf.Search.Sinks.{length-range_from}
use vortex_rdf.Words.{Words}
use vortex_rdf.Words
use vortex_rdf.Node.Tree.{
  Node, PatchProbe, Patches, Chunks, primitive, constant, sequence, run_end, frame_of_reference,
  chunked_reference, bit_packed, slice, chunked, dict, delta, sparse, run_length, done, chunk,
  probe, patched, unpatched, len, fl_chunk, u64_mod, FastLanes,
}
use vortex_rdf.Node.Values.{
  value_at, lookup, patch_at, or_else, decode_block, packed_value, chunked_for_value_at,
}
use vortex_rdf.Node.Runs.{IsRunEnds}
use vortex_rdf.Node.Formed.{IsFormed, IsLaid}
use vortex_rdf.Node.Packed.{Bulk, ◌>>=◌, read_parts}
use vortex_rdf.Node.Parts.{read_parts-eq-unpack}
use vortex_rdf.Node.Reads.{map_indexed, unless_empty, overwrite, overwrite_all, read_packed}
use vortex_rdf.Node.Walk.{replicate-map}
use vortex_rdf.Node.Patched.{overwrite-eq-lookup}
use vortex_rdf.Node.Copies.{take-drop-places, map-range_shifted, map_indexed-map}

module _ (fl : FastLanes) where
  -- Patches that ascend strictly, at positions that are words.
  abbrev pub IsPatched : PatchProbe → ℕ → Type 0
  IsPatched (probe indices values offset) n =
      IsFormed fl indices
      × ((j k : ℕ) → j < k → k < len indices → value_at fl indices j < value_at fl indices k)
      × (n + offset < u64_mod)

  abbrev pub ArePatched : Patches → ℕ → Type 0
  ArePatched unpatched n = Unit {0}
  ArePatched (patched p) n = IsPatched p n

  -- What the reads rely on: run ends reach the window's end, patches ascend, a slice lies in its
  -- child, chunks follow one another, and a delta block has its 1024 values.
  unfoldable mutual
    unfolding decode_block

    pub IsReadable : Node → Type 0
    IsReadable (primitive w) = Unit
    IsReadable (constant value n) = Unit
    IsReadable (sequence base multiplier n) = Unit
    IsReadable (run_end ends values offset n) = IsRunEnds (len ends) (value_at fl ends) offset n
    IsReadable (frame_of_reference reference child) = IsReadable child
    IsReadable (chunked_reference references offset child) = IsReadable child
    IsReadable (bit_packed packed bit_width offset n patches) = ArePatched patches n
    IsReadable (slice child start n) = (start + n ≤ len child) × IsReadable child
    IsReadable (chunked chunks n) = IsLaid fl chunks 0 n × AreReadable chunks
    IsReadable (dict codes values) = IsReadable codes
    IsReadable (delta bases deltas width offset n) =
        (b : ℕ)
        → length (decode_block fl (value_at fl bases) (value_at fl deltas) width b) ≡ fl_chunk
    IsReadable (sparse fill patches n) = IsPatched patches n
    IsReadable (run_length values indices value_offsets base offset n) = Unit

    pub AreReadable : Chunks → Type 0
    AreReadable done = Unit
    AreReadable (chunk start node cs) = IsReadable node × AreReadable cs

pub nonempty :
    (n start : ℕ) (f : ℕ → ℕ) (out : Option (List ℕ))
    → out ≡ some (map f (range_from start n))
    → unless_empty n out ≡ some (map f (range_from start n))
nonempty zero start f out e = refl
nonempty (suc n) start f out e = e

-- From offsets of the window to positions.
pub from_window :
    (f : ℕ → ℕ) (start n : ℕ)
    → map (λ k. f (start + k)) (range_from 0 n) ≡ map f (range_from start n)
from_window f start n =
    map-range_shifted (λ k. f (start + k)) f 0 start n
      (λ k p. let z : 0 + k ≡ k = omega arith in ap (λ j. f (start + j)) z)

pub then-map :
    (g : ℕ → ℕ) (v : ℕ → ℕ) (start n : ℕ) (out : Option (List ℕ))
    → out ≡ some (map v (range_from start n))
    → (out >>= λ xs. some (map g xs)) ≡ some (map (λ i. g (v i)) (range_from start n))
then-map g v start n none e = absurd (cc)
then-map g v start n (some xs) e =
    let f : xs ≡ map v (range_from start n) = cc in ap some (ap (map g) f ∙ composed start n)
  where
    composed : (s m : ℕ) → map g (map v (range_from s m)) ≡ map (λ i. g (v i)) (range_from s m)
    composed s zero = refl
    composed s (suc m) = ap (λ ys. g (v s) ∷ ys) (composed (suc s) m)

module _ (fl : FastLanes) (bulk : Bulk fl) where
  pub sparse_read :
      (p : PatchProbe) (base : ℕ → ℕ) (start n m : ℕ)
      → IsPatched fl p m
      → start + n ≤ m
      → overwrite fl bulk p start (map base (range_from start n))
        ≡ map (λ i. or_else (lookup fl p i) (base i)) (range_from start n)
  sparse_read (probe indices values offset) base start n m h fits =
      let out = map base (range_from start n) in
      let size : length out ≡ n =
        length-map base (range_from start n) ∙ length-range_from start n in
      overwrite-eq-lookup fl bulk indices values offset h.0 h.1 start out (omega (arith, h.2, size))
      ∙ ap
          (λ k.
            map
              (λ i. or_else (lookup fl (probe indices values offset) (start + i)) (get_or out i 0))
              (range_from 0 k))
          size
      ∙ map-range_shifted
          (λ i. or_else (lookup fl (probe indices values offset) (start + i)) (get_or out i 0))
          (λ i. or_else (lookup fl (probe indices values offset) i) (base i)) 0 start n
          (λ k q.
            let z : 0 + k ≡ k = omega arith in
            ap (λ j. or_else (lookup fl (probe indices values offset) (start + j)) (get_or out j 0))
              z
            ∙ ap (or_else (lookup fl (probe indices values offset) (start + k)))
                (place_of start n k q))
    where
      place_of : (s c k : ℕ) → k < c → get_or (map base (range_from s c)) k 0 ≡ base (s + k)
      place_of s zero k q = absurd (omega arith)
      place_of s (suc c) zero q = let z : s ≡ s + 0 = omega arith in ap base z
      place_of s (suc c) (suc k) q =
          let z : suc s + k ≡ s + suc k = omega arith in
          place_of (suc s) c k (omega arith) ∙ ap base z

  pub bound-to :
      (f : List ℕ → Option (List ℕ)) (out : Option (List ℕ)) (xs : List ℕ)
      → out ≡ some xs
      → (out >>= f) ≡ f xs
  bound-to f out xs e = ap (λ o. o >>= f) e

  pub patched_read :
      (patches : Patches) (base : ℕ → ℕ) (start n m : ℕ)
      → ArePatched fl patches m
      → start + n ≤ m
      → overwrite_all fl bulk patches start (map base (range_from start n))
        ≡ map (λ i. or_else (patch_at fl patches i) (base i)) (range_from start n)
  unfolding overwrite_all value_at
  patched_read unpatched base start n m h fits = refl
  patched_read (patched p) base start n m h fits = sparse_read p base start n m h fits

  module _ (packed : Words) (bit_width offset : ℕ) where
    pub unpacked_read :
        (start n : ℕ)
        → (if bit_width == 0
            then some (replicate n 0)
            else read_parts fl bulk packed bit_width (offset + start) n)
          ≡ some (map (packed_value fl packed bit_width offset) (range_from start n))
    unfolding packed_value
    unpacked_read start n = elim (Bool-cases (bit_width == 0)) [
      | inl no_bits ↦
          let zeros : (i : ℕ)
              → start ≤ i
              → i < start + n
              → packed_value fl packed bit_width offset i ≡ 0 =
            λ i p q. rw no_bits refl in
          rw no_bits
            (ap some (replicate-map (packed_value fl packed bit_width offset) 0 start n zeros))
      | inr bits ↦
          let one = λ (i : ℕ). fl.unpack packed bit_width i in
          rw bits (
            read_parts-eq-unpack fl bulk packed bit_width (offset + start) n
            ∙ ap some (
                map-range_shifted one (packed_value fl packed bit_width offset) (offset + start)
                  start n
                  (λ k p.
                    let z : offset + start + k ≡ start + k + offset = omega arith in
                    rw bits (ap one z))))
    ]

    pub read_packed-lem :
        (patches : Patches) (start n m : ℕ)
        → ArePatched fl patches m
        → start + n ≤ m
        → read_packed fl bulk packed bit_width offset patches start n
          ≡ some (
              map
                (λ i. or_else (patch_at fl patches i) (packed_value fl packed bit_width offset i))
                (range_from start n))
    unfolding read_packed
    read_packed-lem patches start n m h fits =
        bound-to (λ out. some (overwrite_all fl bulk patches start out)) _ _ (unpacked_read start n)
        ∙ ap some (patched_read patches (packed_value fl packed bit_width offset) start n m h fits)

  pub words_read :
      (w : Words) (start n : ℕ)
      → start + n ≤ Words.len w
      → Words.read_into w start (replicate n 0) ≡ map (Words.get w) (range_from start n)
  unfolding Words.len Words.get Words.read_into
  words_read w start n h =
      let size : length (replicate {A = ℕ} n 0) ≡ n = length-replicate n 0 in
      rw size (take-drop-places (Words.slice w) start n h)

  pub referenced :
      (references child : ℕ → ℕ) (offset start n : ℕ)
      → map_indexed
          (λ k o. (o + references ((offset + start + k) / fl_chunk)) % u64_mod)
          0
          (map child (range_from start n))
        ≡ map (λ i. chunked_for_value_at references child offset i) (range_from start n)
  unfolding chunked_for_value_at
  referenced references child offset start n =
      map_indexed-map (λ k o. (o + references ((offset + start + k) / fl_chunk)) % u64_mod) child 0
        start n
      ∙ map-range_shifted _ (λ i. chunked_for_value_at references child offset i) 0 start n
          (λ k p.
            let z : start + (0 + k) ≡ start + k = omega arith in
            let w : offset + start + (0 + (0 + k)) ≡ offset + (start + k) = omega arith in
            λ l. (child (z l) + references (w l / fl_chunk)) % u64_mod)
