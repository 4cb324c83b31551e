-- ===== src/Node/Parts.antt =====
-- encoded-search/src/bitpacked.rs: whatever tier the read rule takes, a bulk read's values are those
-- of the single unpack.
use vortex_rdf.Prelude.{
  ℕ, zero, suc, ◌+◌, ◌-◌, ◌*◌, ◌/◌, ◌≤◌, ◌<◌, ◌≡◌, refl, sym, ap, ◌∙◌, true, inl, inr, Option, some,
  List, [], ◌++◌, map, arith, Bool-cases, leb, leb→le, le→leb, min, max, take, drop, range_from,
  take-map, drop-map, take-range_from, drop-range_from, range_from-append, map-append, map-shift,
}
use vortex_rdf.Words.{Words}
use vortex_rdf.Words
use vortex_rdf.Node.Tree.{FastLanes, fl_chunk}
use vortex_rdf.Node.Values.{div_ceil}
use vortex_rdf.Node.Packed.{
  Bulk, unpack_crossover, unpack_one_by_one, part_max, unpack_tier, chunk_parts, read_short_part,
  read_long_part, read_parts,
}

crossover-part_max : (bytes : ℕ) → unpack_crossover bytes ≤ part_max
crossover-part_max bytes = ground arith

module _ (fl : FastLanes) (bulk : Bulk fl) (packed : Words) (bit_width : ℕ) where
  abbrev one : ℕ → ℕ
  one i = fl.unpack packed bit_width i

  abbrev bytes : ℕ
  bytes = Words.word_bytes packed

  -- The part of a chunk, read value by value.
  abbrev part_values : ℕ → ℕ → ℕ → List ℕ
  part_values c lo hi = map one (range_from (c * fl_chunk + lo) (hi - lo))

  short-lem :
      (c lo hi : ℕ)
      → hi - lo ≤ unpack_crossover bytes
      → read_short_part fl bulk packed bit_width c lo hi ≡ some (part_values c lo hi)
  unfolding read_short_part unpack_tier
  short-lem c lo hi h = elim (Bool-cases (leb (hi - lo) unpack_one_by_one)) [
    | inl few ↦ rw few (ap some (map-shift one (c * fl_chunk) lo (hi - lo)))
    | inr more ↦
        let in_crossover = le→leb (hi - lo) (unpack_crossover bytes) h in
        let in_part : leb (hi - lo) part_max ≡ true =
          le→leb (hi - lo) part_max (omega (arith, crossover-part_max bytes)) in
        rw more (
          rw in_crossover (
            rw in_part (
              ap some (
                bulk.unpack_indices_lem packed bit_width c (range_from lo (hi - lo))
                ∙ map-shift one (c * fl_chunk) lo (hi - lo)))))
  ]

  long-lem :
      (c lo hi : ℕ)
      → hi ≤ fl_chunk
      → read_long_part fl bulk packed bit_width c lo hi ≡ some (part_values c lo hi)
  unfolding read_long_part unpack_tier
  long-lem c lo hi inside = elim (Bool-cases (leb (hi - lo) unpack_one_by_one)) [
    | inl few ↦
        rw few
          (short-lem c lo hi (omega (arith, leb→le (hi - lo) unpack_one_by_one few, least bytes)))
    | inr more ↦ elim (Bool-cases (leb (hi - lo) (unpack_crossover bytes))) [
      | inl short ↦
          rw more (rw short (short-lem c lo hi (leb→le (hi - lo) (unpack_crossover bytes) short)))
      | inr long ↦
          let chunk_of = λ (i : ℕ). one (c * fl_chunk + i) in
          let n : min (hi - lo) (fl_chunk - lo) ≡ hi - lo = omega arith in
          let z : 0 + lo ≡ lo = omega arith in
          rw more (
            rw long (
              ap some (
                ap (λ xs. take (hi - lo) (drop lo xs)) (bulk.unpack_chunk_lem packed bit_width c)
                ∙ ap (take (hi - lo)) (drop-map chunk_of lo (range_from 0 fl_chunk))
                ∙ take-map chunk_of (hi - lo) (drop lo (range_from 0 fl_chunk))
                ∙ ap (λ xs. map chunk_of (take (hi - lo) xs)) (drop-range_from lo 0 fl_chunk)
                ∙ ap (map chunk_of) (take-range_from (hi - lo) (0 + lo) (fl_chunk - lo))
                ∙ (λ i. map chunk_of (range_from (z i) (n i)))
                ∙ map-shift one (c * fl_chunk) lo (hi - lo))))
    ]
  ]
    where
      least : (b : ℕ) → unpack_one_by_one ≤ unpack_crossover b
      least b = ground arith

  -- Chunk by chunk, from position `p` on.
  parts-lem :
      (part : ℕ → ℕ → ℕ → Option (List ℕ)) (first last : ℕ)
      → first ≤ last
      → ((c lo hi : ℕ)
          → hi ≤ fl_chunk
          → hi - lo ≤ last - first
          → part c lo hi ≡ some (part_values c lo hi))
      → (count c p : ℕ) → p ≡ max first (c * fl_chunk)
      → first < suc c * fl_chunk
      → count ≡ div_ceil last fl_chunk - c
      → chunk_parts part count c first last ≡ some (map one (range_from p (last - p)))
  unfolding chunk_parts
  parts-lem part first last order reads zero c p e under h =
      let z : 0 ≡ last - p = omega (arith, e, h) in ap (λ n. some (map one (range_from p n))) z
  parts-lem part first last order reads (suc count) c p e under h =
      let base = c * fl_chunk in
      let lo = max first base - base in
      let hi = min last (base + fl_chunk) - base in
      let here = reads c lo hi (omega arith) (omega arith) in
      let next = max first (suc c * fl_chunk) in
      let ih =
        parts-lem part first last order reads count (suc c) next refl (omega (arith, under))
          (omega (arith, h)) in
      let from : base + lo ≡ p = omega (arith, e) in
      let behind : p + (hi - lo) ≡ min last next = omega (arith, e, under) in
      let whole_run : range_from (base + lo) (hi - lo) ++ range_from next (last - next)
          ≡ range_from p (last - p) =
        joined p (hi - lo) next (last - next) (last - p) (base + lo) from
          (omega (arith, e, under, h)) (λ k. omega (arith, e, under, h, k)) in
      rw (here, ih)
        (ap some (
          sym (map-append one (range_from (base + lo) (hi - lo)) (range_from next (last - next)))
          ∙ ap (map one) whole_run))
    where
      joined :
          (a m b n total s : ℕ)
          → s ≡ a
          → m + n ≡ total
          → (0 < n → a + m ≡ b)
          → range_from s m ++ range_from b n ≡ range_from a total
      joined a m b zero total s e t f =
          (λ i. range_from (e i) m ++ []) ∙ range_from-append a m 0 ∙ ap (range_from a) t
      joined a m b (suc n) total s e t f =
          (λ i. range_from (e i) m ++ range_from (sym (f (omega arith)) i) (suc n))
          ∙ range_from-append a m (suc n)
          ∙ ap (range_from a) t

  -- One by one, at their positions or by whole chunks, a bulk read of packed words takes the values
  -- that the single unpack does, in order, and reaches neither its assertion nor the part that it
  -- calls unreachable.
  pub read_parts-eq-unpack :
      (first n : ℕ)
      → read_parts fl bulk packed bit_width first n ≡ some (map one (range_from first n))
  unfolding read_parts unpack_tier
  read_parts-eq-unpack first n = elim (Bool-cases (leb n unpack_one_by_one)) [
    | inl few ↦ rw few refl
    | inr more ↦
        let last = first + n in
        let chunks = div_ceil last fl_chunk - first / fl_chunk in
        let p : first ≡ max first (first / fl_chunk * fl_chunk) = omega arith in
        let under : first < suc (first / fl_chunk) * fl_chunk = omega arith in
        let size : last - first ≡ n = omega arith in
        elim (Bool-cases (leb n (unpack_crossover bytes))) [
          | inl short ↦
              let fits = leb→le n (unpack_crossover bytes) short in
              rw more (
                rw short (
                  parts-lem (read_short_part fl bulk packed bit_width) first last (omega arith)
                    (λ c lo hi i w. short-lem c lo hi (omega (arith, w, fits, size))) chunks
                    (first / fl_chunk) first p under refl
                  ∙ ap (λ k. some (map one (range_from first k))) size))
          | inr long ↦ rw more (
              rw long (
                parts-lem (read_long_part fl bulk packed bit_width) first last (omega arith)
                  (λ c lo hi i w. long-lem c lo hi i) chunks (first / fl_chunk) first p under refl
                ∙ ap (λ k. some (map one (range_from first k))) size))
        ]
  ]
