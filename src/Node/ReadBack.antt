-- ===== src/Node/ReadBack.antt =====
-- encoded-search/src/node.rs, `read_into`: the bulk read of every node is its point reads.
use vortex_rdf.Prelude.{
  ℕ, zero, suc, ◌+◌, ◌-◌, ◌/◌, ◌%◌, ◌≤◌, ◌<◌, ◌≡◌, refl, sym, ap, subst, ◌∙◌, inl, inr, ◌⊎◌, Option,
  some, List, [], ◌++◌, map, arith, tests, Bool-cases, ltb, ltb→lt, leb, min, length, range_from,
  range_from-append, map-append,
}
use vortex_rdf.Search.Partition.{partition}
use vortex_rdf.Search.Cuts.{locate, locate_unique}
use vortex_rdf.Node.Tree.{
  Node, Chunks, DeltaWidth, primitive, constant, sequence, run_end, frame_of_reference,
  chunked_reference, bit_packed, slice, chunked, dict, delta, sparse, run_length, done, chunk, len,
  chunk_count, chunk_start, chunk_len, fl_chunk, u64_mod, FastLanes,
}
use vortex_rdf.Node.Values.{value_at, saturating_add, decode_block, delta_value, chunk_value}
use vortex_rdf.Node.Formed.{IsFormed, IsLaid}
use vortex_rdf.Node.Laid.{chunk_stop, laid-IsCut}
use vortex_rdf.Node.Packed.{Bulk, ◌>>=◌}
use vortex_rdf.Node.Reads.{
  map_indexed, copy_blocks, unless_empty, overwrite, read_into, read_chunks,
}
use vortex_rdf.Node.Walk.{filled, runs_in-eq-values, replicate-map}
use vortex_rdf.Node.Copies.{map-range_shifted, copy_blocks-lem, place}
use vortex_rdf.Node.Readable.{
  IsReadable, AreReadable, nonempty, from_window, then-map, sparse_read, bound-to, read_packed-lem,
  words_read, referenced,
}

module _ (fl : FastLanes) (bulk : Bulk fl) where
  -- What a suffix of the chunks holds of the node's values.
  abbrev HoldsValues : Chunks → (ℕ → ℕ) → Type 0
  HoldsValues cs f =
      (c i : ℕ)
      → c < chunk_count cs
      → i < chunk_len cs c
      → f (chunk_start cs c + i) ≡ chunk_value fl cs c i

  -- The window goes on in chunk `skip`, if it goes on.
  abbrev GoesOn : Chunks → ℕ → ℕ → Type 0
  GoesOn cs skip pos =
      (skip < chunk_count cs)
      × (chunk_start cs skip ≤ pos)
      × (pos < chunk_start cs skip + chunk_len cs skip)

  rest-HoldsValues :
      (start : ℕ) (node : Node) (cs : Chunks) (f : ℕ → ℕ)
      → HoldsValues (chunk start node cs) f
      → HoldsValues cs f
  unfolding value_at chunk_len
  rest-HoldsValues start node cs f h c i p q = h (suc c) i (omega arith) q

  -- One chunk's part of the window, and the parts behind it.
  chunk_joined :
      (f : ℕ → ℕ) (node : Node) (at from pos count rest : ℕ) (out next : Option (List ℕ))
      → at + from ≡ pos
      → ((i : ℕ) → i < from + count → f (at + i) ≡ value_at fl node i)
      → out ≡ some (map (value_at fl node) (range_from from count))
      → next ≡ some (map f (range_from (pos + count) rest))
      → (out >>= λ xs. next >>= λ ys. some (xs ++ ys))
        ≡ some (map f (range_from pos (count + rest)))
  chunk_joined f node at from pos count rest out next place same e d =
      bound-to fl bulk (λ xs. next >>= λ ys. some (xs ++ ys)) out _ e
      ∙ bound-to fl bulk (λ ys. some (map (value_at fl node) (range_from from count) ++ ys)) next _
          d
      ∙ ap some (
          ap (λ xs. xs ++ map f (range_from (pos + count) rest))
            (map-range_shifted (value_at fl node) f from pos count (λ k p.
              let z : at + (from + k) ≡ pos + k = omega (arith, place) in
              sym (same (from + k) (omega arith)) ∙ ap f z))
          ∙ sym (map-append f (range_from pos count) (range_from (pos + count) rest))
          ∙ ap (map f) (range_from-append pos count rest))

  chunk_values :
      (chunks : Chunks) (n : ℕ)
      → IsLaid fl chunks 0 n
      → HoldsValues chunks (value_at fl (chunked chunks n))
  unfolding value_at
  chunk_values chunks n laid c i p q =
      let start = chunk_start chunks c in
      let cut = laid-IsCut fl chunks n laid in
      let found =
        locate_unique (chunk_count chunks) n (chunk_start chunks) (chunk_stop chunks) cut
          (start + i) c (record { known = p; from = omega arith; before = omega (arith, q) }) in
      let d : partition (chunk_count chunks) (λ e. leb (chunk_start chunks e) (start + i)) - 1 ≡ c =
        omega (arith, found) in
      let z : start + i - start ≡ i = omega arith in
      ap (λ e. chunk_value fl chunks e (start + i - chunk_start chunks e)) d
      ∙ ap (chunk_value fl chunks c) z

  first_chunk :
      (chunks : Chunks) (n pos : ℕ)
      → IsLaid fl chunks 0 n
      → pos < n
      → GoesOn chunks (partition (chunk_count chunks) (λ c. leb (chunk_start chunks c) pos) - 1) pos
  first_chunk chunks n pos laid h =
      let cut = laid-IsCut fl chunks n laid in
      let found =
        locate (chunk_count chunks) n (chunk_start chunks) (chunk_stop chunks) cut pos h in
      (found.known, found.from, found.before)

  delta_read :
      (bases deltas : Node) (width : DeltaWidth) (offset start n : ℕ)
      → ((b : ℕ)
          → length (decode_block fl (value_at fl bases) (value_at fl deltas) width b) ≡ fl_chunk)
      → copy_blocks n
          (decode_block fl (value_at fl bases) (value_at fl deltas) width)
          (offset + start)
          n
        ≡ map
            (λ i. delta_value fl (value_at fl bases) (value_at fl deltas) width offset i)
            (range_from start n)
  unfolding delta_value
  delta_read bases deltas width offset start n whole =
      let block = λ (b : ℕ). decode_block fl (value_at fl bases) (value_at fl deltas) width b in
      copy_blocks-lem block whole n (offset + start) n (omega arith)
      ∙ map-range_shifted (place block whole)
          (λ i. delta_value fl (value_at fl bases) (value_at fl deltas) width offset i)
          (offset + start) start n
          (λ k p.
            let z : offset + start + k ≡ offset + (start + k) = omega arith in
            ap (place block whole) z)

  -- At the start of the chunks that follow, or at the end.
  next_chunk :
      (cs : Chunks) (from total pos : ℕ)
      → IsLaid fl cs from total
      → pos ≡ from
      → (pos ≡ total) ⊎ GoesOn cs 0 pos
  unfolding IsFormed chunk_len
  next_chunk done from total pos laid e = inl (e ∙ laid)
  next_chunk (chunk start node cs) from total pos laid e =
      inr (omega arith, omega (arith, e, laid.0), omega (arith, e, laid.0, laid.1))

  chunk-IsLaid :
      (at : ℕ) (node : Node) (cs : Chunks) (from total : ℕ)
      → IsLaid fl (chunk at node cs) from total
      → (at ≡ from) × IsLaid fl cs (from + len node) total
  unfolding IsFormed
  chunk-IsLaid at node cs from total laid = (laid.0, laid.3)

  nonempty_if :
      (n start : ℕ) (f : ℕ → ℕ) (out : Option (List ℕ))
      → (0 < n → out ≡ some (map f (range_from start n)))
      → unless_empty n out ≡ some (map f (range_from start n))
  nonempty_if zero start f out e = refl
  nonempty_if (suc n) start f out e = e (omega arith)

  no_more :
      (f : ℕ → ℕ) (pos n before : ℕ)
      → (before < n → ⊥)
      → some [] ≡ some (map f (range_from pos (n - before)))
  no_more f pos n before stop =
      let z : 0 ≡ n - before = elim (Bool-cases (ltb before n)) [
        | inl less ↦ absurd (stop (ltb→lt before n less))
        | inr same ↦ omega tests
      ] in
      ap (λ k. some (map f (range_from pos k))) z

  mutual
    unfolding len value_at read_into IsReadable chunk_len filled

    read_into_lem :
        (node : Node) (start n : ℕ)
        → IsReadable fl node
        → start + n ≤ len node
        → read_into fl bulk node start n ≡ some (map (value_at fl node) (range_from start n))
    read_into_lem (primitive w) start n h fits =
        nonempty n start (value_at fl (primitive w)) _ (ap some (words_read fl bulk w start n fits))
    read_into_lem (constant value m) start n h fits =
        nonempty n start (value_at fl (constant value m)) _
          (ap some (replicate-map (value_at fl (constant value m)) value start n (λ i p q. refl)))
    read_into_lem (sequence base multiplier m) start n h fits =
        nonempty n start (value_at fl (sequence base multiplier m)) _
          (ap some (from_window (value_at fl (sequence base multiplier m)) start n))
    read_into_lem (run_end ends values offset m) start n h fits =
        nonempty n start (value_at fl (run_end ends values offset m)) _ (
          runs_in-eq-values (len ends) (value_at fl ends) (value_at fl values) offset m h start n
            fits)
    read_into_lem (frame_of_reference reference child) start n h fits =
        nonempty n start (value_at fl (frame_of_reference reference child)) _ (
          then-map (λ o. saturating_add reference o) (value_at fl child) start n
            (read_into fl bulk child start n) (read_into_lem child start n h fits))
    read_into_lem (chunked_reference references offset child) start n h fits =
        nonempty n start (value_at fl (chunked_reference references offset child)) _ (
          bound-to fl bulk
            (λ out. some (
              map_indexed
                (λ k o. (o + value_at fl references ((offset + start + k) / fl_chunk)) % u64_mod) 0
                out))
            (read_into fl bulk child start n) _ (read_into_lem child start n h fits)
          ∙ ap some
              (referenced fl bulk (value_at fl references) (value_at fl child) offset start n))
    read_into_lem (bit_packed packed bit_width offset m patches) start n h fits =
        nonempty n start (value_at fl (bit_packed packed bit_width offset m patches)) _
          (read_packed-lem fl bulk packed bit_width offset patches start n m h fits)
    read_into_lem (slice child at m) start n h fits =
        nonempty n start (value_at fl (slice child at m)) _ (
          read_into_lem child (at + start) n h.1 (omega (arith, h.0, fits))
          ∙ ap some (
              map-range_shifted (value_at fl child) (value_at fl (slice child at m)) (at + start)
                start n
                (λ k p.
                  let z : at + start + k ≡ at + (start + k) = omega arith in
                  ap (value_at fl child) z)))
    read_into_lem (chunked chunks m) start n h fits =
        nonempty_if n start (value_at fl (chunked chunks m)) _ (λ p.
          let z : start + 0 ≡ start = omega arith in
          let w : n - 0 ≡ n = omega arith in
          let on = first_chunk chunks m (start + 0) h.0 (omega (arith, fits)) in
          let skip =
            λ (pos : ℕ). partition (chunk_count chunks) (λ c. leb (chunk_start chunks c) pos) - 1 in
          read_chunks-lem chunks (value_at fl (chunked chunks m)) (skip start) start n 0 0 m h.0 h.1
            (chunk_values chunks m h.0)
            (λ q. inr (subst (λ pos. GoesOn chunks (skip pos) (start + 0)) z on)) fits
          ∙ λ i. some (map (value_at fl (chunked chunks m)) (range_from (z i) (w i))))
    read_into_lem (dict codes values) start n h fits =
        nonempty n start (value_at fl (dict codes values)) _ (
          then-map (λ o. value_at fl values o) (value_at fl codes) start n
            (read_into fl bulk codes start n) (read_into_lem codes start n h fits))
    read_into_lem (delta bases deltas width offset m) start n h fits =
        nonempty n start (value_at fl (delta bases deltas width offset m)) _
          (ap some (delta_read bases deltas width offset start n h))
    read_into_lem (sparse fill patches m) start n h fits =
        nonempty n start (value_at fl (sparse fill patches m)) _ (
          ap some (
            ap (overwrite fl bulk patches start)
              (replicate-map (λ i. fill) fill start n (λ i p q. refl))
            ∙ sparse_read fl bulk patches (λ i. fill) start n m h fits))
    read_into_lem (run_length values indices value_offsets base offset m) start n h fits =
        nonempty n start (value_at fl (run_length values indices value_offsets base offset m)) _ (
          ap some (
            from_window (value_at fl (run_length values indices value_offsets base offset m)) start
              n))

    read_chunks-lem :
        (cs : Chunks) (f : ℕ → ℕ) (skip start n before from total : ℕ)
        → IsLaid fl cs from total
        → AreReadable fl cs
        → HoldsValues cs f
        → (before < n → (start + before ≡ total) ⊎ GoesOn cs skip (start + before))
        → start + n ≤ total
        → read_chunks fl bulk cs skip start n before
          ≡ some (map f (range_from (start + before) (n - before)))
    read_chunks-lem done f skip start n before from total laid h holds on fits =
        no_more f (start + before) n before (λ p. elim (on p) [
          | inl e ↦ absurd (omega (arith, e))
          | inr g ↦ absurd (omega (arith, g.0))
        ])
    read_chunks-lem (chunk at node cs) f (suc skip) start n before from total laid h holds on fits =
        read_chunks-lem cs f skip start n before (from + len node) total
          (chunk-IsLaid at node cs from total laid).1 h.1 (rest-HoldsValues at node cs f holds)
          (λ p. elim (on p) [ inl e ↦ inl e | inr g ↦ inr (omega (arith, g.0), g.1, g.2) ]) fits
    read_chunks-lem (chunk at node cs) f zero start n before from total laid h holds on fits =
        elim (Bool-cases (ltb before n)) [
          | inl more ↦
              let less : before < n = ltb→lt before n more in
              let here : GoesOn (chunk at node cs) zero (start + before) = elim (on less) [
                | inl e ↦ absurd (omega (arith, e, less))
                | inr g ↦ g
              ] in
              let inner = start + before - at in
              let count = min (len node - inner) (n - before) in
              let next = before + count in
              let parts = chunk-IsLaid at node cs from total laid in
              let ih = read_into_lem node inner count h.0 (omega (arith, here.2)) in
              let rest =
                read_chunks-lem cs f 0 start n next (from + len node) total parts.1 h.1
                  (rest-HoldsValues at node cs f holds)
                  (λ q.
                    next_chunk cs (from + len node) total (start + next) parts.1
                      (omega (arith, parts.0, here.1, here.2, q)))
                  fits in
              let z : start + next ≡ start + before + count = omega arith in
              let w : count + (n - next) ≡ n - before = omega arith in
              rw more (
                chunk_joined f node at inner (start + before) count (n - next) _ _
                  (omega (arith, here.1))
                  (λ i p. holds 0 i (omega arith) (omega (arith, p, here.2))) ih
                  (rest ∙ ap (λ k. some (map f (range_from k (n - next)))) z)
                ∙ ap (λ k. some (map f (range_from (start + before) k))) w)
          | inr through ↦
              rw through (no_more f (start + before) n before (λ p. absurd (omega tests)))
        ]
