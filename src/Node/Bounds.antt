-- ===== src/Node/Bounds.antt =====
-- encoded-search/src/node.rs, `Node::lower_bound`: every node's own search answers what a bisection
-- of its point reads does.
use vortex_rdf.Prelude.{
  ℕ, zero, suc, ◌+◌, ◌-◌, ◌<◌, ◌≡◌, sym, inl, inr, arith, tests, Bool-cases, ltb, leb, ltb→lt,
  leb→lt, le→ltb, le→leb, if◌then◌else◌,
}
use vortex_rdf.Search.Partition.{
  partition, IsSplit, IsMonotone, partition-IsSplit, IsSplit-unique, IsSplit-congr,
  IsMonotone-congr,
}
use vortex_rdf.Search.Agrees.{under, up_to}
use vortex_rdf.Words
use vortex_rdf.Node.Tree.{
  Node, Chunks, primitive, constant, sequence, run_end, frame_of_reference, chunked_reference,
  bit_packed, slice, chunked, dict, delta, sparse, run_length, done, chunk, len, chunk_len,
  chunk_count, u64_mod, FastLanes,
}
use vortex_rdf.Node.Values.{
  value_at, lower_bound, upper_bound, chunk_value, chunk_lower_bound, saturating_add,
}
use vortex_rdf.Node.Formed.{IsFormed, IsLaid}
use vortex_rdf.Node.Kinds.{
  chunked-IsSplit, constant-IsSplit, run_end-IsSplit, search_ascending-IsSplit, sequence-IsSplit,
  shifted,
}

reference-IsSplit :
    (reference n needle : ℕ) (value : ℕ → ℕ) (inner : ℕ)
    → reference < u64_mod
    → needle < u64_mod
    → IsMonotone n (λ i. ltb (saturating_add reference (value i)) needle)
    → (reference < needle
        → IsMonotone n (under value (needle - reference))
        → IsSplit n (under value (needle - reference)) inner)
    → IsSplit n
        (λ i. ltb (saturating_add reference (value i)) needle)
        (if leb needle reference then 0 else inner)
reference-IsSplit reference n needle value inner small fits mono child =
    elim (Bool-cases (leb needle reference)) [
      | inl low ↦ rw low (record {
        within = omega arith;
        passing = λ i p. absurd (omega arith);
        failing = λ i p q. le→ltb _ _ (omega tests);
      })
      | inr high ↦
          let h : reference < needle = leb→lt _ _ high in
          let same : (i : ℕ)
              → i < n
              → under value (needle - reference) i
                ≡ ltb (saturating_add reference (value i)) needle =
            λ i p. shifted reference (value i) needle h fits in
          rw high
            (IsSplit-congr _ inner same (child h (IsMonotone-congr _ (λ i p. sym (same i p)) mono)))
    ]

module _ (fl : FastLanes) where
  mutual
    unfolding IsFormed value_at len chunk_len

    pub node-IsSplit :
        (node : Node) (needle : ℕ)
        → needle < u64_mod
        → IsFormed fl node
        → IsMonotone (len node) (under (value_at fl node) needle)
        → IsSplit (len node) (under (value_at fl node) needle) (lower_bound fl node needle)
    node-IsSplit (primitive w) needle small formed mono =
        Words.lower_bound-IsSplit w needle formed mono
    node-IsSplit (constant value n) needle small formed mono = constant-IsSplit value n needle
    node-IsSplit (sequence base multiplier n) needle small formed mono =
        sequence-IsSplit base multiplier n needle formed.0 formed.1
    node-IsSplit (run_end ends values offset n) needle small formed mono =
        run_end-IsSplit (len ends) (value_at fl ends) (value_at fl values) offset n needle formed
          mono
    node-IsSplit (frame_of_reference reference child) needle small formed mono =
        reference-IsSplit reference (len child) needle (value_at fl child) _ formed.0 small mono
          (λ h m. node-IsSplit child (needle - reference) (omega arith) formed.2 m)
    node-IsSplit (chunked_reference references offset child) needle small formed mono =
        partition-IsSplit mono
    node-IsSplit (bit_packed packed bit_width offset n patches) needle small formed mono =
        search_ascending-IsSplit n _ needle mono
    node-IsSplit (slice child start n) needle small formed mono = partition-IsSplit mono
    node-IsSplit (chunked cs n) needle small formed mono =
        chunked-IsSplit fl cs n needle formed mono
          (λ c h m. chunk_lower_bound-IsSplit cs c needle small 0 n formed h m)
    node-IsSplit (dict codes values) needle small formed mono = partition-IsSplit mono
    node-IsSplit (delta bases deltas width offset n) needle small formed mono =
        partition-IsSplit mono
    node-IsSplit (sparse fill patches n) needle small formed mono = partition-IsSplit mono
    node-IsSplit (run_length values indices value_offsets base offset n) needle small formed mono =
        partition-IsSplit mono

    chunk_lower_bound-IsSplit :
        (cs : Chunks) (c needle : ℕ)
        → needle < u64_mod
        → (from total : ℕ) → IsLaid fl cs from total
        → c < chunk_count cs
        → IsMonotone (chunk_len cs c) (under (chunk_value fl cs c) needle)
        → IsSplit
            (chunk_len cs c)
            (under (chunk_value fl cs c) needle)
            (chunk_lower_bound fl cs c needle)
    chunk_lower_bound-IsSplit done c needle small from total laid h mono = absurd (omega arith)
    chunk_lower_bound-IsSplit (chunk start node cs) zero needle small from total laid h mono =
        node-IsSplit node needle small laid.2 mono
    chunk_lower_bound-IsSplit (chunk start node cs) (suc c) needle small from total laid h mono =
        chunk_lower_bound-IsSplit cs c needle small (from + len node) total laid.3 (omega arith)
          mono

  -- Over a well-formed node's values, of which those below the needle, a `u64`, come first, the lower
  -- bound is the bisection's, whatever the encoding: the first index whose value is not below.
  pub lower_bound-eq-partition :
      (node : Node) (needle : ℕ)
      → needle < u64_mod
      → IsFormed fl node
      → IsMonotone (len node) (under (value_at fl node) needle)
      → lower_bound fl node needle ≡ partition (len node) (under (value_at fl node) needle)
  lower_bound-eq-partition node needle small formed mono =
      IsSplit-unique _ _ (node-IsSplit node needle small formed mono) (partition-IsSplit mono)

  -- Over a well-formed node's words, of which those up to the needle come first, the upper bound is
  -- the first index whose value is above the needle, also where the needle is the largest `u64`,
  -- which has no successor to search for.
  pub upper_bound-IsSplit :
      (node : Node) (needle : ℕ)
      → needle < u64_mod
      → IsFormed fl node
      → ((i : ℕ) → i < len node → value_at fl node i < u64_mod)
      → IsMonotone (len node) (up_to (value_at fl node) needle)
      → IsSplit (len node) (up_to (value_at fl node) needle) (upper_bound fl node needle)
  unfolding upper_bound
  upper_bound-IsSplit node needle small formed words mono =
      elim (Bool-cases (ltb (needle + 1) u64_mod)) [
        | inl next ↦ rw next (
            IsSplit-congr _ _ (λ i p. successor i)
              (node-IsSplit node (needle + 1) (ltb→lt _ _ next) formed
                (IsMonotone-congr _ (λ i p. sym (successor i)) mono)))
        | inr largest ↦ rw largest (record {
          within = omega arith;
          passing = λ i p. le→leb _ _ (omega (tests, words i p));
          failing = λ i p q. absurd (omega arith);
        })
      ]
    where
      successor : (i : ℕ) → ltb (value_at fl node i) (needle + 1) ≡ leb (value_at fl node i) needle
      successor i = ground arith
