-- ===== src/Dict/Roundtrip.antt =====
-- core/src/store/layouts/dictionary: quads encoded through their dictionary decode to themselves.
use vortex_rdf.Prelude.{
  ℕ, zero, suc, ◌+◌, ◌-◌, ◌≤◌, ◌<◌, ◌≡◌, refl, ap, sym, ◌∙◌, true, false, List, [], ◌∷◌, map,
  Option, none, some, arith, leb, ltb, length, get_or, range_from, length-map,
}
use vortex_rdf.Prelude.Fallible.{Result, ok, ◌>>=◌, collect, prepend}
use vortex_rdf.Dict.Bytes.{Text}
use vortex_rdf.Dict.Chunks.{flat, of_chunks, term_at, term_at-flat}
use vortex_rdf.Dict.Terms.{
  Error, missing, out_of_bounds, ok_or, map_option, code_rank, rank_of, check_code, TermDictionary,
  code_space, code_at,
}
use vortex_rdf.Dict.Rows.{Role, QuadCodes, Quad, codes_at}
use vortex_rdf.Dict.Tracks.{plain_row}
use vortex_rdf.Dict.Plain.{plain_rows, all_or_error}
use vortex_rdf.Dict.Resident.{resident_text, decode_strings, decode_strings-eq-plain}
use vortex_rdf.Dict.Encode.{
  insert_term, sorted_unique_terms, dict_chunk_rows, i32_max, compress_windowed, from_sorted_column,
  rank_in, CodeMap, freeze, from_quads_with_map, encode_column, encode_quads,
}
use vortex_rdf.Dict.Ranks.{
  compress_windowed-flat, held, held-insert_term_self, held-insert_term_other, rank_in-held,
}

-- A list of sorted terms holds the four terms of a quad.
abbrev HoldsQuad : List Text → Quad Text → Type 0
HoldsQuad xs q =
    (held q.s xs ≡ true) × (held q.p xs ≡ true) × (held q.o xs ≡ true) × (held q.g xs ≡ true)

abbrev HoldsAll : List Text → List (Quad Text) → Type 0
HoldsAll xs [] = Unit {0}
HoldsAll xs (q ∷ quads) = HoldsQuad xs q × HoldsAll xs quads

HoldsAll-insert :
    (u : Text) (xs : List Text) (quads : List (Quad Text))
    → HoldsAll xs quads
    → HoldsAll (insert_term u xs) quads
HoldsAll-insert u xs [] h = tt
HoldsAll-insert u xs (q ∷ quads) h =
    let keep = λ (t : Text). held-insert_term_other t u xs in
    (
      (keep q.s h.0.0, keep q.p h.0.1, keep q.o h.0.2, keep q.g h.0.3),
      HoldsAll-insert u xs quads h.1,
    )

sorted_unique_terms-HoldsAll :
    (quads : List (Quad Text)) → HoldsAll (sorted_unique_terms quads) quads
unfolding sorted_unique_terms
sorted_unique_terms-HoldsAll [] = tt
sorted_unique_terms-HoldsAll (q ∷ quads) =
    let rest : List Text = sorted_unique_terms quads in
    let g : List Text = insert_term q.g rest in
    let o : List Text = insert_term q.o g in
    let p : List Text = insert_term q.p o in
    (
      (
        held-insert_term_self q.s p,
        held-insert_term_other q.p q.s p (held-insert_term_self q.p o),
        held-insert_term_other q.o q.s p
            (held-insert_term_other q.o q.p o (held-insert_term_self q.o g)),
        held-insert_term_other q.g q.s p (
            held-insert_term_other q.g q.p o
              (held-insert_term_other q.g q.o g (held-insert_term_self q.g rest))),
      ),
      HoldsAll-insert q.s p quads (
          HoldsAll-insert q.p o quads (
            HoldsAll-insert q.o g quads
              (HoldsAll-insert q.g rest quads (sorted_unique_terms-HoldsAll quads)))),
    )

-- The dictionary and the map of sorted terms that are few enough.
abbrev built_dict : List Text → TermDictionary
built_dict sorted = record {
  terms = of_chunks (compress_windowed sorted dict_chunk_rows);
  base = 0;
}

abbrev built_map : List Text → CodeMap
built_map sorted t = map_option (code_at (code_space (built_dict sorted))) (rank_in t sorted)

freeze-built :
    (sorted : List Text)
    → length sorted ≤ i32_max
    → freeze sorted ≡ ok (built_dict sorted, built_map sorted)
unfolding freeze from_sorted_column
freeze-built sorted h = let e : ltb i32_max (length sorted) ≡ false = ground arith in rw e refl

abbrev code_or_zero : Option ℕ → ℕ
code_or_zero none = 0
code_or_zero (some code) = code

map-suc :
    {A : Type 0} (f : ℕ → A) (a n : ℕ)
    → map f (range_from (suc a) n) ≡ map (λ i. f (suc i)) (range_from a n)
map-suc f a zero = refl
map-suc f a (suc n) = ap (λ xs. f (suc a) ∷ xs) (map-suc f (suc a) n)

module _ (sorted : List Text) where
  abbrev dict : TermDictionary
  dict = built_dict sorted

  abbrev text : Role → ℕ → Result Error Text
  text role code = resident_text dict code

  code_of : Text → ℕ
  code_of t = code_or_zero (built_map sorted t)

  whole : flat (compress_windowed sorted dict_chunk_rows) ≡ sorted
  whole = compress_windowed-flat sorted dict_chunk_rows (omega arith)

  rank_of-dict : (r : ℕ) → r < length sorted → rank_of (code_space dict) (0 + r) ≡ some r
  unfolding rank_of code_rank of_chunks
  rank_of-dict r h =
      let e : 0 + r - 0 ≡ r = omega arith in
      let p : leb 0 (0 + r) ≡ true = ground arith in
      let q : ltb r (length (flat (compress_windowed sorted dict_chunk_rows))) ≡ true =
        ground (arith, ap length whole) in
      rw (p, e) (rw q refl)

  term_at-dict : (r : ℕ) → r < length sorted → term_at dict.terms r ≡ get_or sorted r []
  term_at-dict r h =
      term_at-flat (compress_windowed sorted dict_chunk_rows) r (omega (arith, ap length whole))
      ∙ ap (λ xs. get_or xs r []) whole

  -- A held term has a code, which is read as the term.
  code_of-held :
      (t : Text)
      → held t sorted ≡ true
      → (built_map sorted t ≡ some (code_of t)) × (resident_text dict (code_of t) ≡ ok t)
  unfolding code_of resident_text check_code
  code_of-held t h =
      let (r, found, inside, same) = rank_in-held t sorted h in
      let e : built_map sorted t ≡ some (0 + r) =
        ap (map_option (code_at (code_space dict))) found in
      let f : code_of t ≡ 0 + r = ap code_or_zero e in
      let g : resident_text dict (0 + r) ≡ ok (term_at dict.terms r) =
        ap (λ o. ok_or (out_of_bounds (0 + r)) o >>= λ rank. ok (term_at dict.terms rank))
          (rank_of-dict r inside) in
      (e ∙ ap some (sym f), ap (resident_text dict) f ∙ g ∙ ap ok (term_at-dict r inside ∙ same))

  encode_column-held :
      (term_of : Quad Text → Text) (quads : List (Quad Text))
      → ((q : Quad Text) → HoldsQuad sorted q → held (term_of q) sorted ≡ true)
      → HoldsAll sorted quads
      → encode_column (built_map sorted) term_of quads ≡ ok (map (λ q. code_of (term_of q)) quads)
  unfolding encode_column
  encode_column-held term_of [] pick h = refl
  encode_column-held term_of (q ∷ quads) pick h =
      ap
        (λ o. collect (
          ok_or (missing (term_of q)) o
          ∷ map (λ r. ok_or (missing (term_of r)) (built_map sorted (term_of r))) quads))
        (code_of-held (term_of q) (pick q h.0)).0
      ∙ ap (prepend (code_of (term_of q))) (encode_column-held term_of quads pick h.1)

  abbrev codes_of : List (Quad Text) → QuadCodes
  codes_of quads = record {
    s = map (λ q. code_of q.s) quads;
    p = map (λ q. code_of q.p) quads;
    o = map (λ q. code_of q.o) quads;
    g = map (λ q. code_of q.g) quads;
  }

  encode_quads-held :
      (quads : List (Quad Text))
      → HoldsAll sorted quads
      → encode_quads quads (built_map sorted) ≡ ok (codes_of quads)
  unfolding encode_quads
  encode_quads-held quads h =
      let cs = encode_column-held (λ q. q.s) quads (λ q r. r.0) h in
      let cp = encode_column-held (λ q. q.p) quads (λ q r. r.1) h in
      let co = encode_column-held (λ q. q.o) quads (λ q r. r.2) h in
      let cg = encode_column-held (λ q. q.g) quads (λ q r. r.3) h in
      λ i. cs i >>= λ s.
      cp i >>= λ p. co i >>= λ o. cg i >>= λ g. ok (record { s = s; p = p; o = o; g = g })

  plain_row-held :
      (q : Quad Text)
      → HoldsQuad sorted q
      → plain_row
          (λ role t. ok t)
          text
          (record { s = code_of q.s; p = code_of q.p; o = code_of q.o; g = code_of q.g })
        ≡ ok q
  unfolding plain_row
  plain_row-held q h = λ i. ((code_of-held q.s h.0).1 i >>= λ t. ok t) >>= λ s.
      ((code_of-held q.p h.1).1 i >>= λ t. ok t) >>= λ p.
      ((code_of-held q.o h.2).1 i >>= λ t. ok t) >>= λ o.
      ((code_of-held q.g h.3).1 i >>= λ t. ok t) >>= λ g. ok (record { s = s; p = p; o = o; g = g })

  plain_rows-held :
      (quads : List (Quad Text))
      → HoldsAll sorted quads
      → plain_rows (λ role t. ok t) text (codes_of quads) (range_from 0 (length quads))
        ≡ map ok quads
  plain_rows-held [] h = refl
  plain_rows-held (q ∷ quads) h = λ i.
      plain_row-held q h.0 i
      ∷ (map-suc (λ k. plain_row (λ role t. ok t) text (codes_at (codes_of (q ∷ quads)) k)) 0
              (length quads)
            ∙ plain_rows-held quads h.1)
          i

  collect-ok : (quads : List (Quad Text)) → collect {E = Error} (map ok quads) ≡ ok quads
  collect-ok [] = refl
  collect-ok (q ∷ quads) = ap (prepend q) (collect-ok quads)

  decode_strings-held :
      (quads : List (Quad Text))
      → HoldsAll sorted quads
      → decode_strings dict (codes_of quads) ≡ map ok quads
  decode_strings-held quads h =
      decode_strings-eq-plain dict (codes_of quads)
      ∙ ap
          (λ n.
            all_or_error
              (collect (plain_rows (λ role t. ok t) text (codes_of quads) (range_from 0 n))))
          (length-map (λ q. code_of q.s) quads)
      ∙ ap (λ rows. all_or_error (collect rows)) (plain_rows-held quads h)
      ∙ ap all_or_error (collect-ok quads)

-- Quads whose unique terms number no more than an `i32` counts are encoded through the dictionary
-- built from them, and the chunk decoded against that dictionary is the quads again, in order.
pub decode_strings-encode_quads :
    (quads : List (Quad Text))
    → length (sorted_unique_terms quads) ≤ i32_max
    → (from_quads_with_map quads >>= λ built.
        encode_quads quads built.1 >>= λ codes. ok (decode_strings built.0 codes))
      ≡ ok (map ok quads)
unfolding from_quads_with_map
decode_strings-encode_quads quads h =
    let sorted : List Text = sorted_unique_terms quads in
    let holds = sorted_unique_terms-HoldsAll quads in
    ap
      (λ b.
        b >>= λ built. encode_quads quads built.1 >>= λ codes. ok (decode_strings built.0 codes))
      (freeze-built sorted h)
    ∙ ap (λ c. c >>= λ codes. ok (decode_strings (built_dict sorted) codes))
        (encode_quads-held sorted quads holds)
    ∙ ap ok (decode_strings-held sorted quads holds)
