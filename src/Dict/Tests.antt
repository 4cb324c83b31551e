-- ===== src/Dict/Tests.antt =====
-- The dictionary and the codec on concrete terms and codes, and each theorem at an input.
use vortex_rdf.Prelude.{
  false, ◌≡◌, ◌↔◌, refl, List, [], ◌∷◌, map, none, some, arith, ltb, range_from,
}
use vortex_rdf.Prelude.Fallible.{ok, err, ◌>>=◌, collect}
use vortex_rdf.View.Selection.{span, range_contains}
use vortex_rdf.Search.Partition.{IsSplit, IsMonotone, IsWindow-whole}
use vortex_rdf.Dict.Bytes.{Text, text_cmp, starts_with, prefix_successor}
use vortex_rdf.Dict.Searches.{
  lower_bound_by, next_lower_bound_by, gallop_lower_bound_by, find_by, next_lower_bound_by-IsSplit,
}
use vortex_rdf.Dict.Chunks.{of_chunks, term_at, chunk_of}
use vortex_rdf.Dict.Terms.{
  out_of_bounds, TermDictionary, code_space, code_at, decode, encode_exact, prefix_range,
  lower_bound,
}
use vortex_rdf.Dict.Lookup.{IsSorted, steps-IsSorted, encode_exact_iff, prefix_range-contains}
use vortex_rdf.Dict.Rows.{subject, QuadCodes, Quad, read_parsed, decode_rows_shared}
use vortex_rdf.Dict.Memo.{get_or_insert}
use vortex_rdf.Prelude.Checks.{each_below}
use vortex_rdf.Dict.Plain.{plain_rows, all_or_error}
use vortex_rdf.Dict.Lines.{Writing, zip, push, lines_of_codes, term_code_max, write_role, new_lines}
use vortex_rdf.Dict.Printout.{spelled, push_rows, no_lines}
use vortex_rdf.Dict.Resident.{
  resident_text, dict_terms, decode_quads, decode_strings, decode_lines, decode_quads-eq-plain,
  decode_strings-eq-plain, decode_lines-eq-push, empty_term, largest_code_written,
}
use vortex_rdf.Dict.Encode.{sorted_unique_terms, from_quads_with_map, encode_quads}
use vortex_rdf.Dict.Roundtrip.{decode_strings-encode_quads}

-- The terms "", "<a>", "<b>" and "_:x" in two chunks.
abbrev a_iri : Text
a_iri = 60 ∷ 97 ∷ 62 ∷ []

abbrev b_iri : Text
b_iri = 60 ∷ 98 ∷ 62 ∷ []

abbrev blank : Text
blank = 95 ∷ 58 ∷ 120 ∷ []

abbrev four_terms : TermDictionary
four_terms = record { terms = of_chunks (([] ∷ a_iri ∷ []) ∷ (b_iri ∷ blank ∷ []) ∷ []); base = 0 }

four_terms-IsSorted : IsSorted four_terms
unfolding of_chunks term_at text_cmp each_below chunk_of
four_terms-IsSorted = steps-IsSorted four_terms refl

abbrev chunk : QuadCodes
chunk = record { s = 1 ∷ 1 ∷ 2 ∷ []; p = 2 ∷ 2 ∷ 2 ∷ []; o = 3 ∷ 1 ∷ 3 ∷ []; g = 0 ∷ 0 ∷ 1 ∷ [] }

-- A code that no term has, in the second row.
abbrev bad_chunk : QuadCodes
bad_chunk = record { s = 1 ∷ 1 ∷ []; p = 2 ∷ 9 ∷ []; o = 3 ∷ 1 ∷ []; g = 0 ∷ 0 ∷ [] }

abbrev quads : List (Quad Text)
quads =
    record { s = a_iri; p = b_iri; o = blank; g = [] }
    ∷ record { s = a_iri; p = b_iri; o = a_iri; g = [] }
    ∷ record { s = b_iri; p = b_iri; o = blank; g = a_iri }
    ∷ []

decoded : decode_strings four_terms chunk ≡ map ok quads
unfolding decode_strings decode_rows_shared read_parsed get_or_insert resident_text term_at
    of_chunks chunk_of
decoded = refl

refused : decode_strings four_terms bad_chunk ≡ err (out_of_bounds 9) ∷ []
unfolding decode_strings decode_rows_shared read_parsed get_or_insert resident_text term_at
    of_chunks chunk_of
refused = refl

printed : decode_lines four_terms bad_chunk ≡ err (out_of_bounds 9)
unfolding decode_lines lines_of_codes resident_text term_at of_chunks chunk_of
printed = refl

-- The first line copies no term and the second copies the first's subject and predicate.
two_lines :
    decode_lines four_terms
      (record { s = 1 ∷ 1 ∷ []; p = 2 ∷ 2 ∷ []; o = 3 ∷ 1 ∷ []; g = 0 ∷ 1 ∷ [] })
    ≡ ok (
        push_rows
          (record { s = a_iri; p = b_iri; o = blank; g = [] }
            ∷ record { s = a_iri; p = b_iri; o = a_iri; g = a_iri }
            ∷ [])
          no_lines)
unfolding decode_lines lines_of_codes resident_text term_at of_chunks chunk_of push
two_lines = refl

galloped :
    (gallop_lower_bound_by 2 50 (λ i. ltb i 37) ≡ 37)
    × (next_lower_bound_by 2 50 3 (λ i. ltb i 37) ≡ 37)
unfolding gallop_lower_bound_by next_lower_bound_by
galloped = (refl, refl)

in_prefix : prefix_range four_terms (60 ∷ []) ≡ span 1 3
unfolding prefix_range lower_bound lower_bound_by prefix_successor text_cmp term_at of_chunks
    chunk_of
in_prefix = refl

looked_up : (encode_exact four_terms b_iri ≡ some 2) × (encode_exact four_terms (60 ∷ []) ≡ none)
unfolding encode_exact find_by text_cmp term_at of_chunks chunk_of
looked_up = (refl, refl)

encode_exact_iff_example :
    (encode_exact four_terms b_iri ≡ some 2) ↔ (decode four_terms 2 ≡ some b_iri)
encode_exact_iff_example = encode_exact_iff four_terms four_terms-IsSorted b_iri 2

prefix_range-contains_example :
    range_contains (prefix_range four_terms (60 ∷ [])) (code_at (code_space four_terms) 2)
    ≡ starts_with (60 ∷ []) (term_at four_terms.terms 2)
unfolding of_chunks term_at chunk_of
prefix_range-contains_example =
    prefix_range-contains four_terms four_terms-IsSorted (60 ∷ []) 2 (omega arith) (omega arith)

below_37-IsMonotone : IsMonotone 50 (λ i. ltb i 37)
below_37-IsMonotone i j p q h = ground arith

next_lower_bound_by-IsSplit_example :
    IsSplit 50 (λ i. ltb i 37) (next_lower_bound_by 0 50 3 (λ i. ltb i 37))
next_lower_bound_by-IsSplit_example =
    next_lower_bound_by-IsSplit below_37-IsMonotone 0 3 (omega arith) IsWindow-whole

decode_quads-eq-plain_example :
    decode_quads four_terms (λ role t. ok t) bad_chunk
    ≡ plain_rows
        (λ role t. ok t)
        (λ role code. resident_text four_terms code)
        bad_chunk
        (range_from 0 2)
decode_quads-eq-plain_example = decode_quads-eq-plain four_terms (λ role t. ok t) bad_chunk

decode_strings-eq-plain_example :
    decode_strings four_terms bad_chunk
    ≡ all_or_error (
        collect (
          plain_rows
            (λ role t. ok t)
            (λ role code. resident_text four_terms code)
            bad_chunk
            (range_from 0 2)))
decode_strings-eq-plain_example = decode_strings-eq-plain four_terms bad_chunk

decode_lines-eq-push_example : decode_lines four_terms chunk ≡ (
    collect (
      map
        (spelled (λ role code. resident_text four_terms code))
        (zip chunk.s chunk.p chunk.o chunk.g))
    >>= λ rows. ok (push_rows rows no_lines))
unfolding zip
decode_lines-eq-push_example = decode_lines-eq-push four_terms chunk (omega arith)

decode_strings-encode_quads_example :
    (from_quads_with_map quads >>= λ built.
    encode_quads quads built.1 >>= λ codes. ok (decode_strings built.0 codes))
    ≡ ok (map ok quads)
unfolding sorted_unique_terms text_cmp
decode_strings-encode_quads_example = decode_strings-encode_quads quads (omega arith)

-- Some lines are written, and no subject is remembered.
abbrev after_a_line : Writing (dict_terms four_terms)
after_a_line = record (new_lines (dict_terms four_terms) tt) {
  lines = record { text = 60 ∷ 97 ∷ 62 ∷ 32 ∷ 46 ∷ 10 ∷ []; named_graph = false };
}

largest_code_written_example :
    ((write_role (dict_terms four_terms) subject term_code_max after_a_line).0 ≡ ok tt)
    × ((write_role (dict_terms four_terms) subject term_code_max after_a_line).1.lines
        ≡ empty_term subject after_a_line.lines)
    × (resident_text four_terms term_code_max ≡ err (out_of_bounds term_code_max))
unfolding of_chunks
largest_code_written_example =
    largest_code_written four_terms subject after_a_line (omega arith) refl
