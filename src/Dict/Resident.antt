-- ===== src/Dict/Resident.antt =====
-- core/src/store/layouts/dictionary/codec/mod.rs: `DictTerms`, the terms of a resident dictionary,
-- and `decode_resident`. Its cursors hold scratch buffers alone, which no read depends on.
use mathlib.Core.List.{append-nil}
use vortex_rdf.Prelude.{
  ℕ, arith, ◌+◌, ◌≤◌, ◌≡◌, refl, ap, ◌∙◌, Bool, true, false, ◌||◌, some, List, [], ◌∷◌, ◌++◌, map,
  length, ltb, range_from,
}
use vortex_rdf.Prelude.Fallible.{Result, ok, err, ◌>>=◌, collect}
use vortex_rdf.Dict.Bytes.{Text}
use vortex_rdf.Dict.Chunks.{term_at}
use vortex_rdf.Dict.Terms.{Error, out_of_bounds, check_code, rank_of, TermDictionary, code_space}
use vortex_rdf.Dict.Rows.{
  Role, subject, predicate, object, graph, QuadCodes, Quad, TermSource, decode_rows,
  decode_rows_shared,
}
use vortex_rdf.Dict.Tracks.{IsSound}
use vortex_rdf.Dict.Plain.{
  plain_rows, all_or_error, decode_rows-eq-plain, decode_rows_shared-eq-plain,
}
use vortex_rdf.Dict.Lines.{
  NQuadLines, zip, lines_of_codes, finished, write_role, term_code_max, new_spans, Writing, term,
  graph_term, spans_of, span_of, copied, spaced, space,
}
use vortex_rdf.Dict.Printout.{spelled, push_rows, no_lines, AllCodes, lines_of_codes-eq-push}

-- The spelling of a code, or the error of a code that no term has.
unfoldable pub resident_text : TermDictionary → ℕ → Result Error Text
unfolding check_code
resident_text d code = check_code code (code_space d) >>= λ rank. ok (term_at d.terms rank)

abbrev pub dict_terms : TermDictionary → TermSource Error Text
dict_terms d = record {
  State = Unit {0};
  str_at = λ st role code. (resident_text d code, st);
  gave_up = λ st. false;
}

dict_terms-IsSound :
    (d : TermDictionary) → IsSound (dict_terms d) (λ role code. resident_text d code)
dict_terms-IsSound d = record {
  reads = λ st role code h. refl;
  stays = λ st role code h. absurd (cc h);
}

module _ (d : TermDictionary) where
  unfoldable pub decode_quads :
      {V : Type 0} → (Role → Text → Result Error V) → QuadCodes → List (Result Error (Quad V))
  decode_quads parse cols = (decode_rows (dict_terms d) parse cols tt).0

  unfoldable pub decode_strings : QuadCodes → List (Result Error (Quad Text))
  decode_strings cols = (decode_rows_shared (dict_terms d) (λ role t. ok t) cols tt).0

  unfoldable pub decode_lines : QuadCodes → Result Error NQuadLines
  decode_lines cols = (lines_of_codes (dict_terms d) cols tt).0

  -- The rows decoded against a resident dictionary are the rows read with no memo.
  pub decode_quads-eq-plain :
      {V : Type 0} (parse : Role → Text → Result Error V) (cols : QuadCodes)
      → decode_quads parse cols
        ≡ plain_rows parse (λ role code. resident_text d code) cols (range_from 0 (length cols.s))
  unfolding decode_quads
  decode_quads-eq-plain parse cols =
      decode_rows-eq-plain (dict_terms d) parse (λ role code. resident_text d code)
        (dict_terms-IsSound d) cols tt refl

  -- The rows of spellings decoded against a resident dictionary are the rows read with no memo, or
  -- the first failed row's error alone.
  pub decode_strings-eq-plain :
      (cols : QuadCodes)
      → decode_strings cols
        ≡ all_or_error (
            collect (
              plain_rows
                (λ role t. ok t)
                (λ role code. resident_text d code)
                cols
                (range_from 0 (length cols.s))))
  unfolding decode_strings
  decode_strings-eq-plain cols =
      decode_rows_shared-eq-plain (dict_terms d) (λ role t. ok t)
        (λ role code. resident_text d code) (dict_terms-IsSound d) cols tt refl

  -- The N-Quads lines decoded against a resident dictionary, over codes below the largest word, are
  -- those pushed for the rows of spellings, or the first failed read's error.
  pub decode_lines-eq-push :
      (cols : QuadCodes)
      → AllCodes (zip cols.s cols.p cols.o cols.g)
      → decode_lines cols ≡ (
          collect
            (map (spelled (λ role code. resident_text d code)) (zip cols.s cols.p cols.o cols.g))
          >>= λ rows. ok (push_rows rows no_lines))
  unfolding decode_lines
  decode_lines-eq-push cols codes =
      lines_of_codes-eq-push (dict_terms d) (λ role code. resident_text d code)
        (dict_terms-IsSound d) cols tt codes refl

-- The lines as `NQuadLines` writes an empty term in a role: a space, or nothing for a graph.
abbrev pub empty_term : Role → NQuadLines → NQuadLines
empty_term subject lines = term [] lines
empty_term predicate lines = term [] lines
empty_term object lines = term [] lines
empty_term graph lines = graph_term [] lines

or-false : (b : Bool) → (b || false) ≡ b
or-false true = refl
or-false false = refl

plain :
    (lines : NQuadLines)
    → ◌≡◌ {A = NQuadLines}
        (record lines {
          text = (lines.text ++ []) ++ space ∷ [];
          named_graph = lines.named_graph || false;
        })
        (term [] lines)
unfolding term
plain lines = λ i. record lines {
  text = (lines.text ++ []) ++ space ∷ [];
  named_graph = or-false lines.named_graph i;
}

module _ {E : Type 0} (src : TermSource E Text) where
  finished_empty :
      (role : Role) (w : Writing src)
      → ((finished src role term_code_max w [] w.source).0 ≡ ok tt)
        × ((finished src role term_code_max w [] w.source).1.lines ≡ empty_term role w.lines)
  unfolding finished spaced term graph_term
  finished_empty subject w = (refl, plain w.lines)
  finished_empty predicate w = (refl, plain w.lines)
  finished_empty object w = (refl, plain w.lines)
  finished_empty graph w =
      let same = append-nil w.lines.text in
      let none' : ltb (length w.lines.text) (length (w.lines.text ++ [])) ≡ false =
        ap (λ t. ltb (length w.lines.text) (length t)) same ∙ ground arith in
      (refl, rw none' (λ i. record w.lines { text = same i }))

  -- An unused slot of the largest word answers with the empty span at the start of the text.
  write_role-largest :
      (role : Role) (w : Writing src)
      → spans_of w.spans role ≡ new_spans
      → ((write_role src role term_code_max w).0 ≡ ok tt)
        × ((write_role src role term_code_max w).1.lines ≡ empty_term role w.lines)
  unfolding write_role copied span_of
  write_role-largest role w unused =
      let held : span_of (spans_of w.spans role) term_code_max ≡ some (0, 0) =
        ap (λ slots. span_of slots term_code_max) unused ∙ unfold new_spans in refl in
      rw held (finished_empty role w)

-- The largest word is the code that an unused slot holds, with an empty span: where no term of the
-- role is remembered, whatever lines are written so far, the code is written as an empty term, though
-- a dictionary of codes below it refuses to read the code.
pub largest_code_written :
    (d : TermDictionary) (role : Role) (w : Writing (dict_terms d))
    → d.base + d.terms.len ≤ term_code_max
    → spans_of w.spans role ≡ new_spans
    → ((write_role (dict_terms d) role term_code_max w).0 ≡ ok tt)
      × ((write_role (dict_terms d) role term_code_max w).1.lines ≡ empty_term role w.lines)
      × (resident_text d term_code_max ≡ err (out_of_bounds term_code_max))
unfolding resident_text rank_of
largest_code_written d role w small unused =
    let written = write_role-largest (dict_terms d) role w unused in
    (written.0, written.1, ground arith)
