-- ===== src/Dict/Lines.antt =====
-- core/src/store/layouts/dictionary/codec/mod.rs, `DecodeRows for NQuadLines` and `SpanMemo`: a
-- chunk's codes written as N-Quads lines, a repeated term copied from the lines already written; and
-- core/src/common/quad.rs, `NQuadLines`, which writes the lines of rows of spellings.
use vortex_rdf.Prelude.{
  ℕ, ◌%◌, Bool, true, false, not, ◌||◌, List, [], ◌∷◌, ◌++◌, Option, none, some, if◌then◌else◌, ltb,
  ◌==◌, length, get_or, replicate,
}
use vortex_rdf.Prelude.Arrays.{set}
use vortex_rdf.Prelude.Fallible.{Result, ok, err, ◌>>=◌}
use vortex_rdf.View.Selection.{slice}
use vortex_rdf.Dict.Bytes.{Text}
use vortex_rdf.Dict.Rows.{Role, subject, predicate, object, graph, QuadCodes, Quad, TermSource}

pub record NQuadLines : Type 0 where
  pub text : Text
  pub named_graph : Bool

abbrev pub space : ℕ
space = 0x20

-- The bytes of `".\n"`.
abbrev pub line_end : Text
line_end = 0x2E ∷ 0x0A ∷ []

abbrev pub is_empty : Text → Bool
is_empty [] = true
is_empty (x ∷ xs) = false

-- `NQuadLines::term`, `NQuadLines::end` and `NQuadLines::push`.
unfoldable pub term : Text → NQuadLines → NQuadLines
term t lines = record lines { text = (lines.text ++ t) ++ space ∷ [] }

abbrev pub ended : NQuadLines → NQuadLines
ended lines = record lines { text = lines.text ++ line_end }

unfoldable pub graph_term : Text → NQuadLines → NQuadLines
unfolding term
graph_term g lines = if is_empty g then lines else term g (record lines { named_graph = true })

unfoldable pub end : Text → NQuadLines → NQuadLines
unfolding graph_term
end g lines = ended (graph_term g lines)

unfoldable pub push : Quad Text → NQuadLines → NQuadLines
unfolding term end
push q lines = end q.g (term q.o (term q.p (term q.s lines)))

abbrev pub term_code_max : ℕ
term_code_max = 0xFFFF_FFFF_FFFF_FFFF

abbrev pub span_slots : ℕ
span_slots = 256

-- A slot: the code it holds, and where its term's span starts and ends. A mask of 255 is a remainder
-- by 256.
abbrev pub Slot : Type 0
Slot = ℕ × ℕ × ℕ

unfoldable pub new_spans : List Slot
new_spans = replicate span_slots (term_code_max, 0, 0)

abbrev pub held_span : Slot → ℕ → Option (ℕ × ℕ)
held_span (held, start, stop) code = if held == code then some (start, stop) else none

unfoldable pub span_of : List Slot → ℕ → Option (ℕ × ℕ)
span_of slots code = held_span (get_or slots (code % span_slots) (term_code_max, 0, 0)) code

unfoldable pub put_span : List Slot → ℕ → ℕ → ℕ → List Slot
put_span slots code start stop = set slots (code % span_slots) (code, start, stop)

pub record Spans : Type 0 where
  pub ss : List Slot
  pub ps : List Slot
  pub os : List Slot
  pub gs : List Slot

abbrev pub spans_of : Spans → Role → List Slot
spans_of m subject = m.ss
spans_of m predicate = m.ps
spans_of m object = m.os
spans_of m graph = m.gs

abbrev pub put_spans : Spans → Role → List Slot → Spans
put_spans m subject slots = record m { ss = slots }
put_spans m predicate slots = record m { ps = slots }
put_spans m object slots = record m { os = slots }
put_spans m graph slots = record m { gs = slots }

abbrev pub is_graph : Role → Bool
is_graph subject = false
is_graph predicate = false
is_graph object = false
is_graph graph = true

-- The rows of four columns zipped.
unfoldable pub zip : List ℕ → List ℕ → List ℕ → List ℕ → List (Quad ℕ)
zip (a ∷ s) (b ∷ p) (c ∷ o) (d ∷ g) = record { s = a; p = b; o = c; g = d } ∷ zip s p o g
zip (a ∷ s) (b ∷ p) (c ∷ o) [] = []
zip (a ∷ s) (b ∷ p) [] g = []
zip (a ∷ s) [] o g = []
zip [] p o g = []

module _ {E : Type 0} (src : TermSource E Text) where
  pub record Writing : Type 0 where
    pub lines : NQuadLines
    pub spans : Spans
    pub source : src.State

  abbrev pub Write : Type 0
  Write = Writing → Result E (Unit {0}) × Writing

  -- A graph is followed by its space only when there is one.
  unfoldable pub spaced : Role → ℕ → NQuadLines → NQuadLines
  spaced role start lines =
      if not (is_graph role) || ltb start (length lines.text)
      then record lines {
        text = lines.text ++ space ∷ [];
        named_graph = lines.named_graph || is_graph role;
      }
      else lines

  -- The term's span is put under its code, and the space follows.
  unfoldable pub finished : Role → ℕ → Writing → Text → src.State → Result E (Unit {0}) × Writing
  unfolding spaced put_span
  finished role code w t st =
      let start = length w.lines.text in
      let written = record w.lines { text = w.lines.text ++ t } in
      (
        ok tt,
        record {
          lines = spaced role start written;
          spans =
              put_spans w.spans role
                (put_span (spans_of w.spans role) code start (length written.text));
          source = st;
        },
      )

  unfoldable pub read_term :
      Role → ℕ → Writing → Result E Text × src.State → Result E (Unit {0}) × Writing
  unfolding finished
  read_term role code w (ok t, st) = finished role code w t st
  read_term role code w (err e, st) = (err e, record w { source = st })

  unfoldable pub copied : Role → ℕ → Writing → Option (ℕ × ℕ) → Result E (Unit {0}) × Writing
  unfolding finished read_term
  copied role code w (some (start, stop)) =
      finished role code w (slice w.lines.text start stop) w.source
  copied role code w none = read_term role code w (src.str_at w.source role code)

  unfoldable pub write_role : Role → ℕ → Write
  unfolding copied span_of
  write_role role code w = copied role code w (span_of (spans_of w.spans role) code)

  abbrev pub proceed : Write → Result E (Unit {0}) × Writing → Result E (Unit {0}) × Writing
  proceed f (ok u, w) = f w
  proceed f (err e, w) = (err e, w)

  unfoldable pub then_write : Write → Write → Write
  then_write m f w = proceed f (m w)

  abbrev pub end_line : Write
  end_line w = (ok tt, record w { lines = ended w.lines })

  unfoldable pub write_row : Quad ℕ → Write
  unfolding then_write write_role
  write_row q = then_write (write_role subject q.s) (
      then_write (write_role predicate q.p)
        (then_write (write_role object q.o) (then_write (write_role graph q.g) end_line)))

  unfoldable pub write_rows : List (Quad ℕ) → Write
  unfolding then_write write_row
  write_rows [] w = (ok tt, w)
  write_rows (q ∷ qs) w = proceed (write_rows qs) (write_row q w)

  abbrev pub new_lines : src.State → Writing
  new_lines st = record {
    lines = record { text = []; named_graph = false };
    spans = record { ss = new_spans; ps = new_spans; os = new_spans; gs = new_spans };
    source = st;
  }

  -- The chunk's one result, with the source's state.
  unfoldable pub lines_of_codes : QuadCodes → src.State → Result E NQuadLines × src.State
  unfolding write_rows zip new_spans
  lines_of_codes cols st =
      let r = write_rows (zip cols.s cols.p cols.o cols.g) (new_lines st) in
      (r.0 >>= (λ u. ok r.1.lines), r.1.source)
