-- ===== src/Dict/Printed.antt =====
-- core/src/store/layouts/dictionary/codec/mod.rs, `DecodeRows for NQuadLines`: the lines written from
-- codes are the lines of the rows of spellings.
use mathlib.Core.List.{append-nil}
use vortex_rdf.Prelude.{
  ℕ, ◌≡◌, ◌≢◌, refl, ap, sym, ◌∙◌, Bool, true, false, not, ◌||◌, inl, inr, List, [], ◌∷◌, ◌++◌,
  Option, none, some, arith, Bool-cases, ltb, length, length-append,
}
use vortex_rdf.Prelude.Fallible.{Result, ok, err, ◌>>=◌}
use vortex_rdf.View.Selection.{slice}
use vortex_rdf.Dict.Bytes.{Text}
use vortex_rdf.Dict.Rows.{Role, subject, predicate, object, graph, TermSource}
use vortex_rdf.Dict.Tracks.{IsSound}
use vortex_rdf.Dict.Lines.{
  NQuadLines, space, term, graph_term, term_code_max, Slot, span_of, put_span, Spans, spans_of,
  put_spans, is_graph, Writing, Write, spaced, finished, read_term, copied, write_role,
}
use vortex_rdf.Dict.Written.{AllWritten, AllWritten-append, put_span-AllWritten, span_of-read}

-- A role's term and the space after it, as `NQuadLines` writes them.
unfoldable pub role_term : Role → Text → NQuadLines → NQuadLines
unfolding term graph_term
role_term subject t lines = term t lines
role_term predicate t lines = term t lines
role_term object t lines = term t lines
role_term graph t lines = graph_term t lines

or_false : (b : Bool) → b || false ≡ b
or_false true = refl
or_false false = refl

or_true : (b : Bool) → b || true ≡ true
or_true true = refl
or_true false = refl

module _ {E : Type 0} (src : TermSource E Text) where
  spaced-role_term :
      (role : Role) (t : Text) (lines : NQuadLines)
      → spaced src role (length lines.text) (record lines { text = lines.text ++ t })
        ≡ role_term role t lines
  unfolding spaced role_term
  spaced-role_term subject t lines = λ i. record lines {
    text = (lines.text ++ t) ++ space ∷ [];
    named_graph = or_false lines.named_graph i;
  }
  spaced-role_term predicate t lines = λ i. record lines {
    text = (lines.text ++ t) ++ space ∷ [];
    named_graph = or_false lines.named_graph i;
  }
  spaced-role_term object t lines = λ i. record lines {
    text = (lines.text ++ t) ++ space ∷ [];
    named_graph = or_false lines.named_graph i;
  }
  spaced-role_term graph [] lines =
      let e : ltb (length lines.text) (length (lines.text ++ [])) ≡ false =
        ground (arith, length-append lines.text []) in
      rw e (λ i. record lines { text = append-nil lines.text i })
  spaced-role_term graph (x ∷ t) lines =
      let e : ltb (length lines.text) (length (lines.text ++ x ∷ t)) ≡ true =
        ground (arith, length-append lines.text (x ∷ t)) in
      rw e (λ i. record lines {
        text = (lines.text ++ x ∷ t) ++ space ∷ [];
        named_graph = or_true lines.named_graph i;
      })

  spaced-AllWritten :
      (read : ℕ → Result E Text) (role : Role) (start : ℕ) (lines : NQuadLines) (slots : List Slot)
      → AllWritten read lines.text slots
      → AllWritten read (spaced src role start lines).text slots
  unfolding spaced
  spaced-AllWritten read role start lines slots h =
      elim (Bool-cases (not (is_graph role) || ltb start (length lines.text))) [
        | inl more ↦ rw more (AllWritten-append read lines.text (space ∷ []) slots h)
        | inr none_more ↦ rw none_more h
      ]

module _ {E : Type 0} (src : TermSource E Text) (read : Role → ℕ → Result E Text)
    (sound : IsSound src read) where
  -- Every slot of every role holds its code's term.
  abbrev pub GoodAt : Text → Spans → Type 0
  GoodAt t m =
      AllWritten (read subject) t m.ss
      × AllWritten (read predicate) t m.ps
      × AllWritten (read object) t m.os
      × AllWritten (read graph) t m.gs

  abbrev pub Good : Writing src → Type 0
  Good w = GoodAt w.lines.text w.spans

  GoodAt-spans_of :
      (t : Text) (m : Spans) (role : Role) → GoodAt t m → AllWritten (read role) t (spans_of m role)
  GoodAt-spans_of t m subject h = h.0
  GoodAt-spans_of t m predicate h = h.1
  GoodAt-spans_of t m object h = h.2
  GoodAt-spans_of t m graph h = h.3

  GoodAt-put_spans :
      (t : Text) (m : Spans) (role : Role) (slots : List Slot)
      → GoodAt t m
      → AllWritten (read role) t slots
      → GoodAt t (put_spans m role slots)
  GoodAt-put_spans t m subject slots h p = (p, h.1, h.2, h.3)
  GoodAt-put_spans t m predicate slots h p = (h.0, p, h.2, h.3)
  GoodAt-put_spans t m object slots h p = (h.0, h.1, p, h.3)
  GoodAt-put_spans t m graph slots h p = (h.0, h.1, h.2, p)

  -- The lines a step leaves, or its error.
  abbrev pub seen : Result E (Unit {0}) × Writing src → Result E NQuadLines
  seen r = r.0 >>= λ u. ok r.1.lines

  abbrev pub Gives : Result E NQuadLines → Result E (Unit {0}) × Writing src → Type 0
  Gives x r = src.gave_up r.1.source ≡ false → (seen r ≡ x) × Good r.1

  abbrev pub Tracks : Write src → (NQuadLines → Result E NQuadLines) → Type 0
  Tracks m g = (w : Writing src) → Good w → Gives (g w.lines) (m w)

  abbrev pub Stays : Write src → Type 0
  Stays m = (w : Writing src) → src.gave_up w.source ≡ true → src.gave_up (m w).1.source ≡ true

  finished-Good :
      (role : Role) (code : ℕ) (w : Writing src) (t : Text) (st : src.State)
      → read role code ≡ ok t
      → Good w
      → Good (finished src role code w t st).1
  unfolding finished
  finished-Good role code w t st is_term h =
      let start : ℕ = length w.lines.text in
      let written : NQuadLines = record w.lines { text = w.lines.text ++ t } in
      let slots : List Slot = put_span (spans_of w.spans role) code start (length written.text) in
      let kept = λ (r : Role).
        spaced-AllWritten src (read r) role start written (spans_of w.spans r) (
          AllWritten-append (read r) w.lines.text t (spans_of w.spans r)
            (GoodAt-spans_of w.lines.text w.spans r h)) in
      GoodAt-put_spans (spaced src role start written).text w.spans role slots
        (kept subject, kept predicate, kept object, kept graph)
        (spaced-AllWritten src (read role) role start written slots (
          put_span-AllWritten (read role) w.lines.text t (spans_of w.spans role) code is_term
            (GoodAt-spans_of w.lines.text w.spans role h)))

  -- What a role's step does to the lines.
  abbrev pub with_term : Role → Result E Text → NQuadLines → Result E NQuadLines
  with_term role x lines = x >>= λ t. ok (role_term role t lines)

  finished-Gives :
      (role : Role) (code : ℕ) (w : Writing src) (t : Text) (st : src.State)
      → read role code ≡ ok t
      → Good w
      → Gives (with_term role (read role code) w.lines) (finished src role code w t st)
  finished-Gives role code w t st is_term h here = (
    unfold finished in
        ap ok (spaced-role_term src role t w.lines)
        ∙ ap (λ x. with_term role x w.lines) (sym is_term),
    finished-Good role code w t st is_term h,
  )

  read_term-Gives :
      (role : Role) (code : ℕ) (w : Writing src) (r : Result E Text × src.State)
      → (src.gave_up r.1 ≡ false → r.0 ≡ read role code)
      → Good w
      → Gives (with_term role (read role code) w.lines) (read_term src role code w r)
  unfolding read_term finished
  read_term-Gives role code w (ok t, st) reads h here =
      finished-Gives role code w t st (sym (reads here)) h here
  read_term-Gives role code w (err e, st) reads h here =
      (ap (λ x. with_term role x w.lines) (reads here), h)

  copied-Gives :
      (role : Role) (code : ℕ) (w : Writing src) (o : Option (ℕ × ℕ))
      → code ≢ term_code_max
      → span_of (spans_of w.spans role) code ≡ o
      → Good w
      → Gives (with_term role (read role code) w.lines) (copied src role code w o)
  unfolding copied
  copied-Gives role code w (some (start, stop)) ne found h here =
      finished-Gives role code w (slice w.lines.text start stop) w.source
        (span_of-read (read role) w.lines.text (spans_of w.spans role) code start stop ne
          (GoodAt-spans_of w.lines.text w.spans role h) found)
        h here
  copied-Gives role code w none ne found h here =
      read_term-Gives role code w (src.str_at w.source role code)
        (λ done. sound.reads w.source role code done) h here

  pub write_role-Tracks :
      (role : Role) (code : ℕ)
      → code ≢ term_code_max
      → Tracks (write_role src role code) (with_term role (read role code))
  unfolding write_role
  write_role-Tracks role code ne w h here =
      copied-Gives role code w (span_of (spans_of w.spans role) code) ne refl h here

  read_term-stays :
      (role : Role) (code : ℕ) (w : Writing src) (r : Result E Text × src.State)
      → src.gave_up r.1 ≡ true
      → src.gave_up (read_term src role code w r).1.source ≡ true
  unfolding read_term finished
  read_term-stays role code w (ok t, st) h = h
  read_term-stays role code w (err e, st) h = h

  copied-stays :
      (role : Role) (code : ℕ) (w : Writing src) (o : Option (ℕ × ℕ))
      → src.gave_up w.source ≡ true
      → src.gave_up (copied src role code w o).1.source ≡ true
  unfolding copied finished
  copied-stays role code w (some (start, stop)) h = h
  copied-stays role code w none h = read_term-stays role code w _ (sound.stays w.source role code h)

  pub write_role-Stays : (role : Role) (code : ℕ) → Stays (write_role src role code)
  unfolding write_role
  write_role-Stays role code w h = copied-stays role code w (span_of (spans_of w.spans role) code) h
