-- ===== src/Dict/Printout.antt =====
-- core/src/store/layouts/dictionary/codec/mod.rs, `DecodeRows for NQuadLines`: a chunk's lines are
-- those that `NQuadLines::push` writes for its rows of spellings, or the first failed read's error.
use vortex_rdf.Prelude.{
  ℕ, ◌≡◌, ◌≢◌, refl, ap, ◌∙◌, true, false, inl, inr, List, [], ◌∷◌, map, Bool-cases,
}
use vortex_rdf.Prelude.Fallible.{Result, ok, err, ◌>>=◌, collect}
use vortex_rdf.Dict.Bytes.{Text}
use vortex_rdf.Dict.Rows.{Role, subject, predicate, object, graph, QuadCodes, Quad, TermSource}
use vortex_rdf.Dict.Tracks.{IsSound}
use vortex_rdf.Dict.Lines.{
  NQuadLines, line_end, ended, end, push, term_code_max, zip, Writing, Write, write_role, proceed,
  then_write, end_line, write_row, write_rows, new_lines, lines_of_codes,
}
use vortex_rdf.Dict.Written.{AllWritten-append, new_spans-AllWritten}
use vortex_rdf.Dict.Printed.{
  role_term, Gives, Tracks, Stays, with_term, write_role-Tracks, write_role-Stays,
}

-- The spellings of a row's codes, or the first error.
abbrev pub spelled : {E : Type 0} → (Role → ℕ → Result E Text) → Quad ℕ → Result E (Quad Text)
spelled read q = read subject q.s >>= λ s. read predicate q.p >>= λ p.
    read object q.o >>= λ o. read graph q.g >>= λ g. ok (record { s = s; p = p; o = o; g = g })

abbrev pub push_rows : List (Quad Text) → NQuadLines → NQuadLines
push_rows [] lines = lines
push_rows (row ∷ rows) lines = push_rows rows (push row lines)

abbrev pub no_lines : NQuadLines
no_lines = record { text = []; named_graph = false }

-- Codes that a dictionary can have.
abbrev pub AllCodes : List (Quad ℕ) → Type 0
AllCodes [] = Unit {0}
AllCodes (q ∷ qs) =
    (q.s ≢ term_code_max)
    × (q.p ≢ term_code_max)
    × (q.o ≢ term_code_max)
    × (q.g ≢ term_code_max)
    × AllCodes qs

module _ {E : Type 0} where
  -- The terms written one after the other are the row pushed.
  terms-push :
      (a b c d : Result E Text) (lines : NQuadLines)
      → (a >>= (λ t. ok (role_term subject t lines)) >>= λ l1.
          b >>= (λ t. ok (role_term predicate t l1)) >>= λ l2.
          c >>= (λ t. ok (role_term object t l2)) >>= λ l3.
          d >>= (λ t. ok (role_term graph t l3)) >>= λ l. ok (ended l))
        ≡ ((a >>= λ s. b >>= λ p. c >>= λ o. d >>= λ g. ok (record { s = s; p = p; o = o; g = g }))
            >>= λ row. ok (push row lines))
  unfolding push end role_term
  terms-push (ok s) (ok p) (ok o) (ok g) lines = refl
  terms-push (ok s) (ok p) (ok o) (err e) lines = refl
  terms-push (ok s) (ok p) (err e) d lines = refl
  terms-push (ok s) (err e) c d lines = refl
  terms-push (err e) b c d lines = refl

  prepend-push :
      (x : Result E (Quad Text)) (rest : Result E (List (Quad Text)))
      (more : List (Result E (Quad Text))) (lines : NQuadLines)
      → collect more ≡ rest
      → ((x >>= λ row. ok (push row lines)) >>= λ l. rest >>= λ rows. ok (push_rows rows l))
        ≡ (collect (x ∷ more) >>= λ rows. ok (push_rows rows lines))
  prepend-push (err e) rest more lines h = refl
  prepend-push (ok row) (ok rows) more lines h = rw h refl
  prepend-push (ok row) (err e) more lines h = rw h refl

module _ {E : Type 0} (src : TermSource E Text) (read : Role → ℕ → Result E Text)
    (sound : IsSound src read) where
  proceed-Gives :
      (f : Write src) (x : Result E NQuadLines) (g : NQuadLines → Result E NQuadLines)
      → Tracks src read sound f g
      → Stays src read sound f
      → (r : Result E (Unit {0}) × Writing src) → Gives src read sound x r
      → Gives src read sound (x >>= g) (proceed src f r)
  proceed-Gives f x g tracks stays (ok u, w) here done = elim (Bool-cases (src.gave_up w.source)) [
    | inl gone ↦ absurd (cc (stays w gone, done))
    | inr held ↦
        let (e, good) = here held in
        let next = tracks w good done in (next.0 ∙ ap (λ y. y >>= g) e, next.1)
  ]
  proceed-Gives f x g tracks stays (err e, w) here done =
      let (p, good) = here done in (ap (λ y. y >>= g) p, good)

  then_write-Tracks :
      (m f : Write src) (g h : NQuadLines → Result E NQuadLines)
      → Tracks src read sound m g
      → Tracks src read sound f h
      → Stays src read sound f
      → Tracks src read sound (then_write src m f) (λ lines. g lines >>= h)
  unfolding then_write
  then_write-Tracks m f g h first second stays w good =
      proceed-Gives f (g w.lines) h second stays (m w) (first w good)

  proceed-Stays :
      (f : Write src)
      → Stays src read sound f
      → (r : Result E (Unit {0}) × Writing src) → src.gave_up r.1.source ≡ true
      → src.gave_up (proceed src f r).1.source ≡ true
  proceed-Stays f stays (ok u, w) h = stays w h
  proceed-Stays f stays (err e, w) h = h

  then_write-Stays :
      (m f : Write src)
      → Stays src read sound m
      → Stays src read sound f
      → Stays src read sound (then_write src m f)
  unfolding then_write
  then_write-Stays m f first second w h = proceed-Stays f second (m w) (first w h)

  end_line-Tracks : Tracks src read sound (end_line src) (λ lines. ok (ended lines))
  end_line-Tracks w good done = (
    refl,
    (
      AllWritten-append (read subject) w.lines.text line_end w.spans.ss good.0,
      AllWritten-append (read predicate) w.lines.text line_end w.spans.ps good.1,
      AllWritten-append (read object) w.lines.text line_end w.spans.os good.2,
      AllWritten-append (read graph) w.lines.text line_end w.spans.gs good.3,
    ),
  )

  -- A row from its role on.
  abbrev from_graph : Quad ℕ → Write src
  from_graph q = then_write src (write_role src graph q.g) (end_line src)

  abbrev from_object : Quad ℕ → Write src
  from_object q = then_write src (write_role src object q.o) (from_graph q)

  abbrev from_predicate : Quad ℕ → Write src
  from_predicate q = then_write src (write_role src predicate q.p) (from_object q)

  from_graph-Stays : (q : Quad ℕ) → Stays src read sound (from_graph q)
  from_graph-Stays q =
      then_write-Stays (write_role src graph q.g) (end_line src)
        (write_role-Stays src read sound graph q.g) (λ w h. h)

  from_object-Stays : (q : Quad ℕ) → Stays src read sound (from_object q)
  from_object-Stays q =
      then_write-Stays (write_role src object q.o) (from_graph q)
        (write_role-Stays src read sound object q.o) (from_graph-Stays q)

  from_predicate-Stays : (q : Quad ℕ) → Stays src read sound (from_predicate q)
  from_predicate-Stays q =
      then_write-Stays (write_role src predicate q.p) (from_object q)
        (write_role-Stays src read sound predicate q.p) (from_object-Stays q)

  write_row-Stays : (q : Quad ℕ) → Stays src read sound (write_row src q)
  unfolding write_row
  write_row-Stays q =
      then_write-Stays (write_role src subject q.s) (from_predicate q)
        (write_role-Stays src read sound subject q.s) (from_predicate-Stays q)

  write_row-Tracks :
      (q : Quad ℕ)
      → AllCodes (q ∷ [])
      → Tracks src read sound
          (write_row src q)
          (λ lines. spelled read q >>= λ row. ok (push row lines))
  unfolding write_row
  write_row-Tracks q codes w good done =
      let r =
        then_write-Tracks (write_role src subject q.s) (from_predicate q)
          (with_term src read sound subject (read subject q.s)) _
          (write_role-Tracks src read sound subject q.s codes.0)
          (then_write-Tracks (write_role src predicate q.p) (from_object q)
            (with_term src read sound predicate (read predicate q.p)) _
            (write_role-Tracks src read sound predicate q.p codes.1)
            (then_write-Tracks (write_role src object q.o) (from_graph q)
              (with_term src read sound object (read object q.o)) _
              (write_role-Tracks src read sound object q.o codes.2)
              (then_write-Tracks (write_role src graph q.g) (end_line src)
                (with_term src read sound graph (read graph q.g)) _
                (write_role-Tracks src read sound graph q.g codes.3) end_line-Tracks (λ v h. h))
              (from_graph-Stays q))
            (from_object-Stays q))
          (from_predicate-Stays q) w good done in
      (
        r.0
            ∙ terms-push (read subject q.s) (read predicate q.p) (read object q.o) (read graph q.g)
                w.lines,
        r.1,
      )

  write_rows-Stays : (qs : List (Quad ℕ)) → Stays src read sound (write_rows src qs)
  unfolding write_rows
  write_rows-Stays [] w h = h
  write_rows-Stays (q ∷ qs) w h =
      proceed-Stays (write_rows src qs) (write_rows-Stays qs) (write_row src q w)
        (write_row-Stays q w h)

  write_rows-Tracks :
      (qs : List (Quad ℕ))
      → AllCodes qs
      → Tracks src read sound
          (write_rows src qs)
          (λ lines. collect (map (spelled read) qs) >>= λ rows. ok (push_rows rows lines))
  unfolding write_rows
  write_rows-Tracks [] codes w good done = (refl, good)
  write_rows-Tracks (q ∷ qs) codes w good done =
      let r =
        proceed-Gives (write_rows src qs) (spelled read q >>= λ row. ok (push row w.lines))
          (λ lines. collect (map (spelled read) qs) >>= λ rows. ok (push_rows rows lines))
          (write_rows-Tracks qs codes.4) (write_rows-Stays qs) (write_row src q w)
          (write_row-Tracks q (codes.0, codes.1, codes.2, codes.3, tt) w good) done in
      (
        r.0
            ∙ prepend-push (spelled read q) (collect (map (spelled read) qs))
                (map (spelled read) qs) w.lines refl,
        r.1,
      )

  -- Through a source that has not given up at the end, over codes below the largest word, a chunk's
  -- lines are those pushed for its rows of spellings, or the error of the first read that fails.
  pub lines_of_codes-eq-push :
      (cols : QuadCodes) (st : src.State)
      → AllCodes (zip cols.s cols.p cols.o cols.g)
      → src.gave_up (lines_of_codes src cols st).1 ≡ false
      → (lines_of_codes src cols st).0 ≡ (
          collect (map (spelled read) (zip cols.s cols.p cols.o cols.g)) >>= λ rows.
          ok (push_rows rows no_lines))
  unfolding lines_of_codes
  lines_of_codes-eq-push cols st codes done =
      (write_rows-Tracks (zip cols.s cols.p cols.o cols.g) codes (new_lines src st)
        (
          new_spans-AllWritten (read subject),
          new_spans-AllWritten (read predicate),
          new_spans-AllWritten (read object),
          new_spans-AllWritten (read graph),
        )
        done).0
