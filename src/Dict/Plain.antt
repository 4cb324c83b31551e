-- ===== src/Dict/Plain.antt =====
-- core/src/store/layouts/dictionary/codec/mod.rs: the rows decoded through the memos are the rows
-- read one by one.
use vortex_rdf.Prelude.{
  ℕ, ◌≡◌, refl, ap, sym, ◌∙◌, true, false, inl, inr, List, [], ◌∷◌, ◌++◌, map, Bool-cases, length,
  range_from,
}
use mathlib.Core.List.{append-nil, append_assoc}
use vortex_rdf.Prelude.Fallible.{Result, ok, err, collect, prepend}
use vortex_rdf.Dict.Memo.{new, admitting}
use vortex_rdf.Dict.Held.{new-AllRead, admitting-AllRead}
use vortex_rdf.Dict.Rows.{
  Role, subject, predicate, object, graph, QuadCodes, Quad, codes_at, TermSource, four, Work,
  decode_row, row_pushed, rows_from, decode_rows, shared_pushed, shared_from, decode_rows_shared,
}
use vortex_rdf.Dict.Tracks.{
  plain_row, IsSound, parsed, Good, Gives, decode_row-Stays, decode_row-Tracks,
}

-- The rows one by one.
abbrev pub plain_rows :
    {E T V : Type 0}
    → (Role → T → Result E V)
    → (Role → ℕ → Result E T)
    → QuadCodes
    → List ℕ
    → List (Result E (Quad V))
plain_rows parse text cols is = map (λ i. plain_row parse text (codes_at cols i)) is

-- A decode that ends at the first failure with that error alone.
abbrev pub all_or_error : {E V : Type 0} → Result E (List (Quad V)) → List (Result E (Quad V))
all_or_error (ok quads) = map ok quads
all_or_error (err e) = err e ∷ []

module _ {E T V : Type 0} (src : TermSource E T) (parse : Role → T → Result E V)
    (text : Role → ℕ → Result E T) (sound : IsSound src text) where
  row_pushed-stays :
      (rest : Work src parse → List (Result E (Quad V)) × Work src parse)
      → ((w : Work src parse) → src.gave_up w.1 ≡ true → src.gave_up (rest w).1.1 ≡ true)
      → (r : Result E (Quad V) × Work src parse) → src.gave_up r.1.1 ≡ true
      → src.gave_up (row_pushed src parse rest r).1.1 ≡ true
  row_pushed-stays rest keeps (ok quad, w) h = keeps w h
  row_pushed-stays rest keeps (err e, w) h = rw h h

  rows_from-stays :
      (cols : QuadCodes) (is : List ℕ) (w : Work src parse)
      → src.gave_up w.1 ≡ true
      → src.gave_up (rows_from src parse cols is w).1.1 ≡ true
  unfolding rows_from
  rows_from-stays cols [] w h = h
  rows_from-stays cols (i ∷ is) w h =
      row_pushed-stays (rows_from src parse cols is) (rows_from-stays cols is)
        (decode_row src parse (codes_at cols i) w)
        (decode_row-Stays src parse text sound (codes_at cols i) w h)

  row_pushed-lem :
      (rest : Work src parse → List (Result E (Quad V)) × Work src parse)
      (rows : List (Result E (Quad V))) (x : Result E (Quad V))
      → ((w : Work src parse) → src.gave_up w.1 ≡ true → src.gave_up (rest w).1.1 ≡ true)
      → ((w : Work src parse)
          → Good src parse text sound w.0
          → src.gave_up (rest w).1.1 ≡ false
          → (rest w).0 ≡ rows)
      → (r : Result E (Quad V) × Work src parse) → Gives src parse text sound x r
      → src.gave_up (row_pushed src parse rest r).1.1 ≡ false
      → (row_pushed src parse rest r).0 ≡ x ∷ rows
  row_pushed-lem rest rows x keeps reads (ok quad, w) here done =
      elim (Bool-cases (src.gave_up w.1)) [
        | inl gone ↦ absurd (cc (keeps w gone, done))
        | inr held ↦ let (e, good) = here held in let f = reads w good done in λ i. e i ∷ f i
      ]
  row_pushed-lem rest rows x keeps reads (err e, w) here done =
      elim (Bool-cases (src.gave_up w.1)) [
        | inl gone ↦
            let out : src.gave_up (row_pushed src parse rest (err e, w)).1.1 ≡ true =
              rw gone gone in
            absurd (cc (out, done))
        | inr held ↦
            let (p, good) = here held in
            let same : row_pushed src parse rest (err e, w) ≡ (err e ∷ (rest w).0, (rest w).1) =
              rw held refl in
            let f = reads w good (ap (λ r. src.gave_up r.1.1) (sym same) ∙ done) in
            ap (λ r. r.0) same ∙ (λ i. p i ∷ f i)
      ]

  rows_from-lem :
      (cols : QuadCodes) (is : List ℕ) (w : Work src parse)
      → Good src parse text sound w.0
      → src.gave_up (rows_from src parse cols is w).1.1 ≡ false
      → (rows_from src parse cols is w).0 ≡ plain_rows parse text cols is
  unfolding rows_from
  rows_from-lem cols [] w good done = refl
  rows_from-lem cols (i ∷ is) w good done =
      row_pushed-lem (rows_from src parse cols is) (plain_rows parse text cols is)
        (plain_row parse text (codes_at cols i)) (rows_from-stays cols is) (rows_from-lem cols is)
        (decode_row src parse (codes_at cols i) w)
        (decode_row-Tracks src parse text sound (codes_at cols i) w good) done

  Good-new : (rows : ℕ) → Good src parse text sound (four (new rows))
  Good-new rows = (
    new-AllRead (parsed src parse text sound subject) rows,
    new-AllRead (parsed src parse text sound predicate) rows,
    new-AllRead (parsed src parse text sound object) rows,
    new-AllRead (parsed src parse text sound graph) rows,
  )

  -- A chunk decoded through a source that has not given up at the end has, row for row, the quad or
  -- the error of the row read with no memo.
  pub decode_rows-eq-plain :
      (cols : QuadCodes) (st : src.State)
      → src.gave_up (decode_rows src parse cols st).1 ≡ false
      → (decode_rows src parse cols st).0
        ≡ plain_rows parse text cols (range_from 0 (length cols.s))
  unfolding decode_rows
  decode_rows-eq-plain cols st done =
      rows_from-lem cols (range_from 0 (length cols.s)) (four (new (length cols.s)), st)
        (Good-new (length cols.s)) done

  shared_pushed-stays :
      (rest : List (Result E (Quad V)) → Work src parse → List (Result E (Quad V)) × Work src parse)
      (rows : List (Result E (Quad V)))
      → ((rows' : List (Result E (Quad V))) (w : Work src parse)
          → src.gave_up w.1 ≡ true
          → src.gave_up (rest rows' w).1.1 ≡ true)
      → (r : Result E (Quad V) × Work src parse) → src.gave_up r.1.1 ≡ true
      → src.gave_up (shared_pushed src parse rest rows r).1.1 ≡ true
  shared_pushed-stays rest rows keeps (ok quad, w) h = keeps _ w h
  shared_pushed-stays rest rows keeps (err e, w) h = h

  shared_from-stays :
      (cols : QuadCodes) (is : List ℕ) (rows : List (Result E (Quad V))) (w : Work src parse)
      → src.gave_up w.1 ≡ true
      → src.gave_up (shared_from src parse cols is rows w).1.1 ≡ true
  unfolding shared_from
  shared_from-stays cols [] rows w h = h
  shared_from-stays cols (i ∷ is) rows w h =
      shared_pushed-stays (shared_from src parse cols is) rows (shared_from-stays cols is)
        (decode_row src parse (codes_at cols i) w)
        (decode_row-Stays src parse text sound (codes_at cols i) w h)

  -- The rows pushed so far, then the rest or its first error.
  abbrev pushed_or_error :
      List (Result E (Quad V)) → Result E (List (Quad V)) → List (Result E (Quad V))
  pushed_or_error rows (ok quads) = rows ++ map ok quads
  pushed_or_error rows (err e) = err e ∷ []

  pushed_or_error-prepend :
      (rows : List (Result E (Quad V))) (quad : Quad V) (x : Result E (List (Quad V)))
      → pushed_or_error (rows ++ ok quad ∷ []) x ≡ pushed_or_error rows (prepend quad x)
  pushed_or_error-prepend rows quad (ok quads) = simp append_assoc
  pushed_or_error-prepend rows quad (err e) = refl

  shared_pushed-lem :
      (rest : List (Result E (Quad V)) → Work src parse → List (Result E (Quad V)) × Work src parse)
      (rows more : List (Result E (Quad V))) (x : Result E (Quad V))
      → ((rows' : List (Result E (Quad V))) (w : Work src parse)
          → src.gave_up w.1 ≡ true
          → src.gave_up (rest rows' w).1.1 ≡ true)
      → ((rows' : List (Result E (Quad V))) (w : Work src parse)
          → Good src parse text sound w.0
          → src.gave_up (rest rows' w).1.1 ≡ false
          → (rest rows' w).0 ≡ pushed_or_error rows' (collect more))
      → (r : Result E (Quad V) × Work src parse) → Gives src parse text sound x r
      → src.gave_up (shared_pushed src parse rest rows r).1.1 ≡ false
      → (shared_pushed src parse rest rows r).0 ≡ pushed_or_error rows (collect (x ∷ more))
  shared_pushed-lem rest rows more x keeps reads (ok quad, w) here done =
      elim (Bool-cases (src.gave_up w.1)) [
        | inl gone ↦ absurd (cc (keeps (rows ++ ok quad ∷ []) w gone, done))
        | inr held ↦
            let (e, good) = here held in
            reads (rows ++ ok quad ∷ []) w good done
            ∙ pushed_or_error-prepend rows quad (collect more)
            ∙ ap (λ y. pushed_or_error rows (collect (y ∷ more))) e
      ]
  shared_pushed-lem rest rows more x keeps reads (err e, w) here done =
      ap (λ y. pushed_or_error rows (collect (y ∷ more))) (here done).0

  shared_from-lem :
      (cols : QuadCodes) (is : List ℕ) (rows : List (Result E (Quad V))) (w : Work src parse)
      → Good src parse text sound w.0
      → src.gave_up (shared_from src parse cols is rows w).1.1 ≡ false
      → (shared_from src parse cols is rows w).0
        ≡ pushed_or_error rows (collect (plain_rows parse text cols is))
  unfolding shared_from
  shared_from-lem cols [] rows w good done = sym (append-nil rows)
  shared_from-lem cols (i ∷ is) rows w good done =
      shared_pushed-lem (shared_from src parse cols is) rows (plain_rows parse text cols is)
        (plain_row parse text (codes_at cols i)) (shared_from-stays cols is)
        (shared_from-lem cols is) (decode_row src parse (codes_at cols i) w)
        (decode_row-Tracks src parse text sound (codes_at cols i) w good) done

  Good-admitting : (rows : ℕ) → Good src parse text sound (four (admitting rows))
  Good-admitting rows = (
    admitting-AllRead (parsed src parse text sound subject) rows,
    admitting-AllRead (parsed src parse text sound predicate) rows,
    admitting-AllRead (parsed src parse text sound object) rows,
    admitting-AllRead (parsed src parse text sound graph) rows,
  )

  pushed_or_error-nil : (x : Result E (List (Quad V))) → pushed_or_error [] x ≡ all_or_error x
  pushed_or_error-nil (ok quads) = refl
  pushed_or_error-nil (err e) = refl

  -- A chunk decoded into shared rows, through a source that has not given up at the end, has every
  -- row as read with no memo, or as its one row the error of the first row that fails.
  pub decode_rows_shared-eq-plain :
      (cols : QuadCodes) (st : src.State)
      → src.gave_up (decode_rows_shared src parse cols st).1 ≡ false
      → (decode_rows_shared src parse cols st).0
        ≡ all_or_error (collect (plain_rows parse text cols (range_from 0 (length cols.s))))
  unfolding decode_rows_shared
  decode_rows_shared-eq-plain cols st done =
      shared_from-lem cols (range_from 0 (length cols.s)) [] (four (admitting (length cols.s)), st)
        (Good-admitting (length cols.s)) done
      ∙ pushed_or_error-nil (collect (plain_rows parse text cols (range_from 0 (length cols.s))))
