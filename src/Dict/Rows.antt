-- ===== src/Dict/Rows.antt =====
-- core/src/store/layouts/dictionary/codec/mod.rs: `TermSource`, `decode_rows` and
-- `decode_rows_shared`, which decode a chunk's four code columns row by row through a memo per role.
-- A source reads its terms with a state (cursors, held windows); `parse` stands for the parsers of
-- core/src/common/terms.rs, one per role.
use vortex_rdf.Prelude.{ℕ, Bool, List, [], ◌∷◌, ◌++◌, if◌then◌else◌, length, get_or, range_from}
use vortex_rdf.Prelude.Fallible.{Result, ok, err, ◌>>=◌}
use vortex_rdf.Dict.Memo.{Memo, new, admitting, get_or_insert}

pub data Role : Type 0 where
  subject predicate object graph : Role

pub record QuadCodes : Type 0 where
  pub s : List ℕ
  pub p : List ℕ
  pub o : List ℕ
  pub g : List ℕ

pub record Quad {ℓ} (V : Type ℓ) : Type ℓ where
  pub s : V
  pub p : V
  pub o : V
  pub g : V

abbrev pub codes_at : QuadCodes → ℕ → Quad ℕ
codes_at cols i = record {
  s = get_or cols.s i 0;
  p = get_or cols.p i 0;
  o = get_or cols.o i 0;
  g = get_or cols.g i 0;
}

-- `TermSource`, over errors `E` and spellings `T`.
pub record TermSource (E T : Type 0) : Type 1 where
  pub State : Type 0
  pub str_at : State → Role → ℕ → Result E T × State
  pub gave_up : State → Bool

pub record Memos {ℓ} (V : Type ℓ) : Type ℓ where
  pub sm : Memo V
  pub pm : Memo V
  pub om : Memo V
  pub gm : Memo V

module _ {ℓ} {V : Type ℓ} where
  abbrev pub memo_of : Memos V → Role → Memo V
  memo_of ms subject = ms.sm
  memo_of ms predicate = ms.pm
  memo_of ms object = ms.om
  memo_of ms graph = ms.gm

  abbrev pub put : Memos V → Role → Memo V → Memos V
  put ms subject m = record ms { sm = m }
  put ms predicate m = record ms { pm = m }
  put ms object m = record ms { om = m }
  put ms graph m = record ms { gm = m }

  abbrev pub four : Memo V → Memos V
  four m = record { sm = m; pm = m; om = m; gm = m }

module _ {E T V : Type 0} (src : TermSource E T) (parse : Role → T → Result E V) where
  -- What a row's decode writes: the memos and the source.
  abbrev pub Work : Type 0
  Work = Memos V × src.State

  abbrev pub Decode : Type 0 → Type 0
  Decode A = Work → Result E A × Work

  abbrev pub continue : {A B : Type 0} → (A → Decode B) → Result E A × Work → Result E B × Work
  continue f (ok a, w) = f a w
  continue f (err e, w) = (err e, w)

  -- A step and what follows it, unless it fails.
  unfoldable pub then_do : {A B : Type 0} → Decode A → (A → Decode B) → Decode B
  then_do m f w = continue f (m w)

  -- The closure of a role: the spelling read and parsed.
  unfoldable pub read_parsed : Role → ℕ → src.State → Result E V × src.State
  read_parsed role code st =
      ((src.str_at st role code).0 >>= parse role, (src.str_at st role code).1)

  unfoldable pub ask : Role → ℕ → Decode V
  ask role code (ms, st) =
      let r = get_or_insert (memo_of ms role) code (read_parsed role code) st in
      (r.0, (put ms role r.1, r.2))

  unfoldable pub decode_row : Quad ℕ → Decode (Quad V)
  unfolding then_do ask
  decode_row q = then_do (ask subject q.s) (λ s. then_do (ask predicate q.p) (λ p.
      then_do (ask object q.o)
        (λ o. then_do (ask graph q.g) (λ g w. (ok (record { s = s; p = p; o = o; g = g }), w)))))

  -- The loop over the rows: it ends at a row that fails once the source has given up.
  abbrev pub row_pushed :
      (Work → List (Result E (Quad V)) × Work)
      → Result E (Quad V) × Work
      → List (Result E (Quad V)) × Work
  row_pushed rest (ok quad, w) = let more = rest w in (ok quad ∷ more.0, more.1)
  row_pushed rest (err e, w) =
      let more = rest w in if src.gave_up w.1 then ([], w) else (err e ∷ more.0, more.1)

  unfoldable pub rows_from : QuadCodes → List ℕ → Work → List (Result E (Quad V)) × Work
  unfolding decode_row
  rows_from cols [] w = ([], w)
  rows_from cols (i ∷ more) w = row_pushed (rows_from cols more) (decode_row (codes_at cols i) w)

  unfoldable pub decode_rows : QuadCodes → src.State → List (Result E (Quad V)) × src.State
  unfolding rows_from new
  decode_rows cols st =
      let n = length cols.s in
      let r = rows_from cols (range_from 0 n) (four (new n), st) in (r.0, r.1.1)

  -- The rows of `decode_rows_shared`, `rows` those pushed so far: any failure is the one error.
  abbrev pub shared_pushed :
      (List (Result E (Quad V)) → Work → List (Result E (Quad V)) × Work)
      → List (Result E (Quad V))
      → Result E (Quad V) × Work
      → List (Result E (Quad V)) × Work
  shared_pushed rest rows (ok quad, w) = rest (rows ++ ok quad ∷ []) w
  shared_pushed rest rows (err e, w) = (err e ∷ [], w)

  unfoldable pub shared_from :
      QuadCodes → List ℕ → List (Result E (Quad V)) → Work → List (Result E (Quad V)) × Work
  unfolding decode_row
  shared_from cols [] rows w = (rows, w)
  shared_from cols (i ∷ more) rows w =
      shared_pushed (shared_from cols more) rows (decode_row (codes_at cols i) w)

  unfoldable pub decode_rows_shared : QuadCodes → src.State → List (Result E (Quad V)) × src.State
  unfolding shared_from admitting
  decode_rows_shared cols st =
      let n = length cols.s in
      let r = shared_from cols (range_from 0 n) [] (four (admitting n), st) in (r.0, r.1.1)
