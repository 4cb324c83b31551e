-- ===== src/Dict/Tracks.antt =====
-- core/src/store/layouts/dictionary/codec/mod.rs: a row decoded through the memos is the row read with
-- none, while the source has not given up.
use vortex_rdf.Prelude.{ℕ, ◌≡◌, refl, ap, ◌∙◌, true, false, inl, inr, Bool-cases}
use vortex_rdf.Prelude.Fallible.{Result, ok, err, ◌>>=◌}
use vortex_rdf.Dict.Memo.{Memo}
use vortex_rdf.Dict.Held.{AllRead, get_or_insert-Answers, get_or_insert-stays}
use vortex_rdf.Dict.Rows.{
  Role, subject, predicate, object, graph, Quad, TermSource, Memos, memo_of, put, Work, Decode,
  continue, then_do, read_parsed, ask, decode_row,
}

-- A row read with no memo, `text` being what each role's code spells.
unfoldable pub plain_row :
    {E T V : Type 0}
    → (Role → T → Result E V)
    → (Role → ℕ → Result E T)
    → Quad ℕ
    → Result E (Quad V)
plain_row parse text q = (text subject q.s >>= parse subject) >>= λ s.
    (text predicate q.p >>= parse predicate) >>= λ p. (text object q.o >>= parse object) >>= λ o.
    (text graph q.g >>= parse graph) >>= λ g. ok (record { s = s; p = p; o = o; g = g })

-- A source answers `text` while it has not given up, and a source that has given up stays so.
pub record IsSound {E T : Type 0} (src : TermSource E T) (text : Role → ℕ → Result E T)
    : Type 0 where
  pub reads :
      (st : src.State) (role : Role) (code : ℕ)
      → src.gave_up (src.str_at st role code).1 ≡ false
      → (src.str_at st role code).0 ≡ text role code
  pub stays :
      (st : src.State) (role : Role) (code : ℕ)
      → src.gave_up st ≡ true
      → src.gave_up (src.str_at st role code).1 ≡ true

module _ {E T V : Type 0} (src : TermSource E T) (parse : Role → T → Result E V)
    (text : Role → ℕ → Result E T) (sound : IsSound src text) where
  unfoldable pub parsed : Role → ℕ → Result E V
  parsed role code = text role code >>= parse role

  -- Every memo holds what its role's codes parse to.
  abbrev pub Good : Memos V → Type 0
  Good ms =
      AllRead (parsed subject) ms.sm.slots
      × AllRead (parsed predicate) ms.pm.slots
      × AllRead (parsed object) ms.om.slots
      × AllRead (parsed graph) ms.gm.slots

  Good-memo_of :
      (ms : Memos V) (role : Role) → Good ms → AllRead (parsed role) (memo_of ms role).slots
  Good-memo_of ms subject h = h.0
  Good-memo_of ms predicate h = h.1
  Good-memo_of ms object h = h.2
  Good-memo_of ms graph h = h.3

  Good-put :
      (ms : Memos V) (role : Role) (m : Memo V)
      → AllRead (parsed role) m.slots
      → Good ms
      → Good (put ms role m)
  Good-put ms subject m p h = (p, h.1, h.2, h.3)
  Good-put ms predicate m p h = (h.0, p, h.2, h.3)
  Good-put ms object m p h = (h.0, h.1, p, h.3)
  Good-put ms graph m p h = (h.0, h.1, h.2, p)

  -- A step's result, unless the source gave up over it: the value, and good memos.
  abbrev pub Gives : {A : Type 0} → Result E A → Result E A × Work src parse → Type 0
  Gives x r = src.gave_up r.1.1 ≡ false → (r.0 ≡ x) × Good r.1.0

  abbrev pub Tracks : {A : Type 0} → Decode src parse A → Result E A → Type 0
  Tracks m x = (w : Work src parse) → Good w.0 → Gives x (m w)

  abbrev pub Stays : {A : Type 0} → Decode src parse A → Type 0
  Stays m = (w : Work src parse) → src.gave_up w.1 ≡ true → src.gave_up (m w).1.1 ≡ true

  continue-Gives :
      {A B : Type 0} (f : A → Decode src parse B) (x : Result E A) (g : A → Result E B)
      → ((a : A) → Tracks (f a) (g a))
      → ((a : A) → Stays (f a))
      → (r : Result E A × Work src parse) → Gives x r
      → Gives (x >>= g) (continue src parse f r)
  continue-Gives f x g tracks stays (ok a, w) here done = elim (Bool-cases (src.gave_up w.1)) [
    | inl gone ↦ absurd (cc (stays a w gone, done))
    | inr held ↦
        let (e, good) = here held in
        let next = tracks a w good done in (next.0 ∙ ap (λ y. y >>= g) e, next.1)
  ]
  continue-Gives f x g tracks stays (err e, w) here done =
      let (p, good) = here done in (ap (λ y. y >>= g) p, good)

  then_do-Tracks :
      {A B : Type 0} (m : Decode src parse A) (f : A → Decode src parse B) (x : Result E A)
      (g : A → Result E B)
      → Tracks m x
      → ((a : A) → Tracks (f a) (g a))
      → ((a : A) → Stays (f a))
      → Tracks (then_do src parse m f) (x >>= g)
  unfolding then_do
  then_do-Tracks m f x g first tracks stays w good =
      continue-Gives f x g tracks stays (m w) (first w good)

  continue-Stays :
      {A B : Type 0} (f : A → Decode src parse B)
      → ((a : A) → Stays (f a))
      → (r : Result E A × Work src parse) → src.gave_up r.1.1 ≡ true
      → src.gave_up (continue src parse f r).1.1 ≡ true
  continue-Stays f stays (ok a, w) h = stays a w h
  continue-Stays f stays (err e, w) h = h

  then_do-Stays :
      {A B : Type 0} (m : Decode src parse A) (f : A → Decode src parse B)
      → Stays m
      → ((a : A) → Stays (f a))
      → Stays (then_do src parse m f)
  unfolding then_do
  then_do-Stays m f first stays w h = continue-Stays f stays (m w) (first w h)

  ask-Tracks : (role : Role) (code : ℕ) → Tracks (ask src parse role code) (parsed role code)
  unfolding ask parsed read_parsed
  ask-Tracks role code (ms, st) good done =
      let r =
        get_or_insert-Answers (parsed role) src.gave_up code (read_parsed src parse role code)
          (λ s here. ap (λ t. t >>= parse role) (sound.reads s role code here)) (memo_of ms role) st
          (Good-memo_of ms role good) done in
      (r.0, Good-put ms role _ r.1 good)

  ask-Stays : (role : Role) (code : ℕ) → Stays (ask src parse role code)
  unfolding ask read_parsed
  ask-Stays role code (ms, st) h =
      get_or_insert-stays (parsed role) src.gave_up code (read_parsed src parse role code)
        (λ s here. sound.stays s role code here) (memo_of ms role) st h

  -- The last step of a row.
  abbrev built : V → V → V → V → Decode src parse (Quad V)
  built s p o g w = (ok (record { s = s; p = p; o = o; g = g }), w)

  with_graph : V → V → V → Quad ℕ → Decode src parse (Quad V)
  with_graph s p o q = then_do src parse (ask src parse graph q.g) (λ g. built s p o g)

  with_object : V → V → Quad ℕ → Decode src parse (Quad V)
  with_object s p q = then_do src parse (ask src parse object q.o) (λ o. with_graph s p o q)

  with_predicate : V → Quad ℕ → Decode src parse (Quad V)
  with_predicate s q = then_do src parse (ask src parse predicate q.p) (λ p. with_object s p q)

  with_graph-Stays : (s p o : V) (q : Quad ℕ) → Stays (with_graph s p o q)
  unfolding with_graph
  with_graph-Stays s p o q =
      then_do-Stays (ask src parse graph q.g) (λ g. built s p o g) (ask-Stays graph q.g)
        (λ g w h. h)

  with_object-Stays : (s p : V) (q : Quad ℕ) → Stays (with_object s p q)
  unfolding with_object
  with_object-Stays s p q =
      then_do-Stays (ask src parse object q.o) (λ o. with_graph s p o q) (ask-Stays object q.o)
        (λ o. with_graph-Stays s p o q)

  with_predicate-Stays : (s : V) (q : Quad ℕ) → Stays (with_predicate s q)
  unfolding with_predicate
  with_predicate-Stays s q =
      then_do-Stays (ask src parse predicate q.p) (λ p. with_object s p q) (ask-Stays predicate q.p)
        (λ p. with_object-Stays s p q)

  pub decode_row-Stays : (q : Quad ℕ) → Stays (decode_row src parse q)
  unfolding decode_row with_predicate with_object with_graph
  decode_row-Stays q =
      then_do-Stays (ask src parse subject q.s) (λ s. with_predicate s q) (ask-Stays subject q.s)
        (λ s. with_predicate-Stays s q)

  pub decode_row-Tracks : (q : Quad ℕ) → Tracks (decode_row src parse q) (plain_row parse text q)
  unfolding decode_row plain_row parsed with_predicate with_object with_graph
  decode_row-Tracks q =
      then_do-Tracks (ask src parse subject q.s) (λ s. with_predicate s q) (parsed subject q.s) _
        (ask-Tracks subject q.s)
        (λ s.
          then_do-Tracks (ask src parse predicate q.p) (λ p. with_object s p q)
            (parsed predicate q.p) _ (ask-Tracks predicate q.p)
            (λ p.
              then_do-Tracks (ask src parse object q.o) (λ o. with_graph s p o q)
                (parsed object q.o) _ (ask-Tracks object q.o)
                (λ o.
                  then_do-Tracks (ask src parse graph q.g) (λ g. built s p o g) (parsed graph q.g) _
                    (ask-Tracks graph q.g) (λ g w good done. (refl, good)) (λ g w h. h))
                (λ o. with_graph-Stays s p o q))
            (λ p. with_object-Stays s p q))
        (λ s. with_predicate-Stays s q)
