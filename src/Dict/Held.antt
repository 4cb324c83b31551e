-- ===== src/Dict/Held.antt =====
-- core/src/store/layouts/dictionary/codec/mod.rs, `TermMemo`: a memo answers what a read would.
use vortex_rdf.Prelude.{
  ℕ, zero, suc, ◌≡◌, refl, sym, Bool, true, false, inl, inr, List, [], ◌∷◌, Option, none, some,
  Bool-cases, ◌==◌, ==_iff, get_or, replicate,
}
use vortex_rdf.Prelude.Arrays.{set}
use vortex_rdf.Prelude.Fallible.{Result, ok, err}
use vortex_rdf.Dict.Memo.{
  Admission, trial, admit, refuse, Memo, slot_count, new, admitting, slot_of, cached, count_miss,
  admitted, keep, filled, answered, looked_up, get_or_insert,
}

module _ {ℓ κ} {T : Type ℓ} {E : Type κ} (read : ℕ → Result E T) where
  -- A slot holds a code with the term that a read of the code gives.
  abbrev pub IsRead : Option (ℕ × T) → Type (ℓ ⊔ κ)
  IsRead none = Unit
  IsRead (some (code, term)) = read code ≡ ok term

  abbrev pub AllRead : List (Option (ℕ × T)) → Type (ℓ ⊔ κ)
  AllRead [] = Unit
  AllRead (slot ∷ slots) = IsRead slot × AllRead slots

  AllRead-replicate : (n : ℕ) → AllRead (replicate n none)
  AllRead-replicate zero = tt
  AllRead-replicate (suc n) = (tt, AllRead-replicate n)

  AllRead-set :
      (slots : List (Option (ℕ × T))) (i : ℕ) (slot : Option (ℕ × T))
      → IsRead slot
      → AllRead slots
      → AllRead (set slots i slot)
  AllRead-set [] i slot p h = tt
  AllRead-set (s ∷ slots) zero slot p h = (p, h.1)
  AllRead-set (s ∷ slots) (suc i) slot p h = (h.0, AllRead-set slots i slot p h.1)

  AllRead-get :
      (slots : List (Option (ℕ × T))) (i : ℕ) → AllRead slots → IsRead (get_or slots i none)
  AllRead-get [] i h = tt
  AllRead-get (s ∷ slots) zero h = h.0
  AllRead-get (s ∷ slots) (suc i) h = AllRead-get slots i h.1

  cached-IsRead :
      (slot : Option (ℕ × T)) (code : ℕ) (term : T)
      → IsRead slot
      → cached slot code ≡ some term
      → read code ≡ ok term
  unfolding cached
  cached-IsRead none code term p h = cc
  cached-IsRead (some (held, t)) code term p h = elim (Bool-cases (held == code)) [
    | inl same ↦
        let e : held ≡ code = (==_iff held code).0 same in
        let f : cached (some (held, t)) code ≡ some t = rw same refl in cc (p, e, f, h)
    | inr other ↦ let f : cached (some (held, t)) code ≡ none = rw other refl in cc (f, h)
  ]

  admitted-AllRead :
      (a : Admission) (i : ℕ) (slot : Option (ℕ × T)) (slots : List (Option (ℕ × T)))
      → IsRead slot
      → AllRead slots
      → AllRead (admitted a i slot slots)
  unfolding admitted
  admitted-AllRead refuse i slot slots p h = h
  admitted-AllRead admit i slot slots p h = AllRead-set slots i slot p h
  admitted-AllRead (trial misses hits) i slot slots p h = AllRead-set slots i slot p h

  pub new-AllRead : (rows : ℕ) → AllRead (new {T = T} rows).slots
  unfolding new
  new-AllRead rows = AllRead-replicate (slot_count rows)

  pub admitting-AllRead : (rows : ℕ) → AllRead (admitting {T = T} rows).slots
  unfolding admitting
  admitting-AllRead rows = new-AllRead rows

module _ {ℓ κ υ} {T : Type ℓ} {E : Type κ} {S : Type υ} (read : ℕ → Result E T) (gone : S → Bool)
    (code : ℕ) (decode : S → Result E T × S) where
  -- What a memo answers and holds afterwards, while the source has not given up.
  abbrev Answers : Result E T × Memo T × S → Type (ℓ ⊔ κ)
  Answers r = gone r.2 ≡ false → (r.0 ≡ read code) × AllRead read r.1.slots

  filled-Answers :
      (m : Memo T) (r : Result E T × S)
      → (gone r.1 ≡ false → r.0 ≡ read code)
      → AllRead read m.slots
      → Answers (filled m code r)
  unfolding filled keep
  filled-Answers m (err e, st) reads h here = (reads here, h)
  filled-Answers m (ok term, st) reads h here = (
    reads here,
    admitted-AllRead read (count_miss m.admission) (slot_of m code) (some (code, term)) m.slots
        (sym (reads here)) h,
  )

  module _ (reads : (st : S) → gone (decode st).1 ≡ false → (decode st).0 ≡ read code) where
    answered-Answers :
        (m : Memo T) (st : S) (slot : Option (ℕ × T)) (o : Option T)
        → cached slot code ≡ o
        → IsRead read slot
        → AllRead read m.slots
        → Answers (answered m code decode st o)
    unfolding answered
    answered-Answers m st slot (some term) e p h here =
        (sym (cached-IsRead read slot code term p e), h)
    answered-Answers m st slot none e p h here = filled-Answers m (decode st) (reads st) h here

    looked_up-Answers :
        (m : Memo T) (slots : List (Option (ℕ × T))) (st : S)
        → AllRead read slots
        → AllRead read m.slots
        → Answers (looked_up m slots code decode st)
    unfolding looked_up
    looked_up-Answers m [] st p h here = (reads st here, h)
    looked_up-Answers m (slot ∷ slots) st p h here =
        answered-Answers m st (get_or (slot ∷ slots) (slot_of m code) none)
          (cached (get_or (slot ∷ slots) (slot_of m code) none) code) refl
          (AllRead-get read (slot ∷ slots) (slot_of m code) p) h here

    -- A memo whose slots hold what reads give answers what the read of the code would, and its slots
    -- still do so afterwards, unless the source has given up.
    pub get_or_insert-Answers :
        (m : Memo T) (st : S) → AllRead read m.slots → Answers (get_or_insert m code decode st)
    unfolding get_or_insert
    get_or_insert-Answers m st h = looked_up-Answers m m.slots st h h

  -- A source that has given up stays so over a lookup.
  module _ (stays : (st : S) → gone st ≡ true → gone (decode st).1 ≡ true) where
    filled-stays :
        (m : Memo T) (r : Result E T × S) → gone r.1 ≡ true → gone (filled m code r).2 ≡ true
    unfolding filled
    filled-stays m (err e, st) h = h
    filled-stays m (ok term, st) h = h

    answered-stays :
        (m : Memo T) (st : S) (o : Option T)
        → gone st ≡ true
        → gone (answered m code decode st o).2 ≡ true
    unfolding answered
    answered-stays m st (some term) h = h
    answered-stays m st none h = filled-stays m (decode st) (stays st h)

    looked_up-stays :
        (m : Memo T) (slots : List (Option (ℕ × T))) (st : S)
        → gone st ≡ true
        → gone (looked_up m slots code decode st).2 ≡ true
    unfolding looked_up
    looked_up-stays m [] st h = stays st h
    looked_up-stays m (slot ∷ slots) st h = answered-stays m st _ h

    pub get_or_insert-stays :
        (m : Memo T) (st : S) → gone st ≡ true → gone (get_or_insert m code decode st).2 ≡ true
    unfolding get_or_insert
    get_or_insert-stays m st h = looked_up-stays m m.slots st h
