-- ===== src/Dict/Written.antt =====
-- core/src/store/layouts/dictionary/codec/mod.rs, `SpanMemo`: a span that a slot holds is the term of
-- its code, however far the lines have grown since.
use vortex_rdf.Prelude.{
  ℕ, zero, suc, ◌-◌, ◌%◌, ◌≤◌, ◌≡◌, ◌≢◌, refl, ap, sym, ◌∙◌, inl, inr, List, [], ◌∷◌, ◌++◌, none,
  some, arith, tests, Bool-cases, ltb, ◌==◌, ==_iff, length, get_or, take, drop, replicate,
  length-append, length-drop, take-all, drop-all,
}
use vortex_rdf.Prelude.Arrays.{set}
use vortex_rdf.Prelude.Fallible.{Result, ok}
use vortex_rdf.View.Selection.{slice}
use vortex_rdf.Dict.Bytes.{Text}
use vortex_rdf.Dict.Lines.{Slot, term_code_max, span_slots, held_span, span_of, put_span, new_spans}

take-append : (n : ℕ) (xs ys : Text) → n ≤ length xs → take n (xs ++ ys) ≡ take n xs
take-append zero xs ys h = refl
take-append (suc n) [] ys h = absurd (omega arith)
take-append (suc n) (x ∷ xs) ys h = ap (λ zs. x ∷ zs) (take-append n xs ys (omega arith))

drop-append : (n : ℕ) (xs ys : Text) → n ≤ length xs → drop n (xs ++ ys) ≡ drop n xs ++ ys
drop-append zero xs ys h = refl
drop-append (suc n) [] ys h = absurd (omega arith)
drop-append (suc n) (x ∷ xs) ys h = drop-append n xs ys (omega arith)

slice-append : (t more : Text) (a b : ℕ) → b ≤ length t → slice (t ++ more) a b ≡ slice t a b
slice-append t more a b h = elim (Bool-cases (ltb (length t) a)) [
  | inl over ↦ let e : b - a ≡ 0 = omega tests in rw e refl
  | inr inside ↦
      rw (drop-append a t more (omega tests))
        (take-append (b - a) (drop a t) more (omega (tests, length-drop a t)))
]

slice-behind : (t more : Text) → slice (t ++ more) (length t) (length (t ++ more)) ≡ more
slice-behind t more =
    rw (drop-append (length t) t more (omega arith), drop-all (length t) t (omega arith))
      (take-all (length (t ++ more) - length t) more (omega (arith, length-append t more)))

module _ {E : Type 0} (read : ℕ → Result E Text) where
  -- A slot that holds a code that a dictionary can have holds the span of the code's term.
  abbrev pub IsWritten : Text → Slot → Type 0
  IsWritten t (code, start, stop) =
      code ≢ term_code_max → (stop ≤ length t) × (read code ≡ ok (slice t start stop))

  abbrev pub AllWritten : Text → List Slot → Type 0
  AllWritten t [] = Unit {0}
  AllWritten t (slot ∷ slots) = IsWritten t slot × AllWritten t slots

  AllWritten-replicate : (n : ℕ) → AllWritten [] (replicate n (term_code_max, 0, 0))
  AllWritten-replicate zero = tt
  AllWritten-replicate (suc n) = (λ h. absurd (h refl), AllWritten-replicate n)

  pub new_spans-AllWritten : AllWritten [] new_spans
  unfolding new_spans
  new_spans-AllWritten = AllWritten-replicate span_slots

  IsWritten-append : (t more : Text) (slot : Slot) → IsWritten t slot → IsWritten (t ++ more) slot
  IsWritten-append t more (code, start, stop) h ne =
      let (fits, held) = h ne in
      (
        omega (arith, length-append t more),
        held ∙ ap ok (sym (slice-append t more start stop fits)),
      )

  pub AllWritten-append :
      (t more : Text) (slots : List Slot) → AllWritten t slots → AllWritten (t ++ more) slots
  AllWritten-append t more [] h = tt
  AllWritten-append t more (slot ∷ slots) h =
      (IsWritten-append t more slot h.0, AllWritten-append t more slots h.1)

  AllWritten-set :
      (t : Text) (slots : List Slot) (i : ℕ) (slot : Slot)
      → IsWritten t slot
      → AllWritten t slots
      → AllWritten t (set slots i slot)
  AllWritten-set t [] i slot p h = tt
  AllWritten-set t (s ∷ slots) zero slot p h = (p, h.1)
  AllWritten-set t (s ∷ slots) (suc i) slot p h = (h.0, AllWritten-set t slots i slot p h.1)

  AllWritten-get :
      (t : Text) (slots : List Slot) (i : ℕ)
      → AllWritten t slots
      → IsWritten t (get_or slots i (term_code_max, 0, 0))
  AllWritten-get t [] i h = λ ne. absurd (ne refl)
  AllWritten-get t (s ∷ slots) zero h = h.0
  AllWritten-get t (s ∷ slots) (suc i) h = AllWritten-get t slots i h.1

  -- A term just written behind the lines is in its span.
  pub put_span-AllWritten :
      (t more : Text) (slots : List Slot) (code : ℕ)
      → read code ≡ ok more
      → AllWritten t slots
      → AllWritten (t ++ more) (put_span slots code (length t) (length (t ++ more)))
  unfolding put_span
  put_span-AllWritten t more slots code h held =
      AllWritten-set (t ++ more) slots (code % span_slots) (code, length t, length (t ++ more))
        (λ ne. (omega arith, h ∙ ap ok (sym (slice-behind t more))))
        (AllWritten-append t more slots held)

  held_span-read :
      (t : Text) (slot : Slot) (code start stop : ℕ)
      → code ≢ term_code_max
      → IsWritten t slot
      → held_span slot code ≡ some (start, stop)
      → read code ≡ ok (slice t start stop)
  held_span-read t (held, a, b) code start stop ne w h = elim (Bool-cases (held == code)) [
    | inl same ↦
        let e : held ≡ code = (==_iff held code).0 same in
        let f : held_span (held, a, b) code ≡ some (a, b) = rw same refl in
        let (fits, is_term) = w (λ g. ne (sym e ∙ g)) in
        let g : read code ≡ ok (slice t a b) = ap read (sym e) ∙ is_term in cc (f, h, g)
    | inr other ↦ let f : held_span (held, a, b) code ≡ none = rw other refl in absurd (cc (f, h))
  ]

  -- A span found for a code that a dictionary can have is its term.
  pub span_of-read :
      (t : Text) (slots : List Slot) (code start stop : ℕ)
      → code ≢ term_code_max
      → AllWritten t slots
      → span_of slots code ≡ some (start, stop)
      → read code ≡ ok (slice t start stop)
  unfolding span_of
  span_of-read t slots code start stop ne held h =
      held_span-read t (get_or slots (code % span_slots) (term_code_max, 0, 0)) code start stop ne
        (AllWritten-get t slots (code % span_slots) held) h
