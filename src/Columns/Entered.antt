-- ===== src/Columns/Entered.antt =====
-- core/src/columns/join.rs, `Hashed`: the entries that number codes as they are met.
use vortex_rdf.Prelude.{
  ℕ, suc, ◌+◌, ◌≡◌, refl, sym, ap, subst, ◌∙◌, none, some, inl, inr, List, [], ◌∷◌, ◌++◌, map,
  arith, Bool-cases, Option-cases, ◌==◌, length,
}
use vortex_rdf.Columns.Join.{find_slot, hashed_slot, enter, enter_all, row_slots, or_else}
use vortex_rdf.Columns.Slots.{IsNumbered}

IsNumbered-append :
    (n c : ℕ) (entries : List (ℕ × ℕ))
    → IsNumbered n entries
    → IsNumbered n (entries ++ (c, n + length entries) ∷ [])
IsNumbered-append n c [] h = (omega arith, tt)
IsNumbered-append n c ((d, k) ∷ entries) h =
    let e : n + suc (length entries) ≡ suc n + length entries = omega arith in
    (h.0, rw e (IsNumbered-append (suc n) c entries h.1))

find_slot-append_found :
    (c k : ℕ) (entries rest : List (ℕ × ℕ))
    → find_slot c entries ≡ some k
    → find_slot c (entries ++ rest) ≡ some k
unfolding find_slot
find_slot-append_found c k [] rest e = absurd (cc)
find_slot-append_found c k ((d, s) ∷ entries) rest e = elim (Bool-cases (d == c)) [
  | inl hit ↦ ground arith
  | inr miss ↦ ground (arith, find_slot-append_found c k entries rest)
]

find_slot-append_missed :
    (c : ℕ) (entries rest : List (ℕ × ℕ))
    → find_slot c entries ≡ none
    → find_slot c (entries ++ rest) ≡ find_slot c rest
unfolding find_slot
find_slot-append_missed c [] rest e = refl
find_slot-append_missed c ((d, s) ∷ entries) rest e = elim (Bool-cases (d == c)) [
  | inl hit ↦ absurd (ground arith)
  | inr miss ↦ ground (arith, find_slot-append_missed c entries rest)
]

enter-missed :
    (c : ℕ) (entries : List (ℕ × ℕ))
    → find_slot c entries ≡ none
    → enter entries c ≡ entries ++ (c, length entries) ∷ []
unfolding enter
enter-missed c entries e = rw (enter, e) refl

enter-found :
    (c k : ℕ) (entries : List (ℕ × ℕ)) → find_slot c entries ≡ some k → enter entries c ≡ entries
unfolding enter
enter-found c k entries e = rw (enter, e) refl

enter-IsNumbered :
    (c : ℕ) (entries : List (ℕ × ℕ)) → IsNumbered 0 entries → IsNumbered 0 (enter entries c)
enter-IsNumbered c entries h = elim (Option-cases (find_slot c entries)) [
  | inl e ↦
      let z : 0 + length entries ≡ length entries = omega arith in
      rw (enter-missed c entries e)
        (subst (λ k. IsNumbered 0 (entries ++ (c, k) ∷ [])) z (IsNumbered-append 0 c entries h))
  | inr (k, e) ↦ rw (enter-found c k entries e) h
]

enter-kept :
    (c d k : ℕ) (entries : List (ℕ × ℕ))
    → find_slot c entries ≡ some k
    → find_slot c (enter entries d) ≡ some k
enter-kept c d k entries p = elim (Option-cases (find_slot d entries)) [
  | inl e ↦
      rw (enter-missed d entries e)
        (find_slot-append_found c k entries ((d, length entries) ∷ []) p)
  | inr (s, e) ↦ rw (enter-found d s entries e) p
]

-- A code has a slot among the entries.
abbrev pub Found : List (ℕ × ℕ) → ℕ → Type 0
Found entries c = (k : ℕ) × (find_slot c entries ≡ some k)

last_entry : (c n : ℕ) → find_slot c ((c, n) ∷ []) ≡ some n
unfolding find_slot
last_entry c n = ground arith

enter-Found : (c : ℕ) (entries : List (ℕ × ℕ)) → Found (enter entries c) c
enter-Found c entries = elim (Option-cases (find_slot c entries)) [
  | inl e ↦ (
    length entries,
    rw (enter-missed c entries e)
        (find_slot-append_missed c entries ((c, length entries) ∷ []) e ∙ last_entry c _),
  )
  | inr (k, e) ↦ (k, rw (enter-found c k entries e) e)
]

enter_all-kept :
    (c k : ℕ) (entries : List (ℕ × ℕ)) (cs : List ℕ)
    → find_slot c entries ≡ some k
    → find_slot c (enter_all entries cs) ≡ some k
unfolding enter_all
enter_all-kept c k entries [] p = p
enter_all-kept c k entries (d ∷ cs) p =
    enter_all-kept c k (enter entries d) cs (enter-kept c d k entries p)

pub enter_all-IsNumbered :
    (entries : List (ℕ × ℕ)) (cs : List ℕ)
    → IsNumbered 0 entries
    → IsNumbered 0 (enter_all entries cs)
unfolding enter_all
enter_all-IsNumbered entries [] h = h
enter_all-IsNumbered entries (c ∷ cs) h =
    enter_all-IsNumbered (enter entries c) cs (enter-IsNumbered c entries h)

abbrev pub AllFound : List (ℕ × ℕ) → List ℕ → Type 0
AllFound entries [] = Unit {0}
AllFound entries (c ∷ cs) = Found entries c × AllFound entries cs

pub enter_all-AllFound : (entries : List (ℕ × ℕ)) (cs : List ℕ) → AllFound (enter_all entries cs) cs
unfolding enter_all
enter_all-AllFound entries [] = tt
enter_all-AllFound entries (c ∷ cs) =
    let here : Found (enter entries c) c = enter-Found c entries in
    (
      (here.0, enter_all-kept c here.0 (enter entries c) cs here.1),
      enter_all-AllFound (enter entries c) cs,
    )

-- A slot given while the column is read is the slot its code keeps.
pub row_slots-map :
    (entries : List (ℕ × ℕ)) (cs : List ℕ)
    → row_slots entries cs ≡ map (hashed_slot (enter_all entries cs)) cs
unfolding row_slots enter_all hashed_slot
row_slots-map entries [] = refl
row_slots-map entries (c ∷ cs) =
    let here : Found (enter entries c) c = enter-Found c entries in
    let kept = enter_all-kept c here.0 (enter entries c) cs here.1 in
    λ i.
      (ap (λ o. or_else o (length (enter entries c))) here.1
          ∙ sym (ap (λ o. or_else o (length (enter_all (enter entries c) cs))) kept))
        i
      ∷ row_slots-map (enter entries c) cs i
