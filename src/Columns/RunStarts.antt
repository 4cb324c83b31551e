-- ===== src/Columns/RunStarts.antt =====
-- core/src/columns/mod.rs, `run_starts`: the rows where a run of equal rows starts.
use vortex_rdf.Prelude.{
  ℕ, ◌-◌, ◌<◌, ◌≡◌, refl, ◌⊎◌, ◌↔◌, Bool, true, false, not, ◌&&◌, ◌||◌, inl, inr, ltb, ==_iff, List,
  [], ◌∷◌, Option, none, some, if◌then◌else◌, arith, Bool-cases, ◌==◌, length, get_or, range_from,
}
use vortex_rdf.View.Selection.{mem, filter}
use vortex_rdf.View.Ascending.{IsRising, IsRising-filter, mem-filter, mem-range_from}
use vortex_rdf.View.Kept.{range_from-IsRising}

-- Whether a column differs in its length, and in its code at a row from the row before.
unfoldable uneven : ℕ → List (List ℕ) → Bool
uneven len [] = false
uneven len (c ∷ columns) = not (length c == len) || uneven len columns

unfoldable differs : List (List ℕ) → ℕ → Bool
differs [] i = false
differs (c ∷ columns) i = not (get_or c i 0 == get_or c (i - 1) 0) || differs columns i

unfoldable starts_of : List (List ℕ) → ℕ → List ℕ
unfolding differs filter
starts_of columns len = filter (λ i. i == 0 || differs columns i) (range_from 0 len)

unfoldable pub run_starts : List (List ℕ) → Option (List ℕ)
unfolding uneven starts_of
run_starts [] = some []
run_starts (first ∷ columns) =
    if uneven (length first) (first ∷ columns)
    then none
    else some (starts_of (first ∷ columns) (length first))

-- Two rows that have the same code in every column, and columns of one length.
abbrev pub SameRow : List (List ℕ) → ℕ → ℕ → Type 0
SameRow [] i j = Unit {0}
SameRow (c ∷ columns) i j = (get_or c i 0 ≡ get_or c j 0) × SameRow columns i j

abbrev pub AllLong : ℕ → List (List ℕ) → Type 0
AllLong len [] = Unit {0}
AllLong len (c ∷ columns) = (length c ≡ len) × AllLong len columns

differs-SameRow :
    (columns : List (List ℕ)) (i : ℕ) → differs columns i ≡ false → SameRow columns (i - 1) i
unfolding differs
differs-SameRow [] i h = tt
differs-SameRow (c ∷ columns) i h =
    (ground (arith, h), differs-SameRow columns i (ground (arith, h)))

SameRow-differs :
    (columns : List (List ℕ)) (i : ℕ) → SameRow columns (i - 1) i → differs columns i ≡ false
unfolding differs
SameRow-differs [] i h = refl
SameRow-differs (c ∷ columns) i h = ground (arith, h.0, SameRow-differs columns i h.1)

AllLong-uneven :
    (len : ℕ) (columns : List (List ℕ)) → AllLong len columns → uneven len columns ≡ false
unfolding uneven
AllLong-uneven len [] h = refl
AllLong-uneven len (c ∷ columns) h = ground (arith, h.0, AllLong-uneven len columns h.1)

uneven-AllLong :
    (len : ℕ) (columns : List (List ℕ)) → uneven len columns ≡ false → AllLong len columns
unfolding uneven
uneven-AllLong len [] h = tt
uneven-AllLong len (c ∷ columns) h =
    (ground (arith, h), uneven-AllLong len columns (ground (arith, h)))

-- A row where a run starts: the first, or one that differs from the row before in some column.
abbrev pub IsStart : List (List ℕ) → ℕ → Type 0
IsStart columns i = (i ≡ 0) ⊎ ¬ SameRow columns (i - 1) i

module _ (columns : List (List ℕ)) (len : ℕ) where
  mem-starts_of :
      (i : ℕ) → mem i (starts_of columns len) ≡ ltb i len && (i == 0 || differs columns i)
  unfolding starts_of
  mem-starts_of i =
      let e = mem-filter (λ k. k == 0 || differs columns k) i (range_from 0 len) in
      let f = mem-range_from i 0 len in ground (arith, e, f)

  starts_of-IsStart : (i : ℕ) → mem i (starts_of columns len) ≡ true → (i < len) × IsStart columns i
  starts_of-IsStart i h =
      let e = mem-starts_of i in
      (
        ground (arith, e, h),
        elim (Bool-cases (i == 0)) [
          | inl z ↦ inl ((==_iff i 0).0 z)
          | inr n ↦ inr (λ same. absurd (ground (arith, e, h, n, SameRow-differs columns i same)))
        ],
      )

  IsStart-starts_of : (i : ℕ) → i < len → IsStart columns i → mem i (starts_of columns len) ≡ true
  IsStart-starts_of i p (inl z) = ground (arith, mem-starts_of i, p, z)
  IsStart-starts_of i p (inr differ) = elim (Bool-cases (differs columns i)) [
    | inl d ↦ ground (arith, mem-starts_of i, p, d)
    | inr same ↦ absurd (differ (differs-SameRow columns i same))
  ]

-- The answer for columns of `len` rows: none where some column has another length, and else the
-- rows where a run starts, ascending and each once.
unfoldable pub AreStarts : List (List ℕ) → ℕ → Option (List ℕ) → Type 0
AreStarts columns len none = ¬ AllLong len columns
AreStarts columns len (some starts) =
    AllLong len columns
    × IsRising starts
    × ((i : ℕ) → (mem i starts ≡ true) ↔ ((i < len) × IsStart columns i))

-- `run_starts` refuses columns of unequal lengths, and else answers exactly the rows where a run of
-- equal rows starts, the first row and those that differ from the row before in some column,
-- ascending and each once.
pub run_starts-AreStarts :
    (first : List ℕ) (columns : List (List ℕ))
    → AreStarts (first ∷ columns) (length first) (run_starts (first ∷ columns))
unfolding run_starts AreStarts
run_starts-AreStarts first columns =
    let all = first ∷ columns in
    let len = length first in
    elim (Bool-cases (uneven len all)) [
      | inl bad ↦ rw bad (λ long. absurd (ground (arith, bad, AllLong-uneven len all long)))
      | inr good ↦ rw good (
        uneven-AllLong len all good,
        unfold starts_of in
            IsRising-filter (λ i. i == 0 || differs all i) (range_from 0 len)
              (range_from-IsRising 0 len),
        λ i. (starts_of-IsStart all len i, λ start. IsStart-starts_of all len i start.0 start.1),
      )
    ]
