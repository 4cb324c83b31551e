-- ===== src/Columns/Join.antt =====
-- core/src/columns/join.rs: the equi-join of two columns of term codes, by merging two ascending
-- columns or by probing the right one grouped by code.
-- The outputs are the two index columns; the capacity that a counting pass reserves has no part in
-- what they hold.
use vortex_rdf.Prelude.{
  ℕ, zero, suc, ◌+◌, ◌-◌, ◌*◌, ◌%◌, Bool, true, false, ◌&&◌, ◌||◌, Option, none, some, List, [],
  ◌∷◌, ◌++◌, map, if◌then◌else◌, ltb, leb, ◌==◌, min, max, length, drop, replicate, range_from,
}
use vortex_rdf.Columns.Groups.{Groups, build, group_count, group_rows}

abbrev pub u64_mod : ℕ
u64_mod = 0x1_0000_0000_0000_0000

abbrev pub usize_max : ℕ
usize_max = u64_mod - 1

-- `Result<_, usize>`: a join past its cap is refused with its pair count.
pub data Capped {ℓ} (A : Type ℓ) : Type ℓ where
  ok : A → Capped A
  refused : ℕ → Capped A

infixl 5 ◌>>=◌ ◌>>◌
abbrev pub ◌>>=◌ {ℓ κ} : {A : Type ℓ} {B : Type κ} → Capped A → (A → Capped B) → Capped B
ok a >>= f = f a
refused n >>= f = refused n

abbrev pub ◌>>◌ {ℓ} : {B : Type ℓ} → Capped (Unit {0}) → Capped B → Capped B
m >> k = m >>= λ _. k

abbrev pub saturating_add : ℕ → ℕ → ℕ
saturating_add a b = min (a + b) usize_max

abbrev pub saturating_mul : ℕ → ℕ → ℕ
saturating_mul a b = min (a * b) usize_max

-- `(left_idx, right_idx)`.
abbrev pub Pairs : Type 0
Pairs = List ℕ × List ℕ

unfoldable pub within_cap : ℕ → Option ℕ → Capped (Unit {0})
within_cap pairs none = ok tt
within_cap pairs (some cap) = if ltb cap pairs then refused pairs else ok tt

unfoldable pub dense_table_fits : ℕ → ℕ → Bool
dense_table_fits span n = ltb span (max (saturating_mul n 4) 65536)

-- The smallest and the largest code.
unfoldable pub fold_range : List ℕ → ℕ → ℕ → ℕ × ℕ
fold_range [] lo hi = (lo, hi)
fold_range (c ∷ cs) lo hi = fold_range cs (min lo c) (max hi c)

unfoldable pub code_range : List ℕ → Option (ℕ × ℕ)
unfolding fold_range
code_range [] = none
code_range (c ∷ cs) = some (fold_range cs c c)

-- `Span`: a slot per code of the right column's span.
pub record Span : Type 0 where
  pub min_code : ℕ
  pub width : ℕ

unfoldable pub span_of : List ℕ → Option Span
unfolding code_range dense_table_fits
span_of codes = elim (code_range codes) [
  | none ↦ none
  | some (lo, hi) ↦
      if dense_table_fits (hi - lo) (length codes)
      then some (record { min_code = lo; width = hi - lo + 1 })
      else none
]

-- `wrapping_sub`, then clamped to the empty slot.
unfoldable pub span_slot : Span → ℕ → ℕ
span_slot s code = min ((code + u64_mod - s.min_code) % u64_mod) s.width

-- `Hashed`: the map from a code to its slot, as the list of its entries.
unfoldable pub find_slot : ℕ → List (ℕ × ℕ) → Option ℕ
find_slot code [] = none
find_slot code ((c, k) ∷ entries) = if c == code then some k else find_slot code entries

abbrev pub or_else : Option ℕ → ℕ → ℕ
or_else (some k) d = k
or_else none d = d

unfoldable pub hashed_slot : List (ℕ × ℕ) → ℕ → ℕ
unfolding find_slot
hashed_slot entries code = or_else (find_slot code entries) (length entries)

-- `map.entry(code).or_insert(map.len())`.
unfoldable pub enter : List (ℕ × ℕ) → ℕ → List (ℕ × ℕ)
unfolding find_slot
enter entries code = elim (find_slot code entries) [
  | none ↦ entries ++ (code, length entries) ∷ []
  | some k ↦ entries
]

unfoldable pub enter_all : List (ℕ × ℕ) → List ℕ → List (ℕ × ℕ)
unfolding enter
enter_all entries [] = entries
enter_all entries (code ∷ codes) = enter_all (enter entries code) codes

-- The slot of each row, as the pass over the column meets it.
unfoldable pub row_slots : List (ℕ × ℕ) → List ℕ → List ℕ
unfolding enter hashed_slot
row_slots entries [] = []
row_slots entries (code ∷ codes) =
    hashed_slot (enter entries code) code ∷ row_slots (enter entries code) codes

-- `RightIndex`: how a code's slot is found, and the rows by slot.
pub data Slots : Type 0 where
  dense : Span → Slots
  hashed : List (ℕ × ℕ) → Slots

unfoldable pub slot : Slots → ℕ → ℕ
unfolding span_slot hashed_slot
slot (dense s) code = span_slot s code
slot (hashed entries) code = hashed_slot entries code

pub record RightIndex : Type 0 where
  pub slots : Slots
  pub groups : Groups

unfoldable pub dense_index : List ℕ → Span → RightIndex
dense_index right s = record {
  slots = dense s;
  groups = build s.width (map (λ c. c - s.min_code) right);
}

unfoldable pub hashed_index : List ℕ → RightIndex
unfolding enter_all row_slots
hashed_index right =
    let entries = enter_all [] right in
    record { slots = hashed entries; groups = build (length entries) (row_slots [] right) }

-- `CodeGroups::build`.
unfoldable pub code_groups : List ℕ → RightIndex
unfolding span_of dense_index hashed_index
code_groups right = elim (span_of right) [
  | some s ↦ dense_index right s
  | none ↦ hashed_index right
]

module _ (index : RightIndex) where
  unfoldable pub rows_for : ℕ → List ℕ
  unfolding slot
  rows_for code = group_rows index.groups (slot index.slots code)

  abbrev pub rows_count : ℕ → ℕ
  rows_count code = group_count index.groups (slot index.slots code)

  unfoldable pub sum_counts : List ℕ → ℕ
  sum_counts [] = 0
  sum_counts (code ∷ left) = rows_count code + sum_counts left

  unfoldable pub fold_counts : ℕ → List ℕ → ℕ
  fold_counts total [] = total
  fold_counts total (code ∷ left) = fold_counts (saturating_add total (rows_count code)) left

  -- The sum saturates only where the product of the lengths overflows.
  unfoldable pub match_count : List ℕ → ℕ
  unfolding sum_counts fold_counts
  match_count left =
      if leb (length left * length index.groups.rows) usize_max
      then sum_counts left
      else fold_counts 0 left

  -- The loop of `join` over the left rows from row `i`; a left row with no match adds nothing.
  unfoldable pub join_rows : ℕ → List ℕ → Pairs → Pairs
  unfolding rows_for
  join_rows i [] out = out
  join_rows i (code ∷ left) out = join_rows (suc i) left (
      if length (rows_for code) == 0
      then out
      else (out.0 ++ replicate (length (rows_for code)) i, out.1 ++ rows_for code))

  unfoldable pub join : List ℕ → Option ℕ → Capped Pairs
  unfolding match_count join_rows within_cap
  join left max_pairs = do within_cap (match_count left) max_pairs; ok (join_rows 0 left ([], []))

-- The runs of equal codes of two ascending columns, pair by pair: `(i..i + m, j..j + n)`.
pub record RunPair : Type 0 where
  pub i : ℕ
  pub m : ℕ
  pub j : ℕ
  pub n : ℕ

-- `take_while(|c| c == a).count()`.
unfoldable pub run_len : ℕ → List ℕ → ℕ
run_len a [] = 0
run_len a (c ∷ cs) = let rest = run_len a cs in if c == a then suc rest else 0

-- `for_each_run_pair`, as the list of its visits. The columns are read from `i` and `j` on, and a
-- round passes a row of one of them, so their lengths together are rounds enough.
unfoldable pub run_pairs : ℕ → ℕ → List ℕ → ℕ → List ℕ → List RunPair
unfolding run_len
run_pairs zero i left j right = []
run_pairs (suc fuel) i [] j right = []
run_pairs (suc fuel) i (a ∷ left) j [] = []
run_pairs (suc fuel) i (a ∷ left) j (b ∷ right) =
    let m = run_len a (a ∷ left) in
    let n = run_len a (b ∷ right) in
    let skip_left = run_pairs fuel (i + 1) left j (b ∷ right) in
    let skip_right = run_pairs fuel i (a ∷ left) (j + 1) right in
    let visit =
      record { i = i; m = m; j = j; n = n }
      ∷ run_pairs fuel (i + m) (drop m (a ∷ left)) (j + n) (drop n (b ∷ right)) in
    if ltb a b then skip_left else if ltb b a then skip_right else visit

abbrev pub all_run_pairs : List ℕ → List ℕ → List RunPair
all_run_pairs left right = run_pairs (length left + length right) 0 left 0 right

unfoldable pub run_total : ℕ → List RunPair → ℕ
run_total total [] = total
run_total total (p ∷ ps) = run_total (saturating_add total (saturating_mul p.m p.n)) ps

unfoldable pub merge_join_len : List ℕ → List ℕ → ℕ
unfolding run_pairs run_total
merge_join_len left right = run_total 0 (all_run_pairs left right)

-- The rows of one visit: each left row of the run beside every right row.
unfoldable pub cross_left : ℕ → ℕ → ℕ → List ℕ
cross_left i zero n = []
cross_left i (suc m) n = replicate n i ++ cross_left (suc i) m n

unfoldable pub cross_right : ℕ → ℕ → ℕ → List ℕ
cross_right zero j n = []
cross_right (suc m) j n = range_from j n ++ cross_right m j n

unfoldable pub visit_runs : List RunPair → Pairs → Pairs
unfolding cross_left cross_right
visit_runs [] out = out
visit_runs (p ∷ ps) out =
    visit_runs ps (out.0 ++ cross_left p.i p.m p.n, out.1 ++ cross_right p.m p.j p.n)

unfoldable pub merge_join : List ℕ → List ℕ → Option ℕ → Capped Pairs
unfolding merge_join_len visit_runs within_cap
merge_join left right max_pairs = do
  within_cap (merge_join_len left right) max_pairs
  ok (visit_runs (all_run_pairs left right) ([], []))

-- `is_sorted`.
unfoldable pub is_sorted : List ℕ → Bool
is_sorted [] = true
is_sorted (a ∷ []) = true
is_sorted (a ∷ b ∷ rest) = leb a b && is_sorted (b ∷ rest)

abbrev pub is_empty : List ℕ → Bool
is_empty [] = true
is_empty (a ∷ rest) = false

unfoldable pub equi_join_indices : List ℕ → List ℕ → Option ℕ → Capped Pairs
unfolding merge_join join code_groups is_sorted
equi_join_indices left right max_pairs =
    if is_empty left || is_empty right
    then ok ([], [])
    else if is_sorted left && is_sorted right
    then merge_join left right max_pairs
    else join (code_groups right) left max_pairs

unfoldable pub join_count : List ℕ → List ℕ → ℕ
unfolding merge_join_len match_count code_groups is_sorted
join_count left right =
    if is_empty left || is_empty right
    then 0
    else if is_sorted left && is_sorted right
    then merge_join_len left right
    else match_count (code_groups right) left
