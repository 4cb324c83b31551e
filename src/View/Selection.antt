-- ===== src/View/Selection.antt =====
-- core/src/store/view/selection.rs, `RowSelection`: the base rows a view covers, and their
-- narrowing.
-- A buffer of ids is the list of them, and the `deleted` tombstones are the test that the mask's
-- `value` is. `usize` and `u64` are both 64 bits wide, so that a conversion between them changes
-- nothing. A range is a start and an end, and an argument of a narrowing never ends before it
-- starts: `Buffer::slice` refuses such bounds.
use vortex_rdf.Prelude.{
  ℕ, zero, suc, ◌+◌, ◌-◌, ◌/◌, Bool, true, false, ◌&&◌, ◌||◌, Option, none, some, List, [], ◌∷◌,
  ◌++◌, if◌then◌else◌, ltb, leb, ◌==◌, min, max, length, take, drop, range_from,
}

abbrev pub u64_max : ℕ
u64_max = 0xffff_ffff_ffff_ffff

abbrev pub saturating_add : ℕ → ℕ → ℕ
saturating_add a b = min (a + b) u64_max

-- `Range<u64>`.
pub record Range : Type 0 where
  pub start : ℕ
  pub end : ℕ

pub data RowSelection : Type 0 where
  all : RowSelection
  range : Range → RowSelection
  ids : List ℕ → RowSelection

pub data SelectedRows : Type 0 where
  run : Range → SelectedRows
  listed : List ℕ → SelectedRows

abbrev pub span : ℕ → ℕ → Range
span a b = record { start = a; end = b }

abbrev pub range_contains : Range → ℕ → Bool
range_contains r row = leb r.start row && ltb row r.end

-- `slice::partition_point` and `slice::binary_search`, on a list that the test splits.
unfoldable pub partition_point : (ℕ → Bool) → List ℕ → ℕ
partition_point test [] = 0
partition_point test (x ∷ xs) = let rest = partition_point test xs in if test x then suc rest else 0

unfoldable pub mem : ℕ → List ℕ → Bool
mem row [] = false
mem row (x ∷ xs) = x == row || mem row xs

unfoldable pub filter : (ℕ → Bool) → List ℕ → List ℕ
filter keep [] = []
filter keep (x ∷ xs) = let rest = filter keep xs in if keep x then x ∷ rest else rest

-- `ids.slice(lo..hi)`.
abbrev pub slice : List ℕ → ℕ → ℕ → List ℕ
slice xs lo hi = take (hi - lo) (drop lo xs)

abbrev pub empty : RowSelection
empty = range (span 0 0)

abbrev pub from_ids : List ℕ → RowSelection
from_ids [] = empty
from_ids (x ∷ xs) = ids (x ∷ xs)

abbrev pub range_or_empty : Range → RowSelection
range_or_empty r = if leb r.end r.start then empty else range r

abbrev pub clamped : Range → ℕ → Range
clamped r base_len = span (min r.start base_len) (max (min r.end base_len) (min r.start base_len))

abbrev pub len : RowSelection → ℕ → ℕ
len all base_len = base_len
len (range r) base_len = r.end - r.start
len (ids xs) base_len = length xs

abbrev pub is_empty : RowSelection → ℕ → Bool
is_empty s base_len = len s base_len == 0

abbrev pub as_rows : RowSelection → ℕ → SelectedRows
as_rows all base_len = run (span 0 base_len)
as_rows (range r) base_len = run (clamped r base_len)
as_rows (ids xs) base_len = listed xs

unfoldable pub contains : RowSelection → ℕ → Bool
unfolding mem
contains all row = true
contains (range r) row = range_contains r row
contains (ids xs) row = mem row xs

-- The rows of a run.
abbrev pub rows_of : Range → List ℕ
rows_of r = range_from r.start (r.end - r.start)

unfoldable pub restrict_ids : List ℕ → Range → List ℕ
unfolding partition_point
restrict_ids xs r =
    slice xs (partition_point (λ id. ltb id r.start) xs) (partition_point (λ id. ltb id r.end) xs)

unfoldable pub intersect_range : RowSelection → Range → RowSelection
unfolding restrict_ids
intersect_range all r = range r
intersect_range (range current) r =
    let start = max current.start r.start in
    let end = min current.end r.end in range (span start (max end start))
intersect_range (ids xs) r = ids (restrict_ids xs r)

-- `intersect_sorted_ids`: the search of the longer list for each id of the shorter, and the merge.
unfoldable pub gallop : List ℕ → List ℕ → List ℕ
unfolding partition_point
gallop [] rest = []
gallop (id ∷ short) rest =
    let from = drop (partition_point (λ other. ltb other id) rest) rest in
    let found = gallop short from in
    elim from [ [] ↦ found | x ∷ xs ↦ if x == id then id ∷ found else found ]

unfoldable pub merge : ℕ → List ℕ → List ℕ → List ℕ
merge zero left right = []
merge (suc fuel) [] right = []
merge (suc fuel) (x ∷ left) [] = []
merge (suc fuel) (x ∷ left) (y ∷ right) =
    let less = merge fuel left (y ∷ right) in
    let greater = merge fuel (x ∷ left) right in
    let equal = x ∷ merge fuel left right in
    if ltb x y then less else if ltb y x then greater else equal

unfoldable pub intersect_sorted_ids : List ℕ → List ℕ → List ℕ
unfolding gallop merge
intersect_sorted_ids left right =
    let short = if leb (length left) (length right) then left else right in
    let long = if leb (length left) (length right) then right else left in
    if ltb (length short) (length long / 32)
    then gallop short long
    else merge (length left + length right) left right

unfoldable pub intersect_ids : RowSelection → List ℕ → RowSelection
unfolding restrict_ids intersect_sorted_ids
intersect_ids all xs = ids xs
intersect_ids (range r) xs = ids (restrict_ids xs r)
intersect_ids (ids current) xs = ids (intersect_sorted_ids current xs)

-- `clip_runs`, for every row or a range.
unfoldable pub clip : Range → List Range → List Range
clip within [] = []
clip within (r ∷ runs) =
    let rest = clip within runs in
    let start = max r.start within.start in
    let end = min r.end within.end in if ltb start end then span start end ∷ rest else rest

unfoldable pub clip_runs : RowSelection → List Range → Option (List Range)
unfolding clip
clip_runs all runs = some (clip (span 0 u64_max) runs)
clip_runs (range r) runs = some (clip r runs)
clip_runs (ids xs) runs = none

abbrev pub run_rows : List Range → List ℕ
run_rows [] = []
run_rows (r ∷ runs) = rows_of r ++ run_rows runs

-- What `intersect_runs` makes of the clipped runs.
abbrev pub from_runs : List Range → RowSelection
from_runs [] = empty
from_runs (r ∷ []) = range r
from_runs (r ∷ q ∷ runs) = ids (run_rows (r ∷ q ∷ runs))

-- The windows `lo..hi` of an id list, one for each run that keeps an id, from position `from`.
unfoldable pub run_windows : List ℕ → ℕ → List Range → List Range
unfolding partition_point
run_windows xs from [] = []
run_windows xs from (r ∷ runs) =
    let lo = from + partition_point (λ id. ltb id r.start) (drop from xs) in
    let hi = lo + partition_point (λ id. ltb id r.end) (drop lo xs) in
    let rest = run_windows xs hi runs in if ltb lo hi then span lo hi ∷ rest else rest

abbrev pub window_ids : List ℕ → List Range → List ℕ
window_ids xs [] = []
window_ids xs (w ∷ windows) = slice xs w.start w.end ++ window_ids xs windows

abbrev pub from_windows : List ℕ → List Range → RowSelection
from_windows xs [] = empty
from_windows xs (w ∷ []) = ids (slice xs w.start w.end)
from_windows xs (w ∷ v ∷ windows) = ids (window_ids xs (w ∷ v ∷ windows))

unfoldable pub intersect_runs : RowSelection → List Range → RowSelection
unfolding clip run_windows
intersect_runs all runs = from_runs (clip (span 0 u64_max) runs)
intersect_runs (range r) runs = from_runs (clip r runs)
intersect_runs (ids xs) runs = from_windows xs (run_windows xs 0 runs)

-- The last of a list that starts with `first`.
abbrev pub last_of : ℕ → List ℕ → ℕ
last_of first [] = first
last_of first (x ∷ xs) = last_of x xs

-- A contiguous stretch of every row or of a range stays a range.
abbrev pub stretch : RowSelection → ℕ → List ℕ → RowSelection
stretch (ids ys) first rest = ids (first ∷ rest)
stretch all first rest =
    if last_of first rest - first + 1 == length (first ∷ rest)
    then range (span first (last_of first rest + 1))
    else ids (first ∷ rest)
stretch (range r) first rest =
    if last_of first rest - first + 1 == length (first ∷ rest)
    then range (span first (last_of first rest + 1))
    else ids (first ∷ rest)

unfoldable pub narrow_to_ids : RowSelection → List ℕ → ℕ → RowSelection
narrow_to_ids s [] count = empty
narrow_to_ids s (first ∷ rest) count =
    if length (first ∷ rest) == count then s else stretch s first rest
