-- ===== src/Columns/Groups.antt =====
-- core/src/columns/join.rs, `Groups`: right rows grouped by slot in two counting passes.
use vortex_rdf.Prelude.{
  ℕ, zero, suc, ◌+◌, ◌-◌, List, [], ◌∷◌, map, get_or, take, replicate, range_from,
}
use vortex_rdf.Prelude.Arrays.{set}

-- The rows in slot `k` are `rows[starts[k]..starts[k + 1]]`.
pub record Groups : Type 0 where
  pub starts : List ℕ
  pub rows : List ℕ

-- `starts[k + 1] += 1` for the slot `k` of each row.
unfoldable pub tally_slots : List ℕ → List ℕ → List ℕ
tally_slots [] starts = starts
tally_slots (k ∷ ks) starts = tally_slots ks (set starts (k + 1) (get_or starts (k + 1) 0 + 1))

-- `starts[k + 1] += starts[k]` for `n` slots from `k`.
unfoldable pub sum_up : ℕ → ℕ → List ℕ → List ℕ
sum_up zero k starts = starts
sum_up (suc n) k starts =
    sum_up n (suc k) (set starts (k + 1) (get_or starts (k + 1) 0 + get_or starts k 0))

-- The rows from `r`, of the slots listed, each to the place that `fill` holds for its slot.
unfoldable pub place : ℕ → List ℕ → List ℕ → List ℕ → List ℕ
place r [] fill rows = rows
place r (k ∷ ks) fill rows =
    let at = get_or fill k 0 in place (suc r) ks (set fill k (at + 1)) (set rows at r)

unfoldable pub build : ℕ → List ℕ → Groups
unfolding tally_slots sum_up place
build slots row_slots =
    let summed = sum_up slots 0 (tally_slots row_slots (replicate (slots + 2) 0)) in
    let starts = set summed (slots + 1) (get_or summed slots 0) in
    let fill = take slots starts in
    record { starts = starts; rows = place 0 row_slots fill (replicate (get_or starts slots 0) 0) }

-- The number of rows in slot `k`.
unfoldable pub group_count : Groups → ℕ → ℕ
group_count g k = get_or g.starts (k + 1) 0 - get_or g.starts k 0

-- The rows in slot `k`.
unfoldable pub group_rows : Groups → ℕ → List ℕ
unfolding group_count
group_rows g k = map (λ p. get_or g.rows p 0) (range_from (get_or g.starts k 0) (group_count g k))
