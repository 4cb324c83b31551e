-- ===== src/Scan/Held.antt =====
-- core/src/store/scan/read_plan.rs, `ids_by_split`: the groups are the ids, each in its split.
use vortex_rdf.Prelude.{ℕ, ◌≤◌, ◌<◌, ◌≡◌, List, [], ◌∷◌, ◌++◌, none, some, length}
use vortex_rdf.View.Selection.{Range}
use vortex_rdf.View.Ascending.{IsRising, FirstFrom}
use vortex_rdf.Scan.Splits.{Group, next_groups}

-- The ids of the groups, in order.
abbrev pub grouped_ids : List Group → List ℕ
grouped_ids [] = []
grouped_ids ((split, ids) ∷ groups) = ids ++ grouped_ids groups

-- The splits follow one another from the row `lo` on, as the splits of a file do.
abbrev pub Tiles : ℕ → List Range → Type 0
Tiles lo [] = Unit {0}
Tiles lo (s ∷ splits) = (s.start ≡ lo) × (lo ≤ s.end) × Tiles s.end splits

abbrev pub last_end : ℕ → List Range → ℕ
last_end lo [] = lo
last_end lo (s ∷ splits) = last_end s.end splits

abbrev pub AllFrom : ℕ → List ℕ → Type 0
AllFrom lo [] = Unit {0}
AllFrom lo (x ∷ xs) = (lo ≤ x) × AllFrom lo xs

abbrev pub AllIn : Range → List ℕ → Type 0
AllIn s [] = Unit {0}
AllIn s (x ∷ xs) = (s.start ≤ x) × (x < s.end) × AllIn s xs

-- Groups of ids, none empty: each split's ids lie in it, each split lies behind the one before, and
-- the ids behind the last row of the splits are one group of no split, the last. No split starts
-- before `lo`, and the splits end at `end`.
abbrev pub AreHeld : ℕ → ℕ → List Group → Type 0
AreHeld lo end [] = Unit {0}
AreHeld lo end ((none, xs) ∷ groups) = (0 < length xs) × AllFrom end xs × (groups ≡ [])
AreHeld lo end ((some s, xs) ∷ groups) =
    (0 < length xs) × (lo ≤ s.start) × AllIn s xs × AreHeld s.end end groups

-- What is left of the splits from the one that holds `first` on, which starts at `lo` or behind it.
abbrev IsLeft : ℕ → ℕ → ℕ → List Range → Type 0
IsLeft lo first end [] = end ≤ first
IsLeft lo first end (s ∷ splits) =
    (lo ≤ s.start) × (s.start ≤ first) × Tiles s.end splits × (last_end s.end splits ≡ end)

abbrev AllGroups : ℕ → Type 0
AllGroups fuel =
    (ids : List ℕ) (lo : ℕ) (splits : List Range)
    → IsRising ids
    → FirstFrom lo ids
    → Tiles lo splits
    → AreHeld lo (last_end lo splits) (next_groups fuel ids splits)
