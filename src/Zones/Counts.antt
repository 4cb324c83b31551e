-- ===== src/Zones/Counts.antt =====
-- core/src/zone_stats/value_counts.rs: `Counts`, the values of a zone with their rows, and the state
-- that a zone table records of them, the two lists of a struct or a null.
use vortex_rdf.Prelude.{
  ℕ, zero, suc, ◌+◌, ◌%◌, Bool, true, ◌&&◌, List, [], ◌∷◌, ◌++◌, map, Option, none, some,
  if◌then◌else◌, ltb, leb, ◌==◌, length, get_or, take, drop,
}
use vortex_rdf.Prelude.Arrays.{set}
use vortex_rdf.Columns.Join.{u64_mod}
use vortex_rdf.Dict.Memo.{u32_max}

abbrev pub max_values : ℕ
max_values = 16

abbrev pub Pairs : Type 0
Pairs = List (ℕ × ℕ)

-- Pairs of a value and its rows, ascending by value, or too many values to record.
pub data Counts : Type 0 where
  values : Pairs → Counts
  too_many : Counts

abbrev pub new : Counts
new = values []

-- What `binary_search_by_key` answers on strictly ascending keys: the place of the key, or the one
-- where it goes.
pub data Place : Type 0 where
  found missing : ℕ → Place

unfoldable pub later : Place → Place
later (found at) = found (suc at)
later (missing at) = missing (suc at)

unfoldable pub binary_search_by_key : ℕ → Pairs → Place
unfolding later
binary_search_by_key key [] = missing 0
binary_search_by_key key (p ∷ ps) =
    let rest = later (binary_search_by_key key ps) in
    if p.0 == key then found 0 else if ltb key p.0 then missing 0 else rest

-- `values[at].1 += n`.
unfoldable pub bump : Pairs → ℕ → ℕ → Pairs
bump ps at n = let p = get_or ps at (0, 0) in set ps at (p.0, (p.1 + n) % u64_mod)

-- `values.insert(at, p)`.
unfoldable pub insert : Pairs → ℕ → ℕ × ℕ → Pairs
insert ps at p = take at ps ++ p ∷ drop at ps

unfoldable pub add_at : Place → Pairs → ℕ → ℕ → ℕ → Counts
unfolding bump insert
add_at (found at) ps value n max = values (bump ps at n)
add_at (missing at) ps value n max =
    if leb max (length ps) then too_many else values (insert ps at (value, n))

unfoldable pub add : Counts → ℕ → ℕ → ℕ → Counts
unfolding binary_search_by_key add_at
add (values ps) value n max = add_at (binary_search_by_key value ps) ps value n max
add too_many value n max = too_many

-- `take_while(|&&v| v == value).count()`.
unfoldable pub run_length : ℕ → List ℕ → ℕ
run_length value [] = 0
run_length value (v ∷ vs) = let rest = suc (run_length value vs) in if v == value then rest else 0

-- The rows left. A round takes a row at least, so the length of the list is rounds enough.
unfoldable pub add_runs : ℕ → Counts → List ℕ → ℕ → Counts
unfolding add run_length
add_runs zero counts vs max = counts
add_runs (suc fuel) counts [] max = counts
add_runs (suc fuel) too_many (v ∷ vs) max = too_many
add_runs (suc fuel) (values ps) (v ∷ vs) max =
    let run = run_length v (v ∷ vs) in
    add_runs fuel (add (values ps) v run max) (drop run (v ∷ vs)) max

unfoldable pub add_all : Counts → List ℕ → ℕ → Counts
unfolding add_runs
add_all counts vs max = add_runs (length vs) counts vs max

-- `u32::try_from(n)`, and the pairs of all the counts that it takes.
unfoldable pub keep_u32 : ℕ × ℕ → Option Pairs → Option Pairs
keep_u32 p (some ps) = if leb p.1 u32_max then some (p ∷ ps) else none
keep_u32 p none = none

unfoldable pub all_u32 : Pairs → Option Pairs
unfolding keep_u32
all_u32 [] = some []
all_u32 (p ∷ ps) = keep_u32 p (all_u32 ps)

unfoldable pub recorded : Counts → Option Pairs
unfolding all_u32
recorded (values ps) = all_u32 ps
recorded too_many = none

abbrev pub keys : Pairs → List ℕ
keys ps = map (λ p. p.0) ps

abbrev pub tallies : Pairs → List ℕ
tallies ps = map (λ p. p.1) ps

-- A state: null, or the lists `values` and `counts`.
abbrev pub State : Type 0
State = Option (List ℕ × List ℕ)

unfoldable pub state_of : Option Pairs → State
state_of none = none
state_of (some ps) = some (keys ps, tallies ps)

unfoldable pub to_scalar : Counts → State
unfolding recorded state_of
to_scalar counts = state_of (recorded counts)

-- `values.is_sorted_by(|a, b| a < b)`, for the values behind one.
unfoldable pub sorted_after : ℕ → List ℕ → Bool
sorted_after v [] = true
sorted_after v (w ∷ ws) = ltb v w && sorted_after w ws

unfoldable pub is_sorted : List ℕ → Bool
unfolding sorted_after
is_sorted [] = true
is_sorted (v ∷ vs) = sorted_after v vs

unfoldable pub all_counted : List ℕ → Bool
all_counted [] = true
all_counted (n ∷ ns) = ltb 0 n && all_counted ns

unfoldable pub zipped : List ℕ → List ℕ → Pairs
zipped (v ∷ vs) (n ∷ ns) = (v, n) ∷ zipped vs ns
zipped [] ns = []
zipped (v ∷ vs) [] = []

unfoldable pub pairs : List ℕ → List ℕ → Option Pairs
unfolding is_sorted all_counted zipped
pairs vs ns =
    let written =
      (length vs == length ns) && leb (length vs) max_values && is_sorted vs && all_counted ns in
    if written then some (zipped vs ns) else none

unfoldable pub decode_state : State → Option Pairs
unfolding pairs
decode_state none = none
decode_state (some s) = pairs s.0 s.1

unfoldable pub partial_of : Option Pairs → Counts
partial_of none = too_many
partial_of (some ps) = values ps

unfoldable pub partial_from_scalar : State → Counts
unfolding decode_state partial_of
partial_from_scalar s = partial_of (decode_state s)

unfoldable pub merged : Counts → Pairs → ℕ → Counts
unfolding add
merged out [] max = out
merged out (p ∷ ps) max = merged (add out p.0 p.1 max) ps max

unfoldable pub merge_partials : Counts → Counts → ℕ → Counts
unfolding merged
merge_partials (values first) (values second) max = merged (values first) second max
merge_partials (values first) too_many max = too_many
merge_partials too_many second max = too_many
