-- ===== src/Dict/Memo.antt =====
-- core/src/store/layouts/dictionary/codec/mod.rs: `TermMemo`, a direct-mapped memo of decoded terms.
-- A read has the state of the source that it reads, and the memo that is written, as results.
use vortex_rdf.Prelude.{
  ℕ, zero, suc, ◌+◌, ◌-◌, ◌*◌, ◌%◌, List, [], ◌∷◌, Option, none, some, if◌then◌else◌, leb, ltb,
  ◌==◌, min, get_or, replicate,
}
use vortex_rdf.Prelude.Arrays.{set}
use vortex_rdf.Prelude.Fallible.{Result, ok, err}

-- `MEMO_MAX_SLOTS`, `MEMO_MIN_ROWS`, `MEMO_TRIAL_MISSES` and `MEMO_MISSES_PER_HIT`.
abbrev pub memo_max_slots : ℕ
memo_max_slots = 1024

abbrev pub memo_min_rows : ℕ
memo_min_rows = 16

abbrev pub memo_trial_misses : ℕ
memo_trial_misses = 64

abbrev pub memo_misses_per_hit : ℕ
memo_misses_per_hit = 8

abbrev pub u32_max : ℕ
u32_max = 4_294_967_295

-- Whether a memo keeps the terms that it decodes; a trial has its misses and its hits.
pub data Admission : Type 0 where
  trial : ℕ → ℕ → Admission
  admit refuse : Admission

pub record Memo {ℓ} (T : Type ℓ) : Type ℓ where
  pub slots : List (Option (ℕ × T))
  pub mask : ℕ
  pub admission : Admission

-- `next_power_of_two` of a number of rows up to the largest table, by doubling: ten doublings of 1
-- reach the largest table, and a table is never larger.
unfoldable pub doubled_past : ℕ → ℕ → ℕ → ℕ
doubled_past zero rows size = size
doubled_past (suc fuel) rows size =
    let more = doubled_past fuel rows (size * 2) in if ltb size rows then more else size

unfoldable pub slot_count : ℕ → ℕ
unfolding doubled_past
slot_count rows = if ltb rows memo_min_rows then 0 else doubled_past 10 rows 1

unfoldable pub count_hit : Admission → Admission
count_hit (trial misses hits) = trial misses (min (hits + 1) u32_max)
count_hit admit = admit
count_hit refuse = refuse

unfoldable pub count_miss : Admission → Admission
count_miss (trial misses hits) =
    if suc misses == memo_trial_misses
    then if leb (suc misses) (min (hits * memo_misses_per_hit) u32_max) then admit else refuse
    else trial (suc misses) hits
count_miss admit = admit
count_miss refuse = refuse

module _ {ℓ} {T : Type ℓ} where
  unfoldable pub new : ℕ → Memo T
  unfolding slot_count
  new rows = record {
    slots = replicate (slot_count rows) none;
    mask = slot_count rows - 1;
    admission = trial 0 0;
  }

  unfoldable pub admitting : ℕ → Memo T
  unfolding new
  admitting rows = record (new rows) { admission = admit }

  -- The low bits of a code: the slots number a power of two and the mask is one below it, so the
  -- masked code is the remainder by their number.
  abbrev pub slot_of : Memo T → ℕ → ℕ
  slot_of m code = code % (m.mask + 1)

  unfoldable pub cached : Option (ℕ × T) → ℕ → Option T
  cached none code = none
  cached (some (held, term)) code = if held == code then some term else none

  unfoldable pub admitted :
      Admission → ℕ → Option (ℕ × T) → List (Option (ℕ × T)) → List (Option (ℕ × T))
  admitted refuse i slot slots = slots
  admitted (trial misses hits) i slot slots = set slots i slot
  admitted admit i slot slots = set slots i slot

  unfoldable pub keep : Memo T → ℕ → T → Memo T
  unfolding count_miss admitted
  keep m code term = record m {
    slots = admitted (count_miss m.admission) (slot_of m code) (some (code, term)) m.slots;
    admission = count_miss m.admission;
  }

module _ {ℓ κ υ} {T : Type ℓ} {E : Type κ} {S : Type υ} where
  -- What follows a slot that does not hold the code: a failed read leaves the memo as it is.
  unfoldable pub filled : Memo T → ℕ → Result E T × S → Result E T × Memo T × S
  unfolding keep
  filled m code (err e, st) = (err e, m, st)
  filled m code (ok term, st) = (ok term, keep m code term, st)

  unfoldable pub answered :
      Memo T → ℕ → (S → Result E T × S) → S → Option T → Result E T × Memo T × S
  unfolding filled count_hit
  answered m code decode st (some term) =
      (ok term, record m { admission = count_hit m.admission }, st)
  answered m code decode st none = filled m code (decode st)

  unfoldable pub looked_up :
      Memo T → List (Option (ℕ × T)) → ℕ → (S → Result E T × S) → S → Result E T × Memo T × S
  unfolding answered cached
  looked_up m [] code decode st = ((decode st).0, m, (decode st).1)
  looked_up m (slot ∷ slots) code decode st =
      answered m code decode st (cached (get_or (slot ∷ slots) (slot_of m code) none) code)

  -- `TermMemo::get_or_insert`: a memo without slots only reads.
  unfoldable pub get_or_insert : Memo T → ℕ → (S → Result E T × S) → S → Result E T × Memo T × S
  unfolding looked_up
  get_or_insert m code decode st = looked_up m m.slots code decode st
