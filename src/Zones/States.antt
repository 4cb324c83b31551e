-- ===== src/Zones/States.antt =====
-- core/src/zone_stats/value_counts.rs: the state of counts, written and read back.
use vortex_rdf.Prelude.{
  ℕ, suc, ◌≡◌, refl, sym, ap, ◌∙◌, true, inl, inr, List, [], ◌∷◌, some, arith, Option-cases, lt→ltb,
  leb, le→leb, ◌==◌, ==_iff, length,
}
use vortex_rdf.Zones.Counts.{
  Pairs, Counts, values, too_many, recorded, all_u32, keys, tallies, state_of, to_scalar,
  max_values, sorted_after, is_sorted, all_counted, zipped, pairs, decode_state,
}
use vortex_rdf.Zones.Places.{IsAscending, AllCounted, Represents, length-keys}
use vortex_rdf.Zones.Described.{all_u32-same}

sorted_after-true : (v : ℕ) (vs : List ℕ) → IsAscending (suc v) vs → sorted_after v vs ≡ true
unfolding IsAscending sorted_after
sorted_after-true v [] a = refl
sorted_after-true v (w ∷ ws) a =
    rw (lt→ltb v w (omega (arith, a.0)), sorted_after-true w ws a.1) refl

is_sorted-true : (lo : ℕ) (vs : List ℕ) → IsAscending lo vs → is_sorted vs ≡ true
unfolding IsAscending is_sorted
is_sorted-true lo [] a = refl
is_sorted-true lo (v ∷ vs) a = sorted_after-true v vs a.1

all_counted-true : (ps : Pairs) → AllCounted ps → all_counted (tallies ps) ≡ true
unfolding AllCounted all_counted
all_counted-true [] a = refl
all_counted-true (p ∷ ps) a = rw (lt→ltb 0 p.1 a.0, all_counted-true ps a.1) refl

zipped-lem : (ps : Pairs) → zipped (keys ps) (tallies ps) ≡ ps
unfolding zipped
zipped-lem [] = refl
zipped-lem (p ∷ ps) = ap (λ qs. p ∷ qs) (zipped-lem ps)

length-tallies : (ps : Pairs) → length (tallies ps) ≡ length ps
length-tallies [] = refl
length-tallies (p ∷ ps) = ap suc (length-tallies ps)

pairs-lem :
    (count : ℕ → ℕ) (ps : Pairs)
    → Represents max_values count (values ps)
    → pairs (keys ps) (tallies ps) ≡ some ps
unfolding Represents pairs
pairs-lem count ps r =
    let same : (length (keys ps) == length (tallies ps)) ≡ true =
      (==_iff (length (keys ps)) (length (tallies ps))).1
        (length-keys ps ∙ sym (length-tallies ps)) in
    let few : leb (length (keys ps)) max_values ≡ true =
      le→leb (length (keys ps)) max_values (omega (arith, length-keys ps, r.2)) in
    rw (same, few, is_sorted-true 0 (keys ps) r.0, all_counted-true ps r.1)
      (ap some (zipped-lem ps))

-- The state of counts that stand for rows reads back as the pairs that they record, or as nothing
-- where they record nothing.
pub decode_state-to_scalar :
    (count : ℕ → ℕ) (counts : Counts)
    → Represents max_values count counts
    → decode_state (to_scalar counts) ≡ recorded counts
unfolding decode_state to_scalar state_of recorded
decode_state-to_scalar count too_many r = refl
decode_state-to_scalar count (values ps) r = elim (Option-cases (all_u32 ps)) [
  | inl n ↦ rw n refl
  | inr s ↦ let same = all_u32-same ps s.0 s.1 in rw (s.1, sym same) (pairs-lem count ps r)
]
