-- ===== src/Zones/Counted.antt =====
-- core/src/zone_stats/value_counts.rs: what `Counts` says of the rows that were added.
use vortex_rdf.Prelude.{
  ℕ, zero, suc, ◌+◌, ◌≤◌, ◌<◌, ◌≡◌, refl, sym, ap, subst, ◌∙◌, inl, inr, List, [], ◌∷◌, arith,
  Bool-cases, leb, leb→le, leb→lt, ◌==◌, ==_iff, length, drop, length-drop,
}
use vortex_rdf.Columns.Join.{u64_mod}
use vortex_rdf.Search.Sinks.{count_words, flag}
use vortex_rdf.Zones.Counts.{
  Pairs, Counts, values, too_many, Place, found, missing, binary_search_by_key, insert, add_at, add,
  run_length, add_runs, add_all, keys, merged, merge_partials,
}
use vortex_rdf.Zones.Places.{
  IsPlace, weight, count_at, IsAscending, AllCounted, AllOccur, Represents,
  binary_search_by_key-IsPlace, count_at-bump, count_at-insert, keys-bump, length-bump,
  insert-IsAscending, insert-AllCounted, bump-AllCounted, length-insert, length-keys,
  get_or-count_at,
}

AllOccur-keys :
    (count : ℕ → ℕ) (ps : Pairs)
    → AllCounted ps
    → ((x : ℕ) → count_at x ps ≤ count x)
    → AllOccur count (keys ps)
unfolding AllOccur AllCounted count_at
AllOccur-keys count [] a le = tt
AllOccur-keys count (p ∷ ps) a le =
    let here : p.1 ≤ weight p.0 p.1 p.0 = ground arith in
    (omega (arith, le p.0, a.0, here), AllOccur-keys count ps a.1 (λ x. omega (arith, le x)))

AllOccur-more : (f g : ℕ → ℕ) (cs : List ℕ) → ((x : ℕ) → f x ≤ g x) → AllOccur f cs → AllOccur g cs
unfolding AllOccur
AllOccur-more f g [] le a = tt
AllOccur-more f g (c ∷ cs) le a = (omega (arith, le c, a.0), AllOccur-more f g cs le a.1)

pub Represents-same :
    (max : ℕ) (f g : ℕ → ℕ) (counts : Counts)
    → ((x : ℕ) → f x ≡ g x)
    → Represents max f counts
    → Represents max g counts
unfolding Represents
Represents-same max f g (values ps) e r = (r.0, r.1, r.2, λ x. r.3 x ∙ e x)
Represents-same max f g too_many e r =
    (r.0, r.1, r.2, AllOccur-more f g r.0 (λ x. omega (arith, e x)) r.3)

-- One more value with its rows.
module _ (max value n : ℕ) (count : ℕ → ℕ) (some_rows : 0 < n) where
  abbrev after : ℕ → ℕ
  after x = count x + weight value n x

  add_at-Represents :
      (ps : Pairs) (place : Place)
      → count value + n < u64_mod
      → IsPlace value ps place
      → Represents max count (values ps)
      → Represents max after (add_at place ps value n max)
  unfolding Represents add_at IsPlace
  add_at-Represents ps (found at) fits w r =
      let room : count_at value ps + n < u64_mod = omega (arith, r.3 value) in
      let most = get_or-count_at value ps at w.0 w.1 in
      (
        subst (λ cs. IsAscending 0 cs) (sym (keys-bump ps at n)) r.0,
        bump-AllCounted ps at n (omega (arith, most)) r.1,
        rw (length-bump ps at n) r.2,
        λ x. count_at-bump value n x ps at w.0 w.1 room ∙ ap (λ k. k + weight value n x) (r.3 x),
      )
  add_at-Represents ps (missing at) fits w r =
      let more = insert ps at (value, n) in
      let order = insert-IsAscending 0 value n ps at (omega arith) r.0 w in
      let counted = insert-AllCounted value n ps at some_rows r.1 in
      let exact : (x : ℕ) → count_at x more ≡ after x =
        λ x. count_at-insert value n x ps at ∙ ap (λ k. k + weight value n x) (r.3 x) in
      let long = length-insert ps at (value, n) in
      elim (Bool-cases (leb max (length ps))) [
        | inl full ↦ rw full (
          keys more,
          order,
          omega (arith, length-keys more, long, leb→le max (length ps) full),
          AllOccur-keys after more counted (λ x. omega (arith, exact x)),
        )
        | inr room ↦
            rw room (order, counted, omega (arith, long, leb→lt max (length ps) room), exact)
      ]

  pub add-Represents :
      (counts : Counts)
      → count value + n < u64_mod
      → Represents max count counts
      → Represents max after (add counts value n max)
  unfolding add
  add-Represents (values ps) fits r =
      add_at-Represents ps (binary_search_by_key value ps) fits
        (binary_search_by_key-IsPlace value ps) r
  add-Represents too_many fits r =
      unfold Represents in (r.0, r.1, r.2, AllOccur-more count after r.0 (λ x. omega arith) r.3)

run_length-lem :
    (v x : ℕ) (vs : List ℕ)
    → weight v (run_length v vs) x + count_words (drop (run_length v vs) vs) x ≡ count_words vs x
unfolding run_length count_words
run_length-lem v x [] = ground arith
run_length-lem v x (w ∷ ws) = elim (Bool-cases (w == v)) [
  | inl e ↦
      let same : (v == x) ≡ (w == x) = ap (λ k. k == x) (sym ((==_iff w v).0 e)) in
      rw e (omega (arith, run_length-lem v x ws, suc_weight v (run_length v ws) x, ap flag same))
  | inr e ↦ rw e (ground arith)
]
  where
    suc_weight : (v n x : ℕ) → weight v (suc n) x ≡ flag (v == x) + weight v n x
    suc_weight v n x = elim (Bool-cases (v == x)) [ inl e ↦ rw e (omega arith) | inr e ↦ rw e refl ]

run_length-pos : (v : ℕ) (vs : List ℕ) → 0 < run_length v (v ∷ vs)
unfolding run_length
run_length-pos v vs = rw ((==_iff v v).1 refl) (omega arith)

add_runs-Represents :
    (fuel max : ℕ) (count : ℕ → ℕ) (counts : Counts) (vs : List ℕ)
    → length vs ≤ fuel
    → ((x : ℕ) → count x + count_words vs x < u64_mod)
    → Represents max count counts
    → Represents max (λ x. count x + count_words vs x) (add_runs fuel counts vs max)
unfolding add_runs
add_runs-Represents zero max count counts (v ∷ vs) h fits r = absurd (omega arith)
add_runs-Represents zero max count counts [] h fits r =
    Represents-same max count (λ x. count x + count_words [] x) counts
      (λ x. unfold count_words in omega arith) r
add_runs-Represents (suc fuel) max count counts [] h fits r =
    Represents-same max count (λ x. count x + count_words [] x) counts
      (λ x. unfold count_words in omega arith) r
add_runs-Represents (suc fuel) max count too_many (v ∷ vs) h fits r =
    unfold Represents in
    (
      r.0,
      r.1,
      r.2,
      AllOccur-more count (λ x. count x + count_words (v ∷ vs) x) r.0 (λ x. omega arith) r.3,
    )
add_runs-Represents (suc fuel) max count (values ps) (v ∷ vs) h fits r =
    let run = run_length v (v ∷ vs) in
    let rest = drop run (v ∷ vs) in
    let pos = run_length-pos v vs in
    let more : ℕ → ℕ = λ x. count x + weight v run x in
    let split : (x : ℕ) → more x + count_words rest x ≡ count x + count_words (v ∷ vs) x =
      λ x. omega (arith, run_length-lem v x (v ∷ vs)) in
    let own : weight v run v ≡ run = rw ((==_iff v v).1 refl) refl in
    let step =
      add-Represents max v run count pos (values ps) (omega (arith, split v, fits v, own)) r in
    Represents-same max (λ x. more x + count_words rest x) (λ x. count x + count_words (v ∷ vs) x)
      (add_runs fuel (add (values ps) v run max) rest max) split
      (add_runs-Represents fuel max more (add (values ps) v run max) rest
        (omega (arith, length-drop run (v ∷ vs), pos)) (λ x. omega (arith, split x, fits x)) step)

-- Rows added to counts, run by run, are counted each with its code, and the counts give up exactly
-- when the rows hold more than `max` codes; there are fewer than 2^64 rows of each code.
pub add_all-Represents :
    (max : ℕ) (count : ℕ → ℕ) (counts : Counts) (vs : List ℕ)
    → ((x : ℕ) → count x + count_words vs x < u64_mod)
    → Represents max count counts
    → Represents max (λ x. count x + count_words vs x) (add_all counts vs max)
unfolding add_all
add_all-Represents max count counts vs fits r =
    add_runs-Represents (length vs) max count counts vs (omega arith) fits r

merged-Represents :
    (max : ℕ) (count : ℕ → ℕ) (counts : Counts) (ps : Pairs)
    → AllCounted ps
    → ((x : ℕ) → count x + count_at x ps < u64_mod)
    → Represents max count counts
    → Represents max (λ x. count x + count_at x ps) (merged counts ps max)
unfolding merged AllCounted count_at
merged-Represents max count counts [] a fits r =
    Represents-same max count (λ x. count x + 0) counts (λ x. omega arith) r
merged-Represents max count counts (p ∷ ps) a fits r =
    let more : ℕ → ℕ = λ x. count x + weight p.0 p.1 x in
    let own : weight p.0 p.1 p.0 ≡ p.1 = rw ((==_iff p.0 p.0).1 refl) refl in
    let split : (x : ℕ) → more x + count_at x ps ≡ count x + (weight p.0 p.1 x + count_at x ps) =
      λ x. omega arith in
    let step = add-Represents max p.0 p.1 count a.0 counts (omega (arith, fits p.0, own)) r in
    Represents-same max (λ x. more x + count_at x ps)
      (λ x. count x + (weight p.0 p.1 x + count_at x ps)) (merged (add counts p.0 p.1 max) ps max)
      split
      (merged-Represents max more (add counts p.0 p.1 max) ps a.1
        (λ x. omega (arith, split x, fits x)) step)

-- The counts of two stretches of rows merge into the counts of both, or into the state of too many
-- values exactly when both hold more than `max` codes; there are fewer than 2^64 rows of each code.
pub merge_partials-Represents :
    (max : ℕ) (f g : ℕ → ℕ) (first second : Counts)
    → ((x : ℕ) → f x + g x < u64_mod)
    → Represents max f first
    → Represents max g second
    → Represents max (λ x. f x + g x) (merge_partials first second max)
unfolding merge_partials Represents
merge_partials-Represents max f g (values ps) (values qs) fits r s =
    Represents-same max (λ x. f x + count_at x qs) (λ x. f x + g x) (merged (values ps) qs max)
      (λ x. ap (λ k. f x + k) (s.3 x))
      (merged-Represents max f (values ps) qs s.1 (λ x. omega (arith, fits x, s.3 x)) r)
merge_partials-Represents max f g (values ps) too_many fits r s =
    (s.0, s.1, s.2, AllOccur-more g (λ x. f x + g x) s.0 (λ x. omega arith) s.3)
merge_partials-Represents max f g too_many (values qs) fits r s =
    (r.0, r.1, r.2, AllOccur-more f (λ x. f x + g x) r.0 (λ x. omega arith) r.3)
merge_partials-Represents max f g too_many too_many fits r s =
    (r.0, r.1, r.2, AllOccur-more f (λ x. f x + g x) r.0 (λ x. omega arith) r.3)
