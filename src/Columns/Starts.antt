-- ===== src/Columns/Starts.antt =====
-- core/src/columns/join.rs, `Groups`: the tallies and the running sums, where each slot begins.
use vortex_rdf.Prelude.{
  ℕ, zero, suc, ◌+◌, ◌≤◌, ◌<◌, ◌≡◌, refl, sym, ap, subst, ◌∙◌, ◌≢◌, inl, inr, List, [], ◌∷◌, arith,
  Bool-cases, ◌==◌, ==_iff, length, get_or, replicate, length-replicate,
}
use vortex_rdf.Prelude.Arrays.{set, length-set, get_or-set_self, get_or-set_ne, get_or-replicate}
use vortex_rdf.Search.Sinks.{count_words, flag}
use vortex_rdf.Columns.Groups.{tally_slots, sum_up}

-- Every value lies below the bound.
abbrev pub AllBelow : ℕ → List ℕ → Type 0
AllBelow n [] = Unit {0}
AllBelow n (x ∷ xs) = (x < n) × AllBelow n xs

-- What the first pass adds at each index: nothing at 0, and behind it each slot's rows.
abbrev tallied : List ℕ → ℕ → ℕ
tallied ks zero = 0
tallied ks (suc k) = count_words ks k

tallied-cons : (k : ℕ) (ks : List ℕ) (j : ℕ) → tallied (k ∷ ks) j ≡ flag (k + 1 == j) + tallied ks j
unfolding count_words
tallied-cons k ks zero = ground arith
tallied-cons k ks (suc j) = ground arith

tally_slots_lem :
    (ks starts : List ℕ) (n j : ℕ)
    → AllBelow n ks
    → n + 1 ≤ length starts
    → get_or (tally_slots ks starts) j 0 ≡ get_or starts j 0 + tallied ks j
unfolding tally_slots
tally_slots_lem [] starts n zero small fits = omega arith
tally_slots_lem [] starts n (suc j) small fits = unfold count_words in omega arith
tally_slots_lem (k ∷ ks) starts n j small fits =
    tally_slots_lem ks (set starts (k + 1) (get_or starts (k + 1) 0 + 1)) n j small.1
      (omega (arith, length-set (get_or starts (k + 1) 0 + 1) 0 starts (k + 1)))
    ∙ elim (Bool-cases (k + 1 == j)) [
      | inl hit ↦
          let e : k + 1 ≡ j = (==_iff (k + 1) j).0 hit in
          rw (← e) (
            omega (
              arith,
              get_or-set_self (get_or starts (k + 1) 0 + 1) 0 starts (k + 1)
                  (omega (arith, small.0)),
              tallied-cons k ks (k + 1),
              ap flag ((==_iff (k + 1) (k + 1)).1 refl),
            ))
      | inr miss ↦
          let e : k + 1 ≢ j = λ e. absurd (ground arith) in
          omega (
            arith,
            get_or-set_ne (get_or starts (k + 1) 0 + 1) 0 starts (k + 1) j e,
            tallied-cons k ks j,
            ap flag miss,
          )
    ]

length-tally_slots : (ks starts : List ℕ) → length (tally_slots ks starts) ≡ length starts
unfolding tally_slots
length-tally_slots [] starts = refl
length-tally_slots (k ∷ ks) starts =
    length-tally_slots ks _ ∙ length-set (get_or starts (k + 1) 0 + 1) 0 starts (k + 1)

length-sum_up : (n k : ℕ) (starts : List ℕ) → length (sum_up n k starts) ≡ length starts
unfolding sum_up
length-sum_up zero k starts = refl
length-sum_up (suc n) k starts =
    length-sum_up n (suc k) _
    ∙ length-set (get_or starts (k + 1) 0 + get_or starts k 0) 0 starts (k + 1)

-- The running sums that the second loop makes: index `j` ends as the sum up to it.
sum_up_before :
    (n k : ℕ) (starts : List ℕ) (j : ℕ) → j ≤ k → get_or (sum_up n k starts) j 0 ≡ get_or starts j 0
unfolding sum_up
sum_up_before zero k starts j h = refl
sum_up_before (suc n) k starts j h =
    sum_up_before n (suc k) _ j (omega arith)
    ∙ get_or-set_ne _ 0 starts (k + 1) j (λ e. absurd (omega arith))

sum_up_step :
    (n k : ℕ) (starts : List ℕ) (j : ℕ)
    → k ≤ j
    → j < k + n
    → k + n + 1 ≤ length starts
    → get_or (sum_up n k starts) (suc j) 0
      ≡ get_or (sum_up n k starts) j 0 + get_or starts (suc j) 0
unfolding sum_up
sum_up_step zero k starts j p q fits = absurd (omega arith)
sum_up_step (suc n) k starts j p q fits =
    let v : ℕ = get_or starts (k + 1) 0 + get_or starts k 0 in
    let next : List ℕ = set starts (k + 1) v in
    let width = length-set v 0 starts (k + 1) in
    elim (Bool-cases (k == j)) [
      | inl same ↦
          let e : j ≡ k = sym ((==_iff k j).0 same) in
          let f : k + 1 ≡ suc k = omega arith in
          rw e (
            omega (
              arith,
              sum_up_before n (suc k) next (suc k) (omega arith),
              sum_up_before n (suc k) next k (omega arith),
              subst (λ i. get_or next i 0 ≡ v) f (get_or-set_self v 0 starts (k + 1) (omega arith)),
              get_or-set_ne v 0 starts (k + 1) k (λ c. absurd (omega arith)),
              ap (λ i. get_or starts i 0) f,
            ))
      | inr later ↦
          let less : k < j = ground arith in
          omega (
            arith,
            sum_up_step n (suc k) next j less (omega arith) (omega arith),
            get_or-set_ne v 0 starts (k + 1) (suc j) (λ c. absurd (omega arith)),
          )
    ]

module _ (slots : ℕ) (ks : List ℕ) (small : AllBelow slots ks) where
  abbrev pub summed : List ℕ
  summed = sum_up slots 0 (tally_slots ks (replicate (slots + 2) 0))

  abbrev pub starts : List ℕ
  starts = set summed (slots + 1) (get_or summed slots 0)

  pub length-summed : length summed ≡ slots + 2
  length-summed = length-sum_up slots 0 _ ∙ length-tally_slots ks _ ∙ length-replicate (slots + 2) 0

  start_zero : get_or starts 0 0 ≡ 0
  start_zero = omega (
    arith,
    get_or-set_ne (get_or summed slots 0) 0 summed (slots + 1) 0 (λ c. absurd (omega arith)),
    sum_up_before slots 0 (tally_slots ks (replicate (slots + 2) 0)) 0 (omega arith),
    tally_slots_lem ks (replicate (slots + 2) 0) slots 0 small
        (omega (arith, length-replicate {A = ℕ} (slots + 2) 0)),
    get_or-replicate {A = ℕ} 0 (slots + 2) 0,
  )

  -- A slot's rows end where the next slot's begin.
  pub start_next :
      (k : ℕ) → k < slots → get_or starts (suc k) 0 ≡ get_or starts k 0 + count_words ks k
  start_next k h = omega (
    arith,
    get_or-set_ne (get_or summed slots 0) 0 summed (slots + 1) k (λ c. absurd (omega arith)),
    get_or-set_ne (get_or summed slots 0) 0 summed (slots + 1) (suc k) (λ c. absurd (omega arith)),
    sum_up_step slots 0 (tally_slots ks (replicate (slots + 2) 0)) k (omega arith) (omega arith) (
        omega (
          arith,
          length-tally_slots ks (replicate (slots + 2) 0),
          length-replicate {A = ℕ} (slots + 2) 0,
        )),
    tally_slots_lem ks (replicate (slots + 2) 0) slots (suc k) small
        (omega (arith, length-replicate {A = ℕ} (slots + 2) 0)),
    get_or-replicate {A = ℕ} 0 (slots + 2) (suc k),
  )

  -- The last slot is empty.
  pub start-last : get_or starts (slots + 1) 0 ≡ get_or starts slots 0
  start-last =
      get_or-set_self (get_or summed slots 0) 0 summed (slots + 1) (omega (arith, length-summed))
      ∙ sym (
          get_or-set_ne (get_or summed slots 0) 0 summed (slots + 1) slots
            (λ c. absurd (omega arith)))

  pub start_order : (n k : ℕ) → k + n ≤ slots → get_or starts k 0 ≤ get_or starts (k + n) 0
  start_order zero k h = let e : k + 0 ≡ k = omega arith in rw e (omega arith)
  start_order (suc n) k h =
      let e : k + suc n ≡ suc k + n = omega arith in
      rw e (omega (arith, start_order n (suc k) (omega arith), start_next k (omega arith)))
