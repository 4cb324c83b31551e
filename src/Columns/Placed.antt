-- ===== src/Columns/Placed.antt =====
-- core/src/columns/join.rs, `Groups`: the pass that places each row at the next place of its slot.
use vortex_rdf.Prelude.{
  ℕ, suc, ◌+◌, ◌≤◌, ◌<◌, ◌≡◌, refl, sym, ap, subst, ◌∙◌, ◌≢◌, inl, inr, List, [], ◌∷◌, map, arith,
  Bool-cases, ◌==◌, ==_iff, length, get_or, range_from,
}
use vortex_rdf.Prelude.Arrays.{set, length-set, get_or-set_self, get_or-set_ne}
use vortex_rdf.Search.Sinks.{matches, count_words, flag}
use vortex_rdf.Columns.Groups.{place}
use vortex_rdf.Columns.Starts.{AllBelow}

-- The place phase. Slot `k` still has the places from `fill[k]`, one for each of its rows to come.
pub record InSlot (ks fill : List ℕ) (k p : ℕ) : Type 0 where
  pub from : get_or fill k 0 ≤ p
  pub before : p < get_or fill k 0 + count_words ks k

pub record IsRoomy (slots : ℕ) (ks fill rows : List ℕ) : Type 0 where
  pub wide : slots ≤ length fill
  pub apart : (k m p : ℕ) → k < slots → m < slots → InSlot ks fill k p → InSlot ks fill m p → k ≡ m
  pub inside : (k p : ℕ) → k < slots → InSlot ks fill k p → p < length rows

module _ (slots k : ℕ) (ks fill rows : List ℕ) (r : ℕ) (known : k < slots)
    (roomy : IsRoomy slots (k ∷ ks) fill rows) where
  abbrev at : ℕ
  at = get_or fill k 0

  abbrev fill_next : List ℕ
  fill_next = set fill k (at + 1)

  fill_self : get_or fill_next k 0 ≡ at + 1
  fill_self = get_or-set_self (at + 1) 0 fill k (omega (arith, roomy.wide))

  count_here : count_words (k ∷ ks) k ≡ suc (count_words ks k)
  unfolding count_words
  count_here = ground arith

  here-InSlot : InSlot (k ∷ ks) fill k at
  here-InSlot = record { from = omega arith; before = omega (arith, count_here) }

  -- A place that is free afterwards was free before, and is not the one just taken.
  still-InSlot :
      (m p : ℕ) → m < slots → InSlot ks fill_next m p → InSlot (k ∷ ks) fill m p × (p ≢ at)
  unfolding count_words
  still-InSlot m p h v = elim (Bool-cases (k == m)) [
    | inl same ↦
        let e : m ≡ k = sym ((==_iff k m).0 same) in
        let w : InSlot ks fill_next k p = subst (λ a. InSlot ks fill_next a p) e v in
        (
          subst (λ a. InSlot (k ∷ ks) fill a p) (sym e)
              (record {
                from = omega (arith, w.from, fill_self);
                before = omega (arith, w.before, fill_self, count_here);
              }),
          λ c. absurd (omega (arith, w.from, fill_self)),
        )
    | inr other ↦
        let differ : k ≢ m = λ e. cc (sym other ∙ (==_iff k m).1 e) in
        let kept = get_or-set_ne (at + 1) 0 fill k m differ in
        let w : InSlot (k ∷ ks) fill m p = record {
          from = omega (arith, v.from, kept);
          before = omega (arith, v.before, kept, ap flag other);
        } in
        (
          w,
          λ c. differ (roomy.apart k m at known h here-InSlot (subst (InSlot (k ∷ ks) fill m) c w)),
        )
  ]

  next-IsRoomy : IsRoomy slots ks fill_next (set rows at r)
  next-IsRoomy = record {
    wide = omega (arith, length-set (at + 1) 0 fill k, roomy.wide);
    apart = λ a b p ha hb va vb.
        roomy.apart a b p ha hb (still-InSlot a p ha va).0 (still-InSlot b p hb vb).0;
    inside = λ a p ha va.
        omega (arith, length-set r 0 rows at, roomy.inside a p ha (still-InSlot a p ha va).0);
  }

pub length-place : (r : ℕ) (ks fill rows : List ℕ) → length (place r ks fill rows) ≡ length rows
unfolding place
length-place r [] fill rows = refl
length-place r (k ∷ ks) fill rows =
    length-place (suc r) ks _ _ ∙ length-set r 0 rows (get_or fill k 0)

-- A place that no slot has to come keeps its row.
place-kept :
    (slots : ℕ) (ks fill rows : List ℕ) (r p : ℕ)
    → AllBelow slots ks
    → IsRoomy slots ks fill rows
    → ((k : ℕ) → k < slots → InSlot ks fill k p → ⊥)
    → get_or (place r ks fill rows) p 0 ≡ get_or rows p 0
unfolding place
place-kept slots [] fill rows r p small roomy free = refl
place-kept slots (k ∷ ks) fill rows r p small roomy free =
    place-kept slots ks (set fill k (get_or fill k 0 + 1)) (set rows (get_or fill k 0) r) (suc r) p
      small.1 (next-IsRoomy slots k ks fill rows r small.0 roomy)
      (λ m h v. free m h (still-InSlot slots k ks fill rows r small.0 roomy m p h v).0)
    ∙ get_or-set_ne r 0 rows (get_or fill k 0) p (λ e.
      free k small.0
        (subst (InSlot (k ∷ ks) fill k) e (here-InSlot slots k ks fill rows r small.0 roomy)))

module _ (slots k : ℕ) (ks fill rows : List ℕ) (r : ℕ) (small : AllBelow slots (k ∷ ks))
    (roomy : IsRoomy slots (k ∷ ks) fill rows) where
  abbrev filled : ℕ → ℕ
  filled p = get_or (place r (k ∷ ks) fill rows) p 0

  filled_here : filled (get_or fill k 0) ≡ r
  unfolding place
  filled_here =
      place-kept slots ks (fill_next slots k ks fill rows r small.0 roomy)
        (set rows (get_or fill k 0) r) (suc r) (get_or fill k 0) small.1
        (next-IsRoomy slots k ks fill rows r small.0 roomy)
        (λ m h v. (still-InSlot slots k ks fill rows r small.0 roomy m _ h v).1 refl)
      ∙ get_or-set_self r 0 rows (get_or fill k 0)
          (roomy.inside k _ small.0 (here-InSlot slots k ks fill rows r small.0 roomy))

  -- The slot of the row being placed: the row comes first.
  filled_slot :
      map filled (
          range_from
            (get_or (fill_next slots k ks fill rows r small.0 roomy) k 0)
            (count_words ks k))
        ≡ matches (suc r) ks k
      → map filled (range_from (get_or fill k 0) (count_words (k ∷ ks) k)) ≡ matches r (k ∷ ks) k
  unfolding matches
  filled_slot ih =
      let f : get_or (fill_next slots k ks fill rows r small.0 roomy) k 0 ≡ suc (get_or fill k 0) =
        omega (arith, fill_self slots k ks fill rows r small.0 roomy) in
      rw (count_here slots k ks fill rows r small.0 roomy) (
        rw ((==_iff k k).1 refl) (λ i.
          filled_here i ∷ (ap (λ s. map filled (range_from s (count_words ks k))) (sym f) ∙ ih) i))

-- The places of a slot end with its rows, in order.
pub place-matches :
    (slots : ℕ) (ks fill rows : List ℕ) (r m : ℕ)
    → AllBelow slots ks
    → IsRoomy slots ks fill rows
    → m < slots
    → map (λ p. get_or (place r ks fill rows) p 0) (range_from (get_or fill m 0) (count_words ks m))
      ≡ matches r ks m
unfolding place matches count_words
place-matches slots [] fill rows r m small roomy h = refl
place-matches slots (k ∷ ks) fill rows r m small roomy h =
    let ih =
      place-matches slots ks (set fill k (get_or fill k 0 + 1)) (set rows (get_or fill k 0) r)
        (suc r) m small.1 (next-IsRoomy slots k ks fill rows r small.0 roomy) h in
    elim (Bool-cases (k == m)) [
      | inl same ↦
          let e : k ≡ m = (==_iff k m).0 same in
          subst
            (λ a.
              map (filled slots k ks fill rows r small roomy)
                (range_from (get_or fill a 0) (count_words (k ∷ ks) a))
              ≡ matches r (k ∷ ks) a)
            e
            (filled_slot slots k ks fill rows r small roomy (
              subst
                (λ a.
                  map (filled slots k ks fill rows r small roomy)
                    (range_from (get_or (set fill k (get_or fill k 0 + 1)) a 0) (count_words ks a))
                  ≡ matches (suc r) ks a)
                (sym e) ih))
      | inr other ↦
          let kept : get_or (set fill k (get_or fill k 0 + 1)) m 0 ≡ get_or fill m 0 =
            get_or-set_ne _ 0 fill k m (λ e. cc (sym other ∙ (==_iff k m).1 e)) in
          let plain : 0 + count_words ks m ≡ count_words ks m = omega arith in
          rw other (rw plain (rw (← kept) ih))
    ]
