-- ===== src/Zones/Pushed.antt =====
-- core/src/zone_stats/quad_zones.rs, `ZoneBuilder::push`, and the pass of core/src/store/resident.rs
-- over a column: a builder gathers the codes that it is given, however they are cut.
use mathlib.Core.List.{append-nil, append_assoc}
use vortex_rdf.Prelude.{
  ℕ, zero, suc, ◌≤◌, ◌<◌, ◌≡◌, refl, sym, ap, subst, ◌∙◌, inl, inr, List, [], ◌∷◌, ◌++◌, arith,
  Bool-cases, ◌==◌, ==_iff, min, max, length, length-append, take, drop, take-append-drop,
  length-take, length-drop,
}
use vortex_rdf.Zones.ZoneMap.{zone_rows_max, least, greatest}
use vortex_rdf.Zones.Builder.{
  u64_max, ZoneBuilder, close, fold_part, push, room, part_bounds, fold_codes, fold_column,
}
use vortex_rdf.Zones.Bounds.{least-append, greatest-append, part_bounds-lem}
use vortex_rdf.Zones.Gathered.{
  concat, AllFull, AreBounds, Keeps, Gathered, concat-append, AllFull-append, AreBounds-append,
  close_records-Keeps, count_in-Keeps,
}

-- A zone that is full, before it is closed.
record Filled (codes : List ℕ) (b : ZoneBuilder) : Type 0 where
  closed : List (List ℕ)
  current : List ℕ
  joined : codes ≡ concat closed ++ current
  full : AllFull closed
  bounds : AreBounds closed b.mins b.maxes
  low : b.lo ≡ least u64_max current
  high : b.hi ≡ greatest 0 current
  filling : b.filled ≡ length current
  seen : b.rows ≡ length codes
  kept : Keeps closed current b.records

fold_part-Filled :
    (codes part : List ℕ) (b : ZoneBuilder) (lo hi : ℕ)
    → length part ≤ room b
    → lo ≡ least u64_max part
    → hi ≡ greatest 0 part
    → Gathered codes b
    → Filled (codes ++ part) (fold_part b part lo hi)
unfolding fold_part room
fold_part-Filled codes part b lo hi h e f g = record {
  closed = g.closed;
  current = g.current ++ part;
  joined = ap (λ xs. xs ++ part) g.joined ∙ append_assoc (concat g.closed) g.current part;
  full = g.full;
  bounds = g.bounds;
  low = (λ i. min (g.low i) (e i)) ∙ sym (least-append u64_max g.current part);
  high = (λ i. max (g.high i) (f i)) ∙ sym (greatest-append 0 g.current part);
  filling = omega (arith, g.filling.0, length-append g.current part);
  seen = omega (arith, g.seen, length-append codes part);
  kept =
      count_in-Keeps g.closed g.current part b.records (omega (arith, h, g.filling.0, g.filling.1))
        g.kept;
}

close-Gathered :
    (codes : List ℕ) (b : ZoneBuilder)
    → b.filled ≡ zone_rows_max
    → Filled codes b
    → Gathered codes (close b)
unfolding close least greatest
close-Gathered codes b e g = record {
  closed = g.closed ++ g.current ∷ [];
  current = [];
  joined =
      g.joined
      ∙ sym (concat-append g.closed g.current)
      ∙ sym (append-nil (concat (g.closed ++ g.current ∷ [])));
  full = AllFull-append g.closed g.current g.full (sym g.filling ∙ e);
  bounds = AreBounds-append g.closed g.current b.mins b.maxes b.lo b.hi g.bounds g.low g.high;
  low = refl;
  high = refl;
  filling = (refl, omega arith);
  seen = g.seen;
  kept = close_records-Keeps g.closed g.current b.records g.kept;
}

unfilled-Gathered :
    (codes : List ℕ) (b : ZoneBuilder)
    → b.filled < zone_rows_max
    → Filled codes b
    → Gathered codes b
unfilled-Gathered codes b h g = record {
  closed = g.closed;
  current = g.current;
  joined = g.joined;
  full = g.full;
  bounds = g.bounds;
  low = g.low;
  high = g.high;
  filling = (g.filling, h);
  seen = g.seen;
  kept = g.kept;
}

-- A builder takes a part that its zone has room for, with the part's bounds.
pub push-Gathered :
    (codes part : List ℕ) (b : ZoneBuilder) (lo hi : ℕ)
    → length part ≤ room b
    → lo ≡ least u64_max part
    → hi ≡ greatest 0 part
    → Gathered codes b
    → Gathered (codes ++ part) (push b part lo hi)
unfolding push
push-Gathered codes [] b lo hi h e f g = subst (λ xs. Gathered xs b) (sym (append-nil codes)) g
push-Gathered codes (c ∷ cs) b lo hi h e f g =
    let next = fold_part b (c ∷ cs) lo hi in
    let filled = fold_part-Filled codes (c ∷ cs) b lo hi h e f g in
    let most : next.filled ≤ zone_rows_max =
      unfold fold_part room in omega (arith, h, g.filling.1) in
    elim (Bool-cases (next.filled == zone_rows_max)) [
      | inl done ↦
          rw done (
            close-Gathered (codes ++ c ∷ cs) next ((==_iff next.filled zone_rows_max).0 done)
              filled)
      | inr left ↦ rw left (unfilled-Gathered (codes ++ c ∷ cs) next (ground arith) filled)
    ]

fold_codes-Gathered :
    (fuel : ℕ) (codes vs : List ℕ) (b : ZoneBuilder)
    → length vs ≤ fuel
    → Gathered codes b
    → Gathered (codes ++ vs) (fold_codes fuel b vs)
unfolding fold_codes
fold_codes-Gathered zero codes (v ∷ vs) b h g = absurd (omega arith)
fold_codes-Gathered zero codes [] b h g = subst (λ xs. Gathered xs b) (sym (append-nil codes)) g
fold_codes-Gathered (suc fuel) codes [] b h g =
    subst (λ xs. Gathered xs b) (sym (append-nil codes)) g
fold_codes-Gathered (suc fuel) codes (v ∷ vs) b h g =
    let n = min (room b) (length (v ∷ vs)) in
    let part = take n (v ∷ vs) in
    let rest = drop n (v ∷ vs) in
    let found = part_bounds u64_max 0 part in
    let exact = part_bounds-lem u64_max 0 part in
    let next = push b part found.0 found.1 in
    let some_room : 0 < room b = unfold room in omega (arith, g.filling.1) in
    let fits : length part ≤ room b = omega (arith, length-take n (v ∷ vs)) in
    let shorter : length rest ≤ fuel = omega (arith, length-drop n (v ∷ vs), some_room) in
    let step =
      push-Gathered codes part b found.0 found.1 fits (ap (λ p. p.0) exact) (ap (λ p. p.1) exact)
        g in
    subst (λ xs. Gathered xs (fold_codes fuel next rest))
      (append_assoc codes part rest ∙ ap (λ xs. codes ++ xs) (take-append-drop n (v ∷ vs)))
      (fold_codes-Gathered fuel (codes ++ part) rest next shorter step)

-- A column's slices are gathered whole.
pub fold_column-Gathered :
    (codes : List ℕ) (slices : List (List ℕ)) (b : ZoneBuilder)
    → Gathered codes b
    → Gathered (codes ++ concat slices) (fold_column b slices)
unfolding fold_column concat
fold_column-Gathered codes [] b g = subst (λ xs. Gathered xs b) (sym (append-nil codes)) g
fold_column-Gathered codes (vs ∷ slices) b g =
    let next = fold_codes (length vs) b vs in
    subst (λ xs. Gathered xs (fold_column next slices)) (append_assoc codes vs (concat slices))
      (fold_column-Gathered (codes ++ vs) slices next
        (fold_codes-Gathered (length vs) codes vs b (omega arith) g))
