-- ===== src/Zones/Slices.antt =====
-- core/src/zone_stats/quad_zones.rs: the zones of a column by their numbers.
use mathlib.Core.List.{append_assoc}
use vortex_rdf.Prelude.{
  ℕ, zero, suc, ◌+◌, ◌*◌, ◌<◌, ◌≡◌, refl, ap, ◌∙◌, List, [], ◌∷◌, ◌++◌, some, arith, length,
  length-append, get_or, get_elem?, take, drop, drop-drop,
}
use vortex_rdf.Search.Sinks.{count_words}
use vortex_rdf.Zones.ZoneMap.{zone_rows_max, RecordedZones, recorded_of}
use vortex_rdf.Zones.Described.{bounds_of, recorded_of-IsRecord}
use vortex_rdf.Zones.Gathered.{concat, AllFull, AreBounds, AreRecords}

-- Zones by their numbers.
pub AreBounds-lengths :
    (rs : List (List ℕ)) (los his : List ℕ)
    → AreBounds rs los his
    → (length los ≡ length rs) × (length his ≡ length rs)
unfolding AreBounds
AreBounds-lengths [] [] [] a = (refl, refl)
AreBounds-lengths [] [] (h ∷ his) a = absurd a
AreBounds-lengths [] (l ∷ los) his a = absurd a
AreBounds-lengths (r ∷ rs) [] his a = absurd a
AreBounds-lengths (r ∷ rs) (l ∷ los) [] a = absurd a
AreBounds-lengths (r ∷ rs) (l ∷ los) (h ∷ his) a =
    let ih = AreBounds-lengths rs los his a.2 in (ap suc ih.0, ap suc ih.1)

pub AreBounds-at :
    (rs : List (List ℕ)) (los his : List ℕ) (k : ℕ)
    → AreBounds rs los his
    → k < length rs
    → ◌≡◌ {A = ℕ × ℕ} (get_or los k 0, get_or his k 0) (bounds_of (get_or rs k []))
unfolding AreBounds
AreBounds-at [] los his k a h = absurd (omega arith)
AreBounds-at (r ∷ rs) [] his k a h = absurd a
AreBounds-at (r ∷ rs) (l ∷ los) [] k a h = absurd a
AreBounds-at (r ∷ rs) (l ∷ los) (h ∷ his) zero a p = λ i. (a.0 i, a.1 i)
AreBounds-at (r ∷ rs) (l ∷ los) (h ∷ his) (suc k) a p = AreBounds-at rs los his k a.2 (omega arith)

pub AreRecords-length :
    (rs : List (List ℕ)) (kept : RecordedZones) → AreRecords rs kept → length kept ≡ length rs
unfolding AreRecords
AreRecords-length [] [] a = refl
AreRecords-length [] (p ∷ kept) a = absurd a
AreRecords-length (r ∷ rs) [] a = absurd a
AreRecords-length (r ∷ rs) (p ∷ kept) a = ap suc (AreRecords-length rs kept a.1)

pub AreRecords-at :
    (rs : List (List ℕ)) (kept : RecordedZones) (k code n : ℕ)
    → AreRecords rs kept
    → k < length rs
    → recorded_of (get_elem? kept k) code ≡ some n
    → n ≡ count_words (get_or rs k []) code
unfolding AreRecords
AreRecords-at [] kept k code n a h e = absurd (omega arith)
AreRecords-at (r ∷ rs) [] k code n a h e = absurd a
AreRecords-at (r ∷ rs) (p ∷ kept) zero code n a h e = recorded_of-IsRecord r p code n a.0 e
AreRecords-at (r ∷ rs) (p ∷ kept) (suc k) code n a h e =
    AreRecords-at rs kept k code n a.1 (omega arith) e

-- A stretch of `zone_rows_max` codes at a time.
take-whole : (n : ℕ) (r xs : List ℕ) → length r ≡ n → take n (r ++ xs) ≡ r
take-whole zero [] xs e = refl
take-whole zero (c ∷ r) xs e = absurd (omega arith)
take-whole (suc n) [] xs e = absurd (omega arith)
take-whole (suc n) (c ∷ r) xs e = ap (λ ys. c ∷ ys) (take-whole n r xs (omega arith))

drop-whole : (n : ℕ) (r xs : List ℕ) → length r ≡ n → drop n (r ++ xs) ≡ xs
drop-whole zero [] xs e = refl
drop-whole zero (c ∷ r) xs e = absurd (omega arith)
drop-whole (suc n) [] xs e = absurd (omega arith)
drop-whole (suc n) (c ∷ r) xs e = drop-whole n r xs (omega arith)

module _ (last : List ℕ) where
  pub length-codes :
      (rs : List (List ℕ))
      → AllFull rs
      → length (concat rs ++ last) ≡ length rs * zone_rows_max + length last
  unfolding concat AllFull
  length-codes [] a = omega arith
  length-codes (r ∷ rs) a = omega (
    arith,
    length-append (r ++ concat rs) last,
    length-append r (concat rs),
    length-append (concat rs) last,
    length-codes rs a.1,
    a.0,
  )

  dropped :
      (r : List ℕ) (rs : List (List ℕ)) (k : ℕ)
      → length r ≡ zone_rows_max
      → drop (suc k * zone_rows_max) (concat (r ∷ rs) ++ last)
        ≡ drop (k * zone_rows_max) (concat rs ++ last)
  unfolding concat
  dropped r rs k e =
      let at : suc k * zone_rows_max ≡ zone_rows_max + k * zone_rows_max = omega arith in
      ap (λ m. drop m ((r ++ concat rs) ++ last)) at
      ∙ drop-drop zone_rows_max (k * zone_rows_max) ((r ++ concat rs) ++ last)
      ∙ ap (drop (k * zone_rows_max)) (
          ap (drop zone_rows_max) (append_assoc r (concat rs) last)
          ∙ drop-whole zone_rows_max r (concat rs ++ last) e)

  pub closed_slice :
      (rs : List (List ℕ)) (k : ℕ)
      → AllFull rs
      → k < length rs
      → take zone_rows_max (drop (k * zone_rows_max) (concat rs ++ last)) ≡ get_or rs k []
  unfolding AllFull
  closed_slice [] k a h = absurd (omega arith)
  closed_slice (r ∷ rs) zero a h =
      let z : 0 * zone_rows_max ≡ 0 = omega arith in
      ap (λ m. take zone_rows_max (drop m (concat (r ∷ rs) ++ last))) z
      ∙ unfold concat in
        (ap (take zone_rows_max) (append_assoc r (concat rs) last)
          ∙ take-whole zone_rows_max r (concat rs ++ last) a.0)
  closed_slice (r ∷ rs) (suc k) a h =
      ap (take zone_rows_max) (dropped r rs k a.0) ∙ closed_slice rs k a.1 (omega arith)

  pub last_slice :
      (rs : List (List ℕ))
      → AllFull rs
      → drop (length rs * zone_rows_max) (concat rs ++ last) ≡ last
  unfolding AllFull
  last_slice [] a =
      let z : 0 * zone_rows_max ≡ 0 = omega arith in
      ap (λ m. drop m (concat [] ++ last)) z ∙ unfold concat in refl
  last_slice (r ∷ rs) a = dropped r rs (length rs) a.0 ∙ last_slice rs a.1
