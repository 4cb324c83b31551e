-- ===== src/Zones/Gathered.antt =====
-- core/src/zone_stats/quad_zones.rs: what `ZoneBuilder` holds of the codes that it was given.
use mathlib.Core.List.{append-nil, append_assoc}
use vortex_rdf.Prelude.{
  ℕ, ◌+◌, ◌≤◌, ◌<◌, ◌≡◌, refl, sym, ap, ◌∙◌, List, [], ◌∷◌, ◌++◌, Option, none, some, arith, length,
}
use vortex_rdf.Columns.Join.{u64_mod}
use vortex_rdf.Search.Sinks.{count_words, count_words-append}
use vortex_rdf.Zones.Counts.{Counts, new, Pairs, add_all, recorded, max_values}
use vortex_rdf.Zones.Places.{count_at, IsAscending, AllCounted, Represents}
use vortex_rdf.Zones.Counted.{Represents-same, add_all-Represents}
use vortex_rdf.Zones.ZoneMap.{zone_rows_max, RecordedZones, least, greatest}
use vortex_rdf.Zones.Builder.{u64_max, ZoneBuilder, new_builder, recording, count_in, close_records}
use vortex_rdf.Zones.Described.{IsRecord, recorded-IsRecord}

unfoldable pub concat : List (List ℕ) → List ℕ
concat [] = []
concat (r ∷ rs) = r ++ concat rs

unfoldable pub AllFull : List (List ℕ) → Type 0
AllFull [] = Unit {0}
AllFull (r ∷ rs) = (length r ≡ zone_rows_max) × AllFull rs

-- The bounds and the records of zones, in order.
unfoldable pub AreBounds : List (List ℕ) → List ℕ → List ℕ → Type 0
AreBounds [] [] [] = Unit {0}
AreBounds (r ∷ rs) (lo ∷ los) (hi ∷ his) =
    (lo ≡ least u64_max r) × (hi ≡ greatest 0 r) × AreBounds rs los his
AreBounds [] [] (hi ∷ his) = ⊥
AreBounds [] (lo ∷ los) his = ⊥
AreBounds (r ∷ rs) [] his = ⊥
AreBounds (r ∷ rs) (lo ∷ los) [] = ⊥

unfoldable pub AreRecords : List (List ℕ) → RecordedZones → Type 0
AreRecords [] [] = Unit {0}
AreRecords (r ∷ rs) (ps ∷ kept) = IsRecord r ps × AreRecords rs kept
AreRecords [] (ps ∷ kept) = ⊥
AreRecords (r ∷ rs) [] = ⊥

unfoldable pub Keeps : List (List ℕ) → List ℕ → Option (RecordedZones × Counts) → Type 0
unfolding AreRecords
Keeps closed current none = Unit {0}
Keeps closed current (some r) =
    AreRecords closed r.0 × Represents max_values (count_words current) r.1

-- The codes are those of the closed zones and then those of the zone that is being filled.
pub record Gathered (codes : List ℕ) (b : ZoneBuilder) : Type 0 where
  pub closed : List (List ℕ)
  pub current : List ℕ
  pub joined : codes ≡ concat closed ++ current
  pub full : AllFull closed
  pub bounds : AreBounds closed b.mins b.maxes
  pub low : b.lo ≡ least u64_max current
  pub high : b.hi ≡ greatest 0 current
  pub filling : (b.filled ≡ length current) × (b.filled < zone_rows_max)
  pub seen : b.rows ≡ length codes
  pub kept : Keeps closed current b.records

new-Represents : Represents max_values (count_words []) new
unfolding Represents IsAscending AllCounted count_at count_words
new-Represents = (tt, tt, omega arith, λ x. refl)

pub new_builder-Gathered : Gathered [] new_builder
unfolding concat AllFull AreBounds Keeps least greatest
new_builder-Gathered = record {
  closed = [];
  current = [];
  joined = refl;
  full = tt;
  bounds = tt;
  low = refl;
  high = refl;
  filling = (refl, omega arith);
  seen = refl;
  kept = tt;
}

pub recording-Gathered : Gathered [] recording
unfolding concat AllFull AreBounds AreRecords Keeps least greatest
recording-Gathered = record {
  closed = [];
  current = [];
  joined = refl;
  full = tt;
  bounds = tt;
  low = refl;
  high = refl;
  filling = (refl, omega arith);
  seen = refl;
  kept = (tt, new-Represents);
}

pub concat-append : (rs : List (List ℕ)) (r : List ℕ) → concat (rs ++ r ∷ []) ≡ concat rs ++ r
unfolding concat
concat-append [] r = append-nil r
concat-append (q ∷ rs) r =
    ap (λ xs. q ++ xs) (concat-append rs r) ∙ sym (append_assoc q (concat rs) r)

pub AllFull-append :
    (rs : List (List ℕ)) (r : List ℕ)
    → AllFull rs
    → length r ≡ zone_rows_max
    → AllFull (rs ++ r ∷ [])
unfolding AllFull
AllFull-append [] r a e = (e, tt)
AllFull-append (q ∷ rs) r a e = (a.0, AllFull-append rs r a.1 e)

pub AreBounds-append :
    (rs : List (List ℕ)) (r los his : List ℕ) (lo hi : ℕ)
    → AreBounds rs los his
    → lo ≡ least u64_max r
    → hi ≡ greatest 0 r
    → AreBounds (rs ++ r ∷ []) (los ++ lo ∷ []) (his ++ hi ∷ [])
unfolding AreBounds
AreBounds-append [] r [] [] lo hi a e f = (e, f, tt)
AreBounds-append [] r [] (h ∷ his) lo hi a e f = absurd a
AreBounds-append [] r (l ∷ los) his lo hi a e f = absurd a
AreBounds-append (q ∷ rs) r [] his lo hi a e f = absurd a
AreBounds-append (q ∷ rs) r (l ∷ los) [] lo hi a e f = absurd a
AreBounds-append (q ∷ rs) r (l ∷ los) (h ∷ his) lo hi a e f =
    (a.0, a.1, AreBounds-append rs r los his lo hi a.2 e f)

pub AreRecords-append :
    (rs : List (List ℕ)) (r : List ℕ) (kept : RecordedZones) (ps : Option Pairs)
    → AreRecords rs kept
    → IsRecord r ps
    → AreRecords (rs ++ r ∷ []) (kept ++ ps ∷ [])
unfolding AreRecords
AreRecords-append [] r [] ps a e = (e, tt)
AreRecords-append [] r (k ∷ kept) ps a e = absurd a
AreRecords-append (q ∷ rs) r [] ps a e = absurd a
AreRecords-append (q ∷ rs) r (k ∷ kept) ps a e = (a.0, AreRecords-append rs r kept ps a.1 e)

-- Closing a zone keeps its record, and starts the next.
pub close_records-Keeps :
    (closed : List (List ℕ)) (current : List ℕ) (records : Option (RecordedZones × Counts))
    → Keeps closed current records
    → Keeps (closed ++ current ∷ []) [] (close_records records)
unfolding Keeps close_records
close_records-Keeps closed current none k = tt
close_records-Keeps closed current (some r) k = (
  AreRecords-append closed current r.0 (recorded r.1) k.0
      (recorded-IsRecord max_values current r.1 k.1),
  new-Represents,
)

pub count_words-le : (vs : List ℕ) (x : ℕ) → count_words vs x ≤ length vs
unfolding count_words
count_words-le [] x = omega arith
count_words-le (v ∷ vs) x = ground (arith, count_words-le vs x)

pub count_in-Keeps :
    (closed : List (List ℕ)) (current part : List ℕ) (records : Option (RecordedZones × Counts))
    → length current + length part ≤ zone_rows_max
    → Keeps closed current records
    → Keeps closed (current ++ part) (count_in records part)
unfolding Keeps count_in
count_in-Keeps closed current part none h k = tt
count_in-Keeps closed current part (some r) h k =
    let fits : (x : ℕ) → count_words current x + count_words part x < u64_mod =
      λ x. omega (arith, count_words-le current x, count_words-le part x) in
    (
      k.0,
      Represents-same max_values (λ x. count_words current x + count_words part x)
          (count_words (current ++ part)) (add_all r.1 part max_values)
          (λ x. sym (count_words-append current part x))
          (add_all-Represents max_values (count_words current) r.1 part fits k.1),
    )
