-- ===== src/Zones/Bits.antt =====
-- core/src/zone_stats/zone_set.rs: the bits of a class, as `1 << bit` sets them.
use vortex_rdf.Prelude.{
  ℕ, zero, suc, ◌+◌, ◌*◌, ◌/◌, ◌%◌, ◌<◌, ◌≡◌, refl, sym, ap, ◌∙◌, Bool, true, false, ◌||◌, arith,
  if◌then◌else◌, ◌==◌,
}
use vortex_rdf.Zones.Checks.{or_bit}

-- `bits & 1 << j != 0`.
unfoldable pub has_bit : ℕ → ℕ → Bool
has_bit bits zero = bits % 2 == 1
has_bit bits (suc j) = has_bit (bits / 2) j

pub has_bit-zero : (j : ℕ) → has_bit 0 j ≡ false
unfolding has_bit
has_bit-zero zero = refl
has_bit-zero (suc j) = has_bit-zero j

pub has_bit-pos : (bits j : ℕ) → has_bit bits j ≡ true → 0 < bits
has_bit-pos zero j h = absurd (ground (arith, has_bit-zero j))
has_bit-pos (suc n) j h = omega arith

pub has_bit-or_bit : (bits b j : ℕ) → has_bit (or_bit bits b) j ≡ (b == j) || has_bit bits j
unfolding has_bit or_bit
has_bit-or_bit bits zero zero = ground arith
has_bit-or_bit bits zero (suc j) =
    let same : (if bits % 2 == 1 then bits else bits + 1) / 2 ≡ bits / 2 = ground arith in
    let other : (0 == suc j) ≡ false = ground arith in rw other (ap (λ n. has_bit n j) same)
has_bit-or_bit bits (suc b) zero = ground arith
has_bit-or_bit bits (suc b) (suc j) =
    let half : (or_bit (bits / 2) b * 2 + bits % 2) / 2 ≡ or_bit (bits / 2) b = omega arith in
    let same : (suc b == suc j) ≡ (b == j) = ground arith in
    ap (λ n. has_bit n j) half
    ∙ has_bit-or_bit (bits / 2) b j
    ∙ ap (λ t. t || has_bit (bits / 2) j) (sym same)

pub or_bit-pos : (bits b : ℕ) → 0 < or_bit bits b
or_bit-pos bits b =
    let here : (b == b) ≡ true = ground arith in
    has_bit-pos (or_bit bits b) b (has_bit-or_bit bits b b ∙ ap (λ t. t || has_bit bits b) here)
