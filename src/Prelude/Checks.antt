-- ===== src/Prelude/Checks.antt =====
-- Facts about every number below a bound, by running a test.
use Prim.Native.Nat.{ℕ, zero, suc, ◌≤◌, ◌<◌}
use mathlib.Core.Path.{◌≡◌}
use mathlib.Core.Bool.{Bool, true, ◌&&◌}
use native.Mathlib.Omega.{arith}
use vortex_rdf.Prelude.Tests.{leb}

unfoldable pub each_below : (ℕ → Bool) → ℕ → Bool
each_below test zero = true
each_below test (suc bound) = each_below test bound && test bound

pub each_below_at :
    (test : ℕ → Bool) (bound i : ℕ) → i < bound → each_below test bound ≡ true → test i ≡ true
unfolding each_below
each_below_at test (suc bound) i p h = ground (arith, each_below_at test bound i)
each_below_at test zero i p h = absurd (omega arith)

unfoldable pub steps_ascend : ℕ → (ℕ → ℕ) → Bool
steps_ascend zero v = true
steps_ascend (suc zero) v = true
steps_ascend (suc (suc n)) v = leb (v n) (v (suc n)) && steps_ascend (suc n) v

-- A sequence whose every step ascends does so over any distance.
pub steps_ascend_sound :
    (n : ℕ) (v : ℕ → ℕ) (i j : ℕ) → steps_ascend n v ≡ true → i ≤ j → j < n → v i ≤ v j
unfolding steps_ascend
steps_ascend_sound zero v i j h p q = absurd (omega arith)
steps_ascend_sound (suc zero) v i j h p q = ground arith
steps_ascend_sound (suc (suc n)) v i j h p q =
    ground (arith, steps_ascend_sound (suc n) v i j, steps_ascend_sound (suc n) v i n)
