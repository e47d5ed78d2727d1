-- ===== src/Common/Below.antt =====
-- Tables: a Boolean test of all numbers below a bound, checked by running it.
use Prim.Native.Nat.{ℕ, zero, suc, ◌<◌}
use mathlib.Core.Path.{◌≡◌}
use mathlib.Core.Bool.{Bool, true, ◌&&◌}
use native.Mathlib.Omega.{arith}

unfoldable pub all_below : ℕ → (ℕ → Bool) → Bool
all_below zero p = true
all_below (suc k) p = p k && all_below k p

pub all_below_sound : (k : ℕ) (p : ℕ → Bool) (x : ℕ) → all_below k p ≡ true → x < k → p x ≡ true
unfolding all_below
all_below_sound zero p x h lt = absurd (omega arith)
all_below_sound (suc k) p x h lt = ground (arith, all_below_sound k p x)
