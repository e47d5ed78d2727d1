-- ===== src/Array/Bounds.antt =====
-- How far `array_preallocate` grows the array: as much as asked, and no further than an `int` holds.
use mips_os.Common.{ℕ, zero, suc, ◌+◌, ◌*◌, ◌≤◌, ◌⊎◌, arith}
use mips_os.Array.{grow_max}

-- The loop ends with room for `nguys`, unless its fuel runs out.
pub grow_max-enough :
    (fuel nguys newmax : ℕ) → nguys ≤ newmax + fuel → nguys ≤ grow_max fuel nguys newmax
unfolding grow_max
grow_max-enough zero nguys newmax h = omega arith
grow_max-enough (suc fuel) nguys newmax h =
    ground (arith, grow_max-enough fuel nguys ((newmax + 1) * 2))

pub grow_max-le :
    (fuel nguys newmax : ℕ)
    → (grow_max fuel nguys newmax ≤ newmax) ⊎ (grow_max fuel nguys newmax ≤ 2 * nguys)
unfolding grow_max
grow_max-le zero nguys newmax = omega arith
grow_max-le (suc fuel) nguys newmax = ground (arith, grow_max-le fuel nguys ((newmax + 1) * 2))

pub grow_max-ge : (fuel nguys newmax : ℕ) → newmax ≤ grow_max fuel nguys newmax
unfolding grow_max
grow_max-ge zero nguys newmax = omega arith
grow_max-ge (suc fuel) nguys newmax = ground (arith, grow_max-ge fuel nguys ((newmax + 1) * 2))
