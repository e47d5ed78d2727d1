-- ===== src/Copy/Bounds.antt =====
-- What `copycheck` lets through.
use mips_os.Common.{ℕ, ◌+◌, ◌≡◌, ◌<◌, ◌≤◌, ◌⊎◌, ◌^◌, arith, efault}
use mips_os.Copy.{Reply, fails, returns, copycheck, usertop}

-- `stoplen` bytes from `bot` on are user memory, as many of the `len` as there are; or the range
-- wraps or starts in the kernel.
abbrev pub Checked : (bot len : ℕ) → Reply ℕ → Type 0
Checked bot len (fails e) = (e ≡ efault) × ((2 ^ 32 < bot + len) ⊎ (usertop ≤ bot))
Checked bot len (returns stoplen) =
    (bot + stoplen ≤ usertop)
    × ((stoplen ≡ len) ⊎ ((bot + stoplen ≡ usertop) × (stoplen < len)))
    × (0 < stoplen)

-- For a positive length, with address and length below 2 ^ 32, copycheck succeeds with a positive
-- stoplen such that the bytes before it lie below USERTOP, and stoplen is the length or is shorter
-- and reaches USERTOP; or it reports EFAULT, only where the range wraps around or starts at
-- USERTOP or above.
pub copycheck_lem :
    (bot len : ℕ) → 0 < len → bot < 2 ^ 32 → len < 2 ^ 32 → Checked bot len (copycheck bot len)
unfolding copycheck
copycheck_lem bot len pos b l = ground arith
