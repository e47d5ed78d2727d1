-- ===== src/Tests/Copies.antt =====
-- Copying at concrete addresses.
use mips_os.Common.{◌≡◌, refl, [], ◌∷◌, none, some, ltb, if◌then◌else◌, arith}
use mips_os.Copy.{UserMemory, returns, copycheck, copyin, write_bytes, copyout}
use mips_os.Copy.Bounds.{Checked, copycheck_lem}
use mips_os.Copy.RoundTrip.{copyin-copyout}

-- The last two bytes below the kernel.
near_the_top : copycheck 2147483646 10 ≡ returns 2
unfolding copycheck
near_the_top = refl

copycheck_lem_example : Checked 2147483646 10 (copycheck 2147483646 10)
copycheck_lem_example = copycheck_lem 2147483646 10 (omega arith) (omega arith) (omega arith)

abbrev memory : UserMemory
memory a = if ltb a 4096 then some 0 else none

copied_out : (copyout memory (104 ∷ 105 ∷ []) 100).0 ≡ 0
unfolding copyout copycheck write_bytes
copied_out = refl

copyin-copyout_example :
    copyin (copyout memory (104 ∷ 105 ∷ []) 100).1 100 2 ≡ returns (104 ∷ 105 ∷ [])
copyin-copyout_example = copyin-copyout memory (104 ∷ 105 ∷ []) 100 copied_out
