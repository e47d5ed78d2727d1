-- ===== src/Common/Results.antt =====
-- What a kernel function does: it returns, or an assertion of it fails and the kernel panics.
use Prim.Native.Nat.{ℕ}
use mathlib.Core.Bool.{Bool, true, false}

pub data Outcome {ℓ} (A : Type ℓ) : Type ℓ where
  ok : A → Outcome A
  panic : Outcome A

infixl 5 ◌>>=◌ ◌>>◌
abbrev pub ◌>>=◌ {ℓ κ} : {A : Type ℓ} {B : Type κ} → Outcome A → (A → Outcome B) → Outcome B
ok a >>= f = f a
panic >>= f = panic

abbrev pub ◌>>◌ {ℓ} : {B : Type ℓ} → Outcome (Unit {0}) → Outcome B → Outcome B
m >> k = m >>= λ _. k

-- `assert(b)`
abbrev pub assert : Bool → Outcome (Unit {0})
assert true = ok tt
assert false = panic

-- The error numbers of kern/include/kern/errno.h that the modelled code returns; 0 is success.
abbrev pub einval : ℕ
einval = 1

abbrev pub efault : ℕ
efault = 2

abbrev pub enomem : ℕ
enomem = 4

abbrev pub eunimp : ℕ
eunimp = 13

abbrev pub enospc : ℕ
enospc = 20

abbrev pub enosys : ℕ
enosys = 23

abbrev pub enametoolong : ℕ
enametoolong = 3

abbrev pub enoent : ℕ
enoent = 6

abbrev pub enotdir : ℕ
enotdir = 7

abbrev pub eisdir : ℕ
eisdir = 8

abbrev pub eexist : ℕ
eexist = 9

abbrev pub enotempty : ℕ
enotempty = 17

abbrev pub ebadf : ℕ
ebadf = 26

abbrev pub enxio : ℕ
enxio = 14

abbrev pub enodev : ℕ
enodev = 15

abbrev pub ebusy : ℕ
ebusy = 16

abbrev pub exdev : ℕ
exdev = 10

abbrev pub eio : ℕ
eio = 5
