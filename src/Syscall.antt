-- ===== src/Syscall.antt =====
-- kern/arch/mips/mips/syscall.c: how a system call reaches its handler and how its result reaches the
-- program. The children have the handlers.
pub mod State
pub mod Io
pub mod Wait
pub mod Break
pub mod Fork
pub mod Bounds
pub mod Exits
pub mod Waits
pub mod Handlers
pub mod Reads
use mips_os.Common.{
  ℕ, zero, suc, ◌+◌, ◌==◌, if◌then◌else◌, Outcome, ok, ◌>>=◌, ◌>>◌, assert, enosys,
}
use mips_os.Coremap.{word}

-- `struct trapframe`, as far as the code of system calls reads or writes it
pub record Trapframe : Type 0 where
  pub v0 : ℕ
  pub a0 : ℕ
  pub a1 : ℕ
  pub a2 : ℕ
  pub a3 : ℕ
  pub epc : ℕ

-- Where a handler ends: it returns an error number and `retval`, or the thread sleeps inside the call,
-- or the thread has exited.
pub data Reached {ℓ} (K : Type ℓ) : Type ℓ where
  answers : (err retval : ℕ) → K → Reached K
  waits : K → Reached K
  gone : K → Reached K

abbrev pub Handler {ℓ} : Type ℓ → Type ℓ
Handler K = K → Outcome (Reached K)

-- the handlers over a kernel state `K`, with the arguments that the registers carry
pub record Calls (K : Type 0) : Type 0 where
  pub reboot : ℕ → Handler K
  pub write : (fd buf nbytes : ℕ) → Handler K
  pub read : (fd buf buflen : ℕ) → Handler K
  pub fork : Trapframe → Handler K
  pub getpid : Handler K
  pub exit : ℕ → Handler K
  pub waitpid : (pid status options : ℕ) → Handler K
  pub time : (seconds nanoseconds : ℕ) → Handler K
  pub execv : (program args : ℕ) → Handler K
  pub sbrk : ℕ → Handler K

-- `if (err != 0) retval = err; else retval = tf->tf_a2;`
abbrev pub count_bytes {ℓ} : {K : Type ℓ} → ℕ → Reached K → Reached K
count_bytes n (answers zero retval k) = answers zero n k
count_bytes n (answers (suc e) retval k) = answers (suc e) (suc e) k
count_bytes n (waits k) = waits k
count_bytes n (gone k) = gone k

-- the `switch` of `mips_syscall`, by the numbers of kern/include/kern/callno.h
unfoldable pub dispatch : {K : Type 0} → Calls K → Trapframe → Handler K
dispatch calls tf k =
    if tf.v0 == 8
    then calls.reboot tf.a0 k
    else if tf.v0 == 6
    then (calls.write tf.a0 tf.a1 tf.a2 k >>= λ r. ok (count_bytes tf.a2 r))
    else if tf.v0 == 5
    then (calls.read tf.a0 tf.a1 tf.a2 k >>= λ r. ok (count_bytes tf.a2 r))
    else if tf.v0 == 2
    then calls.fork tf k
    else if tf.v0 == 11
    then calls.getpid k
    else if tf.v0 == 0
    then calls.exit tf.a0 k
    else if tf.v0 == 3
    then calls.waitpid tf.a0 tf.a1 tf.a2 k
    else if tf.v0 == 28
    then calls.time tf.a0 tf.a1 k
    else if tf.v0 == 1
    then calls.execv tf.a0 tf.a1 k
    else if tf.v0 == 10
    then calls.sbrk tf.a0 k
    else ok (answers enosys 0 k)

-- the end of `mips_syscall`
unfoldable pub set_result : (err retval : ℕ) → Trapframe → Trapframe
set_result zero retval tf = record tf { v0 = retval; a3 = 0; epc = word (tf.epc + 4) }
set_result (suc e) retval tf = record tf { v0 = suc e; a3 = 1; epc = word (tf.epc + 4) }

-- The trapframe with which the program goes on, unless the thread sleeps or has exited.
abbrev pub resume : {K : Type 0} → Trapframe → Reached K → Reached (Trapframe × K)
resume tf (answers err retval k) = answers err retval (set_result err retval tf, k)
resume tf (waits k) = waits (tf, k)
resume tf (gone k) = gone (tf, k)

unfoldable pub mips_syscall :
    {K : Type 0} → Calls K → (curspl : ℕ) → Trapframe → K → Outcome (Reached (Trapframe × K))
mips_syscall calls curspl tf k =
    assert (curspl == 0) >> (dispatch calls tf k >>= λ r. ok (resume tf r))
