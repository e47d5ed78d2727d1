-- ===== src/Syscall/State.antt =====
-- What the system calls read and change, and the words that they store for the program.
use mips_os.Common.{ℕ, ◌+◌, ◌*◌, ◌/◌, ◌%◌, List, [], ◌∷◌, ◌==◌, Outcome, ok, ◌>>◌, assert}
use mips_os.AddrSpace.{AddrSpace}
use mips_os.Coremap.{Memory}
use mips_os.Copy.{UserMemory, write_bytes}
use mips_os.Process.{Processes}
use mips_os.Syscall.{Trapframe}
use mips_os.Thread.Switch.{System}

-- `space` is the address space of the running thread and `user` the memory that it shows. `typed` has
-- the characters that `getch` returns next, `shown` those of `putch`, the first of them first. `born` are the
-- threads that `sys_fork` has made, with what it hands to `md_forkentry`.
pub record Kernel : Type 0 where
  pub system : System
  pub processes : Processes
  pub space : AddrSpace
  pub memory : Memory
  pub user : UserMemory
  pub typed : List ℕ
  pub shown : List ℕ
  pub born : List (ℕ × Trapframe × AddrSpace)

-- the bytes of a word, in the order of the machine
abbrev pub bytes_of : ℕ → List ℕ
bytes_of w = w / 16777216 % 256 ∷ w / 65536 % 256 ∷ w / 256 % 256 ∷ w % 256 ∷ []

abbrev pub word_of : List ℕ → ℕ
word_of (a ∷ b ∷ c ∷ d ∷ []) = ((a * 256 + b) * 256 + c) * 256 + d
word_of l = 0

abbrev pub or_panic : ℕ × UserMemory → Outcome UserMemory
or_panic (e, mem) = assert (e == 0) >> ok mem

-- `*status = w` by the kernel: a fault here is not caught, so that the kernel panics.
unfoldable pub store_word : UserMemory → (addr w : ℕ) → Outcome UserMemory
store_word mem addr w = assert (addr % 4 == 0) >> or_panic (write_bytes mem addr (bytes_of w))

-- `return -1;`, `*retval = -1;`
abbrev pub minus_one : ℕ
minus_one = 4294967295
