-- ===== src/Copy.antt =====
-- kern/lib/copyinout.c: copying between the kernel and user memory. `pcb_badfaultfunc` and `longjmp`
-- turn a fault of the copying loop into EFAULT; here the loop stops at a byte that is not mapped.
pub mod Bounds
pub mod RoundTrip
pub mod Mapped
use mips_os.Common.{
  ℕ, zero, suc, ◌+◌, ◌-◌, Bool, true, false, Option, none, some, List, [], ◌∷◌, ltb, leb, ◌==◌,
  if◌then◌else◌, length, efault, enametoolong,
}
use mips_os.Coremap.{word}

-- `USERTOP`
abbrev pub usertop : ℕ
usertop = 2147483648

-- the byte at an address; `none` where an access faults
abbrev pub UserMemory : Type 0
UserMemory = ℕ → Option ℕ

-- an error number, or a result beside 0
pub data Reply {ℓ} (A : Type ℓ) : Type ℓ where
  fails : ℕ → Reply A
  returns : A → Reply A

infixl 5 ◌>>=◌
abbrev pub ◌>>=◌ {ℓ κ} : {A : Type ℓ} {B : Type κ} → Reply A → (A → Reply B) → Reply B
fails e >>= f = fails e
returns a >>= f = f a

-- `copycheck`: the result is `*stoplen`.
unfoldable pub copycheck : (userptr len : ℕ) → Reply ℕ
copycheck bot len =
    let top = word (bot + len + 4294967295) in
    if ltb top bot
    then fails efault
    else if leb usertop bot
    then fails efault
    else if leb usertop top
    then returns (usertop - bot)
    else returns len

-- `memcpy` from user memory
unfoldable pub read_bytes : UserMemory → (addr len : ℕ) → Reply (List ℕ)
read_bytes mem addr zero = returns []
read_bytes mem addr (suc len) = elim (mem addr) [
  | none ↦ fails efault
  | some b ↦ read_bytes mem (addr + 1) len >>= λ bs. returns (b ∷ bs)
]

unfoldable pub copyin : UserMemory → (usersrc len : ℕ) → Reply (List ℕ)
copyin mem usersrc len = copycheck usersrc len >>= λ stoplen.
    if stoplen == len then read_bytes mem usersrc len else fails efault

-- `mem[addr] = b` at a mapped address
abbrev pub write_byte : UserMemory → (addr b : ℕ) → UserMemory
write_byte mem addr b a = if a == addr then some b else mem a

-- `memcpy` to user memory: the error number, and the memory, which keeps what came before a fault.
unfoldable pub write_bytes : UserMemory → (addr : ℕ) → List ℕ → ℕ × UserMemory
write_bytes mem addr [] = (0, mem)
write_bytes mem addr (b ∷ bs) = elim (mem addr) [
  | none ↦ (efault, mem)
  | some old ↦ write_bytes (write_byte mem addr b) (addr + 1) bs
]

-- `src` has the `len` bytes that are copied.
unfoldable pub copyout : UserMemory → (src : List ℕ) (userdest : ℕ) → ℕ × UserMemory
copyout mem src userdest = elim (copycheck userdest (length src)) [
  | fails e ↦ (e, mem)
  | returns stoplen ↦ if stoplen == length src then write_bytes mem userdest src else (efault, mem)
]

-- `copystr` from user memory, with `rounds` bytes to go before `maxlen` or `stoplen`: the string
-- with its terminator, whose length is `*gotlen`.
unfoldable pub read_string : UserMemory → (rounds addr : ℕ) (maxlen stoplen : ℕ) → Reply (List ℕ)
read_string mem zero addr maxlen stoplen =
    if ltb stoplen maxlen then fails efault else fails enametoolong
read_string mem (suc rounds) addr maxlen stoplen = elim (mem addr) [
  | none ↦ fails efault
  | some b ↦
      let rest = read_string mem rounds (addr + 1) maxlen stoplen in
      if b == 0 then returns (0 ∷ []) else (rest >>= λ bs. returns (b ∷ bs))
]

abbrev pub lesser : ℕ → ℕ → ℕ
lesser a b = if ltb a b then a else b

unfoldable pub copyinstr : UserMemory → (usersrc len : ℕ) → Reply (List ℕ)
copyinstr mem usersrc len =
    copycheck usersrc len >>= λ stoplen. read_string mem (lesser len stoplen) usersrc len stoplen

-- `copystr` to user memory: the error number, the memory, and `*gotlen` in the case of 0. The bytes
-- of `src` are the kernel's from its address on.
unfoldable pub write_string :
    UserMemory → (rounds addr i : ℕ) (src : List ℕ) (maxlen stoplen : ℕ) → Reply ℕ × UserMemory
write_string mem zero addr i src maxlen stoplen =
    ((if ltb stoplen maxlen then fails efault else fails enametoolong), mem)
write_string mem (suc rounds) addr i [] maxlen stoplen = (fails efault, mem)
write_string mem (suc rounds) addr i (b ∷ bs) maxlen stoplen = elim (mem addr) [
  | none ↦ (fails efault, mem)
  | some old ↦
      let mem' = write_byte mem addr b in
      let rest = write_string mem' rounds (addr + 1) (i + 1) bs maxlen stoplen in
      if b == 0 then (returns (i + 1), mem') else rest
]

unfoldable pub copyoutstr : UserMemory → (src : List ℕ) (userdest len : ℕ) → Reply ℕ × UserMemory
copyoutstr mem src userdest len = elim (copycheck userdest len) [
  | fails e ↦ (fails e, mem)
  | returns stoplen ↦ write_string mem (lesser len stoplen) userdest 0 src len stoplen
]
