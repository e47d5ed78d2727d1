-- ===== src/Copy/Mapped.antt =====
-- Copying to and from memory that is mapped.
use mips_os.Common.{
  ℕ, zero, suc, ◌+◌, ◌≡◌, ◌<◌, ◌≤◌, refl, true, Bool-cases, some, List, [], ◌∷◌, length, ◌==◌,
  arith, inl, inr,
}
use mips_os.Copy.{
  UserMemory, returns, copycheck, read_bytes, copyin, write_byte, write_bytes, copyout, usertop,
}

-- `len` bytes from `addr` on
abbrev pub Mapped : UserMemory → (addr len : ℕ) → Type 0
Mapped mem addr zero = Unit {0}
Mapped mem addr (suc len) = ((b : ℕ) × (mem addr ≡ some b)) × Mapped mem (addr + 1) len

byte-Mapped :
    (mem : UserMemory) (addr len a b : ℕ)
    → Mapped mem addr len
    → Mapped (write_byte mem a b) addr len
byte-Mapped mem addr zero a b h = tt
byte-Mapped mem addr (suc len) a b ((old, is), h) = (
  elim (Bool-cases (addr == a)) [ inl here ↦ (b, rw here refl) | inr there ↦ (old, rw there is) ],
  byte-Mapped mem (addr + 1) len a b h,
)

pub write_bytes-Mapped :
    (mem : UserMemory) (addr : ℕ) (src : List ℕ)
    → Mapped mem addr (length src)
    → (write_bytes mem addr src).0 ≡ 0
unfolding write_bytes
write_bytes-Mapped mem addr [] h = refl
write_bytes-Mapped mem addr (b ∷ bs) ((old, is), h) =
    rw (is, write_bytes)
      (write_bytes-Mapped (write_byte mem addr b) (addr + 1) bs
        (byte-Mapped mem (addr + 1) (length bs) addr b h))

pub read_bytes-Mapped :
    (mem : UserMemory) (addr len : ℕ)
    → Mapped mem addr len
    → (bs : List ℕ) × (read_bytes mem addr len ≡ returns bs)
unfolding read_bytes
read_bytes-Mapped mem addr zero h = ([], refl)
read_bytes-Mapped mem addr (suc len) ((b, is), h) =
    let (bs, reads) = read_bytes-Mapped mem (addr + 1) len h in
    (b ∷ bs, rw (is, read_bytes) (rw reads refl))

pub copycheck-inside :
    (addr len : ℕ) → 0 < len → addr + len ≤ usertop → copycheck addr len ≡ returns len
unfolding copycheck
copycheck-inside addr len pos low = ground arith

pub copyin-Mapped :
    (mem : UserMemory) (addr len : ℕ)
    → 0 < len
    → addr + len ≤ usertop
    → Mapped mem addr len
    → (bs : List ℕ) × (copyin mem addr len ≡ returns bs)
unfolding copyin
copyin-Mapped mem addr len pos low h =
    let (bs, reads) = read_bytes-Mapped mem addr len h in
    let whole : (len == len) ≡ true = ground arith in
    (bs, rw (copycheck-inside addr len pos low, whole, reads) refl)

pub copyout-write_bytes :
    (mem : UserMemory) (addr : ℕ) (src : List ℕ)
    → 0 < length src
    → addr + length src ≤ usertop
    → copyout mem src addr ≡ write_bytes mem addr src
unfolding copyout
copyout-write_bytes mem addr src pos low =
    let whole : (length src == length src) ≡ true = ground arith in
    rw (copyout, copycheck-inside addr (length src) pos low, whole) refl
