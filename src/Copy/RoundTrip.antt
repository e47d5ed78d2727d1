-- ===== src/Copy/RoundTrip.antt =====
-- What the kernel has copied out, it reads back.
use mips_os.Common.{
  ℕ, suc, ◌+◌, ◌≡◌, ◌<◌, refl, sym, ap, ◌∙◌, true, false, Bool-cases, none, some, Option-cases,
  List, [], ◌∷◌, length, ◌==◌, if◌then◌else◌, inl, inr, arith, efault,
}
use mathlib.Core.Path.{subst}
use mips_os.Copy.{
  UserMemory, Reply, fails, returns, copycheck, read_bytes, copyin, write_byte, write_bytes,
  copyout,
}

-- Bytes below the address stay.
write_bytes-below :
    (mem : UserMemory) (addr : ℕ) (src : List ℕ) (a : ℕ)
    → a < addr
    → (write_bytes mem addr src).1 a ≡ mem a
unfolding write_bytes
write_bytes-below mem addr [] a lt = refl
write_bytes-below mem addr (b ∷ bs) a lt = elim (Option-cases (mem addr)) [
  | inl out ↦ rw (out, write_bytes) refl
  | inr (old, mapped) ↦
      let other : (a == addr) ≡ false = ground (arith, lt) in
      let rest : (write_bytes (write_byte mem addr b) (addr + 1) bs).1 a ≡ write_byte mem addr b a =
        write_bytes-below (write_byte mem addr b) (addr + 1) bs a (omega (arith, lt)) in
      rw (mapped, write_bytes) (rest ∙ rw other refl)
]

write_bytes-none :
    (mem : UserMemory) (addr b : ℕ) (bs : List ℕ)
    → mem addr ≡ none
    → (write_bytes mem addr (b ∷ bs)).0 ≡ efault
unfolding write_bytes
write_bytes-none mem addr b bs out = rw (out, write_bytes) refl

write_bytes-some :
    (mem : UserMemory) (addr b old : ℕ) (bs : List ℕ)
    → mem addr ≡ some old
    → write_bytes mem addr (b ∷ bs) ≡ write_bytes (write_byte mem addr b) (addr + 1) bs
unfolding write_bytes
write_bytes-some mem addr b old bs mapped = rw (mapped, write_bytes) refl

read_bytes-some :
    (mem : UserMemory) (addr b len : ℕ) (bs : List ℕ)
    → mem addr ≡ some b
    → read_bytes mem (addr + 1) len ≡ returns bs
    → read_bytes mem addr (suc len) ≡ returns (b ∷ bs)
unfolding read_bytes
read_bytes-some mem addr b len bs here rest = rw (here, read_bytes) (rw rest refl)

read_bytes-write_bytes :
    (mem : UserMemory) (addr : ℕ) (src : List ℕ)
    → (write_bytes mem addr src).0 ≡ 0
    → read_bytes (write_bytes mem addr src).1 addr (length src) ≡ returns src
unfolding read_bytes
read_bytes-write_bytes mem addr [] e = refl
read_bytes-write_bytes mem addr (b ∷ bs) e = elim (Option-cases (mem addr)) [
  | inl out ↦ cc (e, write_bytes-none mem addr b bs out)
  | inr (old, mapped) ↦
      let same : write_bytes mem addr (b ∷ bs) ≡ write_bytes (write_byte mem addr b) (addr + 1) bs =
        write_bytes-some mem addr b old bs mapped in
      let self : (addr == addr) ≡ true = ground arith in
      let here : (write_bytes (write_byte mem addr b) (addr + 1) bs).1 addr ≡ some b =
        write_bytes-below (write_byte mem addr b) (addr + 1) bs addr (omega arith) ∙ rw self refl in
      subst (λ (w : ℕ × UserMemory). read_bytes w.1 addr (suc (length bs)) ≡ returns (b ∷ bs))
        (sym same)
        (read_bytes-some _ addr b (length bs) bs here (
          read_bytes-write_bytes (write_byte mem addr b) (addr + 1) bs
            (ap (λ (w : ℕ × UserMemory). w.0) (sym same) ∙ e)))
]

copied :
    (mem : UserMemory) (src : List ℕ) (dest : ℕ) (r : Reply ℕ)
    → copycheck dest (length src) ≡ r
    → (elim r as (λ _. ℕ × UserMemory) [
      | fails e ↦ (e, mem)
      | returns stoplen ↦ if stoplen == length src then write_bytes mem dest src else (efault, mem)
    ]).0
      ≡ 0
    → ¬ (r ≡ fails 0)
    → copyin
        (elim r as (λ _. ℕ × UserMemory) [
          | fails e ↦ (e, mem)
          | returns stoplen ↦
              if stoplen == length src then write_bytes mem dest src else (efault, mem)
        ]).1
        dest
        (length src)
      ≡ returns src
unfolding copyin
copied mem src dest (fails e) is z ne = absurd (ne (ap fails z))
copied mem src dest (returns stoplen) is z ne = elim (Bool-cases (stoplen == length src)) [
  | inl whole ↦ rw (whole, is) (rw whole (read_bytes-write_bytes mem dest src (rw whole at z)))
  | inr part ↦ absurd (omega (arith, (rw part at z)))
]

copycheck-ne : (bot len : ℕ) → ¬ (copycheck bot len ≡ fails 0)
unfolding copycheck
copycheck-ne bot len e = ground (arith, e)

-- Where copyout reports 0, copyin of as many bytes from the same address of the memory that it
-- leaves returns the bytes that were copied out.
pub copyin-copyout :
    (mem : UserMemory) (src : List ℕ) (dest : ℕ)
    → (copyout mem src dest).0 ≡ 0
    → copyin (copyout mem src dest).1 dest (length src) ≡ returns src
unfolding copyout
copyin-copyout mem src dest z =
    copied mem src dest (copycheck dest (length src)) refl z (copycheck-ne dest (length src))
