-- ===== src/Syscall/Reads.antt =====
-- What a program gets from a read system call.
use mips_os.Common.{
  ℕ, ◌+◌, ◌≡◌, ◌≤◌, refl, sym, ap, ◌∙◌, false, some, Option-cases, List, [], ◌∷◌, ◌++◌, take,
  length, ◌==◌, ok, arith, inl, inr,
}
use mathlib.Core.Path.{subst}
use mips_os.Copy.{UserMemory, returns, copyin, copyout, usertop, write_byte, write_bytes}
use mips_os.Copy.Mapped.{Mapped, write_bytes-Mapped, copyout-write_bytes}
use mips_os.Copy.RoundTrip.{copyin-copyout}
use mips_os.Coremap.{word}
use mips_os.Syscall.{answers, Trapframe, dispatch, mips_syscall, set_result}
use mips_os.Syscall.Handlers.{Machine, kernel_calls}
use mips_os.Syscall.Io.{get_chars, sys_read}
use mips_os.Syscall.State.{Kernel}

-- Bytes behind the last one written stay.
write_bytes-above :
    (mem : UserMemory) (addr : ℕ) (src : List ℕ) (a : ℕ)
    → addr + length src ≤ a
    → (write_bytes mem addr src).1 a ≡ mem a
unfolding write_bytes
write_bytes-above mem addr [] a le = refl
write_bytes-above mem addr (b ∷ bs) a le = elim (Option-cases (mem addr)) [
  | inl out ↦ rw (out, write_bytes) refl
  | inr (old, mapped) ↦
      let other : (a == addr) ≡ false = ground (arith, le) in
      let rest : (write_bytes (write_byte mem addr b) (addr + 1) bs).1 a ≡ write_byte mem addr b a =
        write_bytes-above (write_byte mem addr b) (addr + 1) bs a (omega (arith, le)) in
      rw (mapped, write_bytes) (rest ∙ rw other refl)
]

-- With enough typed, the characters are the first ones.
get_chars_lem : (cs rest : List ℕ) → get_chars (length cs) (cs ++ rest) ≡ some (cs, rest)
unfolding get_chars
get_chars_lem [] rest = refl
get_chars_lem (c ∷ cs) rest = rw (get_chars, get_chars_lem cs rest) refl

-- The first four of the characters arrive, and nothing else.
pub record FourArrive (cs rest : List ℕ) (buf : ℕ) (k k' : Kernel) : Type 0 where
  pub left : k'.typed ≡ rest
  pub arrived : copyin k'.user buf 4 ≡ returns (take 4 cs)
  pub behind : (a : ℕ) → buf + 4 ≤ a → k'.user a ≡ k.user a

first_four :
    (cs stale : List ℕ)
    → 4 ≤ length cs
    → (take 4 (cs ++ stale) ≡ take 4 cs) × (length (take 4 cs) ≡ 4)
first_four (a ∷ b ∷ c ∷ d ∷ cs) stale le = (refl, refl)
first_four [] stale le = absurd (omega arith)
first_four (a ∷ []) stale le = absurd (omega arith)
first_four (a ∷ b ∷ []) stale le = absurd (omega arith)
first_four (a ∷ b ∷ c ∷ []) stale le = absurd (omega arith)

sys_read_lem :
    (stale cs rest : List ℕ) (buf : ℕ) (k : Kernel)
    → k.typed ≡ cs ++ rest
    → 4 ≤ length cs
    → buf + 4 ≤ usertop
    → Mapped k.user buf 4
    → (k' : Kernel) × (sys_read stale 0 buf (length cs) k ≡ ok (answers 0 0 k'))
      × FourArrive cs rest buf k k'
unfolding sys_read
sys_read_lem stale cs rest buf k typed more low mapped =
    let (same, four) = first_four cs stale more in
    let src : List ℕ = take 4 cs in
    let out : copyout k.user src buf ≡ write_bytes k.user buf src =
      copyout-write_bytes k.user buf src (omega (arith, four)) (omega (arith, four, low)) in
    let fits : (write_bytes k.user buf src).0 ≡ 0 =
      write_bytes-Mapped k.user buf src (subst (Mapped k.user buf) (sym four) mapped) in
    let done : (copyout k.user src buf).0 ≡ 0 = ap (λ (r : ℕ × UserMemory). r.0) out ∙ fits in
    let k' : Kernel = record k { typed = rest; user = (copyout k.user src buf).1 } in
    (
      k',
      simp typed (simp (get_chars_lem cs rest, same, done) refl),
      record {
        left = refl;
        arrived =
            subst (λ n. copyin (copyout k.user src buf).1 buf n ≡ returns src) four
              (copyin-copyout k.user src buf done);
        behind = λ a le.
            ap (λ (r : ℕ × UserMemory). r.1 a) out
            ∙ write_bytes-above k.user buf src a (omega (arith, four, le));
      },
    )

-- For a read system call from standard input of at least four characters, which have been typed,
-- to four mapped bytes below USERTOP, mips_syscall reports to the program that all the characters
-- were read, but only the first four stand in its buffer: the memory behind these is as before,
-- and the typed characters are gone.
pub mips_syscall-read :
    (mc : Machine) (tf : Trapframe) (cs rest : List ℕ) (k : Kernel)
    → tf.v0 ≡ 5
    → tf.a0 ≡ 0
    → tf.a2 ≡ length cs
    → k.typed ≡ cs ++ rest
    → 4 ≤ length cs
    → tf.a1 + 4 ≤ usertop
    → Mapped k.user tf.a1 4
    → (k' : Kernel) × (mips_syscall (kernel_calls mc) 0 tf k
        ≡ ok (
            answers 0
              (length cs)
              (record tf { v0 = length cs; a3 = 0; epc = word (tf.epc + 4) }, k')))
      × FourArrive cs rest tf.a1 k k'
unfolding mips_syscall dispatch set_result
mips_syscall-read mc tf cs rest k number fd size typed more low mapped =
    let (k', reads, four) = sys_read_lem mc.stale cs rest tf.a1 k typed more low mapped in
    (k', simp (number, fd, size, reads) refl, four)
