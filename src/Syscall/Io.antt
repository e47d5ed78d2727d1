-- ===== src/Syscall/Io.antt =====
-- kern/arch/mips/mips/syscall.c: `sys_write`, `sys_read`, `sys__time` and `sys_getpid`. Their calls of
-- `kmalloc` are taken to return memory, which the code does not test.
use mips_os.Common.{
  ℕ, zero, suc, not, ◌&&◌, Option, none, some, List, [], ◌∷◌, ◌++◌, take, ◌==◌, if◌then◌else◌,
  Outcome, ok, ebadf, efault,
}
use mips_os.Copy.{fails, returns, copyin, copyout}
use mips_os.Syscall.{Reached, answers, waits}
use mips_os.Syscall.State.{Kernel, bytes_of}
use mips_os.Thread.{deref}

-- `copyin` fails with no other error than EFAULT.
unfoldable pub sys_write : (fd buf nbytes : ℕ) → Kernel → Outcome (Reached Kernel)
sys_write fd buf nbytes k =
    if not (fd == 1) && not (fd == 2)
    then ok (answers ebadf 0 k)
    else elim (copyin k.user buf nbytes) [
      | fails e ↦ ok (answers efault 0 k)
      | returns array ↦ ok (answers 0 0 (record k { shown = k.shown ++ array }))
    ]

-- `getch` for each of `n` characters: what was typed and what is left, or `none` where it waits
unfoldable pub get_chars : (n : ℕ) → List ℕ → Option (List ℕ × List ℕ)
get_chars zero typed = some ([], typed)
get_chars (suc n) [] = none
get_chars (suc n) (c ∷ typed) = elim (get_chars n typed) [
  | none ↦ none
  | some r ↦ some (c ∷ r.0, r.1)
]

-- The call `copyout(array, buf, sizeof (buf))` copies as many bytes as a pointer has. `stale` is what
-- stands in memory behind the `buflen` bytes of the array.
unfoldable pub sys_read : (stale : List ℕ) (fd buf buflen : ℕ) → Kernel → Outcome (Reached Kernel)
sys_read stale fd buf buflen k =
    if not (fd == 0) then ok (answers ebadf 0 k) else elim (get_chars buflen k.typed) [
      | none ↦ ok (waits k)
      | some r ↦
          let out = copyout k.user (take 4 (r.0 ++ stale)) buf in
          let k' : Kernel = record k { typed = r.1; user = out.1 } in
          if out.0 == 2 then ok (answers efault 0 k') else ok (answers 0 0 k')
    ]

-- `if (p != NULL) { err = copyout(...); if (err) return EFAULT; }`
abbrev pub put_word :
    (addr w : ℕ) → Kernel → (Kernel → Outcome (Reached Kernel)) → Outcome (Reached Kernel)
put_word addr w k next =
    let out = copyout k.user (bytes_of w) addr in
    let k' : Kernel = record k { user = out.1 } in
    if addr == 0 then next k else if out.0 == 0 then next k' else ok (answers efault 0 k')

-- `sec` and `nsec` are what `gettime` returns.
unfoldable pub sys_time :
    (sec nsec : ℕ) (seconds nanoseconds : ℕ) → Kernel → Outcome (Reached Kernel)
sys_time sec nsec seconds nanoseconds k =
    put_word seconds sec k (λ k'. put_word nanoseconds nsec k' (λ k''. ok (answers 0 sec k'')))

unfoldable pub sys_getpid : Kernel → Outcome (Reached Kernel)
sys_getpid k = deref k.system.curthread (λ cur. ok (answers 0 cur k))
