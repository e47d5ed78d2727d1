-- ===== src/Syscall/Fork.antt =====
-- kern/arch/mips/mips/syscall.c: `sys_fork` and the child's first step, `md_forkentry`.
use mips_os.Common.{
  ℕ, zero, suc, ◌+◌, Bool, true, false, Option, none, some, [], ◌∷◌, ◌++◌, Outcome, ok, panic,
  ◌>>=◌, enomem,
}
use mips_os.AddrSpace
use mips_os.AddrSpace.{AddrSpace, PageTable, Tlb}
use mips_os.AddrSpace.Load.{as_copy}
use mips_os.Coremap.{Memory, word}
use mips_os.Kheap.{update}
use mips_os.Process.{ForkMemory, Forked, thread_fork}
use mips_os.Syscall.{Reached, answers, Trapframe}
use mips_os.Syscall.State.{Kernel, minus_one}
use mips_os.Thread.{deref}

-- the end of `sys_fork`: the child knows its parent
unfoldable pub adopt : (parent : ℕ) → Trapframe → AddrSpace → Kernel → Forked → Reached Kernel
adopt parent tf space k (suc e, child, s, ps) =
    answers minus_one (suc e) (record k { system = s; processes = ps })
adopt parent tf space k (zero, child, s, ps) = answers 0 child (record k {
  system = s;
  processes = record ps {
    table = update ps.table child (record (ps.table child) { parent_pid = parent });
  };
  born = k.born ++ ((child, tf, space) ∷ []);
})

-- `sys_fork` after `as_copy`
unfoldable pub fork_thread :
    ForkMemory
    → (parent : ℕ) → Trapframe
    → Kernel
    → ℕ × Option AddrSpace × Memory
    → Outcome (Reached Kernel)
fork_thread mem parent tf k (suc e, copy, m) =
    ok (answers minus_one (suc e) (record k { memory = m }))
fork_thread mem parent tf k (zero, none, m) = panic
fork_thread mem parent tf k (zero, some space, m) =
    let k' : Kernel = record k { memory = m } in
    thread_fork mem k.system k.processes >>= λ r. ok (adopt parent tf space k' r)

-- `tf_mem` and `as_mem` say whether the child's trapframe and address space get memory; `stale_table`
-- is for `as_copy`.
unfoldable pub sys_fork :
    (tf_mem as_mem : Bool) (stale_table : Option PageTable)
    → ForkMemory
    → Trapframe
    → Kernel
    → Outcome (Reached Kernel)
sys_fork false as_mem stale_table mem tf k =
    deref k.system.curthread (λ parent. ok (answers minus_one enomem k))
sys_fork true as_mem stale_table mem tf k = deref k.system.curthread (λ parent.
    as_copy as_mem stale_table k.space k.memory >>= λ copied. fork_thread mem parent tf k copied)

-- The trapframe with which the child goes to user mode, and the TLB as it finds it.
unfoldable pub md_forkentry : Trapframe → Tlb → Trapframe × Tlb
md_forkentry tf tlb =
    (record tf { v0 = 0; a3 = 0; epc = word (tf.epc + 4) }, AddrSpace.as_activate tlb)
