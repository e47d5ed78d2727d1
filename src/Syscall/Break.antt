-- ===== src/Syscall/Break.antt =====
-- kern/arch/mips/mips/syscall.c: `sys_sbrk`, over words of 32 bits.
use mips_os.Common.{
  ℕ, ◌+◌, ◌-◌, ◌*◌, ◌^◌, Bool, some, ltb, if◌then◌else◌, Outcome, ok, einval, enomem,
}
use mips_os.AddrSpace.{AddrSpace, Region, deref, stack_od_vstart}
use mips_os.Coremap.{page_size, word, num_empty_cm}
use mips_os.Syscall.{Reached, answers}
use mips_os.Syscall.State.{Kernel}

-- `x > y` of the signed numbers that two words stand for
abbrev pub gt_signed : (x y : ℕ) → Bool
gt_signed x y = ltb (word (y + 2 ^ 31)) (word (x + 2 ^ 31))

-- the address space's break, with `free` for `num_empty_cm()`
unfoldable pub move_break : (amount free : ℕ) → Region → AddrSpace → ℕ × ℕ × AddrSpace
move_break amount free heap space =
    let end = word (heap.vend_actual + amount) in
    if ltb end heap.vstart
    then (einval, 0, space)
    else if ltb stack_od_vstart end
    then (enomem, word (2 ^ 32 - 1), space)
    else if gt_signed amount (word (free * page_size))
    then (enomem, word (2 ^ 32 - 1), space)
    else (0, heap.vend_actual, record space { heap = some (record heap { vend_actual = end }) })

-- `uninit` is what stands in the counter of `num_empty_cm` before it counts.
unfoldable pub sys_sbrk : (uninit amount : ℕ) → Kernel → Outcome (Reached Kernel)
sys_sbrk uninit amount k = deref k.space.heap (λ heap.
    let r = move_break amount (num_empty_cm uninit k.memory.coremap) heap k.space in
    ok (answers r.0 r.1 (record k { space = r.2 })))
