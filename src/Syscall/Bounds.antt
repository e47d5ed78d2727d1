-- ===== src/Syscall/Bounds.antt =====
-- Where `sys_sbrk` may put the break.
use mips_os.Common.{
  ℕ, zero, suc, ◌+◌, ◌*◌, ◌^◌, ◌≡◌, ◌<◌, ◌≤◌, ◌⊎◌, inl, inr, refl, Bool-cases, some, ltb, ok, arith,
}
use mips_os.AddrSpace.{AddrSpace, Region, stack_od_vstart}
use mips_os.Coremap.{page_size, word, num_empty_cm}
use mips_os.Syscall.{answers}
use mips_os.Syscall.Break.{gt_signed, move_break, sys_sbrk}
use mips_os.Syscall.State.{Kernel}

-- The break moves by the signed number `amount`.
abbrev pub Moves : (amount from to : ℕ) → Type 0
Moves amount from to =
    ((amount < 2 ^ 31) × (to ≡ from + amount)) ⊎ ((2 ^ 31 ≤ amount) × (to + 2 ^ 32 ≡ from + amount))

-- It would leave the heap's range, or there are too few free frames for what it adds.
abbrev pub TooFar : (amount free : ℕ) → Region → Type 0
TooFar amount free heap =
    ((amount < 2 ^ 31) × (stack_od_vstart < heap.vend_actual + amount))
    ⊎ (((amount < 2 ^ 31) × (free * page_size < amount))
        ⊎ ((2 ^ 31 ≤ amount) × (heap.vend_actual + amount < heap.vstart + 2 ^ 32)))

abbrev pub Broke : (amount free : ℕ) → Region → AddrSpace → ℕ × ℕ × AddrSpace → Type 0
Broke amount free heap space (zero, old, space') =
    (end : ℕ) × (space' ≡ record space { heap = some (record heap { vend_actual = end }) })
    × (old ≡ heap.vend_actual)
    × (heap.vstart ≤ end)
    × (end ≤ stack_od_vstart)
    × Moves amount old end
Broke amount free heap space (suc e, retval, space') = (space' ≡ space) × TooFar amount free heap

move_break_lem :
    (amount free : ℕ) (heap : Region) (space : AddrSpace)
    → heap.vstart ≤ heap.vend_actual
    → heap.vend_actual ≤ stack_od_vstart
    → amount < 2 ^ 32
    → free * page_size < 2 ^ 31
    → Broke amount free heap space (move_break amount free heap space)
unfolding move_break
move_break_lem amount free heap space ordered low small few =
    let end = word (heap.vend_actual + amount) in
    elim (Bool-cases (ltb end heap.vstart)) [
      | inl below ↦ rw below (refl, ground (arith, below))
      | inr above ↦ elim (Bool-cases (ltb stack_od_vstart end)) [
        | inl over ↦ rw (above, over) (refl, ground (arith, over))
        | inr under ↦ elim (Bool-cases (gt_signed amount (word (free * page_size)))) [
          | inl more ↦ rw (above, under, more) (refl, ground (arith, more))
          | inr less ↦
              rw (above, under, less)
                (
                  end,
                  refl,
                  refl,
                  ground (arith, above),
                  ground (arith, under),
                  ground (arith, above, under, less),
                )
        ]
      ]
    ]

-- For a heap whose break lies between its start and STACK_OD_VSTART, an amount of 32 bits, and
-- fewer than 2 ^ 31 bytes in the number of frames that num_empty_cm reports, which is that of the
-- free frames and what its counter, which is never set, held before: sys_sbrk returns. On 0 it
-- returns the old break, and the new one differs by the signed amount and lies between the same
-- bounds; on an error the address space is as before, and the break would have left the bounds or
-- the amount asks for more frames than num_empty_cm reports.
pub sys_sbrk_lem :
    (uninit amount : ℕ) (k : Kernel) (heap : Region)
    → k.space.heap ≡ some heap
    → heap.vstart ≤ heap.vend_actual
    → heap.vend_actual ≤ stack_od_vstart
    → amount < 2 ^ 32
    → num_empty_cm uninit k.memory.coremap * page_size < 2 ^ 31
    → (r : ℕ × ℕ × AddrSpace) × (sys_sbrk uninit amount k
        ≡ ok (answers r.0 r.1 (record k { space = r.2 })))
      × Broke amount (num_empty_cm uninit k.memory.coremap) heap k.space r
unfolding sys_sbrk
sys_sbrk_lem uninit amount k heap is ordered low small few = (
  move_break amount (num_empty_cm uninit k.memory.coremap) heap k.space,
  simp is refl,
  move_break_lem amount (num_empty_cm uninit k.memory.coremap) heap k.space ordered low small few,
)
