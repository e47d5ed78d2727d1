-- ===== src/AddrSpace/Fault.antt =====
-- kern/vm/addrspace.c: `vm_fault`.
use mips_os.Common.{
  ℕ, ◌+◌, ◌-◌, Bool, ◌&&◌, ◌||◌, Option, none, some, ltb, leb, ◌==◌, if◌then◌else◌, Outcome, ok,
  panic, ◌>>=◌, einval, efault,
}
use mips_os.Coremap.{page_size, word, round_down}
use mips_os.AddrSpace.{
  Region, AddrSpace, Vm, deref, access_pagetable, write_into_tlb, stack_od_vstart,
}

-- the address space and the machine that a fault leaves, beside the error number
abbrev pub Faulted : Type 0
Faulted = ℕ × AddrSpace × Vm

-- `addr >= region->vstart && addr < region->vend`
abbrev pub inside : Region → ℕ → Bool
inside r addr = leb r.vstart addr && ltb addr r.vend

-- `access_pagetable(region, ...)`, which writes through `region->pagetable`; `put` stores the region.
unfoldable pub access :
    (faultaddress : ℕ) → Region → (put : Region → AddrSpace) → Vm → Outcome Faulted
access faultaddress r put vm = deref r.pagetable (λ pt. access_pagetable faultaddress pt vm >>= λ x.
    ok (x.0, put (record r { pagetable = some x.1 }), x.2))

-- `if (access_pagetable(...) == 1) return 0;`, and what comes else
unfoldable pub or_else : (Outcome Faulted) → (AddrSpace → Vm → Outcome Faulted) → Outcome Faulted
or_else r k = r >>= λ x. if x.0 == 1 then ok (0, x.1, x.2) else k x.1 x.2

-- the end of `vm_fault`: `if (write_into_TLB(faultaddress, paddr, spl) == 1) return 0;`, then EFAULT
unfoldable pub map_direct : (faultaddress paddr : ℕ) → AddrSpace → Vm → Outcome Faulted
map_direct faultaddress paddr space vm = elim (write_into_tlb faultaddress paddr vm.tlb) [
  | none ↦ panic
  | some r ↦ ok ((if r.0 == 1 then 0 else efault), space, record vm { tlb = r.1 })
]

-- `(faultaddress - region->vstart) + region->pstart`
abbrev pub offset_into : Region → ℕ → ℕ
offset_into r addr = word (addr - r.vstart + r.pstart)

-- the last branch: pages that the stack and the heap get on demand
unfoldable pub on_demand :
    (faultaddress : ℕ) (heap stack : Region) → AddrSpace → Vm → Outcome Faulted
on_demand addr heap stack space vm =
    let fails = λ (space' : AddrSpace) (vm' : Vm). ok (efault, space', vm') in
    if leb stack_od_vstart addr && ltb addr stack.vend
    then or_else (access addr stack (λ r. record space { stack = some r }) vm) fails
    else (if leb heap.vstart addr && ltb addr heap.vend_actual
        then or_else (access addr heap (λ r. record space { heap = some r }) vm) fails
        else ok (efault, space, vm))

-- `vm_fault` from the choice of the region on
unfoldable pub resolve :
    (faultaddress : ℕ) (text data_region heap stack : Region) → AddrSpace → Vm → Outcome Faulted
resolve addr text data_region heap stack space vm =
    if inside text addr
    then or_else (access addr text (λ r. record space { text = some r }) vm)
        (map_direct addr (offset_into text addr))
    else (if inside data_region addr
        then or_else (access addr data_region (λ r. record space { «data» = some r }) vm)
            (map_direct addr (offset_into data_region addr))
        else (if inside stack addr
            then map_direct addr (offset_into stack addr) space vm
            else (if inside heap addr
                then map_direct addr (offset_into heap addr) space vm
                else on_demand addr heap stack space vm)))

-- The regions are read in this order; each of them exists once a program is loaded.
unfoldable pub resolve_in : (faultaddress : ℕ) → AddrSpace → Vm → Outcome Faulted
resolve_in addr space vm = deref space.text (λ text. deref space.«data» (λ data_region.
    deref space.heap
      (λ heap. deref space.stack (λ stack. resolve addr text data_region heap stack space vm))))

-- `t_vmspace` is the running thread's; a read is fault 0, a write 1, a write to a read-only page 2.
unfoldable pub vm_fault :
    (faulttype faultaddress : ℕ) (t_vmspace : Option AddrSpace)
    → Vm
    → Outcome (ℕ × Option AddrSpace × Vm)
vm_fault faulttype faultaddress t_vmspace vm =
    let addr = round_down faultaddress page_size in
    if faulttype == 2
    then panic
    else (if faulttype == 0 || faulttype == 1
        then elim t_vmspace [
          | none ↦ ok (efault, none, vm)
          | some space ↦ resolve_in addr space vm >>= λ r. ok (r.0, some r.1, r.2)
        ]
        else ok (einval, t_vmspace, vm))
