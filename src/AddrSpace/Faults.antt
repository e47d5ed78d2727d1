-- ===== src/AddrSpace/Faults.antt =====
-- What `vm_fault` does for an address of the text, and for one outside every region.
use mips_os.Common.{
  ℕ, ◌+◌, ◌%◌, ◌^◌, ◌≡◌, ◌<◌, refl, ◌==◌, ◌||◌, true, false, Option, none, some, Outcome, ok, panic,
  ◌>>=◌, efault, if◌then◌else◌, ◌⊎◌, inl, inr, arith,
}
use mips_os.Coremap.{page_size, round_down}
use mips_os.Coremap.Pages.{IsPlaced}
use mips_os.AddrSpace.{Region, AddrSpace, PageTable, Tlb, Vm}
use mips_os.AddrSpace.Fault.{
  Faulted, inside, access, or_else, map_direct, offset_into, resolve, resolve_in, vm_fault,
}
use mips_os.AddrSpace.Tables.{translate, IsFull, IsTable}
use mips_os.AddrSpace.Access.{
  TlbFull, NoFrame, Wrote, Writes, Mapped, Accessed, write_into_tlb_lem, access_pagetable_lem,
}

-- What a fault at `a` in a region with table `pt` may leave; `put` stores the region's table. Either
-- the page gets or has an entry of the table, or the table is full and the page lies at its offset.
abbrev pub Resolved :
    (a : ℕ) (r : Region) (pt : PageTable) (put : PageTable → AddrSpace) (vm : Vm)
    → Outcome Faulted
    → Type 0
Resolved a r pt put vm panic = TlbFull vm.tlb ⊎ NoFrame vm.memory
Resolved a r pt put vm (ok (e, space, vm')) =
    (e ≡ 0)
    × (((pt' : PageTable) × (space ≡ put pt') × Mapped a pt vm pt' vm')
        ⊎ ((space ≡ put pt)
            × (translate pt a ≡ none)
            × IsFull pt
            × (vm'.memory ≡ vm.memory)
            × Wrote a (offset_into r a) vm.tlb vm'.tlb))

direct_lem :
    (a : ℕ) (r : Region) (pt : PageTable) (put : PageTable → AddrSpace) (vm : Vm)
    (o : Option (ℕ × Tlb))
    → translate pt a ≡ none
    → IsFull pt
    → Writes a (offset_into r a) vm.tlb o
    → Resolved a r pt put vm (elim o [
      | none ↦ panic
      | some x ↦ ok ((if x.0 == 1 then 0 else efault), put pt, record vm { tlb = x.1 })
    ])
direct_lem a r pt put vm none unmapped full h = inl h
direct_lem a r pt put vm (some (one, tlb')) unmapped full (e, w) =
    (rw e refl, inr (refl, unmapped, full, refl, w))

resolved :
    (a : ℕ) (r : Region) (pt : PageTable) (put : PageTable → AddrSpace) (vm : Vm)
    (o : Outcome (ℕ × PageTable × Vm))
    → Accessed a pt vm o
    → Resolved a r pt put vm
        (or_else (o >>= λ x. ok (x.0, put x.1, x.2)) (map_direct a (offset_into r a)))
unfolding or_else map_direct
resolved a r pt put vm panic h = h
resolved a r pt put vm (ok (e, pt', vm')) (inr (one, m)) = rw one (refl, inl (pt', refl, m))
resolved a r pt put vm (ok (e, pt', vm')) (inl (z, same, still, unmapped, full)) =
    rw (z, same, still)
      (direct_lem a r pt put vm _ unmapped full (write_into_tlb_lem a (offset_into r a) vm.tlb))

-- the text's table, stored back
abbrev pub with_text : AddrSpace → Region → PageTable → AddrSpace
with_text space r pt = record space { text = some (record r { pagetable = some pt }) }

-- the address space as the running thread's pointer to it
abbrev pub Answers : (Outcome Faulted → Type 0) → Outcome (ℕ × Option AddrSpace × Vm) → Type 0
Answers P panic = P panic
Answers P (ok (e, none, vm)) = ⊥
Answers P (ok (e, some space, vm)) = P (ok (e, space, vm))

Answers-some :
    (P : Outcome Faulted → Type 0) (r : Outcome Faulted)
    → P r
    → Answers P (r >>= λ x. ok (x.0, some x.1, x.2))
Answers-some P panic h = h
Answers-some P (ok (e, space, vm)) h = h

-- an address space with its four regions
abbrev pub loaded : (text data_region heap stack : Region) → AddrSpace
loaded text d h s = record { text = some text; «data» = some d; heap = some h; stack = some s }

-- For a read or write fault on a text address, in a loaded address space with a proper text table
-- and with the coremap set up, vm_fault reports 0 with the page mapped by the text table, in its
-- old entry or in a new one for the frame that getppages gives, or, where every entry of that
-- table is allocated and none is of the page, in the TLB at its offset in the text frames; its
-- result is undefined only where every TLB entry is valid or no free frame stands before the last.
pub vm_fault-text :
    (start faulttype faultaddress : ℕ) (vm : Vm) (text d h s : Region) (pt : PageTable)
    → faulttype < 2
    → text.pagetable ≡ some pt
    → IsTable pt
    → IsPlaced start 0 vm.memory.coremap
    → vm.memory.before_vm ≡ false
    → faultaddress + page_size < 2 ^ 32
    → inside text (round_down faultaddress page_size) ≡ true
    → Answers
        (Resolved
          (round_down faultaddress page_size)
          text
          pt
          (with_text (loaded text d h s) text)
          vm)
        (vm_fault faulttype faultaddress (some (loaded text d h s)) vm)
unfolding vm_fault resolve_in resolve access round_down
vm_fault-text start faulttype faultaddress vm text d h s pt kind ep t placed on small within =
    let a = round_down faultaddress page_size in
    simp (not_readonly, known_kind, within, ep)
      (Answers-some (Resolved a text pt (with_text (loaded text d h s) text) vm) _ (
        resolved a text pt (with_text (loaded text d h s) text) vm _
          (access_pagetable_lem start a pt vm placed on al sm t)))
  where
    al : round_down faultaddress page_size % page_size ≡ 0
    al = omega arith

    sm : round_down faultaddress page_size + page_size < 2 ^ 32
    sm = omega (arith, small)

    not_readonly : (faulttype == 2) ≡ false
    not_readonly = ground (arith, kind)

    known_kind : (faulttype == 0 || faulttype == 1) ≡ true
    known_kind = ground (arith, kind)
