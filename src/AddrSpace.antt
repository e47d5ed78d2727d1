-- ===== src/AddrSpace.antt =====
-- kern/vm/addrspace.c: address spaces, page tables and page faults. Addresses and sizes are
-- `u_int32_t`s, and sums that may wrap are written modulo 2 ^ 32. Behaviour that C leaves undefined is
-- `panic`, like a failed assertion.
pub mod Fault
pub mod Load
pub mod Tables
pub mod Access
pub mod Faults
pub mod Regions
use mips_os.Common.{
  ℕ, zero, suc, ◌+◌, ◌-◌, ◌*◌, ◌/◌, ◌%◌, Bool, true, false, not, ◌&&◌, Option, none, some, List, [],
  ◌∷◌, map, replicate, ltb, leb, ◌==◌, if◌then◌else◌, length, Outcome, ok, panic, ◌>>=◌, ◌>>◌,
  assert, einval, efault, enomem, eunimp,
}
use mips_os.Coremap.{Memory, getppages, free_coremap, page_size, word, round_down, round_up}

-- `PAGETABLE_SIZE`, `NUM_TLB`, `TLBLO_DIRTY`, `TLBLO_VALID`, `DUMBVM_STACKPAGES` and `USERSTACK`
abbrev pub pagetable_size : ℕ
pagetable_size = 512

abbrev pub num_tlb : ℕ
num_tlb = 64

abbrev pub tlblo_dirty : ℕ
tlblo_dirty = 1024

abbrev pub tlblo_valid : ℕ
tlblo_valid = 512

abbrev pub dumbvm_stackpages : ℕ
dumbvm_stackpages = 24

abbrev pub userstack : ℕ
userstack = 2147483648

-- `STACK_OD_VSTART`: the lowest address of a stack that grows on demand
abbrev pub stack_od_vstart : ℕ
stack_od_vstart = userstack - page_size * pagetable_size

-- `struct pte`
pub record Pte : Type 0 where
  pub allocated : Bool
  pub vstart : ℕ
  pub vend : ℕ
  pub pstart : ℕ
  pub pend : ℕ

abbrev pub PageTable : Type 0
PageTable = List Pte

-- `struct addrspace_region`. A pointer `pagetable` that is NULL or was never written is `none`.
pub record Region : Type 0 where
  pub vstart : ℕ
  pub vend : ℕ
  pub numofpages : ℕ
  pub pstart : ℕ
  pub pend : ℕ
  pub pagetable : Option PageTable
  pub vend_actual : ℕ

-- `struct addrspace`; NULL is `none`.
pub record AddrSpace : Type 0 where
  pub text : Option Region
  pub «data» : Option Region
  pub heap : Option Region
  pub stack : Option Region

-- `as->text->...`: through NULL the kernel faults.
abbrev pub deref {ℓ κ} : {A : Type ℓ} {B : Type κ} → Option A → (A → Outcome B) → Outcome B
deref none k = panic
deref (some a) k = k a

-- One entry of the TLB: its high word and its low word.
abbrev pub Tlb : Type 0
Tlb = List (ℕ × ℕ)

-- `x | b` for a `b` with one bit
abbrev pub or_bit : (x b : ℕ) → ℕ
or_bit x b = if x / b % 2 == 1 then x else x + b

abbrev pub has_bit : (x b : ℕ) → Bool
has_bit x b = x / b % 2 == 1

-- `none` where the loop ends: the function then returns no value.
unfoldable pub write_into_tlb : (faultaddress paddr : ℕ) → Tlb → Option (ℕ × Tlb)
write_into_tlb faultaddress paddr [] = none
write_into_tlb faultaddress paddr (e ∷ es) =
    let rest = write_into_tlb faultaddress paddr es in
    if has_bit e.1 tlblo_valid
    then elim rest [ none ↦ none | some r ↦ some (r.0, e ∷ r.1) ]
    else some (1, (faultaddress, or_bit (or_bit paddr tlblo_dirty) tlblo_valid) ∷ es)

-- `as_activate`: `TLB_Write(TLBHI_INVALID(i), TLBLO_INVALID(), i)` for every entry
unfoldable pub invalidate_from : (rounds i : ℕ) → Tlb
invalidate_from zero i = []
invalidate_from (suc rounds) i = ((524288 + i) * 4096, 0) ∷ invalidate_from rounds (i + 1)

unfoldable pub as_activate : Tlb → Tlb
as_activate tlb = invalidate_from num_tlb 0

abbrev pub empty_pte : Pte
empty_pte = record { allocated = false; vstart = 0; vend = 0; pstart = 0; pend = 0 }

-- `pagetable_initialize`, with memory from `kmalloc`
unfoldable pub pagetable_initialize : Region → Region
pagetable_initialize region = record region {
  pagetable = some (replicate pagetable_size empty_pte);
}

-- Where the loop of `access_pagetable` stops: at an entry that maps the address, at the first entry
-- that is not allocated, or at the end of the table.
pub data Search : Type 0 where
  page_found : (paddr : ℕ) → Search
  need_new_page : (i : ℕ) → Search
  table_full : Search

unfoldable pub find_page : (faultaddress i : ℕ) → PageTable → Search
find_page faultaddress i [] = table_full
find_page faultaddress i (p ∷ ps) =
    let rest = find_page faultaddress (i + 1) ps in
    if not p.allocated
    then need_new_page i
    else (if leb p.vstart faultaddress && ltb faultaddress p.vend
        then page_found (word (faultaddress - p.vstart + p.pstart))
        else rest)

unfoldable pub set_pte : (i : ℕ) → Pte → PageTable → PageTable
set_pte i p [] = []
set_pte zero p (q ∷ ps) = p ∷ ps
set_pte (suc i) p (q ∷ ps) = q ∷ set_pte i p ps

-- the memory, the translations and the region that a call leaves
pub record Vm : Type 0 where
  pub memory : Memory
  pub tlb : Tlb

-- `if (write_into_TLB(...) == 1) return 1;` A call that returns no value is `panic`.
unfoldable pub return_written :
    (faultaddress paddr : ℕ) → PageTable → Vm → Outcome (ℕ × PageTable × Vm)
return_written faultaddress paddr pt vm = elim (write_into_tlb faultaddress paddr vm.tlb) [
  | none ↦ panic
  | some r ↦ ok (r.0, pt, record vm { tlb = r.1 })
]

-- `if (needNewPage) { ... }`
unfoldable pub new_page : (faultaddress i : ℕ) → PageTable → Vm → Outcome (ℕ × PageTable × Vm)
new_page faultaddress i pt vm = getppages vm.memory 1 >>= λ r.
    let vstart = round_down faultaddress page_size in
    let p : Pte = record {
      allocated = true;
      vstart = vstart;
      vend = word (vstart + page_size);
      pstart = r.0;
      pend = word (r.0 + page_size);
    } in
    return_written faultaddress (word (faultaddress - vstart + r.0)) (set_pte i p pt)
      (record vm { memory = r.1 })

unfoldable pub access_pagetable : (faultaddress : ℕ) → PageTable → Vm → Outcome (ℕ × PageTable × Vm)
access_pagetable faultaddress pt vm = elim (find_page faultaddress 0 pt) [
  | page_found paddr ↦ return_written faultaddress paddr pt vm
  | need_new_page i ↦ new_page faultaddress i pt vm
  | table_full ↦ ok (0, pt, vm)
]
