-- ===== src/Tests/Memory.antt =====
-- kern/vm/addrspace.c at small inputs.
use mips_os.Common.{
  ℕ, ◌+◌, ◌*◌, ◌≡◌, ◌≤◌, refl, true, false, none, some, [], ◌∷◌, ok, arith, ◌⊎◌, inl, inr,
}
use mips_os.Coremap.{
  Frame, Memory, getppages, after_search, find_run, frame_addr, mark_frames, vm_bootstrap,
  page_size, round_down,
}
use mips_os.Coremap.Pages.{Result, getppages_lem, getppages-disjoint}
use mips_os.Coremap.Boot.{Booted, vm_bootstrap_lem}
use mips_os.AddrSpace.{Pte, PageTable, Region, AddrSpace, Vm, access_pagetable, empty_pte}
use mips_os.AddrSpace.Access.{Accessed, access_pagetable_lem}
use mips_os.AddrSpace.Fault.{vm_fault}
use mips_os.AddrSpace.Faults.{Resolved, Answers, with_text, loaded, vm_fault-text}
use mips_os.AddrSpace.Load.{free_tables}
use mips_os.AddrSpace.Regions.{Clears, free_tables-keeps}

abbrev frame : ℕ → Frame
frame a = record { allocated = false; paddr_base = a }

abbrev used : ℕ → Frame
used a = record { allocated = true; paddr_base = a }

-- Frame 0 is taken, the others are free.
abbrev before : Memory
before = record {
  ram = record { firstpaddr = 0; lastpaddr = 0 };
  before_vm = false;
  coremap = used 4096 ∷ frame 8192 ∷ frame 12288 ∷ frame 16384 ∷ frame 20480 ∷ [];
}

abbrev between : Memory
between = record before {
  coremap = used 4096 ∷ used 8192 ∷ frame 12288 ∷ frame 16384 ∷ frame 20480 ∷ [];
}

abbrev after : Memory
after = record before {
  coremap = used 4096 ∷ used 8192 ∷ used 12288 ∷ used 16384 ∷ frame 20480 ∷ [];
}

one_page : getppages before 1 ≡ ok (8192, between)
unfolding getppages after_search find_run frame_addr mark_frames
one_page = refl

two_pages : getppages between 2 ≡ ok (12288, after)
unfolding getppages after_search find_run frame_addr mark_frames
two_pages = refl

getppages_lem_example : Result 4096 2 between (getppages between 2)
getppages_lem_example = getppages_lem 4096 2 between refl (omega arith)

getppages-disjoint_example : (8192 + 1 * page_size ≤ 12288) ⊎ (12288 + 2 * page_size ≤ 8192)
getppages-disjoint_example =
    getppages-disjoint 4096 1 2 before between after 8192 12288 refl (omega arith) (omega arith)
      (omega arith) (omega arith) one_page two_pages

abbrev booting : Memory
booting = record {
  ram = record { firstpaddr = 70000; lastpaddr = 524288 };
  before_vm = true;
  coremap = [];
}

vm_bootstrap_lem_example : (start : ℕ) × Booted 70000 524288 start (vm_bootstrap booting)
vm_bootstrap_lem_example = vm_bootstrap_lem booting (omega arith) (omega arith)

-- one page is mapped, and one TLB entry is free
abbrev mapped_pte : Pte
mapped_pte = record {
  allocated = true;
  vstart = 4194304;
  vend = 4198400;
  pstart = 4096;
  pend = 8192;
}

abbrev table : PageTable
table = mapped_pte ∷ empty_pte ∷ empty_pte ∷ []

abbrev machine : Vm
machine = record { memory = before; tlb = (4194304, 5632) ∷ (0, 0) ∷ [] }

access_pagetable_lem_example :
    Accessed 4198400 table machine (access_pagetable 4198400 table machine)
access_pagetable_lem_example =
    access_pagetable_lem 4096 4198400 table machine (omega arith) refl (omega arith) (omega arith)
      (inl (refl, inr (refl, (refl, tt))))

abbrev region : (vstart vend pages : ℕ) → Region
region vstart vend pages = record {
  vstart = vstart;
  vend = vend;
  numofpages = pages;
  pstart = 4096;
  pend = 16384;
  pagetable = some table;
  vend_actual = vend;
}

abbrev text : Region
text = region 4194304 4206592 3

abbrev others : Region
others = region 268435456 268439552 1

vm_fault-text_example :
    Answers
      (Resolved 4198400 text table (with_text (loaded text others others others) text) machine)
      (vm_fault 0 4198404 (some (loaded text others others others)) machine)
unfolding round_down
vm_fault-text_example =
    vm_fault-text 4096 0 4198404 machine text others others others table (omega arith) refl
      (inl (refl, inr (refl, (refl, tt)))) (omega arith) refl (omega arith) refl

abbrev no_regions : AddrSpace
no_regions = record { text = none; «data» = none; heap = none; stack = none }

free_tables-keeps_example :
    (stack' : PageTable) × (heap' : PageTable) × (free_tables table table table table
      ≡ stack' ∷ heap' ∷ table ∷ table ∷ [])
    × Clears table stack'
    × Clears table heap'
free_tables-keeps_example = free_tables-keeps table table table table
