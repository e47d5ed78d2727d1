-- ===== src/Tests/Heap.antt =====
-- kern/lib/kheap.c at small inputs.
use mips_os.Common.{
  ℕ, ◌≡◌, refl, false, Bool-cases, some, [], ◌∷◌, ok, arith, inl, inr, if◌then◌else◌, ◌==◌,
}
use mips_os.Kheap.{PageRef, Kheap, blocktype_from, block_type, pick}
use mips_os.Kheap.Calls.{subpage_kmalloc, kmalloc, kfree}
use mips_os.Kheap.Chains.{IsPage}
use mips_os.Kheap.Pages.{Ready, Allocates, subpage_kmalloc_lem}
use mips_os.Kheap.RoundTrip.{Sits, Same, kfree-kmalloc}

-- a page of 128-byte blocks with two of them free
abbrev some_page : PageRef
some_page = record { pageaddr = 2147614720; blocktype = 3; free = 256 ∷ 128 ∷ []; nfree = 2 }

abbrev heap : Kheap
heap = record {
  inuse = 1 ∷ 0 ∷ 0 ∷ 0 ∷ 0 ∷ 0 ∷ 0 ∷ 0 ∷ [];
  refs = λ p. some_page;
  sizebases = λ b. if b == 3 then 0 ∷ [] else [];
  allbase = 0 ∷ [];
  memory = record {
    ram = record { firstpaddr = 0; lastpaddr = 0 };
    before_vm = false;
    coremap = [];
  };
}

some_page-IsPage : IsPage some_page
some_page-IsPage = record {
  known = omega arith;
  counted = refl;
  blocks = omega arith;
  distinct = (refl, (refl, tt));
  bounded = omega arith;
}

heap-Ready : Ready heap
heap-Ready b lt = elim (Bool-cases (b == 3)) [
  | inl three ↦ let e : 3 ≡ b = ground (arith, three) in rw three ((some_page-IsPage, e), tt)
  | inr other ↦ rw other tt
]

subpage_kmalloc_lem_example : Allocates 100 heap (subpage_kmalloc 100 heap)
subpage_kmalloc_lem_example = subpage_kmalloc_lem 100 heap (omega arith) heap-Ready

first_page : Sits heap.refs 0 0
first_page = record {
  known = omega arith;
  aligned = omega arith;
  low = omega arith;
  high = omega arith;
  unique = λ e. refl;
}

type_of : block_type 100 ≡ ok 3
unfolding block_type blocktype_from
type_of = refl

picked_page : pick 3 heap.refs (heap.sizebases 3) ≡ ok (some 0)
unfolding pick
picked_page = refl

kfree-kmalloc_example :
    (a : ℕ) × (h' : Kheap) × (h'' : Kheap) × (kmalloc 100 heap ≡ ok (a, h'))
    × (kfree a h' ≡ ok h'')
    × Same heap h''
kfree-kmalloc_example =
    kfree-kmalloc 100 3 0 heap (omega arith) heap-Ready type_of (omega arith) picked_page
      (omega arith) refl first_page (first_page, tt)
