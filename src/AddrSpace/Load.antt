-- ===== src/AddrSpace/Load.antt =====
-- kern/vm/addrspace.c: setting up, loading, copying and destroying an address space.
use mips_os.Common.{
  ℕ, ◌+◌, ◌-◌, ◌*◌, ◌/◌, ◌%◌, Bool, true, false, not, ◌&&◌, Option, none, some, List, [], ◌∷◌, ltb,
  ◌==◌, if◌then◌else◌, Outcome, ok, ◌>>=◌, ◌>>◌, assert, enomem, eunimp,
}
use mips_os.Coremap.{Memory, getppages, free_coremap, page_size, word, round_down, round_up}
use mips_os.AddrSpace.{
  PageTable, Region, AddrSpace, deref, pagetable_initialize, empty_pte, userstack,
  dumbvm_stackpages,
}

unfoldable pub as_create : (mem : Bool) → Option AddrSpace
as_create mem =
    if mem then some (record { text = none; «data» = none; heap = none; stack = none }) else none

-- A region of pages from `vstart` on that has no frames. The memory for it and for its page table
-- comes from `kmalloc`, whose result the code does not test; here it succeeds. `vend_actual` holds
-- what stood in that memory, `stale`.
abbrev pub new_region : (stale vstart sz : ℕ) → Region
new_region stale vstart sz = pagetable_initialize (record {
  vstart = vstart;
  vend = word (vstart + sz);
  numofpages = sz / page_size;
  pstart = 0;
  pend = 0;
  pagetable = none;
  vend_actual = stale;
})

-- the regions that come with the second call: data, heap and stack
unfoldable pub define_data : (stale vaddr sz : ℕ) → AddrSpace → AddrSpace
define_data stale vaddr sz space =
    let end = word (vaddr + sz) in
    let start = round_up end page_size in
    record space {
      «data» = some (new_region stale vaddr sz);
      heap = some (new_region start start 0);
      stack = some (
          new_region stale (userstack - dumbvm_stackpages * page_size)
            (dumbvm_stackpages * page_size));
    }

-- The three flags are not used.
unfoldable pub as_define_region : (stale vaddr sz : ℕ) → AddrSpace → ℕ × AddrSpace
as_define_region stale vaddr sz space =
    let base = round_down vaddr page_size in
    let size = round_down (word (word (sz + vaddr % page_size) + page_size - 1)) page_size in
    elim space.text [
      | none ↦ (0, record space { text = some (new_region stale base size) })
      | some t ↦ elim space.«data» [
        | none ↦ (0, define_data stale base size space)
        | some d ↦ (eunimp, space)
      ]
    ]

-- `assert(region->pstart == 0 && region->pend == 0)`
abbrev pub assert_unloaded : Region → Outcome (Unit {0})
assert_unloaded r = assert (r.pstart == 0 && r.pend == 0)

-- `region->pstart = getppages(region->numofpages); if (region->pstart == 0) return ENOMEM;`
unfoldable pub load_region : Region → Memory → Outcome (ℕ × Region × Memory)
load_region r m = getppages m r.numofpages >>= λ x.
    let pend = word (x.0 + r.numofpages * page_size) in
    if x.0 == 0
    then ok (enomem, record r { pstart = 0 }, x.1)
    else ok (0, record r { pstart = x.0; pend = pend }, x.1)

unfoldable pub load_regions :
    (text data_region stack : Region) → AddrSpace → Memory → Outcome (ℕ × AddrSpace × Memory)
load_regions text data_region stack space m = do
  t ← load_region text m
  let space₁ : AddrSpace = record space { text = some t.1 }
  if ltb 0 t.0
      then ok (t.0, space₁, t.2)
      else (load_region data_region t.2 >>= λ d.
          let space₂ : AddrSpace = record space₁ { «data» = some d.1 } in
          if ltb 0 d.0
          then ok (d.0, space₂, d.2)
          else (load_region stack d.2 >>= λ s. ok (s.0, record space₂ { stack = some s.1 }, s.2)))

unfoldable pub as_prepare_load : AddrSpace → Memory → Outcome (ℕ × AddrSpace × Memory)
as_prepare_load space m = deref space.text (λ text.
    assert_unloaded text
    >> deref space.«data» (λ data_region.
      assert_unloaded data_region
      >> deref space.heap (λ heap.
        assert_unloaded heap
        >> deref space.stack
            (λ stack. assert_unloaded stack >> load_regions text data_region stack space m))))

unfoldable pub as_complete_load : AddrSpace → ℕ
as_complete_load space = 0

-- The error number and the stack pointer.
unfoldable pub as_define_stack : AddrSpace → Outcome (ℕ × ℕ)
as_define_stack space =
    deref space.stack (λ s. assert (not (s.pstart == 0) && not (s.pend == 0)) >> ok (0, userstack))

-- `for (i = 0; i < PAGETABLE_SIZE; i++) { if (tested[i].allocated == 0) break; table[i] = 0; }`
unfoldable pub clear_while : (tested table : PageTable) → PageTable
clear_while [] table = table
clear_while (t ∷ ts) [] = []
clear_while (t ∷ ts) (p ∷ ps) = if t.allocated then empty_pte ∷ clear_while ts ps else p ∷ ps

-- The tables that `free_pagetable` leaves: of the stack, the heap, text and data, in this order. The
-- loops for text and data look at the heap's entries, which the loop before has cleared.
unfoldable pub free_tables : (stack heap text data_table : PageTable) → List PageTable
free_tables stack heap text data_table =
    let cleared = clear_while heap heap in
    clear_while stack stack
    ∷ cleared
    ∷ clear_while cleared text
    ∷ clear_while cleared data_table
    ∷ []

-- `free_addrspace` sets the regions to NULL, and `free_pagetable` before that their tables. It reads
-- the entries of the stack's and the heap's tables only.
unfoldable pub free_addrspace : AddrSpace → Outcome AddrSpace
free_addrspace space = deref space.text (λ t. deref space.«data» (λ d. deref space.stack (λ s.
    deref space.heap (λ h. deref s.pagetable (λ sp.
      deref h.pagetable
        (λ hp. ok (record { text = none; «data» = none; heap = none; stack = none })))))))

unfoldable pub as_destroy : AddrSpace → Memory → Outcome (AddrSpace × Memory)
as_destroy space m = free_addrspace space >>= λ space'. ok (space', free_coremap m)

-- `copy_pagetables`: every entry, written through the new region's pointer
unfoldable pub copy_pagetables : (old new : Region) → Outcome Region
copy_pagetables old new =
    deref old.pagetable
      (λ entries. deref new.pagetable (λ overwritten. ok (record new { pagetable = some entries })))

-- The new region as `as_copy` fills it in. Its page table pointer is not among the fields that it
-- sets: `stale` is the table that this pointer happens to reach, `none` where it reaches no memory.
-- The heap's `vend_actual` is copied, the others keep what stood there.
unfoldable pub copy_region : (stale : Option PageTable) → Option Region → Outcome Region
copy_region stale old = deref old (λ r. copy_pagetables r (record r { pagetable = stale }))

-- The copying of page contents between the frames, which comes last, is not modelled, nor are the
-- assertions before it, which hold after a load that reports 0. `mem` says
-- whether `as_create` gets memory. `ret` is `none` where nothing is handed back.
unfoldable pub as_copy :
    (mem : Bool) (stale : Option PageTable)
    → AddrSpace
    → Memory
    → Outcome (ℕ × Option AddrSpace × Memory)
as_copy false stale old m = ok (enomem, none, m)
as_copy true stale old m = do
  d ← copy_region stale old.«data»
  t ← copy_region stale old.text
  s ← copy_region stale old.stack
  h ← copy_region stale old.heap
  let new : AddrSpace = record { text = some t; «data» = some d; heap = some h; stack = some s }
  x ← as_prepare_load new m
  if ltb 0 x.0
      then (as_destroy x.1 x.2 >>= λ gone. ok (enomem, none, gone.1))
      else ok (0, some x.1, x.2)
