-- ===== src/AddrSpace/Regions.antt =====
-- What `as_define_region` sets up, and what copying and freeing leave undone.
use mips_os.Common.{
  ℕ, ◌+◌, ◌-◌, ◌*◌, ◌%◌, ◌^◌, ◌≡◌, ◌<◌, ◌≤◌, refl, ap, true, false, zero, suc, ◌++◌, length, get_or,
  Option, none, some, [], ◌∷◌, replicate, arith, eunimp, ◌⊎◌, inl, inr, Bool-cases,
}
use mips_os.Coremap.{word, page_size, round_down, round_up}
use mips_os.AddrSpace.{
  Pte, PageTable, Region, AddrSpace, pagetable_initialize, pagetable_size, empty_pte, userstack,
  dumbvm_stackpages,
}
use mips_os.AddrSpace.Load.{new_region, define_data, as_define_region, clear_while, free_tables}

-- The region is whole pages, the fewest that hold the `sz` bytes at `vaddr`, with no frame and with an
-- empty page table.
pub record IsRegion (vaddr sz : ℕ) (r : Region) : Type 0 where
  pub start_aligned : r.vstart % page_size ≡ 0
  pub starts : (r.vstart ≤ vaddr) × (vaddr < r.vstart + page_size)
  pub ends : (vaddr + sz ≤ r.vend) × (r.vend < vaddr + sz + page_size)
  pub pages : r.vend ≡ r.vstart + r.numofpages * page_size
  pub unloaded : (r.pstart ≡ 0) × (r.pend ≡ 0)
  pub table : r.pagetable ≡ some (replicate pagetable_size empty_pte)

abbrev base : ℕ → ℕ
base vaddr = round_down vaddr page_size

abbrev size : (vaddr sz : ℕ) → ℕ
size vaddr sz = round_down (word (word (sz + vaddr % page_size) + page_size - 1)) page_size

new_region-IsRegion :
    (stale vaddr sz : ℕ)
    → vaddr + sz + 2 * page_size < 2 ^ 32
    → IsRegion vaddr sz (new_region stale (base vaddr) (size vaddr sz))
unfolding round_down pagetable_initialize
new_region-IsRegion stale vaddr sz small = record {
  start_aligned = omega arith;
  starts = (omega arith, omega arith);
  ends = (omega (arith, small), omega (arith, small));
  pages = omega (arith, small);
  unloaded = (refl, refl);
  table = refl;
}

-- The heap is empty, page-aligned and behind the data; the stack's 24 pages end at `USERSTACK`.
pub record HasHeapAndStack (data_end : ℕ) (space : AddrSpace) : Type 0 where
  pub heap : Region
  pub heap_is : space.heap ≡ some heap
  pub empty : (heap.vend ≡ heap.vstart) × (heap.vend_actual ≡ heap.vstart)
  pub behind : (data_end < heap.vstart) × (heap.vstart % page_size ≡ 0)
  pub stack : Region
  pub stack_is : space.stack ≡ some stack
  pub stack_range :
      (stack.vend ≡ userstack) × (stack.vstart + dumbvm_stackpages * page_size ≡ userstack)

-- what a call may leave
abbrev pub Defined : (vaddr sz : ℕ) → AddrSpace → ℕ × AddrSpace → Type 0
Defined vaddr sz old (e, new) =
    ((old.text ≡ none)
      × (e ≡ 0)
      × ((r : Region) × (new.text ≡ some r) × IsRegion vaddr sz r)
      × (new.«data» ≡ old.«data»))
    ⊎ (((e ≡ 0)
          × (old.«data» ≡ none)
          × (new.text ≡ old.text)
          × ((r : Region) × (new.«data» ≡ some r)
              × IsRegion vaddr sz r
              × HasHeapAndStack r.vend new))
        ⊎ ((e ≡ eunimp) × (new ≡ old)))

define_data-HasHeapAndStack :
    (stale vaddr sz : ℕ) (old : AddrSpace)
    → vaddr + sz + 3 * page_size < 2 ^ 32
    → HasHeapAndStack
        (word (base vaddr + size vaddr sz))
        (define_data stale (base vaddr) (size vaddr sz) old)
unfolding define_data round_down round_up pagetable_initialize
define_data-HasHeapAndStack stale vaddr sz old small = record {
  heap = new_region start start 0;
  heap_is = refl;
  empty = (omega (arith, small), refl);
  behind = (omega (arith, small), omega (arith, small));
  stack =
      new_region stale (userstack - dumbvm_stackpages * page_size) (dumbvm_stackpages * page_size);
  stack_is = refl;
  stack_range = (refl, refl);
}
  where
    start : ℕ
    start = round_up (word (base vaddr + size vaddr sz)) page_size

defined :
    (stale vaddr sz : ℕ) (t d h s : Option Region)
    → vaddr + sz + 3 * page_size < 2 ^ 32
    → Defined vaddr sz
        (record { text = t; «data» = d; heap = h; stack = s })
        (as_define_region stale vaddr sz (record { text = t; «data» = d; heap = h; stack = s }))
unfolding as_define_region define_data pagetable_initialize round_down
defined stale vaddr sz none d h s small =
    inl (refl, refl, (_, refl, new_region-IsRegion stale vaddr sz (omega (arith, small))), refl)
defined stale vaddr sz (some t) none h s small =
    let old : AddrSpace = record { text = some t; «data» = none; heap = h; stack = s } in
    inr (
      inl (
        refl,
        refl,
        refl,
        (
          _,
          refl,
          new_region-IsRegion stale vaddr sz (omega (arith, small)),
          define_data-HasHeapAndStack stale vaddr sz old small,
        ),
      ))
defined stale vaddr sz (some t) (some d) h s small = inr (inr (refl, refl))

-- For a range that ends three pages below 2 ^ 32 or lower, as_define_region makes the text, on its
-- first call, or else the data, on its second, the fewest whole pages that hold the range, with no
-- frame and an empty page table, and with the data an empty heap behind it on a page boundary and
-- a stack of 24 pages under USERSTACK; on a third call it reports EUNIMP and changes nothing.
as_define_region_lem :
    (stale vaddr sz : ℕ) (old : AddrSpace)
    → vaddr + sz + 3 * page_size < 2 ^ 32
    → Defined vaddr sz old (as_define_region stale vaddr sz old)
as_define_region_lem stale vaddr sz old small =
    defined stale vaddr sz old.text old.«data» old.heap old.stack small

clear_while-cleared : (heap table : PageTable) → clear_while (clear_while heap heap) table ≡ table
unfolding clear_while
clear_while-cleared [] table = refl
clear_while-cleared (h ∷ hs) [] = elim (Bool-cases h.allocated) [
  | inl used ↦ simp used refl
  | inr free ↦ simp free refl
]
clear_while-cleared (h ∷ hs) (p ∷ ps) = elim (Bool-cases h.allocated) [
  | inl used ↦ simp used refl
  | inr free ↦ simp (free, free) refl
]

-- The entries in front, which are allocated, are empty now; the rest, which starts with one that is
-- not, or is nothing, is as before.
abbrev pub Clears : (table cleared : PageTable) → Type 0
Clears table cleared =
    (used : PageTable) × (rest : PageTable) × (table ≡ used ++ rest)
    × ((i : ℕ) → i < length used → (get_or used i empty_pte).allocated ≡ true)
    × ((get_or rest 0 empty_pte).allocated ≡ false)
    × (cleared ≡ replicate (length used) empty_pte ++ rest)

clear_while-Clears : (table : PageTable) → Clears table (clear_while table table)
unfolding clear_while
clear_while-Clears [] = ([], [], refl, (λ i lt. absurd (omega (arith, lt))), refl, refl)
clear_while-Clears (p ∷ ps) = elim (Bool-cases p.allocated) [
  | inr free ↦ ([], p ∷ ps, refl, (λ i lt. absurd (omega (arith, lt))), free, rw free refl)
  | inl used ↦
      let (front, rest, whole, all, stops, cleared) = clear_while-Clears ps in
      (
        p ∷ front,
        rest,
        ap (λ l. p ∷ l) whole,
        all_front p front used all,
        stops,
        rw used (ap (λ l. empty_pte ∷ l) cleared),
      )
]
  where
    all_front :
        (p : Pte) (front : PageTable)
        → p.allocated ≡ true
        → ((i : ℕ) → i < length front → (get_or front i empty_pte).allocated ≡ true)
        → (i : ℕ) → i < suc (length front)
        → (get_or (p ∷ front) i empty_pte).allocated ≡ true
    all_front p front used all zero lt = used
    all_front p front used all (suc i) lt = all i (omega (arith, lt))

-- free_pagetable empties the allocated entries in front of the tables of stack and heap, up to the
-- first entry that is not allocated, and leaves those of text and data as they are.
pub free_tables-keeps :
    (stack heap text data_table : PageTable)
    → (stack' : PageTable) × (heap' : PageTable) × (free_tables stack heap text data_table
        ≡ stack' ∷ heap' ∷ text ∷ data_table ∷ [])
      × Clears stack stack'
      × Clears heap heap'
unfolding free_tables
free_tables-keeps stack heap text data_table = (
  clear_while stack stack,
  clear_while heap heap,
  rw (clear_while-cleared heap text, clear_while-cleared heap data_table) refl,
  clear_while-Clears stack,
  clear_while-Clears heap,
)
