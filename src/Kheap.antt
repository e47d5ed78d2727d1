-- ===== src/Kheap.antt =====
-- kern/lib/kheap.c: the subpage allocator. Interrupts are off while its functions run. The linked lists
-- of page references, and the list of free blocks that each page keeps in the blocks themselves, are
-- lists here, first element first; what is written into free blocks is not modelled otherwise.
pub mod PageRefs
pub mod Calls
pub mod Chains
pub mod Fresh
pub mod Pages
pub mod RoundTrip
use mips_os.Common.{
  ℕ, zero, suc, ◌+◌, ◌-◌, ◌*◌, ◌/◌, ◌%◌, Bool, true, false, not, ◌&&◌, Option, none, some, List, [],
  ◌∷◌, ltb, leb, ◌==◌, if◌then◌else◌, get_or, set, length, Outcome, ok, panic, ◌>>=◌, ◌>>◌, assert,
}
use mips_os.Coremap.{Memory, alloc_kpages, free_kpages, page_size}

-- `static const size_t sizes[NSIZES]`
abbrev pub sizes : List ℕ
sizes = 16 ∷ 32 ∷ 64 ∷ 128 ∷ 256 ∷ 512 ∷ 1024 ∷ 2048 ∷ []

abbrev pub size_of : (blktype : ℕ) → ℕ
size_of blktype = get_or sizes blktype 0

-- `struct pageref` of a page in use: `free` has the offsets of the free blocks, the next to be given
-- out first, so that `freelist_offset` is its head, or `INVALID_OFFSET` where it is empty.
pub record PageRef : Type 0 where
  pub pageaddr : ℕ
  pub blocktype : ℕ
  pub free : List ℕ
  pub nfree : ℕ

-- The globals of the file: which page references are in use, in words of 32 bits, the references, and
-- the chains through `next_samesize` (one for each size) and `next_all`; `memory` is the page frames.
pub record Kheap : Type 0 where
  pub inuse : List ℕ
  pub refs : ℕ → PageRef
  pub sizebases : ℕ → List ℕ
  pub allbase : List ℕ
  pub memory : Memory

-- a write of `f[i]`
abbrev pub update {ℓ} : {A : Type ℓ} → (ℕ → A) → ℕ → A → ℕ → A
update f i a j = if j == i then a else f j

abbrev pub npagerefs : ℕ
npagerefs = 256

-- `remove_lists` on one chain: the first link to `pr` is taken out.
unfoldable pub remove_link : (pr : ℕ) → List ℕ → List ℕ
remove_link pr [] = []
remove_link pr (q ∷ qs) = if q == pr then qs else q ∷ remove_link pr qs

unfoldable pub remove_lists : (pr blktype : ℕ) → Kheap → Outcome Kheap
remove_lists pr blktype h =
    assert (ltb blktype (length sizes))
    >> ok (record h {
      sizebases = update h.sizebases blktype (remove_link pr (h.sizebases blktype));
      allbase = remove_link pr h.allbase;
    })

-- the first size that holds `sz` bytes, from size `i` on
unfoldable pub blocktype_from : (i sz : ℕ) → List ℕ → Outcome ℕ
blocktype_from i sz [] = panic
blocktype_from i sz (s ∷ ss) =
    let rest = blocktype_from (i + 1) sz ss in if leb sz s then ok i else rest

unfoldable pub block_type : (sz : ℕ) → Outcome ℕ
block_type sz = blocktype_from 0 sz sizes

-- the first page of the chain with a free block
unfoldable pub pick : (blktype : ℕ) (refs : ℕ → PageRef) → List ℕ → Outcome (Option ℕ)
pick blktype refs [] = ok none
pick blktype refs (pr ∷ prs) =
    let rest = pick blktype refs prs in
    assert ((refs pr).blocktype == blktype)
    >> (if ltb 0 (refs pr).nfree then ok (some pr) else rest)

-- The rest of the list of free blocks and the count agree, as the code asserts after taking one.
abbrev pub count_agrees : (rest : List ℕ) (nfree : ℕ) → Bool
count_agrees [] nfree = nfree == 0
count_agrees (off ∷ rest) nfree = ltb 0 nfree && ltb off page_size

-- the code at `doalloc`
unfoldable pub take_block : (pr : ℕ) → Kheap → List ℕ → Outcome (ℕ × Kheap)
take_block pr h [] = panic
take_block pr h (off ∷ rest) =
    let r = h.refs pr in
    assert (ltb off page_size)
    >> (assert (count_agrees rest (r.nfree - 1))
        >> ok (
          r.pageaddr + off,
          record h { refs = update h.refs pr (record r { free = rest; nfree = r.nfree - 1 }) },
        ))

unfoldable pub do_alloc : (pr : ℕ) → Kheap → Outcome (ℕ × Kheap)
do_alloc pr h = take_block pr h (h.refs pr).free

-- The free list of a fresh page with `n` blocks: each block links to the one before it.
unfoldable pub fresh_list : (n size : ℕ) → List ℕ
fresh_list zero size = []
fresh_list (suc n) size = n * size ∷ fresh_list n size

-- the new page reference at the head of both chains
unfoldable pub add_page : (pr blktype prpage : ℕ) → Kheap → Kheap
add_page pr blktype prpage h = record h {
  refs = update h.refs pr (record {
    pageaddr = prpage - prpage % page_size;
    blocktype = blktype % page_size;
    free = fresh_list (page_size / size_of blktype) (size_of blktype);
    nfree = page_size / size_of blktype;
  });
  sizebases = update h.sizebases blktype (pr ∷ h.sizebases blktype);
  allbase = pr ∷ h.allbase;
}
