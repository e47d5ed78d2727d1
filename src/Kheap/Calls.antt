-- ===== src/Kheap/Calls.antt =====
-- kern/lib/kheap.c: `kmalloc` and `kfree`. Address 0 is NULL.
use mips_os.Common.{
  ℕ, ◌+◌, ◌-◌, ◌/◌, ◌%◌, Bool, ◌&&◌, Option, none, some, List, [], ◌∷◌, ltb, leb, ◌==◌,
  if◌then◌else◌, length, Outcome, ok, ◌>>=◌, ◌>>◌, assert,
}
use mips_os.Coremap.{alloc_kpages, free_kpages, page_size, word}
use mips_os.Kheap.{
  PageRef, Kheap, sizes, size_of, update, remove_lists, block_type, pick, do_alloc, add_page,
}
use mips_os.Kheap.PageRefs.{alloc_pageref, free_pageref}

-- `subpage_kmalloc` where no page of the size has a free block
unfoldable pub grow_heap : (blktype : ℕ) → Kheap → Outcome (ℕ × Kheap)
grow_heap blktype h = alloc_pageref h.inuse >>= λ r. elim r [
  | none ↦ ok (0, h)
  | some x ↦ alloc_kpages h.memory 1 >>= λ page.
      if page.0 == 0
      then (free_pageref x.0 x.1 >>= λ inuse. ok (0, record h { inuse = inuse; memory = page.1 }))
      else do_alloc x.0 (add_page x.0 blktype page.0 (record h { inuse = x.1; memory = page.1 }))
]

unfoldable pub subpage_kmalloc : (sz : ℕ) → Kheap → Outcome (ℕ × Kheap)
subpage_kmalloc sz h = block_type sz >>= λ blktype.
    pick blktype h.refs (h.sizebases blktype) >>= λ r. elim r [
      | none ↦ grow_heap blktype h
      | some pr ↦ do_alloc pr h
    ]

-- `ptraddr >= prpage && ptraddr < prpage + PAGE_SIZE`
abbrev pub in_page : (ptr : ℕ) → PageRef → Bool
in_page ptr r = leb r.pageaddr ptr && ltb ptr (word (r.pageaddr + page_size))

-- the page that the pointer lies in
unfoldable pub find_ref : (ptr : ℕ) (refs : ℕ → PageRef) → List ℕ → Outcome (Option ℕ)
find_ref ptr refs [] = ok none
find_ref ptr refs (pr ∷ prs) =
    let rest = find_ref ptr refs prs in
    assert (ltb (refs pr).blocktype (length sizes))
    >> (if in_page ptr (refs pr) then ok (some pr) else rest)

-- The block at the head of its page's free list; a page that is then all free is given back.
unfoldable pub give_back : (ptr pr : ℕ) → Kheap → Outcome Kheap
give_back ptr pr h =
    let r = h.refs pr in
    let offset = ptr - r.pageaddr in
    let blocks = page_size / size_of r.blocktype in
    let h' : Kheap = record h {
      refs = update h.refs pr (record r { free = offset ∷ r.free; nfree = r.nfree + 1 });
    } in
    assert (ltb offset page_size && offset % size_of r.blocktype == 0)
    >> (assert (leb (r.nfree + 1) blocks)
        >> (if r.nfree + 1 == blocks
            then (remove_lists pr r.blocktype h' >>= λ h''. free_pageref pr h''.inuse >>= λ inuse.
                ok (record h'' { inuse = inuse; memory = free_kpages h''.memory r.pageaddr }))
            else ok h'))

-- `none` for the result -1: the pointer lies on no page of the subpage allocator.
unfoldable pub subpage_kfree : (ptr : ℕ) → Kheap → Outcome (Option Kheap)
subpage_kfree ptr h = find_ref ptr h.refs h.allbase >>= λ r. elim r [
  | none ↦ ok none
  | some pr ↦ give_back ptr pr h >>= λ h'. ok (some h')
]

unfoldable pub kmalloc : (sz : ℕ) → Kheap → Outcome (ℕ × Kheap)
kmalloc sz h =
    if leb 2048 sz
    then (alloc_kpages h.memory (word (sz + page_size - 1) / page_size) >>= λ r.
        ok (r.0, record h { memory = r.1 }))
    else subpage_kmalloc sz h

unfoldable pub kfree : (ptr : ℕ) → Kheap → Outcome Kheap
kfree ptr h =
    if ptr == 0
    then ok h
    else (subpage_kfree ptr h >>= λ r. elim r [
      | none ↦ assert (ptr % page_size == 0) >> ok (record h { memory = free_kpages h.memory ptr })
      | some h' ↦ ok h'
    ])
