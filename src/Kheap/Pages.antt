-- ===== src/Kheap/Pages.antt =====
-- What the subpage allocator gives out.
use mips_os.Common.{
  ℕ, ◌+◌, ◌≡◌, ◌<◌, ◌≤◌, refl, sym, ap, ◌∙◌, true, false, Bool-cases, Option, none, some, List, [],
  ◌∷◌, ◌==◌, if◌then◌else◌, length, Outcome, ok, panic, ◌>>=◌, arith, inl, inr, ◌⊎◌,
}
use mathlib.Core.Path.{subst}
use mips_os.Coremap.{Memory, alloc_kpages}
use mips_os.Kheap.{PageRef, Kheap, sizes, size_of, update, block_type, pick, do_alloc, add_page}
use mips_os.Kheap.PageRefs.{alloc_pageref, free_pageref}
use mips_os.Kheap.Calls.{grow_heap, subpage_kmalloc}
use mips_os.Kheap.Chains.{
  elem, IsBlock, IsPage, IsChain, Exhausted, Picks, pick_lem, without_first, take_block_lem,
  without_first-IsPage,
}
use mips_os.Kheap.Fresh.{
  IsLeast, Fits, block_type-Fits, IsSize, size_of-IsSize, fresh_page, fresh_page-IsPage,
}

-- A block of at least `sz` bytes at address `a`: it was the first free block of its page, or the page
-- is new, where no page of the size had a free block; now it is not free, and no other page changed.
pub record Given (sz a : ℕ) (h h' : Kheap) : Type 0 where
  pub pr : ℕ
  pub off : ℕ
  pub page : IsPage (h'.refs pr)
  pub address : a ≡ (h'.refs pr).pageaddr + off
  pub large : IsLeast sz (h'.refs pr).blocktype
  pub block : IsBlock (size_of (h'.refs pr).blocktype) off
  pub taken : elem off (h'.refs pr).free ≡ false
  pub was_free :
      ((h.refs pr).free ≡ off ∷ (h'.refs pr).free)
      ⊎ Exhausted h.refs (h.sizebases (h'.refs pr).blocktype)
  pub others : (q : ℕ) → (q == pr) ≡ false → h'.refs q ≡ h.refs q

pub free_cases : (l : List ℕ) → 0 < length l → (off : ℕ) × (rest : List ℕ) × (l ≡ off ∷ rest)
free_cases [] lt = absurd (omega (arith, lt))
free_cases (off ∷ rest) lt = (off, rest, refl)

pub update_self {ℓ} : {A : Type ℓ} (f : ℕ → A) (i : ℕ) (a : A) → update f i a i ≡ a
update_self f i a = let e : (i == i) ≡ true = ground arith in rw e refl

given :
    (sz pr b : ℕ) (h₀ h : Kheap)
    → IsPage (h.refs pr)
    → (h.refs pr).blocktype ≡ b
    → 0 < (h.refs pr).nfree
    → IsLeast sz b
    → ((h₀.refs pr ≡ h.refs pr) ⊎ Exhausted h₀.refs (h₀.sizebases b))
    → ((q : ℕ) → (q == pr) ≡ false → h.refs q ≡ h₀.refs q)
    → (a : ℕ) × (h' : Kheap) × (do_alloc pr h ≡ ok (a, h')) × Given sz a h₀ h'
given sz pr b h₀ h p is more large from others =
    let (off, rest, e) = free_cases (h.refs pr).free (omega (arith, p.counted, more)) in
    let (page, taken, block) = without_first-IsPage (h.refs pr) off rest e p in
    let left : PageRef = without_first (h.refs pr) rest in
    let self : update h.refs pr left pr ≡ left = update_self h.refs pr left in
    (
      (h.refs pr).pageaddr + off,
      record h { refs = update h.refs pr left },
      take_block_lem pr h off rest e p,
      record {
        pr = pr;
        off = off;
        page = subst IsPage (sym self) page;
        address = ap (λ (r : PageRef). r.pageaddr + off) (sym self);
        large = rw (self, is) large;
        block = rw self block;
        taken = rw self taken;
        was_free = elim from [
          | inl same ↦ inl (rw self (ap (λ (r : PageRef). r.free) same ∙ e))
          | inr none_left ↦ inr (rw (self, is) none_left)
        ];
        others = λ q ne. rw ne (others q ne);
      },
    )

-- what `subpage_kmalloc` leaves
abbrev pub Allocates : (sz : ℕ) → Kheap → Outcome (ℕ × Kheap) → Type 0
Allocates sz h panic = (b : ℕ) × (IsLeast sz b) × Exhausted h.refs (h.sizebases b)
Allocates sz h (ok (a, h')) =
    ((a ≡ 0) × (h'.refs ≡ h.refs) × ((b : ℕ) × (IsLeast sz b) × Exhausted h.refs (h.sizebases b)))
    ⊎ Given sz a h h'

abbrev pub Ready : Kheap → Type 0
Ready h = (b : ℕ) → b < length sizes → IsChain b h.refs (h.sizebases b)

given_back :
    (sz b : ℕ) (h : Kheap) (m : Memory) (r : Outcome (List ℕ))
    → IsLeast sz b
    → Exhausted h.refs (h.sizebases b)
    → Allocates sz h (r >>= λ inuse. ok (0, record h { inuse = inuse; memory = m }))
given_back sz b h m panic large none_left = (b, large, none_left)
given_back sz b h m (ok inuse) large none_left = inl (refl, refl, (b, large, none_left))

Given-Allocates :
    (sz : ℕ) (h : Kheap) (r : Outcome (ℕ × Kheap))
    → ((a : ℕ) × (h' : Kheap) × (r ≡ ok (a, h')) × Given sz a h h')
    → Allocates sz h r
Given-Allocates sz h r (a, h', e, g) = rw e (inr g)

paged :
    (sz b p : ℕ) (h : Kheap) (inuse : List ℕ) (r : Outcome (ℕ × Memory))
    → b < length sizes
    → IsLeast sz b
    → Exhausted h.refs (h.sizebases b)
    → Allocates sz h (
        r >>= λ page.
        if page.0 == 0
        then (free_pageref p inuse >>= λ inuse'.
            ok (0, record h { inuse = inuse'; memory = page.1 }))
        else do_alloc p (add_page p b page.0 (record h { inuse = inuse; memory = page.1 })))
unfolding add_page
paged sz b p h inuse panic known large none_left = (b, large, none_left)
paged sz b p h inuse (ok (addr, m)) known large none_left = elim (Bool-cases (addr == 0)) [
  | inl null ↦ rw null (given_back sz b h m (free_pageref p inuse) large none_left)
  | inr some_page ↦ rw some_page (
      Given-Allocates sz h _ (
        given sz p b h (add_page p b addr (record h { inuse = inuse; memory = m }))
          (subst IsPage (sym self) fresh.0) (rw self fresh.1) (rw self z.some_fit) large
          (inr none_left) (λ q ne. rw ne refl)))
]
  where
    z : IsSize (size_of b)
    z = size_of-IsSize b known

    fresh : IsPage (fresh_page addr b) × ((fresh_page addr b).blocktype ≡ b)
    fresh = fresh_page-IsPage addr b known

    self : update h.refs p (fresh_page addr b) p ≡ fresh_page addr b
    self = update_self h.refs p (fresh_page addr b)

grow_heap_lem :
    (sz b : ℕ) (h : Kheap) (r : Outcome (Option (ℕ × List ℕ)))
    → b < length sizes
    → IsLeast sz b
    → Exhausted h.refs (h.sizebases b)
    → Allocates sz h (
        r >>= λ r'. elim r' [
          | none ↦ ok (0, h)
          | some x ↦ alloc_kpages h.memory 1 >>= λ page.
              if page.0 == 0
              then (free_pageref x.0 x.1 >>= λ inuse.
                  ok (0, record h { inuse = inuse; memory = page.1 }))
              else do_alloc x.0 (add_page x.0 b page.0 (record h { inuse = x.1; memory = page.1 }))
        ])
grow_heap_lem sz b h panic known large none_left = (b, large, none_left)
grow_heap_lem sz b h (ok none) known large none_left = inl (refl, refl, (b, large, none_left))
grow_heap_lem sz b h (ok (some (p, inuse))) known large none_left =
    paged sz b p h inuse (alloc_kpages h.memory 1) known large none_left

picked :
    (sz b : ℕ) (h : Kheap) (r : Outcome (Option ℕ))
    → b < length sizes
    → IsLeast sz b
    → Picks b h.refs (h.sizebases b) r
    → Allocates sz h (r >>= λ r'. elim r' [ none ↦ grow_heap b h | some pr ↦ do_alloc pr h ])
unfolding grow_heap
picked sz b h panic known large k = absurd k
picked sz b h (ok none) known large none_left =
    grow_heap_lem sz b h (alloc_pageref h.inuse) known large none_left
picked sz b h (ok (some pr)) known large (page, is, more, there) =
    Given-Allocates sz h _ (given sz pr b h h page is more large (inl refl) (λ q ne. refl))

typed :
    (sz : ℕ) (h : Kheap) (r : Outcome ℕ)
    → Ready h
    → Fits sz r
    → Allocates sz h (
        r >>= λ b. pick b h.refs (h.sizebases b) >>= λ r'. elim r' [
          | none ↦ grow_heap b h
          | some pr ↦ do_alloc pr h
        ])
typed sz h panic ready f = absurd f
typed sz h (ok b) ready (known, large) =
    picked sz b h (pick b h.refs (h.sizebases b)) known large
      (pick_lem b h.refs (h.sizebases b) (ready b known))

-- For at most 2048 bytes, in a heap whose chains have well-formed pages of their size,
-- subpage_kmalloc returns a block of the least size that is large enough, aligned to its size,
-- inside its page and no longer free, with every other page reference as before; it was the first
-- free block of its page, or no page of the size had one. It returns NULL with the references as
-- before, or its result is undefined, only where no page of the least size that is large enough
-- has a free block.
pub subpage_kmalloc_lem :
    (sz : ℕ) (h : Kheap) → sz ≤ 2048 → Ready h → Allocates sz h (subpage_kmalloc sz h)
unfolding subpage_kmalloc
subpage_kmalloc_lem sz h small ready = typed sz h (block_type sz) ready (block_type-Fits sz small)
