-- ===== src/Kheap/RoundTrip.antt =====
-- `kfree` of a block that `kmalloc` has just given out.
use mips_os.Common.{
  ℕ, ◌+◌, ◌-◌, ◌/◌, ◌%◌, ◌^◌, ◌≡◌, ◌<◌, ◌≤◌, refl, sym, ap, ap₂, ◌∙◌, true, false, ◌&&◌, Bool-cases,
  some, List, [], ◌∷◌, ltb, leb, lt→ltb, le→leb, ◌==◌, length, ok, arith, inl, inr,
}
use mathlib.Core.Path.{subst}
use mips_os.Coremap.{page_size}
use mips_os.Kheap.{PageRef, Kheap, sizes, size_of, update, block_type, pick, do_alloc}
use mips_os.Kheap.Calls.{
  in_page, find_ref, give_back, subpage_kmalloc, subpage_kfree, kmalloc, kfree,
}
use mips_os.Kheap.Chains.{
  All, elem, IsPage, Picks, pick_lem, without_first, take_block_lem, IsBlock,
}
use mips_os.Kheap.Pages.{free_cases, update_self, Ready}

-- The page of `q` is aligned, lies below 2 ^ 32 and is that of `pr` only if `q` is `pr`.
pub record Sits (refs : ℕ → PageRef) (pr q : ℕ) : Type 0 where
  pub known : (refs q).blocktype < length sizes
  pub aligned : (refs q).pageaddr % page_size ≡ 0
  pub low : 0 < (refs q).pageaddr
  pub high : (refs q).pageaddr + page_size < 2 ^ 32
  pub unique : (refs q).pageaddr ≡ (refs pr).pageaddr → q ≡ pr

find_ref_lem :
    (ptr pr : ℕ) (refs : ℕ → PageRef) (l : List ℕ)
    → All (Sits refs pr) l
    → Sits refs pr pr
    → elem pr l ≡ true
    → (refs pr).pageaddr ≤ ptr
    → ptr < (refs pr).pageaddr + page_size
    → find_ref ptr refs l ≡ ok (some pr)
unfolding find_ref
find_ref_lem ptr pr refs [] s own there lo hi = cc there
find_ref_lem ptr pr refs (q ∷ l) (at, s) own there lo hi =
    rw (lt→ltb (refs q).blocktype 8 at.known) (elim (Bool-cases (in_page ptr (refs q))) [
      | inl inside ↦
          let same : (refs q).pageaddr ≡ (refs pr).pageaddr =
            ground (arith, inside, at.aligned, at.high, own.aligned) in
          rw inside (ap (λ x. ok (some x)) (at.unique same))
      | inr outside ↦
          rw outside
            (find_ref_lem ptr pr refs l s own (ground (arith, there, outside, at.high)) lo hi)
    ])

-- the reference after the block was given out
abbrev taken_from : Kheap → ℕ → List ℕ → ℕ → PageRef
taken_from h pr rest = update h.refs pr (without_first (h.refs pr) rest)

same_place :
    (h : Kheap) (pr : ℕ) (rest : List ℕ) (q : ℕ)
    → ((taken_from h pr rest q).pageaddr ≡ (h.refs q).pageaddr)
      × ((taken_from h pr rest q).blocktype ≡ (h.refs q).blocktype)
same_place h pr rest q = elim (Bool-cases (q == pr)) [
  | inl same ↦
      let e : q ≡ pr = ground (arith, same) in
      rw same (ap (λ x. (h.refs x).pageaddr) (sym e), ap (λ x. (h.refs x).blocktype) (sym e))
  | inr other ↦ rw other (refl, refl)
]

Sits-taken_from :
    (h : Kheap) (pr : ℕ) (rest : List ℕ) (q : ℕ)
    → Sits h.refs pr q
    → Sits (taken_from h pr rest) pr q
Sits-taken_from h pr rest q s =
    let (place, type) = same_place h pr rest q in
    let (place', type') = same_place h pr rest pr in
    record {
      known = rw type s.known;
      aligned = rw place s.aligned;
      low = rw place s.low;
      high = rw place s.high;
      unique = λ e. s.unique (sym place ∙ e ∙ place');
    }

All-map : {P Q : ℕ → Type 0} (l : List ℕ) → ((q : ℕ) → P q → Q q) → All P l → All Q l
All-map [] f a = tt
All-map (q ∷ l) f (p, a) = (f q p, All-map l f a)

-- The heap is as before.
pub record Same (h h' : Kheap) : Type 0 where
  pub refs : (q : ℕ) → h'.refs q ≡ h.refs q
  pub chains : h'.sizebases ≡ h.sizebases
  pub all : h'.allbase ≡ h.allbase
  pub inuse : h'.inuse ≡ h.inuse
  pub memory : h'.memory ≡ h.memory

-- the page with one more free block
abbrev with_block : PageRef → ℕ → PageRef
with_block r off = record r { free = off ∷ r.free; nfree = r.nfree + 1 }

-- A block goes back to a page that still has others in use.
give_back_lem :
    (ptr pr : ℕ) (g : Kheap)
    → IsBlock (size_of (g.refs pr).blocktype) (ptr - (g.refs pr).pageaddr)
    → (g.refs pr).nfree + 1 < page_size / size_of (g.refs pr).blocktype
    → give_back ptr pr g
      ≡ ok (record g {
        refs = update g.refs pr (with_block (g.refs pr) (ptr - (g.refs pr).pageaddr));
      })
unfolding give_back
give_back_lem ptr pr g (inside, aligned) more =
    let fits : (ltb (ptr - (g.refs pr).pageaddr) page_size
          && (ptr - (g.refs pr).pageaddr) % size_of (g.refs pr).blocktype == 0)
        ≡ true =
      ground (arith, inside, aligned) in
    let room : leb ((g.refs pr).nfree + 1) (page_size / size_of (g.refs pr).blocktype) ≡ true =
      le→leb _ _ (omega (arith, more)) in
    let some_used : ((g.refs pr).nfree + 1 == page_size / size_of (g.refs pr).blocktype) ≡ false =
      ground (arith, more) in
    rw (fits, room, some_used) refl

restored :
    (r : PageRef) (off : ℕ) (rest : List ℕ)
    → r.free ≡ off ∷ rest
    → 0 < r.nfree
    → with_block (without_first r rest) (r.pageaddr + off - r.pageaddr) ≡ r
restored r off rest e more =
    let same_off : r.pageaddr + off - r.pageaddr ≡ off = omega arith in
    let same_count : r.nfree - 1 + 1 ≡ r.nfree = omega (arith, more) in
    ap₂ (λ (f : List ℕ) (n : ℕ). record r { free = f; nfree = n })
      (ap (λ o. o ∷ rest) same_off ∙ sym e) same_count

returned :
    (h : Kheap) (pr off : ℕ) (rest : List ℕ)
    → (h.refs pr).free ≡ off ∷ rest
    → IsPage (h.refs pr)
    → (h.refs pr).nfree < page_size / size_of (h.refs pr).blocktype
    → IsBlock (size_of (h.refs pr).blocktype) off
    → (h'' : Kheap) × (give_back
          ((h.refs pr).pageaddr + off)
          pr
          (record h { refs = taken_from h pr rest })
        ≡ ok h'')
      × Same h h''
returned h pr off rest e p busy block = (
  record g { refs = update g.refs pr (with_block (g.refs pr) (ptr - (g.refs pr).pageaddr)) },
  give_back_lem ptr pr g (rw (self, cancel) block) (rw self (omega (arith, busy, more))),
  record { refs = back; chains = refl; all = refl; inuse = refl; memory = refl },
)
  where
    ptr : ℕ
    ptr = (h.refs pr).pageaddr + off

    g : Kheap
    g = record h { refs = update h.refs pr (without_first (h.refs pr) rest) }

    self : g.refs pr ≡ without_first (h.refs pr) rest
    self = update_self h.refs pr (without_first (h.refs pr) rest)

    cancel : (h.refs pr).pageaddr + off - (h.refs pr).pageaddr ≡ off
    cancel = omega arith

    more : 0 < (h.refs pr).nfree
    more = omega (arith, p.counted, ap length e)

    back :
        (q : ℕ)
        → update g.refs pr (with_block (g.refs pr) (ptr - (g.refs pr).pageaddr)) q ≡ h.refs q
    back q = elim (Bool-cases (q == pr)) [
      | inl same ↦
          let is : q ≡ pr = ground (arith, same) in
          rw (same, self) (restored (h.refs pr) off rest e more ∙ ap h.refs (sym is))
      | inr other ↦ rw other refl
    ]

-- The page of `q` is not all free: such pages are given back at once.
abbrev pub Busy : Kheap → ℕ → Type 0
Busy h q = (h.refs q).nfree < page_size / size_of (h.refs q).blocktype

kmalloc-eq :
    (sz b pr : ℕ) (h : Kheap) (x : ℕ × Kheap)
    → sz < 2048
    → block_type sz ≡ ok b
    → pick b h.refs (h.sizebases b) ≡ ok (some pr)
    → do_alloc pr h ≡ ok x
    → kmalloc sz h ≡ ok x
unfolding kmalloc subpage_kmalloc
kmalloc-eq sz b pr h x small typed picks gives =
    let not_large : leb 2048 sz ≡ false = ground (arith, small) in
    rw (not_large, typed, picks) gives

kfree-eq :
    (ptr pr : ℕ) (h h' : Kheap)
    → 0 < ptr
    → find_ref ptr h.refs h.allbase ≡ ok (some pr)
    → give_back ptr pr h ≡ ok h'
    → kfree ptr h ≡ ok h'
unfolding kfree subpage_kfree
kfree-eq ptr pr h h' pos finds gives =
    let not_null : (ptr == 0) ≡ false = ground (arith, pos) in rw (not_null, finds, gives) refl

-- For a size below 2048 where a page of its block size has a free block, kmalloc returns a block
-- and kfree of that block leaves the heap as it was: page references, chains, free lists and
-- frames. The pages of each chain have to be well-formed and of its size, the page that is picked
-- not all free and linked, and the pages aligned, below 2 ^ 32 and different from the one picked.
pub kfree-kmalloc :
    (sz b pr : ℕ) (h : Kheap)
    → sz < 2048
    → Ready h
    → block_type sz ≡ ok b
    → b < length sizes
    → pick b h.refs (h.sizebases b) ≡ ok (some pr)
    → Busy h pr
    → elem pr h.allbase ≡ true
    → Sits h.refs pr pr
    → All (Sits h.refs pr) h.allbase
    → (a : ℕ) × (h' : Kheap) × (h'' : Kheap) × (kmalloc sz h ≡ ok (a, h'))
      × (kfree a h' ≡ ok h'')
      × Same h h''
kfree-kmalloc sz b pr h small ready typed known picks busy linked own all =
    let (page, is, more, there) =
      subst (Picks b h.refs (h.sizebases b)) picks
        (pick_lem b h.refs (h.sizebases b) (ready b known)) in
    let (off, rest, e) = free_cases (h.refs pr).free (omega (arith, page.counted, more)) in
    let blocks : All (IsBlock (size_of (h.refs pr).blocktype)) (off ∷ rest) =
      subst (All (IsBlock (size_of (h.refs pr).blocktype))) e page.blocks in
    let (h'', gives, same) = returned h pr off rest e page busy blocks.0 in
    let (place, type) = same_place h pr rest pr in
    let finds : find_ref ((h.refs pr).pageaddr + off) (taken_from h pr rest) h.allbase
        ≡ ok (some pr) =
      find_ref_lem ((h.refs pr).pageaddr + off) pr (taken_from h pr rest) h.allbase
        (All-map h.allbase (Sits-taken_from h pr rest) all) (Sits-taken_from h pr rest pr own)
        linked (omega (arith, place)) (omega (arith, place, blocks.0.0)) in
    (
      (h.refs pr).pageaddr + off,
      record h { refs = taken_from h pr rest },
      h'',
      kmalloc-eq sz b pr h _ small typed picks (take_block_lem pr h off rest e page),
      kfree-eq _ pr _ h'' (omega (arith, own.low)) finds gives,
      same,
    )
