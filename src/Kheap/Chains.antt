-- ===== src/Kheap/Chains.antt =====
-- Pages with a proper list of free blocks, and the chain of the pages of one size.
use mips_os.Common.{
  ℕ, ◌+◌, ◌-◌, ◌/◌, ◌%◌, ◌≡◌, ◌<◌, ◌≤◌, refl, ap, ◌∙◌, Bool, true, false, ◌||◌, Option, none, some,
  List, [], ◌∷◌, ltb, lt→ltb, ◌==◌, length, Outcome, ok, panic, arith, inl, inr, lt_or_le,
}
use mathlib.Core.Path.{subst}
use mips_os.Coremap.{page_size}
use mips_os.Kheap.{PageRef, Kheap, sizes, size_of, update, pick, take_block, do_alloc, count_agrees}

abbrev pub All {ℓ κ} : {A : Type ℓ} → (A → Type κ) → List A → Type κ
All P [] = Unit
All P (x ∷ xs) = P x × All P xs

abbrev pub elem : ℕ → List ℕ → Bool
elem x [] = false
elem x (y ∷ ys) = x == y || elem x ys

-- no element twice
abbrev pub Distinct : List ℕ → Type 0
Distinct [] = Unit {0}
Distinct (x ∷ xs) = (elem x xs ≡ false) × Distinct xs

-- a block of the size, inside the page
abbrev pub IsBlock : (size off : ℕ) → Type 0
IsBlock size off = (off < page_size) × (off % size ≡ 0)

pub record IsPage (r : PageRef) : Type 0 where
  pub known : r.blocktype < length sizes
  pub counted : r.nfree ≡ length r.free
  pub blocks : All (IsBlock (size_of r.blocktype)) r.free
  pub distinct : Distinct r.free
  pub bounded : r.nfree ≤ page_size / size_of r.blocktype

-- the chain of the pages of one size
abbrev pub IsChain : (blktype : ℕ) → (ℕ → PageRef) → List ℕ → Type 0
IsChain blktype refs l = All (λ q. IsPage (refs q) × ((refs q).blocktype ≡ blktype)) l

-- No page of the chain has a free block.
abbrev pub Exhausted : (ℕ → PageRef) → List ℕ → Type 0
Exhausted refs l = All (λ q. (refs q).nfree ≡ 0) l

abbrev pub Picks : (blktype : ℕ) → (ℕ → PageRef) → List ℕ → Outcome (Option ℕ) → Type 0
Picks blktype refs l panic = ⊥
Picks blktype refs l (ok none) = Exhausted refs l
Picks blktype refs l (ok (some p)) =
    IsPage (refs p) × ((refs p).blocktype ≡ blktype) × (0 < (refs p).nfree) × (elem p l ≡ true)

pub Picks-cons :
    (blktype : ℕ) (refs : ℕ → PageRef) (q : ℕ) (l : List ℕ) (r : Outcome (Option ℕ))
    → (refs q).nfree ≡ 0
    → Picks blktype refs l r
    → Picks blktype refs (q ∷ l) r
Picks-cons blktype refs q l panic e h = h
Picks-cons blktype refs q l (ok none) e h = (e, h)
Picks-cons blktype refs q l (ok (some p)) e (page, b, more, there) =
    (page, b, more, ground (arith, there))

pub pick_lem :
    (blktype : ℕ) (refs : ℕ → PageRef) (l : List ℕ)
    → IsChain blktype refs l
    → Picks blktype refs l (pick blktype refs l)
unfolding pick
pick_lem blktype refs [] c = tt
pick_lem blktype refs (q ∷ l) ((page, b), c) =
    let same : ((refs q).blocktype == blktype) ≡ true = ground (arith, b) in
    elim (lt_or_le 1 ((refs q).nfree + 1)) [
      | inl more ↦
          let free : ltb 0 (refs q).nfree ≡ true = lt→ltb _ _ (omega (arith, more)) in
          rw (same, free) (page, b, omega (arith, more), ground arith)
      | inr none_left ↦
          let empty : ltb 0 (refs q).nfree ≡ false = ground (arith, none_left) in
          rw (same, empty)
            (Picks-cons blktype refs q l _ (omega (arith, none_left)) (pick_lem blktype refs l c))
    ]

-- the page without the first of its free blocks
abbrev pub without_first : PageRef → List ℕ → PageRef
without_first r rest = record r { free = rest; nfree = r.nfree - 1 }

pub counts :
    (r : PageRef) (off : ℕ) (rest : List ℕ)
    → r.free ≡ off ∷ rest
    → IsPage r
    → count_agrees rest (r.nfree - 1) ≡ true
counts r off [] e p = ground (arith, p.counted, ap length e)
counts r off (o ∷ rest) e p =
    let blocks : All (IsBlock (size_of r.blocktype)) (off ∷ o ∷ rest) =
      subst (All (IsBlock (size_of r.blocktype))) e p.blocks in
    ground (arith, p.counted, ap length e, blocks.1.0.0)

-- A page with a free block gives out the first.
pub take_block_lem :
    (pr : ℕ) (h : Kheap) (off : ℕ) (rest : List ℕ)
    → (h.refs pr).free ≡ off ∷ rest
    → IsPage (h.refs pr)
    → do_alloc pr h
      ≡ ok (
        (h.refs pr).pageaddr + off,
        record h { refs = update h.refs pr (without_first (h.refs pr) rest) },
      )
unfolding do_alloc take_block
take_block_lem pr h off rest e p =
    let blocks : All (IsBlock (size_of (h.refs pr).blocktype)) (off ∷ rest) =
      subst (All (IsBlock (size_of (h.refs pr).blocktype))) e p.blocks in
    ap (take_block pr h) e
    ∙ rw (lt→ltb off page_size blocks.0.0, counts (h.refs pr) off rest e p) refl

pub without_first-IsPage :
    (r : PageRef) (off : ℕ) (rest : List ℕ)
    → r.free ≡ off ∷ rest
    → IsPage r
    → IsPage (without_first r rest) × (elem off rest ≡ false) × IsBlock (size_of r.blocktype) off
without_first-IsPage r off rest e p =
    let blocks : All (IsBlock (size_of r.blocktype)) (off ∷ rest) =
      subst (All (IsBlock (size_of r.blocktype))) e p.blocks in
    let distinct : Distinct (off ∷ rest) = subst Distinct e p.distinct in
    (
      record {
        known = p.known;
        counted = omega (arith, p.counted, ap length e);
        blocks = blocks.1;
        distinct = distinct.1;
        bounded = omega (arith, p.bounded);
      },
      distinct.0,
      blocks.0,
    )
