-- ===== src/Kheap/Fresh.antt =====
-- The block sizes, and a page that is cut into blocks of one size.
use mips_os.Common.{
  ℕ, zero, suc, ◌-◌, ◌*◌, ◌/◌, ◌%◌, ◌≡◌, ◌<◌, ◌≤◌, refl, sym, ap, true, false, ◌&&◌, ltb, leb, ◌==◌,
  ◌⊎◌, length, Outcome, ok, panic, arith, all_below, all_below_sound,
}
use native.Mathlib.Nat.{mul-mod_left}
use mips_os.Coremap.{page_size}
use mips_os.Kheap.{PageRef, sizes, size_of, blocktype_from, block_type, fresh_list}
use mips_os.Kheap.Chains.{All, elem, Distinct, IsBlock, IsPage}

-- The least size that is large enough: the size before it, if there is one, is too small.
abbrev pub IsLeast : (sz b : ℕ) → Type 0
IsLeast sz b = (sz ≤ size_of b) × ((b ≡ 0) ⊎ (size_of (b - 1) < sz))

abbrev pub Fits : (sz : ℕ) → Outcome ℕ → Type 0
Fits sz panic = ⊥
Fits sz (ok b) = (b < length sizes) × IsLeast sz b

pub block_type-Fits : (sz : ℕ) → sz ≤ 2048 → Fits sz (block_type sz)
unfolding block_type blocktype_from
block_type-Fits sz h = ground arith

pub fresh_above : (n size x : ℕ) → 0 < size → n * size ≤ x → elem x (fresh_list n size) ≡ false
unfolding fresh_list
fresh_above zero size x pos le = refl
fresh_above (suc n) size x pos le =
    let rest : elem x (fresh_list n size) ≡ false = fresh_above n size x pos (grind arith) in
    let differ : (x == n * size) ≡ false = grind arith in rw (differ, rest) refl

pub fresh-Distinct : (n size : ℕ) → 0 < size → Distinct (fresh_list n size)
unfolding fresh_list
fresh-Distinct zero size pos = tt
fresh-Distinct (suc n) size pos =
    (fresh_above n size (n * size) pos (omega arith), fresh-Distinct n size pos)

pub length-fresh_list : (n size : ℕ) → length (fresh_list n size) ≡ n
unfolding fresh_list
length-fresh_list zero size = refl
length-fresh_list (suc n) size = ap suc (length-fresh_list n size)

pub fresh-IsBlock :
    (n size : ℕ) → 0 < size → n * size ≤ page_size → All (IsBlock size) (fresh_list n size)
unfolding fresh_list
fresh-IsBlock zero size pos le = tt
fresh-IsBlock (suc n) size pos le =
    ((grind arith, mul-mod_left n size), fresh-IsBlock n size pos (grind arith))

pub fits_page :
    all_below 8 (λ b.
      ltb 0 (size_of b)
      && leb (page_size / size_of b * size_of b) page_size
      && ltb 0 (page_size / size_of b))
    ≡ true
unfolding all_below
fits_page = refl

-- the size of a known type: it is positive, and a page has room for its blocks
pub record IsSize (size : ℕ) : Type 0 where
  pub positive : 0 < size
  pub room : page_size / size * size ≤ page_size
  pub some_fit : 0 < page_size / size

pub size_of-IsSize : (b : ℕ) → b < length sizes → IsSize (size_of b)
size_of-IsSize b lt =
    let t : (ltb 0 (size_of b)
          && leb (page_size / size_of b * size_of b) page_size
          && ltb 0 (page_size / size_of b))
        ≡ true =
      all_below_sound 8 _ b fits_page lt in
    record { positive = ground (arith, t); room = ground (arith, t); some_fit = ground (arith, t) }

abbrev pub fresh_page : (prpage blktype : ℕ) → PageRef
fresh_page prpage blktype = record {
  pageaddr = prpage - prpage % page_size;
  blocktype = blktype % page_size;
  free = fresh_list (page_size / size_of blktype) (size_of blktype);
  nfree = page_size / size_of blktype;
}

pub fresh_page-IsPage :
    (prpage b : ℕ)
    → b < length sizes
    → IsPage (fresh_page prpage b) × ((fresh_page prpage b).blocktype ≡ b)
fresh_page-IsPage prpage b lt =
    let z : IsSize (size_of b) = size_of-IsSize b lt in
    let e : b % page_size ≡ b = omega (arith, lt) in
    (
      record {
        known = omega (arith, lt);
        counted = sym (length-fresh_list (page_size / size_of b) (size_of b));
        blocks = rw e (fresh-IsBlock (page_size / size_of b) (size_of b) z.positive z.room);
        distinct = fresh-Distinct (page_size / size_of b) (size_of b) z.positive;
        bounded = rw e (omega arith);
      },
      e,
    )
