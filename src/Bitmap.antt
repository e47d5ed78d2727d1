-- ===== src/Bitmap.antt =====
-- kern/lib/bitmap.c: an array of bits, in bytes.
pub mod Bytes
pub mod Alloc
pub mod Marks
use mips_os.Common.{
  ℕ, zero, suc, ◌+◌, ◌-◌, ◌*◌, ◌/◌, ◌%◌, ◌^◌, Bool, true, false, not, Option, none, some, List, [],
  ◌∷◌, ltb, ◌==◌, if◌then◌else◌, get_or, set, replicate, Outcome, ok, panic, ◌>>=◌, ◌>>◌, assert,
  enospc,
}

-- `struct bitmap`. `v` has the bytes that `bitmap_create` allocates.
pub record Bitmap : Type 0 where
  pub nbits : ℕ
  pub v : List ℕ

-- `w & mask`, `w | mask` and `w & ~mask` for `mask = 1 << offset`
abbrev pub has_bit : (w offset : ℕ) → Bool
has_bit w offset = w / 2 ^ offset % 2 == 1

abbrev pub with_bit : (w offset : ℕ) → ℕ
with_bit w offset = if has_bit w offset then w else w + 2 ^ offset

abbrev pub without_bit : (w offset : ℕ) → ℕ
without_bit w offset = if has_bit w offset then w - 2 ^ offset else w

-- `for (j = offset; j < BITS_PER_WORD; j++) w |= 1 << j;` with `rounds` to go
unfoldable pub mark_over : (rounds offset w : ℕ) → ℕ
mark_over zero offset w = w
mark_over (suc rounds) offset w = mark_over rounds (offset + 1) (with_bit w offset)

-- `mem` and `mem'` say whether the two calls of `kmalloc` return memory.
unfoldable pub create : (mem mem' : Bool) (nbits : ℕ) → Outcome (Option Bitmap)
create false mem' nbits = ok none
create true false nbits = ok none
create true true nbits =
    let words = (nbits + 7) / 8 in
    let v = replicate words 0 in
    let ix = words - 1 in
    let overbits = nbits - ix * 8 in
    if ltb (nbits / 8) words
    then (assert (nbits / 8 == words - 1)
        >> (assert (ltb 0 overbits)
            >> (assert (ltb overbits 8)
                >> ok (
                    some (record {
                      nbits = nbits;
                      v = set v ix (mark_over (8 - overbits) overbits (get_or v ix 0));
                    })))))
    else ok (some (record { nbits = nbits; v = v }))

-- The first offset from `offset` on, with `rounds` to go, whose bit is clear.
unfoldable pub clear_offset : (rounds offset w : ℕ) → Option ℕ
clear_offset zero offset w = none
clear_offset (suc rounds) offset w =
    let rest = clear_offset rounds (offset + 1) w in if has_bit w offset then rest else some offset

-- The loop of `bitmap_alloc` at word `ix`: the index and the words, or `none` at the end.
unfoldable pub alloc_from : (ix : ℕ) → List ℕ → Outcome (Option (ℕ × List ℕ))
alloc_from ix [] = ok none
alloc_from ix (w ∷ ws) =
    let rest = alloc_from (ix + 1) ws in
    if w == 255
    then (rest >>= λ r. elim r [ none ↦ ok none | some x ↦ ok (some (x.0, w ∷ x.1)) ])
    else elim (clear_offset 8 0 w) [
      | none ↦ panic
      | some offset ↦ ok (some (ix * 8 + offset, with_bit w offset ∷ ws))
    ]

-- The error number, the index, and the bitmap that the call leaves.
unfoldable pub alloc : Bitmap → Outcome (ℕ × ℕ × Bitmap)
alloc b = alloc_from 0 b.v >>= λ r. elim r [
  | none ↦ ok (enospc, 0, b)
  | some x ↦ assert (ltb x.0 b.nbits) >> ok (0, x.0, record b { v = x.1 })
]

unfoldable pub isset : Bitmap → ℕ → Bool
isset b index = has_bit (get_or b.v (index / 8) 0) (index % 8)

unfoldable pub mark : Bitmap → ℕ → Outcome Bitmap
mark b index =
    assert (ltb index b.nbits)
    >> (assert (not (isset b index))
        >> ok (record b {
          v = set b.v (index / 8) (with_bit (get_or b.v (index / 8) 0) (index % 8));
        }))

unfoldable pub unmark : Bitmap → ℕ → Outcome Bitmap
unmark b index =
    assert (ltb index b.nbits)
    >> (assert (isset b index)
        >> ok (record b {
          v = set b.v (index / 8) (without_bit (get_or b.v (index / 8) 0) (index % 8));
        }))
