-- ===== src/Tests/Bits.antt =====
-- kern/lib/bitmap.c at small inputs.
use mips_os.Common.{
  ℕ, zero, suc, ◌<◌, ◌≤◌, ◌≡◌, refl, true, some, [], ◌∷◌, get_or, ok, arith, all_below,
  all_below_sound, ltb, ◌||◌, ◌*◌,
}
use mips_os.Bitmap
use mips_os.Bitmap.{Bitmap, isset, mark_over}
use mips_os.Bitmap.Alloc
use mips_os.Bitmap.Alloc.{Allocated}

-- 12 bits, of which the first 9 are set
abbrev half_full : Bitmap
half_full = record { nbits = 12; v = 255 ∷ 241 ∷ [] }

created : Bitmap.create true true 12 ≡ ok (some (record { nbits = 12; v = 0 ∷ 240 ∷ [] }))
unfolding Bitmap.create mark_over
created = refl

allocated_bit : Bitmap.alloc half_full ≡ ok (0, 9, record { nbits = 12; v = 255 ∷ 243 ∷ [] })
unfolding Bitmap.alloc Bitmap.alloc_from Bitmap.clear_offset
allocated_bit = refl

past_end : all_below 16 (λ k. ltb k 12 || isset half_full k) ≡ true
unfolding all_below isset
past_end = refl

half_full-IsValid : Alloc.IsValid half_full
half_full-IsValid = record { words = omega arith; bytes = bytes; over = over }
  where
    bytes : (i : ℕ) → get_or half_full.v i 0 < 256
    bytes zero = omega arith
    bytes (suc zero) = omega arith
    bytes (suc (suc i)) = omega arith

    over : (k : ℕ) → 12 ≤ k → k < 2 * 8 → isset half_full k ≡ true
    over k le lt = ground (arith, all_below_sound 16 _ k past_end lt, le)
