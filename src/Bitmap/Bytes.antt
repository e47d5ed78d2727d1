-- ===== src/Bitmap/Bytes.antt =====
-- The bits of a byte, by table.
use mips_os.Common.{
  ℕ, ◌<◌, ◌≡◌, refl, Bool, true, false, not, ◌||◌, ◌&&◌, ltb, ◌==◌, Option, none, some, all_below,
  all_below_sound, arith, ltb→lt,
}
use mips_os.Bitmap.{has_bit, with_bit, without_bit, clear_offset}

-- two tests agree
abbrev pub agree : Bool → Bool → Bool
agree true b = b
agree false b = not b

pub agree→eq : (a b : Bool) → agree a b ≡ true → a ≡ b
agree→eq true true h = refl
agree→eq true false h = cc h
agree→eq false true h = cc h
agree→eq false false h = refl

written :
    all_below 256 (λ w. all_below 8 (λ o. all_below 8 (λ k.
      agree (has_bit (with_bit w o) k) (k == o || has_bit w k)
      && agree (has_bit (without_bit w o) k) (not (k == o) && has_bit w k))))
    ≡ true
unfolding all_below
written = refl

byte :
    all_below 256 (λ w. all_below 8 (λ o. ltb (with_bit w o) 256 && ltb (without_bit w o) 256))
    ≡ true
unfolding all_below
byte = refl

-- the first clear bit of a byte that is not full
abbrev found_ok : ℕ → Option ℕ → Bool
found_ok w none = w == 255
found_ok w (some o) = ltb o 8 && not (has_bit w o) && all_below o (λ k. has_bit w k)

found : all_below 256 (λ w. found_ok w (clear_offset 8 0 w)) ≡ true
unfolding all_below clear_offset
found = refl

full : all_below 8 (λ k. has_bit 255 k) ≡ true
unfolding all_below
full = refl

both : (a b : Bool) → a && b ≡ true → (a ≡ true) × (b ≡ true)
both true true h = (refl, refl)
both true false h = cc h
both false b h = cc h

pub has_bit-with_bit :
    (w o k : ℕ) → w < 256 → o < 8 → k < 8 → has_bit (with_bit w o) k ≡ (k == o || has_bit w k)
has_bit-with_bit w o k hw ho hk = agree→eq _ _ (
    (both _ _
      (all_below_sound 8 _ k (all_below_sound 8 _ o (all_below_sound 256 _ w written hw) ho) hk)).0)

pub has_bit-without_bit :
    (w o k : ℕ)
    → w < 256
    → o < 8
    → k < 8
    → has_bit (without_bit w o) k ≡ (not (k == o) && has_bit w k)
has_bit-without_bit w o k hw ho hk = agree→eq _ _ (
    (both _ _
      (all_below_sound 8 _ k (all_below_sound 8 _ o (all_below_sound 256 _ w written hw) ho) hk)).1)

pub with_bit_byte : (w o : ℕ) → w < 256 → o < 8 → with_bit w o < 256
with_bit_byte w o hw ho =
    ltb→lt (with_bit w o) 256
      (both _ _ (all_below_sound 8 _ o (all_below_sound 256 _ w byte hw) ho)).0

pub without_bit_byte : (w o : ℕ) → w < 256 → o < 8 → without_bit w o < 256
without_bit_byte w o hw ho =
    ltb→lt (without_bit w o) 256
      (both _ _ (all_below_sound 8 _ o (all_below_sound 256 _ w byte hw) ho)).1

pub has_bit-full : (k : ℕ) → k < 8 → has_bit 255 k ≡ true
has_bit-full k hk = all_below_sound 8 _ k full hk

-- the first clear bit, of a byte that has one
pub record IsFirst (w o : ℕ) : Type 0 where
  pub inside : o < 8
  pub clear : has_bit w o ≡ false
  pub before : (k : ℕ) → k < o → has_bit w k ≡ true

negated : (b : Bool) → not b ≡ true → b ≡ false
negated true h = cc h
negated false h = refl

abbrev pub First : (w : ℕ) → Option ℕ → Type 0
First w none = w ≡ 255
First w (some o) = IsFirst w o

found_lem : (w : ℕ) (r : Option ℕ) → found_ok w r ≡ true → First w r
found_lem w none h = ground (arith, h)
found_lem w (some o) h =
    let (front, before) = both _ _ h in
    let (inside, clear) = both _ _ front in
    record {
      inside = ltb→lt o 8 inside;
      clear = negated _ clear;
      before = λ k lt. all_below_sound o _ k before lt;
    }

pub clear_offset-First : (w : ℕ) → w < 256 → First w (clear_offset 8 0 w)
clear_offset-First w hw = found_lem w (clear_offset 8 0 w) (all_below_sound 256 _ w found hw)
