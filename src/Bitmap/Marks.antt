-- ===== src/Bitmap/Marks.antt =====
-- `bitmap_mark` and `bitmap_unmark` against the set of bits that are set.
use mips_os.Common.{
  length-set, sym, ◌+◌, ℕ, ◌/◌, ◌%◌, ◌≡◌, ◌<◌, refl, ap, ◌∙◌, Bool, true, false, not, ◌||◌, ◌&&◌,
  Bool-cases, length, get_or, set, get_or-set, ltb, ◌==◌, lt→ltb, if◌then◌else◌, Outcome, ok, panic,
  arith, inl, inr,
}
use mips_os.Bitmap.{Bitmap, has_bit, with_bit, without_bit, isset, mark, unmark}
use mips_os.Bitmap.Bytes.{without_bit_byte, has_bit-without_bit}
use mips_os.Bitmap.Alloc.{IsValid, isset-stored}

-- What a call may leave: an assertion fails where the bit already is `to`; else just it becomes so.
abbrev pub Becomes : (to : Bool) → Bitmap → ℕ → Outcome Bitmap → Type 0
Becomes to b index panic = isset b index ≡ to
Becomes to b index (ok b') =
    (isset b index ≡ not to)
    × ((k : ℕ) → isset b' k ≡ (if k == index then to else isset b k))
    × (b'.nbits ≡ b.nbits)

in_words : (b : Bitmap) (index : ℕ) → IsValid b → index < b.nbits → index / 8 < length b.v
in_words b index v lt = omega (arith, v.words, lt)

isset-cleared :
    (b b' : Bitmap) (index : ℕ)
    → IsValid b
    → index / 8 < length b.v
    → b'.v ≡ set b.v (index / 8) (without_bit (get_or b.v (index / 8) 0) (index % 8))
    → (k : ℕ) → isset b' k ≡ (not (k == index) && isset b k)
unfolding isset
isset-cleared b b' index v there stored k = elim (Bool-cases (index / 8 == k / 8)) [
  | inl same ↦
      let i : ℕ = index / 8 in
      let q : k / 8 ≡ index / 8 = ground (arith, same) in
      let here : ltb (index / 8) (length b.v) ≡ true = lt→ltb _ _ there in
      let self : (index / 8 == index / 8) ≡ true = ground arith in
      let bits : (k % 8 == index % 8) ≡ (k == index) = ground (arith, q) in
      rw (stored, q, get_or-set b.v i i (without_bit (get_or b.v i 0) (index % 8)) 0, self, here)
        (has_bit-without_bit (get_or b.v i 0) (index % 8) (k % 8) (v.bytes i) (omega arith)
            (omega arith)
          ∙ ap (λ t. not t && has_bit (get_or b.v i 0) (k % 8)) bits)
  | inr other ↦
      let i : ℕ = index / 8 in
      let away : (k == index) ≡ false = ground (arith, other) in
      rw
        (stored, get_or-set b.v i (k / 8) (without_bit (get_or b.v i 0) (index % 8)) 0, other, away)
        refl
]

-- On a valid bitmap and an index below nbits, the assertions of bitmap_mark hold just where the
-- bit is clear, and the call then sets that bit and no other.
pub mark_lem :
    (b : Bitmap) (index : ℕ) → IsValid b → index < b.nbits → Becomes true b index (mark b index)
unfolding mark
mark_lem b index v lt = elim (Bool-cases (isset b index)) [
  | inl on ↦ rw (lt→ltb _ _ lt, on) on
  | inr off ↦ rw (lt→ltb _ _ lt, off) (off, (λ k. bits k), refl)
]
  where
    after : Bitmap
    after = record b { v = set b.v (index / 8) (with_bit (get_or b.v (index / 8) 0) (index % 8)) }

    either : (t u : Bool) → (t || u) ≡ (if t then true else u)
    either true u = refl
    either false u = refl

    bits : (k : ℕ) → isset after k ≡ (if k == index then true else isset b k)
    bits k =
        isset-stored b after index (index / 8) (index % 8) v (in_words b index v lt) (omega arith)
          (omega arith) refl k
        ∙ either (k == index) (isset b k)

-- On a valid bitmap and an index below nbits, the assertions of bitmap_unmark hold just where the
-- bit is set, and the call then clears that bit and no other.
unmark_lem :
    (b : Bitmap) (index : ℕ) → IsValid b → index < b.nbits → Becomes false b index (unmark b index)
unfolding unmark
unmark_lem b index v lt = elim (Bool-cases (isset b index)) [
  | inr off ↦ rw (lt→ltb _ _ lt, off) off
  | inl on ↦ rw (lt→ltb _ _ lt, on) (on, (λ k. bits k), refl)
]
  where
    after : Bitmap
    after = record b {
      v = set b.v (index / 8) (without_bit (get_or b.v (index / 8) 0) (index % 8));
    }

    neither : (t u : Bool) → (not t && u) ≡ (if t then false else u)
    neither true u = refl
    neither false u = refl

    bits : (k : ℕ) → isset after k ≡ (if k == index then false else isset b k)
    bits k =
        isset-cleared b after index v (in_words b index v lt) refl k
        ∙ neither (k == index) (isset b k)

cleared-IsValid :
    (b b' : Bitmap) (index : ℕ)
    → IsValid b
    → index < b.nbits
    → b'.v ≡ set b.v (index / 8) (without_bit (get_or b.v (index / 8) 0) (index % 8))
    → b'.nbits ≡ b.nbits
    → ((k : ℕ) → isset b' k ≡ (not (k == index) && isset b k))
    → IsValid b'
cleared-IsValid b b' index v lt is size bits = record {
  words = ap length is ∙ same_length ∙ v.words ∙ ap (λ n. (n + 7) / 8) (sym size);
  bytes = λ j.
      rw (is, get_or-set b.v (index / 8) j (without_bit (get_or b.v (index / 8) 0) (index % 8)) 0)
        (elim (Bool-cases (index / 8 == j && ltb j (length b.v))) [
          | inl here ↦ rw here (
              without_bit_byte (get_or b.v (index / 8) 0) (index % 8) (v.bytes (index / 8))
                (omega arith))
          | inr other ↦ rw other (v.bytes j)
        ]);
  over = λ k le small. ground (
    arith,
    bits k,
    lt,
    v.over k (omega (arith, le, size)) (omega (arith, small, ap length is, same_length)),
  );
}
  where
    same_length :
        length (set b.v (index / 8) (without_bit (get_or b.v (index / 8) 0) (index % 8)))
        ≡ length b.v
    same_length = length-set b.v (index / 8) (without_bit (get_or b.v (index / 8) 0) (index % 8))

-- A set bit is cleared, and the bitmap is valid again.
pub unmark-ok :
    (b : Bitmap) (index : ℕ)
    → IsValid b
    → index < b.nbits
    → isset b index ≡ true
    → (b' : Bitmap) × (unmark b index ≡ ok b')
      × IsValid b'
      × (b'.nbits ≡ b.nbits)
      × ((k : ℕ) → isset b' k ≡ (not (k == index) && isset b k))
unfolding unmark
unmark-ok b index v lt on = (
  after,
  rw (lt→ltb _ _ lt, on) refl,
  cleared-IsValid b after index v lt refl refl bits,
  refl,
  bits,
)
  where
    after : Bitmap
    after = record b {
      v = set b.v (index / 8) (without_bit (get_or b.v (index / 8) 0) (index % 8));
    }

    bits : (k : ℕ) → isset after k ≡ (not (k == index) && isset b k)
    bits k = isset-cleared b after index v (in_words b index v lt) refl k
