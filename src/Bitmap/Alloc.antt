-- ===== src/Bitmap/Alloc.antt =====
-- `bitmap_alloc` and `bitmap_mark` against the set of bits that are set.
use mips_os.Common.{
  lt_or_le, ltb→lt, ℕ, zero, suc, ◌+◌, ◌*◌, ◌/◌, ◌%◌, ◌≡◌, ◌<◌, ◌≤◌, ◌≢◌, refl, ap, ◌∙◌, true,
  false, ◌||◌, ◌&&◌, Bool-cases, Option, none, some, List, [], ◌∷◌, length, length-set, sym, get_or,
  set, get_or-set, ltb, ◌==◌, lt→ltb, Outcome, ok, panic, ◌>>=◌, ◌>>◌, assert, enospc, arith, inl,
  inr,
}
use mips_os.Bitmap.{Bitmap, has_bit, with_bit, alloc_from, alloc, isset}
use mips_os.Bitmap.Bytes.{
  has_bit-with_bit, has_bit-full, with_bit_byte, IsFirst, First, clear_offset-First,
}

-- The bytes of a bitmap that holds `nbits` bits: the bits past these are set.
pub record IsValid (b : Bitmap) : Type 0 where
  pub words : length b.v ≡ (b.nbits + 7) / 8
  pub bytes : (i : ℕ) → get_or b.v i 0 < 256
  pub over : (k : ℕ) → b.nbits ≤ k → k < length b.v * 8 → isset b k ≡ true

-- what the loop finds from word `ix` on
record Chosen (ix index : ℕ) (v v' : List ℕ) : Type 0 where
  i : ℕ
  o : ℕ
  there : i < length v
  first : IsFirst (get_or v i 0) o
  is : index ≡ (ix + i) * 8 + o
  full : (j : ℕ) → j < i → get_or v j 0 ≡ 255
  stored : v' ≡ set v i (with_bit (get_or v i 0) o)

abbrev Chooses : (ix : ℕ) → List ℕ → Outcome (Option (ℕ × List ℕ)) → Type 0
Chooses ix v panic = ⊥
Chooses ix v (ok none) = (i : ℕ) → i < length v → get_or v i 0 ≡ 255
Chooses ix v (ok (some (index, v'))) = Chosen ix index v v'

full-cons :
    (w : ℕ) (ws : List ℕ) (n : ℕ)
    → w ≡ 255
    → ((j : ℕ) → j < n → get_or ws j 0 ≡ 255)
    → (j : ℕ) → j < suc n
    → get_or (w ∷ ws) j 0 ≡ 255
full-cons w ws n e rest zero lt = e
full-cons w ws n e rest (suc j) lt = rest j (omega (arith, lt))

Chooses-cons :
    (ix w : ℕ) (ws : List ℕ) (r : Outcome (Option (ℕ × List ℕ)))
    → w ≡ 255
    → Chooses (ix + 1) ws r
    → Chooses ix
        (w ∷ ws)
        (r >>= λ r'. elim r' [ none ↦ ok none | some x ↦ ok (some (x.0, w ∷ x.1)) ])
Chooses-cons ix w ws panic e h = h
Chooses-cons ix w ws (ok none) e h = full-cons w ws (length ws) e h
Chooses-cons ix w ws (ok (some (index, v'))) e c = record {
  i = suc c.i;
  o = c.o;
  there = omega (arith, c.there);
  first = c.first;
  is = omega (arith, c.is);
  full = full-cons w ws c.i e c.full;
  stored = ap (λ l. w ∷ l) c.stored;
}

Chooses-here :
    (ix w : ℕ) (ws : List ℕ) (r : Option ℕ)
    → w ≢ 255
    → First w r
    → Chooses ix (w ∷ ws) (elim r [
      | none ↦ panic
      | some offset ↦ ok (some (ix * 8 + offset, with_bit w offset ∷ ws))
    ])
Chooses-here ix w ws none ne h = ne h
Chooses-here ix w ws (some o) ne h = record {
  i = 0;
  o = o;
  there = omega arith;
  first = h;
  is = omega arith;
  full = λ j lt. absurd (omega (arith, lt));
  stored = refl;
}

alloc_from_lem :
    (ix : ℕ) (v : List ℕ) → ((i : ℕ) → get_or v i 0 < 256) → Chooses ix v (alloc_from ix v)
unfolding alloc_from
alloc_from_lem ix [] bytes = λ i lt. absurd (omega (arith, lt))
alloc_from_lem ix (w ∷ ws) bytes = elim (Bool-cases (w == 255)) [
  | inl full ↦ rw full (
      Chooses-cons ix w ws _ (ground (arith, full))
        (alloc_from_lem (ix + 1) ws (λ i. bytes (suc i))))
  | inr some_clear ↦
      rw some_clear (
        Chooses-here ix w ws _ (λ e. ground (arith, some_clear, e))
          (clear_offset-First w (bytes 0)))
]

-- what `bitmap_alloc` leaves
abbrev pub Allocated : Bitmap → Outcome (ℕ × ℕ × Bitmap) → Type 0
Allocated b panic = ⊥
Allocated b (ok (suc e, index, b')) =
    (suc e ≡ enospc) × (b' ≡ b) × ((k : ℕ) → k < b.nbits → isset b k ≡ true)
Allocated b (ok (zero, index, b')) =
    (index < b.nbits)
    × (isset b index ≡ false)
    × ((k : ℕ) → k < index → isset b k ≡ true)
    × ((k : ℕ) → isset b' k ≡ (k == index || isset b k))
    × (b'.nbits ≡ b.nbits)
    × IsValid b'

isset-at : (b : Bitmap) (k i o : ℕ) → o < 8 → k ≡ i * 8 + o → isset b k ≡ has_bit (get_or b.v i 0) o
unfolding isset
isset-at b k i o lt e =
    let q : k / 8 ≡ i = omega (arith, lt, e) in
    let r : k % 8 ≡ o = omega (arith, lt, e) in rw (q, r)

-- the bits after the write
pub isset-stored :
    (b b' : Bitmap) (index i o : ℕ)
    → IsValid b
    → i < length b.v
    → o < 8
    → index ≡ i * 8 + o
    → b'.v ≡ set b.v i (with_bit (get_or b.v i 0) o)
    → (k : ℕ) → isset b' k ≡ (k == index || isset b k)
unfolding isset
isset-stored b b' index i o v there small is stored k = elim (Bool-cases (i == k / 8)) [
  | inl same ↦
      let q : k / 8 ≡ i = ground (arith, same) in
      let here : ltb i (length b.v) ≡ true = lt→ltb _ _ there in
      let self : (i == i) ≡ true = ground arith in
      let bits : (k % 8 == o) ≡ (k == index) = ground (arith, q, is, small) in
      rw (stored, q, get_or-set b.v i i (with_bit (get_or b.v i 0) o) 0, self, here)
        (has_bit-with_bit (get_or b.v i 0) o (k % 8) (v.bytes i) small (omega arith)
          ∙ ap (λ t. t || has_bit (get_or b.v i 0) (k % 8)) bits)
  | inr other ↦
      let away : (k == index) ≡ false = ground (arith, other, is, small) in
      rw (stored, get_or-set b.v i (k / 8) (with_bit (get_or b.v i 0) o) 0, other, away) refl
]

stored-IsValid :
    (b b' : Bitmap) (index i o : ℕ)
    → IsValid b
    → i < length b.v
    → o < 8
    → b'.v ≡ set b.v i (with_bit (get_or b.v i 0) o)
    → b'.nbits ≡ b.nbits
    → ((k : ℕ) → isset b' k ≡ (k == index || isset b k))
    → IsValid b'
stored-IsValid b b' index i o v there small is size bits = record {
  words =
      ap length is
      ∙ length-set b.v i (with_bit (get_or b.v i 0) o)
      ∙ v.words
      ∙ ap (λ n. (n + 7) / 8) (sym size);
  bytes = λ j.
      rw (is, get_or-set b.v i j (with_bit (get_or b.v i 0) o) 0)
        (elim (Bool-cases (i == j && ltb j (length b.v))) [
          | inl here ↦ rw here (with_bit_byte (get_or b.v i 0) o (v.bytes i) small)
          | inr other ↦ rw other (v.bytes j)
        ]);
  over = λ k le lt. ground (
    arith,
    bits k,
    v.over k (omega (arith, le, size))
        (omega (arith, lt, ap length is, length-set b.v i (with_bit (get_or b.v i 0) o))),
  );
}

allocated :
    (b : Bitmap) (r : Outcome (Option (ℕ × List ℕ)))
    → IsValid b
    → Chooses 0 b.v r
    → Allocated b (
        r >>= λ r'. elim r' [
          | none ↦ ok (enospc, 0, b)
          | some x ↦ assert (ltb x.0 b.nbits) >> ok (0, x.0, record b { v = x.1 })
        ])
allocated b panic v h = h
allocated b (ok none) v h = (refl, refl, all)
  where
    all : (k : ℕ) → k < b.nbits → isset b k ≡ true
    all k lt =
        isset-at b k (k / 8) (k % 8) (omega arith) (omega arith)
        ∙ rw (h (k / 8) (omega (arith, lt, v.words))) (has_bit-full (k % 8) (omega arith))
allocated b (ok (some (index, v'))) v c = elim (Bool-cases (ltb index b.nbits)) [
  | inl inside ↦ rw inside (
    ltb→lt index b.nbits inside,
    clear,
    lower,
    isset-stored b (record b { v = v' }) index c.i c.o v c.there c.first.inside at_i c.stored,
    refl,
    stored-IsValid b (record b { v = v' }) index c.i c.o v c.there c.first.inside c.stored refl
        (isset-stored b (record b { v = v' }) index c.i c.o v c.there c.first.inside at_i c.stored),
  )
  | inr past ↦ cc (v.over index (ground (arith, past)) in_words, clear)
]
  where
    at_i : index ≡ c.i * 8 + c.o
    at_i = omega (arith, c.is)

    in_words : index < length b.v * 8
    in_words = omega (arith, at_i, c.there, c.first.inside)

    clear : isset b index ≡ false
    clear = isset-at b index c.i c.o c.first.inside at_i ∙ c.first.clear

    lower : (k : ℕ) → k < index → isset b k ≡ true
    lower k lt = elim (lt_or_le (k / 8) c.i) [
      | inl below ↦
          isset-at b k (k / 8) (k % 8) (omega arith) (omega arith)
          ∙ rw (c.full (k / 8) below) (has_bit-full (k % 8) (omega arith))
      | inr le ↦
          isset-at b k c.i (k % 8) (omega arith) (omega (arith, le, lt, at_i, c.first.inside))
          ∙ c.first.before (k % 8) (omega (arith, le, lt, at_i, c.first.inside))
    ]

-- On a valid bitmap bitmap_alloc never fails an assertion. It reports 0 with the lowest clear
-- index, below nbits, and sets just that bit, in a bitmap that is valid again; or it reports
-- ENOSPC, only where all bits are set, and the bitmap is as before.
pub alloc_lem : (b : Bitmap) → IsValid b → Allocated b (alloc b)
unfolding alloc
alloc_lem b v = allocated b (alloc_from 0 b.v) v (alloc_from_lem 0 b.v v.bytes)
