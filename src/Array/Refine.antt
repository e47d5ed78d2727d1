-- ===== src/Array/Refine.antt =====
-- array.c against the list of the pointers that the array holds.
use mathlib.Core.Option
use mips_os.Common.{
  ℕ, zero, suc, ◌+◌, ◌-◌, ◌<◌, ◌≡◌, refl, sym, ap, ◌∙◌, arith, ltb, le→leb, if◌then◌else◌, Bool,
  Option, none, some, List, [], ◌∷◌, ◌++◌, length, get_or, set, take, length-set, get_or-take,
  take-set_of_lt, take-set_snoc, take-take_of_le, take-take_comm, lt→ltb, ◌>>=◌, erase_at, Outcome,
  ok, panic,
}
use mips_os.Array.{Array, cells, getguy, setsize, setguy, after_setsize, add, memmove, remove}
use mips_os.Array.Memory.{length-memmove, take-memmove}
use mips_os.Array.Size.{contents, IsValid, length-contents, Reports, Resized, setsize_lem}

module _ {A : Type 0} where
  cells-set :
      (v : Option (List (Option A))) (i : ℕ) (x : A)
      → cells (Option.map (λ l. set l i (some x)) v) ≡ set (cells v) i (some x)
  cells-set none i x = refl
  cells-set (some l) i x = refl

  cells-memmove :
      (v : Option (List (Option A))) (i j n : ℕ)
      → 0 < length (cells v)
      → cells (Option.map (λ l. memmove l i j n) v) ≡ memmove (cells v) i j n
  cells-memmove none i j n h = absurd (omega arith)
  cells-memmove (some l) i j n h = refl

  after_setsize_lem :
      (mem : Bool) (a : Array A) (guy : A) (r : Outcome (ℕ × Array A))
      → IsValid a
      → Reports mem a (Resized a (a.num + 1)) r
      → Reports mem a
          (λ b. IsValid b × (contents b ≡ contents a ++ (some guy ∷ [])))
          (r >>= after_setsize a.num guy)
  unfolding after_setsize
  after_setsize_lem mem a guy panic w h = h
  after_setsize_lem mem a guy (ok (suc e, b)) w h = h
  after_setsize_lem mem a guy (ok (zero, b)) w (v, size, kept) = rw (cells-set b.v a.num guy) (
    record {
      fits = v.fits;
      owned = omega (
        arith,
        v.owned,
        ap length (cells-set b.v a.num guy),
        length-set (cells b.v) a.num (some guy),
      );
    },
    ap (λ n. take n (set (cells b.v) a.num (some guy))) {y = suc a.num} (omega (arith, size))
        ∙ take-set_snoc a.num (cells b.v) (some guy) (omega (arith, size, v.fits, v.owned))
        ∙ ap (λ l. l ++ (some guy ∷ [])) same,
  )
    where
      same : take a.num (cells b.v) ≡ contents a
      same =
          sym (take-take_of_le a.num b.num (cells b.v) (omega (arith, size)))
          ∙ kept
          ∙ take-take_comm (a.num + 1) a.num (cells a.v)
          ∙ take-take_of_le a.num (a.num + 1) (cells a.v) (omega arith)

  -- On a valid array array_add never fails an assertion. It reports 0 and leaves a valid array
  -- with the pointer behind the others; or it reports ENOMEM, which happens only without memory,
  -- and the array is as before.
  pub add_lem :
      (mem : Bool) (a : Array A) (guy : A)
      → IsValid a
      → Reports mem a
          (λ b. IsValid b × (contents b ≡ contents a ++ (some guy ∷ [])))
          (add mem a guy)
  unfolding add
  add_lem mem a guy w =
      after_setsize_lem mem a guy (setsize mem a (a.num + 1)) w (setsize_lem mem a (a.num + 1) w)

  -- On a valid array and an index in range array_remove returns, and leaves a valid array without
  -- the pointer at that index, the others in order.
  pub remove_lem :
      (a : Array A) (index : ℕ)
      → IsValid a
      → index < a.num
      → (b : Array A) × (remove a index ≡ ok b)
        × IsValid b
        × (contents b ≡ erase_at (contents a) index)
  unfolding remove
  remove_lem a index w h = (
    record a { num = a.num - 1; v = Option.map (λ l. memmove l index (index + 1) nmove) a.v },
    rw (le→leb _ _ w.fits, lt→ltb _ _ h),
    record {
      fits = omega (arith, w.fits);
      owned =
          ap length moved
          ∙ length-memmove (cells a.v) index nmove (omega (arith, w.fits, w.owned))
          ∙ w.owned;
    },
    rw moved (
        shifted
        ∙ ap (λ n. erase_at (take n (cells a.v)) index) {x = suc (index + nmove)} {y = a.num}
            (omega arith)),
  )
    where
      nmove : ℕ
      nmove = a.num - (index + 1)

      shifted :
          take (a.num - 1) (memmove (cells a.v) index (index + 1) nmove)
          ≡ erase_at (take (suc (index + nmove)) (cells a.v)) index
      shifted =
          let e : a.num - 1 ≡ index + nmove = omega arith in
          rw e (take-memmove (cells a.v) index nmove (omega (arith, w.fits, w.owned)))

      moved :
          cells (Option.map (λ l. memmove l index (index + 1) nmove) a.v)
          ≡ memmove (cells a.v) index (index + 1) nmove
      moved = cells-memmove a.v index (index + 1) nmove (omega (arith, w.fits, w.owned))

  -- `array_getguy` reads the list at `index` and panics outside it.
  pub getguy_lem :
      (a : Array A) (index : ℕ)
      → IsValid a
      → getguy a index
        ≡ (if ltb index (length (contents a)) then ok (get_or (contents a) index none) else panic)
  unfolding getguy
  getguy_lem a index w = ground (arith, length-contents w, get_or-take a.num (cells a.v) index none)

  -- `array_setguy` writes the list at `index` and panics outside it.
  pub setguy_lem :
      (a : Array A) (index : ℕ) (ptr : A)
      → IsValid a
      → index < a.num
      → (b : Array A) × (setguy a index ptr ≡ ok b)
        × IsValid b
        × (contents b ≡ set (contents a) index (some ptr))
  unfolding setguy
  setguy_lem a index ptr w h = (
    record a { v = Option.map (λ l. set l index (some ptr)) a.v },
    rw (le→leb _ _ w.fits, lt→ltb _ _ h),
    record {
      fits = w.fits;
      owned =
          ap length (cells-set a.v index ptr) ∙ length-set (cells a.v) index (some ptr) ∙ w.owned;
    },
    rw (cells-set a.v index ptr) (take-set_of_lt a.num (cells a.v) index (some ptr) h),
  )
