-- ===== src/Array/Size.antt =====
-- The list of the pointers that an array holds, and the calls that change its size.

use mathlib.Core.Bool.{not, ◌&&◌}
use mips_os.Common.{
  ℕ, zero, suc, ◌≤◌, ◌<◌, ◌≡◌, refl, sym, ap, ◌∙◌, inl, inr, arith, ltb, le→leb, ◌==◌,
  if◌then◌else◌, Bool, true, false, Bool-cases, Option, none, some, List, length, take,
  length-replicate, length-take, take-take_of_le, take-take_comm, take-nil, ltb→lt, ◌>>=◌, ◌>>◌,
  assert, Outcome, ok, panic, enomem,
}
use mips_os.Array.{
  Array, cells, fresh_cells, grow_max, copy_cells, preallocate, setsize, is_null, after_preallocate,
}
use mips_os.Array.Bounds.{grow_max-enough, grow_max-ge}
use mips_os.Array.Memory.{take-copy_cells, length-copy_cells}

module _ {A : Type 0} where
  -- the pointers that the array holds, first to last
  abbrev pub contents : Array A → List (Option A)
  contents a = take a.num (cells a.v)

  -- the memory has `max` cells, and `num` of them are in use
  pub record IsValid (a : Array A) : Type 0 where
    pub fits : a.num ≤ a.max
    pub owned : length (cells a.v) ≡ a.max

  pub length-contents : {a : Array A} → IsValid a → length (contents a) ≡ a.num
  length-contents {a} w = omega (arith, length-take a.num (cells a.v))

  -- What a call that reports an error number leaves: on 0 the promise; an error means that
  -- there was no memory, and leaves the array as it was.
  abbrev pub Reports : Bool → Array A → (Array A → Type 0) → Outcome (ℕ × Array A) → Type 0
  Reports mem a P panic = ⊥
  Reports mem a P (ok (zero, b)) = P b
  Reports mem a P (ok (suc e, b)) = (mem ≡ false) × (suc e ≡ enomem) × (b ≡ a)

  pub preallocate_lem :
      (mem : Bool) (a : Array A) (nguys : ℕ)
      → IsValid a
      → Reports mem a
          (λ b.
            IsValid b
            × (nguys ≤ b.max)
            × (a.max ≤ b.max)
            × (b.num ≡ a.num)
            × (contents b ≡ contents a))
          (preallocate mem a nguys)
  unfolding preallocate
  preallocate_lem true a nguys w = rw (le→leb _ _ w.fits) (
    record { fits = omega (arith, grow); owned = size },
    grow_max-enough nguys nguys a.max (omega arith),
    grow,
    refl,
    take-copy_cells a.num (cells a.v) (fresh_cells newmax) (omega arith)
        (omega (arith, length-replicate {A = Option A} newmax none, grow)),
  )
    where
      newmax : ℕ
      newmax = grow_max nguys nguys a.max

      grow : a.max ≤ newmax
      grow = grow_max-ge nguys nguys a.max

      size : length (copy_cells a.num 0 (cells a.v) (fresh_cells newmax)) ≡ newmax
      size =
          length-copy_cells a.num 0 (cells a.v) (fresh_cells newmax)
          ∙ length-replicate {A = Option A} newmax none
  preallocate_lem false a nguys w = rw (le→leb _ _ w.fits) (refl, refl, refl)

  -- what `array_setsize` promises on success: the new size, and the pointers below both sizes
  abbrev pub Resized : Array A → ℕ → Array A → Type 0
  Resized a nguys b =
      IsValid b × (b.num ≡ nguys) × (take a.num (contents b) ≡ take nguys (contents a))

  pub after_preallocate_lem :
      (mem : Bool) (a : Array A) (nguys : ℕ) (r : Outcome (ℕ × Array A))
      → a.num ≤ nguys
      → Reports mem a
          (λ b.
            IsValid b
            × (nguys ≤ b.max)
            × (a.max ≤ b.max)
            × (b.num ≡ a.num)
            × (contents b ≡ contents a))
          r
      → Reports mem a (Resized a nguys) (r >>= after_preallocate nguys)
  unfolding after_preallocate
  after_preallocate_lem mem a nguys panic le h = h
  after_preallocate_lem mem a nguys (ok (zero, b)) le h = (
    record { fits = h.1; owned = h.0.owned },
    refl,
    take-take_of_le a.num nguys (cells b.v) le
        ∙ ap (λ n. take n (cells b.v)) (sym h.3)
        ∙ h.4
        ∙ sym (take-take_of_le' nguys a le),
  )
    where
      take-take_of_le' : (n : ℕ) (c : Array A) → c.num ≤ n → take n (contents c) ≡ contents c
      take-take_of_le' n c le =
          take-take_comm n c.num (cells c.v) ∙ take-take_of_le c.num n (cells c.v) le
  after_preallocate_lem mem a nguys (ok (suc e, b)) le h = h

  pub not-is_null : (v : Option (List (Option A))) → 0 < length (cells v) → is_null v ≡ false
  not-is_null none h = absurd (omega arith)
  not-is_null (some l) h = refl

  pub shrink :
      (mem : Bool) (a : Array A) (nguys : ℕ)
      → IsValid a
      → nguys ≤ a.max
      → Reports mem a (Resized a nguys) (
          if nguys == 0 && ltb 16 a.max
          then (assert (not (is_null a.v)) >> ok (0, record { num = nguys; max = 0; v = none }))
          else ok (0, record a { num = nguys }))
  shrink mem a nguys w le = elim (Bool-cases (nguys == 0 && ltb 16 a.max)) [
    | inl big ↦
        rw (big, not-is_null a.v (ground arith))
          (
            record { fits = ground arith; owned = refl },
            refl,
            (let e : nguys ≡ 0 = ground arith in rw e (take-nil (Option A) a.num)),
          )
    | inr small ↦
        rw small
          (record { fits = le; owned = w.owned }, refl, take-take_comm a.num nguys (cells a.v))
  ]

  -- On a valid array array_setsize never fails an assertion. It reports 0 and leaves a valid array
  -- of the size asked for, with the same pointers below both sizes; or it reports ENOMEM, which
  -- happens only without memory, and the array is as before.
  pub setsize_lem :
      (mem : Bool) (a : Array A) (nguys : ℕ)
      → IsValid a
      → Reports mem a (Resized a nguys) (setsize mem a nguys)
  unfolding setsize
  setsize_lem mem a nguys w = rw (le→leb _ _ w.fits) (elim (Bool-cases (ltb a.max nguys)) [
    | inl more ↦ rw more (
        after_preallocate_lem mem a nguys _ (omega (arith, ltb→lt a.max nguys more, w.fits))
          (preallocate_lem mem a nguys w))
    | inr less ↦ rw less (shrink mem a nguys w (ground arith))
  ])
