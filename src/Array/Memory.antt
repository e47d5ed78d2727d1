-- ===== src/Array/Memory.antt =====
-- The memory of an array: what the copying loop and `memmove` leave in it.

use mips_os.Common.{
  ℕ, zero, suc, ◌+◌, ◌≤◌, ◌<◌, ◌≡◌, refl, ap, ◌∙◌, arith, ltb, leb, if◌then◌else◌, Option, none,
  List, [], ◌∷◌, ◌++◌, length, get_or, set, take, drop, length-set, length-take, length-drop,
  length-append, get_or-set, take_ext, take-append_left, take-take_of_le, erase_at,
}
use mips_os.Array.{copy_cells, memmove}

module _ {A : Type 0} where
  pub length-memmove :
      (l : List (Option A)) (index n : ℕ)
      → index + n < length l
      → length (memmove l index (index + 1) n) ≡ length l
  length-memmove l index n h = omega (
    arith,
    length-append (take index l) (take n (drop (index + 1) l) ++ drop (index + n) l),
    length-append (take n (drop (index + 1) l)) (drop (index + n) l),
    length-take index l,
    length-take n (drop (index + 1) l),
    length-drop (index + 1) l,
    length-drop (index + n) l,
  )

  pub take-shift :
      (l : List (Option A)) (index n k m : ℕ)
      → k ≡ suc index
      → m ≡ index + n
      → m < length l
      → take m (take index l ++ (take n (drop k l) ++ drop m l)) ≡ erase_at (take (suc m) l) index
  take-shift [] index n k m p q h = absurd (omega arith)
  take-shift (x ∷ xs) zero n k m p q h =
      let e : n ≡ m = omega arith in
      rw (p, e)
        (take-append_left m (take m xs) (drop m (x ∷ xs)) (omega (arith, length-take m xs))
          ∙ take-take_of_le m m xs (omega arith))
  take-shift (x ∷ xs) (suc index) n zero m p q h = absurd (omega arith)
  take-shift (x ∷ xs) (suc index) n (suc k) zero p q h = absurd (omega arith)
  take-shift (x ∷ xs) (suc index) n (suc k) (suc m) p q h =
      ap (λ l. x ∷ l) (take-shift xs index n k m (omega arith) (omega arith) (omega arith))

  pub take-memmove :
      (l : List (Option A)) (index n : ℕ)
      → index + n < length l
      → take (index + n) (memmove l index (index + 1) n) ≡ erase_at (take (suc (index + n)) l) index
  take-memmove l index n h = take-shift l index n (index + 1) (index + n) (omega arith) refl h

  pub length-copy_cells :
      (rounds i : ℕ) (old new : List (Option A)) → length (copy_cells rounds i old new) ≡ length new
  unfolding copy_cells
  length-copy_cells zero i old new = refl
  length-copy_cells (suc rounds) i old new = omega (
    arith,
    length-copy_cells rounds (i + 1) old (set new i (get_or old i none)),
    length-set new i (get_or old i none),
  )

  pub get_or-copy_cells :
      (rounds i : ℕ) (old new : List (Option A)) (j : ℕ)
      → i + rounds ≤ length new
      → get_or (copy_cells rounds i old new) j none ≡ (
          if leb i j
          then if ltb j (i + rounds) then get_or old j none else get_or new j none
          else get_or new j none)
  unfolding copy_cells
  get_or-copy_cells zero i old new j h = ground arith
  get_or-copy_cells (suc rounds) i old new j h = ground (
    arith,
    get_or-copy_cells rounds (i + 1) old (set new i (get_or old i none)) j,
    get_or-set new i j (get_or old i none) none,
    length-set new i (get_or old i none),
  )

  pub take-copy_cells :
      (n : ℕ) (old new : List (Option A))
      → n ≤ length old
      → n ≤ length new
      → take n (copy_cells n 0 old new) ≡ take n old
  take-copy_cells n old new p q =
      take_ext n (copy_cells n 0 old new) old none (omega (arith, length-copy_cells n 0 old new)) p
        (λ j l. ground (arith, get_or-copy_cells n 0 old new j))
