-- ===== src/Common/ListLaws.antt =====
-- Laws of indexed lists that several components use.
use Prim.Native.Nat.{ℕ, zero, suc, ◌+◌, ◌≤◌, ◌<◌}
use mathlib.Core.Path.{◌≡◌, refl, ap, ap₂}
use mathlib.Core.List.{List, [], ◌∷◌, ◌++◌}
use native.Mathlib.Omega.{arith}
use mathlib.Core.Bool.{◌&&◌}
use mips_os.Common.Tests.{◌==◌, ltb, if◌then◌else◌}
use mathlib.Core.Option.{some}
use mips_os.Common.Lists.{get_elem?, length, get_or, set, take, replicate}

module _ {ℓ} {A : Type ℓ} where
  pub get_or-set :
      (xs : List A) (i j : ℕ) (v d : A)
      → get_or (set xs i v) j d ≡ (if (i == j) && ltb j (length xs) then v else get_or xs j d)
  get_or-set [] i j v d = ground arith
  get_or-set (x ∷ xs) zero zero v d = ground arith
  get_or-set (x ∷ xs) zero (suc j) v d = ground arith
  get_or-set (x ∷ xs) (suc i) zero v d = ground arith
  get_or-set (x ∷ xs) (suc i) (suc j) v d = ground (arith, get_or-set xs i j v d)

  pub get_or_of_ge : (xs : List A) (j : ℕ) (d : A) → length xs ≤ j → get_or xs j d ≡ d
  get_or_of_ge [] j d h = refl
  get_or_of_ge (x ∷ xs) zero d h = absurd (omega arith)
  get_or_of_ge (x ∷ xs) (suc j) d h = get_or_of_ge xs j d (omega arith)

  pub get_or-replicate : (n : ℕ) (d : A) (j : ℕ) → get_or (replicate n d) j d ≡ d
  get_or-replicate zero d j = refl
  get_or-replicate (suc n) d zero = refl
  get_or-replicate (suc n) d (suc j) = get_or-replicate n d j

  pub get_or-take :
      (n : ℕ) (xs : List A) (j : ℕ) (d : A) → j < n → get_or (take n xs) j d ≡ get_or xs j d
  get_or-take zero xs j d h = absurd (omega arith)
  get_or-take (suc n) [] j d h = refl
  get_or-take (suc n) (x ∷ xs) zero d h = refl
  get_or-take (suc n) (x ∷ xs) (suc j) d h = get_or-take n xs j d (omega arith)

  pub take_ext :
      (n : ℕ) (xs ys : List A) (d : A)
      → n ≤ length xs
      → n ≤ length ys
      → ((j : ℕ) → j < n → get_or xs j d ≡ get_or ys j d)
      → take n xs ≡ take n ys
  take_ext zero xs ys d p q h = refl
  take_ext (suc n) [] ys d p q h = absurd (omega arith)
  take_ext (suc n) (x ∷ xs) [] d p q h = absurd (omega arith)
  take_ext (suc n) (x ∷ xs) (y ∷ ys) d p q h =
      ap₂ ◌∷◌ (h 0 (omega arith))
        (take_ext n xs ys d (omega arith) (omega arith) (λ j l. h (suc j) (omega arith)))

  pub take-set_of_le :
      (n : ℕ) (xs : List A) (i : ℕ) (v : A) → n ≤ i → take n (set xs i v) ≡ take n xs
  take-set_of_le zero xs i v h = refl
  take-set_of_le (suc n) [] i v h = refl
  take-set_of_le (suc n) (x ∷ xs) zero v h = absurd (omega arith)
  take-set_of_le (suc n) (x ∷ xs) (suc i) v h =
      ap (λ l. x ∷ l) (take-set_of_le n xs i v (omega arith))

  pub take-set_of_lt :
      (n : ℕ) (xs : List A) (i : ℕ) (v : A) → i < n → take n (set xs i v) ≡ set (take n xs) i v
  take-set_of_lt zero xs i v h = absurd (omega arith)
  take-set_of_lt (suc n) [] i v h = refl
  take-set_of_lt (suc n) (x ∷ xs) zero v h = refl
  take-set_of_lt (suc n) (x ∷ xs) (suc i) v h =
      ap (λ l. x ∷ l) (take-set_of_lt n xs i v (omega arith))

  -- The write just past a prefix extends it.
  pub take-set_snoc :
      (n : ℕ) (xs : List A) (v : A)
      → n < length xs
      → take (suc n) (set xs n v) ≡ take n xs ++ (v ∷ [])
  take-set_snoc n [] v h = absurd (omega arith)
  take-set_snoc zero (x ∷ xs) v h = refl
  take-set_snoc (suc n) (x ∷ xs) v h = ap (λ l. x ∷ l) (take-set_snoc n xs v (omega arith))

  pub take-append_left : (n : ℕ) (xs ys : List A) → n ≤ length xs → take n (xs ++ ys) ≡ take n xs
  take-append_left zero xs ys h = refl
  take-append_left (suc n) [] ys h = absurd (omega arith)
  take-append_left (suc n) (x ∷ xs) ys h = ap (λ l. x ∷ l) (take-append_left n xs ys (omega arith))

  pub take-take : (n : ℕ) (xs : List A) → take n (take n xs) ≡ take n xs
  take-take zero xs = refl
  take-take (suc n) [] = refl
  take-take (suc n) (x ∷ xs) = ap (λ l. x ∷ l) (take-take n xs)

  pub take-take_comm : (n m : ℕ) (xs : List A) → take n (take m xs) ≡ take m (take n xs)
  take-take_comm zero zero xs = refl
  take-take_comm zero (suc m) xs = refl
  take-take_comm (suc n) zero xs = refl
  take-take_comm (suc n) (suc m) [] = refl
  take-take_comm (suc n) (suc m) (x ∷ xs) = ap (λ l. x ∷ l) (take-take_comm n m xs)

  pub take-take_of_le : (n m : ℕ) (xs : List A) → n ≤ m → take n (take m xs) ≡ take n xs
  take-take_of_le zero m xs h = refl
  take-take_of_le (suc n) zero xs h = absurd (omega arith)
  take-take_of_le (suc n) (suc m) [] h = refl
  take-take_of_le (suc n) (suc m) (x ∷ xs) h =
      ap (λ l. x ∷ l) (take-take_of_le n m xs (omega arith))

  pub get_elem?-some : (xs : List A) (i : ℕ) → i < length xs → (x : A) × (get_elem? xs i ≡ some x)
  get_elem?-some [] i h = absurd (omega arith)
  get_elem?-some (x ∷ xs) zero h = (x, refl)
  get_elem?-some (x ∷ xs) (suc i) h = get_elem?-some xs i (omega arith)

  pub take-length : (xs : List A) → take (length xs) xs ≡ xs
  take-length [] = refl
  take-length (x ∷ xs) = ap (λ l. x ∷ l) (take-length xs)

  -- the list without its element at `i`
  abbrev pub erase_at : List A → ℕ → List A
  erase_at [] i = []
  erase_at (x ∷ xs) zero = xs
  erase_at (x ∷ xs) (suc i) = x ∷ erase_at xs i

  pub length-erase_at :
      (xs : List A) (i : ℕ) → i < length xs → length (erase_at xs i) + 1 ≡ length xs
  length-erase_at [] i h = absurd (omega arith)
  length-erase_at (x ∷ xs) zero h = omega arith
  length-erase_at (x ∷ xs) (suc i) h = omega (arith, length-erase_at xs i (omega arith))

pub take-nil {ℓ} : (A : Type ℓ) (n : ℕ) → take {A = A} n [] ≡ []
take-nil A zero = refl
take-nil A (suc n) = refl
