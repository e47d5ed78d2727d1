-- ===== src/Thread/Lists.antt =====
-- Lists of threads, the ones that sleep at an address and the others.
use mips_os.Common.{
  ℕ, suc, ◌≡◌, refl, ap, Bool, none, some, List, [], ◌∷◌, ◌++◌, Bool, true, false, not, map, length,
  get_or, erase_at, if◌then◌else◌, arith, ◌≤◌,
}

-- the elements that pass the test, in order
abbrev pub select : (ℕ → Bool) → List ℕ → List ℕ
select p [] = []
select p (x ∷ xs) = if p x then x ∷ select p xs else select p xs

-- the list without the first element that passes, and that element
abbrev pub drop_first : (ℕ → Bool) → List ℕ → List ℕ
drop_first p [] = []
drop_first p (x ∷ xs) = if p x then xs else x ∷ drop_first p xs

abbrev pub take_first : (ℕ → Bool) → List ℕ → List ℕ
take_first p [] = []
take_first p (x ∷ xs) = if p x then x ∷ [] else take_first p xs

pub get_or-middle :
    (done rest : List ℕ) (t : ℕ)
    → get_or (map some (done ++ (t ∷ rest))) (length done) none ≡ some t
get_or-middle [] rest t = refl
get_or-middle (x ∷ done) rest t = get_or-middle done rest t

pub erase_at-middle :
    (done rest : List ℕ) (t : ℕ)
    → erase_at (map some (done ++ (t ∷ rest))) (length done) ≡ map some (done ++ rest)
erase_at-middle [] rest t = refl
erase_at-middle (x ∷ done) rest t = ap (λ l. some x ∷ l) (erase_at-middle done rest t)

pub length-map-some : (xs : List ℕ) → length (map some xs) ≡ length xs
length-map-some [] = refl
length-map-some (x ∷ xs) = ap suc (length-map-some xs)

pub length-select : (p : ℕ → Bool) (xs : List ℕ) → length (select p xs) ≤ length xs
length-select p [] = omega arith
length-select p (x ∷ xs) = ground (arith, length-select p xs)

-- Going through sleepers: who stays asleep and who is woken, where `once` stops after the first.
abbrev pub stays : Bool → (ℕ → Bool) → List ℕ → List ℕ
stays once p [] = []
stays once p (x ∷ xs) = if p x then (if once then xs else stays once p xs) else x ∷ stays once p xs

abbrev pub goes : Bool → (ℕ → Bool) → List ℕ → List ℕ
goes once p [] = []
goes once p (x ∷ xs) = if p x then x ∷ (if once then [] else goes once p xs) else goes once p xs

pub stays-select : (p : ℕ → Bool) (xs : List ℕ) → stays false p xs ≡ select (λ x. not (p x)) xs
stays-select p [] = refl
stays-select p (x ∷ xs) = ground (arith, stays-select p xs)

pub goes-select : (p : ℕ → Bool) (xs : List ℕ) → goes false p xs ≡ select p xs
goes-select p [] = refl
goes-select p (x ∷ xs) = ground (arith, goes-select p xs)

pub stays-drop_first : (p : ℕ → Bool) (xs : List ℕ) → stays true p xs ≡ drop_first p xs
stays-drop_first p [] = refl
stays-drop_first p (x ∷ xs) = ground (arith, stays-drop_first p xs)

pub goes-take_first : (p : ℕ → Bool) (xs : List ℕ) → goes true p xs ≡ take_first p xs
goes-take_first p [] = refl
goes-take_first p (x ∷ xs) = ground (arith, goes-take_first p xs)

pub length-take_first : (p : ℕ → Bool) (xs : List ℕ) → length (take_first p xs) ≤ 1
length-take_first p [] = omega arith
length-take_first p (x ∷ xs) = ground (arith, length-take_first p xs)

pub goes-some :
    (once : Bool) (p : ℕ → Bool) (x : ℕ) (xs : List ℕ)
    → p x ≡ true
    → 1 ≤ length (goes once p (x ∷ xs))
goes-some once p x xs hit = rw hit (omega arith)

pub goes-more :
    (once : Bool) (p : ℕ → Bool) (x : ℕ) (xs : List ℕ)
    → p x ≡ true
    → once ≡ false
    → suc (length (goes once p xs)) ≤ length (goes once p (x ∷ xs))
goes-more true p x xs hit more = cc
goes-more false p x xs hit more = rw hit (omega arith)
