-- ===== src/Queue/Span.antt =====
-- Going round a ring: the slots from one index on, and a write just past them.
use mips_os.Common.{
  ℕ, zero, suc, ◌+◌, ◌-◌, ◌%◌, ◌≤◌, ◌<◌, ◌≡◌, refl, ap, ap₂, ltb, if◌then◌else◌, Option, none, List,
  [], ◌∷◌, ◌++◌, length, get_or, set, get_or-set, arith,
}

-- the index `n` steps after `h` in a ring of `m`
abbrev pub advance : ℕ → ℕ → ℕ → ℕ
advance m h n = if ltb (h + n) m then h + n else h + n - m

pub next_lem : (m h : ℕ) → h < m → (h + 1) % m ≡ advance m h 1
next_lem m h lt = grind arith

pub advance-lt : (m h n : ℕ) → h < m → n ≤ m → advance m h n < m
advance-lt m h n p q = ground arith

module _ {A : Type 0} where
  -- the `n` slots from `h` on
  abbrev pub span : List (Option A) → ℕ → ℕ → ℕ → List (Option A)
  span l m h zero = []
  span l m h (suc n) = get_or l h none ∷ span l m (advance m h 1) n

  pub length-span : (l : List (Option A)) (m h n : ℕ) → length (span l m h n) ≡ n
  length-span l m h zero = refl
  length-span l m h (suc n) = ap suc (length-span l m (advance m h 1) n)

  pub span-set :
      (l : List (Option A)) (m h n i : ℕ) (x : Option A)
      → length l ≡ m
      → h < m
      → n < m
      → i ≡ advance m h n
      → span (set l i x) m h (suc n) ≡ span l m h n ++ (x ∷ [])
  span-set l m h zero i x len p q e = ap (λ y. y ∷ []) (ground (arith, get_or-set l i h x none))
  span-set l m h (suc n) i x len p q e = ap₂ ◌∷◌ (ground (arith, get_or-set l i h x none)) (
      span-set l m (advance m h 1) n i x len (advance-lt m h 1 p (omega arith)) (omega arith)
        (ground arith))
