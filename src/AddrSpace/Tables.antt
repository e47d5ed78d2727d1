-- ===== src/AddrSpace/Tables.antt =====
-- What a page table says of addresses, and what a search of it finds.
use mips_os.Common.{
  ℕ, suc, ◌+◌, ◌-◌, ◌≡◌, refl, ap, Bool, true, false, ◌&&◌, Bool-cases, Option, none, some, [], ◌∷◌,
  ltb, leb, if◌then◌else◌, ◌⊎◌, inl, inr, arith,
}
use mips_os.Coremap.{word}
use mips_os.AddrSpace.{Pte, PageTable, Search, find_page, set_pte}

-- `faultaddress >= p.vstart && faultaddress < p.vend`
abbrev pub covers : Pte → ℕ → Bool
covers p a = leb p.vstart a && ltb a p.vend

-- Where the entry puts the address.
abbrev pub placed_at : Pte → ℕ → ℕ
placed_at p a = word (a - p.vstart + p.pstart)

-- the physical address of `a`, by the first entry that covers it
abbrev pub translate : PageTable → ℕ → Option ℕ
translate [] a = none
translate (p ∷ ps) a =
    if p.allocated then if covers p a then some (placed_at p a) else translate ps a else none

abbrev pub AllFree : PageTable → Type 0
AllFree [] = Unit {0}
AllFree (p ∷ ps) = (p.allocated ≡ false) × AllFree ps

-- The allocated entries come first, as the code's loops expect.
abbrev pub IsTable : PageTable → Type 0
IsTable [] = Unit {0}
IsTable (p ∷ ps) = ((p.allocated ≡ true) × IsTable ps) ⊎ ((p.allocated ≡ false) × AllFree ps)

translate-AllFree : (ps : PageTable) (a : ℕ) → AllFree ps → translate ps a ≡ none
translate-AllFree [] a h = refl
translate-AllFree (p ∷ ps) a h = rw (h.0)

AllFree-IsTable : (ps : PageTable) → AllFree ps → IsTable ps
AllFree-IsTable [] h = tt
AllFree-IsTable (p ∷ ps) h = inr h

-- Entry `i` is the first that is not allocated: an entry `e` stored there serves the addresses that
-- it covers and no earlier entry does, and changes nothing for the others.
pub record IsNext (a i : ℕ) (pt : PageTable) : Type 0 where
  pub unmapped : translate pt a ≡ none
  pub serves :
      (e : Pte)
      → e.allocated ≡ true
      → covers e a ≡ true
      → translate (set_pte i e pt) a ≡ some (placed_at e a)
  pub spares :
      (e : Pte) (b : ℕ)
      → e.allocated ≡ true
      → covers e b ≡ false
      → translate (set_pte i e pt) b ≡ translate pt b
  pub table : (e : Pte) → e.allocated ≡ true → IsTable (set_pte i e pt)

-- Every entry is allocated.
abbrev pub IsFull : PageTable → Type 0
IsFull [] = Unit {0}
IsFull (p ∷ ps) = (p.allocated ≡ true) × IsFull ps

-- what the search says of address `a` when it starts at entry `j`
abbrev pub Finds : (a j : ℕ) → PageTable → Search → Type 0
Finds a j pt (Search.page_found paddr) = translate pt a ≡ some paddr
Finds a j pt (Search.need_new_page k) = (i : ℕ) × (k ≡ j + i) × IsNext a i pt
Finds a j pt Search.table_full = (translate pt a ≡ none) × IsFull pt

first_free :
    (a : ℕ) (p : Pte) (ps : PageTable) → p.allocated ≡ false → AllFree ps → IsNext a 0 (p ∷ ps)
unfolding set_pte
first_free a p ps clear rest = record {
  unmapped = rw clear;
  serves = λ e yes there. rw (yes, there);
  spares = λ e b yes out. rw (yes, out, clear) (translate-AllFree ps b rest);
  table = λ e yes. inl (yes, AllFree-IsTable ps rest);
}

one_later :
    (a i : ℕ) (p : Pte) (ps : PageTable)
    → p.allocated ≡ true
    → covers p a ≡ false
    → IsNext a i ps
    → IsNext a (suc i) (p ∷ ps)
unfolding set_pte
one_later a i p ps used out n = record {
  unmapped = rw (used, out) n.unmapped;
  serves = λ e yes there. rw (used, out) (n.serves e yes there);
  spares = λ e b yes away.
      rw used
        (ap (λ rest. if covers p b then some (placed_at p b) else rest) (n.spares e b yes away));
  table = λ e yes. inl (used, n.table e yes);
}

Finds-cons :
    (a j : ℕ) (p : Pte) (ps : PageTable) (r : Search)
    → p.allocated ≡ true
    → covers p a ≡ false
    → Finds a (j + 1) ps r
    → Finds a j (p ∷ ps) r
Finds-cons a j p ps (Search.page_found paddr) used out h = rw (used, out) h
Finds-cons a j p ps (Search.need_new_page k) used out (i, e, n) =
    (suc i, omega (arith, e), one_later a i p ps used out n)
Finds-cons a j p ps Search.table_full used out (unmapped, full) =
    (rw (used, out) unmapped, (used, full))

pub find_page_lem : (a j : ℕ) (pt : PageTable) → IsTable pt → Finds a j pt (find_page a j pt)
unfolding find_page
find_page_lem a j [] t = (refl, tt)
find_page_lem a j (p ∷ ps) (inr (clear, rest)) =
    simp clear (0, omega arith, first_free a p ps clear rest)
find_page_lem a j (p ∷ ps) (inl (used, t)) = elim (Bool-cases (covers p a)) [
  | inl here ↦ simp (used, here) refl
  | inr out ↦ simp (used, out) (Finds-cons a j p ps _ used out (find_page_lem a (j + 1) ps t))
]
