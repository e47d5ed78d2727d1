-- ===== src/AddrSpace/Access.antt =====
-- What `access_pagetable` does to a page table, to the frames and to the TLB.
use mips_os.Common.{
  ℕ, zero, suc, ◌+◌, ◌-◌, ◌%◌, ◌≡◌, ◌≢◌, ◌<◌, refl, sym, ap, ◌∙◌, Bool, true, false, Bool-cases,
  Option, none, some, [], ◌∷◌, length, get_or, set, ◌⊎◌, inl, inr, arith, Outcome, ok, panic, ◌>>=◌,
  ◌^◌,
}
use mips_os.Coremap.{getppages, Memory, word, page_size, round_down}
use mips_os.Coremap.Search.{free_at, FreeRun}
use mips_os.Coremap.Pages.{IsPlaced, Result, getppages_lem}
use mips_os.AddrSpace.{
  Pte, PageTable, Search, Tlb, Vm, find_page, set_pte, has_bit, or_bit, tlblo_valid, tlblo_dirty,
  write_into_tlb, return_written, new_page, access_pagetable,
}
use mips_os.AddrSpace.Tables.{translate, covers, IsFull, IsTable, IsNext, Finds, find_page_lem}

abbrev pub is_valid : ℕ × ℕ → Bool
is_valid e = has_bit e.1 tlblo_valid

-- Every entry is valid.
abbrev pub TlbFull : Tlb → Type 0
TlbFull tlb = (i : ℕ) → i < length tlb → is_valid (get_or tlb i (0, 0)) ≡ true

-- The first entry that is not valid now maps the page at `a` to the frame at `p`.
abbrev pub Wrote : (a p : ℕ) (tlb tlb' : Tlb) → Type 0
Wrote a p tlb tlb' =
    (i : ℕ) × (i < length tlb)
    × (is_valid (get_or tlb i (0, 0)) ≡ false)
    × ((j : ℕ) → j < i → is_valid (get_or tlb j (0, 0)) ≡ true)
    × (tlb' ≡ set tlb i (a, or_bit (or_bit p tlblo_dirty) tlblo_valid))

-- what `write_into_TLB` leaves
abbrev pub Writes : (a p : ℕ) → Tlb → Option (ℕ × Tlb) → Type 0
Writes a p tlb none = TlbFull tlb
Writes a p tlb (some (r, tlb')) = (r ≡ 1) × Wrote a p tlb tlb'

all_valid-cons :
    (e : ℕ × ℕ) (tlb : Tlb) (n : ℕ)
    → is_valid e ≡ true
    → ((i : ℕ) → i < n → is_valid (get_or tlb i (0, 0)) ≡ true)
    → (i : ℕ) → i < suc n
    → is_valid (get_or (e ∷ tlb) i (0, 0)) ≡ true
all_valid-cons e tlb n v rest zero lt = v
all_valid-cons e tlb n v rest (suc i) lt = rest i (omega (arith, lt))

Writes-cons :
    (a p : ℕ) (e : ℕ × ℕ) (tlb : Tlb) (r : Option (ℕ × Tlb))
    → is_valid e ≡ true
    → Writes a p tlb r
    → Writes a p (e ∷ tlb) (elim r [ none ↦ none | some x ↦ some (x.0, e ∷ x.1) ])
Writes-cons a p e tlb none v h = all_valid-cons e tlb (length tlb) v h
Writes-cons a p e tlb (some (r, tlb')) v (one, w) =
    let (i, lt, free, before, is) = w in
    (one, (suc i, omega (arith, lt), free, all_valid-cons e tlb i v before, ap (λ l. e ∷ l) is))

pub write_into_tlb_lem : (a p : ℕ) (tlb : Tlb) → Writes a p tlb (write_into_tlb a p tlb)
unfolding write_into_tlb
write_into_tlb_lem a p [] = λ i lt. absurd (omega (arith, lt))
write_into_tlb_lem a p (e ∷ tlb) = elim (Bool-cases (is_valid e)) [
  | inl v ↦ simp v (Writes-cons a p e tlb _ v (write_into_tlb_lem a p tlb))
  | inr free ↦ simp free (refl, (0, omega arith, free, (λ j lt. absurd (omega (arith, lt))), refl))
]

-- The page at `a` is mapped: its table entry was there, or it is new and stands for the frame that
-- `getppages` gives.
pub record Mapped (a : ℕ) (pt : PageTable) (vm : Vm) (pt' : PageTable) (vm' : Vm) : Type 0 where
  pub paddr : ℕ
  pub mapped : translate pt' a ≡ some paddr
  pub written : Wrote a paddr vm.tlb vm'.tlb
  pub table : IsTable pt'
  pub others : (b : ℕ) → b % page_size ≡ 0 → b ≢ a → translate pt' b ≡ translate pt b
  pub allocates :
      ((pt' ≡ pt) × (vm'.memory ≡ vm.memory))
      ⊎ ((translate pt a ≡ none) × (getppages vm.memory 1 ≡ ok (paddr, vm'.memory)))

-- No free frame stands before the last one.
abbrev pub NoFrame : Memory → Type 0
NoFrame m = (s : ℕ) → s + 1 < length m.coremap → ¬ FreeRun (free_at m.coremap) s 1

abbrev pub Accessed : (a : ℕ) → PageTable → Vm → Outcome (ℕ × PageTable × Vm) → Type 0
Accessed a pt vm panic = TlbFull vm.tlb ⊎ NoFrame vm.memory
Accessed a pt vm (ok (r, pt', vm')) =
    ((r ≡ 0) × (pt' ≡ pt) × (vm' ≡ vm) × (translate pt a ≡ none) × IsFull pt)
    ⊎ ((r ≡ 1) × Mapped a pt vm pt' vm')

-- a page with an entry already
known :
    (a p : ℕ) (pt : PageTable) (vm : Vm) (r : Option (ℕ × Tlb))
    → IsTable pt
    → translate pt a ≡ some p
    → Writes a p vm.tlb r
    → Accessed a pt vm (elim r [ none ↦ panic | some x ↦ ok (x.0, pt, record vm { tlb = x.1 }) ])
known a p pt vm none t e h = inl h
known a p pt vm (some (r, tlb')) t e (one, w) = inr (
  one,
  record {
    paddr = p;
    mapped = e;
    written = w;
    table = t;
    others = λ b al ne. refl;
    allocates = inl (refl, refl);
  },
)

-- the entry that `access_pagetable` writes for a new page
abbrev fresh_pte : (a frame : ℕ) → Pte
fresh_pte a frame = record {
  allocated = true;
  vstart = round_down a page_size;
  vend = word (round_down a page_size + page_size);
  pstart = frame;
  pend = word (frame + page_size);
}

covers-fresh :
    (a frame : ℕ) → a % page_size ≡ 0 → a + page_size < 2 ^ 32 → covers (fresh_pte a frame) a ≡ true
unfolding round_down
covers-fresh a frame al small = ground arith

covers-fresh_other :
    (a frame b : ℕ)
    → a % page_size ≡ 0
    → a + page_size < 2 ^ 32
    → b % page_size ≡ 0
    → b ≢ a
    → covers (fresh_pte a frame) b ≡ false
unfolding round_down
covers-fresh_other a frame b al small bl ne = ground arith

created :
    (a i frame : ℕ) (pt : PageTable) (vm : Vm) (m : Memory) (r : Option (ℕ × Tlb))
    → a % page_size ≡ 0
    → a + page_size < 2 ^ 32
    → IsNext a i pt
    → getppages vm.memory 1 ≡ ok (frame, m)
    → word (a - round_down a page_size + frame) ≡ frame
    → Writes a (word (a - round_down a page_size + frame)) vm.tlb r
    → Accessed a pt vm (elim r [
      | none ↦ panic
      | some x ↦ ok (x.0, set_pte i (fresh_pte a frame) pt, record vm { memory = m; tlb = x.1 })
    ])
created a i frame pt vm m none al small n given start h = inl h
created a i frame pt vm m (some (r, tlb')) al small n given start (one, w) = inr (
  one,
  record {
    paddr = word (a - round_down a page_size + frame);
    mapped = n.serves (fresh_pte a frame) refl (covers-fresh a frame al small);
    written = w;
    table = n.table (fresh_pte a frame) refl;
    others = λ b bl ne.
        n.spares (fresh_pte a frame) b refl (covers-fresh_other a frame b al small bl ne);
    allocates = inr (n.unmapped, given ∙ ap (λ p. ok (p, m)) (sym start));
  },
)

at_start :
    (a frame n : ℕ)
    → a % page_size ≡ 0
    → frame ≡ word n
    → word (a - round_down a page_size + frame) ≡ frame
unfolding round_down
at_start a frame n al e = omega (arith, al, e)

new_page_lem :
    (start a i : ℕ) (pt : PageTable) (vm : Vm) (r : Outcome (ℕ × Memory))
    → a % page_size ≡ 0
    → a + page_size < 2 ^ 32
    → IsNext a i pt
    → Result start 1 vm.memory r
    → getppages vm.memory 1 ≡ r
    → Accessed a pt vm (
        r >>= λ x.
        return_written a
          (word (a - round_down a page_size + x.0))
          (set_pte i (fresh_pte a x.0) pt)
          (record vm { memory = x.1 }))
unfolding return_written
new_page_lem start a i pt vm panic al small n h given = inr h
new_page_lem start a i pt vm (ok (frame, m)) al small n (s, taken) given =
    created a i frame pt vm m _ al small n given (at_start a frame _ al taken.address)
      (write_into_tlb_lem a _ vm.tlb)

accessed :
    (start a : ℕ) (pt : PageTable) (vm : Vm) (found : Search)
    → IsPlaced start 0 vm.memory.coremap
    → vm.memory.before_vm ≡ false
    → a % page_size ≡ 0
    → a + page_size < 2 ^ 32
    → IsTable pt
    → Finds a 0 pt found
    → Accessed a pt vm (elim found [
      | Search.page_found paddr ↦ return_written a paddr pt vm
      | Search.need_new_page i ↦ new_page a i pt vm
      | Search.table_full ↦ ok (0, pt, vm)
    ])
unfolding return_written new_page
accessed start a pt vm (Search.page_found p) placed on al small t e =
    known a p pt vm _ t e (write_into_tlb_lem a p vm.tlb)
accessed start a pt vm (Search.need_new_page k) placed on al small t (i, e, n) =
    rw (same)
      (new_page_lem start a i pt vm _ al small n (getppages_lem start 1 vm.memory on placed) refl)
  where
    same : k ≡ i
    same = omega (arith, e)
accessed start a pt vm Search.table_full placed on al small t (unmapped, full) =
    inl (refl, refl, refl, unmapped, full)

-- For a page address in a table whose allocated entries come first, with the coremap set up,
-- access_pagetable returns 1 with the page mapped in the table and in the first TLB entry that was
-- not valid, and all other pages translated as before. Table and frames are as before, or the page
-- had no entry and lies in the frame that getppages gives. Or it returns 0 and changes nothing,
-- where the page has no entry and every entry is allocated; or its result is undefined, only where
-- every TLB entry is valid or no free frame stands before the last.
pub access_pagetable_lem :
    (start a : ℕ) (pt : PageTable) (vm : Vm)
    → IsPlaced start 0 vm.memory.coremap
    → vm.memory.before_vm ≡ false
    → a % page_size ≡ 0
    → a + page_size < 2 ^ 32
    → IsTable pt
    → Accessed a pt vm (access_pagetable a pt vm)
unfolding access_pagetable
access_pagetable_lem start a pt vm placed on al small t =
    accessed start a pt vm (find_page a 0 pt) placed on al small t (find_page_lem a 0 pt t)
