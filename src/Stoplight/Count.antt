-- ===== src/Stoplight/Count.antt =====
-- How many actions the cars have done, and can do at most.
use mips_os.Common.{ℕ, zero, suc, ◌+◌, ◌*◌, ◌≤◌, ◌<◌, ◌≡◌, refl, ◌==◌, arith, Bool-cases, inl, inr}
use mips_os.Stoplight.{State, advance, Step, enters, exits, prints, Reach}
use mips_os.Stoplight.Check.{length-way}
use mips_os.Stoplight.Inv.{direction, turn, Inv, Reach-Inv}

-- how many actions the first `n` cars have done
abbrev pub total : ℕ → (ℕ → ℕ) → ℕ
total zero pc = 0
total (suc n) pc = total n pc + pc n

total-advance_of_le : (n i : ℕ) (pc : ℕ → ℕ) → n ≤ i → total n (advance pc i) ≡ total n pc
total-advance_of_le zero i pc h = refl
total-advance_of_le (suc n) i pc h = ground (arith, total-advance_of_le n i pc)

total-advance : (n i : ℕ) (pc : ℕ → ℕ) → i < n → total n (advance pc i) ≡ suc (total n pc)
total-advance zero i pc h = absurd (omega arith)
total-advance (suc n) i pc h = elim (Bool-cases (i == n)) [
  | inl last ↦ ground (arith, last, total-advance_of_le n i pc)
  | inr before ↦ ground (arith, before, total-advance n i pc)
]

total-le : (n m : ℕ) (pc : ℕ → ℕ) → ((i : ℕ) → pc i ≤ m) → total n pc ≤ m * n
total-le zero m pc h = omega arith
total-le (suc n) m pc h = omega (arith, h n, total-le n m pc h)

module _ {ncars : ℕ} {random : ℕ → ℕ × ℕ} where
  pub total-Step :
      {st st' : State} → Step ncars random st st' → total ncars st'.pc ≡ suc (total ncars st.pc)
  total-Step {st} (enters i a lt next got) = total-advance ncars i st.pc lt
  total-Step {st} (exits i a lt next given) = total-advance ncars i st.pc lt
  total-Step {st} (prints i nr dest lt next) = total-advance ncars i st.pc lt

  pub total-bound : {st : State} → Reach ncars random st → total ncars st.pc ≤ 19 * ncars
  total-bound {st} r = total-le ncars 19 st.pc (λ i. omega (
    arith,
    v.inside i,
    length-way (direction ncars random i) (turn ncars random i) (omega arith) (omega arith),
  ))
    where
      v : Inv ncars random st
      v = Reach-Inv ncars random r
