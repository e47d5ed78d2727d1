-- ===== src/Catsem/Inv.antt =====
-- A cat and a mouse never eat at the same time.
use mips_os.Common.{
  ℕ, ◌+◌, ◌^◌, ◌≤◌, ◌≡◌, refl, sym, ap, ◌∙◌, Bool, true, false, Bool-cases, ltb, ◌==◌, Outcome, ok,
  panic, ◌>>=◌, arith, inl, inr, ◌⊎◌, ==_iff,
}
use mips_os.Synch.{Semaphore, leaves, raise_count, pcat_round, pmouse_round, vcat, vmouse}
use mips_os.Thread
use mips_os.Thread.{Threads}
use mips_os.Catsem.{
  Who, cat, mouse, Bowl, b1, b2, other, same_bowl, Place, at_loop, seeks, eats, finished, Animal,
  State, enter_loop, after_meal, first_bowl, p_round, v, set_animal, who, start,
}

abbrev pub eating : Bowl → Place → Bool
eating b at_loop = false
eating b (seeks b') = false
eating b (eats b') = same_bowl b b'
eating b finished = false

-- the mark that an eater of the kind leaves at its bowl
abbrev pub flag : Who → Semaphore → ℕ
flag cat s = s.is_occupied_by_cat
flag mouse s = s.is_occupied_by_mice

pub same_bowl→≡ : (a b : Bowl) → same_bowl a b ≡ true → a ≡ b
same_bowl→≡ b1 b1 h = refl
same_bowl→≡ b2 b2 h = refl
same_bowl→≡ b1 b2 h = cc h
same_bowl→≡ b2 b1 h = cc h

pub same_bowl_refl : (a : Bowl) → same_bowl a a ≡ true
same_bowl_refl b1 = refl
same_bowl_refl b2 = refl

pub other_bowl : (a b : Bowl) → same_bowl a b ≡ false → a ≡ other b
other_bowl b1 b2 h = refl
other_bowl b2 b1 h = refl
other_bowl b1 b1 h = cc h
other_bowl b2 b2 h = cc h

pub p_round_lem :
    (w : Who) (s o s' : Semaphore)
    → p_round w s o ≡ leaves (ok s')
    → (s'.count + 1 ≡ s.count) × (flag w s' ≡ 1)
unfolding p_round pcat_round pmouse_round
p_round_lem cat s o s' h = ground (arith, h)
p_round_lem mouse s o s' h = ground (arith, h)

pub p_round-agrees :
    (w w' : Who) (s o s' : Semaphore) → p_round w s o ≡ leaves (ok s') → flag w' o ≡ 1 → w ≡ w'
unfolding p_round pcat_round pmouse_round
p_round-agrees cat cat s o s' h m = refl
p_round-agrees mouse mouse s o s' h m = refl
p_round-agrees cat mouse s o s' h m = absurd (ground (arith, h, m))
p_round-agrees mouse cat s o s' h m = absurd (ground (arith, h, m))

abbrev paired : (Semaphore → Semaphore) → Semaphore → Threads → Semaphore × Threads
paired f x t = (f x, t)

abbrev after_v :
    (Semaphore → Semaphore) → Semaphore → Outcome Threads → Outcome (Semaphore × Threads)
after_v f x r = r >>= λ t. ok (paired f x t)

after_v-count :
    (f : Semaphore → Semaphore) (x s' : Semaphore) (t : Threads) (r : Outcome Threads)
    → ((y : Semaphore) → (f y).count ≡ y.count)
    → after_v f x r ≡ ok (s', t)
    → s'.count ≡ x.count
after_v-count f x s' t panic keeps h = cc h
after_v-count f x s' t (ok u) keeps h = sym (ap (λ o. (pair_of o).0.count) h) ∙ keeps x
  where
    pair_of : Outcome (Semaphore × Threads) → Semaphore × Threads
    pair_of panic = (s', t)
    pair_of (ok p) = p

raised :
    (s s' : Semaphore) (r : Outcome Threads) (f : Semaphore → Semaphore) (t : Threads)
    → ((x : Semaphore) → (f x).count ≡ x.count)
    → (raise_count s >>= λ x. after_v f x r) ≡ ok (s', t)
    → s'.count ≡ s.count + 1
raised s s' r f t keeps h = elim (Bool-cases (ltb (s.count + 1) (2 ^ 31))) [
  | inl low ↦ after_v-count f (record s { count = s.count + 1 }) s' t r keeps (rw low at h)
  | inr high ↦ cc (rw high at h)
]

pub v_lem :
    (w : Who) (mem : Bool) (addr : ℕ) (s s' : Semaphore) (t t' : Threads)
    → v w mem addr s t ≡ ok (s', t')
    → s'.count ≡ s.count + 1
unfolding v vcat vmouse
v_lem cat mem addr s s' t t' h =
    raised s s' (Thread.wakeup 15 mem addr t) (λ x. record x { is_occupied_by_cat = 0 }) t'
      (λ x. refl) h
v_lem mouse mem addr s s' t t' h =
    raised s s' (Thread.wakeup 15 mem addr t) (λ x. record x { is_occupied_by_mice = 0 }) t'
      (λ x. refl) h

-- What holds in every state: at most one animal eats at a bowl, whose semaphore is then 0 and carries
-- the mark of its kind, and all that eat are of one kind.
module _ (ncats nmice : ℕ) where
  abbrev pub EatsAt : State → ℕ → Bowl → Type 0
  EatsAt st i b = eating b (st.animal i).place ≡ true

  pub record Inv (st : State) : Type 0 where
    pub full : (b : Bowl) → (st.sem b).count ≤ 1
    pub empty : (i : ℕ) (b : Bowl) → EatsAt st i b → (st.sem b).count ≡ 0
    pub marked : (i : ℕ) (b : Bowl) → EatsAt st i b → flag (who ncats nmice i) (st.sem b) ≡ 1
    pub alone : (i j : ℕ) (b : Bowl) → EatsAt st i b → EatsAt st j b → i ≡ j
    pub together :
        (i j : ℕ) (b b' : Bowl)
        → EatsAt st i b
        → EatsAt st j b'
        → who ncats nmice i ≡ who ncats nmice j

  -- an eater after a step of thread `i` to a place `a`
  pub eater :
      (i j : ℕ) (a : Animal) (animal : ℕ → Animal) (b : Bowl)
      → eating b (set_animal i a animal j).place ≡ true
      → ((j ≡ i) × (eating b a.place ≡ true))
        ⊎ (((j == i) ≡ false) × (eating b (animal j).place ≡ true))
  eater i j a animal b h = elim (Bool-cases (j == i)) [
    | inl here ↦ inl ((==_iff j i).0 here, (rw here at h))
    | inr there ↦ inr (there, (rw there at h))
  ]

  -- the thread that moves does not eat after the step
  pub quiet :
      (i j : ℕ) (a : Animal) (animal : ℕ → Animal) (b : Bowl)
      → ((b' : Bowl) → eating b' a.place ≡ false)
      → eating b (set_animal i a animal j).place ≡ true
      → ((j == i) ≡ false) × (eating b (animal j).place ≡ true)
  quiet i j a animal b idle h = elim (eater i j a animal b h) [
    | inl (same, e) ↦ cc (idle b)
    | inr old ↦ old
  ]

  pub enter_loop-quiet : (w : Who) (a : Animal) (b : Bowl) → eating b (enter_loop w a).place ≡ false
  unfolding enter_loop
  enter_loop-quiet w a b = elim (Bool-cases (ltb a.iteration 3)) [
    | inl more ↦ rw more refl
    | inr done ↦ rw done refl
  ]

  pub after_meal-quiet :
      (w : Who) (c : Bowl) (a : Animal) (b : Bowl) → eating b (after_meal w c a).place ≡ false
  unfolding after_meal
  after_meal-quiet w c a b = elim (Bool-cases (same_bowl c (first_bowl w))) [
    | inl first ↦ rw first refl
    | inr second ↦ rw second refl
  ]

  pub Inv-start : Inv (start ncats nmice)
  Inv-start = record {
    full = λ b. omega arith;
    empty = λ i b h. cc h;
    marked = λ i b h. cc h;
    alone = λ i j b h k. cc h;
    together = λ i j b b' h k. cc h;
  }
