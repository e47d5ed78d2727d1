-- ===== src/Catsem/Meals.antt =====
-- How often an animal eats.
use mips_os.Common.{ℕ, ◌≡◌, refl, true, false, Bool-cases, ltb, ◌==◌, arith, inl, inr, ◌⊎◌, ==_iff}
use mips_os.Catsem.{
  Who, cat, mouse, Bowl, b1, b2, same_bowl, first_bowl, Place, at_loop, seeks, eats, finished,
  Animal, State, enter_loop, after_meal, set_animal, who, Step, tests, takes, gives, Reach,
  initially, later,
}

-- the rounds that an animal has eaten when it turns to a bowl
abbrev Due : Who → Bowl → ℕ → Type 0
Due w b n =
    ((same_bowl b (first_bowl w) ≡ true) × ((n ≡ 0) ⊎ (n ≡ 2)))
    ⊎ ((same_bowl b (first_bowl w) ≡ false) × ((n ≡ 1) ⊎ (n ≡ 3)))

abbrev Ate : Who → Place → ℕ → Type 0
Ate w at_loop n = (n ≡ 0) ⊎ ((n ≡ 2) ⊎ (n ≡ 4))
Ate w (seeks b) n = Due w b n
Ate w (eats b) n = Due w b n
Ate w finished n = n ≡ 4

enter_loop-Ate :
    (w : Who) (a : Animal)
    → Ate w at_loop a.iteration
    → Ate w (enter_loop w a).place (enter_loop w a).iteration
unfolding enter_loop
enter_loop-Ate cat a h = elim (Bool-cases (ltb a.iteration 3)) [
  | inl more ↦ rw more (inl (refl, ground (arith, h, more)))
  | inr done ↦ rw done (ground (arith, h, done))
]
enter_loop-Ate mouse a h = elim (Bool-cases (ltb a.iteration 3)) [
  | inl more ↦ rw more (inl (refl, ground (arith, h, more)))
  | inr done ↦ rw done (ground (arith, h, done))
]

after_meal-Ate :
    (w : Who) (b : Bowl) (a : Animal)
    → Due w b a.iteration
    → Ate w (after_meal w b a).place (after_meal w b a).iteration
unfolding after_meal
after_meal-Ate cat b1 a h = ground (arith, h)
after_meal-Ate cat b2 a h = inr (refl, ground (arith, h))
after_meal-Ate mouse b1 a h = inr (refl, ground (arith, h))
after_meal-Ate mouse b2 a h = ground (arith, h)

module _ (ncats nmice : ℕ) where
  AllAte : State → Type 0
  AllAte st = (j : ℕ) → Ate (who ncats nmice j) (st.animal j).place (st.animal j).iteration

  one_moves :
      (i j : ℕ) (a : Animal) (animal : ℕ → Animal)
      → Ate (who ncats nmice i) a.place a.iteration
      → Ate (who ncats nmice j) (animal j).place (animal j).iteration
      → Ate (who ncats nmice j) (set_animal i a animal j).place (set_animal i a animal j).iteration
  one_moves i j a animal new old = elim (Bool-cases (j == i)) [
    | inl here ↦ let e : j ≡ i = (==_iff j i).0 here in rw here (rw e new)
    | inr there ↦ rw there old
  ]

  Step-AllAte : {st st' : State} → Step ncats nmice st st' → AllAte st → AllAte st'
  unfolding AllAte
  Step-AllAte {st} (tests i lt at) h j =
      one_moves i j _ st.animal (enter_loop-Ate (who ncats nmice i) (st.animal i) (rw at at (h i)))
        (h j)
  Step-AllAte {st} (takes i b s lt at got) h j =
      one_moves i j (record (st.animal i) { place = eats b }) st.animal (rw at at (h i)) (h j)
  Step-AllAte {st} (gives i b s mem addr threads woken lt at back) h j =
      one_moves i j _ st.animal
        (after_meal-Ate (who ncats nmice i) b (st.animal i) (rw at at (h i))) (h j)

  Reach-AllAte : {st : State} → Reach ncats nmice st → AllAte st
  unfolding AllAte
  Reach-AllAte initially j = inl refl
  Reach-AllAte (later r s) j = Step-AllAte s (Reach-AllAte r) j

  -- In every reachable state an animal that has left its loop has eaten four times.
  pub four_meals-Reach :
      {st : State} (i : ℕ)
      → Reach ncats nmice st
      → (st.animal i).place ≡ finished
      → (st.animal i).iteration ≡ 4
  unfolding AllAte
  four_meals-Reach i r done = rw done at (Reach-AllAte r i)
