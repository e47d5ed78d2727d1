-- ===== src/Tests/Cats.antt =====
-- kern/asst1/catsem.c: the first meals.
use mips_os.Common.{ℕ, ◌≡◌, refl, none, [], ◌∷◌, true, arith}
use mips_os.Array
use mips_os.Synch.{Semaphore, pcat_round, vcat}
use mips_os.Thread
use mips_os.Thread.{Threads}
use mips_os.Catsem.{
  Who, cat, b1, b2, Place, at_loop, seeks, eats, finished, Animal, State, p_round, v, enter_loop,
  after_meal, set_sem, set_animal, tests, takes, gives, start, Reach, initially, later,
}
use mips_os.Catsem.Safe.{one_kind-Reach}
use mips_os.Catsem.Meals.{four_meals-Reach}

abbrev nobody : Threads
nobody = record {
  sleepers = record { num = 0; max = 0; v = none };
  runqueue = record { size = 1; nextwrite = 0; nextread = 0; slots = none ∷ [] };
  sleepaddr = λ t. 0;
}

abbrev sem : ℕ → ℕ → Semaphore
sem count by_cat = record { count = count; is_occupied_by_mice = 0; is_occupied_by_cat = by_cat }

-- A cat that has eaten `n` times comes to a bowl, eats and leaves.
abbrev at : (n : ℕ) → Place → Animal
at n p = record { iteration = n; place = p }

-- Cat 0 eats at the first bowl and cat 1 at the second.
abbrev two_cats : State
two_cats = record {
  sem =
      set_sem b2 (sem 0 1)
        (set_sem b1 (sem 0 1) (set_sem b2 (sem 1 0) (set_sem b2 (sem 0 1) (start 6 2).sem)));
  animal = set_animal 1 (at 0 (eats b2)) (
      set_animal 1 (at 0 (seeks b2)) (
        set_animal 0 (at 1 (eats b1)) (
          set_animal 0 (at 1 (seeks b1))
            (set_animal 0 (at 0 (eats b2)) (set_animal 0 (at 0 (seeks b2)) (start 6 2).animal)))));
}

two_cats-Reach : Reach 6 2 two_cats
unfolding p_round pcat_round v vcat Thread.wakeup Thread.wake_from Array.getnum enter_loop
    after_meal
two_cats-Reach =
    later
      (later
        (later
          (later
            (later (later initially (tests 0 (omega arith) refl))
              (takes 0 b2 (sem 0 1) (omega arith) refl refl))
            (gives 0 b2 (sem 1 0) true 100 nobody nobody (omega arith) refl refl))
          (takes 0 b1 (sem 0 1) (omega arith) refl refl))
        (tests 1 (omega arith) refl))
      (takes 1 b2 (sem 0 1) (omega arith) refl refl)

one_kind-Reach_example : (◌≡◌ {A = Who} cat cat) × (b1 ≡ b2 → ◌≡◌ {A = ℕ} 0 1)
one_kind-Reach_example = one_kind-Reach 6 2 0 1 b1 b2 two_cats-Reach refl refl

-- Cat 0 has left.
abbrev done : State
done = record {
  sem = set_sem b1 (sem 1 0) (
      set_sem b1 (sem 0 1) (
        set_sem b2 (sem 1 0) (
          set_sem b2 (sem 0 1) (
            set_sem b1 (sem 1 0) (
              set_sem b1 (sem 0 1)
                (set_sem b2 (sem 1 0) (set_sem b2 (sem 0 1) (start 6 2).sem)))))));
  animal = set_animal 0 (at 4 finished) (
      set_animal 0 (at 4 at_loop) (
        set_animal 0 (at 3 (eats b1)) (
          set_animal 0 (at 3 (seeks b1)) (
            set_animal 0 (at 2 (eats b2)) (
              set_animal 0 (at 2 (seeks b2)) (
                set_animal 0 (at 2 at_loop) (
                  set_animal 0 (at 1 (eats b1)) (
                    set_animal 0 (at 1 (seeks b1)) (
                      set_animal 0 (at 0 (eats b2))
                        (set_animal 0 (at 0 (seeks b2)) (start 6 2).animal))))))))));
}

done-Reach : Reach 6 2 done
unfolding p_round pcat_round v vcat Thread.wakeup Thread.wake_from Array.getnum enter_loop
    after_meal
done-Reach =
    later
      (later
        (later
          (later
            (later
              (later
                (later
                  (later
                    (later
                      (later (later initially (tests 0 (omega arith) refl))
                        (takes 0 b2 (sem 0 1) (omega arith) refl refl))
                      (gives 0 b2 (sem 1 0) true 100 nobody nobody (omega arith) refl refl))
                    (takes 0 b1 (sem 0 1) (omega arith) refl refl))
                  (gives 0 b1 (sem 1 0) true 100 nobody nobody (omega arith) refl refl))
                (tests 0 (omega arith) refl))
              (takes 0 b2 (sem 0 1) (omega arith) refl refl))
            (gives 0 b2 (sem 1 0) true 100 nobody nobody (omega arith) refl refl))
          (takes 0 b1 (sem 0 1) (omega arith) refl refl))
        (gives 0 b1 (sem 1 0) true 100 nobody nobody (omega arith) refl refl))
      (tests 0 (omega arith) refl)

four_meals-Reach_example : ◌≡◌ {A = ℕ} 4 4
four_meals-Reach_example = four_meals-Reach 6 2 0 done-Reach refl
