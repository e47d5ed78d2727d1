-- ===== src/Catsem.antt =====
-- kern/asst1/catsem.c: cats and mice at two bowls, each bowl under a semaphore of thread/synch.c.
-- Threads below `ncats` are the cats, the next `nmice` are the mice.
pub mod Inv
pub mod Safe
pub mod Meals
use mips_os.Common.{ℕ, suc, ◌+◌, ◌<◌, ◌≡◌, Bool, true, false, ltb, ◌==◌, if◌then◌else◌, Outcome, ok}
use mips_os.Synch.{Semaphore, Round, leaves, pcat_round, pmouse_round, vcat, vmouse}
use mips_os.Thread.{Threads}

pub data Who : Type 0 where
  cat mouse : Who

-- `B1sem` and `B2sem`
pub data Bowl : Type 0 where
  b1 b2 : Bowl

abbrev pub other : Bowl → Bowl
other b1 = b2
other b2 = b1

abbrev pub same_bowl : Bowl → Bowl → Bool
same_bowl b1 b1 = true
same_bowl b2 b2 = true
same_bowl b1 b2 = false
same_bowl b2 b1 = false

-- Where a thread stands: at the test of its loop, in `Pcat` or `Pmouse` of a bowl, in `sem_eat` at a
-- bowl, or behind the loop.
pub data Place : Type 0 where
  at_loop : Place
  seeks : Bowl → Place
  eats : Bowl → Place
  finished : Place

pub record Animal : Type 0 where
  pub iteration : ℕ
  pub place : Place

pub record State : Type 0 where
  pub sem : Bowl → Semaphore
  pub animal : ℕ → Animal

-- the bowl of the first call in the loop of `catsem` and of `mousesem`
abbrev pub first_bowl : Who → Bowl
first_bowl cat = b2
first_bowl mouse = b1

-- `while (curthread->iteration < 3)`
unfoldable pub enter_loop : Who → Animal → Animal
enter_loop who a = record a {
  place = if ltb a.iteration 3 then seeks (first_bowl who) else finished;
}

-- The end of `catEatBowl` and of `mouseEatBowl`, and the way to the next call.
unfoldable pub after_meal : Who → Bowl → Animal → Animal
after_meal who b a = record {
  iteration = a.iteration + 1;
  place = if same_bowl b (first_bowl who) then seeks (other b) else at_loop;
}

unfoldable pub p_round : Who → (cur_sem another_sem : Semaphore) → Round (Outcome Semaphore)
p_round cat cur_sem another_sem = pcat_round cur_sem another_sem
p_round mouse cur_sem another_sem = pmouse_round cur_sem another_sem

unfoldable pub v :
    Who → (mem : Bool) (addr : ℕ) → Semaphore → Threads → Outcome (Semaphore × Threads)
v cat mem addr cur_sem s = vcat mem addr cur_sem s
v mouse mem addr cur_sem s = vmouse mem addr cur_sem s

abbrev pub set_sem : Bowl → Semaphore → (Bowl → Semaphore) → Bowl → Semaphore
set_sem b s sem b' = if same_bowl b' b then s else sem b'

abbrev pub set_animal : ℕ → Animal → (ℕ → Animal) → ℕ → Animal
set_animal i a animal j = if j == i then a else animal j

module _ (ncats nmice : ℕ) where
  abbrev pub who : ℕ → Who
  who i = if ltb i ncats then cat else mouse

  -- A step of one thread. A round of `Pcat` or `Pmouse` that sleeps changes nothing here; `Vcat` and
  -- `Vmouse` wake sleepers, in whatever state `threads` these are.
  pub data Step (st : State) : State → Type 0 where
    tests :
        (i : ℕ)
        → i < ncats + nmice
        → (st.animal i).place ≡ at_loop
        → Step st (record st { animal = set_animal i (enter_loop (who i) (st.animal i)) st.animal })
    takes :
        (i : ℕ) (b : Bowl) (s : Semaphore)
        → i < ncats + nmice
        → (st.animal i).place ≡ seeks b
        → p_round (who i) (st.sem b) (st.sem (other b)) ≡ leaves (ok s)
        → Step st (record {
          sem = set_sem b s st.sem;
          animal = set_animal i (record (st.animal i) { place = eats b }) st.animal;
        })
    gives :
        (i : ℕ) (b : Bowl) (s : Semaphore) (mem : Bool) (addr : ℕ) (threads woken : Threads)
        → i < ncats + nmice
        → (st.animal i).place ≡ eats b
        → v (who i) mem addr (st.sem b) threads ≡ ok (s, woken)
        → Step st (record {
          sem = set_sem b s st.sem;
          animal = set_animal i (after_meal (who i) b (st.animal i)) st.animal;
        })

  -- the state that `catmousesem` sets up
  abbrev pub start : State
  start = record {
    sem = λ b. record { count = 1; is_occupied_by_mice = 0; is_occupied_by_cat = 0 };
    animal = λ i. record { iteration = 0; place = at_loop };
  }

  pub data Reach : State → Type 0 where
    initially : Reach start
    later : {st st' : State} → Reach st → Step st st' → Reach st'
