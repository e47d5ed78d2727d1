-- ===== src/Stoplight.antt =====
-- kern/asst1/stoplight.c: cars at an intersection of four regions, each region under a lock.
-- A car is a thread, and what it does is a list of actions.
pub mod Check
pub mod Facts
pub mod Inv
pub mod Deadlock
pub mod Count
pub mod Passes
use mips_os.Common.{
  ℕ, suc, ◌+◌, ◌%◌, ◌<◌, ◌≡◌, Bool, true, false, Option, none, some, List, [], ◌∷◌, ◌==◌,
  if◌then◌else◌, get_elem?, Outcome, ok,
}
use mips_os.Synch.{Lock, leaves, lock_acquire_round, give_up}

-- The locks that `initialize` creates: the regions, the two permits and the four entrances.
pub data LockName : Type 0 where
  nw ne sw se car1 car2 n e s w : LockName

-- `message nr dest` prints message `nr` of the car with destination `dest`.
pub data Action : Type 0 where
  acquire : LockName → Action
  release : LockName → Action
  message : ℕ → ℕ → Action

unfoldable pub gostraight : (cardirection : ℕ) → List Action
gostraight cardirection =
    if cardirection == 2
    then message 0 0
      ∷ acquire car1
      ∷ acquire s
      ∷ acquire se
      ∷ message 1 0
      ∷ release s
      ∷ acquire ne
      ∷ message 2 0
      ∷ release se
      ∷ message 4 0
      ∷ release ne
      ∷ release car1
      ∷ []
    else if cardirection == 3
    then message 0 1
      ∷ acquire car2
      ∷ acquire w
      ∷ acquire sw
      ∷ message 1 1
      ∷ release w
      ∷ acquire se
      ∷ message 2 1
      ∷ release sw
      ∷ message 4 1
      ∷ release se
      ∷ release car2
      ∷ []
    else if cardirection == 0
    then message 0 2
      ∷ acquire car1
      ∷ acquire n
      ∷ acquire nw
      ∷ message 1 2
      ∷ release n
      ∷ acquire sw
      ∷ message 2 2
      ∷ release nw
      ∷ message 4 2
      ∷ release sw
      ∷ release car1
      ∷ []
    else if cardirection == 1
    then message 0 3
      ∷ acquire car2
      ∷ acquire e
      ∷ acquire ne
      ∷ message 1 3
      ∷ release e
      ∷ acquire nw
      ∷ message 2 3
      ∷ release ne
      ∷ message 4 3
      ∷ release nw
      ∷ release car2
      ∷ []
    else []

unfoldable pub turnleft : (cardirection : ℕ) → List Action
turnleft cardirection =
    if cardirection == 0
    then message 0 1
      ∷ acquire car1
      ∷ acquire n
      ∷ acquire nw
      ∷ message 1 1
      ∷ release n
      ∷ acquire sw
      ∷ message 2 1
      ∷ release nw
      ∷ acquire se
      ∷ message 3 1
      ∷ release sw
      ∷ message 4 1
      ∷ release se
      ∷ release car1
      ∷ []
    else if cardirection == 1
    then message 0 2
      ∷ acquire car2
      ∷ acquire e
      ∷ acquire ne
      ∷ message 1 2
      ∷ release e
      ∷ acquire nw
      ∷ message 2 2
      ∷ release ne
      ∷ acquire sw
      ∷ message 3 2
      ∷ release nw
      ∷ message 4 2
      ∷ release sw
      ∷ release car2
      ∷ []
    else if cardirection == 2
    then message 0 3
      ∷ acquire car1
      ∷ acquire s
      ∷ acquire se
      ∷ message 1 3
      ∷ release s
      ∷ acquire ne
      ∷ message 2 3
      ∷ release se
      ∷ acquire nw
      ∷ message 3 3
      ∷ release ne
      ∷ message 4 3
      ∷ release nw
      ∷ release car1
      ∷ []
    else if cardirection == 3
    then message 0 0
      ∷ acquire car2
      ∷ acquire w
      ∷ acquire sw
      ∷ message 1 0
      ∷ release w
      ∷ acquire se
      ∷ message 2 0
      ∷ release sw
      ∷ acquire ne
      ∷ message 3 0
      ∷ release se
      ∷ message 4 0
      ∷ release ne
      ∷ release car2
      ∷ []
    else []

unfoldable pub turnright : (cardirection : ℕ) → List Action
turnright cardirection =
    if cardirection == 2
    then message 0 1
      ∷ acquire car1
      ∷ acquire s
      ∷ acquire se
      ∷ message 1 1
      ∷ release s
      ∷ message 4 1
      ∷ release se
      ∷ release car1
      ∷ []
    else if cardirection == 3
    then message 0 2
      ∷ acquire car2
      ∷ acquire w
      ∷ acquire sw
      ∷ message 1 2
      ∷ release w
      ∷ message 4 2
      ∷ release sw
      ∷ release car2
      ∷ []
    else if cardirection == 0
    then message 0 3
      ∷ acquire car1
      ∷ acquire n
      ∷ acquire nw
      ∷ message 1 3
      ∷ release n
      ∷ message 4 3
      ∷ release nw
      ∷ release car1
      ∷ []
    else if cardirection == 1
    then message 0 0
      ∷ acquire car2
      ∷ acquire e
      ∷ acquire ne
      ∷ message 1 0
      ∷ release e
      ∷ message 4 0
      ∷ release ne
      ∷ release car2
      ∷ []
    else []

-- `approachintersection`, where `random()` first gives `r` and then `r'`
unfoldable pub approachintersection : (r r' : ℕ) → List Action
unfolding gostraight turnleft turnright
approachintersection r r' =
    let cardirection : ℕ = r % 4 in
    let turn : ℕ = r' % 3 in
    if turn == 0
    then gostraight cardirection
    else if turn == 1
    then turnleft cardirection
    else turnright cardirection

abbrev pub index : LockName → ℕ
index nw = 0
index ne = 1
index sw = 2
index se = 3
index car1 = 4
index car2 = 5
index n = 6
index e = 7
index s = 8
index w = 9

-- equality of the lock pointers
abbrev pub same : LockName → LockName → Bool
same a b = index a == index b

-- `pc i` is how many actions car `i` has done.
pub record State : Type 0 where
  pub lock : LockName → Lock
  pub pc : ℕ → ℕ

abbrev pub set_lock : (LockName → Lock) → LockName → Lock → LockName → Lock
set_lock f a v b = if same a b then v else f b

abbrev pub advance : (ℕ → ℕ) → ℕ → ℕ → ℕ
advance pc i j = if i == j then pc j + 1 else pc j

-- `createcars` starts `ncars` cars; `random` gives the two random numbers of each. A step is one
-- action of one car. A car that waits for a lock has no step until the lock is free.
module _ (ncars : ℕ) (random : ℕ → ℕ × ℕ) where
  abbrev pub route : ℕ → List Action
  route i = approachintersection (random i).0 (random i).1

  pub data Step (st : State) : State → Type 0 where
    enters :
        (i : ℕ) (a : LockName) {lock' : Lock}
        → i < ncars
        → get_elem? (route i) (st.pc i) ≡ some (acquire a)
        → lock_acquire_round i (st.lock a) ≡ leaves lock'
        → Step st (record { lock = set_lock st.lock a lock'; pc = advance st.pc i })
    exits :
        (i : ℕ) (a : LockName) {lock' : Lock}
        → i < ncars
        → get_elem? (route i) (st.pc i) ≡ some (release a)
        → give_up i (st.lock a) ≡ ok lock'
        → Step st (record { lock = set_lock st.lock a lock'; pc = advance st.pc i })
    prints :
        (i nr dest : ℕ)
        → i < ncars
        → get_elem? (route i) (st.pc i) ≡ some (message nr dest)
        → Step st (record st { pc = advance st.pc i })

  abbrev pub start : State
  start = record { lock = λ _. record { owner = none }; pc = λ _. 0 }

  pub data Reach : State → Type 0 where
    initially : Reach start
    later : {st st' : State} → Reach st → Step st st' → Reach st'
