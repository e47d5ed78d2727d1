-- ===== src/Synch.antt =====
-- thread/synch.c: semaphores, locks and condition variables, as far as one thread runs them with
-- interrupts off. A waiting loop is a round for each time that the thread is run: it sleeps again,
-- or it leaves the loop. `Thread.wakeup` is what `thread_wakeup` does to the sleepers.
use mips_os.Common.{
  ℕ, ◌+◌, ◌-◌, ◌^◌, Bool, false, not, ◌||◌, Option, none, some, ltb, ◌==◌, if◌then◌else◌, Outcome,
  ok, ◌>>=◌, ◌>>◌, assert,
}
use mips_os.Thread
use mips_os.Thread.{Threads}

-- One round of a waiting loop: `sleeps` calls `thread_sleep` and tests again when it wakes.
pub data Round {ℓ} (A : Type ℓ) : Type ℓ where
  sleeps : Round A
  leaves : A → Round A

-- `struct semaphore`, whose name is not modelled. `count` is an `int`.
pub record Semaphore : Type 0 where
  pub count : ℕ
  pub is_occupied_by_mice : ℕ
  pub is_occupied_by_cat : ℕ

-- `mem` and `mem'` say whether the two calls of `kmalloc` return memory, here and below.
unfoldable pub sem_create : (mem mem' : Bool) (initial_count : ℕ) → Option Semaphore
sem_create mem mem' initial_count =
    if mem
    then if mem'
      then some (record { count = initial_count; is_occupied_by_mice = 0; is_occupied_by_cat = 0 })
      else none
    else none

-- `addr` is the semaphore's own address; nobody may sleep on it.
unfoldable pub sem_destroy : (addr : ℕ) → Threads → Outcome (Unit {0})
sem_destroy addr s = Thread.hassleepers 15 addr s >>= λ (some_sleep : Bool). assert (not some_sleep)

-- `P`, from the test of its loop on
unfoldable pub p_round : Semaphore → Round (Outcome Semaphore)
p_round sem =
    if sem.count == 0
    then sleeps
    else leaves (assert (ltb 0 sem.count) >> ok (record sem { count = sem.count - 1 }))

-- `sem->count++; assert(sem->count > 0);`: the greatest `int` wraps to a negative count.
abbrev pub raise_count : Semaphore → Outcome Semaphore
raise_count sem = assert (ltb (sem.count + 1) (2 ^ 31)) >> ok (record sem { count = sem.count + 1 })

-- `V`: the semaphore, and the threads after `thread_wakeup(sem)`. Interrupts are off (level 15).
unfoldable pub v : (mem : Bool) (addr : ℕ) → Semaphore → Threads → Outcome (Semaphore × Threads)
v mem addr sem s = raise_count sem >>= λ sem'. Thread.wakeup 15 mem addr s >>= λ s'. ok (sem', s')

-- `Pcat` and `Pmouse`, from the test of the loop on
unfoldable pub pcat_round : (cur_sem another_sem : Semaphore) → Round (Outcome Semaphore)
pcat_round cur_sem another_sem =
    if cur_sem.count == 0 || another_sem.is_occupied_by_mice == 1
    then sleeps
    else leaves (
        assert (ltb 0 cur_sem.count)
        >> ok (record cur_sem { is_occupied_by_cat = 1; count = cur_sem.count - 1 }))

unfoldable pub pmouse_round : (cur_sem another_sem : Semaphore) → Round (Outcome Semaphore)
pmouse_round cur_sem another_sem =
    if cur_sem.count == 0 || another_sem.is_occupied_by_cat == 1
    then sleeps
    else leaves (
        assert (ltb 0 cur_sem.count)
        >> ok (record cur_sem { is_occupied_by_mice = 1; count = cur_sem.count - 1 }))

unfoldable pub vcat : (mem : Bool) (addr : ℕ) → Semaphore → Threads → Outcome (Semaphore × Threads)
vcat mem addr cur_sem s = raise_count cur_sem >>= λ sem'.
    Thread.wakeup 15 mem addr s >>= λ s'. ok (record sem' { is_occupied_by_cat = 0 }, s')

unfoldable pub vmouse :
    (mem : Bool) (addr : ℕ) → Semaphore → Threads → Outcome (Semaphore × Threads)
vmouse mem addr cur_sem s = raise_count cur_sem >>= λ sem'.
    Thread.wakeup 15 mem addr s >>= λ s'. ok (record sem' { is_occupied_by_mice = 0 }, s')

-- `struct lock`, whose name is not modelled
pub record Lock : Type 0 where
  pub owner : Option ℕ

unfoldable pub lock_create : (mem mem' : Bool) → Option Lock
lock_create mem mem' = if mem then if mem' then some (record { owner = none }) else none else none

abbrev pub is_owner : ℕ → Option ℕ → Bool
is_owner t none = false
is_owner t (some u) = t == u

-- `lock_acquire` by thread `curthread`, from the test of its loop on
unfoldable pub lock_acquire_round : (curthread : ℕ) → Lock → Round Lock
lock_acquire_round curthread lock = elim lock.owner [
  | none ↦ leaves (record { owner = some curthread })
  | some u ↦ sleeps
]

-- the part of `lock_release` before its call of `thread_wakeup`
unfoldable pub give_up : (curthread : ℕ) → Lock → Outcome Lock
give_up curthread lock = assert (is_owner curthread lock.owner) >> ok (record { owner = none })

unfoldable pub lock_release :
    (curthread : ℕ) (mem : Bool) (addr : ℕ) → Lock → Threads → Outcome (Lock × Threads)
lock_release curthread mem addr lock s =
    give_up curthread lock >>= λ lock'. Thread.wakeup 15 mem addr s >>= λ s'. ok (lock', s')

unfoldable pub lock_do_i_hold : (curthread : ℕ) → Lock → ℕ
lock_do_i_hold curthread lock = if is_owner curthread lock.owner then 1 else 0

-- `cv_wait` up to its `thread_sleep(cv)`; when the thread wakes it goes on with `lock_acquire`.
unfoldable pub cv_wait_release :
    (curthread : ℕ) (mem : Bool) (lock_addr : ℕ) → Lock → Threads → Outcome (Lock × Threads)
cv_wait_release curthread mem lock_addr lock s = lock_release curthread mem lock_addr lock s

unfoldable pub cv_signal : (mem : Bool) (addr : ℕ) → Threads → Outcome Threads
cv_signal mem addr s = Thread.onewakeup 15 mem addr s

unfoldable pub cv_broadcast : (mem : Bool) (addr : ℕ) → Threads → Outcome Threads
cv_broadcast mem addr s = Thread.wakeup 15 mem addr s
