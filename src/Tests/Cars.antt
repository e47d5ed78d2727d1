-- ===== src/Tests/Cars.antt =====
-- kern/asst1/stoplight.c: the first actions of two cars.
use mips_os.Common.{ℕ, refl, some, none, arith}
use mips_os.Synch.{Lock, lock_acquire_round}
use mips_os.Stoplight.{
  State, Step, LockName, set_lock, advance, prints, enters, Reach, initially, later, car1, n, nw,
  approachintersection,
}
use mips_os.Stoplight.Deadlock.{no_deadlock}
use mips_os.Stoplight.Passes.{Run, IsEmpty, all_pass}

-- Every car comes from the north and goes straight on.
abbrev southward : ℕ → ℕ × ℕ
southward i = (0, 0)

abbrev free : LockName → Lock
free l = record { owner = none }

abbrev car0 : Lock
car0 = record { owner = some 0 }

-- car 0 is about to release its entrance
abbrev entering : State
entering = record {
  lock = set_lock (set_lock (set_lock free car1 car0) n car0) nw car0;
  pc = advance (advance (advance (advance (advance (λ _. 0) 0) 0) 0) 0) 0;
}

entering-Reach : Reach 2 southward entering
unfolding approachintersection lock_acquire_round
entering-Reach =
    later
      (later
        (later
          (later (later initially (prints 0 0 2 (omega arith) refl))
            (enters 0 car1 (omega arith) refl refl))
          (enters 0 n (omega arith) refl refl))
        (enters 0 nw (omega arith) refl refl))
      (prints 0 1 2 (omega arith) refl)

no_deadlock_example : (st' : State) × Step 2 southward entering st'
unfolding approachintersection
no_deadlock_example = no_deadlock 2 southward entering entering-Reach 1 (omega arith) (omega arith)

all_pass_example : (st' : State) × Run 2 southward entering st' × IsEmpty 2 southward st'
all_pass_example = all_pass 2 southward entering entering-Reach
