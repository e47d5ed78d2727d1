-- ===== src/Tests/Threads.antt =====
-- thread/scheduler.c and thread/thread.c at small inputs.
use mips_os.Common.{
  ℕ, ◌+◌, ◌≡◌, refl, true, false, none, some, [], ◌∷◌, ok, arith, enomem, ◌==◌, inr, if◌then◌else◌,
}
use mips_os.Sched
use mips_os.Sched.{RunQueue}
use mips_os.Sched.Order.{preallocate-lacks_room}
use mips_os.Thread
use mips_os.Thread.{Threads}
use mips_os.Thread.Wake
use mips_os.Array.Size
use mips_os.Thread.Exit.{thread_exit_lem}
use mips_os.Thread.Switch.{System, thread_exit, thread_yield, thread_sleep}
use mips_os.Thread.Turns.{Runs, thread_yield_lem, thread_sleep_lem}
use mips_os.Thread.Wake.{wakeup_lem, onewakeup_lem, hassleepers_lem}

abbrev ready : RunQueue
ready = record { size = 4; nextwrite = 1; nextread = 0; slots = some 5 ∷ none ∷ none ∷ none ∷ [] }

-- one thread more fills it
abbrev nearly_full : RunQueue
nearly_full = record { size = 2; nextwrite = 1; nextread = 0; slots = some 5 ∷ none ∷ [] }

preallocate-lacks_room_example :
    (Sched.preallocate 15 true nearly_full 2 ≡ ok (0, nearly_full))
    × (Sched.make_runnable 15 false nearly_full 8 ≡ ok (enomem, nearly_full))
preallocate-lacks_room_example =
    preallocate-lacks_room 15 true nearly_full 8 (omega arith) (omega arith) refl

-- threads 1, 2 and 3 sleep, 1 and 3 at address 100
abbrev asleep : Threads
asleep = record {
  sleepers = record { num = 3; max = 3; v = some (some 1 ∷ some 2 ∷ some 3 ∷ []) };
  runqueue = ready;
  sleepaddr = λ t. if t == 2 then 200 else 100;
}

asleep-IsValid : Wake.IsValid asleep (1 ∷ 2 ∷ 3 ∷ [])
asleep-IsValid = record { table = omega arith; queue = omega arith; sleeping = refl }

wakeup_lem_example :
    (s' : Threads) × (Thread.wakeup 15 false 100 asleep ≡ ok s')
    × Wake.Woke asleep s' (2 ∷ []) (1 ∷ 3 ∷ [])
wakeup_lem_example =
    wakeup_lem 15 false 100 asleep (1 ∷ 2 ∷ 3 ∷ []) (omega arith) asleep-IsValid (inr (omega arith))

-- Thread 9 runs, 1, 2 and 3 sleep and 5 is ready.
abbrev pub running : System
running = record {
  threads = asleep;
  zombies = record { num = 0; max = 0; v = none };
  curthread = some 9;
  numthreads = 5;
  has_magic = λ t. true;
  t_vmspace = λ t. false;
  t_cwd = λ t. false;
  menuth = none;
  menucv = 3000;
  menusleep = record { owner = none };
  menusleep_addr = 3004;
}

pub running-Runs : Runs running 9 (1 ∷ 2 ∷ 3 ∷ []) (5 ∷ [])
running-Runs = record { valid = asleep-IsValid; current = refl; queue = refl }

thread_yield_lem_example :
    (s' : System) × (thread_yield false running ≡ ok s')
    × Runs s' 5 (1 ∷ 2 ∷ 3 ∷ []) (9 ∷ [])
    × (s'.threads.sleepaddr ≡ asleep.sleepaddr)
thread_yield_lem_example =
    thread_yield_lem false running 9 5 (1 ∷ 2 ∷ 3 ∷ []) (5 ∷ []) (9 ∷ []) running-Runs refl
      (inr (omega arith)) refl

thread_sleep_lem_example :
    (s' : System) × (thread_sleep 15 0 true 300 running ≡ ok s')
    × Runs s' 5 (1 ∷ 2 ∷ 3 ∷ 9 ∷ []) []
    × ((t : ℕ) → s'.threads.sleepaddr t ≡ (if t == 9 then 300 else asleep.sleepaddr t))
thread_sleep_lem_example = thread_sleep_lem 300 running 9 5 (1 ∷ 2 ∷ 3 ∷ []) [] running-Runs refl

thread_exit_lem_example :
    (s' : System) × (thread_exit true running ≡ ok s')
    × Runs s' 5 (1 ∷ 2 ∷ 3 ∷ []) []
    × (Size.contents s'.zombies ≡ some 9 ∷ [])
    × (s'.numthreads + 1 ≡ 5)
    × (s'.t_vmspace 9 ≡ false)
    × (s'.t_cwd 9 ≡ false)
thread_exit_lem_example =
    thread_exit_lem running 9 5 (1 ∷ 2 ∷ 3 ∷ []) [] [] running-Runs refl refl (omega arith)
      (omega arith) refl
