-- ===== src/Process/Room.antt =====
-- What the steps of `thread_fork` promise.
use mips_os.Common.{ℕ, zero, suc, ◌+◌, ◌≡◌, ◌≤◌, Option, List, [], ◌++◌, Outcome, ok, panic, enomem}
use mips_os.Array.Size
use mips_os.Queue.Contents
use mips_os.Thread.Switch.{System}

pub record IsReady (s : System) : Type 0 where
  pub sleepers : Size.IsValid s.threads.sleepers
  pub zombies : Size.IsValid s.zombies
  pub ready : Contents.IsValid s.threads.runqueue

-- The lists of `s'` hold the same threads in the same order as those of `s`, but for `more` at the
-- end of the run queue.
pub record Grew (s s' : System) (more : List (Option ℕ)) : Type 0 where
  pub valid : IsReady s'
  pub asleep : Size.contents s'.threads.sleepers ≡ Size.contents s.threads.sleepers
  pub dead : Size.contents s'.zombies ≡ Size.contents s.zombies
  pub ready : Contents.contents s'.threads.runqueue ≡ Contents.contents s.threads.runqueue ++ more
  pub running : s'.curthread ≡ s.curthread

-- The same threads everywhere.
abbrev pub Stays : (s s' : System) → Type 0
Stays s s' = Grew s s' [] × (s'.numthreads ≡ s.numthreads)

-- A step reports 0 and `P`, or ENOMEM with the same threads in the lists.
abbrev pub Step : System → (System → Type 0) → Outcome (ℕ × System) → Type 0
Step s P panic = ⊥
Step s P (ok (zero, s')) = P s'
Step s P (ok (suc e, s')) = (suc e ≡ enomem) × Stays s s'

-- room for the next thread
abbrev pub RoomAsleep : System → Type 0
RoomAsleep s = s.numthreads + 1 ≤ s.threads.sleepers.max

abbrev pub RoomDead : System → Type 0
RoomDead s = s.numthreads + 1 ≤ s.zombies.max

abbrev pub RoomReady : System → Type 0
RoomReady s = s.numthreads + 1 ≤ s.threads.runqueue.size
