-- ===== src/Process.antt =====
-- thread/thread.c: the process table, `thread_create` and `thread_fork`. A thread is the number of its
-- slot in the table, its `threadPID`.
pub mod Room
pub mod Steps
pub mod Fork
use mips_os.Common.{
  ℕ, zero, suc, ◌+◌, Bool, true, false, not, ◌&&◌, Option, none, some, ltb, if◌then◌else◌, Outcome,
  ok, ◌>>=◌, enomem,
}
use mips_os.Array
use mips_os.Array.{Array}
use mips_os.Kheap.{update}
use mips_os.Sched
use mips_os.Sched.{RunQueue}
use mips_os.Synch.{Lock, lock_create}
use mips_os.Thread.{deref}
use mips_os.Thread.Switch.{System}

-- `struct process`. The condition variable has no state but the threads that sleep on it.
pub record Process : Type 0 where
  pub processthread : Option ℕ
  pub occupied : Bool
  pub exited : Bool
  pub exitcode : ℕ
  pub waiting : Bool
  pub parent_pid : ℕ
  pub exitpermission : Option Lock

-- `TOTAL_PROCESSES`
abbrev pub total_processes : ℕ
total_processes = 128

-- `table` and `noprocesses`
pub record Processes : Type 0 where
  pub table : ℕ → Process
  pub noprocesses : ℕ

-- The fields that it does not write start as 0, as all of the table does.
unfoldable pub init_processtable : Processes → Processes
init_processtable ps = record ps {
  table = λ i.
      if ltb i total_processes
      then record (ps.table i) {
        processthread = none;
        occupied = false;
        exited = false;
        waiting = false;
      }
      else ps.table i;
}

abbrev pub is_null {ℓ} : {A : Type ℓ} → Option A → Bool
is_null none = true
is_null (some a) = false

-- the loop of `thread_create` at slot `i`, with `rounds` to go
unfoldable pub find_slot : (table : ℕ → Process) (rounds i : ℕ) → Option ℕ
find_slot table zero i = none
find_slot table (suc rounds) i =
    let rest = find_slot table rounds (i + 1) in
    if not (table i).occupied && is_null (table i).processthread then some i else rest

-- The thread's slot, or `none` for NULL. The first two threads search from slot 0, later ones from
-- slot 2. `mem` says whether the thread gets memory for itself and its name, and `lock_mem` and
-- `name_mem` whether the lock of the slot gets its memory, without which it is NULL.
unfoldable pub thread_create : (mem lock_mem name_mem : Bool) → Processes → Option ℕ × Processes
thread_create false lock_mem name_mem ps = (none, ps)
thread_create true lock_mem name_mem ps =
    let early = ltb ps.noprocesses 2 in
    let ps' : Processes = record ps {
      noprocesses = if early then ps.noprocesses + 1 else ps.noprocesses;
    } in
    elim (find_slot ps.table (if early then 128 else 126) (if early then 0 else 2)) [
      | none ↦ (none, ps')
      | some i ↦ (
        some i,
        record ps' {
          table = update ps.table i (record (ps.table i) {
            processthread = some i;
            occupied = true;
            waiting = false;
            exitpermission = lock_create lock_mem name_mem;
          });
        },
      )
    ]

-- whether `kmalloc` returns memory at each place of `thread_fork`
pub record ForkMemory : Type 0 where
  pub thread : Bool
  pub lock : Bool
  pub lock_name : Bool
  pub stack : Bool
  pub sleepers : Bool
  pub zombies : Bool
  pub ready : Bool
  pub run : Bool

-- the error number, the new thread's slot where it is 0, and what the call leaves
abbrev pub Forked : Type 0
Forked = ℕ × ℕ × System × Processes

-- `if (result) goto fail;`, and the rest
abbrev pub or_fail : Processes → (System → Outcome Forked) → ℕ × System → Outcome Forked
or_fail ps k (zero, s) = k s
or_fail ps k (suc e, s) = ok (suc e, 0, s, ps)

-- what `thread_create` and `thread_fork` write to the new thread
unfoldable pub new_thread : (t : ℕ) → System → Outcome System
new_thread t s = deref s.curthread (λ cur. ok (record s {
  threads = record s.threads { sleepaddr = update s.threads.sleepaddr t 0 };
  has_magic = update s.has_magic t true;
  t_vmspace = update s.t_vmspace t false;
  t_cwd = update s.t_cwd t (s.t_cwd cur);
}))

unfoldable pub reserve_sleepers : (mem : Bool) → System → Outcome (ℕ × System)
reserve_sleepers mem s = Array.preallocate mem s.threads.sleepers (s.numthreads + 1) >>= λ r.
    ok (r.0, record s { threads = record s.threads { sleepers = r.1 } })

unfoldable pub reserve_zombies : (mem : Bool) → System → Outcome (ℕ × System)
reserve_zombies mem s =
    Array.preallocate mem s.zombies (s.numthreads + 1) >>= λ r. ok (r.0, record s { zombies = r.1 })

unfoldable pub reserve_ready : (mem : Bool) → System → Outcome (ℕ × System)
reserve_ready mem s = Sched.preallocate 15 mem s.threads.runqueue (s.numthreads + 1) >>= λ r.
    ok (r.0, record s { threads = record s.threads { runqueue = r.1 } })

unfoldable pub enqueue : (mem : Bool) (t : ℕ) → System → Outcome (ℕ × System)
enqueue mem t s = Sched.make_runnable 15 mem s.threads.runqueue t >>= λ r.
    ok (r.0, record s { threads = record s.threads { runqueue = r.1 } })

-- `thread_fork` with interrupts off: room for the new thread `t` wherever it may wait later, then its
-- place in the run queue. After a failure the thread's memory is freed, and its slot stays taken.
unfoldable pub reserve_and_run : ForkMemory → (t : ℕ) → System → Processes → Outcome Forked
reserve_and_run mem t s ps =
    reserve_sleepers mem.sleepers s
    >>= or_fail ps (λ s₁.
      reserve_zombies mem.zombies s₁
      >>= or_fail ps (λ s₂.
        reserve_ready mem.ready s₂
        >>= or_fail ps (λ s₃.
          enqueue mem.run t s₃
          >>= or_fail ps (λ s₄. ok (0, t, record s₄ { numthreads = s₄.numthreads + 1 }, ps)))))

unfoldable pub thread_fork : ForkMemory → System → Processes → Outcome Forked
thread_fork mem s ps =
    let made = thread_create mem.thread mem.lock mem.lock_name ps in
    elim made.0 [
      | none ↦ ok (enomem, 0, s, made.1)
      | some t ↦
          if mem.stack
          then (new_thread t s >>= λ s'. reserve_and_run mem t s' made.1)
          else ok (enomem, 0, s, made.1)
    ]
