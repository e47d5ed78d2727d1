-- ===== src/Process/Fork.antt =====
-- `thread_fork`: room for the new thread everywhere, or nothing.
use mips_os.Common.{
  ℕ, zero, suc, ◌+◌, ◌≡◌, ◌<◌, ◌≤◌, refl, sym, Bool, true, false, Bool-cases, Option, none, some,
  [], ◌∷◌, Outcome, ok, panic, ◌>>=◌, arith, ◌==◌, ltb, if◌then◌else◌, enomem, append-nil, inl, inr,
}
use mathlib.Core.Path.{subst}
use mips_os.Queue.Contents
use mips_os.Thread.Switch.{System}
use mips_os.Kheap.{update}
use mips_os.Synch.{Lock, lock_create}
use mips_os.Process.Room.{IsReady, Grew, Step, Stays}
use mips_os.Process.Steps.{
  Started, reserve_sleepers_lem, reserve_zombies_lem, reserve_ready_lem, enqueue_lem,
}
use mips_os.Process.{
  Processes, Process, is_null, find_slot, thread_create, ForkMemory, Forked, or_fail, new_thread,
  reserve_and_run, thread_fork,
}

-- The slot is one that no thread had, and it is now the thread's.
pub record IsTaken (ps : Processes) (t : ℕ) (ps' : Processes) : Type 0 where
  pub low : t < 128
  pub was_free : (ps.table t).occupied ≡ false
  pub had_none : (ps.table t).processthread ≡ none
  pub own : (ps'.table t).processthread ≡ some t
  pub occupied : (ps'.table t).occupied ≡ true
  pub others : (q : ℕ) → (q == t) ≡ false → ps'.table q ≡ ps.table q

abbrev pub Forks : System → Processes → Outcome Forked → Type 0
Forks s ps panic = ⊥
Forks s ps (ok (zero, t, s', ps')) =
    IsTaken ps t ps'
    × Grew s s' (some t ∷ [])
    × (s'.numthreads ≡ s.numthreads + 1)
    × (s'.numthreads ≤ s'.threads.sleepers.max)
    × (s'.numthreads ≤ s'.zombies.max)
    × (s'.numthreads ≤ s'.threads.runqueue.size)
Forks s ps (ok (suc e, t, s', ps')) = (suc e ≡ enomem) × Stays s s'

then_next :
    (s : System) (ps ps' : Processes) (P : System → Type 0) (r : Outcome (ℕ × System))
    (k : System → Outcome Forked)
    → Step s P r
    → ((s' : System) → P s' → Forks s ps (k s'))
    → Forks s ps (r >>= or_fail ps' k)
then_next s ps ps' P panic k h next = h
then_next s ps ps' P (ok (zero, s')) k h next = next s' h
then_next s ps ps' P (ok (suc e, s')) k h next = h

started :
    (t : ℕ) (s s' : System) (ps ps' : Processes)
    → IsTaken ps t ps'
    → Started t s s'
    → Forks s ps (ok (0, t, record s' { numthreads = s'.numthreads + 1 }, ps'))
started t s s' ps ps' taken (g, n, asleep, dead, ready) = (
  taken,
  record {
    valid = record {
      sleepers = g.valid.sleepers;
      zombies = g.valid.zombies;
      ready = g.valid.ready;
    };
    asleep = g.asleep;
    dead = g.dead;
    ready = g.ready;
    running = g.running;
  },
  omega (arith, n),
  asleep,
  dead,
  ready,
)

reserve_and_run_lem :
    (mem : ForkMemory) (t : ℕ) (s₀ s : System) (ps ps' : Processes)
    → IsTaken ps t ps'
    → Stays s₀ s
    → Forks s₀ ps (reserve_and_run mem t s ps')
unfolding reserve_and_run
reserve_and_run_lem mem t s₀ s ps ps' taken h =
    then_next s₀ ps ps' _ _ _ (reserve_sleepers_lem mem.sleepers s₀ s h) (λ s₁ h₁.
      then_next s₀ ps ps' _ _ _ (reserve_zombies_lem mem.zombies s₀ s₁ h₁) (λ s₂ h₂.
        then_next s₀ ps ps' _ _ _ (reserve_ready_lem mem.ready s₀ s₂ h₂) (λ s₃ h₃.
          then_next s₀ ps ps' _ _ _ (enqueue_lem mem.run t s₀ s₃ h₃)
            (λ s₄ h₄. started t s₀ s₄ ps ps' taken h₄))))

-- what the search for a slot may find
abbrev Free : (ℕ → Process) → ℕ → Option ℕ → Type 0
Free table bound none = Unit {0}
Free table bound (some t) =
    (t < bound) × ((table t).occupied ≡ false) × ((table t).processthread ≡ none)

null_lem : (p : Option ℕ) → is_null p ≡ true → p ≡ none
null_lem none h = refl
null_lem (some t) h = cc h

find_slot_lem :
    (table : ℕ → Process) (rounds i : ℕ) → Free table (i + rounds) (find_slot table rounds i)
unfolding find_slot
find_slot_lem table zero i = tt
find_slot_lem table (suc rounds) i =
    let h : Free table (i + suc rounds) (find_slot table rounds (i + 1)) =
      subst (λ n. Free table n (find_slot table rounds (i + 1))) (omega arith)
        (find_slot_lem table rounds (i + 1)) in
    elim (Bool-cases (table i).occupied) [
      | inl used ↦ rw used h
      | inr free ↦ elim (Bool-cases (is_null (table i).processthread)) [
        | inl null ↦ rw (free, null) (omega arith, free, null_lem _ null)
        | inr thread ↦ rw (free, thread) h
      ]
    ]

abbrev Created : Processes → Option ℕ × Processes → Type 0
Created ps (none, ps') = Unit {0}
Created ps (some t, ps') = IsTaken ps t ps'

same : (s : System) → IsReady s → Grew s s []
same s v = record {
  valid = v;
  asleep = refl;
  dead = refl;
  ready = sym (append-nil (Contents.contents s.threads.runqueue));
  running = refl;
}

given_slot :
    (ps : Processes) (n : ℕ) (lock : Option Lock) (r : Option ℕ)
    → Free ps.table 128 r
    → Created ps (elim r as (λ _. Option ℕ × Processes) [
      | none ↦ (none, record ps { noprocesses = n })
      | some i ↦ (
        some i,
        record ps {
          table = update ps.table i (record (ps.table i) {
            processthread = some i;
            occupied = true;
            waiting = false;
            exitpermission = lock;
          });
          noprocesses = n;
        },
      )
    ])
given_slot ps n lock none h = tt
given_slot ps n lock (some t) (low, free, null) =
    let self : (t == t) ≡ true = ground arith in
    record {
      low = low;
      was_free = free;
      had_none = null;
      own = rw self refl;
      occupied = rw self refl;
      others = λ q ne. rw ne refl;
    }

searched :
    (table : ℕ → Process) (early : Bool)
    → Free table 128 (find_slot table (if early then 128 else 126) (if early then 0 else 2))
searched table true = find_slot_lem table 128 0
searched table false = find_slot_lem table 126 2

thread_create_lem :
    (mem lock_mem name_mem : Bool) (ps : Processes)
    → Created ps (thread_create mem lock_mem name_mem ps)
unfolding thread_create
thread_create_lem false lock_mem name_mem ps = tt
thread_create_lem true lock_mem name_mem ps =
    let n : ℕ = if ltb ps.noprocesses 2 then ps.noprocesses + 1 else ps.noprocesses in
    given_slot ps n (lock_create lock_mem name_mem)
      (find_slot ps.table (if ltb ps.noprocesses 2 then 128 else 126)
        (if ltb ps.noprocesses 2 then 0 else 2))
      (searched ps.table (ltb ps.noprocesses 2))

new_thread_lem :
    (t : ℕ) (s : System) (cur : ℕ)
    → IsReady s
    → s.curthread ≡ some cur
    → (s' : System) × (new_thread t s ≡ ok s') × Stays s s'
unfolding new_thread
new_thread_lem t s cur v runs = (
  record s {
    threads = record s.threads { sleepaddr = update s.threads.sleepaddr t 0 };
    has_magic = update s.has_magic t true;
    t_vmspace = update s.t_vmspace t false;
    t_cwd = update s.t_cwd t (s.t_cwd cur);
  },
  simp runs refl,
  (
    record {
      valid = record { sleepers = v.sleepers; zombies = v.zombies; ready = v.ready };
      asleep = refl;
      dead = refl;
      ready = sym (append-nil (Contents.contents s.threads.runqueue));
      running = refl;
    },
    refl,
  ),
)

forked :
    (mem : ForkMemory) (s : System) (cur : ℕ) (ps : Processes) (r : Option ℕ × Processes)
    → IsReady s
    → s.curthread ≡ some cur
    → Created ps r
    → Forks s ps (elim r.0 [
      | none ↦ ok (enomem, 0, s, r.1)
      | some t ↦
          if mem.stack
          then (new_thread t s >>= λ s'. reserve_and_run mem t s' r.1)
          else ok (enomem, 0, s, r.1)
    ])
forked mem s cur ps (none, ps') v runs h = (refl, (same s v, refl))
forked mem s cur ps (some t, ps') v runs h = elim (Bool-cases mem.stack) [
  | inl stack ↦
      let (s', made, stays) = new_thread_lem t s cur v runs in
      simp (stack, made) (reserve_and_run_lem mem t s s' ps ps' h stays)
  | inr out ↦ simp out (refl, (same s v, refl))
]

-- For a running thread, valid sleepers, zombies and run queue, and whatever memory there is,
-- thread_fork returns. On 0 a slot that was neither occupied nor anyone's is the new thread's and
-- the other slots are as before, the new thread waits behind the others in the run queue, the
-- sleepers and zombies are as before, numthreads is one more, the lists of sleepers and zombies
-- have room for that many threads, and the run queue has that many slots. On an error, which is
-- ENOMEM, the lists hold the same threads and numthreads is as before.
pub thread_fork_lem :
    (mem : ForkMemory) (s : System) (cur : ℕ) (ps : Processes)
    → IsReady s
    → s.curthread ≡ some cur
    → Forks s ps (thread_fork mem s ps)
unfolding thread_fork
thread_fork_lem mem s cur ps v runs =
    forked mem s cur ps (thread_create mem.thread mem.lock mem.lock_name ps) v runs
      (thread_create_lem mem.thread mem.lock mem.lock_name ps)
