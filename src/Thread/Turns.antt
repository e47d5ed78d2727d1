-- ===== src/Thread/Turns.antt =====
-- Which thread runs after a context switch, and where the one before it waits.
use mips_os.Common.{
  ℕ, zero, suc, ◌≡◌, ◌<◌, refl, sym, ap, ◌∙◌, Bool, true, none, some, List, [], ◌∷◌, ◌++◌, map,
  Outcome, ok, panic, arith, ◌==◌, if◌then◌else◌,
}
use mathlib.Core.List.{map-append}
use mips_os.Array.{Array}
use mips_os.Array.Size
use mips_os.Array.Refine.{add_lem}
use mips_os.Queue.Contents
use mips_os.Sched.Order.{make_runnable-ok, scheduler_fifo}
use mips_os.Thread.Wake
use mips_os.Thread.Wake.{HasRoom}
use mips_os.Thread.Switch.{System, stash, run_next, mi_switch, thread_yield, thread_sleep}

-- Thread `cur` runs, `asleep` sleep and `ready` wait for their turn, in this order.
pub record Runs (s : System) (cur : ℕ) (asleep ready : List ℕ) : Type 0 where
  pub valid : Wake.IsValid s.threads asleep
  pub current : s.curthread ≡ some cur
  pub queue : Contents.contents s.threads.runqueue ≡ map some ready

-- The switch to another thread leaves these as they are.
pub record Kept (s s' : System) : Type 0 where
  pub addresses : s'.threads.sleepaddr ≡ s.threads.sleepaddr
  pub dead : s'.zombies ≡ s.zombies
  pub count : s'.numthreads ≡ s.numthreads
  pub spaces : s'.t_vmspace ≡ s.t_vmspace
  pub directories : s'.t_cwd ≡ s.t_cwd

pub run_next_lem :
    (curspl : ℕ) (s : System) (next : ℕ) (asleep rest : List ℕ)
    → 0 < curspl
    → Wake.IsValid s.threads asleep
    → Contents.contents s.threads.runqueue ≡ map some (next ∷ rest)
    → (s' : System) × (run_next curspl s ≡ ok s') × Runs s' next asleep rest × Kept s s'
unfolding run_next
run_next_lem curspl s next asleep rest high v e =
    let (q, runs, qv, left) =
      scheduler_fifo curspl [] s.threads.runqueue (some next) (map some rest) high v.queue e in
    (
      record s { threads = record s.threads { runqueue = q }; curthread = some next },
      rw runs refl,
      record {
        valid = record { table = v.table; queue = qv; sleeping = v.sleeping };
        current = refl;
        queue = left;
      },
      record { addresses = refl; dead = refl; count = refl; spaces = refl; directories = refl },
    )

-- Where a thread runs with its stack magic in place, in a valid state with memory or a free slot
-- in the run queue, thread_yield reaches its switch with the running thread behind the ready ones
-- and the first of these current, the sleepers and their addresses as before; with no other thread
-- ready it is a switch to the same thread.
pub thread_yield_lem :
    (mem : Bool) (s : System) (cur next : ℕ) (asleep ready rest : List ℕ)
    → Runs s cur asleep ready
    → s.has_magic cur ≡ true
    → HasRoom mem s.threads.runqueue 1
    → ready ++ (cur ∷ []) ≡ next ∷ rest
    → (s' : System) × (thread_yield mem s ≡ ok s')
      × Runs s' next asleep rest
      × (s'.threads.sleepaddr ≡ s.threads.sleepaddr)
unfolding thread_yield mi_switch stash
thread_yield_lem mem s cur next asleep ready rest r magic room e =
    let (q, added, (qv, larger, queued)) =
      make_runnable-ok 15 mem s.threads.runqueue cur (omega arith) r.valid.queue room in
    let s₁ : System = record s { threads = record s.threads { runqueue = q }; curthread = none } in
    let (s', runs, after, kept) =
      run_next_lem 15 s₁ next asleep rest (omega arith)
        (record { table = r.valid.table; queue = qv; sleeping = r.valid.sleeping })
        (queued
          ∙ ap (λ l. l ++ (some cur ∷ [])) r.queue
          ∙ sym (map-append some ready (cur ∷ []))
          ∙ ap (map some) e) in
    (s', simp (r.current, magic, added) runs, after, kept.addresses)

-- With memory, `array_add` reports success.
pub added :
    (a : Array ℕ) (P : Array ℕ → Type 0) (r : Outcome (ℕ × Array ℕ))
    → Size.Reports true a P r
    → (b : Array ℕ) × (r ≡ ok (0, b)) × P b
added a P panic h = absurd h
added a P (ok (zero, b)) h = (b, refl, h)
added a P (ok (suc e, b)) h = cc (h.0)

-- Where a thread runs with its stack magic in place, outside an interrupt handler with interrupts
-- off, with memory, in a valid state in which another thread is ready, thread_sleep switches with
-- the running thread behind the other sleepers at the address and the first ready thread running.
pub thread_sleep_lem :
    (addr : ℕ) (s : System) (cur next : ℕ) (asleep rest : List ℕ)
    → Runs s cur asleep (next ∷ rest)
    → s.has_magic cur ≡ true
    → (s' : System) × (thread_sleep 15 0 true addr s ≡ ok s')
      × Runs s' next (asleep ++ (cur ∷ [])) rest
      × ((t : ℕ) → s'.threads.sleepaddr t ≡ (if t == cur then addr else s.threads.sleepaddr t))
unfolding thread_sleep mi_switch stash
thread_sleep_lem addr s cur next asleep rest r magic =
    let (sleepers, adds, (av, listed)) =
      added s.threads.sleepers
        (λ b.
          Size.IsValid b × (Size.contents b ≡ Size.contents s.threads.sleepers ++ (some cur ∷ [])))
        _ (add_lem true s.threads.sleepers cur r.valid.table) in
    let s₁ : System = record s {
      threads = record s.threads {
        sleepers = sleepers;
        sleepaddr = λ t. if t == cur then addr else s.threads.sleepaddr t;
      };
      curthread = none;
    } in
    let (s', runs, after, kept) =
      run_next_lem 15 s₁ next (asleep ++ (cur ∷ [])) rest (omega arith)
        (record {
          table = av;
          queue = r.valid.queue;
          sleeping =
              listed
              ∙ ap (λ l. l ++ (some cur ∷ [])) r.valid.sleeping
              ∙ sym (map-append some asleep (cur ∷ []));
        })
        r.queue in
    (s', simp (r.current, magic, adds) runs, after, (λ t. ap (λ f. f t) kept.addresses))
