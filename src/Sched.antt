-- ===== src/Sched.antt =====
-- thread/scheduler.c: the round-robin run queue. Threads are numbers; `curspl` is the interrupt
-- level that the functions assert to be high.
pub mod Order
use mips_os.Common.{
  ℕ, zero, suc, ◌<◌, Bool, true, false, Option, none, some, List, [], ◌∷◌, ltb, ◌==◌, if◌then◌else◌,
  Outcome, ok, panic, ◌>>=◌, ◌>>◌, assert,
}
use mips_os.Queue
use mips_os.Queue.{Queue}

abbrev pub RunQueue : Type 0
RunQueue = Queue ℕ

-- `none` is the panic of a kernel that cannot create its queue.
unfoldable pub bootstrap : (mem mem' : Bool) → Option RunQueue
bootstrap mem mem' = Queue.create mem mem' 32

unfoldable pub preallocate : (curspl : ℕ) (mem : Bool) → RunQueue → ℕ → Outcome (ℕ × RunQueue)
preallocate curspl mem runqueue nthreads =
    assert (ltb 0 curspl) >> Queue.preallocate mem runqueue nthreads

unfoldable pub make_runnable : (curspl : ℕ) (mem : Bool) → RunQueue → ℕ → Outcome (ℕ × RunQueue)
make_runnable curspl mem runqueue t = assert (ltb 0 curspl) >> Queue.addtail mem runqueue (some t)

-- `while (!q_empty(runqueue)) q_remhead(runqueue);` The queue has `size` slots, so `size` rounds are
-- enough.
unfoldable pub drop_all : (fuel : ℕ) → RunQueue → Outcome RunQueue
drop_all zero runqueue = ok runqueue
drop_all (suc fuel) runqueue =
    let rest = Queue.remhead runqueue >>= λ (r : Option ℕ × RunQueue). drop_all fuel r.1 in
    if Queue.empty runqueue then ok runqueue else rest

unfoldable pub killall : (curspl : ℕ) → RunQueue → Outcome RunQueue
killall curspl runqueue = assert (ltb 0 curspl) >> drop_all runqueue.size runqueue

unfoldable pub shutdown : (curspl : ℕ) → RunQueue → Outcome (Unit {0})
shutdown curspl runqueue = do
  rest ← killall curspl runqueue
  assert (ltb 0 curspl)
  Queue.destroy rest

-- `scheduler` idles while nothing is ready. Each element of `idle` is the run queue as the
-- interrupts taken in one call of `cpu_idle` leave it; `none` says that the cpu is still idle after
-- all of them.
unfoldable pub scheduler :
    (curspl : ℕ) (idle : List RunQueue) → RunQueue → Outcome (Option (Option ℕ × RunQueue))
scheduler curspl [] runqueue = do
  assert (ltb 0 curspl)
  if Queue.empty runqueue then ok none else (Queue.remhead runqueue >>= λ r. ok (some r))
scheduler curspl (woken ∷ idle) runqueue =
    let later = scheduler curspl idle woken in
    assert (ltb 0 curspl)
    >> (if Queue.empty runqueue then later else (Queue.remhead runqueue >>= λ r. ok (some r)))
