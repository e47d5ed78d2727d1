-- ===== src/Sched/Order.antt =====
-- The order in which threads run, and when a thread may not be made runnable.
use mips_os.Common.{
  ℕ, ◌+◌, ◌<◌, ◌≡◌, refl, ap, ◌==◌, lt→ltb, Bool, true, false, Option, some, List, [], ◌∷◌, length,
  ok, enomem, arith, ◌⊎◌,
}
use mips_os.Queue
use mips_os.Queue.{Queue}
use mips_os.Queue.Contents.{count, contents, IsValid, length-contents}
use mips_os.Queue.Grow.{Reports}
use mips_os.Queue.Refine.{
  Added, addtail_lem, addtail_roomy, addtail_no_room, remhead_lem, empty_lem,
}
use mips_os.Sched.{RunQueue, preallocate, make_runnable, scheduler}

-- A thread made runnable waits behind all the others; an error leaves the run queue as it was.
pub make_runnable_lem :
    (curspl : ℕ) (mem : Bool) (q : RunQueue) (t : ℕ)
    → 0 < curspl
    → IsValid q
    → Reports mem q (Added q (some t)) (make_runnable curspl mem q t)
unfolding make_runnable
make_runnable_lem curspl mem q t high v = rw (lt→ltb 0 curspl high) (addtail_lem mem q (some t) v)

-- With room, or with memory to grow, it reports success.
pub make_runnable-ok :
    (curspl : ℕ) (mem : Bool) (q : RunQueue) (t : ℕ)
    → 0 < curspl
    → IsValid q
    → (mem ≡ true) ⊎ (count q + 1 < q.size)
    → (q' : RunQueue) × (make_runnable curspl mem q t ≡ ok (0, q')) × Added q (some t) q'
unfolding make_runnable
make_runnable-ok curspl mem q t high v room =
    rw (lt→ltb 0 curspl high) (addtail_roomy mem q (some t) v room)

-- With interrupts off and a valid run queue that is not empty, the scheduler returns the thread
-- that has waited longest, without idling, and leaves the others in order.
pub scheduler_fifo :
    (curspl : ℕ) (idle : List RunQueue) (q : RunQueue) (first : Option ℕ) (rest : List (Option ℕ))
    → 0 < curspl
    → IsValid q
    → contents q ≡ first ∷ rest
    → (q' : RunQueue) × (scheduler curspl idle q ≡ ok (some (first, q')))
      × IsValid q'
      × (contents q' ≡ rest)
unfolding scheduler
scheduler_fifo curspl [] q first rest high v e =
    let (q', runs, v', left) = remhead_lem q first rest v e in
    (q', rw (lt→ltb 0 curspl high, empty_lem q v, busy, runs) refl, v', left)
  where
    busy : (count q == 0) ≡ false
    busy = ground (arith, ap length e, length-contents q)
scheduler_fifo curspl (woken ∷ idle) q first rest high v e =
    let (q', runs, v', left) = remhead_lem q first rest v e in
    (q', rw (lt→ltb 0 curspl high, empty_lem q v, busy, runs) refl, v', left)
  where
    busy : (count q == 0) ≡ false
    busy = ground (arith, ap length e, length-contents q)

-- Where a valid run queue of n slots holds n - 1 threads, scheduler_preallocate(n) reports success
-- and changes nothing, and without memory make_runnable then reports ENOMEM for the nth thread.
pub preallocate-lacks_room :
    (curspl : ℕ) (mem : Bool) (q : RunQueue) (t : ℕ)
    → 0 < curspl
    → IsValid q
    → count q + 1 ≡ q.size
    → (preallocate curspl mem q (count q + 1) ≡ ok (0, q))
      × (make_runnable curspl false q t ≡ ok (enomem, q))
unfolding preallocate make_runnable
preallocate-lacks_room curspl mem q t high v full = (
  rw (lt→ltb 0 curspl high) (Queue.Refine.preallocate_no_op mem q (count q + 1) v (omega arith)),
  rw (lt→ltb 0 curspl high) (addtail_no_room q (some t) v full),
)
