-- ===== src/Thread/Switch.antt =====
-- thread/thread.c: the running thread, context switches, and threads that exit.
use mips_os.Common.{
  ℕ, zero, suc, ◌+◌, ◌-◌, Bool, false, not, Option, none, some, [], ltb, ◌==◌, if◌then◌else◌,
  Outcome, ok, panic, ◌>>=◌, ◌>>◌, assert,
}
use mips_os.Array
use mips_os.Array.{Array}
use mips_os.Sched
use mips_os.Sched.{RunQueue}
use mips_os.Thread.{Threads, deref}
use mips_os.Synch.{Lock, sleeps, leaves, lock_acquire_round, lock_release, cv_broadcast}

-- `threadstate_t`
pub data ThreadState : Type 0 where
  s_run : ThreadState
  s_ready : ThreadState
  s_sleep : ThreadState
  s_zomb : ThreadState

-- The globals of the file, and the fields of each thread that its functions test. `has_magic` says
-- of a thread that it has the boot stack, or that its stack begins with the magic number. A
-- `curthread` of `none` is NULL; `t_vmspace` and `t_cwd` say whether these pointers are set. `menuth`
-- is the thread that the menu waits for, asleep at the address `menucv`; `menusleep` is the lock and
-- `menusleep_addr` its address.
pub record System : Type 0 where
  pub threads : Threads
  pub zombies : Array ℕ
  pub curthread : Option ℕ
  pub numthreads : ℕ
  pub has_magic : ℕ → Bool
  pub t_vmspace : ℕ → Bool
  pub t_cwd : ℕ → Bool
  pub menuth : Option ℕ
  pub menucv : ℕ
  pub menusleep : Lock
  pub menusleep_addr : ℕ

-- `mi_switch` puts the thread on the list for its next state; the error number is 0 for success.
unfoldable pub stash : (curspl : ℕ) (mem : Bool) → ThreadState → ℕ → System → Outcome (ℕ × System)
stash curspl mem s_run cur s = panic
stash curspl mem s_ready cur s = Sched.make_runnable curspl mem s.threads.runqueue cur >>= λ r.
    ok (r.0, record s { threads = record s.threads { runqueue = r.1 } })
stash curspl mem s_sleep cur s = Array.add mem s.threads.sleepers cur >>= λ r.
    ok (r.0, record s { threads = record s.threads { sleepers = r.1 } })
stash curspl mem s_zomb cur s =
    Array.add mem s.zombies cur >>= λ r. ok (r.0, record s { zombies = r.1 })

-- `next = scheduler(); curthread = next;`. Where no thread is ready the cpu idles, with `curthread`
-- NULL, until an interrupt wakes one.
unfoldable pub run_next : (curspl : ℕ) → System → Outcome System
run_next curspl s = Sched.scheduler curspl [] s.threads.runqueue >>= λ r. elim r [
  | none ↦ ok s
  | some x ↦ deref x.0 (λ next.
      ok (record s { threads = record s.threads { runqueue = x.1 }; curthread = some next }))
]

-- `mi_switch` up to `md_switch`, where the next thread goes on
unfoldable pub mi_switch : (curspl : ℕ) (mem : Bool) → ThreadState → System → Outcome System
mi_switch curspl mem nextstate s = assert (ltb 0 curspl) >> elim s.curthread [
  | none ↦ ok s
  | some cur ↦
      assert (s.has_magic cur)
      >> stash curspl mem nextstate cur (record s { curthread = none })
      >>= λ r. assert (r.0 == 0) >> run_next curspl r.1
]

-- `thread_yield`, with interrupts off from `splhigh` on
unfoldable pub thread_yield : (mem : Bool) → System → Outcome System
thread_yield mem s = mi_switch 15 mem s_ready s

-- `thread_sleep` up to the switch; when the thread runs again it resets its `t_sleepaddr`.
unfoldable pub thread_sleep :
    (curspl in_interrupt : ℕ) (mem : Bool) (addr : ℕ) → System → Outcome System
thread_sleep curspl in_interrupt mem addr s =
    assert (in_interrupt == 0)
    >> deref s.curthread (λ cur. mi_switch curspl mem s_sleep (record s {
      threads = record s.threads {
        sleepaddr = λ t. if t == cur then addr else s.threads.sleepaddr t;
      };
    }))

unfoldable pub after_sleep : System → Outcome System
after_sleep s = deref s.curthread (λ cur. ok (record s {
  threads = record s.threads { sleepaddr = λ t. if t == cur then 0 else s.threads.sleepaddr t };
}))

-- the end of `thread_exit`, after the menu is told. Of `as_destroy` and `VOP_DECREF` only the reset of
-- the thread's pointers is left here.
unfoldable pub leave : (mem : Bool) (cur : ℕ) → System → Outcome System
leave mem cur s =
    assert (ltb 0 s.numthreads)
    >> mi_switch 15 mem s_zomb (record s {
      numthreads = s.numthreads - 1;
      t_vmspace = λ t. if t == cur then false else s.t_vmspace t;
      t_cwd = λ t. if t == cur then false else s.t_cwd t;
    })

abbrev pub is_menuth : System → ℕ → Bool
is_menuth s cur = elim s.menuth [ none ↦ false | some t ↦ cur == t ]

-- the broadcast to the menu, with the lock in hand
unfoldable pub tell_menu : (mem : Bool) (cur : ℕ) → Lock → System → Outcome System
tell_menu mem cur lock s = cv_broadcast mem s.menucv s.threads >>= λ t.
    lock_release cur mem s.menusleep_addr lock t >>= λ r.
    ok (record s { threads = r.1; menusleep = r.0 })

-- `thread_exit` up to its switch, or up to the one of `lock_acquire` where `menusleep` is taken
unfoldable pub thread_exit : (mem : Bool) → System → Outcome System
thread_exit mem s = deref s.curthread (λ cur.
    assert (s.has_magic cur)
    >> (if is_menuth s cur
        then elim (lock_acquire_round cur s.menusleep) [
          | sleeps ↦ thread_sleep 15 0 mem s.menusleep_addr s
          | leaves lock ↦ (tell_menu mem cur lock s >>= λ s'. leave mem cur s')
        ]
        else leave mem cur s))

abbrev pub is_current : System → ℕ → Bool
is_current s t = elim s.curthread [ none ↦ false | some cur ↦ t == cur ]

-- `thread_destroy`, which frees the thread's memory
unfoldable pub thread_destroy : ℕ → System → Outcome (Unit {0})
thread_destroy t s =
    assert (not (is_current s t)) >> (assert (not (s.t_vmspace t)) >> assert (not (s.t_cwd t)))

-- the loop of `exorcise`, with `rounds` zombies to go
unfoldable pub destroy_from : (rounds i : ℕ) → System → Outcome (Unit {0})
destroy_from zero i s = ok tt
destroy_from (suc rounds) i s = Array.getguy s.zombies i >>= λ z.
    deref z
      (λ t. assert (not (is_current s t)) >> (thread_destroy t s >> destroy_from rounds (i + 1) s))

unfoldable pub exorcise : (curspl : ℕ) (mem : Bool) → System → Outcome System
exorcise curspl mem s =
    assert (ltb 0 curspl)
    >> (destroy_from (Array.getnum s.zombies) 0 s
        >> (Array.setsize mem s.zombies 0 >>= λ r.
            assert (r.0 == 0) >> ok (record s { zombies = r.1 })))

-- `thread_killall`, which prints the threads' names and drops them
unfoldable pub thread_killall : (curspl : ℕ) (mem : Bool) → System → Outcome System
thread_killall curspl mem s =
    assert (ltb 0 curspl)
    >> (Array.setsize mem s.threads.sleepers 0 >>= λ r.
        assert (r.0 == 0) >> ok (record s { threads = record s.threads { sleepers = r.1 } }))

unfoldable pub thread_panic : (curspl : ℕ) (mem : Bool) → System → Outcome System
thread_panic curspl mem s =
    assert (ltb 0 curspl)
    >> (thread_killall curspl mem s >>= λ s'. Sched.killall curspl s'.threads.runqueue >>= λ q.
        ok (record s' { threads = record s'.threads { runqueue = q } }))
