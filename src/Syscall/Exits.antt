-- ===== src/Syscall/Exits.antt =====
-- What `sys_exit` leaves: who runs, and what the program finds in its memory.
use mips_os.Common.{
  ℕ, ◌+◌, ◌%◌, ◌≡◌, ◌<◌, ◌≤◌, refl, sym, ap, ◌∙◌, true, false, not, some, none, List, ◌∷◌, ◌++◌,
  map, ◌==◌, ok, arith, inl,
}
use mathlib.Core.List.{map-append}
use mathlib.Core.Path.{subst}
use mips_os.Array.Size
use mips_os.Copy.{UserMemory, returns, copyin, copyout, usertop, write_bytes}
use mips_os.Copy.Mapped.{Mapped, write_bytes-Mapped, copyout-write_bytes}
use mips_os.Copy.RoundTrip.{copyin-copyout}
use mips_os.Synch.{Lock, lock_acquire_round, lock_release, give_up, cv_broadcast}
use mips_os.Syscall.{gone}
use mips_os.Syscall.State.{Kernel, bytes_of, store_word}
use mips_os.Syscall.Wait.{Addresses, set_exited, exit_thread, sys_exit}
use mips_os.Thread
use mips_os.Thread.{Threads, deref}
use mips_os.Thread.Exit.{thread_exit_lem}
use mips_os.Thread.Lists.{select}
use mips_os.Thread.Switch.{System, is_menuth, thread_exit}
use mips_os.Thread.Turns.{Runs}
use mips_os.Thread.Wake.{wakeup_lem}

abbrev pub sleeping_at : (sleepaddr : ℕ → ℕ) → ℕ → List ℕ → List ℕ
sleeping_at sleepaddr addr l = select (λ t. sleepaddr t == addr) l

abbrev pub elsewhere : (sleepaddr : ℕ → ℕ) → ℕ → List ℕ → List ℕ
elsewhere sleepaddr addr l = select (λ t. not (sleepaddr t == addr)) l

-- The running thread wakes all that sleep at an address.
wakes :
    (addr : ℕ) (s : System) (cur : ℕ) (asleep ready : List ℕ)
    → Runs s cur asleep ready
    → (t : Threads) × (Thread.wakeup 15 true addr s.threads ≡ ok t)
      × Runs
          (record s { threads = t })
          cur
          (elsewhere s.threads.sleepaddr addr asleep)
          (ready ++ sleeping_at s.threads.sleepaddr addr asleep)
      × (t.sleepaddr ≡ s.threads.sleepaddr)
wakes addr s cur asleep ready r =
    let (t, runs, w) = wakeup_lem 15 true addr s.threads asleep (omega arith) r.valid (inl refl) in
    (
      t,
      runs,
      record {
        valid = w.valid;
        current = r.current;
        queue =
            w.queued
            ∙ ap (λ l. l ++ map some (sleeping_at s.threads.sleepaddr addr asleep)) r.queue
            ∙ sym (map-append some ready (sleeping_at s.threads.sleepaddr addr asleep));
      },
      w.addresses,
    )

-- the store of a word at a good address
pub store_word_lem :
    (mem : UserMemory) (addr w : ℕ)
    → addr % 4 ≡ 0
    → addr + 4 ≤ usertop
    → Mapped mem addr 4
    → (user : UserMemory) × (store_word mem addr w ≡ ok user)
      × (copyin user addr 4 ≡ returns (bytes_of w))
unfolding store_word
store_word_lem mem addr w aligned low h =
    let stored : (write_bytes mem addr (bytes_of w)).0 ≡ 0 =
      write_bytes-Mapped mem addr (bytes_of w) h in
    let out : copyout mem (bytes_of w) addr ≡ write_bytes mem addr (bytes_of w) =
      copyout-write_bytes mem addr (bytes_of w) (omega arith) low in
    let fits : (addr % 4 == 0) ≡ true = ground (arith, aligned) in
    (
      (write_bytes mem addr (bytes_of w)).1,
      simp (fits, stored) refl,
      subst (λ (r : ℕ × UserMemory). copyin r.1 addr 4 ≡ returns (bytes_of w)) out
          (copyin-copyout mem (bytes_of w) addr (ap (λ (r : ℕ × UserMemory). r.0) out ∙ stored)),
    )

-- Two calls of `thread_wakeup`, at different places.
wakes_twice :
    (a b : ℕ) (s : System) (cur : ℕ) (asleep ready : List ℕ)
    → Runs s cur asleep ready
    → (t : Threads) × (u : Threads) × (Thread.wakeup 15 true a s.threads ≡ ok t)
      × (Thread.wakeup 15 true b t ≡ ok u)
      × Runs
          (record s { threads = u })
          cur
          (elsewhere s.threads.sleepaddr b (elsewhere s.threads.sleepaddr a asleep))
          ((ready ++ sleeping_at s.threads.sleepaddr a asleep)
            ++ sleeping_at s.threads.sleepaddr b (elsewhere s.threads.sleepaddr a asleep))
wakes_twice a b s cur asleep ready r =
    let f : ℕ → ℕ = s.threads.sleepaddr in
    let (t, first, r₁, same) = wakes a s cur asleep ready r in
    let (u, second, r₂, _) =
      wakes b (record s { threads = t }) cur (elsewhere f a asleep)
        (ready ++ sleeping_at f a asleep) r₁ in
    (
      t,
      u,
      first,
      second,
      subst
          (λ (g : ℕ → ℕ).
            Runs (record s { threads = u }) cur (elsewhere g b (elsewhere f a asleep))
              ((ready ++ sleeping_at f a asleep) ++ sleeping_at g b (elsewhere f a asleep)))
          same r₂,
    )

abbrev pub unlocked : Lock
unlocked = record { owner = none }

-- Who runs and who sleeps after `sys_exit`.
pub record Exited (places : Addresses) (c pid next : ℕ) (rest : List ℕ) (asleep : List ℕ)
    (k k' : Kernel) : Type 0 where
  pub runs : Runs k'.system next asleep rest
  pub user : k'.user ≡ k.user
  pub processes : k'.processes ≡ set_exited pid c unlocked k.processes

exit_thread-eq :
    (places : Addresses) (c : ℕ) (k : Kernel) (pid : ℕ) (t u : Threads) (s' : System)
    → (k.processes.table pid).exitpermission ≡ some unlocked
    → Thread.wakeup 15 true (places.exitcv pid) k.system.threads ≡ ok t
    → Thread.wakeup 15 true (places.exitpermission pid) t ≡ ok u
    → thread_exit true (record k.system { threads = u }) ≡ ok s'
    → exit_thread places true pid c k
      ≡ ok (gone (record k { system = s'; processes = set_exited pid c unlocked k.processes }))
unfolding exit_thread lock_release give_up cv_broadcast lock_acquire_round
exit_thread-eq places c k pid t u s' free first second exits =
    let own : (pid == pid) ≡ true = ground arith in simp (free, first, own, second, exits) refl

pub sys_exit_lem :
    (places : Addresses) (c : ℕ) (k : Kernel) (pid next : ℕ) (asleep ready rest dead : List ℕ)
    → Runs k.system pid asleep ready
    → k.system.has_magic pid ≡ true
    → is_menuth k.system pid ≡ false
    → 0 < k.system.numthreads
    → Size.IsValid k.system.zombies
    → Size.contents k.system.zombies ≡ map some dead
    → (k.processes.table pid).exitpermission ≡ some unlocked
    → (ready ++ sleeping_at k.system.threads.sleepaddr (places.exitcv pid) asleep)
        ++ sleeping_at k.system.threads.sleepaddr
            (places.exitpermission pid)
            (elsewhere k.system.threads.sleepaddr (places.exitcv pid) asleep)
      ≡ next ∷ rest
    → (k' : Kernel) × (sys_exit places true c k ≡ ok (gone k'))
      × Exited places c pid next rest
          (elsewhere k.system.threads.sleepaddr
            (places.exitpermission pid)
            (elsewhere k.system.threads.sleepaddr (places.exitcv pid) asleep))
          k
          k'
unfolding sys_exit
sys_exit_lem places c k pid next asleep ready rest dead r magic not_menu counted zv ze free woken =
    let (t, u, first, second, r₂) =
      wakes_twice (places.exitcv pid) (places.exitpermission pid) k.system pid asleep ready r in
    let still : Runs (record k.system { threads = u }) pid _ (next ∷ rest) =
      subst (Runs (record k.system { threads = u }) pid _) woken r₂ in
    let (s', exits, after, _, _, _, _) =
      thread_exit_lem (record k.system { threads = u }) pid next _ rest dead still magic not_menu
        counted zv ze in
    (
      record k { system = s'; processes = set_exited pid c unlocked k.processes },
      simp r.current (exit_thread-eq places c k pid t u s' free first second exits),
      record { runs = after; user = refl; processes = refl },
    )
