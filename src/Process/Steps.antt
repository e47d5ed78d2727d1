-- ===== src/Process/Steps.antt =====
-- The steps of `thread_fork` that make room for the new thread.
use mips_os.Common.{
  ℕ, zero, suc, ◌+◌, ◌≡◌, ◌≤◌, sym, ap, ◌∙◌, Bool, some, [], ◌∷◌, ◌++◌, Outcome, ok, panic, ◌>>=◌,
  arith, append-nil,
}
use mathlib.Core.Path.{subst}
use mips_os.Array
use mips_os.Array.Size
use mips_os.Queue.Contents
use mips_os.Queue.Grow
use mips_os.Queue.Refine
use mips_os.Queue
use mips_os.Sched
use mips_os.Sched.{RunQueue}
use mips_os.Sched.Order.{make_runnable_lem}
use mips_os.Thread.Switch.{System}
use mips_os.Process.{reserve_sleepers, reserve_zombies, reserve_ready, enqueue}
use mips_os.Process.Room.{Grew, Stays, Step, RoomAsleep, RoomDead, RoomReady}

pub reserve_sleepers_lem :
    (mem : Bool) (s₀ s : System)
    → Stays s₀ s
    → Step s₀ (λ s'. Stays s₀ s' × RoomAsleep s') (reserve_sleepers mem s)
unfolding reserve_sleepers
reserve_sleepers_lem mem s₀ s (g, n) =
    stored (Array.preallocate mem s.threads.sleepers (s.numthreads + 1))
      (Size.preallocate_lem mem s.threads.sleepers (s.numthreads + 1) g.valid.sleepers)
  where
    stored :
        (r : Outcome (ℕ × Array.Array ℕ))
        → Size.Reports mem s.threads.sleepers
            (λ b.
              Size.IsValid b
              × (s.numthreads + 1 ≤ b.max)
              × (s.threads.sleepers.max ≤ b.max)
              × (b.num ≡ s.threads.sleepers.num)
              × (Size.contents b ≡ Size.contents s.threads.sleepers))
            r
        → Step s₀
            (λ s'. Stays s₀ s' × RoomAsleep s')
            (r >>= λ r. ok (r.0, record s { threads = record s.threads { sleepers = r.1 } }))
    stored panic h = h
    stored (ok (zero, b)) (v, room, more, num, kept) = (
      (
        record {
          valid = record { sleepers = v; zombies = g.valid.zombies; ready = g.valid.ready };
          asleep = kept ∙ g.asleep;
          dead = g.dead;
          ready = g.ready;
          running = g.running;
        },
        n,
      ),
      room,
    )
    stored (ok (suc e, b)) (m, is, same) = (
      is,
      (
        record {
          valid = record {
            sleepers = subst Size.IsValid (sym same) g.valid.sleepers;
            zombies = g.valid.zombies;
            ready = g.valid.ready;
          };
          asleep = ap Size.contents same ∙ g.asleep;
          dead = g.dead;
          ready = g.ready;
          running = g.running;
        },
        n,
      ),
    )

pub reserve_zombies_lem :
    (mem : Bool) (s₀ s : System)
    → Stays s₀ s × RoomAsleep s
    → Step s₀ (λ s'. Stays s₀ s' × RoomAsleep s' × RoomDead s') (reserve_zombies mem s)
unfolding reserve_zombies
reserve_zombies_lem mem s₀ s ((g, n), asleep) =
    stored (Array.preallocate mem s.zombies (s.numthreads + 1))
      (Size.preallocate_lem mem s.zombies (s.numthreads + 1) g.valid.zombies)
  where
    stored :
        (r : Outcome (ℕ × Array.Array ℕ))
        → Size.Reports mem s.zombies
            (λ b.
              Size.IsValid b
              × (s.numthreads + 1 ≤ b.max)
              × (s.zombies.max ≤ b.max)
              × (b.num ≡ s.zombies.num)
              × (Size.contents b ≡ Size.contents s.zombies))
            r
        → Step s₀
            (λ s'. Stays s₀ s' × RoomAsleep s' × RoomDead s')
            (r >>= λ r. ok (r.0, record s { zombies = r.1 }))
    stored panic h = h
    stored (ok (zero, b)) (v, room, more, num, kept) = (
      (
        record {
          valid = record { sleepers = g.valid.sleepers; zombies = v; ready = g.valid.ready };
          asleep = g.asleep;
          dead = kept ∙ g.dead;
          ready = g.ready;
          running = g.running;
        },
        n,
      ),
      asleep,
      room,
    )
    stored (ok (suc e, b)) (m, is, same) = (
      is,
      (
        record {
          valid = record {
            sleepers = g.valid.sleepers;
            zombies = subst Size.IsValid (sym same) g.valid.zombies;
            ready = g.valid.ready;
          };
          asleep = g.asleep;
          dead = ap Size.contents same ∙ g.dead;
          ready = g.ready;
          running = g.running;
        },
        n,
      ),
    )

-- room everywhere
abbrev pub Roomy : (s₀ s : System) → Type 0
Roomy s₀ s = Stays s₀ s × RoomAsleep s × RoomDead s × RoomReady s

pub reserve_ready_lem :
    (mem : Bool) (s₀ s : System)
    → Stays s₀ s × RoomAsleep s × RoomDead s
    → Step s₀ (Roomy s₀) (reserve_ready mem s)
unfolding reserve_ready Sched.preallocate
reserve_ready_lem mem s₀ s ((g, n), asleep, dead) =
    stored (Queue.preallocate mem s.threads.runqueue (s.numthreads + 1))
      (Refine.preallocate_lem mem s.threads.runqueue (s.numthreads + 1) g.valid.ready)
  where
    stored :
        (r : Outcome (ℕ × RunQueue))
        → Grow.Reports mem s.threads.runqueue (Grow.Grown s.threads.runqueue (s.numthreads + 1)) r
        → Step s₀
            (Roomy s₀)
            (r >>= λ r. ok (r.0, record s { threads = record s.threads { runqueue = r.1 } }))
    stored panic h = h
    stored (ok (zero, q)) (v, room, more, kept) = (
      (
        record {
          valid = record { sleepers = g.valid.sleepers; zombies = g.valid.zombies; ready = v };
          asleep = g.asleep;
          dead = g.dead;
          ready = kept ∙ g.ready;
          running = g.running;
        },
        n,
      ),
      asleep,
      dead,
      room,
    )
    stored (ok (suc e, q)) (m, is, same) = (
      is,
      (
        record {
          valid = record {
            sleepers = g.valid.sleepers;
            zombies = g.valid.zombies;
            ready = subst Contents.IsValid (sym same) g.valid.ready;
          };
          asleep = g.asleep;
          dead = g.dead;
          ready = ap Contents.contents same ∙ g.ready;
          running = g.running;
        },
        n,
      ),
    )

-- The new thread waits behind the others.
abbrev pub Started : (t : ℕ) (s₀ s : System) → Type 0
Started t s₀ s =
    Grew s₀ s (some t ∷ [])
    × (s.numthreads ≡ s₀.numthreads)
    × RoomAsleep s
    × RoomDead s
    × RoomReady s

pub enqueue_lem :
    (mem : Bool) (t : ℕ) (s₀ s : System) → Roomy s₀ s → Step s₀ (Started t s₀) (enqueue mem t s)
unfolding enqueue
enqueue_lem mem t s₀ s ((g, n), asleep, dead, room) =
    stored (Sched.make_runnable 15 mem s.threads.runqueue t)
      (make_runnable_lem 15 mem s.threads.runqueue t (omega arith) g.valid.ready)
  where
    stored :
        (r : Outcome (ℕ × RunQueue))
        → Grow.Reports mem s.threads.runqueue (Refine.Added s.threads.runqueue (some t)) r
        → Step s₀
            (Started t s₀)
            (r >>= λ r. ok (r.0, record s { threads = record s.threads { runqueue = r.1 } }))
    stored panic h = h
    stored (ok (zero, q)) (v, more, kept) = (
      record {
        valid = record { sleepers = g.valid.sleepers; zombies = g.valid.zombies; ready = v };
        asleep = g.asleep;
        dead = g.dead;
        ready = kept ∙ ap (λ l. l ++ (some t ∷ [])) (g.ready ∙ append-nil _);
        running = g.running;
      },
      n,
      asleep,
      dead,
      omega (arith, room, more),
    )
    stored (ok (suc e, q)) (m, is, same) = (
      is,
      (
        record {
          valid = record {
            sleepers = g.valid.sleepers;
            zombies = g.valid.zombies;
            ready = subst Contents.IsValid (sym same) g.valid.ready;
          };
          asleep = g.asleep;
          dead = g.dead;
          ready = ap Contents.contents same ∙ g.ready;
          running = g.running;
        },
        n,
      ),
    )
