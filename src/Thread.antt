-- ===== src/Thread.antt =====
-- thread/thread.c: sleeping, waking and switching. A thread is a number; address 0 is NULL.
pub mod Lists
pub mod Wake
pub mod Switch
pub mod Turns
pub mod Exit
use mips_os.Common.{
  ℕ, zero, suc, ◌+◌, ◌-◌, ◌<◌, ◌≡◌, Bool, true, false, not, Option, none, some, List, [], ◌∷◌, ◌++◌,
  ltb, ◌==◌, if◌then◌else◌, Outcome, ok, panic, ◌>>=◌, ◌>>◌, assert,
}
use mips_os.Array
use mips_os.Array.{Array}
use mips_os.Sched
use mips_os.Sched.{RunQueue}

-- The threads that are not running. `sleepaddr` is the field `t_sleepaddr` of every thread.
pub record Threads : Type 0 where
  pub sleepers : Array ℕ
  pub runqueue : RunQueue
  pub sleepaddr : ℕ → ℕ

-- A pointer read from an array. The code would follow one that was never written; here it panics.
abbrev pub deref {ℓ} : {B : Type ℓ} → Option ℕ → (ℕ → Outcome B) → Outcome B
deref none k = panic
deref (some t) k = k t

-- The loop of `thread_wakeup` at index `i`, and of `thread_onewakeup` if `once` is true: it ends
-- after the first thread that it wakes. Each round ends with fewer sleepers after index `i`, so as
-- many rounds as there are sleepers are enough.
unfoldable pub wake_from :
    (curspl : ℕ) (mem once : Bool) (addr : ℕ) (fuel i : ℕ) → Threads → Outcome Threads
wake_from curspl mem once addr zero i s = ok s
wake_from curspl mem once addr (suc fuel) i s =
    let skip = wake_from curspl mem once addr fuel (i + 1) s in
    let wake = λ (t : ℕ). Array.remove s.sleepers i >>= λ (sleepers : Array ℕ).
    Sched.make_runnable curspl mem s.runqueue t >>= λ (r : ℕ × RunQueue).
    assert (r.0 == 0)
    >> (let s' : Threads = record s { sleepers = sleepers; runqueue = r.1 } in
        let again = wake_from curspl mem once addr fuel i s' in if once then ok s' else again) in
    if ltb i (Array.getnum s.sleepers)
    then (Array.getguy s.sleepers i >>= λ guy.
        deref guy (λ t. if s.sleepaddr t == addr then wake t else skip))
    else ok s

unfoldable pub wakeup : (curspl : ℕ) (mem : Bool) (addr : ℕ) → Threads → Outcome Threads
wakeup curspl mem addr s =
    assert (ltb 0 curspl) >> wake_from curspl mem false addr (Array.getnum s.sleepers) 0 s

unfoldable pub onewakeup : (curspl : ℕ) (mem : Bool) (addr : ℕ) → Threads → Outcome Threads
onewakeup curspl mem addr s =
    assert (ltb 0 curspl) >> wake_from curspl mem true addr (Array.getnum s.sleepers) 0 s

unfoldable pub find_sleeper : (addr : ℕ) (fuel i : ℕ) → Threads → Outcome Bool
find_sleeper addr zero i s = ok false
find_sleeper addr (suc fuel) i s =
    let next = find_sleeper addr fuel (i + 1) s in
    if ltb i (Array.getnum s.sleepers)
    then (Array.getguy s.sleepers i >>= λ guy.
        deref guy (λ t. if s.sleepaddr t == addr then ok true else next))
    else ok false

unfoldable pub hassleepers : (curspl : ℕ) (addr : ℕ) → Threads → Outcome Bool
hassleepers curspl addr s = assert (ltb 0 curspl) >> find_sleeper addr (Array.getnum s.sleepers) 0 s
