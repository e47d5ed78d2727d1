-- ===== src/Syscall/Waits.antt =====
-- What a thread that waits learns of one that has exited.
use mips_os.Common.{
  ℕ, ◌+◌, ◌%◌, ◌≡◌, ◌<◌, ◌≤◌, refl, sym, ap, ◌∙◌, Bool, true, false, some, none, List, ◌∷◌, ◌++◌,
  map, leb, ◌==◌, ok, arith,
}
use mathlib.Core.Path.{subst}
use mips_os.Array.Size
use mips_os.Copy.{UserMemory, returns, copyin, usertop}
use mips_os.Copy.Mapped.{Mapped, copyin-Mapped}
use mips_os.Process.{total_processes}
use mips_os.Syscall.{answers, gone}
use mips_os.Syscall.State.{Kernel, bytes_of}
use mips_os.Syscall.Wait.{Addresses, refuse, report, sys_waitpid, set_exited, sys_exit}
use mips_os.Thread.Turns.{Runs}
use mips_os.AddrSpace.{AddrSpace}
use mips_os.Thread.Switch.{is_menuth}
use mips_os.Syscall.Exits.{sleeping_at, elsewhere, store_word_lem, unlocked, sys_exit_lem, Exited}

-- `cur` may wait for `pid` and learn its exit code at `status`.
pub record CanWait (k : Kernel) (cur pid status t : ℕ) : Type 0 where
  pub low : pid < total_processes
  pub positive : 0 < pid
  pub not_null : 0 < status
  pub aligned : status % 4 ≡ 0
  pub inside : status + 4 ≤ usertop
  pub mapped : Mapped k.user status 4
  pub thread : (k.processes.table pid).processthread ≡ some t
  pub not_waited : (k.processes.table pid).waiting ≡ false
  pub other : (pid == cur) ≡ false
  pub not_parent : (pid == (k.processes.table cur).parent_pid) ≡ false

refuse-none :
    (k : Kernel) (cur pid status t : ℕ)
    → CanWait k cur pid status t
    → refuse cur pid status 0 k ≡ ok none
unfolding refuse
refuse-none k cur pid status t h =
    let (bs, reads) = copyin-Mapped k.user status 4 (omega arith) h.inside h.mapped in
    let a : (status == 0) ≡ false = ground (arith, h.not_null) in
    let b : leb total_processes pid ≡ false = ground (arith, h.low) in
    let c : (pid == 0) ≡ false = ground (arith, h.positive) in
    let d : (status % 4 == 0) ≡ true = ground (arith, h.aligned) in
    simp (a, b, c, d, reads, h.thread, h.not_waited, h.other, h.not_parent) refl

waitpid_exited :
    (places : Addresses) (mem : Bool) (k : Kernel) (cur pid status t : ℕ)
    → k.system.curthread ≡ some cur
    → CanWait k cur pid status t
    → (k.processes.table pid).exited ≡ true
    → (user : UserMemory) × (sys_waitpid places mem pid status 0 k
        ≡ ok (answers 0 pid (record k { user = user })))
      × (copyin user status 4 ≡ returns (bytes_of (k.processes.table pid).exitcode))
unfolding sys_waitpid report
waitpid_exited places mem k cur pid status t runs h dead =
    let (user, stores, reads) =
      store_word_lem k.user status (k.processes.table pid).exitcode h.aligned h.inside h.mapped in
    (user, simp (runs, refuse-none k cur pid status t h, dead, stores) refl, reads)

exited-CanWait :
    (places : Addresses) (k k' : Kernel) (c next pid status t : ℕ) (rest asleep : List ℕ)
    → CanWait k next pid status t
    → Exited places c pid next rest asleep k k'
    → CanWait k' next pid status t
      × ((k'.processes.table pid).exited ≡ true)
      × ((k'.processes.table pid).exitcode ≡ c)
unfolding set_exited
exited-CanWait places k k' c next pid status t rest asleep h e =
    let own : (pid == pid) ≡ true = ground arith in
    let here : k'.processes.table pid ≡ record (k.processes.table pid) {
      exited = true;
      exitcode = c;
      exitpermission = some unlocked;
    } =
      ap (λ ps. ps.table pid) e.processes ∙ rw own refl in
    let ne : (next == pid) ≡ false = ground (arith, h.other) in
    let there : k'.processes.table next ≡ k.processes.table next =
      ap (λ ps. ps.table next) e.processes ∙ rw ne refl in
    (
      record {
        low = h.low;
        positive = h.positive;
        not_null = h.not_null;
        aligned = h.aligned;
        inside = h.inside;
        mapped = subst (λ u. Mapped u status 4) (sym e.user) h.mapped;
        thread = ap (λ p. p.processthread) here ∙ h.thread;
        not_waited = ap (λ p. p.waiting) here ∙ h.not_waited;
        other = h.other;
        not_parent = ap (λ p. pid == p.parent_pid) there ∙ h.not_parent;
      },
      ap (λ p. p.exited) here,
      ap (λ p. p.exitcode) here,
    )

-- A counted thread that the menu does not wait for, with its stack magic in place, exits with a
-- code and no interrupt comes in between, in a valid state, with memory, while another thread is
-- ready or is woken by the exit and nobody holds the lock of its slot. Then sys_exit switches.
-- sys_waitpid for it by the thread that runs next, with that thread's address space and memory in
-- place of those of the thread that has exited, returns at once with its number, and leaves the
-- four bytes of the code at the status pointer. That pointer has to be aligned, mapped and below
-- USERTOP, the number that of a slot with a thread that is not waited for, and the waiting thread
-- neither the one that exits nor its child.
pub sys_waitpid-sys_exit :
    (places : Addresses) (mem : Bool) (c status t : ℕ) (k : Kernel) (pid next : ℕ)
    (asleep ready rest dead : List ℕ) (space' : AddrSpace) (user' : UserMemory)
    → Runs k.system pid asleep ready
    → k.system.has_magic pid ≡ true
    → is_menuth k.system pid ≡ false
    → 0 < k.system.numthreads
    → Size.IsValid k.system.zombies
    → Size.contents k.system.zombies ≡ map some dead
    → (k.processes.table pid).exitpermission ≡ some unlocked
    → (ready ++ sleeping_at k.system.threads.sleepaddr (places.exitcv pid) asleep)
        ++ sleeping_at k.system.threads.sleepaddr
            (places.exitpermission pid)
            (elsewhere k.system.threads.sleepaddr (places.exitcv pid) asleep)
      ≡ next ∷ rest
    → CanWait (record k { space = space'; user = user' }) next pid status t
    → (k' : Kernel) × (user : UserMemory) × (sys_exit places true c k ≡ ok (gone k'))
      × (sys_waitpid places mem pid status 0 (record k' { space = space'; user = user' })
          ≡ ok (answers 0 pid (record k' { space = space'; user = user })))
      × (copyin user status 4 ≡ returns (bytes_of c))
sys_waitpid-sys_exit places mem c status t k pid next asleep ready rest dead space' user' r magic
      not_menu counted zv ze free woken can =
    let (k', exits, e) =
      sys_exit_lem places c k pid next asleep ready rest dead r magic not_menu counted zv ze free
        woken in
    let k₂ : Kernel = record k' { space = space'; user = user' } in
    let (can', is_dead, code) =
      exited-CanWait places (record k { space = space'; user = user' }) k₂ c next pid status t rest
        _ can (record { runs = e.runs; user = refl; processes = e.processes }) in
    let (user, answered, reads) =
      waitpid_exited places mem k₂ next pid status t e.runs.current can' is_dead in
    (k', user, exits, answered, reads ∙ ap (λ w. returns (bytes_of w)) code)
