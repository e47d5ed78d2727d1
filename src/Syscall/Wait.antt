-- ===== src/Syscall/Wait.antt =====
-- kern/arch/mips/mips/syscall.c: `sys_waitpid` and `sys_exit`. The calls of `kmalloc` are taken to
-- return memory for the copy of the status.
use mips_os.Common.{
  ℕ, ◌%◌, Bool, true, not, ◌||◌, Option, none, some, leb, ◌==◌, if◌then◌else◌, Outcome, ok, ◌>>=◌,
  einval, efault,
}
use mips_os.AddrSpace
use mips_os.Copy.{fails, returns, copyin}
use mips_os.Kheap.{update}
use mips_os.Process.{Processes, total_processes, is_null}
use mips_os.Synch.{
  Lock, sleeps, leaves, lock_acquire_round, lock_release, cv_broadcast, cv_wait_release,
}
use mips_os.Syscall.{Reached, answers, waits, gone}
use mips_os.Syscall.State.{Kernel, store_word, minus_one}
use mips_os.Thread.{deref}
use mips_os.Thread.Switch
use mips_os.Thread.Switch.{System, thread_sleep, after_sleep}

-- where the locks and the condition variables of the slots stand in memory
pub record Addresses : Type 0 where
  pub exitpermission : ℕ → ℕ
  pub exitcv : ℕ → ℕ

abbrev pub set_lock : (pid : ℕ) → Lock → Processes → Processes
set_lock pid lock ps = record ps {
  table = update ps.table pid (record (ps.table pid) { exitpermission = some lock });
}

-- The `return`s before the test of `exited`, in their order: an error number, `retval` (0 where it is
-- not written) and the memory of the program, or `none` where the call goes on.
unfoldable pub refuse : (cur pid status options : ℕ) → Kernel → Outcome (Option (ℕ × ℕ × Kernel))
refuse cur pid status options k =
    let p = k.processes.table pid in
    if not (options == 0)
    then ok (some (einval, 0, k))
    else if status == 0
    then ok (some (efault, 0, k))
    else if leb total_processes pid
    then ok (some (einval, 0, k))
    else if pid == 0
    then (store_word k.user status 0 >>= λ user. ok (some (einval, 0, record k { user = user })))
    else elim (copyin k.user status 4) [
      | fails e ↦ ok (some (e, minus_one, k))
      | returns checked ↦
          if not (status % 4 == 0)
            || is_null p.processthread
            || p.waiting
            || pid == cur
            || pid == (k.processes.table cur).parent_pid
          then ok (some (einval, 0, k))
          else ok none
    ]

-- `*status = table[PID].exitcode; *retval = PID; return 0;`
unfoldable pub report : (pid status : ℕ) → Kernel → Outcome (Reached Kernel)
report pid status k = store_word k.user status (k.processes.table pid).exitcode >>= λ user.
    ok (answers 0 pid (record k { user = user }))

-- `lock_acquire`, and `cv_wait` up to its `thread_sleep`. A thread that finds a lock taken, here and
-- below, sleeps at the lock and comes back to the same place when it wakes.
unfoldable pub wait_for : Addresses → (mem : Bool) (cur pid : ℕ) → Kernel → Outcome (Reached Kernel)
wait_for places mem cur pid k = AddrSpace.deref (k.processes.table pid).exitpermission (λ lock.
    elim (lock_acquire_round cur lock) [
      | sleeps ↦ thread_sleep 15 0 mem (places.exitpermission pid) k.system >>= λ s.
          ok (waits (record k { system = s }))
      | leaves held ↦
          cv_wait_release cur mem (places.exitpermission pid) held k.system.threads >>= λ r.
          thread_sleep 15 0 mem (places.exitcv pid) (record k.system { threads = r.1 }) >>= λ s.
          ok (waits (record k { system = s; processes = set_lock pid r.0 k.processes }))
    ])

-- The rest after `cv_wait` has slept: it takes the lock, which `sys_waitpid` gives up at once.
unfoldable pub finish_wait :
    Addresses → (mem : Bool) (cur pid status : ℕ) → Kernel → Outcome (Reached Kernel)
finish_wait places mem cur pid status k =
    AddrSpace.deref (k.processes.table pid).exitpermission (λ lock.
      elim (lock_acquire_round cur lock) [
        | sleeps ↦ thread_sleep 15 0 mem (places.exitpermission pid) k.system >>= λ s.
            ok (waits (record k { system = s }))
        | leaves held ↦
            lock_release cur mem (places.exitpermission pid) held k.system.threads >>= λ r.
            store_word k.user status (k.processes.table pid).exitcode >>= λ user.
            let p = k.processes.table pid in
            ok (
              answers 0 pid (record k {
                system = record k.system { threads = r.1 };
                processes = record k.processes {
                  table =
                      update k.processes.table pid
                        (record p { exitpermission = some r.0; waiting = true });
                };
                user = user;
              }))
      ])

-- `sys_waitpid` up to its first sleep
unfoldable pub sys_waitpid :
    Addresses → (mem : Bool) (pid status options : ℕ) → Kernel → Outcome (Reached Kernel)
sys_waitpid places mem pid status options k = deref k.system.curthread (λ cur.
    refuse cur pid status options k >>= λ refused. elim refused [
      | some x ↦ ok (answers x.0 x.1 x.2)
      | none ↦
          if (k.processes.table pid).exited
          then report pid status k
          else wait_for places mem cur pid k
    ])

-- `exited` and `exitcode` are set after the broadcast.
unfoldable pub set_exited : (pid exitcode : ℕ) → Lock → Processes → Processes
set_exited pid exitcode lock ps = record ps {
  table =
      update ps.table pid
        (record (ps.table pid) { exited = true; exitcode = exitcode; exitpermission = some lock });
}

-- `sys_exit` by thread `cur`, without another thread in between
unfoldable pub exit_thread :
    Addresses → (mem : Bool) (cur exitcode : ℕ) → Kernel → Outcome (Reached Kernel)
exit_thread places mem cur exitcode k =
    AddrSpace.deref (k.processes.table cur).exitpermission (λ lock.
      elim (lock_acquire_round cur lock) [
        | sleeps ↦ thread_sleep 15 0 mem (places.exitpermission cur) k.system >>= λ s.
            ok (waits (record k { system = s }))
        | leaves held ↦ cv_broadcast mem (places.exitcv cur) k.system.threads >>= λ woken.
            lock_release cur mem (places.exitpermission cur) held woken >>= λ r.
            Switch.thread_exit mem (record k.system { threads = r.1 }) >>= λ s.
            ok (gone (record k { system = s; processes = set_exited cur exitcode r.0 k.processes }))
      ])

unfoldable pub sys_exit :
    Addresses → (mem : Bool) (exitcode : ℕ) → Kernel → Outcome (Reached Kernel)
sys_exit places mem exitcode k =
    deref k.system.curthread (λ cur. exit_thread places mem cur exitcode k)
