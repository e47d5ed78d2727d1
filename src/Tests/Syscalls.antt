-- ===== src/Tests/Syscalls.antt =====
-- Processes and system calls at small inputs.
use mips_os.Common.{
  ℕ, ◌+◌, ◌≡◌, refl, true, false, none, some, [], ◌∷◌, ok, arith, ltb, if◌then◌else◌,
}
use mips_os.AddrSpace.{AddrSpace, Region}
use mips_os.Coremap.{num_empty_cm}
use mips_os.Copy.{UserMemory, returns, copyin}
use mips_os.Process.{Processes, ForkMemory, thread_fork}
use mips_os.Process.Fork.{Forks, thread_fork_lem}
use mips_os.Syscall.{answers, waits, gone, Trapframe, mips_syscall}
use mips_os.Syscall.State.{Kernel, bytes_of}
use mips_os.Syscall.Bounds.{Broke, sys_sbrk_lem}
use mips_os.Syscall.Break.{sys_sbrk}
use mips_os.Syscall.Exits.{unlocked}
use mips_os.Syscall.Waits.{sys_waitpid-sys_exit}
use mips_os.Syscall.Handlers.{Machine, kernel_calls}
use mips_os.Syscall.Reads.{FourArrive, mips_syscall-read}
use mips_os.Syscall.Wait.{Addresses, sys_waitpid, sys_exit}
use mips_os.Tests.Threads.{running, running-Runs}

abbrev plenty : ForkMemory
plenty = record {
  thread = true;
  lock = true;
  lock_name = true;
  stack = true;
  sleepers = true;
  zombies = true;
  ready = true;
  run = true;
}

-- Process 9 runs, the child of 5.
abbrev processes : Processes
processes = record {
  table = λ i. record {
    processthread = if ltb 0 i then some i else none;
    occupied = ltb 0 i;
    exited = false;
    exitcode = 0;
    waiting = false;
    parent_pid = 5;
    exitpermission = some unlocked;
  };
  noprocesses = 1;
}

thread_fork_lem_example : Forks running processes (thread_fork plenty running processes)
thread_fork_lem_example =
    thread_fork_lem plenty running 9 processes
      (record { sleepers = omega arith; zombies = omega arith; ready = omega arith }) refl

abbrev heap : Region
heap = record {
  vstart = 4194304;
  vend = 4194304;
  numofpages = 0;
  pstart = 0;
  pend = 0;
  pagetable = none;
  vend_actual = 4198400;
}

abbrev kernel : Kernel
kernel = record {
  system = running;
  processes = processes;
  space = record { text = none; «data» = none; heap = some heap; stack = none };
  memory = record {
    ram = record { firstpaddr = 0; lastpaddr = 0 };
    before_vm = false;
    coremap = record { allocated = false; paddr_base = 4096 } ∷ [];
  };
  user = λ a. if ltb a 4096 then some 0 else none;
  typed = 104 ∷ 101 ∷ 108 ∷ 108 ∷ 111 ∷ 10 ∷ [];
  shown = [];
  born = [];
}

-- one page less
sys_sbrk_lem_example :
    (r : ℕ × ℕ × AddrSpace) × (sys_sbrk 0 4294963200 kernel
      ≡ ok (answers r.0 r.1 (record kernel { space = r.2 })))
    × Broke 4294963200 1 heap kernel.space r
unfolding num_empty_cm
sys_sbrk_lem_example =
    sys_sbrk_lem 0 4294963200 kernel heap refl (omega arith) (omega arith) (omega arith)
      (omega arith)

abbrev places : Addresses
places = record { exitpermission = λ i. 1000 + i; exitcv = λ i. 2000 + i }

-- the memory of the thread that waits
abbrev others : UserMemory
others = λ a. some 1

sys_waitpid-sys_exit_example :
    (k' : Kernel) × (user : UserMemory) × (sys_exit places true 7 kernel ≡ ok (gone k'))
    × (sys_waitpid places false 9 64 0 (record k' { space = kernel.space; user = others })
        ≡ ok (answers 0 9 (record k' { space = kernel.space; user = user })))
    × (copyin user 64 4 ≡ returns (bytes_of 7))
sys_waitpid-sys_exit_example =
    sys_waitpid-sys_exit places false 7 64 9 kernel 9 5 (1 ∷ 2 ∷ 3 ∷ []) (5 ∷ []) [] [] kernel.space
      others running-Runs refl refl (omega arith) (omega arith) refl refl refl
      (record {
        low = omega arith;
        positive = omega arith;
        not_null = omega arith;
        aligned = refl;
        inside = omega arith;
        mapped = ((1, refl), ((1, refl), ((1, refl), ((1, refl), tt))));
        thread = refl;
        not_waited = refl;
        other = refl;
        not_parent = refl;
      })

abbrev machine : Machine
machine = record {
  reboot = λ code k. ok (gone k);
  execv = λ program args k. ok (waits k);
  stale = [];
  uninit = 0;
  places = places;
  mem = true;
  tf_mem = true;
  as_mem = true;
  stale_table = none;
  fork_mem = plenty;
  sec = 0;
  nsec = 0;
}

abbrev read_six : Trapframe
read_six = record { v0 = 5; a0 = 0; a1 = 64; a2 = 6; a3 = 0; epc = 4194400 }

mips_syscall-read_example :
    (k' : Kernel) × (mips_syscall (kernel_calls machine) 0 read_six kernel
      ≡ ok (answers 0 6 (record read_six { v0 = 6; epc = 4194404 }, k')))
    × FourArrive (104 ∷ 101 ∷ 108 ∷ 108 ∷ 111 ∷ 10 ∷ []) [] 64 kernel k'
mips_syscall-read_example =
    mips_syscall-read machine read_six (104 ∷ 101 ∷ 108 ∷ 108 ∷ 111 ∷ 10 ∷ []) [] kernel refl refl
      refl refl (omega arith) (omega arith) ((0, refl), ((0, refl), ((0, refl), ((0, refl), tt))))
