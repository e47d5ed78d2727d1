-- ===== src/Syscall/Handlers.antt =====
-- kern/arch/mips/mips/syscall.c: the handlers that `mips_syscall` calls.
use mips_os.Common.{ℕ, Bool, Option, List}
use mips_os.AddrSpace.{PageTable}
use mips_os.Process.{ForkMemory}
use mips_os.Syscall.{Handler, Calls}
use mips_os.Syscall.State.{Kernel}
use mips_os.Syscall.Io.{sys_write, sys_read, sys_time, sys_getpid}
use mips_os.Syscall.Break.{sys_sbrk}
use mips_os.Syscall.Fork.{sys_fork}
use mips_os.Syscall.Wait.{Addresses, sys_waitpid, sys_exit}

-- What the handlers depend on besides the kernel's state: the two handlers that are not modelled, the
-- contents of memory that they read before they set it, the answers of `kmalloc`, and the clock.
pub record Machine : Type 0 where
  pub reboot : ℕ → Handler Kernel
  pub execv : (program args : ℕ) → Handler Kernel
  pub stale : List ℕ
  pub uninit : ℕ
  pub places : Addresses
  pub mem : Bool
  pub tf_mem : Bool
  pub as_mem : Bool
  pub stale_table : Option PageTable
  pub fork_mem : ForkMemory
  pub sec : ℕ
  pub nsec : ℕ

abbrev pub kernel_calls : Machine → Calls Kernel
kernel_calls mc = record {
  reboot = mc.reboot;
  write = sys_write;
  read = sys_read mc.stale;
  fork = sys_fork mc.tf_mem mc.as_mem mc.stale_table mc.fork_mem;
  getpid = sys_getpid;
  exit = sys_exit mc.places mc.mem;
  waitpid = sys_waitpid mc.places mc.mem;
  time = sys_time mc.sec mc.nsec;
  execv = mc.execv;
  sbrk = sys_sbrk mc.uninit;
}
