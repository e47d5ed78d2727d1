-- ===== src/Lib.antt =====
-- A model of parts of the OS/161 kernel of this repository, with proofs.
--
-- The kernel is written in C for one MIPS processor. Its core is a set of containers
-- (os161/kern/lib), a thread system (os161/thread) whose sleepers stand in an array and whose ready
-- threads stand in a queue, synchronization primitives over that thread system, programs that use
-- them (os161/kern/asst1), a virtual memory system (os161/kern/vm), a kernel heap, system calls
-- (os161/kern/arch/mips) and file systems (os161/kern/fs).
--
-- Files and what they model:
--   Common         numbers, lists, results of calls; nothing of the kernel but its error numbers
--   Array          os161/kern/lib/array.c: `create`, `preallocate`, `setsize`, `add`, `remove`, ...
--   Queue          os161/kern/lib/queue.c: `q_create`, `q_grow`, `q_addtail`, `q_remhead`, ...
--   Bitmap         os161/kern/lib/bitmap.c: `bitmap_alloc`, `bitmap_mark`, ...
--   Sched          os161/thread/scheduler.c: the run queue, a `Queue` of threads
--   Thread         os161/thread/thread.c: `thread_wakeup`, `thread_onewakeup`, `thread_hassleepers`;
--                  its child Switch has `mi_switch`, `thread_yield`, `thread_sleep`, `thread_exit`
--   Synch          os161/thread/synch.c: semaphores, locks, condition variables
--   Coremap        os161/kern/vm/addrspace.c, os161/kern/arch/mips/mips/ram.c: page frames, `getppages`,
--                  `vm_bootstrap`
--   AddrSpace      os161/kern/vm/addrspace.c: regions, page tables, the TLB, `access_pagetable`; its
--                  child Fault has `vm_fault`, its child Load sets up, copies and frees an address space
--   Kheap          os161/kern/lib/kheap.c: `kmalloc` and `kfree` over pages of blocks of one size
--   Copy           os161/kern/lib/copyinout.c: `copyin`, `copyout`, `copyinstr`, `copyoutstr`
--   Process        the process table of os161/thread/thread.c: `thread_create`, `thread_fork`
--   Syscall        os161/kern/arch/mips/mips/syscall.c: `mips_syscall` and its handlers, in the children
--                  Io, Break, Fork and Wait
--   Stoplight      os161/kern/asst1/stoplight.c: cars at an intersection, under locks
--   Catsem         os161/kern/asst1/catsem.c: cats and mice at two bowls, under semaphores
--   Sfs            os161/kern/fs/sfs/sfs_vnode.c: disk blocks, `sfs_bmap`, `sfs_truncate`;
--                  Io is `sfs_io`, Dir the entries of directories
--   Vfs            os161/kern/fs/vfs/vfslookup.c: where the lookup of a path starts;
--                  Devices is os161/kern/fs/vfs/vfslist.c, Vnode vnode.c, Calls vfspath.c,
--                  Curdir vfscwd.c, Device device.c
--   Tests          the theorems at concrete inputs
--
-- State and operations. A C struct is a record with the source's fields; a function that changes it
-- returns the new record. A failed assertion is `panic` of `Outcome`; an error number is returned
-- beside the state. `kmalloc` enters as a Boolean argument `mem` that says whether a call gets memory.
-- Memory that was never written is `none`. Behaviour that C leaves undefined, such as a result that is
-- not returned or an index that was never set, is `panic` too. Counts and indexes that the code keeps
-- at 0 or above are natural numbers, without a bound; how far growth goes is a theorem. Addresses are
-- numbers with their sums modulo 2 ^ 32 written out, and a byte of a bitmap is a number below 256.
-- Interrupts are off while the kernel functions run, so that each is one step; where a function may
-- sleep, its waiting loop is a round for each time that the thread is run.
--
-- Loops recur on fuel that is enough: `grow_max` and `grow_size` on the size asked for, `copy_from` on
-- the size of the old ring, `wake_from` on the number of sleepers. `q_addtail` and `q_grow` call each
-- other, with depth 2, and the depth is never used up, which the theorem on `q_addtail` shows.
--
-- The handlers of system calls work on a record `Kernel` of the thread system, the process table, the
-- memory of the running program and what is typed and shown; `mips_syscall` takes them as a record of
-- functions, which `kernel_calls` fills. The memory of a program is a function from addresses to bytes.
--
-- Not modelled: `sys_execv` and the loading of programs, traps, the device drivers, the menu and the
-- tests; of the file systems all but the blocks, the reading and writing and the directory entries of
-- SFS, the lookup of paths, the list of devices, and the counts of vnodes that the operations on paths
-- change, for which the operations of a file system are parameters. Printing, the freeing of memory and
-- the assembly of a context switch have no counterpart; a switch ends where the next thread goes on.
-- The contents of page frames are not modelled either.
pub mod Common
pub mod Array
pub mod Queue
pub mod Sched
pub mod Thread
pub mod Synch
pub mod Stoplight
mod Tests
pub mod Coremap
pub mod AddrSpace
pub mod Bitmap
pub mod Kheap
pub mod Copy
pub mod Process
pub mod Syscall
pub mod Catsem
pub mod Sfs
pub mod Vfs
