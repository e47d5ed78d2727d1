-- ===== src/Tests.antt =====
-- The theorems at concrete inputs, and small runs of the code.
mod Containers
mod Threads
mod Cars
mod Memory
mod Bits
mod Heap
mod Copies
mod Syscalls
mod Cats
mod Files
mod Directory
mod Vfs
mod Counts
