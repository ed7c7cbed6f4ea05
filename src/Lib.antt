-- ===== src/Lib.antt =====
-- A verification library for the instructional operating system under PintOS/src.
--
-- Parts, and how they interact:
--   * `Bitmap` models PintOS/src/lib/kernel/bitmap.c: bits in 32-bit words, with the masks and the
--     loops of the source. Its properties are stated on the bits (`Bitmap.View`).
--   * `FreeMap` models PintOS/src/filesys/free-map.c, which allocates sectors by `Bitmap`. The file
--     in which the map is kept is a parameter: its type, and the function that writes it.
--   * `Block` models the reads and writes of PintOS/src/devices/block.c over a driver, which is an
--     instance argument (`BlockOps`); `IsStore` is what a driver's documentation promises.
--   * `Cache` models PintOS/src/filesys/buffer-cache.c over `Block`. `Cache.Coherent` says what a
--     cache and its device hold together, and `Cache.Run` compares every sequence of calls with an
--     array of sectors.
--   * `Inode` models PintOS/src/filesys/inode.c over `Cache`, `Block` and `FreeMap`: byte_to_sector and
--     the loops of inode_read_at and inode_write_at in the file itself, the structure on disk in
--     `Inode.Words`, growing and giving back in `Inode.Grow`, and the calls on open inodes in
--     `Inode.Table`. `Inode.Sectors`, `Read` and `WriteLoop` say what is read and written.
--   * `File` models PintOS/src/filesys/file.c over `Inode`, with inodes named by their sectors.
--   * `LinkedList` models PintOS/src/lib/kernel/list.c over the links that memory holds at each address.
--     `LinkedList.Shape` says when memory holds a list with given elements, and `LinkedList.Run`
--     compares calls on it with calls on the sequence. The scheduler and the timer use the sequences.
--   * `Hash` models PintOS/src/lib/kernel/hash.c with buckets as sequences of elements.
--   * `Thread` models the scheduler of PintOS/src/threads/thread.c: one record for the threads and
--     the globals, a function for each one modelled (`exit_tail` for what `thread_exit` does after
--     `process_exit`). `Thread.WellFormed` is the invariant.
--   * `Timer` models sleeping in PintOS/src/devices/timer.c over `Thread`.
--   * `Synch` models the semaphores and locks of PintOS/src/threads/synch.c over `Thread`. A call that
--     may sleep is cut into rounds, each from one test of the semaphore's value to the next.
--   * `CString` models blocks of memory and strings in PintOS/src/lib/string.c, over a memory that is a
--     function from addresses to bytes.
-- `Prelude` has the names, lemmas and tests that the parts share. In every part `none` as a result
-- is a failed ASSERT or PANIC, or an access that C leaves undefined; what a function returns
-- to report an error is a value inside `some`.
--
-- Bounds and fuel: the clock of `cache_evict` runs on fuel 129, two rounds of the 64 cells and one
-- step, after which it must have met a cell without the mark of recent use. The loops that read and
-- write a file run on fuel equal to the size, of which each round takes a byte or ends; those that grow
-- one on the number of pointers of a block, of which each round fills one or ends. A loop over a string
-- or a linked list runs on fuel 2 ^ 32, the size of the address space, inside which it has to end. Sizes and
-- indices are natural numbers; a valid bitmap has fewer than 2 ^ 32 bits, its words and the value of
-- a semaphore are kept below 2 ^ 32 as in C, and the tick counters of 64 bits and the
-- thread identifiers are taken not to wrap.
--
-- The scheduler's functions run with interrupts off from their entry or from their `intr_disable` on;
-- where the code asserts that interrupts are on at the call, their level is an argument (`timer_sleep`).
--
-- Not modelled: concurrency inside a call (each function is one step, and the locks of the cache, of
-- the inodes and of the thread identifiers are free between calls); `process_exit`, with which
-- `thread_exit` begins (`exit_tail` is the rest of it), and the other functions of processes;
-- hardware, drivers and output; directories, condition variables, system calls and the other
-- libraries of the kernel; and the programs under operating-system and computer-networks.
pub mod Prelude
pub mod Bitmap
pub mod FreeMap
pub mod Block
pub mod Cache
pub mod Inode
pub mod File
pub mod LinkedList
pub mod Hash
pub mod Thread
pub mod Timer
pub mod Synch
pub mod CString
