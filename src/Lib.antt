-- ===== src/Lib.antt =====
-- A verification library for the modified xv6 kernel in xv6-public-modificado/: its two-level
-- feedback scheduler, its best-fit page allocator, and the process management that both serve.
--
-- Parts and files:
-- - Common: shared names; Boolean tests and list functions over the native numbers; Run, the result
--   of a run of kernel code: a value, a panic, a wait for a lock that another CPU holds, a fault, or
--   a sleep or loop that has not ended.
-- - Machine: xv6-public-modificado/spinlock.c and mycpu of proc.c. One CPU (interrupt flag, ncli,
--   intena, its process) and the spin locks by their addresses. Machine/Locks has the laws of
--   pushcli, popcli, holding, acquire and release.
-- - CString: string.c. CString has safestrcpy and memmove, CString/Moves the theorem on memmove;
--   CString/Fill has memset, strncpy and the theorem on memset, CString/Compare memcmp, strncmp,
--   strlen and the theorem on memcmp.
-- - Proc: proc.c and proc.h. Proc/Defs has struct proc, the table and the kernel's state;
--   Proc/Table the scans of the table; Proc/Alloc has pinit, allocproc, userinit, growproc, fork;
--   Proc/Sched has sched, yield (yield_cpu), sleep (with sleep_steps, its statements up to its
--   switch), wakeup, kill and one turn of the scheduler's
--   loop (scheduler_round, with phase for each of its two inner loops); Proc/Life has exit (with
--   exit_prepare up to its switch) and wait. The other modules below them hold the theorems.
-- - Trap: trap.c. trap with its dispatch, and mlfq_tick with charge for the accounting of the
--   queues. Trap/Queues has the theorems.
-- - Kalloc: kalloc.c, over an explicit memory of struct run. Kalloc/Chain is the free list in
--   memory, Kalloc/Search the search loop, Kalloc/Pages kalloc and kfree, Kalloc/Uniform the case
--   of single-page blocks.
-- - Pipe: pipe.c, with pipealloc in Pipe/Alloc. Pipe/Ring reads the ring buffer as a queue of bytes,
--   Pipe/Transfer has pipewrite and piperead where they need not wait, Pipe/Closing pipeclose,
--   Pipe/Opening a pipealloc that fails.
-- - Sleeplock: sleeplock.c, without the name of a lock. Sleeplock/Ownership has the theorems.
-- - Original: xv6-public/kalloc.c, the allocator before the change. Original/Agreement compares the
--   two on sequences of requests.
-- - Bestfit: Archivos de prueba/kalloc_bestfit.c. Bestfit/Tree has the search tree over the pool of
--   nodes; Bestfit/Shape says what a search tree in memory is; Bestfit/Find, Bestfit/Ordered and
--   Bestfit/Pool have the theorems on the search, on bst_insert, and on the pool and the counts.
-- - Log: log.c. commit and recovery work on a disk whose power may fail after any number of writes.
--   Log/Commit has the theorem on crashes, Log/Admission the one on begin_op.
-- - Bcache: bio.c, over a memory of struct buf and the disk driver as an argument. Bcache/Ring says what
--   a ring of buffers in memory is; Bcache/Init, Bcache/Get and Bcache/Release have the theorems on
--   binit, bget and brelse, over the lemmas of Bcache/Lookup and Bcache/Unique.
-- - Fs: fs.c, over the blocks of one disk, which are in the store that the log has. Fs has balloc and
--   bfree, Fs/Inodes the inodes on disk and in their cache, Fs/Content bmap, itrunc, readi, writei and
--   iput, Fs/Directory the directories, Fs/Path the paths. Fs/Path/Elements compares skipelem with a
--   splitter of paths; Fs/Allocation has the theorem on balloc, over the bits of Fs/Bitmap;
--   Fs/References the one on iget, over the search of Fs/Search; Fs/Saved the one on iupdate;
--   Fs/Reading and Fs/Writing those on readi and writei, over the writes of Fs/Writes and the rounds
--   of Fs/Rounds.
-- - Files: file.c, over the operations on inodes as arguments (InodeOps). Files/Entries has the
--   theorems on the entries of the table.
-- - Syscall: syscall.c, and sysproc.c in Syscall/Processes. Syscall/Arguments has the theorem on the
--   bounds of pointers. The calls that the dispatch serves are a function of their numbers.
-- - Sysfile: sysfile.c. Sysfile has the calls on descriptors and sys_pipe, over the table of files;
--   Sysfile/Links link, unlink, create, mkdir, mknod and chdir, over fs.c; Sysfile/Open open and exec,
--   over exec as an argument. Sysfile/Descriptors has the theorem on dup and close.
-- - Paging: vm.c, without loaduvm and what sets hardware registers. Paging has walkpgdir and mappages
--   over the words of the page tables, Paging/Space allocuvm, deallocuvm, freevm and setupkvm,
--   Paging/Copy copyuvm, copyout, clearpteu and inituvm. Paging/Translation has uva2ka and the
--   theorem on mapped pages, Paging/Unmapping the one on pages that deallocuvm takes back,
--   Paging/Release the one that freevm ends.
-- - Tests: runs at concrete states, and the theorems at inputs where their conditions hold.
--
-- Conventions. Addresses are numbers: 0 is NULL, and &ptable.proc[i] is i + 1. An int or uint is its
-- 32-bit pattern, with the wrap-around written out. The code is read as one CPU runs it: other CPUs
-- show in which locks are taken, and in what a context switch gives back. swtch is assembly: what
-- happens until control comes back is an argument, any function on the kernel's state, of which
-- theorems assume that it keeps the machine (lock held, one pushcli deep, interrupts off), as
-- sched's callers rely on. What kalloc, copyuvm, setupkvm, allocuvm, deallocuvm and namei return to
-- proc.c and to pipealloc is an argument; calls that leave the process table (kfree, freevm, filedup,
-- fileclose, iput, switchuvm and others) are recorded in order. -1 is none or false.
--
-- Bounds and fuel. NPROC is 64 rounds of exit's loop, and NFILE 100 rounds of filealloc's. The search
-- of kalloc takes fuel, and a fuel above the length of the free list is enough; the searches of the
-- tree take fuel above its height. wait takes the list of what happens in each of its sleeps. The
-- waiting loops of pipewrite, piperead, acquiresleep, begin_op and sys_sleep take fuel for their
-- rounds; one round is enough where they need not wait. filewrite takes fuel for its transactions,
-- one for 1536 bytes, and strlen for its bytes. The loops of vm.c take fuel for the pages they pass:
-- one round for one page, and 2 ^ 19 + 1 for the whole of user memory. The loops of bget take fuel
-- above the number of buffers. Those of fs.c take fuel for the blocks of the free map, the blocks of a
-- transfer, the entries of a directory and the elements of a path; a walk along a path takes one
-- round for each byte, and one, at most.
--
-- Not modelled: procdump and forkret, hardware tables (tvinit, idtinit), devices and boot, readsb and
-- iinit, exec, user programs, and the unmodified kernel in xv6-public/ but for its kalloc.c.
pub mod Common
pub mod Machine
pub mod CString
pub mod Pipe
pub mod Proc
pub mod Sleeplock
pub mod Log
pub mod Bcache
pub mod Fs
pub mod Sysfile
pub mod Paging
pub mod Files
pub mod Syscall
pub mod Trap
pub mod Kalloc
pub mod Original
pub mod Bestfit
mod Tests
