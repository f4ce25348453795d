-- ===== src/Lib.antt =====
-- A verification library for the xv6 kernel with the schedulers RR, FCFS, PBS and MLFQ, and for
-- parts of its user programs.
--
-- Base has what the modules share: Boolean tests and machine words (an `int` or `uint` is its
-- 32-bit pattern, a number below 2 ^ 32), lists, and arrays as functions from the index.
--
-- Proc models proc.c, proc.h and the clock tick of trap.c.
--   State: struct proc, the table, the queues qu with q_index + 1 as `count`, nextpid, ticks and
--     initproc. A process is its index in the table; a pointer to it is the index plus 1, and 0 is
--     null.
--   Table: the loops over the table. Queue: the search by pid, the removal and the append, which
--     proc.c repeats at each place. Wake: sleep, wakeup1, kill. Life: allocproc, userinit, fork, exit.
--   Wait: wait, waitx. Tick: trap's accounting and preemption, yield, set_priority. Select: the
--     branches RR, FCFS and PBS of scheduler. Mlfq: the branch MLFQ with aging and demotion.
--   Services: what fork, exit and wait call elsewhere, a parameter: page allocation, page tables,
--     files and inodes.
--   Invariant and its children: what holds of the table and the queues, operation by operation.
--   System: all of it as a transition system. Each step is the code between two calls of swtch or
--     under one hold of ptable.lock; a step of `yield` includes what the scheduler does on return.
--   The aging loop has one round for each entry that its queue has at the start: a round takes an
--   entry off that queue or leaves it, so the bound q_index is reached by then.
-- Pipe models pipe.c: one call runs up to its end or its first sleep, and goes on from there.
-- Log models log.c, with bwrite of bio.c: blocks in memory and on disk, with a number of writes
--   after which the power is gone. The layout of the header in a block is a parameter.
-- Memory models kalloc.c: the free list runs through the first word of each page. The loop of
--   freerange has one round for each page below the end of the range.
-- Vm models vm.c: page directories and page tables as the bytes of physical memory, at physical
--   addresses, with the free list of kalloc.c as a list of pages; walkpgdir, mappages, allocuvm,
--   deallocuvm, clearpteu, uva2ka and copyout. The loops have 2 ^ 20 rounds, one for each page of the
--   address space, and that of copyout one for each byte. The address that mappages is given is that
--   of a page and its flags are below 4096, so `|` is a sum.
-- Strings models memmove, memcmp, strncmp, strncpy and safestrcpy of string.c over a memory of bytes,
--   at addresses that do not wrap.
-- Files models file.c: the table with its counts, and the transfers over a parameter for pipes and
--   inodes. The loop of filewrite has one round for each byte. For its theorem the parameter stands for
--   one file of a largest size in which a range is stored or refused as a whole, as writei does while
--   blocks are free.
-- Locks models spinlock.c and sleeplock.c: the nesting of pushcli and popcli on one CPU, and the steps
--   of acquire and release of many CPUs on one lock.
-- UserLib models printint of printf.c and atoi of ulib.c; 10 rounds give all digits of 32 bits.
-- Buffers models bio.c: the buffers, and the list of them from the most recently used as a list of
--   indices, with bget, bread and brelse; the sleep locks are not in it.
-- Fs models fs.c: the superblock's numbers, each block as the buffer cache holds it, and the blocks
--   given to log_write. Blocks: the bitmap, balloc, bfree. Bytes: little-endian fields. Inode: bmap,
--   itrunc, iupdate, ialloc, ilock's load, readi and writei, over a table of device functions. balloc has one
--   round for each bitmap block; the loops of readi and writei have one for each byte. Cache: iget,
--   idup and iput on the table of inodes in memory, without their sleep locks. Directory: dirlookup,
--   with a round for each entry. Path: skipelem. Namex: namex, with a round for each byte of the path.
-- Shell models the parser of sh.c, from the text to the tree of commands; a token is its text, as it
--   is after nulterminate. The calls have fuel for 4 levels before each character and 4 more.
-- Grep models match, matchhere and matchstar of grep.c, over strings as lists of their bytes.
--
-- How the parts interact: fork, exit and wait reach the other parts through Services; exit's closing
-- of files may wake processes, whose channels the service returns. sleep and wakeup of Proc are what
-- Pipe and Log stop at: a call that would sleep returns what is left to do.
--
-- Not modelled: interrupt and context-switch assembly, device drivers, trap frames, process names,
-- printing, and the parts of the kernel and of the user programs that no module above names.
-- Instructions between lock operations are taken as one step, as the locks make them. In Proc.System
-- fork and exit are one step each, though fork gives up the table lock on its way and exit may sleep
-- in begin_op or iput before it takes it. The panics of log_write are those of Log; Fs only lists the
-- blocks given to it, and its theorems on writei bound that list by LOGSIZE.
pub mod Base
pub mod Buffers
pub mod Files
pub mod Fs
pub mod Grep
pub mod Locks
pub mod Log
pub mod Memory
pub mod Pipe
pub mod Proc
pub mod Shell
pub mod Strings
pub mod UserLib
pub mod Vm
