-- ===== src/Lib.antt =====
-- A verification library for the C kernel of this repository: its two allocators, its priority
-- scheduler and its processes, its named pipes and semaphores, its keyboard and terminal input, and
-- its tables of descriptors; and for how its shell reads a line.
--
-- The kernel runs on one processor. A process enters the kernel by a system call, the timer
-- interrupt calls `schedule`, and every section between `irq_save` and `irq_restore` runs alone. So
-- each section is one function on the state, and what other processes do between two sections is an
-- argument of the operation. Blocking is a result: the process that waits is in a queue, and the
-- rounds of a blocking loop are a list.
--
-- Parts, files and their code:
--   FirstFit, FirstFit/* : Kernel/mm/first_fit.c. The chain of headers is a list of blocks with
--     their addresses; sizes and addresses are 64-bit words with their wrap-around. Malloc, Free,
--     Invariant and Grants follow `first_fit_malloc` and `first_fit_free`, Coalesce the joining of
--     blocks, Stats the two reports.
--   Sched, Sched/* : Kernel/process/sched.c. A process is the number of its slot; the ready queues
--     are lists of slots. Promotion and AgingPass are about `apply_aging`, Pick about `pick_next`,
--     Schedule and Liveness about `schedule`, Membership about `sched_remove` and `sched_enqueue`.
--     Changes is about what the operations of the processes rely on.
--   WaitResults, WaitResults/* : the results of ended children in Kernel/process/proc.c as a plain list;
--     Nodes and its children link them as the code does, and compare the two.
--   Proc, Proc/* : Kernel/process/proc.c. Proc has the table and its lists, Life the end of a process
--     and what its parent is told, Calls the operations of the system calls, Create `proc_create`;
--     the modules Scheduling, Blocking and Nice are about the ready queues, Histories about them all.
--   Buddy, Buddy/* : Kernel/mm/buddy_system.c. Orders is about the sizes of blocks, Lists about the free
--     lists, which are linked through the pages, Oversize about sizes that no block holds.
--   Keyboard, Keyboard/* : Kernel/drivers/keyboard.c.
--   Shell, Shell/* : the lines in Userland/SampleCodeModule/shell/sh.c. Tokens is about `next_token`,
--     Lines about `parse_command_line`, Pipelines about a line with a '|' in `newLine`.
--   Names : the hash, comparison and copy of names in Kernel/ipc/pipe.c and Kernel/ipc/semaphore.c.
--   Ring : the arithmetic of a ring buffer, as Kernel/ipc/pipe.c and Kernel/fs/tty.c both have it.
--   Pipe, Pipe/* : Kernel/ipc/pipe.c. Flow is about the copy loops, Moments about the states
--     that a call which waits comes to, Transfer about `kpipe_read`,
--     Writing about `kpipe_write`, Progress about when the two return, Closing about `kpipe_close`,
--     Directory about `kpipe_open` and `kpipe_unlink`.
--   Sem, Sem/* : Kernel/ipc/semaphore.c. Fairness is about the counter and the queue of waiters,
--     Naming about `ksem_open`, Lifetime about `ksem_close` and the ends of a wait. Handles has the
--     handles of semaphores in Kernel/sys/syscalls.c.
--   Tty, Tty/* : Kernel/fs/tty.c. Input is about a key, Reading about `tty_read`.
--   Fd, Fd/* : Kernel/fs/fd.c. Counting relates the reference counts to the entries, Duplicate is
--     about `fd_table_dup2`.
--   Base, Base/* : Boolean tests, lists over the native numbers, lists linked through
--     their nodes, and 64-bit words.
-- A pipe wakes the processes that its result names through `proc_unblock`, which puts them into the
-- ready queues of Sched; its memory comes from `mm_malloc`, of which a round says whether it granted.
-- A process is one slot of two tables, that of Sched and that of Proc; its end closes its table of
-- descriptors in Fd, its handles in Sem and its place in front of Tty.
--
-- Bounds: a blocking call is given a list of rounds, one for each time that it has to wait; when
-- they are over, the call is the result `blocked`, of which the theorems speak too. `proc_wait` yields
-- once and is given what the others do meanwhile. Every other loop is a recursion on the list or the
-- count that the code walks; the loops of the buddy allocator over the orders run at most once for each. A
-- walk through linked nodes is given the number of nodes that it visits at most: the length of the list
-- is enough, and a list that runs in a circle, on which the code does not end, has no result.
--
-- Not modelled: the bytes of the user's memory that `first_fit_free` clears, the layout of a block in
-- memory beyond its header, the counters of the allocator's report that is printed, `buddy_init` and
-- the statistics of the two allocators for user programs, the processor state behind `kframe`, what a
-- terminal draws, the dispatch from a descriptor to pipe or terminal, the system calls but for those
-- on semaphores, the other drivers, the commands of
-- the shell and the other user programs.
pub mod Base
pub mod FirstFit
pub mod Sched
pub mod Names
pub mod Ring
pub mod Pipe
pub mod Sem
pub mod Fd
pub mod Tty
pub mod WaitResults
pub mod Proc
pub mod Keyboard
pub mod Buddy
pub mod Shell
