-- ===== src/Lib.antt =====
-- libtask: cooperative tasks on one kernel thread, with locks, rendezvous points and channels.
--
-- The program's parts. task.c keeps the tasks: a run queue, a table of all tasks, and a scheduler
-- that runs the first task of the queue until that task calls `taskswitch`. A task that blocks puts
-- itself on a wait list before it switches, and stays off the run queue until some other task calls
-- `taskready` on it. qlock.c (queuing locks and reader-writer locks), rendez.c (condition variables)
-- and channel.c (message passing) are built on this. fd.c lets a task sleep for a time or until a file
-- descriptor is ready: its `fdtask` runs when no other task can, polls, and makes tasks ready. print.c
-- formats strings, and net.c opens connections.
--
-- Which file models what:
--   Tasklist: task.h's `Tasklist`, and `addtask` and `deltask` of task.c. Tasklist/Chain says when a
--     list is well-linked and which tasks it holds.
--   Sched: the globals of task.c as the record `Sys`, with `taskalloc`, `taskcreate`, `tasksystem`,
--     `taskready`, `taskyield`, `taskexit`, `taskname`, `taskstate`, `anyready` and the body of the loop
--     of `taskscheduler`, which is `dispatch` before and `retire` behind its switch to a task.
--     Sched/Queue and Sched/Yield are about the run queue, Sched/Table about the table of tasks,
--     Sched/Exit about the end of a task. Sched/Boot has the way of a task's address from `taskalloc`
--     to `taskstart`, `needstack` and `main`, and Sched/Alive the programs that create tasks, yield
--     and exit, as a step relation.
--   Taskinfo: `taskinfo` of task.c, which prints the table of tasks through print.c.
--   Waiting: the moves between a wait list and the run queue that the parts below share.
--   Qlock: `struct QLock` of qlock.c. Qlock/Ops treats one call, Qlock/System the programs whose tasks
--     share a lock, as a step relation; Qlock/Invariant, Qlock/Preserve and Qlock/Exclusion what holds
--     in all states that such a program reaches.
--   Rwlock: `struct RWLock` of qlock.c. Rwlock/Acquire, Rwlock/Release and Rwlock/Wunlock treat the
--     calls that take the lock and the two that give it back, Rwlock/System the programs whose tasks
--     share a lock, as a step relation; Rwlock/Invariant, Rwlock/Reading, Rwlock/ReadMoves,
--     Rwlock/Writing, Rwlock/WriteMoves, Rwlock/Same and Rwlock/Preserve what each move keeps, and Rwlock/Exclusion what follows in all reached states.
--   Rendez: rendez.c, with Rendez/Sleep and Rendez/Wakeup.
--   Channel: channel.c. Channel/Types has the data, Channel/Arrays the arrays of waiting operations,
--     Channel/Copy the moves of elements, Channel/Select `chanalt`, Channel/Api `_chanop` and the
--     functions that call it. Channel/Ring reads the buffer as a queue, Channel/Waiters an array
--     of waiting operations as a multiset. Channel/Meet and Channel/Serve are about an operation that
--     finds another one waiting, Channel/Nonblocking and Channel/Words about calls that do not block.
--   Fd: fd.c. Fd itself has the state, `taskdelay` and `fdwait` up to their switches, Fd/Task a round of
--     the loop of `fdtask`, cut at `poll`, and Fd/Transfer `fdread`, `fdread1` and `fdwrite`. Fd/Place,
--     Fd/Asleep, Fd/Start, Fd/Delay and Fd/Wake are about the tasks that sleep, Fd/Poll and Fd/Wait about those
--     that wait for a descriptor, Fd/Round about both, Fd/Loop about the calls of `taskyield`
--     before a round, Fd/Timeout about the time that `poll` gets, Fd/Write about `fdwrite`.
--   Print: print.c's `printstr`, `vseprint`, `vsnprint`, `vfprint`, `strecpy` and the functions that
--     call these, as a machine that reads the format one character at a time. Print/Field has `printstr`, Print/Digits the string of a
--     number; both belong to Print. Print/Number treats the digits, Print/Store and Print/Inside
--     the bytes that are written. Print/Meaning says what a format and its arguments stand for without
--     the code's tables and numbers, Print/Agree that the code's are the same, Print/Plain and
--     Print/Rendered that it is put out, Print/Ends how `vseprint` ends, and Print/Whole `vfprint`.
--   Net: net.c. Net/Text is about addresses as text, Net/Descriptors about the descriptors that the
--     functions open and close.
--   Base: shared names, lists and arithmetic. Tests: concrete systems.
--
-- How state and operations correspond. A pointer is a number and null is 0. A field of `struct Task`
-- is a function of the task's address; the same for `struct Alt` and `struct Channel`. The memory that
-- channels move elements from and to has at each address the number that the bytes there make, the
-- lowest first: a move of `elemsize` bytes changes its lowest ones. Objects do not overlap. An operation
-- takes the state and returns the new one. A function that may block is cut in two at its
-- `taskswitch`: `f_enter` goes up to the switch, and `f_resume` is what it does when it is resumed;
-- `taskswitch` itself goes from one task through the scheduler to the next. `abort` and failed
-- assertions are the result `aborts`.
--
-- Numbers. `unsigned int` is kept modulo 2^32 where the code adds or subtracts, and so are
-- `RWLock.readers`, as a bit pattern, and task ids. The `int` counters `taskcount`, `nalltask` and
-- `tasknswitch` are natural numbers that do not overflow; the first two are decreased only by an
-- amount that the invariant of the table says they have. Times are nanoseconds modulo 2^64. `npollfd`
-- and `sleepingcounted` are natural numbers, since both are decreased only where they are positive.
-- The Makefile builds for 32-bit machines: `long`, `ulong`, pointers and `int` have 32 bits, and `vlong`
-- has 64. In print.c a width that is no `int` ends the formatting with a
-- result of its own, as do a format that ends inside of a conversion, which the code reads behind its
-- end, and an argument that is missing or of another type.
--
-- Fuel. A loop over a list that its own body changes, and one that looks for the end of a group of
-- channel operations, runs on fuel. Running out is a result of its own, `none` or `out_of_fuel`. One
-- round more than there are waiting tasks is enough for the loops of `wunlock` and `taskwakeupall`,
-- two for `taskwakeup` and for the group of `_chanop`. One round more than there are sleepers is enough for
-- `taskdelay` and for the wake-up loop of `fdtask`, one more than there are polled descriptors for its
-- other loop. The 64 rounds for the digits of a number are more than the 22 that an octal one has.
--
-- Parameters: whether `malloc` and `realloc` succeed and what `malloc` returns, the values of `rand`,
-- the addresses of local variables and the indeterminate contents of fresh memory and of uninitialised
-- variables; what `gettimeofday`, `poll`, `read`, `write`, `strerror`, `sprintf`, `strtoul`,
-- `gethostbyname` and the socket calls return.
--
-- Not modelled: machine contexts, stacks and the signal mask (context.c, asm.S, 386-ucontext.h), with
-- `getcontext` taken to succeed, and where `needstack` is called; of task.c the user data of a task, the
-- signal handlers that `main` installs and `taskdebug`, whose body is never reached; `chanfree` of
-- channel.c, and the growth of a full array of waiting operations when `realloc` fails; `fdnoblock` of
-- fd.c; of net.c the options of sockets and the addresses that `bind` and `connect` get; and what
-- `vfprint` and `write` return. The texts of `taskname` and `taskstate` have no conversions
-- and fit their fields.
pub mod Base
pub mod Tasklist
pub mod Taskinfo
pub mod Sched
pub mod Waiting
pub mod Qlock
pub mod Rwlock
pub mod Rendez
pub mod Channel
pub mod Fd
pub mod Print
pub mod Net
pub mod Tests
