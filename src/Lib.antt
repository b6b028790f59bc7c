-- ===== src/Lib.antt =====
-- User-mode scheduling for Linux: a kernel module (src/lkm) with a device `/dev/umsdev`, and a
-- library (src/lib) over its ioctls. Worker threads stand in completion lists; a scheduler thread
-- dequeues workers of a list, which locks them, executes one, sleeps until the worker yields or
-- exits, and then unlocks it and counts it as ready again.
--
-- Parts of the program and files of this library:
-- - Base, Interface: shared names; src/lkm/ums_interface.h.
-- - Hashtable: <linux/hashtable.h>, which the module calls, as an interface of operations and
--   documented laws. Hashtable.Chained meets it, and the tests run on it.
-- - Text: bytes, and what `sprintf` writes for a number; Text.Digits: proofs.
-- - Kernel.State: the module's state. Its three tables (`wt_htable`, `st_htable`,
--   `compl_list_htable`) lead to objects on a heap for each kind: `kworker_thread` is Kwt,
--   `ksched_thread` is Kst, `kcompletion_list` is Kcl. `alive` says which threads the kernel finds,
--   `events` is the log of wake-ups, `proc` the tree in /proc.
-- - Kernel.Entries: src/lkm/ums_proc_p.h, with the calls to procfs as a log, and the entry that procfs
--   answers the newest with as a function of the log.
-- - Kernel.Outcome: a piece of code ends with a value and a state, at an invalid pointer (`fault`), or
--   asleep (`blocked`): its condition does not hold, nothing has changed, and it is tried again.
-- - Kernel.Objects: the lookup loop that the three tables share, and its view as a finite map.
-- - Kernel.Worker: src/lkm/kworker_thread.c and its macros; Worker.Mutex, Worker.Registry: proofs.
-- - Kernel.Scheduler: src/lkm/ksched_thread.c and its macros; Scheduler.Registry: proofs.
-- - Kernel.CompletionList: src/lkm/kcompletion_list.c and its macros; Registry for the table, Loops for
--   the macros over the lists of a worker, Grab, Take, Dequeue, Reserve and Exclusion for
--   `get_wt_ready_queue`.
-- - Worker.Unload, Scheduler.Unload, CompletionList.Unload: the loops that destroy a whole table.
-- - Kernel.Proc: src/lkm/ums_proc.c, with the lookups in Proc.Find, the removal in Proc.Remove and the
--   reads of the files in Proc.Info; Proc.Collide, Proc.Files, Proc.Info.Bound, Proc.Read: proofs.
-- - Kernel.Core: the requests of `ums_ioctl` in src/lkm/ums_core.c; Core.Execute, Core.Finish,
--   Core.Switch, Core.Exit, Core.Slice, Core.Wait, Core.Link and Core.Freed: proofs. Core.Ioctl:
--   ENTERUMSSCHEDMODE, and the whole of `ums_ioctl` over a data type of requests and replies.
-- - Kernel.Module: `ums_init` and `ums_exit`; Module.Shrink, Module.Unload and Module.Life: proofs.
-- - Kernel.Valid: the invariant of the state, and the state as three finite maps from ids to objects.
--   Valid.Keep: rules for code that keeps the invariant.
-- - Kernel.Invariant: the rules for the code of each source file, and for each request; Reach: the
--   steps of the whole module and what they reach.
-- - Kernel.Balance: what the counters of a list count; Tally for lists as bags, Lists and Leave for one
--   list, Change, Requests, Taken, Made and Steps for the requests, History for sequences of them, and
--   Sleep for what it means to DEQUEUECOMPLLIST.
-- - Kernel.Roundtrip: a list that is made and destroyed.
-- - Kernel.Spec: the registries as three maps, and what the requests that make and destroy objects do to
--   them; Spec.Effects and Spec.Refine: proofs.
-- - Library: src/lib/worker_thread.c, src/lib/completion_list.c and how src/lib/ums.c makes and
--   fills a list; Library.Calls: the other calls of src/lib/ums.c, over the system's calls as a
--   parameter. Library.Create: how `ums_create_worker_thread` and its new thread wait for each other,
--   each with its place in the code. Library.Threads: what the two do before and after that
--   stretch. Library.Array, Library.Handover, Library.Create.Handshake, Library.Create.Meet,
--   Library.Threads.Routine and Library.Threads.Start: proofs.
-- - Example: src/example/main.c, the procedure of a scheduler and the routine of a worker;
--   Example.Plan: `main` as the list of its calls. Example.Rounds, Example.Repeats, Example.Routine,
--   Plan.Calls and Plan.Order: proofs.
-- - Joint: a list of the library together with the kernel's queue for it; Joint.Dequeue: what a scheduler
--   of the library finds of the workers that it is given.
-- - Tests: concrete states, and each result at one of them.
--
-- How code becomes definitions:
-- - A C `int` is its 32-bit pattern, a number below 2 ^ 32, and -1 is 2 ^ 32 - 1; `inc` and `dec`
--   wrap. A `ktime_t` is its 64-bit pattern.
-- - A pointer is an address or `none`, for NULL and for the pointer -1; neither leads to an object.
--   What `kmalloc` returns, with the bytes it finds, is an argument. So are `current->pid` and the
--   time that `ktime_get` returns, and the copies from and to user space: a request gets the fields of
--   its structure and returns what it writes back.
-- - A mutex that one piece of code takes and releases without sleeping is not in the state; the mutex
--   of a worker, which stays locked from the dequeue to the end of the execution, is. The mutex of a
--   scheduler's directory in /proc is never initialised: whether its bytes are those of a free mutex is in
--   the state, and a lock of another one is a fault.
-- - A request is cut where its thread calls `schedule`: EXECUTEUMSTHREAD is `execute_begin` and
--   `execute_finish`. A sleep that ends a request is not modelled. The pieces are atomic.
-- - The loops run over finite lists and need no fuel; the search of the library runs as often as its
--   bound says. The one loop that may go on for ever, DEQUEUECOMPLLIST, is one round of it, `blocked`
--   where the source goes round again; whether a signal is pending, which ends its wait, is an argument.
--   `scheduler_proc` of the example, whose loop is not bounded either, runs on fuel, and its result says
--   whether it has come to its end.
-- - A node of a ready queue is known by the tid of its element; the queue's wait queue is known by the
--   id of its list.
-- - `ums_ioctl` is one step from a request to where its thread sleeps or returns. A history is
--   any sequence of such steps, of schedulers that go on, and of changes of the threads that live.
-- - A node that stands in a hash table must not be added to another one: the loops of
--   src/lkm/ums_proc.c that would do so are a `fault`. So is a text that is longer than its buffer.
-- - `kstrtoul` and `ktime_to_timespec_cond` are arguments of the reads, and what the theorems need of
--   them stands among their conditions. The names of the directories above a file, and the bytes of
--   a variable before `kstrtoul` writes it, are arguments too.
--
-- - A history of Kernel.Balance is one in which the threads of src/lib keep to their order: what the
--   requests then rely on stands with each of its steps.
-- - A pointer of a worker to its own structure is what it reads in a state of the system, since schedulers
--   write there while the worker sleeps.
-- - A call of the library changes the state of the system, which is a parameter with the results of
--   `ioctl` and of pthreads. `main` of the example looks at no result, so its calls are listed only.
--
-- Not modelled: `printk`, `printf` and `perror`, the reference counts of tasks, the workload loop of the
-- example and the script that runs it. `ums_init` of the module takes the result of `misc_register` as an
-- argument. What procfs does with its entries is not modelled, only the calls to it. The numbers of the
-- requests are not: a request is a constructor.
pub mod Base
pub mod Hashtable
pub mod Interface
pub mod Text
pub mod Library
pub mod Example
pub mod Joint
pub mod Tests
pub mod Kernel
