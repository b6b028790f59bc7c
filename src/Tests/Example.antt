-- ===== src/Tests/Example.antt =====
-- The example program on a device with one worker, and its calls on four processors.
use aosv_project.Base.{
  ℕ, ◌+◌, ◌*◌, ◌≤◌, ◌<◌, ◌≡◌, ◌≢◌, ◌⊎◌, refl, arith, [], ◌∷◌, false, Bool, if◌then◌else◌, ltb,
  minus_one, count,
}
use aosv_project.Kernel.Valid.{Ends}
use aosv_project.Library.{WorkerThread, dequeue_list}
use aosv_project.Library.Calls.{System, DequeueArgs}
use aosv_project.Library.Create.{Create, begin, waiting, parent_at}
use aosv_project.Library.Create.Handshake.{is_past}
use aosv_project.Library.Threads.{Pthreads, ums_create_worker_thread}
use aosv_project.Library.Threads.Start.{
  Runs, fresh, parent_goes, prepared, ums_create_worker_thread-meets,
}
use aosv_project.Example.{run_items, scheduler_proc, worker_routine}
use aosv_project.Example.Rounds.{SameTids, Has, run_items-executes}
use aosv_project.Example.Repeats.{scheduler_proc-repeats}
use aosv_project.Example.Plan.{MainCall, main, start_scheduler}
use aosv_project.Example.Plan.Calls.{times, planned, main-plans, main-shares_first}
use aosv_project.Example.Plan.Order.{IsOrdered, main-IsOrdered}
use aosv_project.Tests.Library.{thread, mem, one_thread, one_thread-Fits, one_thread-Live}

-- A device that counts its requests and refuses every dequeue.
abbrev refusing : System ℕ ℕ
refusing = record {
  open_device = λ d. (3, d);
  close = λ d. (0, d);
  ioctl = λ q d. (
    elim q [ dequeue_list clid ↦ minus_one | _ ↦ 0 ],
    record { id = 0; n = 0; wt_ready_tid = [] },
    d + 1,
  );
  sched_setaffinity = λ _ d. d;
}

worker-Has : Has mem one_thread 40
worker-Has = (0, omega arith, (900, thread 40, refl, refl, refl))

only_worker : (tid : ℕ) → 0 < count tid (40 ∷ []) → Has mem one_thread tid
only_worker tid h = let e : tid ≡ 40 = ground arith in rw e worker-Has

-- What an earlier dequeue has left in the arguments.
abbrev stale : DequeueArgs
stale = record { clc = 1; n = 1; wt_ready_tid = 40 ∷ [] }

-- Each of the three rounds makes two requests.
scheduler_proc-repeats_example :
    Ends
      (λ done (later, e). (done ≡ false) × SameTids mem later × (e ≡ 6))
      (scheduler_proc refusing one_thread 1 3 stale (mem, 0))
scheduler_proc-repeats_example =
    scheduler_proc-repeats refusing one_thread 1 one_thread-Fits 3 stale mem 0 one_thread-Live refl
      (omega arith) only_worker λ k h. refl

run_items-executes_example :
    Ends
      (λ _ (mem', e). SameTids mem mem' × (e ≡ 4))
      (run_items refusing one_thread 1 (40 ∷ []) 1 0 (mem, 3))
run_items-executes_example =
    run_items-executes refusing one_thread 1 one_thread-Fits 1 (40 ∷ []) mem 3 one_thread-Live
      (omega arith) only_worker

-- Each request counts, and a scheduler writes the new count into the processors of the worker 40. A
-- thread that takes its processors adds them to the digits of `log`.
record Log : Type 0 where
  written : ℕ
  log : ℕ

abbrev logging : System Log ℕ
logging = record {
  open_device = λ d. (3, d);
  close = λ d. (0, d);
  ioctl =
      λ _ d. (0, record { id = 0; n = 0; wt_ready_tid = [] }, record d { written = d.written + 1 });
  sched_setaffinity = λ cpu_set d. record d { log = d.log * 10 + cpu_set };
}

abbrev worker_of : Log → WorkerThread ℕ ℕ
worker_of d = record (thread 40) { cpu_set = d.written }

-- `pthread_create` fails.
abbrev no_thread : Pthreads ℕ
no_thread = record { cond_init = λ d. (0, d); mutex_init = λ d. (0, d); create = λ d. (11, d) }

abbrev alone : Create
alone = record begin { parent = waiting }

alone_waits : Runs false 7 alone
unfolding parent_at
alone_waits = parent_goes (parent_goes fresh refl) refl

ums_create_worker_thread-meets_example :
    (prepared no_thread (thread 40) 6 0
      ≡ record (thread 40) { tid = minus_one; worker_routine = 6 })
    × (((no_thread.create 0).0 ≢ 0) × (alone.tid ≡ minus_one) × (is_past waiting ≡ false)
        ⊎ ((no_thread.create 0).0 ≡ 0) × ((is_past waiting ≡ false) ⊎ (alone.tid ≡ 7)))
unfolding ums_create_worker_thread
ums_create_worker_thread-meets_example =
    ums_create_worker_thread-meets no_thread (thread 40) 6 0 false 7 alone refl refl alone_waits

-- Four processors, of which the process may use the last three.
abbrev processors : ℕ → Bool
processors cpu = ltb 0 cpu

main-plans_example :
    ((4 < 2) × (main 2 5 4 processors ≡ (minus_one, [])))
    ⊎ ((2 ≤ 4)
        × ((main 2 5 4 processors).0 ≡ 0)
        × ((c : MainCall)
            → times c ((main 2 5 4 processors).1) ≡ (if planned 2 5 4 processors c then 1 else 0)))
main-plans_example = main-plans 2 5 4 processors

main-shares_first_example : times (start_scheduler 3 1) ((main 2 5 4 processors).1) ≡ 0
main-shares_first_example = main-shares_first 2 5 4 processors 3 1 (omega arith) (omega arith)

main-IsOrdered_example : IsOrdered 5 0 16 ((main 2 5 4 processors).1)
main-IsOrdered_example = main-IsOrdered 2 5 4 processors
