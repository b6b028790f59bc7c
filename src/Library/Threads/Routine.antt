-- ===== src/Library/Threads/Routine.antt =====
-- The new thread of `ums_create_worker_thread` in src/lib/ums.c: what it does when a call fails, and
-- when none does.
use aosv_project.Base.{ℕ, ◌≡◌, ◌⊎◌, inl, inr, true, false, if◌then◌else◌, minus_one, Bool-cases}
use aosv_project.Library.{WorkerThread, Request, is_negative, create_worker, exit_worker}
use aosv_project.Library.Calls.{System}
use aosv_project.Library.Threads.{ums_create_worker_thread_aux}

module _ {D Cpu : Type 0} (sys : System D Cpu) where
  -- The result of a request, and the system after it.
  abbrev pub result : Request → D → ℕ
  result q d = (sys.ioctl q d).0

  abbrev pub after : Request → D → D
  after q d = (sys.ioctl q d).2

  -- The new thread registers itself as a worker, and returns -1 if that fails, without running its
  -- routine. Otherwise it is woken as a worker, takes the processors that its structure holds then,
  -- runs its routine once and leaves its lists; it returns 0, or -1 where leaving fails.
  pub ums_create_worker_thread_aux-brackets :
      {Routine : Type 0}
      → (parent_tid : ℕ) (wt : D → WorkerThread Cpu Routine) (routine : D → D) (d : D)
      → (let registered = after (create_worker parent_tid (wt d).tid) d in
          let ran = routine (sys.sched_setaffinity (wt registered).cpu_set registered) in
          (is_negative (result (create_worker parent_tid (wt d).tid) d) ≡ true)
            × (ums_create_worker_thread_aux sys parent_tid wt routine d ≡ (minus_one, registered))
          ⊎ (is_negative (result (create_worker parent_tid (wt d).tid) d) ≡ false)
            × (ums_create_worker_thread_aux sys parent_tid wt routine d ≡ (
              (if is_negative (result (exit_worker (wt ran).tid) ran) then minus_one else 0),
              after (exit_worker (wt ran).tid) ran,
            )))
  unfolding ums_create_worker_thread_aux
  ums_create_worker_thread_aux-brackets parent_tid wt routine d =
      let registered = after (create_worker parent_tid (wt d).tid) d in
      let ran = routine (sys.sched_setaffinity (wt registered).cpu_set registered) in
      elim (Bool-cases (is_negative (result (create_worker parent_tid (wt d).tid) d))) [
        | inl failed ↦ inl (failed, rw failed)
        | inr done ↦ inr (
          done,
          elim (Bool-cases (is_negative (result (exit_worker (wt ran).tid) ran))) [
            | inl kept ↦ rw (done, kept)
            | inr gone ↦ rw (done, gone)
          ],
        )
      ]
