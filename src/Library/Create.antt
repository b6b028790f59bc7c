-- ===== src/Library/Create.antt =====
-- `ums_create_worker_thread` of src/lib/ums.c and its thread `ums_create_worker_thread_aux`: how the
-- two wait for each other, from `pthread_create` to the end of WAITWTCREATION. Each step is one call of
-- pthreads or of the device, or one access to the worker between two of them.
pub mod Handshake
pub mod Meet
use aosv_project.Base.{
  ℕ, Bool, true, false, not, Option, none, some, if◌then◌else◌, ◌==◌, minus_one,
}

-- Where the thread that creates stands: at `pthread_mutex_lock`; at the test of the loop; in
-- `pthread_cond_wait`, asleep, or woken and in need of the mutex; at `pthread_mutex_unlock`; at the
-- request WAITWTCREATION; behind it.
pub data Parent : Type 0 where
  locking testing waiting woken leaving asking created : Parent

-- Where the new thread stands: at `pthread_mutex_lock`; at `worker_thread_set_tid`; at
-- `pthread_cond_signal`; at `pthread_mutex_unlock`; at the request CREATEWORKERTHREAD; asleep in it.
pub data Child : Type 0 where
  entering setting signalling unlocking requesting sleeping : Child

-- `ums_create_wt_aux_args` with the two threads; `tid` is `wt->wtc.tid`.
pub record Create : Type 0 where
  pub parent : Parent
  pub child : Child
  pub locked : Bool
  pub tid : ℕ

-- `worker_thread_init` has set the tid to -1.
abbrev pub begin : Create
begin = record { parent = locking; child = entering; locked = false; tid = minus_one }

-- `none`: the thread waits. WAITWTCREATION waits until the kernel has the worker.
unfoldable pub parent_at : Parent → Create → Option Create
parent_at locking s = if s.locked then none else some (record s { parent = testing; locked = true })
parent_at testing s =
    if s.tid == minus_one
    then some (record s { parent = waiting; locked = false })
    else some (record s { parent = leaving })
parent_at waiting s = none
parent_at woken s = if s.locked then none else some (record s { parent = testing; locked = true })
parent_at leaving s = some (record s { parent = asking; locked = false })
parent_at asking s = elim s.child [ sleeping ↦ some (record s { parent = created }) | _ ↦ none ]
parent_at created s = none

-- `pthread_cond_signal`
abbrev pub signal : Parent → Parent
signal waiting = woken
signal locking = locking
signal testing = testing
signal woken = woken
signal leaving = leaving
signal asking = asking
signal created = created

-- `me` is the tid that the new thread finds.
unfoldable pub child_at : (me : ℕ) → Child → Create → Option Create
child_at me entering s =
    if s.locked then none else some (record s { child = setting; locked = true })
child_at me setting s = some (record s { child = signalling; tid = me })
child_at me signalling s = some (record s { child = unlocking; parent = signal s.parent })
child_at me unlocking s = some (record s { child = requesting; locked = false })
child_at me requesting s = some (record s { child = sleeping })
child_at me sleeping s = none
