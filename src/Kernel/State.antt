-- ===== src/Kernel/State.antt =====
-- The state of the kernel module: its three hash tables, the objects that they lead to, and what
-- it asks of the rest of the kernel.
use aosv_project.Base.{ℕ, Bool, Option, none, some, List, ◌∷◌, if◌then◌else◌, update}
use aosv_project.Kernel.Entries.{Pup, Folder, File, ProcUms}
use aosv_project.Kernel.Objects.{Ptr, peek}
use aosv_project.Kernel.Outcome.{Outcome, ok, fault, ◌>>=◌, ◌>>◌}

-- `kworker_thread`. `mutex` says whether the mutex is held.
pub record Kwt : Type 0 where
  pub tid : ℕ
  pub state : ℕ
  pub nswitches : ℕ
  pub last_measured : ℕ
  pub total_measured : ℕ
  pub mutex : Bool
  -- the `clid` of each `clid_list_elem`, first to last
  pub clid_list : List ℕ
  pub curr_sched_tid : ℕ

-- `ksched_thread`
pub record Kst : Type 0 where
  pub tid : ℕ
  pub proc_id : ℕ
  pub running : ℕ
  pub nswitches : ℕ
  pub wt_running : ℕ
  pub elapsed_wt_running : ℕ
  pub clc : ℕ

-- `kcompletion_list`. A node of `wt_ready_queue` holds the tid of its `kcompletion_list_elem`.
pub record Kcl (T : Type 0) : Type 0 where
  pub clc : ℕ
  pub threads_ready : ℕ
  pub nthreads : ℕ
  pub wt_ready_queue : T

pub data Event : Type 0 where
  wake : (tid : ℕ) → Event
  wake_all : (clid : ℕ) → Event

pub record Kernel (T : Type 0) : Type 0 where
  pub compl_list_htable : T
  pub compl_list_last_id : ℕ
  pub wt_htable : T
  pub st_htable : T
  pub kcls : ℕ → Option (Kcl T)
  pub kwts : ℕ → Option Kwt
  pub ksts : ℕ → Option Kst
  -- the threads that `find_get_pid` and `get_pid_task` find
  pub alive : ℕ → Bool
  pub proc : ProcUms T
  -- the calls of `wake_up_process` and `wake_up_interruptible_all`, newest first
  pub events : List Event

-- What `kmalloc` returns: an address, or `none` for `NULL`, and the bytes that it finds there.
pub record Alloc (A : Type 0) : Type 0 where
  pub at : Ptr
  pub bytes : A

abbrev pub M : Type 0 → Type 0 → Type 0
M T A = Kernel T → Outcome (Kernel T) A

-- One kind of objects in the state.
pub record Heap (T A : Type 0) : Type 0 where
  pub get : Kernel T → ℕ → Option A
  pub put : (ℕ → Option A) → Kernel T → Kernel T

module _ {T : Type 0} where
  abbrev pub workers : Heap T Kwt
  workers = record { get = λ s. s.kwts; put = λ h s. record s { kwts = h } }

  abbrev pub schedulers : Heap T Kst
  schedulers = record { get = λ s. s.ksts; put = λ h s. record s { ksts = h } }

  abbrev pub lists : Heap T (Kcl T)
  lists = record { get = λ s. s.kcls; put = λ h s. record s { kcls = h } }

  abbrev pub pups : Heap T (Pup T)
  pups = record {
    get = λ s. s.proc.pups;
    put = λ h s. record s { proc = record s.proc { pups = h } };
  }

  abbrev pub folders : Heap T (Folder T)
  folders = record {
    get = λ s. s.proc.folders;
    put = λ h s. record s { proc = record s.proc { folders = h } };
  }

  abbrev pub files : Heap T File
  files = record {
    get = λ s. s.proc.files;
    put = λ h s. record s { proc = record s.proc { files = h } };
  }

  -- `wake_up_process` on what `find_get_pid` and `get_pid_task` return: `NULL` for no such thread.
  unfoldable pub wake_up_process : ℕ → M T (Unit {0})
  wake_up_process tid s =
      if s.alive tid then ok tt (record s { events = wake tid ∷ s.events }) else fault

  -- `wake_up_interruptible_all` on the wait queue of a list
  unfoldable pub wake_up_all : ℕ → M T (Unit {0})
  wake_up_all clid s = ok tt (record s { events = wake_all clid ∷ s.events })

  module _ {A : Type 0} (c : Heap T A) where
    -- `*p`
    unfoldable pub load : Ptr → M T A
    load p s = elim (peek (c.get s) p) [ none ↦ fault | some a ↦ ok a s ]

    -- The raw write: `some a` fills the address, `none` gives it back.
    unfoldable pub store : Ptr → Option A → M T (Unit {0})
    store none a s = fault
    store (some p) a s = ok tt (c.put (update (c.get s) p a) s)

    -- `p->x = …`
    unfoldable pub modify : Ptr → (A → A) → M T (Unit {0})
    unfolding load store
    modify p f = do a ← load p; store p (some (f a))

    -- `kfree(p)`
    unfoldable pub free : Ptr → M T (Unit {0})
    unfolding load store
    free p = load p >> store p none
