-- ===== src/Kernel/Entries.antt =====
-- src/lkm/ums_proc_p.h: what the module keeps of its tree in /proc.
use aosv_project.Base.{ℕ, Bool, Option, List}
use aosv_project.Text.{Text}
use aosv_project.Kernel.Objects.{Ptr}

-- `proc_ums_pid`. A pointer to a `proc_dir_entry` is known by its address alone.
pub record Pup (T : Type 0) : Type 0 where
  pub proc_ums_pid : Ptr
  pub proc_ums_pid_schedulers : Ptr
  pub last_sched_id : ℕ
  pub schedulers_htable : T

-- `scheduler`; `unlocked` says whether the bytes of its mutex are those of a mutex that nobody holds.
pub record Folder (T : Type 0) : Type 0 where
  pub scheduler : Ptr
  pub scheduler_info : Ptr
  pub workers : Ptr
  pub sched_pid : ℕ
  pub unlocked : Bool
  pub last_wt_id : ℕ
  pub workers_htable : T

-- `worker`
pub record File : Type 0 where
  pub worker : Ptr
  pub wt_pid : ℕ

-- A call to procfs: `proc_mkdir`, `proc_create` and `proc_remove`.
pub data Call : Type 0 where
  mkdir : (name : Text) (parent : Ptr) → Call
  create : (name : Text) (parent : Ptr) → Call
  remove : (entry : Ptr) → Call

pub record ProcUms (T : Type 0) : Type 0 where
  -- `proc_ums`, and the table of `proc_ums_pids`
  pub proc_ums : Ptr
  pub htable : T
  pub pups : ℕ → Option (Pup T)
  pub folders : ℕ → Option (Folder T)
  pub files : ℕ → Option File
  -- the calls to procfs, newest first, and the entry that it returns for the newest
  pub calls : List Call
  pub entry : List Call → Ptr
