-- ===== src/Tests/World.antt =====
-- A kernel state with a scheduler 3, the workers 7, 15 and 23, which share a bucket, and two
-- lists, of 7 and 15 and of 7 and 23, and a tree in /proc with the scheduler and the worker 7.
use aosv_project.Base.{
  ℕ, Option, ◌<◌, ◌≡◌, refl, ◌||◌, none, some, [], ◌∷◌, arith, ◌==◌, update, length, ◌+◌, false,
  true, minus_one,
}
use aosv_project.Hashtable.Chained.{chained}
use aosv_project.Interface.{wt_idle, wt_running}
use aosv_project.Kernel.Objects.{scan}
use aosv_project.Kernel.Objects.Index.{IsIndex, IsIndex-init, IsIndex-add, object-add}
use aosv_project.Kernel.Entries.{Pup, Folder, File, ProcUms}
use aosv_project.Kernel.State.{Kwt, Kst, Kcl, Kernel}
use aosv_project.Kernel.Worker.{kwt_tid}
use aosv_project.Kernel.Scheduler.{kst_tid}
use aosv_project.Kernel.CompletionList.{kcl_id}
use aosv_project.Kernel.Valid.{IsValid, completion_list}

abbrev pub Table : Type 0
Table = chained.Table

abbrev pub idle_worker : (tid : ℕ) → Kwt
idle_worker tid = record {
  tid = tid;
  state = wt_idle;
  nswitches = 0;
  last_measured = 10;
  total_measured = 5;
  mutex = false;
  clid_list = 1 ∷ [];
  curr_sched_tid = minus_one;
}

-- The worker 15, as the scheduler 3 runs it.
abbrev pub busy_worker : Kwt
busy_worker = record (idle_worker 15) { state = wt_running; mutex = true; curr_sched_tid = 3 }

abbrev pub own_scheduler : Kst
own_scheduler = record {
  tid = 3;
  proc_id = 0;
  running = 0;
  nswitches = 0;
  wt_running = 0;
  elapsed_wt_running = 0;
  clc = 1;
}

abbrev pub shared_list : Kcl Table
shared_list = record {
  clc = 1;
  threads_ready = 1;
  nthreads = 2;
  wt_ready_queue = chained.add 7 7 (chained.add 15 15 chained.init);
}

-- A list with a worker of the first one and one of its own.
abbrev pub other_list : Kcl Table
other_list = record {
  clc = 2;
  threads_ready = 2;
  nthreads = 2;
  wt_ready_queue = chained.add 7 7 (chained.add 23 23 chained.init);
}

abbrev pub list_table : Table
list_table = chained.add 2 210 (chained.add 1 200 chained.init)

abbrev first_kcls : ℕ → Option (Kcl Table)
first_kcls = update (λ _. none) 200 (some shared_list)

abbrev pub two_workers : Table
two_workers = chained.add 23 130 (chained.add 15 110 chained.init)

abbrev first_kwts : ℕ → Option Kwt
first_kwts = update (λ _. none) 110 (some busy_worker)

abbrev two_kwts : ℕ → Option Kwt
two_kwts = update first_kwts 130 (some (idle_worker 23))

-- The process 42 with its scheduler 0, which is the thread 3, and the scheduler's worker 0, which is
-- the thread 7.
abbrev pub process : Pup Table
process = record {
  proc_ums_pid = some 600;
  proc_ums_pid_schedulers = some 601;
  last_sched_id = 1;
  schedulers_htable = chained.add 0 510 chained.init;
}

abbrev pub own_folder : Folder Table
own_folder = record {
  scheduler = some 602;
  scheduler_info = some 603;
  workers = some 604;
  sched_pid = 3;
  unlocked = true;
  last_wt_id = 1;
  workers_htable = chained.add 0 520 chained.init;
}

abbrev pub own_file : File
own_file = record { worker = some 605; wt_pid = 7 }

abbrev pub tree : ProcUms Table
tree = record {
  proc_ums = some 606;
  htable = chained.add 42 500 chained.init;
  pups = update (λ _. none) 500 (some process);
  folders = update (λ _. none) 510 (some own_folder);
  files = update (λ _. none) 520 (some own_file);
  calls = [];
  entry = λ calls. some (700 + length calls);
}

abbrev pub world : Kernel Table
world = record {
  compl_list_htable = list_table;
  compl_list_last_id = 3;
  wt_htable = chained.add 7 100 two_workers;
  st_htable = chained.add 3 300 chained.init;
  kcls = update first_kcls 210 (some other_list);
  kwts = update two_kwts 100 (some (idle_worker 7));
  ksts = update (λ _. none) 300 (some own_scheduler);
  alive = λ tid. tid == 3 || tid == 7;
  proc = tree;
  events = [];
}

first_worker : IsIndex kwt_tid (chained.add 15 110 chained.init) first_kwts
unfolding scan
first_worker =
    IsIndex-add kwt_tid chained.init (λ _. none) (IsIndex-init kwt_tid (λ _. none)) 110 busy_worker
      refl refl

both_workers : IsIndex kwt_tid two_workers two_kwts
unfolding scan
both_workers =
    IsIndex-add kwt_tid (chained.add 15 110 chained.init) first_kwts first_worker 130
      (idle_worker 23) refl refl

first_list : IsIndex kcl_id (chained.add 1 200 chained.init) first_kcls
unfolding scan
first_list =
    IsIndex-add kcl_id chained.init (λ _. none) (IsIndex-init kcl_id (λ _. none)) 200 shared_list
      refl refl

recent_ids : (clid : ℕ) (c : Kcl Table) → completion_list world clid ≡ some c → clid < 3
unfolding scan
recent_ids clid c e =
    let outer =
      object-add kcl_id (chained.add 1 200 chained.init) first_kcls first_list 210 clid other_list
        refl in
    let inner =
      object-add kcl_id chained.init (λ _. none) (IsIndex-init kcl_id (λ _. none)) 200 clid
        shared_list refl in
    ground (arith, e, outer, inner)

pub world-IsValid : IsValid world
unfolding scan
world-IsValid = record {
  workers = IsIndex-add kwt_tid two_workers two_kwts both_workers 100 (idle_worker 7) refl refl;
  schedulers =
      IsIndex-add kst_tid chained.init (λ _. none) (IsIndex-init kst_tid (λ _. none)) 300
        own_scheduler refl refl;
  lists =
      IsIndex-add kcl_id (chained.add 1 200 chained.init) first_kcls first_list 210 other_list refl
        refl;
  recent = recent_ids;
}
