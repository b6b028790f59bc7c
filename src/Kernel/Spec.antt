-- ===== src/Kernel/Spec.antt =====
-- What the registries of src/lkm promise: three finite maps from ids to objects, and what the requests
-- that make and destroy objects do to them.
pub mod Effects
pub mod Refine
use aosv_project.Base.{ℕ, ◌+◌, ◌≡◌, Bool, true, false, Option, none, some, if◌then◌else◌, ◌==◌}
use aosv_project.Hashtable.{Hashtable}
use aosv_project.Kernel.State.{Kwt, Kst, Kcl, Kernel}
use aosv_project.Kernel.Valid.{worker, scheduler, completion_list}
use aosv_project.Kernel.Worker.Registry.{new_worker}
use aosv_project.Kernel.CompletionList.Registry.{new_list}
use aosv_project.Kernel.Core.Ioctl.{
  Request, umsinitcompllist, createworkerthread, waitwtcreation, compllistdestroy,
  workerthreaddestroy, schedthreaddestroy, other,
}

module _ ⦃ht : Hashtable⦄ where
  open ht use {Table}

  pub record Maps : Type 0 where
    pub workers : ℕ → Option Kwt
    pub schedulers : ℕ → Option Kst
    pub lists : ℕ → Option (Kcl Table)
    pub last_id : ℕ

  -- The maps of a state forget the tables, their buckets and the addresses.
  abbrev pub maps : Kernel Table → Maps
  maps s = record {
    workers = worker s;
    schedulers = scheduler s;
    lists = completion_list s;
    last_id = s.compl_list_last_id;
  }

  -- The same maps, key by key.
  pub record Agrees (a b : Maps) : Type 0 where
    pub workers : (j : ℕ) → a.workers j ≡ b.workers j
    pub schedulers : (j : ℕ) → a.schedulers j ≡ b.schedulers j
    pub lists : (j : ℕ) → a.lists j ≡ b.lists j
    pub last_id : a.last_id ≡ b.last_id

  -- The requests that make or destroy objects of the registries, or only look.
  abbrev pub is_registry : Request Table → Bool
  is_registry (umsinitcompllist a) = true
  is_registry (createworkerthread a parent_tid tid) = true
  is_registry (waitwtcreation tid) = true
  is_registry (compllistdestroy clid) = true
  is_registry (workerthreaddestroy tid) = true
  is_registry schedthreaddestroy = true
  is_registry (other request) = true
  is_registry r = false

  abbrev pub spec : (pid : ℕ) → Request Table → Maps → Maps
  spec pid (umsinitcompllist a) m = record m {
    lists = λ j. if m.last_id == j then some (new_list a.bytes m.last_id) else m.lists j;
    last_id = m.last_id + 1;
  }
  spec pid (createworkerthread a parent_tid tid) m = record m {
    workers = λ j. if tid == j then some (new_worker a.bytes tid) else m.workers j;
  }
  spec pid (compllistdestroy clid) m = record m {
    lists = λ j. if clid == j then none else m.lists j;
  }
  spec pid (workerthreaddestroy tid) m = record m {
    workers = λ j. if tid == j then none else m.workers j;
  }
  spec pid schedthreaddestroy m = record m {
    schedulers = λ j. if pid == j then none else m.schedulers j;
  }
  spec pid r m = m
