-- ===== src/Kernel/Balance.antt =====
-- What the counters of src/lkm/kcompletion_list.h count: the threads of a list's queue, and those
-- of them that no scheduler holds.
pub mod Tally
pub mod Lists
pub mod Leave
pub mod Change
pub mod Requests
pub mod Taken
pub mod Made
pub mod Steps
pub mod History
pub mod Sleep
use aosv_project.Base.{
  ℕ, ◌%◌, ◌≤◌, ◌≡◌, Bool, Option, none, some, if◌then◌else◌, ◌==◌, count, length, int_mod,
}
use aosv_project.Hashtable.{Hashtable}
use aosv_project.Interface.{wt_exiting}
use aosv_project.Kernel.State.{Kwt, Kcl, Kernel}
use aosv_project.Kernel.CompletionList.Loops.{Known}
use aosv_project.Kernel.CompletionList.Take.{is_free}
use aosv_project.Kernel.Valid.{IsValid, worker, completion_list}
use aosv_project.Kernel.Balance.Tally.{tally}

-- How often a list owes a place in its queue to an optional worker: as often as the worker names
-- it, until the worker exits.
abbrev pub enrolled : (clid : ℕ) → Option Kwt → ℕ
enrolled clid none = 0
enrolled clid (some w) = if w.state == wt_exiting then 0 else count clid w.clid_list

module _ ⦃ht : Hashtable⦄ where
  open ht use {Table, nodes, possible}

  -- The queue of `c` holds each tid `places tid` times, where a lookup finds it, and the counters
  -- are the length of the queue and the number of the free tids in it.
  pub record Counts (free : ℕ → Bool) (places : ℕ → ℕ) (c : Kcl Table) : Type 0 where
    pub members : (tid : ℕ) → count tid (nodes c.wt_ready_queue) ≡ places tid
    pub homed :
        (tid : ℕ) → count tid (possible c.wt_ready_queue tid) ≡ count tid (nodes c.wt_ready_queue)
    pub threads : c.nthreads ≡ length (nodes c.wt_ready_queue) % int_mod
    pub ready : c.threads_ready ≡ tally free (nodes c.wt_ready_queue) % int_mod

  abbrev pub places : Kernel Table → (clid tid : ℕ) → ℕ
  places s clid tid = enrolled clid (worker s tid)

  pub record IsBalanced (s : Kernel Table) : Type 0 where
    pub valid : IsValid s
    -- A worker is idle, running or exiting, and its lists exist.
    pub sound :
        (tid : ℕ) (w : Kwt) → worker s tid ≡ some w → (w.state ≤ wt_exiting) × Known s w.clid_list
    pub counts :
        (clid : ℕ) (c : Kcl Table)
        → completion_list s clid ≡ some c
        → Counts (is_free s) (places s clid) c
