-- ===== src/Kernel/Valid.antt =====
-- The state as three finite maps, and the invariant under which the tables and the heap are one.
pub mod Step
pub mod Set
pub mod Keep
use aosv_project.Base.{ℕ, ◌<◌, ◌≡◌, Option, none, some, List, [], ◌∷◌, count}
use aosv_project.Hashtable.{Hashtable}
use aosv_project.Kernel.Objects.Index.{IsIndex, IsAt, object}
use aosv_project.Kernel.Outcome.{Outcome, ok, fault, blocked}
use aosv_project.Kernel.State.{Kwt, Kst, Kcl, Kernel}
use aosv_project.Kernel.Worker.{kwt_tid}
use aosv_project.Kernel.Scheduler.{kst_tid}
use aosv_project.Kernel.CompletionList.{kcl_id}

-- Total correctness: the code neither faults nor sleeps, and its end satisfies `P`.
abbrev pub Ends : {S A : Type 0} → (A → S → Type 0) → Outcome S A → Type 0
Ends P (ok a t) = P a t
Ends P fault = ⊥
Ends P blocked = ⊥

module _ ⦃ht : Hashtable⦄ where
  open ht use {Table, nodes}

  abbrev pub worker : Kernel Table → ℕ → Option Kwt
  worker s = object kwt_tid s.wt_htable s.kwts

  abbrev pub scheduler : Kernel Table → ℕ → Option Kst
  scheduler s = object kst_tid s.st_htable s.ksts

  abbrev pub completion_list : Kernel Table → ℕ → Option (Kcl Table)
  completion_list s = object kcl_id s.compl_list_htable s.kcls

  -- The tables lead to live objects, one for each key; ids are below the next one.
  pub record IsValid (s : Kernel Table) : Type 0 where
    pub workers : IsIndex kwt_tid s.wt_htable s.kwts
    pub schedulers : IsIndex kst_tid s.st_htable s.ksts
    pub lists : IsIndex kcl_id s.compl_list_htable s.kcls
    pub recent :
        (clid : ℕ) (c : Kcl Table) → completion_list s clid ≡ some c → clid < s.compl_list_last_id

  -- The lookup of a worker gives the pointer `p`, where `w` stands; so for the other two.
  abbrev pub WorkerAt : Kernel Table → (tid p : ℕ) → Kwt → Type 0
  WorkerAt s = IsAt kwt_tid s.wt_htable s.kwts

  abbrev pub SchedulerAt : Kernel Table → (tid q : ℕ) → Kst → Type 0
  SchedulerAt s = IsAt kst_tid s.st_htable s.ksts

  abbrev pub ListAt : Kernel Table → (clid p : ℕ) → Kcl Table → Type 0
  ListAt s = IsAt kcl_id s.compl_list_htable s.kcls
