-- ===== src/Kernel/Valid/Step.antt =====
-- A write to one object, and an object more or less, seen through the finite maps.
use aosv_project.Base.{ℕ, ◌≡◌, Option, some, List, arith, ◌==◌, if◌then◌else◌, update}
use aosv_project.Hashtable.{Hashtable}
use aosv_project.Kernel.Objects.Index.{
  IsIndex, IsAt, object, IsIndex-modify, object-modify, lookup-modify,
}
use aosv_project.Kernel.State.{Kwt, Kst, Kcl, Kernel, Event}
use aosv_project.Kernel.Worker.{kwt_tid}
use aosv_project.Kernel.Scheduler.{kst_tid}
use aosv_project.Kernel.CompletionList.{kcl_id}
use aosv_project.Kernel.Valid.{IsValid, WorkerAt, SchedulerAt, ListAt}

module _ ⦃ht : Hashtable⦄ where
  open ht use {Table}

  module _ {A : Type 0} (key : A → ℕ) {t : Table} {h : ℕ → Option A} {k p : ℕ} {a : A}
      (at : IsAt key t h k p a) (ix : IsIndex key t h) (b : A) (same : key b ≡ key a) where
    pub IsAt-modify : IsAt key t (update h p (some b)) k p b
    IsAt-modify = record {
      found = rw (lookup-modify key t h ix p k a b at.there same) at.found;
      there = ground arith;
      same = ground (arith, at.same);
      inside = at.inside;
    }

    pub object-modify_at :
        (j : ℕ)
        → object key t (update h p (some b)) j ≡ (if j == k then some b else object key t h j)
    object-modify_at j =
        ground (arith, object-modify key t h ix p j a b at.there at.inside same, at.same)

  module _ {s : Kernel Table} (v : IsValid s) where
    pub IsValid-worker :
        {tid p : ℕ} {w : Kwt} (x : Kwt)
        → WorkerAt s tid p w
        → x.tid ≡ w.tid
        → IsValid (record s { kwts = update s.kwts p (some x) })
    IsValid-worker {p} {w} x at same = record {
      workers = IsIndex-modify kwt_tid s.wt_htable s.kwts v.workers p w x at.there same;
      schedulers = v.schedulers;
      lists = v.lists;
      recent = v.recent;
    }

    pub IsValid-scheduler :
        {tid p : ℕ} {k : Kst} (x : Kst)
        → SchedulerAt s tid p k
        → x.tid ≡ k.tid
        → IsValid (record s { ksts = update s.ksts p (some x) })
    IsValid-scheduler {p} {k} x at same = record {
      workers = v.workers;
      schedulers = IsIndex-modify kst_tid s.st_htable s.ksts v.schedulers p k x at.there same;
      lists = v.lists;
      recent = v.recent;
    }

    pub IsValid-list :
        {clid p : ℕ} {c : Kcl Table} (x : Kcl Table)
        → ListAt s clid p c
        → x.clc ≡ c.clc
        → IsValid (record s { kcls = update s.kcls p (some x) })
    IsValid-list {clid} {p} {c} x at same = record {
      workers = v.workers;
      schedulers = v.schedulers;
      lists = IsIndex-modify kcl_id s.compl_list_htable s.kcls v.lists p c x at.there same;
      recent = λ j d e. ground (
        arith,
        object-modify_at kcl_id at v.lists x same j,
        v.recent j d,
        v.recent clid c (ground (arith, at.found, at.there)),
      );
    }

    -- The invariant says nothing of the events.
    pub IsValid-events : (es : List Event) → IsValid (record s { events = es })
    IsValid-events es = record {
      workers = v.workers;
      schedulers = v.schedulers;
      lists = v.lists;
      recent = v.recent;
    }
