-- ===== src/Kernel/Module/Life.antt =====
-- The life of the module of src/lkm/ums_core.c, from `ums_init` to `ums_exit`.
use aosv_project.Base.{ℕ, ◌<◌, ◌^◌, ◌≡◌, refl, none, some, Option, subst, arith, true, ltb}
use aosv_project.Hashtable.{Hashtable}
use aosv_project.Kernel.Objects.{scan}
use aosv_project.Kernel.Objects.Index.{IsIndex-init, object}
use aosv_project.Kernel.State.{Kcl, Kernel}
use aosv_project.Kernel.Valid.{Ends, IsValid}
use aosv_project.Kernel.Worker.{kwt_tid}
use aosv_project.Kernel.Scheduler.{kst_tid}
use aosv_project.Kernel.CompletionList.{kcl_id}
use aosv_project.Kernel.Proc.{create_proc_ums}
use aosv_project.Kernel.Invariant.Reach.{Reachable, Reachable-IsValid}
use aosv_project.Kernel.Module.{ums_init, ums_exit}
use aosv_project.Kernel.Module.Unload.{Unloaded, ums_exit-unloads}

module _ ⦃ht : Hashtable⦄ where
  open ht use {Table, init, possible, possible-init}

  -- The registries as the program's image declares them.
  pub record IsEmpty (s : Kernel Table) : Type 0 where
    pub workers : s.wt_htable ≡ init
    pub schedulers : s.st_htable ≡ init
    pub lists : s.compl_list_htable ≡ init

  nothing : (h : ℕ → Option (Kcl Table)) (clid : ℕ) → object kcl_id init h clid ≡ none
  unfolding scan
  nothing h clid = rw (possible-init clid, object, scan) refl

  IsEmpty-IsValid : (s : Kernel Table) → IsEmpty s → IsValid s
  IsEmpty-IsValid s e = record {
    workers = rw e.workers (IsIndex-init kwt_tid s.kwts);
    schedulers = rw e.schedulers (IsIndex-init kst_tid s.ksts);
    lists = rw e.lists (IsIndex-init kcl_id s.kcls);
    recent = λ clid c here.
        let found = subst (λ t. object kcl_id t s.kcls clid ≡ some c) e.lists here in
        absurd (ground (arith, found, nothing s.kcls clid));
  }

  -- From a state with empty registries, loading the module succeeds where the device can be
  -- registered. After every history of requests from there, unloading it comes to its end with no
  -- access to freed memory, and frees every object of the registries.
  pub ums_init-lives :
      (s : Kernel Table) (ret : ℕ)
      → IsEmpty s
      → ret < 2 ^ 31
      → Ends
          (λ r t.
            (r ≡ 0)
            × ((u : Kernel Table) → Reachable t u → Ends (λ _ x. Unloaded u x) (ums_exit u)))
          (ums_init ret s)
  unfolding ums_init create_proc_ums
  ums_init-lives s ret e h =
      let ok_ret : ltb ret (2 ^ 31) ≡ true = ground arith in
      rw ok_ret (
        refl,
        λ u path. ums_exit-unloads u (
            Reachable-IsValid _ u
              (IsEmpty-IsValid _
                (record { workers = e.workers; schedulers = e.schedulers; lists = e.lists }))
              path),
      )
