-- ===== src/Kernel/Module/Unload.antt =====
-- `ums_exit` of src/lkm/ums_core.c frees every object of the module.
use aosv_project.Base.{ℕ, ◌<◌, ◌≡◌, ◌∙◌, ap, subst, sym, none, [], ◌∷◌, count}
use aosv_project.Hashtable.{Hashtable}
use aosv_project.Kernel.Entries.{remove}
use aosv_project.Kernel.State.{Kernel}
use aosv_project.Kernel.Valid.{Ends, IsValid}
use aosv_project.Kernel.Valid.Set.{Ends-and_then}
use aosv_project.Kernel.Worker.Unload as Workers
use aosv_project.Kernel.Scheduler.Unload as Schedulers
use aosv_project.Kernel.CompletionList.Unload as Lists
use aosv_project.Kernel.Worker.{destroy_kwt_htable}
use aosv_project.Kernel.Scheduler.{destroy_kst_htable}
use aosv_project.Kernel.CompletionList.{destroy_kcl_htable}
use aosv_project.Kernel.Proc.Remove.{remove_proc_ums}
use aosv_project.Kernel.Module.{ums_exit}
use aosv_project.Kernel.Module.Shrink.{Emptied}

module _ ⦃ht : Hashtable⦄ where
  open ht use {Table, nodes}

  -- What unloading leaves: empty registries, with every object freed that stood in them, and one
  -- more call to procfs, for the directory of the module.
  pub record Unloaded (s t : Kernel Table) : Type 0 where
    pub no_workers : nodes t.wt_htable ≡ []
    pub no_schedulers : nodes t.st_htable ≡ []
    pub no_lists : nodes t.compl_list_htable ≡ []
    pub kwts_freed : (p : ℕ) → 0 < count p (nodes s.wt_htable) → t.kwts p ≡ none
    pub ksts_freed : (p : ℕ) → 0 < count p (nodes s.st_htable) → t.ksts p ≡ none
    pub kcls_freed : (p : ℕ) → 0 < count p (nodes s.compl_list_htable) → t.kcls p ≡ none
    pub proc : t.proc ≡ record s.proc { calls = remove s.proc.proc_ums ∷ s.proc.calls }
    pub events : t.events ≡ s.events

  -- All but the three registries.
  abbrev others : Kernel Table → Kernel Table
  others s = Schedulers.rest (Workers.rest (Lists.rest s))

  frames :
      (s t u w : Kernel Table)
      → Emptied (λ r. r.compl_list_htable) (λ r. r.kcls) Lists.rest s t
      → Emptied (λ r. r.wt_htable) (λ r. r.kwts) Workers.rest t u
      → Emptied (λ r. r.st_htable) (λ r. r.ksts) Schedulers.rest u w
      → others w ≡ others s
  frames s t u w a b c =
      ap (λ r. Workers.rest (Lists.rest r)) c.frame
      ∙ ap (λ r. Schedulers.rest (Lists.rest r)) b.frame
      ∙ ap (λ r. Schedulers.rest (Workers.rest r)) a.frame

  unloaded :
      (s t u w : Kernel Table)
      → Emptied (λ r. r.compl_list_htable) (λ r. r.kcls) Lists.rest s t
      → Emptied (λ r. r.wt_htable) (λ r. r.kwts) Workers.rest t u
      → Emptied (λ r. r.st_htable) (λ r. r.ksts) Schedulers.rest u w
      → Ends (λ _ x. Unloaded s x) (remove_proc_ums w)
  unfolding remove_proc_ums
  unloaded s t u w a b c = record {
    no_workers = ap (λ (r : Kernel Table). nodes r.wt_htable) c.frame ∙ b.left;
    no_schedulers = c.left;
    no_lists =
        ap (λ (r : Kernel Table). nodes r.compl_list_htable) c.frame
        ∙ ap (λ (r : Kernel Table). nodes r.compl_list_htable) b.frame
        ∙ a.left;
    kwts_freed = λ p m.
        ap (λ (r : Kernel Table). r.kwts p) c.frame
        ∙ b.freed p (
            subst (λ n. 0 < n)
              (sym (ap (λ (r : Kernel Table). count p (nodes r.wt_htable)) a.frame)) m);
    ksts_freed = λ p m. c.freed p (
        subst (λ n. 0 < n)
          (sym (
            ap (λ (r : Kernel Table). count p (nodes r.st_htable)) b.frame
            ∙ ap (λ (r : Kernel Table). count p (nodes r.st_htable)) a.frame))
          m);
    kcls_freed = λ p m.
        ap (λ (r : Kernel Table). r.kcls p) c.frame
        ∙ ap (λ (r : Kernel Table). r.kcls p) b.frame
        ∙ a.freed p m;
    proc =
        ap (λ (r : Kernel Table). record r.proc { calls = remove r.proc.proc_ums ∷ r.proc.calls })
          (frames s t u w a b c);
    events = ap (λ (r : Kernel Table). r.events) (frames s t u w a b c);
  }

  -- On a valid state, unloading the module comes to its end with no access to freed memory and no
  -- object freed twice: the three registries are empty, every object that stood in them is freed,
  -- and the directory of the module is removed. The objects of the tree in /proc stay.
  pub ums_exit-unloads : (s : Kernel Table) → IsValid s → Ends (λ _ t. Unloaded s t) (ums_exit s)
  unfolding ums_exit
  ums_exit-unloads s v =
      Ends-and_then (λ _ t. Unloaded s t) (destroy_kcl_htable s) _
        (Lists.destroy_kcl_htable-Emptied s v)
        λ _ t a.
          Ends-and_then (λ _ t. Unloaded s t) (destroy_kwt_htable t) _
            (Workers.destroy_kwt_htable-Emptied t a.valid)
            λ _ u b.
              Ends-and_then (λ _ t. Unloaded s t) (destroy_kst_htable u) _
                (Schedulers.destroy_kst_htable-Emptied u b.valid) λ _ w c. unloaded s t u w a b c
