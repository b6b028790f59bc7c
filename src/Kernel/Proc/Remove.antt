-- ===== src/Kernel/Proc/Remove.antt =====
-- How src/lkm/ums_proc.c takes its tree in /proc down.
use aosv_project.Base.{ℕ, some, List, [], ◌∷◌}
use aosv_project.Hashtable.{Hashtable}
use aosv_project.Kernel.Outcome.{ok, pure, ◌>>=◌, ◌>>◌}
use aosv_project.Kernel.State.{M, pups, folders, files, load, modify, free}
use aosv_project.Kernel.Proc.{proc_remove}

module _ ⦃ht : Hashtable⦄ where
  open ht use {Table, del, nodes}

  unfoldable pub remove_proc_ums : M Table (Unit {0})
  unfolding proc_remove
  remove_proc_ums s = proc_remove s.proc.proc_ums s

  -- The three nested loops of `remove_proc_ums_pid`, the innermost first.
  unfoldable pub remove_files : (q : ℕ) → List ℕ → M Table (Unit {0})
  remove_files q [] = pure tt
  remove_files q (w ∷ ws) = do
    x ← load files (some w)
    proc_remove x.worker
    modify folders (some q) λ f. record f { workers_htable = del w f.workers_htable }
    free files (some w)
    remove_files q ws

  unfoldable pub remove_folders : (p : ℕ) → List ℕ → M Table (Unit {0})
  remove_folders p [] = pure tt
  remove_folders p (q ∷ qs) = do
    f ← load folders (some q)
    remove_files q (nodes f.workers_htable)
    g ← load folders (some q)
    proc_remove g.scheduler
    proc_remove g.scheduler_info
    proc_remove g.workers
    modify pups (some p) λ u. record u { schedulers_htable = del q u.schedulers_htable }
    free folders (some q)
    remove_folders p qs

  unfoldable pub remove_pups : List ℕ → M Table (Unit {0})
  remove_pups [] = pure tt
  remove_pups (p ∷ ps) = do
    u ← load pups (some p)
    remove_folders p (nodes u.schedulers_htable)
    v ← load pups (some p)
    proc_remove v.proc_ums_pid
    proc_remove v.proc_ums_pid_schedulers
    λ s. ok tt (record s { proc = record s.proc { htable = del p s.proc.htable } })
    free pups (some p)
    remove_pups ps

  unfoldable pub remove_proc_ums_pid : M Table (Unit {0})
  remove_proc_ums_pid s = remove_pups (nodes s.proc.htable) s
