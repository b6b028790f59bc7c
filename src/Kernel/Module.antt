-- ===== src/Kernel/Module.antt =====
-- `ums_init` and `ums_exit` of src/lkm/ums_core.c: the module is loaded and unloaded.
pub mod Shrink
pub mod Unload
pub mod Life
use aosv_project.Base.{ℕ, ◌^◌, if◌then◌else◌, ltb}
use aosv_project.Hashtable.{Hashtable}
use aosv_project.Kernel.Outcome.{pure, ◌>>=◌, ◌>>◌}
use aosv_project.Kernel.State.{M}
use aosv_project.Kernel.Worker.{destroy_kwt_htable}
use aosv_project.Kernel.Scheduler.{destroy_kst_htable}
use aosv_project.Kernel.CompletionList.{destroy_kcl_htable}
use aosv_project.Kernel.Proc.{create_proc_ums}
use aosv_project.Kernel.Proc.Remove.{remove_proc_ums}

module _ ⦃ht : Hashtable⦄ where
  open ht use {Table}

  -- `ret` is what `misc_register` returns. The three functions that init the mutexes of the
  -- registries change nothing here.
  unfoldable pub ums_init : (ret : ℕ) → M Table ℕ
  ums_init ret = if ltb ret (2 ^ 31) then (create_proc_ums >> pure 0) else pure ret

  unfoldable pub ums_exit : M Table (Unit {0})
  ums_exit = do destroy_kcl_htable; destroy_kwt_htable; destroy_kst_htable; remove_proc_ums
