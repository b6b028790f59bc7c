-- ===== src/Kernel/Spec/Refine.antt =====
-- The requests of src/lkm/ums_core.c that make and destroy objects do what the registries promise.
use aosv_project.Base.{ℕ, ◌≡◌, refl, true, none, Option-cases, Bool-cases, inl, inr, arith}
use aosv_project.Hashtable.{Hashtable}
use aosv_project.Kernel.Objects.Index.{lookup-object}
use aosv_project.Kernel.Outcome.{ok, pure, ◌>>=◌}
use aosv_project.Kernel.State.{Kwt, Kernel, Alloc, M, wake_up_process}
use aosv_project.Kernel.Valid.{IsValid, worker}
use aosv_project.Kernel.Valid.Keep.{After, After-ok, After-and_then}
use aosv_project.Kernel.Worker.{kwt_tid, create_worker_thread, destroy_kworker_thread}
use aosv_project.Kernel.Worker.Registry.{get-none, get-at}
use aosv_project.Kernel.Scheduler.{destroy_ksched_thread}
use aosv_project.Kernel.CompletionList.{init_completion_list, destroy_completion_list}
use aosv_project.Kernel.Core.{create_request, wait_creation}
use aosv_project.Kernel.Core.Ioctl.{
  Request, Reply, umsinit, umsinitcompllist, enterumsschedmode, createworkerthread, waitwtcreation,
  dequeuecompllist, compllistadd, executeumsthread, umsthreadtyield, workerthreadexit,
  compllistdestroy, workerthreaddestroy, schedthreaddestroy, umsdestroy, other, ums_ioctl,
}
use aosv_project.Kernel.Invariant.Lifetime.{Fresh}
use aosv_project.Kernel.Invariant.Reach.{IsAdmissible}
use aosv_project.Kernel.Spec.{maps, Agrees, is_registry, spec}
use aosv_project.Kernel.Spec.Effects.{
  Refines, init-Refines, create-Refines, destroy_list-Refines, destroy_worker-Refines,
  destroy_scheduler-Refines,
}

module _ ⦃ht : Hashtable⦄ where
  open ht use {Table}

  -- A wake-up is in no map.
  wake-Refines :
      (s t : Kernel Table) (pid : ℕ) (r : Request Table) (tid : ℕ)
      → Refines s pid r t
      → After (Refines s pid r) (wake_up_process tid t)
  unfolding wake_up_process
  wake-Refines s t pid r tid a = elim (Bool-cases (t.alive tid)) [
    | inl lives ↦ rw lives (record {
      workers = a.workers;
      schedulers = a.schedulers;
      lists = a.lists;
      last_id = a.last_id;
    })
    | inr gone ↦ rw gone tt
  ]

  create_request-Refines :
      (s : Kernel Table) (a : Alloc Kwt) (pid parent_tid tid : ℕ)
      → IsValid s
      → Fresh a s.wt_htable
      → worker s tid ≡ none
      → After
          (Refines s pid (createworkerthread a parent_tid tid))
          (create_request a parent_tid tid s)
  unfolding create_request
  create_request-Refines s a pid parent_tid tid v fresh free =
      let r = createworkerthread a parent_tid tid in
      After-and_then (Refines s pid r) (Refines s pid r) (create_worker_thread a tid s) _
        (create-Refines s v a pid parent_tid tid fresh free)
        λ _ t. wake-Refines s t pid r parent_tid

  wait-Refines :
      (s : Kernel Table) (pid tid : ℕ)
      → IsValid s
      → After (Refines s pid (waitwtcreation tid)) (wait_creation tid s)
  unfolding wait_creation
  wait-Refines s pid tid v = elim (Option-cases (worker s tid)) [
    | inl gone ↦ rw (get-none tid v gone) tt
    | inr (w, here) ↦
        let (p, at) = lookup-object kwt_tid s.wt_htable s.kwts v.workers tid w here in
        rw (get-at s at, at.there)
          (record {
            workers = λ j. refl;
            schedulers = λ j. refl;
            lists = λ j. refl;
            last_id = refl;
          })
  ]

  replies :
      {A : Type 0} (P : Kernel Table → Type 0) (m : M Table A) (f : A → Reply) (s : Kernel Table)
      → After P (m s)
      → After P ((m >>= λ a. pure (f a)) s)
  replies P m f s after = After-and_then P P (m s) _ after λ a t p. p

  ums_ioctl-After :
      (s : Kernel Table) (pid leader now : ℕ) (r : Request Table)
      → IsValid s
      → IsAdmissible s pid r
      → is_registry r ≡ true
      → After (Refines s pid r) (ums_ioctl pid leader now r s)
  unfolding ums_ioctl
  ums_ioctl-After s pid leader now (umsinitcompllist a) v (fresh, room) h =
      replies (Refines s pid (umsinitcompllist a)) (init_completion_list a) _ s
        (init-Refines s v a pid fresh room)
  ums_ioctl-After s pid leader now (createworkerthread a parent_tid tid) v (fresh, free) h =
      replies (Refines s pid (createworkerthread a parent_tid tid))
        (create_request a parent_tid tid) _ s
        (create_request-Refines s a pid parent_tid tid v fresh free)
  ums_ioctl-After s pid leader now (waitwtcreation tid) v _ h =
      replies (Refines s pid (waitwtcreation tid)) (wait_creation tid) _ s
        (wait-Refines s pid tid v)
  ums_ioctl-After s pid leader now (compllistdestroy clid) v _ h =
      replies (Refines s pid (compllistdestroy clid)) (destroy_completion_list clid) _ s
        (destroy_list-Refines s v clid pid)
  ums_ioctl-After s pid leader now (workerthreaddestroy tid) v _ h =
      replies (Refines s pid (workerthreaddestroy tid)) (destroy_kworker_thread tid) _ s
        (destroy_worker-Refines s v tid pid)
  ums_ioctl-After s pid leader now schedthreaddestroy v _ h =
      replies (Refines s pid schedthreaddestroy) (destroy_ksched_thread pid) _ s
        (destroy_scheduler-Refines s v pid)
  ums_ioctl-After s pid leader now (other request) v _ h = record {
    workers = λ j. refl;
    schedulers = λ j. refl;
    lists = λ j. refl;
    last_id = refl;
  }
  ums_ioctl-After s pid leader now (umsinit a) v _ h = absurd (ground arith)
  ums_ioctl-After s pid leader now (enterumsschedmode clid a folder files) v _ h =
      absurd (ground arith)
  ums_ioctl-After s pid leader now (dequeuecompllist signal clid out) v _ h = absurd (ground arith)
  ums_ioctl-After s pid leader now (compllistadd cle kcle tid clid) v _ h = absurd (ground arith)
  ums_ioctl-After s pid leader now (executeumsthread tid) v _ h = absurd (ground arith)
  ums_ioctl-After s pid leader now (umsthreadtyield tid) v _ h = absurd (ground arith)
  ums_ioctl-After s pid leader now (workerthreadexit tid) v _ h = absurd (ground arith)
  ums_ioctl-After s pid leader now umsdestroy v _ h = absurd (ground arith)

  -- A request that makes or destroys an object of the registries, that waits for a worker or that is
  -- none of the known ones: where it ends well on a valid state, and makes only what is new, the maps
  -- from ids to objects behind it are those that `spec` computes from the maps before it. The hash
  -- tables, their buckets and the addresses of the objects do not show.
  pub ums_ioctl-refines :
      (s t : Kernel Table) (pid leader now : ℕ) (r : Request Table) (a : Reply)
      → IsValid s
      → IsAdmissible s pid r
      → is_registry r ≡ true
      → ums_ioctl pid leader now r s ≡ ok a t
      → Agrees (maps t) (spec pid r (maps s))
  ums_ioctl-refines s t pid leader now r a v h k e =
      After-ok (Refines s pid r) (ums_ioctl-After s pid leader now r v h k) e
