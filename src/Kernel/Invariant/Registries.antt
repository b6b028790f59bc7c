-- ===== src/Kernel/Invariant/Registries.antt =====
-- The code of src/lkm/kworker_thread.c, src/lkm/ksched_thread.c and of their macros keeps a state
-- valid.
use aosv_project.Base.{ℕ, refl, none, some, Option-cases, Bool-cases, inl, inr}
use aosv_project.Hashtable.{Hashtable}
use aosv_project.Kernel.Objects.{Ptr, scan}
use aosv_project.Kernel.State.{wake_up_process, wake_up_all}
use aosv_project.Kernel.Valid.Step.{IsValid-events}
use aosv_project.Kernel.Valid.Keep.{
  Keeps, Keeps-fault, Keeps-worker, Keeps-scheduler, IsValid-kwts, keep_rules,
}
use aosv_project.Kernel.Worker.{
  kwt_tid, get_kworker_thread, mutex_lock, mutex_trylock, mutex_unlock, worker_thread_add_clid,
  set_kwt_in_running_state, set_kwt_in_idle_state, set_kwt_in_exiting_state, update_time_measured,
  wake_up_scheduler,
}
use aosv_project.Kernel.Scheduler.{
  kst_tid, get_ksched_thread, set_kst_in_running_state, set_kst_in_idle_state, wait_worker_thread,
  wake_up_worker,
}

module _ ⦃ht : Hashtable⦄ where
  open ht use {Table, possible}

  pub Keeps-wake_up_process : (tid : ℕ) → Keeps (wake_up_process tid)
  unfolding wake_up_process
  Keeps-wake_up_process tid = record {
    at = λ s v. elim (Bool-cases (s.alive tid)) [
      | inl lives ↦ rw lives (IsValid-events v _)
      | inr gone ↦ rw gone tt
    ];
  }

  pub Keeps-wake_up_all : (clid : ℕ) → Keeps (wake_up_all clid)
  unfolding wake_up_all
  Keeps-wake_up_all clid = record { at = λ s v. IsValid-events v _ }

  pub Keeps-get_kworker_thread : (tid : ℕ) → Keeps (get_kworker_thread tid)
  unfolding get_kworker_thread
  Keeps-get_kworker_thread tid = record {
    at = λ s v. elim (Option-cases (scan kwt_tid s.kwts tid (possible s.wt_htable tid))) [
      | inl e ↦ rw (e, get_kworker_thread) tt
      | inr (r, e) ↦ rw (e, get_kworker_thread) v
    ];
  }

  pub Keeps-get_ksched_thread : (tid : ℕ) → Keeps (get_ksched_thread tid)
  unfolding get_ksched_thread
  Keeps-get_ksched_thread tid = record {
    at = λ s v. elim (Option-cases (scan kst_tid s.ksts tid (possible s.st_htable tid))) [
      | inl e ↦ rw (e, get_ksched_thread) tt
      | inr (r, e) ↦ rw (e, get_ksched_thread) v
    ];
  }

  pub Keeps-mutex_lock : (kwt : Ptr) → Keeps (mutex_lock kwt)
  unfolding mutex_lock
  Keeps-mutex_lock none = Keeps-fault
  Keeps-mutex_lock (some p) = record {
    at = λ s v. elim (Option-cases (s.kwts p)) [
      | inl gone ↦ rw gone tt
      | inr (w, there) ↦ rw there (elim (Bool-cases w.mutex) [
        | inl held ↦ rw held tt
        | inr idle ↦ rw idle (IsValid-kwts s v p w _ there refl)
      ])
    ];
  }

  pub Keeps-mutex_trylock : (kwt : Ptr) → Keeps (mutex_trylock kwt)
  unfolding mutex_trylock
  Keeps-mutex_trylock none = Keeps-fault
  Keeps-mutex_trylock (some p) = record {
    at = λ s v. elim (Option-cases (s.kwts p)) [
      | inl gone ↦ rw gone tt
      | inr (w, there) ↦ rw there (elim (Bool-cases w.mutex) [
        | inl held ↦ rw held v
        | inr idle ↦ rw idle (IsValid-kwts s v p w _ there refl)
      ])
    ];
  }

  pub Keeps-mutex_unlock : (kwt : Ptr) → Keeps (mutex_unlock kwt)
  unfolding mutex_unlock
  Keeps-mutex_unlock kwt = Keeps-worker kwt _ (λ w. refl)

  pub Keeps-set_kwt_in_running_state :
      (kwt : Ptr) (tid now : ℕ) → Keeps (set_kwt_in_running_state kwt tid now)
  unfolding set_kwt_in_running_state
  Keeps-set_kwt_in_running_state kwt tid now = Keeps-worker kwt _ (λ w. refl)

  pub Keeps-set_kwt_in_idle_state : (kwt : Ptr) → Keeps (set_kwt_in_idle_state kwt)
  unfolding set_kwt_in_idle_state
  Keeps-set_kwt_in_idle_state kwt = Keeps-worker kwt _ (λ w. refl)

  pub Keeps-set_kwt_in_exiting_state : (kwt : Ptr) → Keeps (set_kwt_in_exiting_state kwt)
  unfolding set_kwt_in_exiting_state
  Keeps-set_kwt_in_exiting_state kwt = Keeps-worker kwt _ (λ w. refl)

  pub Keeps-set_kst_in_running_state :
      (kst : Ptr) (wt : ℕ) → Keeps (set_kst_in_running_state kst wt)
  unfolding set_kst_in_running_state
  Keeps-set_kst_in_running_state kst wt = Keeps-scheduler kst _ (λ k. refl)

  pub Keeps-set_kst_in_idle_state :
      (kst : Ptr) (elapsed : ℕ) → Keeps (set_kst_in_idle_state kst elapsed)
  unfolding set_kst_in_idle_state
  Keeps-set_kst_in_idle_state kst elapsed = Keeps-scheduler kst _ (λ k. refl)

  pub ruleset registry_rules = (
    keep_rules, Keeps-wake_up_process, Keeps-wake_up_all, Keeps-get_kworker_thread,
    Keeps-get_ksched_thread, Keeps-mutex_lock, Keeps-mutex_trylock, Keeps-mutex_unlock,
    Keeps-set_kwt_in_running_state, Keeps-set_kwt_in_idle_state, Keeps-set_kwt_in_exiting_state,
    Keeps-set_kst_in_running_state, Keeps-set_kst_in_idle_state,
  )

  pub Keeps-update_time_measured : (kwt : Ptr) (now : ℕ) → Keeps (update_time_measured kwt now)
  unfolding update_time_measured
  Keeps-update_time_measured kwt now = search registry_rules depth 16

  pub Keeps-wake_up_scheduler : (kwt : Ptr) → Keeps (wake_up_scheduler kwt)
  unfolding wake_up_scheduler
  Keeps-wake_up_scheduler kwt = search registry_rules depth 16

  pub Keeps-worker_thread_add_clid :
      (cle : Ptr) (tid clid : ℕ) → Keeps (worker_thread_add_clid cle tid clid)
  unfolding worker_thread_add_clid
  Keeps-worker_thread_add_clid cle tid clid = search registry_rules depth 16

  pub Keeps-wait_worker_thread : (kwt : Ptr) → Keeps (wait_worker_thread kwt)
  unfolding wait_worker_thread
  Keeps-wait_worker_thread kwt = search registry_rules depth 16

  pub Keeps-wake_up_worker : (kwt : Ptr) → Keeps (wake_up_worker kwt)
  unfolding wake_up_worker
  Keeps-wake_up_worker kwt = search registry_rules depth 16
