-- ===== src/Kernel/Worker/Mutex.antt =====
-- The mutex of a worker, under the invariant.
use aosv_project.Base.{ℕ, ◌≡◌, refl, true, false, some}
use aosv_project.Hashtable.{Hashtable}
use aosv_project.Kernel.Outcome.{ok, blocked}
use aosv_project.Kernel.State.{Kwt, Kernel}
use aosv_project.Kernel.Valid.{Ends, IsValid, WorkerAt}
use aosv_project.Kernel.Valid.Set.{WorkerSet, store-WorkerSet, modify-WorkerSet}
use aosv_project.Kernel.Worker.{mutex_lock, mutex_unlock, mutex_trylock}

module _ ⦃ht : Hashtable⦄ {s : Kernel (ht.Table)} (v : IsValid s) {tid p : ℕ} {w : Kwt}
    (at : WorkerAt s tid p w) where
  pub mutex_lock-held : w.mutex ≡ true → mutex_lock (some p) s ≡ blocked
  unfolding mutex_lock
  mutex_lock-held held = rw (at.there, held)

  pub mutex_lock-free :
      w.mutex ≡ false
      → Ends (λ _ t. WorkerSet s t tid p (record w { mutex = true })) (mutex_lock (some p) s)
  unfolding mutex_lock
  mutex_lock-free free = rw (at.there, free) (store-WorkerSet v (record w { mutex = true }) at refl)

  pub mutex_unlock-WorkerSet :
      Ends (λ _ t. WorkerSet s t tid p (record w { mutex = false })) (mutex_unlock (some p) s)
  unfolding mutex_unlock
  mutex_unlock-WorkerSet = modify-WorkerSet v (λ w. record w { mutex = false }) at refl

  pub mutex_trylock-free :
      w.mutex ≡ false
      → Ends
          (λ r t. (r ≡ true) × WorkerSet s t tid p (record w { mutex = true }))
          (mutex_trylock (some p) s)
  unfolding mutex_trylock
  mutex_trylock-free free =
      rw (at.there, free) (refl, store-WorkerSet v (record w { mutex = true }) at refl)

  pub mutex_trylock-held : w.mutex ≡ true → mutex_trylock (some p) s ≡ ok false s
  unfolding mutex_trylock
  mutex_trylock-held held = rw (at.there, held)
