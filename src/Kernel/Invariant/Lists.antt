-- ===== src/Kernel/Invariant/Lists.antt =====
-- The code of src/lkm/kcompletion_list.c and of its macros keeps a state valid.
use aosv_project.Base.{ℕ, ◌≡◌, refl, List, [], ◌∷◌, Option-cases, inl, inr}
use aosv_project.Hashtable.{Hashtable}
use aosv_project.Kernel.Objects.{Ptr, scan}
use aosv_project.Kernel.Outcome.{◌>>=◌}
use aosv_project.Kernel.State.{Kcl, M, lists, modify}
use aosv_project.Kernel.Valid.Keep.{Keeps, Keeps-bind, Keeps-list}
use aosv_project.Kernel.CompletionList.{
  kcl_id, get_kcompletion_list, add_worker_thread, for_each_clid, inc_threads_ready,
  dec_threads_ready, dec_nthreads, wake_up_waiting, for_each_inc_kcl_threads_ready,
  for_each_dec_kcl_threads_ready, for_each_dec_kcl_nthreads, wake_up_schedulers, take_ready,
  ready_loop, get_wt_ready_queue,
}
use aosv_project.Kernel.Invariant.Registries.{registry_rules}

module _ ⦃ht : Hashtable⦄ where
  open ht use {Table, possible}

  pub Keeps-get_kcompletion_list : (clid : ℕ) → Keeps (get_kcompletion_list clid)
  unfolding get_kcompletion_list
  Keeps-get_kcompletion_list clid = record {
    at = λ s v. elim (Option-cases (scan kcl_id s.kcls clid (possible s.compl_list_htable clid))) [
      | inl e ↦ rw (e, get_kcompletion_list) tt
      | inr (r, e) ↦ rw (e, get_kcompletion_list) v
    ];
  }

  -- Code that looks a list up and writes it, and keeps its identifier.
  Keeps-write_list :
      (clid : ℕ) (f : Kcl Table → Kcl Table)
      → ((c : Kcl Table) → (f c).clc ≡ c.clc)
      → Keeps (get_kcompletion_list clid >>= λ kcl. modify lists kcl f)
  Keeps-write_list clid f same =
      Keeps-bind (get_kcompletion_list clid) _ (Keeps-get_kcompletion_list clid)
        λ kcl. Keeps-list kcl f same

  pub Keeps-add_worker_thread :
      (kcle : Ptr) (tid clid : ℕ) → Keeps (add_worker_thread kcle tid clid)
  unfolding add_worker_thread
  Keeps-add_worker_thread kcle tid clid =
      search (registry_rules, Keeps-get_kcompletion_list) depth 16

  pub Keeps-for_each_clid :
      (body : ℕ → M Table (Unit {0}))
      → ((clid : ℕ) → Keeps (body clid))
      → (clids : List ℕ) → Keeps (for_each_clid body clids)
  unfolding for_each_clid
  Keeps-for_each_clid body keep [] = search registry_rules
  Keeps-for_each_clid body keep (clid ∷ clids) =
      Keeps-bind (body clid) _ (keep clid) λ _. Keeps-for_each_clid body keep clids

  pub Keeps-inc_threads_ready : (clid : ℕ) → Keeps (inc_threads_ready clid)
  unfolding inc_threads_ready
  Keeps-inc_threads_ready clid = Keeps-write_list clid _ (λ c. refl)

  pub Keeps-dec_threads_ready : (clid : ℕ) → Keeps (dec_threads_ready clid)
  unfolding dec_threads_ready
  Keeps-dec_threads_ready clid = Keeps-write_list clid _ (λ c. refl)

  pub Keeps-dec_nthreads : (tid clid : ℕ) → Keeps (dec_nthreads tid clid)
  unfolding dec_nthreads
  Keeps-dec_nthreads tid clid = Keeps-write_list clid _ (λ c. refl)

  pub Keeps-wake_up_waiting : (clid : ℕ) → Keeps (wake_up_waiting clid)
  unfolding wake_up_waiting
  Keeps-wake_up_waiting clid = search (registry_rules, Keeps-get_kcompletion_list) depth 16

  pub ruleset list_rules = (
    registry_rules, Keeps-get_kcompletion_list, Keeps-for_each_clid, Keeps-inc_threads_ready,
    Keeps-dec_threads_ready, Keeps-dec_nthreads, Keeps-wake_up_waiting,
  )

  pub Keeps-for_each_inc_kcl_threads_ready :
      (kwt : Ptr) → Keeps (for_each_inc_kcl_threads_ready kwt)
  unfolding for_each_inc_kcl_threads_ready
  Keeps-for_each_inc_kcl_threads_ready kwt = search list_rules depth 16

  Keeps-for_each_dec_kcl_threads_ready : (kwt : Ptr) → Keeps (for_each_dec_kcl_threads_ready kwt)
  unfolding for_each_dec_kcl_threads_ready
  Keeps-for_each_dec_kcl_threads_ready kwt = search list_rules depth 16

  pub Keeps-for_each_dec_kcl_nthreads : (kwt : Ptr) → Keeps (for_each_dec_kcl_nthreads kwt)
  unfolding for_each_dec_kcl_nthreads
  Keeps-for_each_dec_kcl_nthreads kwt = search list_rules depth 16

  pub Keeps-wake_up_schedulers : (kwt : Ptr) → Keeps (wake_up_schedulers kwt)
  unfolding wake_up_schedulers
  Keeps-wake_up_schedulers kwt = search list_rules depth 16

  Keeps-take_ready : (kwt : Ptr) (i : ℕ) (out : List ℕ) → Keeps (take_ready kwt i out)
  unfolding take_ready
  Keeps-take_ready kwt i out = search (list_rules, Keeps-for_each_dec_kcl_threads_ready) depth 16

  Keeps-ready_loop : (tids : List ℕ) (i : ℕ) (out : List ℕ) → Keeps (ready_loop tids i out)
  unfolding ready_loop
  Keeps-ready_loop [] i out = search list_rules
  Keeps-ready_loop (tid ∷ tids) i out =
      search (list_rules, Keeps-take_ready, Keeps-ready_loop tids) depth 16

  pub Keeps-get_wt_ready_queue : (clid : ℕ) (out : List ℕ) → Keeps (get_wt_ready_queue clid out)
  unfolding get_wt_ready_queue
  Keeps-get_wt_ready_queue clid out = search (list_rules, Keeps-ready_loop) depth 16
