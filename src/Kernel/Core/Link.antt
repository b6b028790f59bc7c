-- ===== src/Kernel/Core/Link.antt =====
-- COMPLLISTADD of src/lkm/ums_core.c: a worker and a completion list come to know each other.
use aosv_project.Base.{
  ℕ, ◌≡◌, sym, ap, ◌∙◌, inl, inr, false, some, ◌∷◌, arith, ◌==◌, if◌then◌else◌, inc,
}
use aosv_project.Hashtable.{Hashtable}
use aosv_project.Kernel.State.{Kwt, Kcl, Kernel}
use aosv_project.Kernel.Valid.{Ends, IsValid, worker, completion_list}
use aosv_project.Kernel.Valid.Set.{Ends-and_then, Ends-mono}
use aosv_project.Kernel.Worker.{worker_thread_add_clid}
use aosv_project.Kernel.Worker.Registry.{worker_thread_add_clid-adds}
use aosv_project.Kernel.CompletionList.{add_worker_thread}
use aosv_project.Kernel.CompletionList.Registry.{add_worker_thread-adds}
use aosv_project.Kernel.Core.{list_add}

module _ ⦃ht : Hashtable⦄ where
  open ht use {Table, add}

  -- A worker with one list more, and a list with one worker more.
  abbrev pub listed : Kwt → (clid : ℕ) → Kwt
  listed w clid = record w { clid_list = clid ∷ w.clid_list }

  abbrev pub joined : Kcl Table → (tid : ℕ) → Kcl Table
  joined c tid = record c {
    wt_ready_queue = add tid tid c.wt_ready_queue;
    threads_ready = inc c.threads_ready;
    nthreads = inc c.nthreads;
  }

  pub record Linked (s u : Kernel Table) (tid clid : ℕ) (w : Kwt) (c : Kcl Table) : Type 0 where
    pub valid : IsValid u
    pub workers : (j : ℕ) → worker u j ≡ (if j == tid then some (listed w clid) else worker s j)
    pub lists :
        (j : ℕ)
        → completion_list u j ≡ (if j == clid then some (joined c tid) else completion_list s j)
    pub frame : u ≡ record s { kwts = u.kwts; kcls = u.kcls }

  -- In a valid state with an unlocked worker and a list of the two maps, the request names the list
  -- first among the worker's, puts the worker's tid into the list's ready queue and raises both of
  -- its counters; nothing else changes, and the state stays valid.
  pub list_add-links :
      (s : Kernel Table) (cle kcle tid clid : ℕ) (w : Kwt) (c : Kcl Table)
      → IsValid s
      → worker s tid ≡ some w
      → completion_list s clid ≡ some c
      → w.mutex ≡ false
      → Ends (λ _ u. Linked s u tid clid w c) (list_add (some cle) (some kcle) tid clid s)
  unfolding list_add
  list_add-links s cle kcle tid clid w c v here_w here_c free =
      elim (worker_thread_add_clid-adds s cle tid clid w v here_w) [
        | inl (locked, _) ↦ absurd (ground (arith, locked, free))
        | inr ends ↦
            Ends-and_then _ (worker_thread_add_clid (some cle) tid clid s) _ ends
              λ _ t (_, valid, ws, f).
                let here_t : completion_list t clid ≡ some c =
                  ap (λ (q : Kernel Table). completion_list q clid) f ∙ here_c in
                elim (add_worker_thread-adds t kcle tid clid valid) [
                  | inl (gone, _) ↦ absurd (ground (arith, gone, here_t))
                  | inr (d, here_d, ends') ↦
                      let same : some d ≡ some c = sym here_d ∙ here_t in
                      Ends-mono (add_worker_thread (some kcle) tid clid t) ends'
                        λ _ u (valid', ls, f'). record {
                          valid = valid';
                          workers = λ j. ground (arith, ws j, f');
                          lists = λ j. ground (arith, ls j, same, f);
                          frame = ground (arith, f', f);
                        }
                ]
      ]
