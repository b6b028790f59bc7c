-- ===== src/Kernel/Core/Exit.antt =====
-- WORKERTHREADEXIT of src/lkm/ums_core.c: the lists of a worker that exits.
use mathlib.Core.Option
use aosv_project.Base.{
  ℕ, zero, suc, ◌<◌, ◌≡◌, ◌≢◌, refl, ap, ◌∙◌, none, some, true, ◌∷◌, arith, ltb, ◌==◌,
  if◌then◌else◌, count, dec,
}
use aosv_project.Hashtable.{Hashtable}
use aosv_project.Kernel.Objects.Index.{lookup-object}
use aosv_project.Kernel.State.{Kwt, Kcl, Kernel, wake}
use aosv_project.Kernel.Worker.{kwt_tid}
use aosv_project.Kernel.CompletionList.Loops.{iterate, Known}
use aosv_project.Kernel.Valid.{Ends, IsValid, worker, completion_list}
use aosv_project.Kernel.Valid.Set.{Ends-mono}
use aosv_project.Kernel.Balance.Leave.{drop_elems-nodes, drop_elems-possible, iterate-without}
use aosv_project.Kernel.Core.{thread_exit}
use aosv_project.Kernel.Core.Switch.{parted, ended, without, thread_exit-leaves}

module _ ⦃ht : Hashtable⦄ where
  open ht use {Table, nodes, possible}

  -- `d` is the list `c` after the exit of the worker `tid`, which named it `n` times. What stands in
  -- a queue is counted; `possible q tid` is what a search for `tid` meets.
  pub record Left (tid n : ℕ) (c d : Kcl Table) : Type 0 where
    pub lowered :
        d ≡ record c { wt_ready_queue = d.wt_ready_queue; nthreads = iterate n dec c.nthreads }
    pub unnamed : n ≡ 0 → d ≡ c
    pub gone : 0 < n → count tid (possible d.wt_ready_queue tid) ≡ 0
    pub cleared :
        0 < n
        → count tid (possible c.wt_ready_queue tid) ≡ count tid (nodes c.wt_ready_queue)
        → count tid (nodes d.wt_ready_queue) ≡ 0
    pub others :
        (a : ℕ) → a ≢ tid → count a (nodes d.wt_ready_queue) ≡ count a (nodes c.wt_ready_queue)
    pub found :
        (a j : ℕ)
        → a ≢ tid
        → count a (possible d.wt_ready_queue j) ≡ count a (possible c.wt_ready_queue j)

  -- `t` is `s` after the exit of the worker `w` with the tid `tid`.
  pub record Departed (s t : Kernel Table) (tid : ℕ) (w : Kwt) : Type 0 where
    pub valid : IsValid t
    pub workers : (j : ℕ) → worker t j ≡ (if j == tid then some (parted (ended w)) else worker s j)
    pub absent : (j : ℕ) → completion_list s j ≡ none → completion_list t j ≡ none
    pub lists :
        (j : ℕ) (c : Kcl Table)
        → completion_list s j ≡ some c
        → (d : Kcl Table) × (completion_list t j ≡ some d) × Left tid (count j w.clid_list) c d
    pub frame :
        t ≡ record s { kwts = t.kwts; kcls = t.kcls; events = wake w.curr_sched_tid ∷ s.events }

  iterate-lowered :
      (tid n : ℕ) (c : Kcl Table)
      → iterate n (without tid) c ≡ record c {
        wt_ready_queue = (iterate n (without tid) c).wt_ready_queue;
        nthreads = iterate n dec c.nthreads;
      }
  iterate-lowered tid zero c = refl
  iterate-lowered tid (suc n) c = iterate-lowered tid n (without tid c)

  iterate-gone :
      (tid n : ℕ) (c : Kcl Table)
      → count tid (possible (iterate n (without tid) c).wt_ready_queue tid)
        ≡ (if ltb 0 n then 0 else count tid (possible c.wt_ready_queue tid))
  iterate-gone tid zero c = refl
  iterate-gone tid (suc n) c = ground (
    arith,
    iterate-gone tid n (without tid c),
    drop_elems-possible tid tid tid (possible c.wt_ready_queue tid) c.wt_ready_queue,
  )

  iterate-others :
      (tid n a : ℕ) (c : Kcl Table)
      → a ≢ tid
      → count a (nodes (iterate n (without tid) c).wt_ready_queue)
        ≡ count a (nodes c.wt_ready_queue)
  iterate-others tid zero a c other = refl
  iterate-others tid (suc n) a c other = ground (
    arith,
    other,
    iterate-others tid n a (without tid c) other,
    drop_elems-nodes tid a (possible c.wt_ready_queue tid) c.wt_ready_queue,
  )

  iterate-found :
      (tid n a j : ℕ) (c : Kcl Table)
      → a ≢ tid
      → count a (possible (iterate n (without tid) c).wt_ready_queue j)
        ≡ count a (possible c.wt_ready_queue j)
  iterate-found tid zero a j c other = refl
  iterate-found tid (suc n) a j c other = ground (
    arith,
    other,
    iterate-found tid n a j (without tid c) other,
    drop_elems-possible tid a j (possible c.wt_ready_queue tid) c.wt_ready_queue,
  )

  iterate-unnamed : (tid n : ℕ) (c : Kcl Table) → n ≡ 0 → iterate n (without tid) c ≡ c
  iterate-unnamed tid zero c e = refl
  iterate-unnamed tid (suc n) c e = absurd (omega (arith, e))

  iterate-Left : (tid n : ℕ) (c : Kcl Table) → Left tid n c (iterate n (without tid) c)
  iterate-Left tid n c = record {
    lowered = iterate-lowered tid n c;
    unnamed = iterate-unnamed tid n c;
    gone = λ h. ground (arith, h, iterate-gone tid n c);
    cleared = λ h home. let a = iterate-without tid n c home in ground (arith, h, a.members tid);
    others = λ a other. iterate-others tid n a c other;
    found = λ a j other. iterate-found tid n a j c other;
  }

  -- In a valid state with the worker in the map, its scheduler's thread alive and every list of the
  -- worker there, an exit marks the worker as exiting and without a scheduler, wakes that scheduler,
  -- and lowers the count of threads of each list once for each time that the worker names it. In
  -- the queue of a list that it names, no search for the worker meets it any more, and where the queue
  -- holds it only under its tid, the queue holds it no more; every other worker stands there as
  -- often as before, also for every search. Nothing else changes, and the state stays valid.
  pub thread_exit-departs :
      (s : Kernel Table) (tid : ℕ) (w : Kwt)
      → IsValid s
      → worker s tid ≡ some w
      → Known s w.clid_list
      → s.alive w.curr_sched_tid ≡ true
      → Ends (λ _ t. Departed s t tid w) (thread_exit tid s)
  thread_exit-departs s tid w v here known lives =
      let (p, at) = lookup-object kwt_tid s.wt_htable s.kwts v.workers tid w here in
      Ends-mono (thread_exit tid s) (thread_exit-leaves s tid w v here known lives) λ _ t a.
        record {
          valid = a.valid;
          workers = a.workers;
          absent = λ j h. a.lists j ∙ ap (Option.map _) h;
          lists = λ j c h. (
            iterate (count j w.clid_list) (without tid) c,
            rw (a.lists j, h, at.same) refl,
            iterate-Left tid (count j w.clid_list) c,
          );
          frame = a.frame;
        }
