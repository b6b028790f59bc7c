-- ===== src/Kernel/Balance/Leave.antt =====
-- What `dec_nthreads` of src/lkm/kcompletion_list.h does to a list whose counters count its queue.
use aosv_project.Base.{
  ℕ, zero, suc, ◌+◌, ◌%◌, ◌≡◌, refl, ap, ◌∙◌, inl, inr, Bool, true, false, ◌&&◌, List, [], ◌∷◌,
  arith, ltb, ◌==◌, if◌then◌else◌, count, remove, length, update, count-remove, dec, int_mod,
  Bool-cases,
}
use aosv_project.Hashtable.{Hashtable}
use aosv_project.Kernel.State.{Kcl}
use aosv_project.Kernel.CompletionList.{drop_elems}
use aosv_project.Kernel.CompletionList.Loops.{iterate}
use aosv_project.Kernel.Core.Switch.{without}
use aosv_project.Kernel.Balance.{Counts}
use aosv_project.Kernel.Balance.Lists.{dec-mod}
use aosv_project.Kernel.Balance.Tally.{tally-all, tally-counts, tally-remove}

module _ ⦃ht : Hashtable⦄ where
  open ht use {Table, nodes, possible, del, nodes-del, possible-del, possible-le-nodes}

  pub drop_elems-nodes :
      (tid a : ℕ) (ts : List ℕ) (q : Table)
      → count a (nodes (drop_elems tid ts q))
        ≡ (if ltb 0 (count tid ts) && a == tid then 0 else count a (nodes q))
  unfolding drop_elems
  drop_elems-nodes tid a [] q = refl
  drop_elems-nodes tid a (t ∷ ts) q = elim (Bool-cases (t == tid)) [
    | inl hit ↦ rw hit (
        ground (
          arith,
          drop_elems-nodes tid a ts (del t q),
          nodes-del t q,
          count-remove t a (nodes q),
          hit,
        ))
    | inr miss ↦ rw miss (ground (arith, drop_elems-nodes tid a ts q, miss))
  ]

  pub drop_elems-possible :
      (tid a j : ℕ) (ts : List ℕ) (q : Table)
      → count a (possible (drop_elems tid ts q) j)
        ≡ (if ltb 0 (count tid ts) && a == tid then 0 else count a (possible q j))
  unfolding drop_elems
  drop_elems-possible tid a j [] q = refl
  drop_elems-possible tid a j (t ∷ ts) q = elim (Bool-cases (t == tid)) [
    | inl hit ↦ rw hit (
        ground (
          arith,
          drop_elems-possible tid a j ts (del t q),
          possible-del t q j,
          count-remove t a (possible q j),
          hit,
        ))
    | inr miss ↦ rw miss (ground (arith, drop_elems-possible tid a j ts q, miss))
  ]

  -- `d` is `c` after `n` times the code that takes the worker `tid` off it.
  pub record Shed (tid n : ℕ) (c d : Kcl Table) : Type 0 where
    pub members :
        (a : ℕ)
        → count a (nodes d.wt_ready_queue)
          ≡ (if ltb 0 n && a == tid then 0 else count a (nodes c.wt_ready_queue))
    pub homed :
        (a j : ℕ)
        → count a (possible d.wt_ready_queue j)
          ≡ (if ltb 0 n && a == tid then 0 else count a (possible c.wt_ready_queue j))
    pub ready : d.threads_ready ≡ c.threads_ready
    pub threads : (m : ℕ) → c.nthreads ≡ (n + m) % int_mod → d.nthreads ≡ m % int_mod

  Shed-without :
      (tid : ℕ) (c : Kcl Table)
      → count tid (possible c.wt_ready_queue tid) ≡ count tid (nodes c.wt_ready_queue)
      → Shed tid 1 c (without tid c)
  Shed-without tid c home = record {
    members = λ a.
        ground
          (arith, drop_elems-nodes tid a (possible c.wt_ready_queue tid) c.wt_ready_queue, home);
    homed = λ a j. ground (
      arith,
      drop_elems-possible tid a j (possible c.wt_ready_queue tid) c.wt_ready_queue,
      home,
      possible-le-nodes c.wt_ready_queue j a,
    );
    ready = refl;
    threads = λ m h. ap dec (h ∙ ap (λ k. k % int_mod) (omega arith)) ∙ dec-mod m;
  }

  Shed-trans :
      (tid n : ℕ) (c d e : Kcl Table) → Shed tid 1 c d → Shed tid n d e → Shed tid (suc n) c e
  Shed-trans tid n c d e a b = record {
    members = λ j. ground (arith, a.members j, b.members j);
    homed = λ i j. ground (arith, a.homed i j, b.homed i j);
    ready = b.ready ∙ a.ready;
    threads = λ m h. b.threads m (a.threads (n + m) (h ∙ ap (λ k. k % int_mod) (omega arith)));
  }

  pub iterate-without :
      (tid n : ℕ) (c : Kcl Table)
      → count tid (possible c.wt_ready_queue tid) ≡ count tid (nodes c.wt_ready_queue)
      → Shed tid n c (iterate n (without tid) c)
  iterate-without tid zero c home = record {
    members = λ a. refl;
    homed = λ a j. refl;
    ready = refl;
    threads = λ m h. h ∙ ap (λ k. k % int_mod) (omega arith);
  }
  iterate-without tid (suc n) c home =
      let a = Shed-without tid c home in
      Shed-trans tid n c (without tid c) (iterate n (without tid) (without tid c)) a (
        iterate-without tid n (without tid c)
          (ground (arith, a.members tid, a.homed tid tid, home)))

  Counts-Shed :
      {free : ℕ → Bool} {places : ℕ → ℕ} (tid : ℕ) (c d : Kcl Table)
      → Counts free places c
      → free tid ≡ false
      → Shed tid (places tid) c d
      → Counts free (update places tid 0) d
  Counts-Shed {free} {places} tid c d b held a =
      let gone : (j : ℕ)
          → count j (nodes d.wt_ready_queue) ≡ count j (remove tid (nodes c.wt_ready_queue)) =
        λ j.
          ground (arith, a.members j, count-remove tid j (nodes c.wt_ready_queue), b.members j) in
      let same = λ (f : ℕ → Bool).
        tally-counts f (nodes d.wt_ready_queue) (remove tid (nodes c.wt_ready_queue)) gone in
      record {
        members =
            λ j. ground (arith, gone j, count-remove tid j (nodes c.wt_ready_queue), b.members j);
        homed = λ j. ground (arith, a.members j, a.homed j j, b.homed j);
        threads = a.threads (length (nodes d.wt_ready_queue)) (
            b.threads
            ∙ ap (λ n. n % int_mod)
                (omega (
                  arith,
                  tally-all (nodes c.wt_ready_queue),
                  tally-all (nodes d.wt_ready_queue),
                  same (λ _. true),
                  tally-remove (λ _. true) tid (nodes c.wt_ready_queue),
                  b.members tid,
                )));
        ready =
            a.ready
            ∙ b.ready
            ∙ ap (λ n. n % int_mod)
                (ground (arith, same free, tally-remove free tid (nodes c.wt_ready_queue), held));
      }

  -- A held worker leaves the lists that it names.
  pub Counts-without :
      {free : ℕ → Bool} {places : ℕ → ℕ} {c : Kcl Table} (tid : ℕ)
      → Counts free places c
      → free tid ≡ false
      → Counts free (update places tid 0) (iterate (places tid) (without tid) c)
  Counts-without {free} {places} {c} tid b held =
      Counts-Shed tid c (iterate (places tid) (without tid) c) b held
        (iterate-without tid (places tid) c (b.homed tid))
