-- ===== src/Kernel/Balance/Lists.antt =====
-- What the code of src/lkm/kcompletion_list.h does to a list whose counters count its queue.
use aosv_project.Base.{
  ℕ, zero, suc, ◌+◌, ◌%◌, ◌<◌, ◌≡◌, refl, sym, ap, ◌∙◌, Bool, true, false, List, ◌∷◌, arith, ◌==◌,
  if◌then◌else◌, count, length, update, ==-refl, inc, dec, int_mod,
}
use aosv_project.Hashtable.{Hashtable}
use aosv_project.Kernel.State.{Kcl}
use aosv_project.Kernel.CompletionList.Loops.{iterate}
use aosv_project.Kernel.CompletionList.Take.{fewer_ready}
use aosv_project.Kernel.CompletionList.Registry.{new_list}
use aosv_project.Kernel.Core.Finish.{more_ready}
use aosv_project.Kernel.Core.Link.{joined}
use aosv_project.Kernel.Balance.{Counts}
use aosv_project.Kernel.Balance.Tally.{
  tally, tally-all, tally-counts, tally-set, crossing, excluding, tally-excluding,
}

inc-mod : (n : ℕ) → inc (n % int_mod) ≡ suc n % int_mod
inc-mod n = omega arith

pub dec-mod : (n : ℕ) → dec (suc n % int_mod) ≡ n % int_mod
dec-mod n = omega arith

-- A list with its ready counter raised or lowered `n` times.
pub iterate-more_ready :
    {T : Type 0} (n m : ℕ) (c : Kcl T)
    → c.threads_ready ≡ m % int_mod
    → iterate n more_ready c ≡ record c { threads_ready = (n + m) % int_mod }
iterate-more_ready zero m c h =
    ap (λ x. record c { threads_ready = x }) (h ∙ ap (λ k. k % int_mod) (omega arith))
iterate-more_ready (suc n) m c h =
    let e : n + suc m ≡ suc n + m = omega arith in
    iterate-more_ready n (suc m) (more_ready c) (ap inc h ∙ inc-mod m)
    ∙ ap (λ k. record c { threads_ready = k % int_mod }) e

pub iterate-fewer_ready :
    {T : Type 0} (n m : ℕ) (c : Kcl T)
    → c.threads_ready ≡ (n + m) % int_mod
    → iterate n fewer_ready c ≡ record c { threads_ready = m % int_mod }
iterate-fewer_ready zero m c h =
    ap (λ x. record c { threads_ready = x }) (h ∙ ap (λ k. k % int_mod) (omega arith))
iterate-fewer_ready (suc n) m c h =
    let e : suc n + m ≡ suc (n + m) = omega arith in
    iterate-fewer_ready n m (fewer_ready c) (ap dec (h ∙ ap (λ k. k % int_mod) e) ∙ dec-mod (n + m))

module _ ⦃ht : Hashtable⦄ where
  open ht use {
    Table, nodes, possible, add, init, del, possible-init, possible-add, nodes-init,
    count-nodes-add, nodes-del, possible-del, possible-le-nodes, bucket,
  }

  nodes-add-tally :
      (f : ℕ → Bool) (v : ℕ) (t : Table)
      → tally f (nodes (add v v t)) ≡ (if f v then 1 else 0) + tally f (nodes t)
  nodes-add-tally f v t =
      tally-counts f (nodes (add v v t)) (v ∷ nodes t)
        (λ a. ground (arith, count-nodes-add v v t a))

  length-add : (v : ℕ) (t : Table) → length (nodes (add v v t)) ≡ suc (length (nodes t))
  length-add v t =
      omega
        (arith, nodes-add-tally (λ _. true) v t, tally-all (nodes (add v v t)), tally-all (nodes t))

  module _ {free : ℕ → Bool} {places : ℕ → ℕ} {c : Kcl Table} (b : Counts free places c) where
    -- COMPLLISTADD, for a free worker
    pub Counts-joined :
        (tid : ℕ)
        → free tid ≡ true
        → Counts free (λ j. (if j == tid then 1 else 0) + places j) (joined c tid)
    Counts-joined tid h = record {
      members = λ j.
          count-nodes-add tid tid c.wt_ready_queue j
          ∙ ap (λ n. (if j == tid then 1 else 0) + n) (b.members j);
      homed = λ j. ground (
        arith,
        possible-add tid tid c.wt_ready_queue j,
        count-nodes-add tid tid c.wt_ready_queue j,
        b.homed j,
        ==-refl (bucket tid),
      );
      threads =
          ap inc b.threads
          ∙ inc-mod (length (nodes c.wt_ready_queue))
          ∙ ap (λ n. n % int_mod) (sym (length-add tid c.wt_ready_queue));
      ready =
          let e : tally free (nodes (add tid tid c.wt_ready_queue))
              ≡ suc (tally free (nodes c.wt_ready_queue)) =
            ground (arith, nodes-add-tally free tid c.wt_ready_queue, h) in
          rw e (ap inc b.ready ∙ inc-mod (tally free (nodes c.wt_ready_queue)));
    }

    -- A dequeue, which takes free workers, each once.
    pub Counts-taken :
        (taken : List ℕ)
        → ((j : ℕ) → 0 < count j taken → (free j ≡ true) × (count j taken ≡ 1))
        → Counts
            (excluding taken free)
            places
            (iterate (crossing taken (nodes c.wt_ready_queue)) fewer_ready c)
    Counts-taken taken once =
        let e = tally-excluding free taken (nodes c.wt_ready_queue) once in
        rw
          (iterate-fewer_ready (crossing taken (nodes c.wt_ready_queue))
            (tally (excluding taken free) (nodes c.wt_ready_queue)) c
            (b.ready ∙ ap (λ n. n % int_mod) e))
          (record { members = b.members; homed = b.homed; threads = b.threads; ready = refl })

    -- A worker that was held is free.
    pub Counts-freed :
        (tid : ℕ)
        → free tid ≡ false
        → Counts (update free tid true) places (iterate (places tid) more_ready c)
    Counts-freed tid h =
        let e : tally (update free tid true) (nodes c.wt_ready_queue)
            ≡ places tid + tally free (nodes c.wt_ready_queue) =
          tally-set free tid (nodes c.wt_ready_queue) h
          ∙ ap (λ n. n + tally free (nodes c.wt_ready_queue)) (b.members tid) in
        rw (iterate-more_ready (places tid) (tally free (nodes c.wt_ready_queue)) c b.ready)
          (record {
            members = b.members;
            homed = b.homed;
            threads = b.threads;
            ready = ap (λ n. n % int_mod) (sym e);
          })

  pub Counts-new :
      (free : ℕ → Bool) (bytes : Kcl Table) (clid : ℕ) → Counts free (λ _. 0) (new_list bytes clid)
  Counts-new free bytes clid = record {
    members = λ j. rw nodes-init refl;
    homed = λ j. rw (nodes-init, possible-init j) refl;
    threads = rw nodes-init refl;
    ready = rw nodes-init refl;
  }
