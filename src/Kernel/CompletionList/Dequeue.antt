-- ===== src/Kernel/CompletionList/Dequeue.antt =====
-- `get_wt_ready_queue` of src/lkm/kcompletion_list.c: the loop over a ready queue.
use mathlib.Core.Option
use std.Path.{fun_ext}
use aosv_project.Base.{
  ℕ, suc, ◌+◌, ◌-◌, ◌≤◌, ◌<◌, ◌≡◌, refl, ap, ◌∙◌, Bool, true, false, not, Option, none, some, List,
  [], ◌∷◌, arith, if◌then◌else◌, count, ltb, length, set, Bool-cases, inl, inr, update,
}
use aosv_project.Hashtable.{Hashtable}
use aosv_project.Interface.{max_wt}
use aosv_project.Kernel.Objects.Index.{lookup-object}
use aosv_project.Kernel.State.{Kwt, Kcl, Kernel}
use aosv_project.Kernel.Worker.{kwt_tid}
use aosv_project.Kernel.Worker.Registry.{get-at}
use aosv_project.Kernel.Valid.{Ends, IsValid, worker, completion_list}
use aosv_project.Kernel.Valid.Set.{Ends-and_then, Ends-mono}
use aosv_project.Kernel.CompletionList.{take_ready, ready_loop}
use aosv_project.Kernel.CompletionList.Loops.{iterate, iterate-add, Known, Known-kept_all}
use aosv_project.Kernel.CompletionList.Grab.{
  grab, grab-nil, grab-zero, grab-free, grab-held, write, write-nil, write-cons,
}
use aosv_project.Kernel.CompletionList.Take.{
  Taken, is_free, spent, fewer_ready, held, unlocked, names, take_ready-reserves, take_ready-skips,
}

-- A worker after `n` reservations.
abbrev pub reserved : ℕ → Option Kwt → Option Kwt
reserved n o = if ltb 0 n then Option.map held o else o

pub unlocked-reserved :
    (n : ℕ) (o : Option Kwt) → unlocked (reserved n o) ≡ (if ltb 0 n then false else unlocked o)
unlocked-reserved n none = ground arith
unlocked-reserved n (some w) = ground arith

names-reserved : (clid n : ℕ) (o : Option Kwt) → names clid (reserved n o) ≡ names clid o
names-reserved clid n none = ground arith
names-reserved clid n (some w) = ground arith

reserved-reserved : (n m : ℕ) (o : Option Kwt) → reserved m (reserved n o) ≡ reserved (n + m) o
reserved-reserved n m none = ground arith
reserved-reserved n m (some w) = ground arith

fewer-fewer :
    {T : Type 0} (n m : ℕ) (o : Option (Kcl T))
    → Option.map (iterate m fewer_ready) (Option.map (iterate n fewer_ready) o)
      ≡ Option.map (iterate (n + m) fewer_ready) o
fewer-fewer n m none = refl
fewer-fewer n m (some c) = ap some (iterate-add n m fewer_ready c)

module _ ⦃ht : Hashtable⦄ where
  open ht use {Table, nodes}

  -- Every tid of a queue is that of a worker whose lists exist.
  abbrev pub Ready : Kernel Table → List ℕ → Type 0
  Ready s [] = Unit
  Ready s (tid ∷ tids) = ((w : Kwt) × (worker s tid ≡ some w) × Known s w.clid_list) × Ready s tids

  Taken-nil : (s : Kernel Table) → IsValid s → Taken s s []
  Taken-nil s v = record {
    valid = v;
    workers = λ j. ground arith;
    lists = λ j. ground arith;
    frame = refl;
  }

  module _ {s t : Kernel Table} {taken : List ℕ} (a : Taken s t taken) where
    kept : (clids : List ℕ) → Known s clids → Known t clids
    kept clids = Known-kept_all fewer_ready (λ c. refl) s t (λ j. spent s j taken) clids a.lists

    pub Ready-taken : (tids : List ℕ) → Ready s tids → Ready t tids
    Ready-taken [] ready = tt
    Ready-taken (j ∷ js) ((w, here, known), ready) = (
      elim (Bool-cases (ltb 0 (count j taken))) [
        | inl e ↦ (held w, ground (arith, a.workers j), kept w.clid_list known)
        | inr e ↦ (w, ground (arith, a.workers j), kept w.clid_list known)
      ],
      Ready-taken js ready,
    )

  module _ {s t : Kernel Table} {tid : ℕ} (a : Taken s t (tid ∷ [])) where
    is_free-taken : is_free t ≡ update (is_free s) tid false
    is_free-taken = fun_ext λ j.
        ap unlocked (a.workers j)
        ∙ unlocked-reserved (count j (tid ∷ [])) (worker s j)
        ∙ ground arith

    spent-taken : (clid : ℕ) (tids : List ℕ) → spent t clid tids ≡ spent s clid tids
    spent-taken clid [] = refl
    spent-taken clid (j ∷ js) =
        let e : names clid (worker t j) ≡ names clid (worker s j) =
          ap (names clid) (a.workers j) ∙ names-reserved clid (count j (tid ∷ [])) (worker s j) in
        rw (e, spent-taken clid js)

    Taken-cons : {u : Kernel Table} (tids : List ℕ) → Taken t u tids → Taken s u (tid ∷ tids)
    Taken-cons {u} tids b = record {
      valid = b.valid;
      workers = λ j.
          b.workers j
          ∙ ap (reserved (count j tids)) (a.workers j)
          ∙ reserved-reserved (count j (tid ∷ [])) (count j tids) (worker s j)
          ∙ ap (λ n. reserved n (worker s j)) (omega arith);
      lists = λ j.
          let n = spent s j (tid ∷ []) in
          let e : n + spent s j tids ≡ spent s j (tid ∷ tids) = omega arith in
          b.lists j
          ∙ ap (λ o. Option.map (iterate (spent t j tids) fewer_ready) o) (a.lists j)
          ∙ fewer-fewer n (spent t j tids) (completion_list s j)
          ∙ ap (λ m. Option.map (iterate (n + m) fewer_ready) (completion_list s j))
              (spent-taken j tids)
          ∙ ap (λ m. Option.map (iterate m fewer_ready) (completion_list s j)) e;
      frame = ground (arith, b.frame, a.frame);
    }

    grab-taken :
        (i : ℕ) (tids : List ℕ)
        → i < max_wt
        → is_free s tid ≡ true
        → grab (is_free s) (max_wt - i) (tid ∷ tids)
          ≡ tid ∷ grab (is_free t) (max_wt - (i + 1)) tids
    grab-taken i tids room free =
        let e : max_wt - i ≡ suc (max_wt - (i + 1)) = omega arith in
        rw (e, is_free-taken) (grab-free (is_free s) (max_wt - (i + 1)) tid tids free)

  -- The loop ends with the workers `taken` reserved, and written from `i` on.
  abbrev pub Reserves : Kernel Table → ℕ → (out taken : List ℕ) → ℕ × List ℕ → Kernel Table → Type 0
  Reserves s i out taken r t = (r ≡ (i + length taken, write out i taken)) × Taken s t taken

  Reserves-cons :
      (s t u : Kernel Table) (i tid : ℕ) (out taken : List ℕ) (r : ℕ × List ℕ)
      → Taken s t (tid ∷ [])
      → Reserves t (i + 1) (set out i tid) taken r u
      → Reserves s i out (tid ∷ taken) r u
  Reserves-cons s t u i tid out taken r a (e, b) =
      let n : i + length (tid ∷ taken) ≡ (i + 1) + length taken = omega arith in
      (rw (n, write-cons out i tid taken) e, Taken-cons a taken b)

  grab_full :
      (free : ℕ → Bool) (i tid : ℕ) (tids : List ℕ)
      → ltb i max_wt ≡ false
      → grab free (max_wt - i) (tid ∷ tids) ≡ grab free (max_wt - i) tids
  grab_full free i tid tids full =
      let e : max_wt - i ≡ 0 = ground arith in
      rw (e, grab-zero free (tid ∷ tids), grab-zero free tids)

  pub ready_loop-Reserves :
      (tids : List ℕ) (s : Kernel Table) (i : ℕ) (out : List ℕ)
      → IsValid s
      → Ready s tids
      → i ≤ max_wt
      → Ends (Reserves s i out (grab (is_free s) (max_wt - i) tids)) (ready_loop tids i out s)
  unfolding ready_loop
  ready_loop-Reserves [] s i out v ready room =
      rw (grab-nil (is_free s) (max_wt - i), write-nil out i)
        (ap (λ n. (n, out)) (omega arith), Taken-nil s v)
  ready_loop-Reserves (tid ∷ tids) s i out v ((w, here, known), ready) room =
      let (p, at) = lookup-object kwt_tid s.wt_htable s.kwts v.workers tid w here in
      rw (get-at s at) (elim (Bool-cases (ltb i max_wt)) [
        | inr full ↦
            rw (full, grab_full (is_free s) i tid tids full)
              (ready_loop-Reserves tids s i out v ready room)
        | inl more ↦ elim (Bool-cases w.mutex) [
          | inl locked ↦
              let held : is_free s tid ≡ false = ap unlocked here ∙ ap not locked in
              rw
                (
                  more,
                  take_ready-skips s tid p i w out v at locked,
                  grab-held (is_free s) (max_wt - i) tid tids held,
                )
                (ready_loop-Reserves tids s i out v ready room)
          | inr unheld ↦
              let free : is_free s tid ≡ true = ap unlocked here ∙ ap not unheld in
              rw more (
                Ends-and_then _ (take_ready (some p) i out s) _
                  (take_ready-reserves s tid p i w out v at here unheld known)
                  λ r t (e, a).
                    rw (e, grab-taken a i tids (ground arith) free)
                      (Ends-mono (ready_loop tids (i + 1) (set out i tid) t)
                        (ready_loop-Reserves tids t (i + 1) (set out i tid) a.valid
                          (Ready-taken a tids ready) (ground arith))
                        λ r u.
                          Reserves-cons s t u i tid out (grab (is_free t) (max_wt - (i + 1)) tids) r
                            a))
        ]
      ])
