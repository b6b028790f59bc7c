-- ===== src/Example/Rounds.antt =====
-- `scheduler_proc` of src/example/main.c: what it does with the workers of a dequeue.
use std.Path.{fun_ext}
use aosv_project.Base.{
  ℕ, zero, suc, ◌+◌, ◌≤◌, ◌<◌, ◌≡◌, refl, sym, ap, subst, ◌∙◌, inl, inr, Option, none, some, List,
  [], ◌∷◌, arith, ◌==◌, count, length, get_elem?, update, Bool-cases, Option-cases, eq_of_==,
}
use aosv_project.Kernel.Outcome.{Outcome, fault, ◌>>◌}
use aosv_project.Kernel.Valid.{Ends}
use aosv_project.Kernel.Valid.Set.{Ends-and_then, Ends-mono}
use aosv_project.Library.{WorkerThread, CompletionList, is_negative, execute}
use aosv_project.Library.Array.{Fits, Live, HasTid, completion_list_get-finds}
use aosv_project.Library.Calls.{System, execute_ums_thread}
use aosv_project.Example.{Threads, run_item, run_items}

abbrev pub take {ℓ} : {A : Type ℓ} → ℕ → List A → List A
take zero xs = []
take (suc n) [] = []
take (suc n) (x ∷ xs) = x ∷ take n xs

-- The tid of an optional worker.
abbrev tid_of : {Cpu Routine : Type 0} → Option (WorkerThread Cpu Routine) → Option ℕ
tid_of none = none
tid_of (some w) = some w.tid

-- The device after it is asked to execute each of the workers in turn.
abbrev pub executed : {D Cpu : Type 0} → System D Cpu → List ℕ → D → D
executed sys [] d = d
executed sys (tid ∷ tids) d = executed sys tids ((sys.ioctl (execute tid) d).2)

-- What stands at an optional address.
abbrev pub mem_at : {A : Type 0} → (ℕ → Option A) → Option ℕ → Option A
mem_at mem none = none
mem_at mem (some p) = mem p

module _ {Cpu Routine : Type 0} where
  -- The same workers stand at the same places.
  abbrev pub SameTids : (mem mem' : Threads Cpu Routine) → Type 0
  SameTids mem mem' = (p : ℕ) → tid_of (mem' p) ≡ tid_of (mem p)

  -- The list has a worker with this tid.
  abbrev pub Has : Threads Cpu Routine → CompletionList → (tid : ℕ) → Type 0
  Has mem list tid = (j : ℕ) × (j < list.last_index) × HasTid mem list.wt tid j

  module _ (mem mem' : Threads Cpu Routine) (same : SameTids mem mem') where
    same-some :
        (p : ℕ) (w : WorkerThread Cpu Routine)
        → mem p ≡ some w
        → (x : WorkerThread Cpu Routine) × (mem' p ≡ some x) × (x.tid ≡ w.tid)
    same-some p w here =
        let e : tid_of (mem' p) ≡ some w.tid = same p ∙ ap tid_of here in
        elim (Option-cases (mem' p)) [
          | inl gone ↦ absurd (ground (arith, e, gone))
          | inr (x, there) ↦ (x, there, ground (arith, e, there))
        ]

    pub Live-same : (wt : List ℕ) (n : ℕ) → Live mem wt n → Live mem' wt n
    Live-same wt n live j h =
        let (p, w, at, here) = live j h in
        let (x, there, _) = same-some p w here in (p, x, at, there)

    pub Has-same : (list : CompletionList) (tid : ℕ) → Has mem list tid → Has mem' list tid
    Has-same list tid (j, h, (p, w, at, here, named)) =
        let (x, there, e) = same-some p w here in (j, h, (p, x, at, there, e ∙ named))

  SameTids-update :
      (mem : Threads Cpu Routine) (p : ℕ) (w x : WorkerThread Cpu Routine)
      → mem p ≡ some w
      → x.tid ≡ w.tid
      → SameTids mem (update mem p (some x))
  SameTids-update mem p w x here e q = elim (Bool-cases (q == p)) [
    | inl hit ↦ rw (hit, eq_of_== q p hit, here, e) refl
    | inr miss ↦ rw miss refl
  ]

module _ {D Cpu Routine : Type 0} (sys : System D Cpu) where
  execute_ums_thread-asks :
      (wt : WorkerThread Cpu Routine) (cpu_set : Cpu) (d : D)
      → ((execute_ums_thread sys wt cpu_set d).1.tid ≡ wt.tid)
        × ((execute_ums_thread sys wt cpu_set d).2 ≡ (sys.ioctl (execute wt.tid) d).2)
  unfolding execute_ums_thread
  execute_ums_thread-asks wt cpu_set d =
      elim (Bool-cases (is_negative ((sys.ioctl (execute wt.tid) d).0))) [
        | inl failed ↦ rw failed (refl, refl)
        | inr done ↦ rw done (refl, refl)
      ]

  module _ (list : CompletionList) (cpu_set : Cpu) (fits : Fits list) where
    -- One worker of the list.
    run_item-executes :
        (tid : ℕ) (mem : Threads Cpu Routine) (d : D)
        → Live mem list.wt list.last_index
        → Has mem list tid
        → Ends
            (λ _ (mem', e). SameTids mem mem' × (e ≡ (sys.ioctl (execute tid) d).2))
            (run_item sys list cpu_set tid (mem, d))
    unfolding run_item
    run_item-executes tid mem d live (j, h, has) =
        elim (completion_list_get-finds mem list tid fits live) [
          | inr (_, nowhere) ↦ absurd (nowhere j h has)
          | inl (p, run, f) ↦
              let (q, w, at, here, named) = f.named in
              let e : some q ≡ some p = sym at ∙ f.at in
              let there : mem p ≡ some w = subst (λ o. mem_at mem o ≡ some w) e here in
              let (same, asks) = execute_ums_thread-asks w cpu_set d in
              rw (run, run_item, there)
                (
                  SameTids-update mem p w _ there same,
                  asks ∙ ap (λ n. (sys.ioctl (execute n) d).2) named,
                )
        ]

  run_items-shift :
      (list : CompletionList) (cpu_set : Cpu) (tid : ℕ) (tids : List ℕ) (steps i : ℕ)
      (s : Threads Cpu Routine × D)
      → run_items sys list cpu_set (tid ∷ tids) steps (suc i) s
        ≡ run_items sys list cpu_set tids steps i s
  unfolding run_items
  run_items-shift list cpu_set tid tids zero i s = refl
  run_items-shift list cpu_set tid tids (suc steps) i s =
      let e : suc i + 1 ≡ suc (i + 1) = omega arith in
      let rest : (λ x. run_items sys list cpu_set (tid ∷ tids) steps (suc i + 1) x)
          ≡ (λ x. run_items sys list cpu_set tids steps (i + 1) x) =
        fun_ext λ x. rw e (run_items-shift list cpu_set tid tids steps (i + 1) x) in
      ap
        (λ (k : Threads Cpu Routine × D → Outcome (Threads Cpu Routine × D) (Unit {0})).
          elim (get_elem? tids i) [ none ↦ fault | some t ↦ (run_item sys list cpu_set t >> k) s ])
        rest

  module _ (list : CompletionList) (cpu_set : Cpu) (fits : Fits list) where
    -- Where the first `n` tids of an array are those of workers of the list, whose array has its size
    -- and leads to workers, the loop of a scheduler asks the device to execute these workers, each
    -- once for each time that its tid stands there and in this order, and nothing else; it reads
    -- through no bad pointer, and the workers stay where they are with their tids.
    pub run_items-executes :
        (n : ℕ) (tids : List ℕ) (mem : Threads Cpu Routine) (d : D)
        → Live mem list.wt list.last_index
        → n ≤ length tids
        → ((tid : ℕ) → 0 < count tid (take n tids) → Has mem list tid)
        → Ends
            (λ _ (mem', e). SameTids mem mem' × (e ≡ executed sys (take n tids) d))
            (run_items sys list cpu_set tids n 0 (mem, d))
    unfolding run_items
    run_items-executes zero tids mem d live room has = (λ p. refl, refl)
    run_items-executes (suc n) [] mem d live room has = absurd (omega (arith, room))
    run_items-executes (suc n) (tid ∷ tids) mem d live room has =
        Ends-and_then _ (run_item sys list cpu_set tid (mem, d)) _
          (run_item-executes list cpu_set fits tid mem d live (has tid (ground arith)))
          λ _ (mem', e) (same, asked).
            subst
              (Ends λ _ (mem'', f). SameTids mem mem'' × (f ≡ executed sys (tid ∷ take n tids) d))
              (sym (run_items-shift list cpu_set tid tids n 0 (mem', e)))
              (Ends-mono (run_items sys list cpu_set tids n 0 (mem', e))
                (run_items-executes n tids mem' e
                  (Live-same mem mem' same list.wt list.last_index live) (omega (arith, room))
                  λ k h. Has-same mem mem' same list k (has k (ground (arith, h))))
                λ _ (mem'', f) (same', done).
                  ((λ p. same' p ∙ same p), done ∙ ap (executed sys (take n tids)) asked))
