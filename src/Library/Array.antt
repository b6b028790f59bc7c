-- ===== src/Library/Array.antt =====
-- The array of a completion list in src/lib/completion_list.c.
use aosv_project.Base.{
  ℕ, zero, suc, ◌+◌, ◌^◌, ◌≤◌, ◌<◌, ◌≡◌, refl, sym, ap, ◌∙◌, ◌⊎◌, inl, inr, true, false, Option,
  some, List, arith, ltb, ◌==◌, Bool-cases, eq_of_==, is_positive, length, length-set, get_elem?,
  get_elem?-set, minus_one,
}
use aosv_project.Interface.{max_wt}
use aosv_project.Kernel.Outcome.{ok}
use aosv_project.Kernel.Valid.{Ends}
use aosv_project.Kernel.Valid.Set.{Ends-mono}
use aosv_project.Library.{
  WorkerThread, CompletionList, found, missing, find_tid, completion_list_get, completion_list_add,
  int_ltb,
}

-- The array has its size, and the index of its end is in it or at its end.
pub record Fits (list : CompletionList) : Type 0 where
  pub size : length list.wt ≡ max_wt
  pub bounded : list.last_index ≤ max_wt

-- `after` is `list` with `wt` behind its last element.
pub record Appended (list : CompletionList) (wt : ℕ) (after : CompletionList) : Type 0 where
  pub fits : Fits after
  pub last_index : after.last_index ≡ list.last_index + 1
  pub clc : after.clc ≡ list.clc
  pub last : get_elem? after.wt list.last_index ≡ some wt
  pub before : (j : ℕ) → j < list.last_index → get_elem? after.wt j ≡ get_elem? list.wt j

int_ltb-small : (a : ℕ) → a < 2 ^ 31 → int_ltb a max_wt ≡ ltb a max_wt
int_ltb-small a small = ground arith

-- Adding to a list whose array has its size puts the pointer behind the last one and keeps all
-- before it, while there is room. On a full list it returns -1 and changes nothing.
pub completion_list_add-appends :
    (list : CompletionList) (wt : ℕ)
    → Fits list
    → ((list.last_index ≡ max_wt) × (completion_list_add wt list ≡ ok minus_one list))
      ⊎ ((list.last_index < max_wt)
          × Ends (λ r after. (r ≡ 0) × Appended list wt after) (completion_list_add wt list))
unfolding completion_list_add
completion_list_add-appends list wt fits = elim (Bool-cases (ltb list.last_index max_wt)) [
  | inl room ↦
      let h : list.last_index < max_wt = ground arith in
      let in_array : list.last_index < length list.wt = omega (arith, fits.size) in
      inr (
        h,
        rw (int_ltb-small list.last_index (omega (arith, fits.bounded)), room)
            (
              refl,
              record {
                fits = record {
                  size = length-set list.wt list.last_index wt ∙ fits.size;
                  bounded = ground (arith, h);
                };
                last_index = ground (arith, h);
                clc = refl;
                last =
                    ground
                      (arith, get_elem?-set list.wt list.last_index list.last_index wt in_array);
                before =
                    λ j less. ground (arith, get_elem?-set list.wt list.last_index j wt in_array);
              },
            ),
      )
  | inr full ↦
      let h : list.last_index ≡ max_wt = ground (arith, fits.bounded) in
      inl (h, rw (int_ltb-small list.last_index (omega (arith, fits.bounded)), full))
]

module _ {Cpu Routine : Type 0} (mem : ℕ → Option (WorkerThread Cpu Routine)) where
  -- The first `n` pointers of an array lead to workers.
  abbrev pub Live : List ℕ → ℕ → Type 0
  Live wt n =
      (j : ℕ)
      → j < n
      → (p : ℕ) × (w : WorkerThread Cpu Routine) × (get_elem? wt j ≡ some p) × (mem p ≡ some w)

  -- The worker at an index of an array has the tid.
  abbrev pub HasTid : List ℕ → (tid j : ℕ) → Type 0
  HasTid wt tid j =
      (p : ℕ) × (w : WorkerThread Cpu Routine) × (get_elem? wt j ≡ some p)
      × (mem p ≡ some w)
      × (w.tid ≡ tid)

  -- The pointer `p` stands at the first index from `i` on, and before `n`, with the tid.
  pub record IsFirst (wt : List ℕ) (tid i n p : ℕ) : Type 0 where
    pub index : ℕ
    pub from : i ≤ index
    pub before : index < n
    pub at : get_elem? wt index ≡ some p
    pub named : HasTid wt tid index
    pub first : (j : ℕ) → i ≤ j → j < index → ¬ HasTid wt tid j

  not_at :
      (wt : List ℕ) (tid i p : ℕ) (w : WorkerThread Cpu Routine)
      → get_elem? wt i ≡ some p
      → mem p ≡ some w
      → (w.tid == tid) ≡ false
      → ¬ HasTid wt tid i
  not_at wt tid i p w here there miss (q, x, at, is, e) =
      ground (arith, here, there, at, is, e, miss)

  HasTid-from :
      (wt : List ℕ) (tid i n : ℕ)
      → ¬ HasTid wt tid i
      → ((j : ℕ) → i + 1 ≤ j → j < n → ¬ HasTid wt tid j)
      → (j : ℕ) → i ≤ j
      → j < n
      → ¬ HasTid wt tid j
  HasTid-from wt tid i n here later j h g = elim (Bool-cases (j == i)) [
    | inl same ↦ rw (eq_of_== j i same) here
    | inr other ↦ later j (ground arith) g
  ]

  find_tid-hit :
      (wt : List ℕ) (tid steps i p : ℕ) (w : WorkerThread Cpu Routine)
      → get_elem? wt i ≡ some p
      → mem p ≡ some w
      → (w.tid == tid) ≡ true
      → find_tid mem wt tid (suc steps) i ≡ found p
  unfolding find_tid
  find_tid-hit wt tid steps i p w here there hit = rw (here, there, hit, find_tid)

  find_tid-miss :
      (wt : List ℕ) (tid steps i p : ℕ) (w : WorkerThread Cpu Routine)
      → get_elem? wt i ≡ some p
      → mem p ≡ some w
      → (w.tid == tid) ≡ false
      → find_tid mem wt tid (suc steps) i ≡ find_tid mem wt tid steps (i + 1)
  unfolding find_tid
  find_tid-miss wt tid steps i p w here there miss = rw (here, there, miss, find_tid)

  find_tid-finds :
      (wt : List ℕ) (tid steps i : ℕ)
      → Live wt (i + steps)
      → ((p : ℕ) × (find_tid mem wt tid steps i ≡ found p) × IsFirst wt tid i (i + steps) p)
        ⊎ ((find_tid mem wt tid steps i ≡ missing)
            × ((j : ℕ) → i ≤ j → j < i + steps → ¬ HasTid wt tid j))
  unfolding find_tid
  find_tid-finds wt tid zero i live = inr (refl, λ j h g. absurd (omega arith))
  find_tid-finds wt tid (suc steps) i live =
      let (p, w, here, there) = live i (omega arith) in
      let e : (i + 1) + steps ≡ i + suc steps = omega arith in
      elim (Bool-cases (w.tid == tid)) [
        | inl hit ↦ inl (
          p,
          find_tid-hit wt tid steps i p w here there hit,
          record {
            index = i;
            from = omega arith;
            before = omega arith;
            at = here;
            named = (p, w, here, there, eq_of_== w.tid tid hit);
            first = λ j h g. absurd (omega arith);
          },
        )
        | inr miss ↦ elim (find_tid-finds wt tid steps (i + 1) (rw e live)) [
          | inl (q, run, f) ↦ inl (
            q,
            find_tid-miss wt tid steps i p w here there miss ∙ run,
            record {
              index = f.index;
              from = omega (arith, f.from);
              before = omega (arith, f.before);
              at = f.at;
              named = f.named;
              first = HasTid-from wt tid i f.index (not_at wt tid i p w here there miss) f.first;
            },
          )
          | inr (run, nowhere) ↦ inr (
            find_tid-miss wt tid steps i p w here there miss ∙ run,
            HasTid-from wt tid i (i + suc steps) (not_at wt tid i p w here there miss)
                (rw (← e) nowhere),
          )
        ]
      ]

  completion_list_get-find_tid :
      (list : CompletionList) (tid : ℕ)
      → list.last_index ≤ max_wt
      → completion_list_get mem list tid ≡ find_tid mem list.wt tid list.last_index 0
  unfolding completion_list_get find_tid
  completion_list_get-find_tid list tid small = elim (Bool-cases (is_positive list.last_index)) [
    | inl e ↦ rw e
    | inr e ↦ let z : list.last_index ≡ 0 = ground arith in rw (e, z)
  ]

  -- In a list whose array has its size and holds pointers to workers up to its end, a search by tid
  -- finds the first pointer to a worker with that tid, or returns -1 where no worker of the list
  -- has it; it reads nothing behind the list's end.
  pub completion_list_get-finds :
      (list : CompletionList) (tid : ℕ)
      → Fits list
      → Live list.wt list.last_index
      → ((p : ℕ) × (completion_list_get mem list tid ≡ found p)
          × IsFirst list.wt tid 0 list.last_index p)
        ⊎ ((completion_list_get mem list tid ≡ missing)
            × ((j : ℕ) → j < list.last_index → ¬ HasTid list.wt tid j))
  completion_list_get-finds list tid fits live =
      let n : 0 + list.last_index ≡ list.last_index = omega arith in
      rw (completion_list_get-find_tid list tid fits.bounded)
        (elim (find_tid-finds list.wt tid list.last_index 0 (rw n live)) [
          | inl (p, run, f) ↦ inl (p, run, rw (← n) f)
          | inr (run, nowhere) ↦ inr (run, λ j h. nowhere j (omega arith) (omega arith))
        ])

  pub Live-Appended :
      (list : CompletionList) (wt : ℕ) (w : WorkerThread Cpu Routine)
      → Live list.wt list.last_index
      → mem wt ≡ some w
      → (after : CompletionList) → Appended list wt after
      → Live after.wt after.last_index
  Live-Appended list wt w live there after a j h = elim (Bool-cases (j == list.last_index)) [
    | inl same ↦ (wt, w, ap (get_elem? after.wt) (eq_of_== j list.last_index same) ∙ a.last, there)
    | inr other ↦
        let less : j < list.last_index = ground (arith, a.last_index) in
        let (p, x, at, is) = live j less in (p, x, a.before j less ∙ at, is)
  ]

  get-Appended :
      (list : CompletionList) (wt : ℕ) (w : WorkerThread Cpu Routine)
      → Live list.wt list.last_index
      → mem wt ≡ some w
      → ((j : ℕ) → j < list.last_index → ¬ HasTid list.wt w.tid j)
      → (after : CompletionList) → Appended list wt after
      → completion_list_get mem after w.tid ≡ found wt
  get-Appended list wt w live there new after a =
      elim (completion_list_get-finds after w.tid a.fits
        (Live-Appended list wt w live there after a)) [
          | inr (_, nowhere) ↦
              absurd
                (nowhere list.last_index (omega (arith, a.last_index)) (wt, w, a.last, there, refl))
          | inl (p, run, f) ↦ elim (Bool-cases (f.index == list.last_index)) [
            | inl same ↦
                let e : some p ≡ some wt =
                  sym f.at
                  ∙ ap (get_elem? after.wt) (eq_of_== f.index list.last_index same)
                  ∙ a.last in
                run ∙ cc
            | inr other ↦
                let less : f.index < list.last_index = ground (arith, a.last_index, f.before) in
                let (q, x, at, is, named) = f.named in
                absurd (new f.index less (q, x, sym (a.before f.index less) ∙ at, is, named))
          ]
        ]

  -- A worker that was added to a list with room is found by its tid, if no earlier worker of the
  -- list has the same tid.
  pub completion_list_get-add :
      (list : CompletionList) (wt : ℕ) (w : WorkerThread Cpu Routine)
      → Fits list
      → Live list.wt list.last_index
      → list.last_index < max_wt
      → mem wt ≡ some w
      → ((j : ℕ) → j < list.last_index → ¬ HasTid list.wt w.tid j)
      → Ends
          (λ _ after. completion_list_get mem after w.tid ≡ found wt)
          (completion_list_add wt list)
  completion_list_get-add list wt w fits live room there new =
      elim (completion_list_add-appends list wt fits) [
        | inl (full, _) ↦ absurd (omega arith)
        | inr (_, ends) ↦
            Ends-mono (completion_list_add wt list) ends
              λ r after (_, a). get-Appended list wt w live there new after a
      ]
