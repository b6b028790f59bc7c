-- ===== src/Joint.antt =====
-- A list of src/lib/completion_list.c, with the queue that src/lkm/kcompletion_list.c keeps for it:
-- how the library's calls and the kernel's requests work together.
pub mod Dequeue
use std.Path.{fun_ext}
use aosv_project.Base.{
  ℕ, ◌+◌, ◌<◌, ◌≡◌, ◌≢◌, refl, sym, ap, subst, ◌∙◌, ◌⊎◌, inl, inr, false, Option, none, some, List,
  arith, ◌==◌, if◌then◌else◌, Bool-cases, eq_of_==, get_elem?,
}
use aosv_project.Hashtable.{Hashtable}
use aosv_project.Interface.{max_wt, wt_exiting}
use aosv_project.Kernel.Outcome.{ok}
use aosv_project.Kernel.State.{Kwt, Kcl, Kernel}
use aosv_project.Kernel.Core.{list_add}
use aosv_project.Kernel.Core.Link.{Linked}
use aosv_project.Kernel.Valid.{Ends, worker, completion_list}
use aosv_project.Kernel.Valid.Keep.{After-ok}
use aosv_project.Kernel.Valid.Set.{Ends-mono}
use aosv_project.Kernel.Balance.{IsBalanced, places, enrolled}
use aosv_project.Kernel.Balance.Change.{Kept}
use aosv_project.Kernel.Balance.Steps.{ProperStep, adds, fills, add-Linked, ProperStep-Kept}
use aosv_project.Library.{
  WorkerThread, CompletionList, Reply, Ioctl, add_to_list, ums_completion_list_add,
}
use aosv_project.Library.Array.{Fits, Appended, Live, HasTid, Live-Appended}
use aosv_project.Library.Handover.{ums_completion_list_add-requests}
use aosv_project.Example.{Threads}
use aosv_project.Example.Rounds.{SameTids, Has, Live-same, Has-same}

-- What a library's call that adds a worker has done to the array.
appended :
    {D : Type 0} (ioctl : Ioctl D) (wt tid r : ℕ) (list after : CompletionList) (d e : D)
    → Fits list
    → list.last_index < max_wt
    → ums_completion_list_add ioctl wt tid list d ≡ ok r (after, e)
    → Appended list wt after
appended ioctl wt tid r list after d e fits room run =
    subst (Ends λ _ (next, _). Appended list wt next) run (
      Ends-mono (ums_completion_list_add ioctl wt tid list d)
        (ums_completion_list_add-requests ioctl list wt tid d fits)
        λ _ (next, _) (_, _, cases). elim cases [
          | inl (full, _) ↦ absurd (omega (arith, full, room))
          | inr (_, a) ↦ a
        ])

module _ ⦃ht : Hashtable⦄ {Cpu Routine : Type 0} where
  open ht use {Table}

  -- The array of the library's list leads to workers, the kernel counts right, and each tid that the
  -- queue of the kernel's list owes a place to is that of a worker in the array.
  pub record Coherent (mem : Threads Cpu Routine) (list : CompletionList) (s : Kernel Table)
      : Type 0 where
    pub fits : Fits list
    pub live : Live mem list.wt list.last_index
    pub balanced : IsBalanced s
    pub known : (tid : ℕ) → 0 < places s list.clc tid → Has mem list tid

  -- A worker of the program is added by the library's call, with the kernel's request for it as the
  -- device's answer; the program writes its workers, but not their tids; or the kernel takes a step
  -- that adds no worker to this list.
  pub data Step (mem : Threads Cpu Routine) (list : CompletionList) (s : Kernel Table)
      : Threads Cpu Routine → CompletionList → Kernel Table → Type 0 where
    adds_worker :
        (ioctl : Ioctl (Kernel Table)) (cle kcle wt r : ℕ) (w : WorkerThread Cpu Routine) (x : Kwt)
        (c : Kcl Table) {reply : Reply} {after : CompletionList} {t : Kernel Table}
        → mem wt ≡ some w
        → list.last_index < max_wt
        → worker s w.tid ≡ some x
        → completion_list s list.clc ≡ some c
        → x.state ≢ wt_exiting
        → ioctl (add_to_list list.clc w.tid) s ≡ (0, reply, t)
        → list_add (some cle) (some kcle) w.tid list.clc s ≡ ok tt t
        → ums_completion_list_add ioctl wt w.tid list s ≡ ok r (after, t)
        → Step mem list s mem after t
    writes : {mem' : Threads Cpu Routine} → SameTids mem mem' → Step mem list s mem' list s
    moves :
        {t : Kernel Table} (step : ProperStep s t)
        → fills step list.clc ≡ false
        → Step mem list s mem list t

  pub data Course (mem : Threads Cpu Routine) (list : CompletionList) (s : Kernel Table)
      : Threads Cpu Routine → CompletionList → Kernel Table → Type 0 where
    start : Course mem list s mem list s
    onward :
        {mem' mem'' : Threads Cpu Routine} {list' list'' : CompletionList} {t u : Kernel Table}
        → Course mem list s mem' list' t
        → Step mem' list' t mem'' list'' u
        → Course mem list s mem'' list'' u

  Has-Appended :
      (mem : Threads Cpu Routine) (list after : CompletionList) (wt tid : ℕ)
      → Appended list wt after
      → Has mem list tid
      → Has mem after tid
  Has-Appended mem list after wt tid a (j, h, (p, w, at, here, named)) =
      (j, omega (arith, h, a.last_index), (p, w, a.before j h ∙ at, here, named))

  Step-Coherent :
      {mem mem' : Threads Cpu Routine} {list list' : CompletionList} {s t : Kernel Table}
      → Step mem list s mem' list' t
      → Coherent mem list s
      → Coherent mem' list' t
  Step-Coherent {mem} {mem'} {list} {list'} {s} {t}
        (adds_worker ioctl cle kcle wt r w x c here room there at active answers runs e) k =
      let a = appended ioctl wt w.tid r list list' s t k.fits room e in
      let (linked, _) =
        After-ok (λ u. Linked s u w.tid list.clc x c × (x.mutex ≡ false))
          (add-Linked s cle kcle w.tid list.clc x c k.balanced there at) runs in
      let kept =
        ProperStep-Kept (adds cle kcle w.tid list.clc x c there at active runs) k.balanced in
      record {
        fits = a.fits;
        live = Live-Appended mem list wt w k.live here list' a;
        balanced = kept.balanced;
        known = λ tid h. elim (Bool-cases (tid == w.tid)) [
          | inl hit ↦
              let same = eq_of_== tid w.tid hit in
              (list.last_index, omega (arith, a.last_index), (wt, w, a.last, here, sym same))
          | inr miss ↦
              let e : places t list'.clc tid ≡ places s list.clc tid =
                ap (λ n. places t n tid) a.clc
                ∙ ap (enrolled list.clc) {y = worker s tid} (linked.workers tid ∙ rw miss refl) in
              Has-Appended mem list list' wt tid a (k.known tid (omega (arith, h, e)))
        ];
      }
  Step-Coherent {mem} {mem'} {list} {list'} {s} (writes same) k = record {
    fits = k.fits;
    live = Live-same mem mem' same list.wt list.last_index k.live;
    balanced = k.balanced;
    known = λ tid h. Has-same mem mem' same list tid (k.known tid h);
  }
  Step-Coherent {mem} {mem'} {list} {list'} {s} {t} (moves step other) k =
      let kept = ProperStep-Kept step k.balanced in
      record {
        fits = k.fits;
        live = k.live;
        balanced = kept.balanced;
        known = λ tid h. k.known tid (omega (arith, h, kept.no_new list.clc other tid));
      }

  -- However the program adds workers to a list by the library, writes their structures and makes
  -- requests, the array of the list leads to workers and has its size, the counters of the kernel's
  -- lists are right, and the queue of the kernel's list has a place only for workers that the array
  -- has: from a state where this holds, if the list has room for each worker that is added to it,
  -- nothing else adds a worker to the kernel's list, and the requests keep to their order.
  pub Course-Coherent :
      (mem : Threads Cpu Routine) (list : CompletionList) (s : Kernel Table)
      (mem' : Threads Cpu Routine) (list' : CompletionList) (t : Kernel Table)
      → Coherent mem list s
      → Course mem list s mem' list' t
      → Coherent mem' list' t
  Course-Coherent mem list s _ _ _ k start = k
  Course-Coherent mem list s mem'' list'' u k
        (onward {mem' = mem'} {list' = list'} {t = t} before step) =
      Step-Coherent step (Course-Coherent mem list s mem' list' t k before)
