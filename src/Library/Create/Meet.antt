-- ===== src/Library/Create/Meet.antt =====
-- What the two threads of `ums_create_worker_thread` in src/lib/ums.c can rely on.
use aosv_project.Base.{ℕ, ◌≡◌, refl, sym, subst, ap, ◌∙◌, true, false, arith, ◌==◌, minus_one, ◌&&◌}
use aosv_project.Library.Create.{
  Parent, Child, Create, locking, testing, waiting, woken, leaving, asking, created, entering,
  setting, begin, parent_at, child_at,
}
use aosv_project.Library.Create.Handshake.{
  parent_holds, child_holds, fits, at_places, Next, Nearer, Fair, parent_at-Nearer, child_at-Nearer,
  is_past, Turn, parent_turn, child_turn, turn, spurious, Reach, start, later,
}

module _ (me : ℕ) (real : (me == minus_one) ≡ false) where
  begin-Fair : Fair me begin
  begin-Fair = record { place = refl; same = refl }

  Turn-Nearer : {s t : Create} → Fair me s → Turn me s t → Nearer me s t
  Turn-Nearer {s} f (parent_turn e) = subst (Next (Nearer me s)) e (
      subst (λ r. Next (Nearer me r) (parent_at s.parent r)) (sym f.same)
        (parent_at-Nearer me s.parent s.child real f.place))
  Turn-Nearer {s} f (child_turn e) = subst (Next (Nearer me s)) e (
      subst (λ r. Next (Nearer me r) (child_at me s.child r)) (sym f.same)
        (child_at-Nearer me s.parent s.child f.place))

  spurious-Fair :
      (p : Parent) (c : Child)
      → p ≡ waiting
      → Fair me (record (at_places me p c) { parent = woken })
  spurious-Fair waiting c h = record { place = refl; same = refl }
  spurious-Fair p c h = absurd (ground arith)

  Reach-Fair : {t : Create} → Reach me t → Fair me t
  Reach-Fair start = begin-Fair
  Reach-Fair (later before (turn go)) = (Turn-Nearer (Reach-Fair before) go).0
  Reach-Fair (later {s} before (spurious asleep)) =
      let f = Reach-Fair before in
      subst (λ r. Fair me (record r { parent = woken })) (sym f.same)
        (spurious-Fair s.parent s.child asleep)

  exclusive : (p : Parent) (c : Child) → fits p c ≡ true → (parent_holds p && child_holds c) ≡ false
  exclusive testing c h = ground arith
  exclusive leaving c h = ground arith
  exclusive p c h = refl

  past_tid :
      (p : Parent) (c : Child) → fits p c ≡ true → is_past p ≡ true → (at_places me p c).tid ≡ me
  past_tid locking c h past = absurd (ground arith)
  past_tid testing c h past = absurd (ground arith)
  past_tid waiting c h past = absurd (ground arith)
  past_tid woken c h past = absurd (ground arith)
  past_tid leaving entering h past = absurd (ground arith)
  past_tid leaving setting h past = absurd (ground arith)
  past_tid asking entering h past = absurd (ground arith)
  past_tid asking setting h past = absurd (ground arith)
  past_tid created entering h past = absurd (ground arith)
  past_tid created setting h past = absurd (ground arith)
  past_tid p c h past = refl

-- Whatever the two threads have done so far, woken without a signal or not, at most one of them
-- holds the mutex, and a parent that is behind its loop finds the tid of the new thread in the
-- worker. The tid is not -1.
pub Reach-is_past :
    (me : ℕ) (t : Create)
    → (me == minus_one) ≡ false
    → Reach me t
    → ((parent_holds t.parent && child_holds t.child) ≡ false)
      × (is_past t.parent ≡ true → t.tid ≡ me)
Reach-is_past me t real path =
    let f = Reach-Fair me real path in
    (
      exclusive me real t.parent t.child f.place,
      λ past. ap (λ (r : Create). r.tid) f.same ∙ past_tid me real t.parent t.child f.place past,
    )
