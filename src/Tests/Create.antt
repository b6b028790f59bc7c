-- ===== src/Tests/Create.antt =====
-- The creation of a worker's thread, with the tid 7 for the new thread.
use aosv_project.Base.{◌≡◌, refl, true, false, ◌&&◌}
use aosv_project.Library.Create.{Create, begin, waiting, entering, woken, parent_at}
use aosv_project.Library.Create.Handshake.{
  Reach, parent_turn, turn, spurious, start, later, parent_holds, child_holds, is_past,
}
use aosv_project.Library.Create.Meet.{Reach-is_past}

-- The parent sleeps before the new thread has done anything.
abbrev early : Create
early = record begin { parent = waiting }

abbrev roused : Create
roused = record begin { parent = woken }

rouses : Reach 7 roused
unfolding parent_at
rouses =
    later (later (later start (turn (parent_turn refl))) (turn (parent_turn refl))) (spurious refl)

Reach-is_past_example :
    ((parent_holds woken && child_holds entering) ≡ false) × (is_past woken ≡ true → roused.tid ≡ 7)
Reach-is_past_example = Reach-is_past 7 roused refl rouses
