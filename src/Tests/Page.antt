-- ===== src/Tests/Page.antt =====
-- The page of moving objects and the pace of the levels at concrete inputs.
use general_worldwide_execut.Prelude.{ℕ, List, [], ◌∷◌, none, some, true, false, ◌≡◌, refl, arith}
use general_worldwide_execut.Prelude.Int.{pos}
use general_worldwide_execut.Prelude.Text.{codes}
use general_worldwide_execut.Js.Fixed.{fixed}
use general_worldwide_execut.Js.Fixed.Laws.{fixed-IsIeee}
use general_worldwide_execut.Js.Object.{get, put}
use general_worldwide_execut.Moving.Page.Laws.{handle_position-some, handle_position-none}
use general_worldwide_execut.Moving.Page.Order.{IsInOrder, page_steps-IsInOrder}
use general_worldwide_execut.Moving.Page.{PageStep, message, render, handle_position, page_steps}
use general_worldwide_execut.Moving.{Objects, Mover, new_objects, read}
use general_worldwide_execut.QuadSpaces.Surrounding.Loop.{Gives}
use general_worldwide_execut.Tests.Messages.{world}
use general_worldwide_execut.Tests.Motion.{number, place, velocity}
use general_worldwide_execut.Tests.Scene.{listed, listed-IsContainer, steps}
use general_worldwide_execut.Tracker.{new_tracker}
use general_worldwide_execut.Tracker.Session.Pace.{
  AllPaced, AllBefore, six_intervals, session-AllPaced,
}
use general_worldwide_execut.Tracker.Session.CatchUp.{AllReached, session-AllReached}
use general_worldwide_execut.Tracker.Session.Metered.{IsMetered, session-IsMetered}
use general_worldwide_execut.Tracker.Session.{Step, frame, session}

-- Somebody moves, somebody else stands, and a frame passes.
abbrev told : List (PageStep fixed.Num)
told =
    message (codes "bob") place (some velocity)
    ∷ message (codes "eve") place none
    ∷ render (number (pos 1))
    ∷ []

abbrev scene : Objects fixed.Num listed.Children
scene = page_steps listed fixed place told (new_objects listed)

page_steps-IsInOrder_example : IsInOrder listed scene
page_steps-IsInOrder_example = page_steps-IsInOrder listed listed-IsContainer fixed place told

in_order : IsInOrder listed scene
in_order = page_steps-IsInOrder listed listed-IsContainer fixed place told

has_bob : get scene.map (codes "bob") ≡ some 0
unfolding page_steps get put new_objects
has_bob = refl

handle_position-some_example :
    let (u, threw) = handle_position listed place (codes "ann") velocity (some place) scene in
    (threw ≡ false)
    × (r : ℕ) × (get u.map (codes "ann") ≡ some r)
    × (read u.movers r ≡ some (record { place = velocity; velocity = some place }))
handle_position-some_example =
    handle_position-some listed place (codes "ann") velocity place scene in_order

handle_position-none_example :
    let (u, threw) = handle_position listed place (codes "bob") velocity none scene in
    (threw ≡ true)
    × (m : Mover fixed.Num) × (read scene.movers 0 ≡ some m)
    × (read u.movers 0 ≡ some (record m { place = velocity }))
    × (u.map ≡ scene.map)
handle_position-none_example =
    handle_position-none listed place (codes "bob") velocity 0 scene in_order has_bob

steps-AllBefore : AllBefore 2100 steps
steps-AllBefore = (omega arith, (omega arith, tt))

session-AllPaced_example :
    Gives
      (λ r. AllPaced 1000 2100 six_intervals r.0.intervals)
      (session fixed (some velocity) steps (new_tracker (codes "me") 1000, world))
session-AllPaced_example =
    session-AllPaced fixed-IsIeee (some velocity) (codes "me") 1000 2100 world steps (omega arith)
      steps-AllBefore

-- Two updates of somebody who moves.
abbrev pub two_updates : List (Step fixed.Num)
two_updates =
    frame 1300 place velocity (number (pos 1)) ∷ frame 1300 velocity place (number (pos 1)) ∷ []

session-AllReached_example :
    Gives
      (λ r. AllReached 1200 r.0.intervals)
      (session fixed (some velocity) two_updates (new_tracker (codes "me") 1000, world))
session-AllReached_example =
    session-AllReached fixed-IsIeee (some velocity) (codes "me") 1000 1200 world two_updates refl
      (omega arith, (omega arith, tt)) (omega arith)

session-IsMetered_example :
    Gives
      (λ r. IsMetered fixed 1000 2100 world.1.sent r.1.1.sent)
      (session fixed (some velocity) steps (new_tracker (codes "me") 1000, world))
session-IsMetered_example =
    session-IsMetered fixed-IsIeee (some velocity) (codes "me") 1000 2100 world steps (omega arith)
      steps-AllBefore
