-- ===== src/Tests/Scene.antt =====
-- The moving objects, the events of the controls, and the colours at concrete inputs.
use general_worldwide_execut.Prelude.{
  ℕ, ◌+◌, ◌*◌, ◌/◌, ◌%◌, List, [], ◌∷◌, Option, none, some, Bool, true, false, ◌⊎◌, ◌==◌, ◌&&◌,
  ◌||◌, not, ◌≡◌, refl, arith, inl, inr, Bool-cases, if◌then◌else◌,
}
use general_worldwide_execut.Prelude.Int.{pos}
use general_worldwide_execut.Prelude.Text.{codes}
use general_worldwide_execut.Avatar.Color.{lift, user_color-lift}
use general_worldwide_execut.Avatar.{user_color}
use general_worldwide_execut.Controls.Events.Runs.{
  pressed, has_space, dispatch_all-flag, dispatch_all-space, dispatch_walker_all-flag,
}
use general_worldwide_execut.Controls.Events.{
  Event, context_menu, mouse_move, mouse_down, mouse_up, key_down, key_up, dispatch_all,
  dispatch_walker_all,
}
use general_worldwide_execut.Controls.Fly.{new_controls, element, Element, Controls}
use general_worldwide_execut.Controls.Keys.Trace.{ahead, flag}
use general_worldwide_execut.Controls.Walk.{Walker, new_walker}
use general_worldwide_execut.Js.Fixed.{fixed}
use general_worldwide_execut.Js.Word.{to_uint32}
use general_worldwide_execut.Moving.Consistent.{Call, request, advance}
use general_worldwide_execut.Moving.Motion.{IsPlacedBy, update_objects-IsPlacedBy}
use general_worldwide_execut.Moving.Refs.{holds, AreDistinct}
use general_worldwide_execut.Moving.{
  Container, IsContainer, Mover, Objects, is_ref, read, update_objects,
}
use general_worldwide_execut.QuadSpaces.Surrounding.Loop.{Gives}
use general_worldwide_execut.Tests.Messages.{world}
use general_worldwide_execut.Tests.Motion.{number, place, velocity, payload}
use general_worldwide_execut.Gwems.Client.{opened, closed, received}
use general_worldwide_execut.Js.Fixed.Laws.{fixed-IsIeee}
use general_worldwide_execut.Tracker.{new_tracker}
use general_worldwide_execut.Tracker.Session.{Step, socket_event, frame, session}
use general_worldwide_execut.Tracker.Session.Total.{IsReady, session-IsReady}

-- A container that keeps a list of what it shows.
abbrev member : List ℕ → ℕ → Bool
member [] r = false
member (p ∷ l) r = p == r || member l r

abbrev without : Option ℕ → List ℕ → List ℕ
without o [] = []
without o (p ∷ l) = if is_ref o p then without o l else p ∷ without o l

abbrev pub listed : Container
listed = record {
  Children = List ℕ;
  empty = [];
  add = λ o l. o ∷ l;
  remove = without;
  shows = member;
}

member-without :
    (o : Option ℕ) (r : ℕ) (l : List ℕ) → member (without o l) r ≡ (member l r && not (is_ref o r))
member-without o r [] = refl
member-without none r (p ∷ l) = ground (arith, member-without none r l)
member-without (some q) r (p ∷ l) = elim (Bool-cases (q == p)) [
  | inl e ↦
      let same : q ≡ p = ground arith in rw (e, member-without (some q) r l, same) (ground arith)
  | inr e ↦ rw (e, member, member-without (some q) r l) (ground arith)
]

pub listed-IsContainer : IsContainer listed
listed-IsContainer = record {
  shows-empty = λ r. refl;
  shows-add = λ o r l. refl;
  shows-remove = member-without;
}

abbrev requests : List (Call fixed.Num)
requests =
    request place (codes "bob") (some velocity)
    ∷ request place (codes "eve") none
    ∷ advance (number (pos 1))
    ∷ request place (codes "bob") none
    ∷ []

-- Two moving objects of two ids.
abbrev objects : Objects fixed.Num (List ℕ)
objects = record {
  map = (codes "bob", 0) ∷ (codes "eve", 1) ∷ [];
  container = 1 ∷ 0 ∷ [];
  movers =
      (0, record { place = place; velocity = some velocity })
      ∷ (1, record { place = velocity; velocity = none })
      ∷ [];
  fresh = 2;
  scene = [];
}

objects-AreDistinct : AreDistinct objects.map
unfolding holds
objects-AreDistinct = (refl, (refl, tt))

update_objects-IsPlacedBy_example :
    (m' : Mover fixed.Num) × (read (update_objects fixed (number (pos 1)) objects).movers 0
      ≡ some m')
    × ((holds objects.map 0 ≡ true)
          × IsPlacedBy fixed (number (pos 1)) (some velocity) place m'.place
          × (m'.velocity ≡ some velocity)
        ⊎ (holds objects.map 0 ≡ false) × (m' ≡ record { place = place; velocity = some velocity }))
unfolding read
update_objects-IsPlacedBy_example =
    update_objects-IsPlacedBy fixed (number (pos 1)) objects 0
      (record { place = place; velocity = some velocity }) objects-AreDistinct refl

abbrev canvas : Element fixed.Num
canvas = element (number (pos 0)) (number (pos 0)) (number (pos 640)) (number (pos 480))

abbrev flying : Controls fixed.Num
flying =
    new_controls fixed canvas (record { velocity_y = number (pos 0); position_y = number (pos 0) })

abbrev walking : Walker fixed.Num
walking = new_walker fixed canvas

abbrev inputs : List (Event fixed.Num)
inputs =
    mouse_down 0
    ∷ key_down 87
    ∷ context_menu
    ∷ key_up 87
    ∷ mouse_move (number (pos 3)) (number (pos 4))
    ∷ key_down 32
    ∷ mouse_up 2
    ∷ []

dispatch_all-flag_example :
    flag ahead (dispatch_all fixed canvas inputs flying).keys
    ≡ pressed ahead flying.settings.active_look inputs (flag ahead flying.keys)
dispatch_all-flag_example = dispatch_all-flag fixed canvas ahead inputs flying

dispatch_all-space_example :
    (dispatch_all fixed canvas inputs flying).space ≡ (flying.space || has_space inputs)
dispatch_all-space_example = dispatch_all-space fixed canvas inputs flying

dispatch_walker_all-flag_example :
    (flag ahead (dispatch_walker_all inputs walking).keys
      ≡ pressed ahead false inputs (flag ahead walking.keys))
    × (dispatch_walker_all inputs walking
        ≡ record walking { keys = (dispatch_walker_all inputs walking).keys })
dispatch_walker_all-flag_example = dispatch_walker_all-flag ahead inputs walking

user_color-lift_example :
    let u = to_uint32 (fixed.to_int32 (fixed.mul (number (pos 4711)) (number (pos 123)))) in
    user_color fixed (number (pos 4711))
    ≡ pos (lift (u / 65536 % 256) * 65536 + lift (u / 256 % 256) * 256 + lift (u % 256))
user_color-lift_example = user_color-lift fixed (number (pos 4711))

-- A message of somebody else arrives before and after an update.
abbrev pub steps : List (Step fixed.Num)
steps =
    socket_event opened
    ∷ socket_event (received (some payload))
    ∷ frame 2000 place velocity (number (pos 1))
    ∷ socket_event (received none)
    ∷ socket_event closed
    ∷ frame 2100 velocity place (number (pos 1))
    ∷ []

session-IsReady_example :
    Gives
      (λ r. IsReady (codes "me") r.0)
      (session fixed (some velocity) steps (new_tracker (codes "me") 1000, world))
session-IsReady_example = session-IsReady fixed-IsIeee (some velocity) (codes "me") 1000 world steps
