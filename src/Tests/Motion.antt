-- ===== src/Tests/Motion.antt =====
-- The tracker and the controls at concrete inputs.
use general_worldwide_execut.Prelude.{◌≡◌, ◌∷◌, refl, List, [], true, false, arith}
use general_worldwide_execut.Prelude.Int.{ℤ, pos, negsuc, ◌+ℤ◌}
use general_worldwide_execut.Prelude.Text.{codes}
use general_worldwide_execut.Controls.Fly.{new_controls, handle_resize, element, Controls}
use general_worldwide_execut.Controls.Fly.Jump.{key_up, frame, steps, jump_key_space}
use general_worldwide_execut.Controls.Keys.{released, on_keys, KeyEvent}
use general_worldwide_execut.Controls.Keys
use general_worldwide_execut.Controls.Walk.Diagonal.{
  walk_with, left_only, forward_only, forward_left, walk-forward_left,
}
use general_worldwide_execut.Controls.Walk.{Walker, new_walker}
use general_worldwide_execut.Js.Fixed.{fixed}
use general_worldwide_execut.Js.Json.{Value, num, text, array, object, nil, cons, end, member}
use general_worldwide_execut.Js.Object.{keys}
use general_worldwide_execut.Three.{Vector3}
use general_worldwide_execut.Three.Object3d.{Object3d}
use general_worldwide_execut.Tracker.Incoming.Laws.{IsShown}
use general_worldwide_execut.Tracker.Update.Follow.{AllScales}
use general_worldwide_execut.Tracker.{Tracker, Level, new_tracker, make_levels, new_level}

abbrev pub number : ℤ → fixed.Num
number = fixed.of_int

abbrev pub place : Vector3 fixed.Num
place = record { x = number (pos 5); y = number (negsuc 6); z = number (pos 100) }

abbrev pub velocity : Vector3 fixed.Num
velocity = record { x = number (pos 1); y = number (pos 0); z = number (negsuc 0) }

abbrev centre : Vector3 fixed.Num
centre = record { x = number (pos 0); y = number (pos 0); z = number (pos 0) }

-- A tracker that started at a time.
abbrev pub tracker : Tracker fixed.Num
tracker = new_tracker (codes "me") 1000

abbrev three_numbers : Vector3 fixed.Num → Value fixed.Num
three_numbers v = array (cons (num v.x) (cons (num v.y) (cons (num v.z) nil)))

abbrev somebody : Value fixed.Num
somebody = text (codes "bob")

abbrev pub payload : Value fixed.Num
payload = object (
    member (codes "p") (three_numbers place)
      (member (codes "v") (three_numbers velocity) (member (codes "id") somebody end)))

abbrev levels : List Level
levels =
    record (new_level (pos 2)) { next_send = 5; interval = 200; channel = codes "[0_0_0_2]" }
    ∷ record (new_level (pos 4)) { next_send = 9; interval = 400; channel = codes "[0_0_0_4]" }
    ∷ []

pub tracker-AllScales : AllScales tracker.intervals
unfolding new_tracker make_levels new_level ◌+ℤ◌
tracker-AllScales = (
  (omega arith, omega arith),
  (
    (omega arith, omega arith),
    (
      (omega arith, omega arith),
      ((omega arith, omega arith), ((omega arith, omega arith), ((omega arith, omega arith), tt))),
    ),
  ),
)

tracker-IsShown : IsShown tracker
unfolding new_tracker keys
tracker-IsShown = refl

-- A body that is only its position.
abbrev bodies : Object3d fixed
bodies = record {
  Body = Vector3 fixed.Num;
  position = λ b. b;
  set_position = λ p b. p;
  translate_x = λ a b. record b { x = fixed.add b.x a };
  translate_y = λ a b. record b { y = fixed.add b.y a };
  translate_z = λ a b. record b { z = fixed.add b.z a };
  look_at = λ p b. b;
  clamp = λ a low high. fixed.max low (fixed.min high a);
  deg_to_rad = λ a. a;
  map_linear = λ a b c e f. a;
  normalize = λ v. v;
  multiply_scalar = λ a v. record { x = fixed.mul v.x a; y = fixed.mul v.y a; z = fixed.mul v.z a };
  sub_vectors =
      λ u v. record { x = fixed.sub u.x v.x; y = fixed.sub u.y v.y; z = fixed.sub u.z v.z };
}

abbrev controls : Controls fixed.Num
controls =
    new_controls fixed
      (element (number (pos 0)) (number (pos 0)) (number (pos 640)) (number (pos 480)))
      (record { velocity_y = number (pos 0); position_y = number (pos 2) })

abbrev presses : List KeyEvent
presses = Keys.key_down 87 ∷ Keys.key_down 38 ∷ Keys.key_up 87 ∷ []

jump_key_space_example :
    (steps fixed bodies (key_up 32 ∷ frame (number (pos 1)) place ∷ key_up 32 ∷ []) controls).space
    ≡ true
jump_key_space_example =
    jump_key_space fixed bodies false (frame (number (pos 1)) place ∷ key_up 32 ∷ []) controls

enabled : controls.settings.enabled ≡ true
unfolding new_controls handle_resize
enabled = refl

abbrev walker : Walker fixed.Num
walker =
    new_walker fixed
      (element (number (pos 0)) (number (pos 0)) (number (pos 640)) (number (pos 480)))

walk-forward_left_example :
    walk_with fixed bodies
      (forward_left fixed bodies)
      (number (pos 3))
      (number (pos 0))
      walker
      velocity
      place
    ≡ walk_with fixed bodies
        (left_only fixed bodies)
        (number (pos 3))
        (number (pos 0))
        walker
        (bodies.multiply_scalar (fixed.add (number (pos 3)) (number (pos 0))) velocity)
        (walk_with fixed bodies
          (forward_only fixed bodies)
          (number (pos 3))
          (number (pos 0))
          walker
          velocity
          place)
walk-forward_left_example =
    walk-forward_left fixed bodies (number (pos 3)) (number (pos 0)) walker velocity place
