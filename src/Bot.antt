-- ===== src/Bot.antt =====
-- `RunInCircle` of WebContent/js/RunningInCircleBot1.js: a bot that publishes its way round a circle.
pub mod Ticks
use general_worldwide_execut.Prelude.{
  ℕ, zero, suc, Bool, true, false, [], ◌∷◌, Option, none, some, if◌then◌else◌,
}
use general_worldwide_execut.Prelude.Int.{pos}
use general_worldwide_execut.Prelude.Text.{Text, codes}
use general_worldwide_execut.Gwems.Client.{Accepts, send}
use general_worldwide_execut.Gwems.Messages.{World, get_publish_string}
use general_worldwide_execut.Js.Double.{Double}
use general_worldwide_execut.Js.Json.{Value, num, text, object, end, member}
use general_worldwide_execut.Three.{Vector3}
use general_worldwide_execut.Tracker.Update.{json_number}

-- The variables of the closure.
pub record Bot (N : Type 0) : Type 0 where
  pub id : Text
  pub center : Vector3 N
  pub radius : N
  pub angular_velocity : N
  pub angle : N

-- The channel, 1 km cubes 2 ^ 20 away.
abbrev pub publish_space : Text
publish_space = codes "0_0_400_10"

module _ (d : Double) where
  open d use {Num, of_int, add, sub, mul, div, sin, cos, to_int32}

  -- `a || b` of numbers, where `none` is `undefined`.
  unfoldable pub or_else : Option Num → Num → Num
  or_else none b = b
  or_else (some a) b = if d.truthy a then a else b

  -- `center || new THREE.Vector3()`
  unfoldable pub or_origin : Option (Vector3 Num) → Vector3 Num
  or_origin none = record { x = of_int (pos 0); y = of_int (pos 0); z = of_int (pos 0) }
  or_origin (some v) = v

  -- The constructor, without the timer; 0.4 is 4 / 10.
  unfoldable pub new_bot :
      Text → Option (Vector3 Num) → Option Num → Option Num → Option Num → Bot Num
  unfolding or_else or_origin
  new_bot id center radius angular_velocity start_angle = record {
    id = id;
    center = or_origin center;
    radius = or_else radius (of_int (pos 10));
    angular_velocity = or_else angular_velocity (div (of_int (pos 4)) (of_int (pos 10)));
    angle = or_else start_angle (of_int (pos 4));
  }

  -- Cut to a multiple of 1 / 128.
  unfoldable pub deres : Num → Num
  deres double =
      mul (div (of_int (pos 1)) (of_int (pos 128)))
        (of_int (to_int32 (mul double (of_int (pos 128)))))

  -- `var interval = 1`, in seconds.
  abbrev pub interval : Num
  interval = of_int (pos 1)

  abbrev pub xyz : Num → Num → Num → Value Num
  xyz x y z =
      object
        (member (codes "x") (num x) (member (codes "y") (num y) (member (codes "z") (num z) end)))

  -- The message of one tick.
  unfoldable pub tick_message : Bot Num → Value Num
  unfolding deres
  tick_message b =
      let x = mul b.radius (cos b.angle) in
      let z = mul b.radius (sin b.angle) in
      let angle = add b.angle (mul b.angular_velocity interval) in
      let next_x = mul b.radius (cos angle) in
      let next_z = mul b.radius (sin angle) in
      object (
        member (codes "id") (text b.id) (
          member (codes "position")
            (xyz (deres (add x b.center.x)) (deres (add (of_int (pos 0)) b.center.y))
              (deres (add z b.center.z)))
            (member (codes "velocity")
              (xyz (div (sub next_x x) interval) (of_int (pos 0)) (div (sub next_z z) interval))
              end)))

  -- What the timer calls every second.
  unfoldable pub tick : Accepts → Bot Num → World Num → Bot Num × World Num
  unfolding tick_message
  tick a b (t, c) =
      let (str, t') = get_publish_string (json_number d) publish_space (tick_message b) t in
      (record b { angle = add b.angle (mul b.angular_velocity interval) }, (t', send a str c))

  -- A number of ticks.
  unfoldable pub ticks : ℕ → Accepts → Bot Num → World Num → Bot Num × World Num
  unfolding tick
  ticks zero a b w = (b, w)
  ticks (suc n) a b w = let (b', w') = tick a b w in ticks n a b' w'
