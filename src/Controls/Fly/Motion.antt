-- ===== src/Controls/Fly/Motion.antt =====
-- `update` of `THREE.AtwControls`.
use general_worldwide_execut.Prelude.{Bool, true, ◌&&◌, ◌||◌, not, if◌then◌else◌}
use general_worldwide_execut.Prelude.Int.{negsuc}
use general_worldwide_execut.Controls.Fly.{Controls, nat}
use general_worldwide_execut.Js.Double.{Double}
use general_worldwide_execut.Three.{Vector3}
use general_worldwide_execut.Three.Object3d.{Object3d}

module _ (d : Double) (three : Object3d d) where
  open d use {Num, of_int, add, sub, mul, div, neg, pi, min, max, sin, cos}
  open three use {Body, position, translate_x, translate_y, translate_z, look_at}
  open three use {clamp, deg_to_rad, map_linear}

  -- The speed that the height adds.
  unfoldable pub height_factor : Num → Body → Controls Num → Controls Num
  height_factor delta body c =
      let s = c.settings in
      let y = clamp (position body).y s.height_min s.height_max in
      record c {
        auto_speed_factor =
            if s.height_speed then mul delta (mul (sub y s.height_min) s.height_coef) else nat d 0;
      }

  -- `if (this.space && !this.jumping)`: the collider is pushed up.
  unfoldable pub jump : Controls Num → Controls Num
  jump c =
      if c.space && not c.jumping
      then record c {
        jumping = true;
        collider = record {
          velocity_y = add c.collider.velocity_y (nat d 100);
          position_y = add c.collider.position_y (nat d 15);
        };
      }
      else c

  abbrev pub when : Bool → (Body → Body) → Body → Body
  when b f body = if b then f body else body

  -- The translations along the axes of the object.
  unfoldable pub translate : Num → Controls Num → Body → Body
  translate delta c body =
      let k = c.keys in
      let base = mul delta c.settings.movement_speed in
      let speed = if k.shift then mul base (nat d 10) else base in
      let ahead = k.forward || (c.settings.auto_forward && not k.backward) in
      let b1 = when ahead (translate_z (neg (add speed c.auto_speed_factor))) body in
      let b2 = when k.backward (translate_z speed) b1 in
      let b3 = when k.left (translate_x (neg speed)) b2 in
      let b4 = when k.right (translate_x speed) b3 in
      let b5 = when k.up (translate_y speed) b4 in when k.down (translate_y (neg speed)) b5

  -- The angles that the mouse turns.
  unfoldable pub turn : Num → Controls Num → Controls Num
  turn delta c =
      let s = c.settings in
      let speed = if s.active_look then mul delta s.look_speed else nat d 0 in
      let ratio =
        if s.constrain_vertical then div pi (sub s.vertical_max s.vertical_min) else nat d 1 in
      let lon = add c.lon (mul c.mouse_x speed) in
      let lat = if s.look_vertical then sub c.lat (mul (mul c.mouse_y speed) ratio) else c.lat in
      let held = max (of_int (negsuc 84)) (min (nat d 85) lat) in
      let phi = deg_to_rad (sub (nat d 90) held) in
      record c {
        lon = lon;
        lat = held;
        theta = deg_to_rad lon;
        phi =
            if s.constrain_vertical
            then map_linear phi (nat d 0) pi s.vertical_min s.vertical_max
            else phi;
      }

  -- The point to look at, 100 units away.
  unfoldable pub aim : Vector3 Num → Controls Num → Vector3 Num
  aim p c = record {
    x = add p.x (mul (mul (nat d 100) (sin c.phi)) (cos c.theta));
    y = add p.y (mul (nat d 100) (cos c.phi));
    z = add p.z (mul (mul (nat d 100) (sin c.phi)) (sin c.theta));
  }

  unfoldable pub update : Num → Controls Num → Body → Controls Num × Body
  unfolding height_factor jump translate turn aim
  update delta c body =
      let c1 = jump (height_factor delta body c) in
      let body1 = translate delta c1 body in
      let c2 = turn delta c1 in
      let target = aim (position body1) c2 in
      if c.settings.enabled
      then (record c2 { target = target }, look_at target body1)
      else (c, body)
