-- ===== src/Controls/Walk.antt =====
-- `THREE.AtwNoMouseFirstPersonControls` of
-- WebContent/js/libs/controls/AtwNoMouseFirstPersonControls.js: the keys move an object along the
-- line from the camera to it, and the object falls. Its key handlers are in Controls/Keys.
pub mod Diagonal
pub mod Frames
use general_worldwide_execut.Prelude.{ℕ, Bool, true, false, ◌&&◌, ◌||◌, not, if◌then◌else◌}
use general_worldwide_execut.Prelude.Int.{pos, negsuc}
use general_worldwide_execut.Controls.Fly.{Settings, Element, document, element, nat, defaults}
use general_worldwide_execut.Controls.Fly.Motion.{when}
use general_worldwide_execut.Controls.Keys.{Keys, released}
use general_worldwide_execut.Js.Double.{Double}
use general_worldwide_execut.Three.{Vector3}
use general_worldwide_execut.Three.Object3d.{Object3d}

-- The fields of the controls, and `yvelocity`, which they keep in the object.
pub record Walker (N : Type 0) : Type 0 where
  pub settings : Settings N
  pub auto_speed_factor : N
  pub mouse_x : N
  pub mouse_y : N
  pub lat : N
  pub lon : N
  pub phi : N
  pub theta : N
  pub target : Vector3 N
  pub keys : Keys
  pub mouse_drag_on : Bool
  pub view_half_x : N
  pub view_half_y : N
  pub y_velocity : N

module _ (d : Double) where
  open d use {Num, of_int, add, sub, mul, div, neg, pi, min, max, sin, cos, le}

  unfoldable pub resize_walker : Element Num → Walker Num → Walker Num
  resize_walker (document width height) c = record c {
    view_half_x = div width (nat d 2);
    view_half_y = div height (nat d 2);
  }
  resize_walker (element left top width height) c = record c {
    view_half_x = div width (nat d 2);
    view_half_y = div height (nat d 2);
  }

  -- The constructor, which ends with `handleResize`.
  unfoldable pub new_walker : Element Num → Walker Num
  unfolding resize_walker
  new_walker el = resize_walker el (record {
    settings = defaults d;
    auto_speed_factor = nat d 0;
    mouse_x = nat d 0;
    mouse_y = nat d 0;
    lat = nat d 0;
    lon = nat d 0;
    phi = nat d 0;
    theta = nat d 0;
    target = record { x = nat d 0; y = nat d 0; z = nat d 0 };
    keys = released;
    mouse_drag_on = false;
    view_half_x = nat d 0;
    view_half_y = nat d 0;
    y_velocity = nat d 0;
  })

  -- The angles that the mouse turns.
  unfoldable pub turn_head : (Num → Num) → (Num → Num) → Num → Walker Num → Walker Num
  turn_head deg_to_rad map_phi delta c =
      let s = c.settings in
      let speed = if s.active_look then mul delta s.look_speed else nat d 0 in
      let ratio =
        if s.constrain_vertical then div pi (sub s.vertical_max s.vertical_min) else nat d 1 in
      let lon = add c.lon (mul c.mouse_x speed) in
      let lat = if s.look_vertical then sub c.lat (mul (mul c.mouse_y speed) ratio) else c.lat in
      let held = max (of_int (negsuc 84)) (min (nat d 85) lat) in
      let phi = deg_to_rad (sub (nat d 90) held) in
      record c {
        lon = lon;
        lat = held;
        theta = deg_to_rad lon;
        phi = if s.constrain_vertical then map_phi phi else phi;
      }

  -- The point to look at, 100 units away.
  unfoldable pub aim_at : Vector3 Num → Walker Num → Vector3 Num
  aim_at p c = record {
    x = add p.x (mul (mul (nat d 100) (sin c.phi)) (cos c.theta));
    y = add p.y (mul (nat d 100) (cos c.phi));
    z = add p.z (mul (mul (nat d 100) (sin c.phi)) (sin c.theta));
  }

  module _ (three : Object3d d) where
    open three use {Body, position, set_position, translate_x, translate_y, translate_z}
    open three use {clamp, deg_to_rad, map_linear, normalize, multiply_scalar, sub_vectors}

    -- The speed that the height adds.
    unfoldable pub height_speed_factor : Num → Body → Walker Num → Num
    height_speed_factor delta body c =
        let s = c.settings in
        let y = clamp (position body).y s.height_min s.height_max in
        if s.height_speed then mul delta (mul (sub y s.height_min) s.height_coef) else nat d 0

    -- The level direction from the camera to the object.
    unfoldable pub look_from : Vector3 Num → Body → Vector3 Num
    look_from camera body =
        let look = sub_vectors (position body) camera in normalize (record look { y = nat d 0 })

    -- Two translations, along x and along z.
    abbrev pub slide : Num → Num → Body → Body
    slide x z body = translate_z z (translate_x x body)

    -- One `if` of the four directions: `look` is scaled for good, and the object slides.
    unfoldable pub stride :
        Bool → Num → (Vector3 Num → Body → Body) → Vector3 Num × Body → Vector3 Num × Body
    stride pressed speed move (look, body) =
        if pressed
        then (multiply_scalar speed look, move (multiply_scalar speed look) body)
        else (look, body)

    abbrev pub along : Vector3 Num → Body → Body
    along look = slide look.x look.z

    abbrev pub across : Vector3 Num → Body → Body
    across look = slide look.z (neg look.x)

    -- The translations of `update`, from the look vector on.
    unfoldable pub walk : Num → Num → Walker Num → Vector3 Num → Body → Body
    unfolding stride
    walk speed auto_speed c look body =
        let k = c.keys in
        let ahead = k.forward || (c.settings.auto_forward && not k.backward) in
        let s1 = stride ahead (add speed auto_speed) along (look, body) in
        let s2 = stride k.backward (neg speed) along s1 in
        let s3 = stride k.left speed across s2 in
        let s4 = stride k.right (neg speed) across s3 in
        let b = when d three k.up (translate_y speed) s4.1 in
        when d three k.down (translate_y (neg speed)) b

    -- The object rises out of the ground, or falls.
    unfoldable pub fall : Num → Body → Num × Body
    fall velocity body =
        let p = position body in
        if le p.y (nat d 0)
        then (
          nat d 0,
          set_position (record p { y = sub p.y (mul p.y (div (nat d 1) (nat d 100))) }) body,
        )
        else (
          sub velocity (div (nat d 5) (nat d 10000)),
          set_position (record p { y = add p.y velocity }) body,
        )

    -- `update` while the controls are enabled.
    unfoldable pub update_enabled : Num → Vector3 Num → Walker Num → Body → Walker Num × Body
    unfolding height_speed_factor look_from walk fall turn_head aim_at
    update_enabled delta camera c body =
        let s = c.settings in
        let auto_speed = height_speed_factor delta body c in
        let base = mul delta s.movement_speed in
        let speed = if c.keys.shift then mul base (nat d 10) else base in
        let body1 = walk speed auto_speed c (look_from camera body) body in
        let (velocity, body2) = fall c.y_velocity body1 in
        let map_phi : Num → Num =
          λ phi. map_linear phi (nat d 0) pi s.vertical_min s.vertical_max in
        let c1 =
          turn_head deg_to_rad map_phi delta
            (record c { auto_speed_factor = auto_speed; y_velocity = velocity }) in
        (record c1 { target = aim_at (position body2) c1 }, body2)

    unfoldable pub update_walker : Num → Vector3 Num → Walker Num → Body → Walker Num × Body
    unfolding update_enabled
    update_walker delta camera c body =
        if c.settings.enabled then update_enabled delta camera c body else (c, body)
