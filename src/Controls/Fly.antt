-- ===== src/Controls/Fly.antt =====
-- `THREE.AtwControls` of WebContent/js/AtwControls.js: its fields, keys and mouse.
pub mod Jump
pub mod Motion
use general_worldwide_execut.Prelude.{
  ℕ, ◌+◌, Bool, true, false, ◌&&◌, ◌||◌, not, List, [], ◌∷◌, ◌==◌, if◌then◌else◌,
}
use general_worldwide_execut.Prelude.Int.{pos, negsuc}
use general_worldwide_execut.Controls.Keys.{Keys, released, set_key}
use general_worldwide_execut.Js.Double.{Double}
use general_worldwide_execut.Three.{Vector3}
use general_worldwide_execut.Three.Object3d.{Object3d}

-- The fields that the page may set.
pub record Settings (N : Type 0) : Type 0 where
  pub enabled : Bool
  pub movement_speed : N
  pub look_speed : N
  pub look_vertical : Bool
  pub auto_forward : Bool
  pub active_look : Bool
  pub height_speed : Bool
  pub height_coef : N
  pub height_min : N
  pub height_max : N
  pub constrain_vertical : Bool
  pub vertical_min : N
  pub vertical_max : N

-- The element of the page, or the document with its window.
pub data Element (N : Type 0) : Type 0 where
  document : (width height : N) → Element N
  element : (left top width height : N) → Element N

-- The collider that a jump pushes.
pub record Collider (N : Type 0) : Type 0 where
  pub velocity_y : N
  pub position_y : N

pub record Controls (N : Type 0) : Type 0 where
  pub settings : Settings N
  pub auto_speed_factor : N
  pub mouse_x : N
  pub mouse_y : N
  pub lat : N
  pub lon : N
  pub phi : N
  pub theta : N
  pub target : Vector3 N
  pub keys : Keys
  pub mouse_drag_on : Bool
  pub view_half_x : N
  pub view_half_y : N
  pub space : Bool
  pub jumping : Bool
  pub collider : Collider N

module _ (d : Double) where
  open d use {Num, of_int, add, sub, mul, div, neg, pi, min, max, sin, cos}

  abbrev pub nat : ℕ → Num
  nat n = of_int (pos n)

  -- The settings of a new control; 0.005 is 5 / 1000.
  abbrev pub defaults : Settings Num
  defaults = record {
    enabled = true;
    movement_speed = nat 1;
    look_speed = div (nat 5) (nat 1000);
    look_vertical = true;
    auto_forward = false;
    active_look = true;
    height_speed = false;
    height_coef = nat 1;
    height_min = nat 0;
    height_max = nat 1;
    constrain_vertical = false;
    vertical_min = nat 0;
    vertical_max = pi;
  }

  unfoldable pub handle_resize : Element Num → Controls Num → Controls Num
  handle_resize (document width height) c = record c {
    view_half_x = div width (nat 2);
    view_half_y = div height (nat 2);
  }
  handle_resize (element left top width height) c = record c {
    view_half_x = div width (nat 2);
    view_half_y = div height (nat 2);
  }

  -- The constructor, which ends with `handleResize`.
  unfoldable pub new_controls : Element Num → Collider Num → Controls Num
  unfolding handle_resize
  new_controls el collider = handle_resize el (record {
    settings = defaults;
    auto_speed_factor = nat 0;
    mouse_x = nat 0;
    mouse_y = nat 0;
    lat = nat 0;
    lon = nat 0;
    phi = nat 0;
    theta = nat 0;
    target = record { x = nat 0; y = nat 0; z = nat 0 };
    keys = released;
    mouse_drag_on = false;
    view_half_x = nat 0;
    view_half_y = nat 0;
    space = false;
    jumping = false;
    collider = collider;
  })

  -- The flag that a mouse button holds, if the mouse looks.
  unfoldable pub set_button : Bool → ℕ → Controls Num → Controls Num
  set_button held button c =
      if c.settings.active_look
      then (if button == 0
          then record c { keys = record c.keys { forward = held } }
          else if button == 2
          then record c { keys = record c.keys { backward = held } }
          else c)
      else c

  unfoldable pub on_mouse_down : ℕ → Controls Num → Controls Num
  unfolding set_button
  on_mouse_down button c = record (set_button true button c) { mouse_drag_on = true }

  unfoldable pub on_mouse_up : ℕ → Controls Num → Controls Num
  unfolding set_button
  on_mouse_up button c = record (set_button false button c) { mouse_drag_on = false }

  unfoldable pub on_mouse_move : Element Num → Num → Num → Controls Num → Controls Num
  on_mouse_move (document width height) page_x page_y c = record c {
    mouse_x = sub page_x c.view_half_x;
    mouse_y = sub page_y c.view_half_y;
  }
  on_mouse_move (element left top width height) page_x page_y c = record c {
    mouse_x = sub (sub page_x left) c.view_half_x;
    mouse_y = sub (sub page_y top) c.view_half_y;
  }

  -- The key 32 sets `space` when it goes down.
  unfoldable pub on_key_down : ℕ → Controls Num → Controls Num
  unfolding set_key
  on_key_down code c =
      if code == 32 then record c { space = true } else record c { keys = set_key true code c.keys }

  -- The key 32 sets `space` also when it goes up, and clears `jumping`.
  unfoldable pub on_key_up : ℕ → Controls Num → Controls Num
  unfolding set_key
  on_key_up code c =
      if code == 32
      then record c { space = true; jumping = false }
      else record c { keys = set_key false code c.keys }
