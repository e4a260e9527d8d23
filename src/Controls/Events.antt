-- ===== src/Controls/Events.antt =====
-- The listeners that the constructors of the two controls install.
pub mod Runs
use general_worldwide_execut.Prelude.{ℕ, Bool, true, false, List, [], ◌∷◌, Option, none, some}
use general_worldwide_execut.Controls.Fly.{
  Controls, Element, on_mouse_move, on_mouse_down, on_mouse_up, on_key_down, on_key_up,
}
use general_worldwide_execut.Controls.Keys
use general_worldwide_execut.Controls.Walk.{Walker}
use general_worldwide_execut.Js.Double.{Double}

-- What the browser reports to the element and to the window.
pub data Event (N : Type 0) : Type 0 where
  context_menu : Event N
  mouse_move : N → N → Event N
  mouse_down : ℕ → Event N
  mouse_up : ℕ → Event N
  key_down : ℕ → Event N
  key_up : ℕ → Event N

-- `bind(scope, fn)` of AtwNoMouseFirstPersonControls, where `none` is an undefined handler.
unfoldable pub bind : {S E : Type 0} → Option (E → S → S) → E → S → S
bind none event scope = scope
bind (some fn) event scope = fn event scope

module _ (d : Double) (el : Element d.Num) where
  open d use {Num}

  -- The listeners of AtwControls; the one of the context menu only prevents the default.
  unfoldable pub dispatch : Event Num → Controls Num → Controls Num
  unfolding on_mouse_move on_mouse_down on_mouse_up on_key_down on_key_up
  dispatch context_menu c = c
  dispatch (mouse_move x y) c = on_mouse_move d el x y c
  dispatch (mouse_down button) c = on_mouse_down d button c
  dispatch (mouse_up button) c = on_mouse_up d button c
  dispatch (key_down code) c = on_key_down d code c
  dispatch (key_up code) c = on_key_up d code c

  unfoldable pub dispatch_all : List (Event Num) → Controls Num → Controls Num
  unfolding dispatch
  dispatch_all [] c = c
  dispatch_all (e ∷ events) c = dispatch_all events (dispatch e c)

module _ {N : Type 0} where
  -- `onKeyDown` and `onKeyUp` of AtwNoMouseFirstPersonControls on its flags.
  unfoldable pub walker_key_down : ℕ → Walker N → Walker N
  walker_key_down code c = record c { keys = Keys.on_key_down code c.keys }

  unfoldable pub walker_key_up : ℕ → Walker N → Walker N
  walker_key_up code c = record c { keys = Keys.on_key_up code c.keys }

  -- The handlers of the mouse are commented out in AtwNoMouseFirstPersonControls.
  abbrev pub no_handler : Option (Event N → Walker N → Walker N)
  no_handler = none

  -- The listeners of AtwNoMouseFirstPersonControls.
  unfoldable pub dispatch_walker : Event N → Walker N → Walker N
  unfolding bind walker_key_down walker_key_up
  dispatch_walker context_menu c = c
  dispatch_walker (mouse_move x y) c = bind no_handler (mouse_move x y) c
  dispatch_walker (mouse_down button) c = bind no_handler (mouse_down button) c
  dispatch_walker (mouse_up button) c = bind no_handler (mouse_up button) c
  dispatch_walker (key_down code) c = bind (some walker_key_down) code c
  dispatch_walker (key_up code) c = bind (some walker_key_up) code c

  unfoldable pub dispatch_walker_all : List (Event N) → Walker N → Walker N
  unfolding dispatch_walker
  dispatch_walker_all [] c = c
  dispatch_walker_all (e ∷ events) c = dispatch_walker_all events (dispatch_walker e c)
