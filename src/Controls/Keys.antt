-- ===== src/Controls/Keys.antt =====
-- The flags that the key handlers of AtwControls.js and AtwNoMouseFirstPersonControls.js share.
pub mod Trace
use general_worldwide_execut.Prelude.{
  ℕ, Bool, true, false, List, [], ◌∷◌, Option, none, some, ◌==◌, ◌||◌, if◌then◌else◌,
}

-- Which keys are held. `moveUp` and `moveDown`, which the constructors do not set, count as false.
pub record Keys : Type 0 where
  pub forward : Bool
  pub backward : Bool
  pub left : Bool
  pub right : Bool
  pub up : Bool
  pub down : Bool
  pub shift : Bool

abbrev pub released : Keys
released = record {
  forward = false;
  backward = false;
  left = false;
  right = false;
  up = false;
  down = false;
  shift = false;
}

-- The cases of the two `switch` statements: the flag is true in `onKeyDown`, false in `onKeyUp`.
unfoldable pub set_key : Bool → ℕ → Keys → Keys
set_key held code k =
    if code == 38 || code == 87
    then record k { forward = held }
    else if code == 37 || code == 65
    then record k { left = held }
    else if code == 40 || code == 83
    then record k { backward = held }
    else if code == 39 || code == 68
    then record k { right = held }
    else if code == 82
    then record k { up = held }
    else if code == 70
    then record k { down = held }
    else if code == 16
    then record k { shift = held }
    else k

unfoldable pub on_key_down : ℕ → Keys → Keys
unfolding set_key
on_key_down = set_key true

unfoldable pub on_key_up : ℕ → Keys → Keys
unfolding set_key
on_key_up = set_key false

-- A key that goes down or up.
pub data KeyEvent : Type 0 where
  key_down : ℕ → KeyEvent
  key_up : ℕ → KeyEvent

unfoldable pub on_key : KeyEvent → Keys → Keys
unfolding on_key_down on_key_up
on_key (key_down code) = on_key_down code
on_key (key_up code) = on_key_up code

unfoldable pub on_keys : List KeyEvent → Keys → Keys
unfolding on_key
on_keys [] k = k
on_keys (e ∷ events) k = on_keys events (on_key e k)
