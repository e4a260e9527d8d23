-- ===== src/Controls/Fly/Jump.antt =====
-- The flag that starts a jump.
use general_worldwide_execut.Prelude.{
  ℕ, ◌≡◌, refl, Bool, true, false, List, [], ◌∷◌, arith, if◌then◌else◌,
}
use general_worldwide_execut.Prelude.Int.{pos}
use general_worldwide_execut.Controls.Fly.Motion.{height_factor, jump, turn, update}
use general_worldwide_execut.Controls.Fly.{Controls, on_key_down, on_key_up}
use general_worldwide_execut.Js.Double.{Double}
use general_worldwide_execut.Three.Object3d.{Object3d}

-- What the page and the loop of the scene do to the controls.
pub data Step (N Body : Type 0) : Type 0 where
  key_down : ℕ → Step N Body
  key_up : ℕ → Step N Body
  frame : N → Body → Step N Body

module _ (d : Double) (three : Object3d d) where
  abbrev pub step : Step d.Num three.Body → Controls d.Num → Controls d.Num
  step (key_down code) c = on_key_down d code c
  step (key_up code) c = on_key_up d code c
  step (frame delta body) c = (update d three delta c body).0

  abbrev pub steps : List (Step d.Num three.Body) → Controls d.Num → Controls d.Num
  steps [] c = c
  steps (e ∷ events) c = steps events (step e c)

  step-space :
      (e : Step d.Num three.Body) (c : Controls d.Num) → c.space ≡ true → (step e c).space ≡ true
  unfolding on_key_down on_key_up update height_factor jump turn
  step-space (key_down code) c h = ground arith
  step-space (key_up code) c h = ground arith
  step-space (frame delta body) c h = ground arith

  steps-space :
      (events : List (Step d.Num three.Body)) (c : Controls d.Num)
      → c.space ≡ true
      → (steps events c).space ≡ true
  steps-space [] c h = h
  steps-space (e ∷ events) c h = steps-space events (step e c) (step-space e c h)

  -- Once the key 32 has gone down or up, `space` stays true: no later key event and no later update
  -- clears it, also not the release of the key.
  pub jump_key_space :
      (press : Bool) (events : List (Step d.Num three.Body)) (c : Controls d.Num)
      → (steps ((if press then key_down 32 else key_up 32) ∷ events) c).space ≡ true
  unfolding on_key_down on_key_up
  jump_key_space true events c = steps-space events (on_key_down d 32 c) refl
  jump_key_space false events c = steps-space events (on_key_up d 32 c) refl

  -- While the mode is enabled, an update after the release of the key 32 pushes the collider again,
  -- as if the key were held: it is thrown up by 15 with 100 more of speed, and `jumping` is set.
  pub release-jump :
      (delta : d.Num) (body : three.Body) (c : Controls d.Num)
      → c.settings.enabled ≡ true
      → let u = step (frame delta body) (step (key_up 32) c) in
        (u.jumping ≡ true)
        × (u.collider.velocity_y ≡ d.add c.collider.velocity_y (d.of_int (pos 100)))
        × (u.collider.position_y ≡ d.add c.collider.position_y (d.of_int (pos 15)))
  unfolding on_key_up update height_factor jump turn
  release-jump delta body c h = ground arith
