-- ===== src/Controls/Walk/Frames.antt =====
-- Key events and updates in any order.
use general_worldwide_execut.Prelude.{
  ◌≡◌, refl, ap, ◌∙◌, List, [], ◌∷◌, Bool, true, false, if◌then◌else◌,
}
use general_worldwide_execut.Controls.Keys.Trace.{Direction, flag, held, on_keys-flag}
use general_worldwide_execut.Controls.Keys.{KeyEvent, on_key, on_keys}
use general_worldwide_execut.Controls.Walk.{Walker, update_walker, update_enabled, turn_head}
use general_worldwide_execut.Js.Double.{Double}
use general_worldwide_execut.Three.{Vector3}
use general_worldwide_execut.Three.Object3d.{Object3d}

module _ (d : Double) (three : Object3d d) where
  -- What the page does to the controls and their object: a key event, or an update with the place of
  -- the camera.
  pub data Frame : Type 0 where
    key : KeyEvent → Frame
    tick : d.Num → Vector3 d.Num → Frame

  abbrev pub State : Type 0
  State = Walker d.Num × three.Body

  abbrev pub frame : Frame → State → State
  frame (key e) (c, body) = (record c { keys = on_key e c.keys }, body)
  frame (tick delta camera) (c, body) = update_walker d three delta camera c body

  abbrev pub frames : List Frame → State → State
  frames [] s = s
  frames (f ∷ l) s = frames l (frame f s)

  -- The key events among the frames.
  abbrev pub key_events : List Frame → List KeyEvent
  key_events [] = []
  key_events (key e ∷ l) = e ∷ key_events l
  key_events (tick delta camera ∷ l) = key_events l

  if-keys : (b : Bool) (s t : State) → s.0.keys ≡ t.0.keys → (if b then s else t).0.keys ≡ t.0.keys
  if-keys true s t e = e
  if-keys false s t e = refl

  update_enabled-keys :
      (delta : d.Num) (camera : Vector3 d.Num) (c : Walker d.Num) (body : three.Body)
      → (update_enabled d three delta camera c body).0.keys ≡ c.keys
  unfolding update_enabled turn_head
  update_enabled-keys delta camera c body = refl

  update_walker-keys :
      (delta : d.Num) (camera : Vector3 d.Num) (c : Walker d.Num) (body : three.Body)
      → (update_walker d three delta camera c body).0.keys ≡ c.keys
  unfolding update_walker
  update_walker-keys delta camera c body =
      if-keys c.settings.enabled (update_enabled d three delta camera c body) (c, body)
        (update_enabled-keys delta camera c body)

  frames-keys : (l : List Frame) (s : State) → (frames l s).0.keys ≡ on_keys (key_events l) s.0.keys
  unfolding on_keys
  frames-keys [] s = refl
  frames-keys (key e ∷ l) (c, body) = frames-keys l (frame (key e) (c, body))
  frames-keys (tick delta camera ∷ l) (c, body) =
      frames-keys l (frame (tick delta camera) (c, body))
      ∙ ap (on_keys (key_events l)) (update_walker-keys delta camera c body)

  -- In any run of key events and updates the flag of a direction is true exactly if the last event
  -- at one of its keys was a press, or it was true before and there was none: no update changes it.
  pub frames-flag :
      (g : Direction) (l : List Frame) (s : State)
      → flag g (frames l s).0.keys ≡ held g (key_events l) (flag g s.0.keys)
  frames-flag g l s = ap (flag g) (frames-keys l s) ∙ on_keys-flag g (key_events l) s.0.keys
