-- ===== src/Moving/Page.antt =====
-- The messages about moving objects that WebContent/Three30.html handles.
pub mod Laws
pub mod Order
use general_worldwide_execut.Prelude.{ℕ, List, [], ◌∷◌, Option, none, some, Bool, true, false}
use general_worldwide_execut.Prelude.Text.{Text}
use general_worldwide_execut.Js.Double.{Double}
use general_worldwide_execut.Moving.{
  Mover, Container, Objects, read, write, get_or_construct, update_objects,
}
use general_worldwide_execut.Three.{Vector3}

module _ {N : Type 0} where
  -- The two assignments to an object: its position and, if it has one, its velocity. The second
  -- component tells whether the velocity of the message is read and missing, which throws.
  unfoldable pub set_mover : Vector3 N → Option (Vector3 N) → Mover N → Mover N × Bool
  set_mover position velocity m = elim m.velocity [
    | none ↦ (record m { place = position }, false)
    | some old ↦ elim velocity [
      | none ↦ (record m { place = position }, true)
      | some v ↦ (record { place = position; velocity = some v }, false)
    ]
  ]

  -- The assignments to the object of a reference; the references of the page have one.
  unfoldable pub set_at :
      ℕ → Vector3 N → Option (Vector3 N) → List (ℕ × Mover N) → List (ℕ × Mover N) × Bool
  unfolding read write set_mover
  set_at r position velocity movers = elim (read movers r) [
    | none ↦ (movers, true)
    | some m ↦ let (m', threw) = set_mover position velocity m in (write movers r m', threw)
  ]

module _ (c : Container) {N : Type 0} where
  -- `handleMessage` of a message with a position: the id, the position and the velocity.
  unfoldable pub handle_position :
      Vector3 N
      → Text
      → Vector3 N
      → Option (Vector3 N)
      → Objects N c.Children
      → Objects N c.Children × Bool
  unfolding get_or_construct set_at
  handle_position built id position velocity s =
      let (r, found) = get_or_construct c built id velocity s in
      let (movers, threw) = set_at r position velocity found.movers in
      (record found { movers = movers }, threw)

-- What the page handles: a message with a position, or a frame.
pub data PageStep (N : Type 0) : Type 0 where
  message : Text → Vector3 N → Option (Vector3 N) → PageStep N
  render : N → PageStep N

module _ (c : Container) (d : Double) (built : Vector3 d.Num) where
  open d use {Num}

  unfoldable pub page_step : PageStep Num → Objects Num c.Children → Objects Num c.Children
  unfolding handle_position update_objects
  page_step (message id position velocity) s = (handle_position c built id position velocity s).0
  page_step (render delta) s = update_objects d delta s

  unfoldable pub page_steps : List (PageStep Num) → Objects Num c.Children → Objects Num c.Children
  unfolding page_step
  page_steps [] s = s
  page_steps (k ∷ l) s = page_steps l (page_step k s)
