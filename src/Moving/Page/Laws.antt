-- ===== src/Moving/Page/Laws.antt =====
-- What a message does to its object.
use general_worldwide_execut.Prelude.{
  ℕ, List, Option, none, some, Bool, true, false, ◌≡◌, refl, inl, inr, Option-cases,
}
use general_worldwide_execut.Prelude.Text.{Text}
use general_worldwide_execut.Js.Object.{get, get-put_self}
use general_worldwide_execut.Moving.{
  Mover, Container, Objects, read, write, put_object, build, construct, get_object,
  get_or_construct,
}
use general_worldwide_execut.Moving.Motion.{read-write_self}
use general_worldwide_execut.Moving.Page.{set_mover, set_at, handle_position}
use general_worldwide_execut.Moving.Refs.{holds-get}
use general_worldwide_execut.Three.{Vector3}
use general_worldwide_execut.Moving.Page.Order.{HasVelocity, IsInOrder}

-- The branches, as equations.
set_at-some :
    {N : Type 0} (r : ℕ) (position : Vector3 N) (velocity : Option (Vector3 N))
    (l : List (ℕ × Mover N)) (m : Mover N)
    → read l r ≡ some m
    → set_at r position velocity l
      ≡ (write l r (set_mover position velocity m).0, (set_mover position velocity m).1)
unfolding set_at
set_at-some r position velocity l m e = rw (e, set_at) refl

set_mover-some-some :
    {N : Type 0} (position old v : Vector3 N) (m : Mover N)
    → m.velocity ≡ some old
    → set_mover position (some v) m ≡ (record { place = position; velocity = some v }, false)
unfolding set_mover
set_mover-some-some position old v m e = rw (e, set_mover) refl

set_mover-some-none :
    {N : Type 0} (position old : Vector3 N) (m : Mover N)
    → m.velocity ≡ some old
    → set_mover position none m ≡ (record m { place = position }, true)
unfolding set_mover
set_mover-some-none position old m e = rw (e, set_mover) (rw e refl)

module _ (c : Container) {N : Type 0} (built : Vector3 N) where
  -- What `handleMessage` does to the object that it has found.
  abbrev set_found :
      Vector3 N → Option (Vector3 N) → ℕ × Objects N c.Children → Objects N c.Children × Bool
  set_found position velocity (r, found) =
      let (movers, threw) = set_at r position velocity found.movers in
      (record found { movers = movers }, threw)

  handle_position-set_found :
      (id : Text) (position : Vector3 N) (velocity : Option (Vector3 N)) (s : Objects N c.Children)
      → handle_position c built id position velocity s
        ≡ set_found position velocity (get_or_construct c built id velocity s)
  unfolding handle_position
  handle_position-set_found id position velocity s = refl

  get_or_construct-some :
      (id : Text) (velocity : Option (Vector3 N)) (s : Objects N c.Children) (r : ℕ)
      → get s.map id ≡ some r
      → get_or_construct c built id velocity s ≡ (r, s)
  unfolding get_or_construct get_object
  get_or_construct-some id velocity s r e = rw (e, get_or_construct) refl

  get_or_construct-none :
      (id : Text) (velocity : Option (Vector3 N)) (s : Objects N c.Children)
      → get s.map id ≡ none
      → get_or_construct c built id velocity s ≡ construct c built id velocity s
  unfolding get_or_construct get_object
  get_or_construct-none id velocity s e = rw (e, get_or_construct) refl

  -- The object that is found is the one of the map, and it has a velocity.
  found-HasVelocity :
      (id : Text) (v : Vector3 N) (s : Objects N c.Children)
      → IsInOrder c s
      → let (r, found) = get_or_construct c built id (some v) s in
        (get found.map id ≡ some r) × HasVelocity (read found.movers r)
  found-HasVelocity id v s (g, h) = elim (Option-cases (get s.map id)) [
    | inl e ↦ rw (get_or_construct-none id (some v) s e) (
        unfold construct put_object build in
        (get-put_self s.map id s.fresh, (_, v, read-write_self s.movers s.fresh _, refl)))
    | inr (r, e) ↦ rw (get_or_construct-some id (some v) s r e) (e, h r (holds-get s.map id r e))
  ]

  -- A message with a velocity does not throw: afterwards the map has an object of the id, at the
  -- position and with the velocity of the message, whether it was known or not.
  pub handle_position-some :
      (id : Text) (position v : Vector3 N) (s : Objects N c.Children)
      → IsInOrder c s
      → let (u, threw) = handle_position c built id position (some v) s in
        (threw ≡ false)
        × (r : ℕ) × (get u.map id ≡ some r)
        × (read u.movers r ≡ some (record { place = position; velocity = some v }))
  handle_position-some id position v s h =
      let (r, found) = get_or_construct c built id (some v) s in
      let (here, (m, old, em, ev)) = found-HasVelocity id v s h in
      rw
        (
          handle_position-set_found id position (some v) s,
          set_at-some r position (some v) found.movers m em,
          set_mover-some-some position old v m ev,
        )
        (refl, r, here, read-write_self found.movers r _)

  -- A message without a velocity about a moving object throws after its position is set; the
  -- object keeps the velocity that it had, and the map is as it was.
  pub handle_position-none :
      (id : Text) (position : Vector3 N) (r : ℕ) (s : Objects N c.Children)
      → IsInOrder c s
      → get s.map id ≡ some r
      → let (u, threw) = handle_position c built id position none s in
        (threw ≡ true)
        × (m : Mover N) × (read s.movers r ≡ some m)
        × (read u.movers r ≡ some (record m { place = position }))
        × (u.map ≡ s.map)
  handle_position-none id position r s (g, h) e =
      let (m, old, em, ev) = h r (holds-get s.map id r e) in
      rw
        (
          handle_position-set_found id position none s,
          get_or_construct-some id none s r e,
          set_at-some r position none s.movers m em,
          set_mover-some-none position old m ev,
        )
        (refl, m, em, read-write_self s.movers r _, refl)
