-- ===== src/Moving/Page/Order.antt =====
-- Every object of the map has a velocity.
use general_worldwide_execut.Prelude.{
  ℕ, List, [], ◌∷◌, Option, none, some, Bool, true, false, ◌==◌, ◌&&◌, ◌≡◌, refl, ◌∙◌, arith, inl,
  inr, Bool-cases, Option-cases,
}
use general_worldwide_execut.Prelude.Text.{Text}
use general_worldwide_execut.Js.Double.{Double}
use general_worldwide_execut.Js.Object.{get}
use general_worldwide_execut.Moving.{
  Mover, Container, IsContainer, Objects, read, write, moved, move_all, new_objects, put_object,
  build, construct, get_object, get_or_construct, update_objects,
}
use general_worldwide_execut.Moving.Consistent.{
  IsConsistent, new_objects-IsConsistent, get_or_construct-IsConsistent,
}
use general_worldwide_execut.Moving.Motion.{read-write, read-move_all}
use general_worldwide_execut.Moving.Page.{
  set_mover, set_at, handle_position, PageStep, message, render, page_step, page_steps,
}
use general_worldwide_execut.Moving.Refs.{holds, AreOlder-holds, holds-put}
use general_worldwide_execut.Three.{Vector3}

-- The reference is one of an object with a velocity.
abbrev pub HasVelocity : {N : Type 0} → Option (Mover N) → Type 0
HasVelocity {N} o = (m : Mover N) × (v : Vector3 N) × (o ≡ some m) × (m.velocity ≡ some v)

-- All objects of the map have a velocity.
abbrev pub AreMoving : {N : Type 0} → List (Text × ℕ) → List (ℕ × Mover N) → Type 0
AreMoving map movers = (r : ℕ) → holds map r ≡ true → HasVelocity (read movers r)

write-HasVelocity :
    {N : Type 0} (l : List (ℕ × Mover N)) (p r : ℕ) (m : Mover N) (v : Vector3 N)
    → m.velocity ≡ some v
    → (p == r ≡ false → HasVelocity (read l r))
    → HasVelocity (read (write l p m) r)
write-HasVelocity l p r m v e h = elim (Bool-cases (p == r)) [
  | inl g ↦ (m, v, rw (read-write l p r m, g) refl, e)
  | inr g ↦ let (n, w, en, ew) = h g in (n, w, rw (read-write l p r m, g) en, ew)
]

-- What is assigned to an object with a velocity, and that it keeps one.
set_mover-velocity :
    {N : Type 0} (position old : Vector3 N) (velocity : Option (Vector3 N)) (m : Mover N)
    → m.velocity ≡ some old
    → (v : Vector3 N) × ((set_mover position velocity m).0.velocity ≡ some v)
unfolding set_mover
set_mover-velocity position old none m e = (old, rw (e, set_mover) e)
set_mover-velocity position old (some v) m e = (v, rw (e, set_mover) refl)

set_at-HasVelocity :
    {N : Type 0} (r q : ℕ) (position : Vector3 N) (velocity : Option (Vector3 N))
    (l : List (ℕ × Mover N))
    → HasVelocity (read l q)
    → HasVelocity (read (set_at r position velocity l).0 q)
unfolding set_at
set_at-HasVelocity r q position velocity l (n, w, en, ew) = elim (Option-cases (read l r)) [
  | inl e ↦ rw (e, set_at) (n, w, en, ew)
  | inr (m, e) ↦
      rw (e, set_at)
        (elim (Bool-cases (r == q)) [
          | inl g ↦
              let same : r ≡ q = ground arith in
              let one : m ≡ n = cc in
              let (v, ev) = set_mover-velocity position w velocity m (rw one ew) in
              write-HasVelocity l r q _ v ev (λ h. absurd (ground (arith, g, h)))
          | inr g ↦ ((n, w, rw (read-write l r q (set_mover position velocity m).0, g) en, ew))
        ])
]

and_left : (a b : Bool) → (a && b) ≡ true → a ≡ true
and_left true b h = refl
and_left false b h = h

module _ (c : Container) {N : Type 0} where
  -- An object of the map is no new one.
  older_ne :
      (s : Objects N c.Children)
      → IsConsistent c s
      → (r : ℕ) → holds s.map r ≡ true
      → s.fresh == r ≡ false
  older_ne s g r e =
      let unheld = AreOlder-holds s.fresh s.map s.fresh g.older (omega arith) in
      elim (Bool-cases (s.fresh == r)) [
        | inl f ↦ let same : s.fresh ≡ r = ground arith in absurd cc
        | inr f ↦ f
      ]

  construct-AreMoving :
      (built : Vector3 N) (id : Text) (velocity : Option (Vector3 N)) (s : Objects N c.Children)
      → IsConsistent c s
      → AreMoving s.map s.movers
      → AreMoving (construct c built id velocity s).1.map (construct c built id velocity s).1.movers
  unfolding construct build put_object
  construct-AreMoving built id none s g h r e =
      let (m, v, em, ev) = h r e in
      let fresh : s.fresh == r ≡ false = older_ne s g r e in
      (m, v, rw (read-write s.movers s.fresh r _, fresh) em, ev)
  construct-AreMoving built id (some v) s g h r e =
      write-HasVelocity s.movers s.fresh r _ v refl (λ f.
        h r (and_left (holds s.map r) _ (rw (holds-put s.map id s.fresh r g.distinct, f) at e)))

  get_or_construct-AreMoving :
      (built : Vector3 N) (id : Text) (velocity : Option (Vector3 N)) (s : Objects N c.Children)
      → IsConsistent c s
      → AreMoving s.map s.movers
      → AreMoving
          (get_or_construct c built id velocity s).1.map
          (get_or_construct c built id velocity s).1.movers
  unfolding get_or_construct get_object
  get_or_construct-AreMoving built id velocity s g h = elim (Option-cases (get s.map id)) [
    | inl e ↦ rw (e, get_or_construct) (construct-AreMoving built id velocity s g h)
    | inr (r, e) ↦ rw (e, get_or_construct) h
  ]

  handle_position-AreMoving :
      (built : Vector3 N) (id : Text) (position : Vector3 N) (velocity : Option (Vector3 N))
      (s : Objects N c.Children)
      → IsConsistent c s
      → AreMoving s.map s.movers
      → AreMoving
          (handle_position c built id position velocity s).0.map
          (handle_position c built id position velocity s).0.movers
  unfolding handle_position
  handle_position-AreMoving built id position velocity s g h r e =
      let found = get_or_construct c built id velocity s in
      set_at-HasVelocity found.0 r position velocity found.1.movers
        (get_or_construct-AreMoving built id velocity s g h r e)

-- The map and the container agree, and every object of the map has a velocity.
abbrev pub IsInOrder : (c : Container) {N : Type 0} → Objects N c.Children → Type 0
IsInOrder c s = IsConsistent c s × AreMoving s.map s.movers

module _ (c : Container) (ic : IsContainer c) {N : Type 0} (built : Vector3 N) where
  pub handle_position-IsInOrder :
      (id : Text) (position : Vector3 N) (velocity : Option (Vector3 N)) (s : Objects N c.Children)
      → IsInOrder c s
      → IsInOrder c (handle_position c built id position velocity s).0
  handle_position-IsInOrder id position velocity s (g, h) =
      let k = get_or_construct-IsConsistent c ic built id velocity s g in
      (
        unfold handle_position in
            record { distinct = k.distinct; older = k.older; shown = k.shown },
        handle_position-AreMoving c built id position velocity s g h,
      )

module _ (c : Container) (ic : IsContainer c) (d : Double) (built : Vector3 d.Num) where
  open d use {Num}

  moved-velocity : (delta : Num) (m : Mover Num) → (moved d delta m).velocity ≡ m.velocity
  unfolding moved
  moved-velocity delta m = elim (Option-cases m.velocity) [
    | inl e ↦ rw (e, moved, e) refl
    | inr (v, e) ↦ rw (e, moved, e) refl
  ]

  update_objects-AreMoving :
      (delta : Num) (s : Objects Num c.Children)
      → IsConsistent c s
      → AreMoving s.map s.movers
      → AreMoving s.map (move_all d delta s.map s.movers)
  update_objects-AreMoving delta s g h r e =
      let (m, v, em, ev) = h r e in
      (
        moved d delta m,
        v,
        rw (read-move_all d delta s.map s.movers r g.distinct, e, em) refl,
        moved-velocity delta m ∙ ev,
      )

  page_step-IsInOrder :
      (k : PageStep Num) (s : Objects Num c.Children)
      → IsInOrder c s
      → IsInOrder c (page_step c d built k s)
  unfolding page_step update_objects
  page_step-IsInOrder (message id position velocity) s h =
      handle_position-IsInOrder c ic built id position velocity s h
  page_step-IsInOrder (render delta) s (g, h) = (
    record { distinct = g.distinct; older = g.older; shown = g.shown },
    update_objects-AreMoving delta s g h,
  )

  page_steps_from-IsInOrder :
      (l : List (PageStep Num)) (s : Objects Num c.Children)
      → IsInOrder c s
      → IsInOrder c (page_steps c d built l s)
  unfolding page_steps
  page_steps_from-IsInOrder [] s h = h
  page_steps_from-IsInOrder (k ∷ l) s h =
      page_steps_from-IsInOrder l (page_step c d built k s) (page_step-IsInOrder k s h)

  new_objects-AreMoving : AreMoving (new_objects c {N = Num}).map (new_objects c {N = Num}).movers
  unfolding new_objects holds
  new_objects-AreMoving r e = absurd cc

  -- After any sequence of messages with positions and frames, the container shows exactly the
  -- objects of the map, none of which has two ids, and every one of them has a velocity, where
  -- `add` and `remove` of the container do what `IsContainer` says.
  pub page_steps-IsInOrder :
      (l : List (PageStep Num)) → IsInOrder c (page_steps c d built l (new_objects c))
  page_steps-IsInOrder l =
      page_steps_from-IsInOrder l (new_objects c)
        (new_objects-IsConsistent c ic, new_objects-AreMoving)
