-- ===== src/Moving/Motion.antt =====
-- Each object moves once in a frame.
use general_worldwide_execut.Prelude.{
  ℕ, List, [], ◌∷◌, Option, none, some, true, false, ◌⊎◌, ◌==◌, ◌≡◌, refl, ◌∙◌, arith, inl, inr,
  Bool-cases, if◌then◌else◌, Option-cases,
}
use general_worldwide_execut.Prelude.Text.{Text}
use general_worldwide_execut.Js.Double.{Double}
use general_worldwide_execut.Three.{Vector3}
use general_worldwide_execut.Moving.{
  Mover, Objects, read, write, moved, move, move_all, update_objects,
}
use general_worldwide_execut.Moving.Refs.{holds, AreDistinct}

pub read-write :
    {N : Type 0} (l : List (ℕ × Mover N)) (p r : ℕ) (m : Mover N)
    → read (write l p m) r ≡ (if p == r then some m else read l r)
unfolding read write
read-write [] p r m = refl
read-write ((q, n) ∷ l) p r m = elim (Bool-cases (q == p)) [
  | inl e ↦ let same : q ≡ p = ground arith in rw (e, read, same) (ground arith)
  | inr e ↦ rw (e, read, read-write l p r m) (ground arith)
]

pub read-write_self :
    {N : Type 0} (l : List (ℕ × Mover N)) (r : ℕ) (m : Mover N) → read (write l r m) r ≡ some m
read-write_self l r m = read-write l r r m ∙ ground arith

abbrev pub map_mover : {N : Type 0} → (Mover N → Mover N) → Option (Mover N) → Option (Mover N)
map_mover f none = none
map_mover f (some m) = some (f m)

module _ (d : Double) where
  open d use {Num}

  read-move :
      (delta : Num) (p r : ℕ) (l : List (ℕ × Mover Num))
      → read (move d delta p l) r
        ≡ (if p == r then map_mover (moved d delta) (read l r) else read l r)
  unfolding move
  read-move delta p r l = elim (Bool-cases (p == r)) [
    | inl e ↦
        let same : p ≡ r = ground arith in
        rw (e, same)
          (elim (Option-cases (read l r)) [
            | inl g ↦ rw (g, move, g) refl
            | inr (m, g) ↦ rw (g, move, read-write l r r (moved d delta m)) (ground arith)
          ])
    | inr e ↦ (elim (Option-cases (read l p)) [
      | inl g ↦ rw (e, move, g) refl
      | inr (m, g) ↦ rw (move, g, read-write l p r (moved d delta m), e) refl
    ])
  ]

  pub read-move_all :
      (delta : Num) (map : List (Text × ℕ)) (l : List (ℕ × Mover Num)) (r : ℕ)
      → AreDistinct map
      → read (move_all d delta map l) r
        ≡ (if holds map r then map_mover (moved d delta) (read l r) else read l r)
  unfolding move_all holds
  read-move_all delta [] l r h = refl
  read-move_all delta ((k, p) ∷ map) l r (g, h) = elim (Bool-cases (p == r)) [
    | inl e ↦
        let same : p ≡ r = ground arith in
        let once : holds map r ≡ false = rw (← same) g in
        rw (read-move_all delta map (move d delta p l) r h, read-move delta p r l, once, e) refl
    | inr e ↦ rw (read-move_all delta map (move d delta p l) r h, read-move delta p r l, e) refl
  ]

  read-update_objects :
      {C : Type 0} (delta : Num) (s : Objects Num C) (r : ℕ)
      → AreDistinct s.map
      → read (update_objects d delta s).movers r
        ≡ (if holds s.map r then map_mover (moved d delta) (read s.movers r) else read s.movers r)
  unfolding update_objects
  read-update_objects delta s r h = read-move_all delta s.map s.movers r h

  -- The new place: the old one without a velocity, and else in each coordinate the old one plus the
  -- velocity times the seconds.
  abbrev pub IsPlacedBy : Num → Option (Vector3 Num) → Vector3 Num → Vector3 Num → Type 0
  IsPlacedBy delta none old new = new ≡ old
  IsPlacedBy delta (some v) old new =
      (new.x ≡ d.add old.x (d.mul v.x delta))
      × (new.y ≡ d.add old.y (d.mul v.y delta))
      × (new.z ≡ d.add old.z (d.mul v.z delta))

  moved-IsPlacedBy :
      (delta : Num) (m : Mover Num) → IsPlacedBy delta m.velocity m.place (moved d delta m).place
  unfolding moved
  moved-IsPlacedBy delta m = elim (Option-cases m.velocity) [
    | inl e ↦ rw (e, moved) refl
    | inr (v, e) ↦ rw (e, moved) (refl, refl, refl)
  ]

  moved-velocity : (delta : Num) (m : Mover Num) → (moved d delta m).velocity ≡ m.velocity
  unfolding moved
  moved-velocity delta m = elim (Option-cases m.velocity) [
    | inl e ↦ rw (e, moved, e) refl
    | inr (v, e) ↦ rw (e, moved, e) refl
  ]

  -- When no object has two ids, after `update` each object that was there is still there. If the map
  -- holds it, then each coordinate of its place is the one before plus the coordinate of its velocity
  -- times the seconds, or the place is as it was when it has no velocity, and its velocity is the same.
  -- If the map does not hold it, it is as it was.
  pub update_objects-IsPlacedBy :
      {C : Type 0} (delta : Num) (s : Objects Num C) (r : ℕ) (m : Mover Num)
      → AreDistinct s.map
      → read s.movers r ≡ some m
      → (m' : Mover Num) × (read (update_objects d delta s).movers r ≡ some m')
        × ((holds s.map r ≡ true)
              × IsPlacedBy delta m.velocity m.place m'.place
              × (m'.velocity ≡ m.velocity)
            ⊎ (holds s.map r ≡ false) × (m' ≡ m))
  update_objects-IsPlacedBy delta s r m h e = elim (Bool-cases (holds s.map r)) [
    | inl b ↦ (
      moved d delta m,
      read-update_objects delta s r h ∙ rw (b, e) refl,
      inl (b, moved-IsPlacedBy delta m, moved-velocity delta m),
    )
    | inr b ↦ (m, read-update_objects delta s r h ∙ rw (b, e) refl, inr (b, refl))
  ]
