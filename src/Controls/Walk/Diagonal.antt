-- ===== src/Controls/Walk/Diagonal.antt =====
-- The step of two keys at once.
use general_worldwide_execut.Prelude.{◌≡◌, refl, true, false}
use general_worldwide_execut.Controls.Keys.{Keys, released}
use general_worldwide_execut.Controls.Walk.{Walker, walk}
use general_worldwide_execut.Js.Double.{Double}
use general_worldwide_execut.Three.{Vector3}
use general_worldwide_execut.Three.Object3d.{Object3d}

module _ (d : Double) (three : Object3d d) where
  -- The walk while only the keys of a set are held.
  abbrev pub walk_with :
      Keys → d.Num → d.Num → Walker d.Num → Vector3 d.Num → three.Body → three.Body
  walk_with keys speed auto_speed c =
      walk d three speed auto_speed
        (record c { keys = keys; settings = record c.settings { auto_forward = false } })

  abbrev pub left_only : Keys
  left_only = record released { left = true }

  abbrev pub forward_only : Keys
  forward_only = record released { forward = true }

  abbrev pub forward_left : Keys
  forward_left = record released { forward = true; left = true }

  -- With the keys for forward and left held, and no other and no auto-forward, the object walks
  -- forward as with the first key alone, and then left as with the second alone, but by a look vector
  -- that the speed of the first walk has scaled already.
  pub walk-forward_left :
      (speed auto_speed : d.Num) (c : Walker d.Num) (look : Vector3 d.Num) (body : three.Body)
      → walk_with forward_left speed auto_speed c look body
        ≡ walk_with left_only speed auto_speed c
            (three.multiply_scalar (d.add speed auto_speed) look)
            (walk_with forward_only speed auto_speed c look body)
  unfolding walk
  walk-forward_left speed auto_speed c look body = refl
