-- ===== src/QuadSpaces/Accessors.antt =====
-- `QuadSpaces.vector` and the readers of its coordinates.
use general_worldwide_execut.Js.Double.{Double}
use general_worldwide_execut.Three.{Vector3, Three}

module _ (d : Double) where
  -- `QuadSpaces.vector(x, y, z)`
  unfoldable pub vector : Three d → d.Num → d.Num → d.Num → Vector3 d.Num
  vector t x y z = t.vector3 x y z

  -- `QuadSpaces.getX(vector)` and its two siblings
  unfoldable pub get_x : Vector3 d.Num → d.Num
  get_x v = v.x

  unfoldable pub get_y : Vector3 d.Num → d.Num
  get_y v = v.y

  unfoldable pub get_z : Vector3 d.Num → d.Num
  get_z v = v.z
