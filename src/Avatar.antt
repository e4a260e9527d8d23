-- ===== src/Avatar.antt =====
-- `avatar_proto.js` and `avatar.js` of WebContent/scripts: what an avatar looks like. The page makes
-- the object of the first the prototype of the object of the second.
pub mod Color
use general_worldwide_execut.Prelude.{ℕ, List, [], ◌∷◌}
use general_worldwide_execut.Prelude.Int.{ℤ, pos}
use general_worldwide_execut.Prelude.Text.{Text, codes}
use general_worldwide_execut.Js.Bitwise.{and32, or32}
use general_worldwide_execut.Js.Double.{Double}
use general_worldwide_execut.Three.{Vector3}

-- The fields of avatar.js.
pub record AvatarData (N : Type 0) : Type 0 where
  pub size : Vector3 N
  pub id : Text
  pub protoid : Text
  pub segments : N

-- The geometries that the code passes to a mesh.
pub data Geometry (N : Type 0) : Type 0 where
  box : N → N → N → Geometry N
  sphere : N → N → Geometry N

pub record Mesh (N : Type 0) : Type 0 where
  pub geometry : Geometry N
  pub color : ℤ
  pub place : Vector3 N
  pub scale : Vector3 N

-- The node that `build` returns: its `userData` and its children.
pub record Subscene (N : Type 0) : Type 0 where
  pub user_data : AvatarData N
  pub children : List (Mesh N)

module _ (d : Double) where
  open d use {Num, of_int, div, mul, to_int32}

  abbrev pub whole : ℕ → Num
  whole n = of_int (pos n)

  abbrev pub vector : Num → Num → Num → Vector3 Num
  vector x y z = record { x = x; y = y; z = z }

  unfoldable pub avatar_data : AvatarData Num
  avatar_data = record {
    size = vector (whole 1) (whole 2) (whole 1);
    id = codes "none";
    protoid = codes "none";
    segments = whole 5;
  }

  -- `(userName * 123) & 0xFFFFFF | 0x0F0F0F`, of the number that the name is.
  unfoldable pub user_color : Num → ℤ
  unfolding and32 or32
  user_color name = or32 (and32 (to_int32 (mul name (whole 123))) (pos 16777215)) (pos 986895)

  -- `build(userName)` as a method of the data; 0.75 is 75 / 100.
  unfoldable pub build : AvatarData Num → Num → Subscene Num
  unfolding user_color
  build self name =
      let color = user_color name in
      let half = div (whole 1) (whole 2) in
      let height = div (whole 75) (whole 100) in
      let cube : Mesh Num = record {
        geometry = box half height half;
        color = color;
        place = vector (whole 0) (div height (whole 2)) (whole 0);
        scale = vector (whole 1) (whole 1) (whole 1);
      } in
      let head : Mesh Num = record {
        geometry = sphere half self.segments;
        color = color;
        place = vector (whole 0) (whole 1) (whole 0);
        scale = vector half (whole 1) half;
      } in
      record { user_data = self; children = cube ∷ head ∷ [] }
