-- ===== src/Three.antt =====
-- What the scripts use of THREE.Vector3 (WebContent/js/three.js, a copy of three.js): the
-- constructor and `add`.
pub mod Object3d
use general_worldwide_execut.Prelude.{◌≡◌}
use general_worldwide_execut.Prelude.Int.{ℤ}
use general_worldwide_execut.Js.Double.{Double}

pub record Vector3 (A : Type 0) : Type 0 where
  pub x : A
  pub y : A
  pub z : A

pub record Three (d : Double) : Type 0 where
  pub vector3 : d.Num → d.Num → d.Num → Vector3 d.Num
  pub add : Vector3 d.Num → Vector3 d.Num → Vector3 d.Num

pub record IsThree {d : Double} (t : Three d) : Type 0 where
  pub vector3_int :
      (a b c : ℤ)
      → t.vector3 (d.of_int a) (d.of_int b) (d.of_int c)
        ≡ record { x = d.of_int a; y = d.of_int b; z = d.of_int c }
  pub add_lem :
      (u v : Vector3 d.Num)
      → t.add u v ≡ record { x = d.add u.x v.x; y = d.add u.y v.y; z = d.add u.z v.z }
