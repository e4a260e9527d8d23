-- ===== src/Three/Object3d.antt =====
-- What the controls use of THREE.Object3D and THREE.Math (WebContent/js/three.js).
use general_worldwide_execut.Js.Double.{Double}
use general_worldwide_execut.Three.{Vector3}

pub record Object3d (d : Double) : Type 1 where
  pub Body : Type 0
  pub position : Body → Vector3 d.Num
  pub set_position : Vector3 d.Num → Body → Body
  pub translate_x : d.Num → Body → Body
  pub translate_y : d.Num → Body → Body
  pub translate_z : d.Num → Body → Body
  pub look_at : Vector3 d.Num → Body → Body
  pub clamp : d.Num → d.Num → d.Num → d.Num
  pub deg_to_rad : d.Num → d.Num
  pub map_linear : d.Num → d.Num → d.Num → d.Num → d.Num → d.Num
  pub normalize : Vector3 d.Num → Vector3 d.Num
  pub multiply_scalar : d.Num → Vector3 d.Num → Vector3 d.Num
  pub sub_vectors : Vector3 d.Num → Vector3 d.Num → Vector3 d.Num
