-- ===== src/Axes.antt =====
-- `buildAxes` of WebContent/js/Axes.js: six lines from the origin.
use general_worldwide_execut.Prelude.{ℕ, Bool, true, false, List, [], ◌∷◌, if◌then◌else◌}
use general_worldwide_execut.Prelude.Int.{pos}
use general_worldwide_execut.Js.Double.{Double}
use general_worldwide_execut.Three.{Vector3, Three}

-- The two materials, with what the code passes to their constructors.
pub data Material (N : Type 0) : Type 0 where
  line_dashed : (linewidth color dash_size gap_size : N) → Material N
  line_basic : (linewidth color : N) → Material N

-- A line through the vertices of its geometry.
pub record Line (N : Type 0) : Type 0 where
  pub vertices : List (Vector3 N)
  pub has_distances : Bool
  pub material : Material N

module _ (d : Double) (t : Three d) where
  open d use {Num, of_int, neg}

  abbrev pub entire : ℕ → Num
  entire n = of_int (pos n)

  -- `buildAxis(src, dst, colorHex, dashed)`
  unfoldable pub build_axis : Vector3 Num → Vector3 Num → Num → Bool → Line Num
  build_axis src dst color_hex dashed = record {
    vertices = src ∷ dst ∷ [];
    has_distances = true;
    material =
        if dashed
        then line_dashed (entire 3) color_hex (entire 3) (entire 3)
        else line_basic (entire 3) color_hex;
  }

  -- The children that `buildAxes(length)` adds: 0xFF0000 is x, 0x00FF00 is y, and 0x0000FF is z.
  unfoldable pub build_axes : Num → List (Line Num)
  unfolding build_axis
  build_axes length =
      let o = entire 0 in
      let src = t.vector3 o o o in
      build_axis src (t.vector3 length o o) (entire 16711680) false
      ∷ build_axis src (t.vector3 (neg length) o o) (entire 16711680) true
      ∷ build_axis src (t.vector3 o length o) (entire 65280) false
      ∷ build_axis src (t.vector3 o (neg length) o) (entire 65280) true
      ∷ build_axis src (t.vector3 o o length) (entire 255) false
      ∷ build_axis src (t.vector3 o o (neg length)) (entire 255) true
      ∷ []
