-- ===== src/QuadSpaces/RoundTrip.antt =====
-- `reconstitute` undoes `decompose`.
use general_worldwide_execut.Prelude.{
  ℕ, ◌+◌, ◌-◌, ◌*◌, ◌^◌, ◌≤◌, ◌<◌, ◌≡◌, refl, sym, ap, ◌∙◌, List, some, true, false, arith, inl,
  inr, dec_lt, if◌then◌else◌,
}
use general_worldwide_execut.Prelude.Int.{
  ℤ, pos, negsuc, pos_part, neg_part, ◌+ℤ◌, ◌-ℤ◌, scale, leb_ℤ, +ℤ_parts, -ℤ_parts, scale_parts,
  eq_of_parts, int_laws,
}
use general_worldwide_execut.Prelude.Text.{Text}
use general_worldwide_execut.Js.Double.{Double, IsIeee}
use general_worldwide_execut.Js.Outcome.{returned}
use general_worldwide_execut.Js.Word.{IsInt32}
use general_worldwide_execut.QuadSpaces.{add_corners, decompose, reconstitute, decompose_loop}
use general_worldwide_execut.QuadSpaces.Axis.{
  digit, next, next-digit, next-IsInLoop, next-digit_top,
}
use general_worldwide_execut.QuadSpaces.Sum.{
  IsBias, IsPartial, add_digit, add_digit-IsPartial, scaled_vector, decompose_loop-eq-some,
  add_corners-space_name, add_corners-decompose_loop, add-scale-zero,
}
use general_worldwide_execut.QuadSpaces.Termination.{decompose_total}
use general_worldwide_execut.Three.{Vector3, Three, IsThree}

-- A coordinate in units of 2 ^ bias, cut to a 32-bit word, as `decompose` computes it.
abbrev pub word : (d : Double) → d.Num → ℤ → ℤ
word d a bias = d.to_int32 (d.mul a (d.pow2 (d.of_int (pos 0 -ℤ bias))))

-- The word that the names hold: the word itself, but the two greatest words wrap around.
abbrev pub recovered : ℤ → ℤ
recovered x = if leb_ℤ (pos (2 ^ 31 - 2)) x then x -ℤ pos (2 ^ 32) else x

-- What the first round adds and leaves.
first_sum :
    (x r : ℤ)
    → pos_part r + (neg_part (digit x) + 4 * neg_part (next x))
      ≡ neg_part r + (pos_part (digit x) + 4 * pos_part (next x))
    → add_digit 0 (pos 0) x +ℤ scale (4 ^ 1) (next x) ≡ r
first_sum x r e = eq_of_parts _ _ (
    omega (
      arith,
      +ℤ_parts (add_digit 0 (pos 0) x) (scale (4 ^ 1) (next x)),
      +ℤ_parts (pos 0) (scale (4 ^ 0) (digit x)),
      scale_parts (4 ^ 1) (next x),
      scale_parts (4 ^ 0) (digit x),
    ))

pub recovered-low : (x : ℤ) → pos_part x < 2 ^ 31 - 2 → recovered x ≡ x
recovered-low x h = let e : leb_ℤ (pos (2 ^ 31 - 2)) x ≡ false = ground arith in rw e

pub recovered-top : (n : ℕ) → 2 ^ 31 - 2 ≤ n → recovered (pos n) ≡ pos n -ℤ pos (2 ^ 32)
recovered-top n h = let e : leb_ℤ (pos (2 ^ 31 - 2)) (pos n) ≡ true = ground arith in rw e

pub first_round :
    (x : ℤ) → IsInt32 x → add_digit 0 (pos 0) x +ℤ scale (4 ^ 1) (next x) ≡ recovered x
first_round (negsuc n) w =
    first_sum (negsuc n) (negsuc n) (next-digit (negsuc n) w (omega arith))
    ∙ sym (recovered-low (negsuc n) (omega arith))
first_round (pos n) w = elim (dec_lt n (2 ^ 31 - 2)) [
  | yes h ↦ first_sum (pos n) (pos n) (next-digit (pos n) w h) ∙ sym (recovered-low (pos n) h)
  | no h ↦
      let high : 2 ^ 31 - 2 ≤ n = omega arith in
      let wrapped = -ℤ_parts (pos n) (pos (2 ^ 32)) in
      first_sum (pos n) (pos n -ℤ pos (2 ^ 32))
        (omega (arith, wrapped, next-digit_top n high w.upper))
      ∙ sym (recovered-top n high)
]

first_last : (x : ℤ) → IsInt32 x → next x ≡ pos 0 → add_digit 0 (pos 0) x ≡ recovered x
first_last x w e =
    sym (add-scale-zero (4 ^ 1) (add_digit 0 (pos 0) x))
    ∙ ap (λ t. add_digit 0 (pos 0) x +ℤ scale (4 ^ 1) t) (sym e)
    ∙ first_round x w

bias_start : {bias : ℤ} → bias +ℤ pos 0 ≡ bias
bias_start = omega int_laws

start-IsPartial : (x : ℤ) → IsInt32 x → IsPartial 0 (pos 0) x
start-IsPartial x w = record { small = omega arith; word = w }

module _ {d : Double} (ieee : IsIeee d) {three : Three d} (vectors : IsThree three) where
  starts :
      (bias : ℤ)
      → IsBias bias
      → (l : List Text)
      → reconstitute d three l
        ≡ add_corners d three l (scaled_vector ieee (pos 0) (pos 0) (pos 0) bias)
  unfolding reconstitute
  starts bias hb l = rw (vectors.vector3_int, ← ieee.scaled-zero bias (omega arith))

  reconstitute-names :
      (bias x y z : ℤ) (l : List Text)
      → IsBias bias
      → IsInt32 x
      → IsInt32 y
      → IsInt32 z
      → decompose_loop 17 x y z bias ≡ some l
      → add_corners d three l (scaled_vector ieee (pos 0) (pos 0) (pos 0) bias)
        ≡ returned (scaled_vector ieee (recovered x) (recovered y) (recovered z) bias)
  reconstitute-names bias x y z l hb wx wy wz e =
      let (l', split, rest) = decompose_loop-eq-some 16 x y z bias l e in
      let px = start-IsPartial x wx in
      let py = start-IsPartial y wy in
      let pz = start-IsPartial z wz in
      let one =
        add_corners-space_name ieee vectors bias hb 0 (pos 0) (pos 0) (pos 0) x y z l' (omega arith)
          px py pz in
      ap (λ t. add_corners d three t (scaled_vector ieee (pos 0) (pos 0) (pos 0) bias)) split
      ∙ (rw bias_start at one)
      ∙ elim rest [
        | inl (stop, ex, ey, ez) ↦
            rw (stop, first_last x wx ex, first_last y wy ey, first_last z wz ez)
              (unfold add_corners in refl)
        | inr ran ↦ rw (
          add_corners-decompose_loop ieee vectors bias hb 16 1 (add_digit 0 (pos 0) x)
              (add_digit 0 (pos 0) y) (add_digit 0 (pos 0) z) (next x) (next y) (next z) l'
              (omega arith) (add_digit-IsPartial 0 (pos 0) x px)
              (add_digit-IsPartial 0 (pos 0) y py) (add_digit-IsPartial 0 (pos 0) z pz)
              (next-IsInLoop x wx) (next-IsInLoop y wy) (next-IsInLoop z wz) ran,
          first_round x wx,
          first_round y wy,
          first_round z wz,
        )
      ]

  -- For every vector and every bias from -60 to 800, `decompose` returns names, and `reconstitute`
  -- adds them to the vector of the three words that `decompose` cut the coordinates to, in units of
  -- 2 ^ bias: each word exactly, except that the two greatest 32-bit words come back less 2 ^ 32.
  pub reconstitute-decompose :
      (v : Vector3 d.Num) (bias : ℤ)
      → IsBias bias
      → (l : List Text) × (decompose d v bias ≡ some l)
        × (reconstitute d three l
            ≡ returned (
                scaled_vector ieee
                  (recovered (word d v.x bias))
                  (recovered (word d v.y bias))
                  (recovered (word d v.z bias))
                  bias))
  unfolding decompose
  reconstitute-decompose v bias hb =
      let (l, e, lo, hi) = decompose_total ieee v bias in
      (
        l,
        e,
        starts bias hb l
            ∙ reconstitute-names bias (word d v.x bias) (word d v.y bias) (word d v.z bias) l hb
                (ieee.to_int32_range _) (ieee.to_int32_range _) (ieee.to_int32_range _) e,
      )
