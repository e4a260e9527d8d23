-- ===== src/QuadSpaces/Termination.antt =====
-- The loop of `decompose` ends: its fuel is enough for every vector.
use general_worldwide_execut.Prelude.{
  ℕ, zero, suc, ◌≤◌, ◌≡◌, true, ◌&&◌, List, [], ◌∷◌, some, arith, inl, inr, Bool-cases, length,
}
use general_worldwide_execut.Prelude.Int.{ℤ, pos, ◌+ℤ◌, ◌-ℤ◌}
use general_worldwide_execut.Prelude.Text.{Text}
use general_worldwide_execut.Js.Double.{Double, IsIeee}
use general_worldwide_execut.Js.Word.{IsInt32}
use general_worldwide_execut.QuadSpaces.{space_name, decompose_loop, decompose, is_zero}
use general_worldwide_execut.QuadSpaces.Axis.{
  digit, next, IsInLoop, next-IsInLoop, Fits, next-Fits, next-Fits-sixteen,
}
use general_worldwide_execut.Three.{Vector3}

-- A coordinate with `k` digits left.
pub record IsLeft (k : ℕ) (x : ℤ) : Type 0 where
  pub in_loop : IsInLoop x
  pub fits : Fits k x

next-IsLeft : (k : ℕ) (x : ℤ) → IsLeft (suc k) x → IsLeft k (next x)
next-IsLeft k x h = record {
  in_loop = next-IsInLoop x h.in_loop.word;
  fits = next-Fits k x h.in_loop h.fits;
}

-- No digit left is zero.
all_zero :
    (a b c : ℤ) → Fits 0 a → Fits 0 b → Fits 0 c → (is_zero a && is_zero b && is_zero c) ≡ true
all_zero a b c ha hb hc = ground arith

-- The loop ends with a list of at most `f` names.
abbrev Ends : ℕ → ℤ → ℤ → ℤ → ℤ → Type 0
Ends f x y z p =
    (l : List Text) × (decompose_loop f x y z p ≡ some l) × (1 ≤ length l) × (length l ≤ f)

Ends-suc :
    (f : ℕ) (x y z p : ℤ) → Ends f (next x) (next y) (next z) (p +ℤ pos 2) → Ends (suc f) x y z p
unfolding decompose_loop
Ends-suc f x y z p (l, e, lo, hi) =
    elim (Bool-cases (is_zero (next x) && is_zero (next y) && is_zero (next z))) [
      | inl t ↦ (
        space_name (digit x) (digit y) (digit z) p ∷ [],
        rw (t, decompose_loop),
        omega arith,
        omega arith,
      )
      | inr t ↦ (
        space_name (digit x) (digit y) (digit z) p ∷ l,
        rw (t, decompose_loop, e),
        omega arith,
        omega arith,
      )
    ]

decompose_loop-Ends :
    (f : ℕ) (x y z p : ℤ)
    → IsLeft (suc f) x
    → IsLeft (suc f) y
    → IsLeft (suc f) z
    → Ends (suc f) x y z p
unfolding decompose_loop
decompose_loop-Ends zero x y z p hx hy hz =
    let t =
      all_zero (next x) (next y) (next z) (next-IsLeft 0 x hx).fits (next-IsLeft 0 y hy).fits
        (next-IsLeft 0 z hz).fits in
    (
      space_name (digit x) (digit y) (digit z) p ∷ [],
      rw (t, decompose_loop),
      omega arith,
      omega arith,
    )
decompose_loop-Ends (suc f) x y z p hx hy hz = Ends-suc (suc f) x y z p (
    decompose_loop-Ends f (next x) (next y) (next z) (p +ℤ pos 2) (next-IsLeft (suc f) x hx)
      (next-IsLeft (suc f) y hy) (next-IsLeft (suc f) z hz))

next-IsLeft_first : (x : ℤ) → IsInt32 x → IsLeft 16 (next x)
next-IsLeft_first x w = record { in_loop = next-IsInLoop x w; fits = next-Fits-sixteen x w }

-- `decompose` returns, for every vector and every bias: its loop ends after at least one and at most
-- 17 rounds, one name each.
pub decompose_total :
    {d : Double} (ieee : IsIeee d) (v : Vector3 d.Num) (bias : ℤ)
    → (l : List Text) × (decompose d v bias ≡ some l) × (1 ≤ length l) × (length l ≤ 17)
unfolding decompose
decompose_total {d} ieee v bias =
    let power = d.pow2 (d.of_int (pos 0 -ℤ bias)) in
    let X = d.to_int32 (d.mul v.x power) in
    let Y = d.to_int32 (d.mul v.y power) in
    let Z = d.to_int32 (d.mul v.z power) in
    Ends-suc 16 X Y Z bias (
      decompose_loop-Ends 15 (next X) (next Y) (next Z) (bias +ℤ pos 2)
        (next-IsLeft_first X (ieee.to_int32_range _)) (next-IsLeft_first Y (ieee.to_int32_range _))
        (next-IsLeft_first Z (ieee.to_int32_range _)))
