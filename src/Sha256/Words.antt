-- ===== src/Sha256/Words.antt =====
-- The functions of the script on signed words are those of the standard on their patterns.
use Prim.Native.Nat.{bit_and}
use general_worldwide_execut.Prelude.{ℕ, ◌-◌, ◌*◌, ◌/◌, ◌%◌, ◌^◌, ◌<◌, ◌≡◌, ap, ◌∙◌, arith}
use general_worldwide_execut.Prelude.Int.{ℤ, pos, ◌+ℤ◌}
use general_worldwide_execut.Js.Bits.{bit_or_disjoint, bit_and_ones}
use general_worldwide_execut.Js.Bitwise.{
  to_uint32-lt, to_uint32-pos, to_uint32-and32, to_uint32-or32, to_uint32-xor32, to_uint32-not32,
  to_uint32-shl, to_uint32-ushr, to_uint32-+ℤ,
}
use general_worldwide_execut.Js.Word.{to_uint32}
use general_worldwide_execut.Sha256.{
  cut, rotr, big_sigma0, big_sigma1, small_sigma0, small_sigma1, choose, majority,
}
use general_worldwide_execut.Sha256.Fips.{
  rotate, upper_sigma0, upper_sigma1, lower_sigma0, lower_sigma1, ch, maj, plus,
}

pub to_uint32-cut : (x : ℤ) → to_uint32 (cut x) ≡ to_uint32 x
unfolding cut
to_uint32-cut x =
    to_uint32-and32 x (pos 0xffffffff)
    ∙ ap (bit_and (to_uint32 x)) (to_uint32-pos 0xffffffff (omega arith))
    ∙ bit_and_ones 32 (to_uint32 x) (to_uint32-lt x)

pub to_uint32-cut-+ℤ : (x y : ℤ) → to_uint32 (cut (x +ℤ y)) ≡ plus (to_uint32 x) (to_uint32 y)
to_uint32-cut-+ℤ x y = to_uint32-cut (x +ℤ y) ∙ to_uint32-+ℤ x y

-- For a shift by `n`, where arithmetic at `n` gives the two premises.
to_uint32-rotr :
    (n : ℕ) (x : ℤ)
    → to_uint32 x * 2 ^ (32 - n) % 2 ^ 32 ≡ to_uint32 x % 2 ^ n * 2 ^ (32 - n)
    → to_uint32 x / 2 ^ n < 2 ^ (32 - n)
    → to_uint32 (rotr n x) ≡ rotate n (to_uint32 x)
unfolding rotr
to_uint32-rotr n x e h =
    rw (to_uint32-or32, to_uint32-ushr, to_uint32-shl, e)
      (bit_or_disjoint (32 - n) (to_uint32 x / 2 ^ n) (to_uint32 x % 2 ^ n) h)

module _ (x : ℤ) where
  bound : to_uint32 x < 2 ^ 32
  bound = to_uint32-lt x

  pub to_uint32-big_sigma0 : to_uint32 (big_sigma0 x) ≡ upper_sigma0 (to_uint32 x)
  unfolding big_sigma0
  to_uint32-big_sigma0 = rw (
    to_uint32-xor32,
    to_uint32-xor32,
    to_uint32-rotr 2 x (omega arith) (omega (arith, bound)),
    to_uint32-rotr 13 x (omega arith) (omega (arith, bound)),
    to_uint32-rotr 22 x (omega arith) (omega (arith, bound)),
  )

  pub to_uint32-big_sigma1 : to_uint32 (big_sigma1 x) ≡ upper_sigma1 (to_uint32 x)
  unfolding big_sigma1
  to_uint32-big_sigma1 = rw (
    to_uint32-xor32,
    to_uint32-xor32,
    to_uint32-rotr 6 x (omega arith) (omega (arith, bound)),
    to_uint32-rotr 11 x (omega arith) (omega (arith, bound)),
    to_uint32-rotr 25 x (omega arith) (omega (arith, bound)),
  )

  pub to_uint32-small_sigma0 : to_uint32 (small_sigma0 x) ≡ lower_sigma0 (to_uint32 x)
  unfolding small_sigma0
  to_uint32-small_sigma0 = rw (
    to_uint32-xor32,
    to_uint32-xor32,
    to_uint32-rotr 7 x (omega arith) (omega (arith, bound)),
    to_uint32-rotr 18 x (omega arith) (omega (arith, bound)),
    to_uint32-ushr,
  )

  pub to_uint32-small_sigma1 : to_uint32 (small_sigma1 x) ≡ lower_sigma1 (to_uint32 x)
  unfolding small_sigma1
  to_uint32-small_sigma1 = rw (
    to_uint32-xor32,
    to_uint32-xor32,
    to_uint32-rotr 17 x (omega arith) (omega (arith, bound)),
    to_uint32-rotr 19 x (omega arith) (omega (arith, bound)),
    to_uint32-ushr,
  )

pub to_uint32-choose :
    (x y z : ℤ) → to_uint32 (choose x y z) ≡ ch (to_uint32 x) (to_uint32 y) (to_uint32 z)
unfolding choose
to_uint32-choose x y z = rw (to_uint32-xor32, to_uint32-and32, to_uint32-and32, to_uint32-not32)

pub to_uint32-majority :
    (x y z : ℤ) → to_uint32 (majority x y z) ≡ maj (to_uint32 x) (to_uint32 y) (to_uint32 z)
unfolding majority
to_uint32-majority x y z =
    rw (to_uint32-xor32, to_uint32-xor32, to_uint32-and32, to_uint32-and32, to_uint32-and32)
