-- ===== src/Js/Bitwise.antt =====
-- The bit operators of JavaScript on numbers that are integers: the operands are cut to 32 bits, and
-- the result is a signed word, but for `>>>`.
use Prim.Native.Nat.{bit_and, bit_or, bit_xor}
use native.Mathlib.Nat.{div-le_self}
use general_worldwide_execut.Prelude.{ℕ, ◌+◌, ◌-◌, ◌*◌, ◌/◌, ◌%◌, ◌^◌, ◌<◌, ◌≡◌, arith}
use general_worldwide_execut.Prelude.Int.{ℤ, pos, negsuc, pos_part, neg_part, ◌+ℤ◌, +ℤ_parts}
use general_worldwide_execut.Js.Bits.{bit_and-lt, bit_or-lt, bit_xor-lt}
use general_worldwide_execut.Js.Word.{to_uint32, signed32, to_int32}

-- `x & y`, `x | y`, `x ^ y` and `~x`
unfoldable pub and32 : ℤ → ℤ → ℤ
unfolding to_uint32 signed32
and32 x y = signed32 (bit_and (to_uint32 x) (to_uint32 y))

unfoldable pub or32 : ℤ → ℤ → ℤ
unfolding to_uint32 signed32
or32 x y = signed32 (bit_or (to_uint32 x) (to_uint32 y))

unfoldable pub xor32 : ℤ → ℤ → ℤ
unfolding to_uint32 signed32
xor32 x y = signed32 (bit_xor (to_uint32 x) (to_uint32 y))

unfoldable pub not32 : ℤ → ℤ
unfolding to_uint32 signed32
not32 x = signed32 (2 ^ 32 - 1 - to_uint32 x)

-- `x << k` and `x >>> k`, for `k` from 0 to 31
unfoldable pub shl : ℤ → ℕ → ℤ
unfolding to_uint32 signed32
shl x k = signed32 (to_uint32 x * 2 ^ k % 2 ^ 32)

unfoldable pub ushr : ℤ → ℕ → ℤ
unfolding to_uint32
ushr x k = pos (to_uint32 x / 2 ^ k)

pub to_uint32-lt : (x : ℤ) → to_uint32 x < 2 ^ 32
unfolding to_uint32
to_uint32-lt (pos n) = omega arith
to_uint32-lt (negsuc n) = omega arith

-- A pattern is recovered from its signed word.
pub to_uint32-signed32 : (u : ℕ) → u < 2 ^ 32 → to_uint32 (signed32 u) ≡ u
unfolding to_uint32 signed32
to_uint32-signed32 u h = ground arith

pub to_uint32-to_int32 : (x : ℤ) → to_uint32 (to_int32 x) ≡ to_uint32 x
unfolding to_int32
to_uint32-to_int32 x = to_uint32-signed32 (to_uint32 x) (to_uint32-lt x)

pub to_uint32-pos : (n : ℕ) → n < 2 ^ 32 → to_uint32 (pos n) ≡ n
unfolding to_uint32
to_uint32-pos n h = omega arith

pub to_uint32-and32 : (x y : ℤ) → to_uint32 (and32 x y) ≡ bit_and (to_uint32 x) (to_uint32 y)
unfolding and32
to_uint32-and32 x y =
    to_uint32-signed32 _
      (bit_and-lt 32 (to_uint32 x) (to_uint32 y) (to_uint32-lt x) (to_uint32-lt y))

pub to_uint32-or32 : (x y : ℤ) → to_uint32 (or32 x y) ≡ bit_or (to_uint32 x) (to_uint32 y)
unfolding or32
to_uint32-or32 x y =
    to_uint32-signed32 _
      (bit_or-lt 32 (to_uint32 x) (to_uint32 y) (to_uint32-lt x) (to_uint32-lt y))

pub to_uint32-xor32 : (x y : ℤ) → to_uint32 (xor32 x y) ≡ bit_xor (to_uint32 x) (to_uint32 y)
unfolding xor32
to_uint32-xor32 x y =
    to_uint32-signed32 _
      (bit_xor-lt 32 (to_uint32 x) (to_uint32 y) (to_uint32-lt x) (to_uint32-lt y))

pub to_uint32-not32 : (x : ℤ) → to_uint32 (not32 x) ≡ 2 ^ 32 - 1 - to_uint32 x
unfolding not32
to_uint32-not32 x = to_uint32-signed32 _ (omega (arith, to_uint32-lt x))

pub to_uint32-shl : (x : ℤ) (k : ℕ) → to_uint32 (shl x k) ≡ to_uint32 x * 2 ^ k % 2 ^ 32
unfolding shl
to_uint32-shl x k = to_uint32-signed32 _ (omega arith)

pub to_uint32-ushr : (x : ℤ) (k : ℕ) → to_uint32 (ushr x k) ≡ to_uint32 x / 2 ^ k
unfolding ushr
to_uint32-ushr x k =
    to_uint32-pos _ (omega (arith, div-le_self (to_uint32 x) (2 ^ k), to_uint32-lt x))

-- The difference of the parts, modulo 2 ^ 32.
to_uint32_parts : (x : ℤ) → to_uint32 x ≡ (pos_part x + (2 ^ 32 - neg_part x % 2 ^ 32)) % 2 ^ 32
unfolding to_uint32
to_uint32_parts (pos n) = omega arith
to_uint32_parts (negsuc n) = omega arith

pub to_uint32-+ℤ : (x y : ℤ) → to_uint32 (x +ℤ y) ≡ (to_uint32 x + to_uint32 y) % 2 ^ 32
to_uint32-+ℤ x y =
    omega (arith, to_uint32_parts x, to_uint32_parts y, to_uint32_parts (x +ℤ y), +ℤ_parts x y)
