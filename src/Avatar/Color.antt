-- ===== src/Avatar/Color.antt =====
-- The colour of an avatar, channel by channel.
use Prim.Native.Nat.{bit_and, bit_or}
use general_worldwide_execut.Prelude.{ℕ, ◌/◌, ◌%◌, ◌+◌, ◌*◌, ◌^◌, ◌<◌, ◌≡◌, refl, arith}
use general_worldwide_execut.Prelude.Int.{pos}
use general_worldwide_execut.Js.Bits.{bit_and_step, bit_or_step, bit_and-byte, bit_or_disjoint}
use general_worldwide_execut.Js.Bitwise.{and32, or32, to_uint32-and32, to_uint32-pos}
use general_worldwide_execut.Js.Double.{Double}
use general_worldwide_execut.Js.Word.{to_uint32, signed32}
use general_worldwide_execut.Avatar.{user_color, whole}

-- A pattern without its low byte.
abbrev byte_above : ℕ → ℕ
byte_above a = a / 2 / 2 / 2 / 2 / 2 / 2 / 2 / 2

bit_and_odd : (a m : ℕ) → m % 2 ≡ 1 → bit_and a m ≡ bit_and (a / 2) (m / 2) * 2 + a % 2
bit_and_odd a m h = omega (arith, bit_and_step a m)

bit_or_odd : (a m : ℕ) → m % 2 ≡ 1 → bit_or a m ≡ bit_or (a / 2) (m / 2) * 2 + 1
bit_or_odd a m h = omega (arith, bit_or_step a m)

bit_or_even : (a m : ℕ) → m % 2 ≡ 0 → bit_or a m ≡ bit_or (a / 2) (m / 2) * 2 + a % 2
bit_or_even a m h = omega (arith, bit_or_step a m)

-- The mask and the pattern of the colour, a byte at a time.
and_low : (a : ℕ) → bit_and a 16777215 ≡ bit_and (byte_above a) 65535 * 256 + a % 256
and_low a = omega (
  arith,
  bit_and_odd a 16777215 refl,
  bit_and_odd (a / 2) 8388607 refl,
  bit_and_odd (a / 2 / 2) 4194303 refl,
  bit_and_odd (a / 2 / 2 / 2) 2097151 refl,
  bit_and_odd (a / 2 / 2 / 2 / 2) 1048575 refl,
  bit_and_odd (a / 2 / 2 / 2 / 2 / 2) 524287 refl,
  bit_and_odd (a / 2 / 2 / 2 / 2 / 2 / 2) 262143 refl,
  bit_and_odd (a / 2 / 2 / 2 / 2 / 2 / 2 / 2) 131071 refl,
)

and_middle : (a : ℕ) → bit_and a 65535 ≡ bit_and (byte_above a) 255 * 256 + a % 256
and_middle a = omega (
  arith,
  bit_and_odd a 65535 refl,
  bit_and_odd (a / 2) 32767 refl,
  bit_and_odd (a / 2 / 2) 16383 refl,
  bit_and_odd (a / 2 / 2 / 2) 8191 refl,
  bit_and_odd (a / 2 / 2 / 2 / 2) 4095 refl,
  bit_and_odd (a / 2 / 2 / 2 / 2 / 2) 2047 refl,
  bit_and_odd (a / 2 / 2 / 2 / 2 / 2 / 2) 1023 refl,
  bit_and_odd (a / 2 / 2 / 2 / 2 / 2 / 2 / 2) 511 refl,
)

or_low : (a : ℕ) → bit_or a 986895 ≡ bit_or (byte_above a) 3855 * 256 + (a / 16 % 16 * 16 + 15)
or_low a = omega (
  arith,
  bit_or_odd a 986895 refl,
  bit_or_odd (a / 2) 493447 refl,
  bit_or_odd (a / 2 / 2) 246723 refl,
  bit_or_odd (a / 2 / 2 / 2) 123361 refl,
  bit_or_even (a / 2 / 2 / 2 / 2) 61680 refl,
  bit_or_even (a / 2 / 2 / 2 / 2 / 2) 30840 refl,
  bit_or_even (a / 2 / 2 / 2 / 2 / 2 / 2) 15420 refl,
  bit_or_even (a / 2 / 2 / 2 / 2 / 2 / 2 / 2) 7710 refl,
)

or_middle : (a : ℕ) → bit_or a 3855 ≡ bit_or (byte_above a) 15 * 256 + (a / 16 % 16 * 16 + 15)
or_middle a = omega (
  arith,
  bit_or_odd a 3855 refl,
  bit_or_odd (a / 2) 1927 refl,
  bit_or_odd (a / 2 / 2) 963 refl,
  bit_or_odd (a / 2 / 2 / 2) 481 refl,
  bit_or_even (a / 2 / 2 / 2 / 2) 240 refl,
  bit_or_even (a / 2 / 2 / 2 / 2 / 2) 120 refl,
  bit_or_even (a / 2 / 2 / 2 / 2 / 2 / 2) 60 refl,
  bit_or_even (a / 2 / 2 / 2 / 2 / 2 / 2 / 2) 30 refl,
)

or_high : (a : ℕ) → a < 256 → bit_or a 15 ≡ a / 16 * 16 + 15
or_high a h = omega (
  arith,
  bit_or_odd a 15 refl,
  bit_or_odd (a / 2) 7 refl,
  bit_or_odd (a / 2 / 2) 3 refl,
  bit_or_odd (a / 2 / 2 / 2) 1 refl,
  bit_or_disjoint 8 (a / 2 / 2 / 2 / 2) 0 (omega arith),
)

-- A channel whose low four digits are set.
abbrev pub lift : ℕ → ℕ
lift c = c / 16 * 16 + 15

masked : (u : ℕ) → bit_and u 16777215 ≡ u % 16777216
masked u =
    omega (arith, and_low u, and_middle (byte_above u), bit_and-byte (byte_above (byte_above u)))

lifted :
    (a : ℕ)
    → a < 16777216
    → bit_or a 986895 ≡ lift (a / 65536) * 65536 + lift (a / 256 % 256) * 256 + lift (a % 256)
lifted a h =
    omega
      (arith, or_low a, or_middle (byte_above a), or_high (byte_above (byte_above a)) (omega arith))

-- A word below 2 ^ 31 is its own signed word.
signed32_low : (u : ℕ) → u < 2 ^ 31 → signed32 u ≡ pos u
unfolding signed32
signed32_low u h = ground arith

module _ (d : Double) where
  open d use {mul, to_int32}

  -- The colour of a user is, of the low 24 bits of the name times 123, each of the three channels
  -- with its low four bits set: no channel is darker than 15 or above 255.
  pub user_color-lift :
      (name : d.Num)
      → let u = to_uint32 (to_int32 (mul name (whole d 123))) in
        user_color d name
        ≡ pos (lift (u / 65536 % 256) * 65536 + lift (u / 256 % 256) * 256 + lift (u % 256))
  unfolding user_color or32
  user_color-lift name =
      let x = to_int32 (mul name (whole d 123)) in
      let u = to_uint32 x in
      let m = masked u in
      let l = lifted (u % 16777216) (omega arith) in
      let pattern : bit_or (to_uint32 (and32 x (pos 16777215))) (to_uint32 (pos 986895))
          ≡ lift (u / 65536 % 256) * 65536 + lift (u / 256 % 256) * 256 + lift (u % 256) =
        rw
          (
            to_uint32-and32 x (pos 16777215),
            to_uint32-pos 16777215 (omega arith),
            m,
            to_uint32-pos 986895 (omega arith),
            l,
          )
          (omega arith) in
      rw pattern (signed32_low _ (omega arith))
