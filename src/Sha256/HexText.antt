-- ===== src/Sha256/HexText.antt =====
-- The hexadecimal text of a word is read back.
use general_worldwide_execut.Prelude.{
  ℕ, ◌+◌, ◌*◌, ◌/◌, ◌%◌, ◌^◌, ◌<◌, [], ◌∷◌, ◌++◌, some, ◌≡◌, refl, ap, arith,
}
use general_worldwide_execut.Prelude.Int.{ℤ, pos, pos_part}
use general_worldwide_execut.Prelude.Text.{Text, codes}
use general_worldwide_execut.Js.Bits.{bit_and-fifteen}
use general_worldwide_execut.Js.Bitwise.{and32, ushr, to_uint32-lt, to_uint32-ushr, to_uint32-pos}
use general_worldwide_execut.Js.Json.{hex}
use general_worldwide_execut.Js.Numeral.{
  digit_value, read_digits, read_number, read_magnitude, read_signed, parse_int, trim_left,
  is_space,
}
use general_worldwide_execut.Js.Word.{to_uint32}
use general_worldwide_execut.Sha256.Digest.{pos_part-signed32}
use general_worldwide_execut.Sha256.{hex_digits, to_hex_str}

digit_value-hex : (d : ℕ) → d < 16 → digit_value 16 (hex d) ≡ some d
unfolding digit_value hex
digit_value-hex d h = ground arith

read_digits-hex :
    (d n : ℕ) (s : Text) → d < 16 → read_digits 16 (hex d ∷ s) n ≡ read_digits 16 s (n * 16 + d)
unfolding read_digits
read_digits-hex d n s h = rw (digit_value-hex d h, read_digits)

read_number-hex :
    (d : ℕ) (s : Text) → d < 16 → read_number 16 (hex d ∷ s) ≡ some (read_digits 16 s d)
unfolding read_number
read_number-hex d s h = rw (digit_value-hex d h, read_number)

nibble : (n : ℤ) (k : ℕ) → pos_part (and32 (ushr n k) (pos 0xf)) ≡ to_uint32 n / 2 ^ k % 16
unfolding and32
nibble n k =
    rw (to_uint32-ushr n k, to_uint32-pos 15 (omega arith), bit_and-fifteen (to_uint32 n / 2 ^ k))
      (pos_part-signed32 _ (omega arith))

-- The digit of the place `k`, written and read.
abbrev place : ℤ → ℕ → ℕ
place n k = to_uint32 n / 2 ^ k % 16

place-lt : (n : ℤ) (k : ℕ) → place n k < 16
place-lt n k = omega arith

to_hex_str_places :
    (n : ℤ)
    → to_hex_str n
      ≡ hex (place n 28)
        ∷ hex (place n 24)
        ∷ hex (place n 20)
        ∷ hex (place n 16)
        ∷ hex (place n 12)
        ∷ hex (place n 8)
        ∷ hex (place n 4)
        ∷ hex (place n 0)
        ∷ []
unfolding to_hex_str hex_digits
to_hex_str_places n = rw (
  nibble n 28,
  nibble n 24,
  nibble n 20,
  nibble n 16,
  nibble n 12,
  nibble n 8,
  nibble n 4,
  nibble n 0,
)

places_value :
    (u : ℕ)
    → u < 2 ^ 32
    → ((((((u / 2 ^ 28 % 16 * 16 + u / 2 ^ 24 % 16) * 16 + u / 2 ^ 20 % 16) * 16 + u / 2 ^ 16 % 16)
                      * 16
                    + u / 2 ^ 12 % 16)
                  * 16
                + u / 2 ^ 8 % 16)
              * 16
            + u / 2 ^ 4 % 16)
          * 16
        + u / 2 ^ 0 % 16
      ≡ u
places_value u h = omega arith

read_magnitude_hex : (s : Text) → read_magnitude (b'0' ∷ b'x' ∷ s) ≡ read_number 16 s
unfolding read_magnitude
read_magnitude_hex s = refl

parse_int_hex :
    (s : Text) (n : ℕ) → read_number 16 s ≡ some n → parse_int (codes "0x" ++ s) ≡ some (pos n)
unfolding parse_int read_signed trim_left is_space
parse_int_hex s n e = rw (read_magnitude_hex s, e)

-- `parseInt` with the prefix `0x` reads from the text of `toHexStr` the unsigned value of the word.
pub parse_int-to_hex_str :
    (n : ℤ) → parse_int (codes "0x" ++ to_hex_str n) ≡ some (pos (to_uint32 n))
parse_int-to_hex_str n =
    let value = places_value (to_uint32 n) (to_uint32-lt n) in
    parse_int_hex (to_hex_str n) (to_uint32 n) (
      rw
        (
          to_hex_str_places n,
          read_number-hex (place n 28) _ (place-lt n 28),
          read_digits-hex (place n 24) _ _ (place-lt n 24),
          read_digits-hex (place n 20) _ _ (place-lt n 20),
          read_digits-hex (place n 16) _ _ (place-lt n 16),
          read_digits-hex (place n 12) _ _ (place-lt n 12),
          read_digits-hex (place n 8) _ _ (place-lt n 8),
          read_digits-hex (place n 4) _ _ (place-lt n 4),
          read_digits-hex (place n 0) _ _ (place-lt n 0),
        )
        (unfold read_digits in ap some value))
