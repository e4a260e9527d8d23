-- ===== src/Utf8.antt =====
-- `XXXXUtf8ArrayToStr` of WebContent/js/SHA256_veness.js, which reads an array of bytes as UTF-8.
pub mod Browser
pub mod Decoding
pub mod RoundTrip
use general_worldwide_execut.Prelude.{
  ℕ, zero, suc, ◌+◌, ◌/◌, ◌%◌, ◌^◌, List, [], ◌∷◌, Option, none, some, Bool, true, false, ◌||◌,
  ◌==◌, ltb, length, if◌then◌else◌,
}
use general_worldwide_execut.Prelude.Int.{ℤ, pos}
use general_worldwide_execut.Prelude.Text.{Text}
use general_worldwide_execut.Js.Bitwise.{and32, or32, shl}
use general_worldwide_execut.Js.Word.{to_uint32}

-- The cases of `switch (c >> 4)`; there is none for the bytes 0x80 to 0xBF and 0xF0 to 0xFF.
pub data Kind : Type 0 where
  one two three other : Kind

unfoldable pub kind : ℕ → Kind
kind c =
    let k = c / 16 in
    if ltb k 8 then one else if k == 12 || k == 13 then two else if k == 14 then three else other

-- `array[i++]`: past the end it is `undefined`, which the bit operators read as 0.
abbrev pub next_byte : List ℕ → ℕ
next_byte [] = 0
next_byte (c ∷ l) = c

abbrev pub after_byte : List ℕ → List ℕ
after_byte [] = []
after_byte (c ∷ l) = l

-- `String.fromCharCode(v)`
unfoldable pub char_code : ℤ → ℕ
unfolding to_uint32
char_code v = to_uint32 v % 2 ^ 16

unfoldable pub two_bytes : ℕ → ℕ → ℤ
unfolding and32 or32 shl
two_bytes c char2 = or32 (shl (and32 (pos c) (pos 0x1F)) 6) (and32 (pos char2) (pos 0x3F))

unfoldable pub three_bytes : ℕ → ℕ → ℕ → ℤ
unfolding and32 or32 shl
three_bytes c char2 char3 =
    or32 (or32 (shl (and32 (pos c) (pos 0x0F)) 12) (shl (and32 (pos char2) (pos 0x3F)) 6))
      (shl (and32 (pos char3) (pos 0x3F)) 0)

abbrev pub put_char : ℤ → Option Text → Option Text
put_char v none = none
put_char v (some out) = some (char_code v ∷ out)

-- The `while` loop on the rest of the array; `none` means that the fuel ran out.
unfoldable pub decode_loop : ℕ → List ℕ → Option Text
unfolding kind two_bytes three_bytes
decode_loop zero l = none
decode_loop (suc f) [] = some []
decode_loop (suc f) (c ∷ l) = elim (kind c) [
  | one ↦ put_char (pos c) (decode_loop f l)
  | two ↦ put_char (two_bytes c (next_byte l)) (decode_loop f (after_byte l))
  | three ↦
      put_char (three_bytes c (next_byte l) (next_byte (after_byte l)))
        (decode_loop f (after_byte (after_byte l)))
  | other ↦ decode_loop f l
]

-- Every round takes a byte.
unfoldable pub utf8_array_to_str : List ℕ → Option Text
unfolding decode_loop
utf8_array_to_str array = decode_loop (suc (length array)) array
