-- ===== src/Tests/Digest.antt =====
-- `Sha256` of WebContent/js/SHA256_veness.js on the test message of FIPS 180-4.
use general_worldwide_execut.Prelude.{
  ◌≡◌, refl, [], ◌∷◌, ◌++◌, some, arith, Bool, true, false, ◌&&◌, ltb, if◌then◌else◌,
}
use general_worldwide_execut.Prelude.Int.{pos, negsuc, ◌+ℤ◌}
use general_worldwide_execut.Prelude.Text.{Text, codes}
use general_worldwide_execut.Js.Word.{to_uint32}
use general_worldwide_execut.Js.Numeral.{parse_int}
use general_worldwide_execut.Sha256.Digest.{IsUri, hash-digest}
use general_worldwide_execut.Sha256.Fips.{digest}
use general_worldwide_execut.Sha256.HexText.{parse_int-to_hex_str}
use general_worldwide_execut.Sha256.Padding.{AllBytes}
use general_worldwide_execut.Utf8.Browser.{Uri, utf8_encode}
use general_worldwide_execut.Js.Outcome.{returned, thrown, ◌>>=◌}
use general_worldwide_execut.Utf8.Decoding.{encode, AllUnits}
use general_worldwide_execut.Utf8.RoundTrip.{
  Within, utf8_array_to_str-encode, utf8_array_to_str_total, decode_loop_four_bytes,
}
use general_worldwide_execut.Utf8.{utf8_array_to_str, decode_loop}
use general_worldwide_execut.Sha256.{hash, to_hex_str, hash_blocks, preprocess, initial_hash}

-- The functions of the browser on ASCII letters, which they leave as they are.
abbrev is_ascii : Text → Bool
is_ascii [] = true
is_ascii (c ∷ s) = ltb c 128 && is_ascii s

abbrev ascii : Uri
ascii = record {
  encode_uri_component = λ s. if is_ascii s then returned s else thrown;
  decode_uri_component = λ s. if is_ascii s then returned s else thrown;
  escape = λ s. s;
  unescape = λ s. s;
}

is_ascii-AllBytes : (s : Text) → is_ascii s ≡ true → AllBytes s
is_ascii-AllBytes [] h = tt
is_ascii-AllBytes (c ∷ s) h = ground (arith, is_ascii-AllBytes s)

only_ascii :
    (b : Bool) (s e : Text)
    → (b ≡ true → AllBytes s)
    → (if b then returned s else thrown) ≡ returned e
    → AllBytes e
only_ascii true s e k h = let same : s ≡ e = cc in rw (← same) (k refl)
only_ascii false s e k h = absurd cc

ascii-IsUri : IsUri ascii
ascii-IsUri = record {
  unescape-AllBytes = λ s e h. only_ascii (is_ascii s) s e (is_ascii-AllBytes s) h;
}

abc_word :
    to_hex_str (hash_blocks (preprocess (codes "abc" ++ 0x80 ∷ [])) initial_hash).a
    ≡ codes "ba7816bf"
unfolding to_hex_str hash_blocks preprocess ◌+ℤ◌
abc_word = refl

hash-digest_example :
    hash ascii (codes "abc") ≡ (utf8_encode ascii (codes "abc") >>= λ m. returned (digest m))
hash-digest_example = hash-digest ascii (codes "abc") ascii-IsUri

parse_int-to_hex_str_example :
    parse_int (codes "0x" ++ to_hex_str (negsuc 4)) ≡ some (pos (to_uint32 (negsuc 4)))
parse_int-to_hex_str_example = parse_int-to_hex_str (negsuc 4)

-- One unit of each length.
abbrev units : Text
units = 0x41 ∷ 0xE9 ∷ 0x20AC ∷ []

units-AllUnits : AllUnits units
units-AllUnits = (omega arith, (omega arith, (omega arith, tt)))

utf8_array_to_str-encode_example : utf8_array_to_str (encode units) ≡ some units
utf8_array_to_str-encode_example = utf8_array_to_str-encode units units-AllUnits

-- A sequence that is cut off.
utf8_array_to_str_total_example : Within 2 (utf8_array_to_str (0xE2 ∷ 0x82 ∷ []))
utf8_array_to_str_total_example = utf8_array_to_str_total (0xE2 ∷ 0x82 ∷ [])

-- The smile of four bytes between two letters.
decode_loop_four_bytes_example :
    decode_loop 7 (0xF0 ∷ 0x9F ∷ 0x98 ∷ 0x80 ∷ 0x42 ∷ []) ≡ decode_loop 3 (0x42 ∷ [])
decode_loop_four_bytes_example =
    decode_loop_four_bytes 3 0 31 24 0 (0x42 ∷ []) (omega arith) (omega arith) (omega arith)
      (omega arith)
