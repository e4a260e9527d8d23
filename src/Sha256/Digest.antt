-- ===== src/Sha256/Digest.antt =====
-- The whole hash against the standard.
use general_worldwide_execut.Prelude.{
  ℕ, ◌/◌, ◌%◌, ◌^◌, ◌<◌, [], ◌∷◌, ◌++◌, ◌≡◌, refl, sym, ap, ◌∙◌, inl, inr, arith,
}
use general_worldwide_execut.Prelude.Int.{ℤ, pos_part}
use general_worldwide_execut.Prelude.Text.{Text}
use general_worldwide_execut.Js.Bits.{bit_and-byte}
use general_worldwide_execut.Js.Bitwise.{and32, to_uint32-ushr, to_uint32-pos}
use general_worldwide_execut.Js.Word.{to_uint32, signed32}
use general_worldwide_execut.Js.Outcome.{returned, ◌>>=◌, Outcome-cases}
use general_worldwide_execut.Sha256.Fips.{
  blocks, words, padded, big_endian, hash_bytes, digest, digest_blocks, initial_words,
}
use general_worldwide_execut.Sha256.Padding.{AllBytes, map-preprocess}
use general_worldwide_execut.Sha256.Rounds.{patterns, patterns-hash_blocks}
use general_worldwide_execut.Sha256.{
  Hash, byte_of, to_binary_str, hash_blocks, preprocess, initial_hash, hash_text, hash,
}
use general_worldwide_execut.Utf8.Browser.{Uri, utf8_encode}

-- A signed word that holds a small pattern is that number.
pub pos_part-signed32 : (u : ℕ) → u < 2 ^ 31 → pos_part (signed32 u) ≡ u
unfolding signed32
pos_part-signed32 u h = ground arith

byte_of_lem : (n : ℤ) (k : ℕ) → byte_of n k ≡ to_uint32 n / 2 ^ k % 256
unfolding byte_of and32
byte_of_lem n k =
    rw (to_uint32-ushr n k, to_uint32-pos 255 (omega arith), bit_and-byte (to_uint32 n / 2 ^ k))
      (pos_part-signed32 _ (omega arith))

to_binary_str-big_endian : (n : ℤ) → to_binary_str n ≡ big_endian (to_uint32 n)
unfolding to_binary_str
to_binary_str-big_endian n =
    let last : to_uint32 n / 2 ^ 0 % 256 ≡ to_uint32 n % 256 = omega arith in
    rw (byte_of_lem n 24, byte_of_lem n 16, byte_of_lem n 8, byte_of_lem n 0, last)

initial-patterns : patterns initial_hash ≡ initial_words
unfolding to_uint32 initial_words
initial-patterns = refl

hash_text-hash_bytes : (s : Hash ℤ) → hash_text s ≡ hash_bytes (patterns s)
unfolding hash_text
hash_text-hash_bytes s = rw (
  to_binary_str-big_endian s.a,
  to_binary_str-big_endian s.b,
  to_binary_str-big_endian s.c,
  to_binary_str-big_endian s.d,
  to_binary_str-big_endian s.e,
  to_binary_str-big_endian s.f,
  to_binary_str-big_endian s.g,
  to_binary_str-big_endian s.h,
)

digest_lem :
    (m : Text) → digest m ≡ hash_bytes (digest_blocks (blocks (words (padded m))) initial_words)
unfolding digest
digest_lem m = refl

-- The escapes of an encoded text stand for bytes.
pub record IsUri (u : Uri) : Type 0 where
  pub unescape-AllBytes :
      (s e : Text) → u.encode_uri_component s ≡ returned e → AllBytes (u.unescape e)

hash_text-digest :
    (m : Text)
    → AllBytes m
    → hash_text (hash_blocks (preprocess (m ++ 0x80 ∷ [])) initial_hash) ≡ digest m
hash_text-digest m h =
    hash_text-hash_bytes (hash_blocks (preprocess (m ++ 0x80 ∷ [])) initial_hash)
    ∙ ap hash_bytes (
        patterns-hash_blocks (preprocess (m ++ 0x80 ∷ [])) initial_hash
        ∙ ap (λ l. digest_blocks l (patterns initial_hash)) (map-preprocess m h)
        ∙ ap (digest_blocks _) initial-patterns)
    ∙ sym (digest_lem m)

-- `hash` is the digest that FIPS 180-4 defines, of the message as UTF-8, and throws where the
-- encoding of the message throws, if the escapes of an encoded text stand for bytes.
pub hash-digest :
    (u : Uri) (msg : Text) → IsUri u → hash u msg ≡ (utf8_encode u msg >>= λ m. returned (digest m))
unfolding hash utf8_encode
hash-digest u msg h = elim (Outcome-cases (u.encode_uri_component msg)) [
  | inl e ↦ rw e refl
  | inr (s, e) ↦ rw e (ap returned (hash_text-digest (u.unescape s) (h.unescape-AllBytes msg s e)))
]
