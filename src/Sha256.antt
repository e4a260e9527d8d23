-- ===== src/Sha256.antt =====
-- `Sha256` of WebContent/js/SHA256_veness.js, which returns the digest as a string of bytes. The
-- numbers are integers that doubles hold exactly; `encodeURIComponent` is a parameter.
pub mod Fips
pub mod Words
pub mod Rounds
pub mod Padding
pub mod Digest
pub mod HexText
use general_worldwide_execut.Prelude.{
  ℕ, zero, suc, ◌+◌, ◌-◌, ◌*◌, ◌/◌, ◌%◌, ◌^◌, List, [], ◌∷◌, ◌++◌, Option, none, some, length,
  get_elem?, get_or, set,
}
use general_worldwide_execut.Prelude.Int.{ℤ, pos, pos_part, ◌+ℤ◌}
use general_worldwide_execut.Prelude.Text.{Text}
use general_worldwide_execut.Js.Bitwise.{and32, or32, xor32, not32, shl, ushr}
use general_worldwide_execut.Js.Json.{hex}
use general_worldwide_execut.Js.Outcome.{Outcome, returned, ◌>>=◌}
use general_worldwide_execut.Js.Word.{to_uint32}
use general_worldwide_execut.Utf8.Browser.{Uri, utf8_encode}

-- The eight variables of the hash, and those of a round.
pub record Hash (A : Type 0) : Type 0 where
  pub a : A
  pub b : A
  pub c : A
  pub d : A
  pub e : A
  pub f : A
  pub g : A
  pub h : A

abbrev pub round_constants : List ℕ
round_constants =
    0x428a2f98 ∷ 0x71374491 ∷ 0xb5c0fbcf ∷ 0xe9b5dba5 ∷ 0x3956c25b ∷ 0x59f111f1 ∷ 0x923f82a4
    ∷ 0xab1c5ed5 ∷ 0xd807aa98 ∷ 0x12835b01 ∷ 0x243185be ∷ 0x550c7dc3 ∷ 0x72be5d74 ∷ 0x80deb1fe
    ∷ 0x9bdc06a7 ∷ 0xc19bf174 ∷ 0xe49b69c1 ∷ 0xefbe4786 ∷ 0x0fc19dc6 ∷ 0x240ca1cc ∷ 0x2de92c6f
    ∷ 0x4a7484aa ∷ 0x5cb0a9dc ∷ 0x76f988da ∷ 0x983e5152 ∷ 0xa831c66d ∷ 0xb00327c8 ∷ 0xbf597fc7
    ∷ 0xc6e00bf3 ∷ 0xd5a79147 ∷ 0x06ca6351 ∷ 0x14292967 ∷ 0x27b70a85 ∷ 0x2e1b2138 ∷ 0x4d2c6dfc
    ∷ 0x53380d13 ∷ 0x650a7354 ∷ 0x766a0abb ∷ 0x81c2c92e ∷ 0x92722c85 ∷ 0xa2bfe8a1 ∷ 0xa81a664b
    ∷ 0xc24b8b70 ∷ 0xc76c51a3 ∷ 0xd192e819 ∷ 0xd6990624 ∷ 0xf40e3585 ∷ 0x106aa070 ∷ 0x19a4c116
    ∷ 0x1e376c08 ∷ 0x2748774c ∷ 0x34b0bcb5 ∷ 0x391c0cb3 ∷ 0x4ed8aa4a ∷ 0x5b9cca4f ∷ 0x682e6ff3
    ∷ 0x748f82ee ∷ 0x78a5636f ∷ 0x84c87814 ∷ 0x8cc70208 ∷ 0x90befffa ∷ 0xa4506ceb ∷ 0xbef9a3f7
    ∷ 0xc67178f2 ∷ []

abbrev pub initial_hash : Hash ℤ
initial_hash = record {
  a = pos 0x6a09e667;
  b = pos 0xbb67ae85;
  c = pos 0x3c6ef372;
  d = pos 0xa54ff53a;
  e = pos 0x510e527f;
  f = pos 0x9b05688c;
  g = pos 0x1f83d9ab;
  h = pos 0x5be0cd19;
}

-- `x & 0xffffffff`
unfoldable pub cut : ℤ → ℤ
unfolding and32
cut x = and32 x (pos 0xffffffff)

-- `ROTR(n, x)`
unfoldable pub rotr : ℕ → ℤ → ℤ
unfolding or32 shl ushr
rotr n x = or32 (ushr x n) (shl x (32 - n))

-- The functions Σ0, Σ1, σ0 and σ1 of the source.
unfoldable pub big_sigma0 : ℤ → ℤ
unfolding rotr xor32
big_sigma0 x = xor32 (xor32 (rotr 2 x) (rotr 13 x)) (rotr 22 x)

unfoldable pub big_sigma1 : ℤ → ℤ
unfolding rotr xor32
big_sigma1 x = xor32 (xor32 (rotr 6 x) (rotr 11 x)) (rotr 25 x)

unfoldable pub small_sigma0 : ℤ → ℤ
unfolding rotr xor32
small_sigma0 x = xor32 (xor32 (rotr 7 x) (rotr 18 x)) (ushr x 3)

unfoldable pub small_sigma1 : ℤ → ℤ
unfolding rotr xor32
small_sigma1 x = xor32 (xor32 (rotr 17 x) (rotr 19 x)) (ushr x 10)

-- `Ch` and `Maj`
unfoldable pub choose : ℤ → ℤ → ℤ → ℤ
unfolding and32 xor32 not32
choose x y z = xor32 (and32 x y) (and32 (not32 x) z)

unfoldable pub majority : ℤ → ℤ → ℤ → ℤ
unfolding and32 xor32
majority x y z = xor32 (xor32 (and32 x y) (and32 x z)) (and32 y z)

-- `msg.charCodeAt(i)` as the bit operators read it: the NaN past the end counts as 0.
unfoldable pub char_code_at : Text → ℕ → ℤ
char_code_at msg i = pos (get_or msg i 0)

-- `M[i][j]`, where `i * 64 + j * 4` is the place of the first byte.
unfoldable pub word_at : Text → ℕ → ℤ
unfolding char_code_at or32 shl
word_at msg p =
    or32
      (or32 (or32 (shl (char_code_at msg p) 24) (shl (char_code_at msg (p + 1)) 16))
        (shl (char_code_at msg (p + 2)) 8))
      (char_code_at msg (p + 3))

-- The loop over `j`.
unfoldable pub words_from : Text → ℕ → ℕ → List ℤ
unfolding word_at
words_from msg p zero = []
words_from msg p (suc n) = word_at msg p ∷ words_from msg (p + 4) n

-- The loop over `i`.
unfoldable pub blocks_from : Text → ℕ → ℕ → List (List ℤ)
unfolding words_from
blocks_from msg i zero = []
blocks_from msg i (suc n) = words_from msg (i * 64) 16 ∷ blocks_from msg (suc i) n

-- `M[N - 1][14] = high; M[N - 1][15] = low;`
unfoldable pub set_length : ℤ → ℤ → List (List ℤ) → List (List ℤ)
set_length high low [] = []
set_length high low (m ∷ []) = set (set m 14 high) 15 low ∷ []
set_length high low (m ∷ m' ∷ ms) = m ∷ set_length high low (m' ∷ ms)

-- The number of blocks: `Math.ceil((msg.length / 4 + 2) / 16)`.
unfoldable pub block_count : ℕ → ℕ
block_count n = (n + 8 + 63) / 64

-- The blocks of a message that has the byte 0x80 at its end.
unfoldable pub preprocess : Text → List (List ℤ)
unfolding blocks_from set_length block_count cut
preprocess msg =
    let bits = (length msg - 1) * 8 in
    set_length (pos (bits / 2 ^ 32)) (cut (pos bits)) (blocks_from msg 0 (block_count (length msg)))

-- `W[t]` for `t` from 16 on; the places are written in order, and each before it is read.
unfoldable pub extend : ℕ → List ℤ → List ℤ
unfolding cut small_sigma0 small_sigma1
extend zero w = w
extend (suc n) w =
    let t = length w in
    let sum =
      small_sigma1 (get_or w (t - 2) (pos 0))
      +ℤ get_or w (t - 7) (pos 0)
      +ℤ small_sigma0 (get_or w (t - 15) (pos 0))
      +ℤ get_or w (t - 16) (pos 0) in
    extend n (w ++ cut sum ∷ [])

-- One round of the main loop.
unfoldable pub round_step : ℕ → ℤ → Hash ℤ → Hash ℤ
unfolding cut big_sigma0 big_sigma1 choose majority
round_step k w s =
    let t1 = s.h +ℤ big_sigma1 s.e +ℤ choose s.e s.f s.g +ℤ pos k +ℤ w in
    let t2 = big_sigma0 s.a +ℤ majority s.a s.b s.c in
    record {
      a = cut (t1 +ℤ t2);
      b = s.a;
      c = s.b;
      d = s.c;
      e = cut (s.d +ℤ t1);
      f = s.e;
      g = s.f;
      h = s.g;
    }

-- The main loop, over `K[t]` and `W[t]`.
unfoldable pub rounds : List ℕ → List ℤ → Hash ℤ → Hash ℤ
unfolding round_step
rounds [] w s = s
rounds (k ∷ ks) [] s = s
rounds (k ∷ ks) (w ∷ ws) s = rounds ks ws (round_step k w s)

unfoldable pub add_hash : Hash ℤ → Hash ℤ → Hash ℤ
unfolding cut
add_hash s t = record {
  a = cut (s.a +ℤ t.a);
  b = cut (s.b +ℤ t.b);
  c = cut (s.c +ℤ t.c);
  d = cut (s.d +ℤ t.d);
  e = cut (s.e +ℤ t.e);
  f = cut (s.f +ℤ t.f);
  g = cut (s.g +ℤ t.g);
  h = cut (s.h +ℤ t.h);
}

-- The loop over the blocks.
unfoldable pub hash_blocks : List (List ℤ) → Hash ℤ → Hash ℤ
unfolding extend rounds add_hash
hash_blocks [] s = s
hash_blocks (m ∷ ms) s = hash_blocks ms (add_hash s (rounds round_constants (extend 48 m) s))

-- `String.fromCharCode((n >>> k) & 0xFF)`
unfoldable pub byte_of : ℤ → ℕ → ℕ
unfolding and32 ushr
byte_of n k = pos_part (and32 (ushr n k) (pos 0xff))

-- `toBinaryStr(n)`: the loop from `i = 3` down.
unfoldable pub to_binary_str : ℤ → Text
unfolding byte_of
to_binary_str n = byte_of n 24 ∷ byte_of n 16 ∷ byte_of n 8 ∷ byte_of n 0 ∷ []

-- The loop of `toHexStr`, where `i` digits are left.
unfoldable pub hex_digits : ℤ → ℕ → Text
unfolding and32 ushr hex
hex_digits n zero = []
hex_digits n (suc i) = hex (pos_part (and32 (ushr n (i * 4)) (pos 0xf))) ∷ hex_digits n i

unfoldable pub to_hex_str : ℤ → Text
unfolding hex_digits
to_hex_str n = hex_digits n 8

-- The bytes of the hash, which `hash` returns.
unfoldable pub hash_text : Hash ℤ → Text
hash_text s =
    to_binary_str s.a
    ++ (to_binary_str s.b
        ++ (to_binary_str s.c
            ++ (to_binary_str s.d
                ++ (to_binary_str s.e
                    ++ (to_binary_str s.f ++ (to_binary_str s.g ++ to_binary_str s.h))))))

-- `Sha256.hash(msg)`, which throws where `utf8Encode` does.
unfoldable pub hash : Uri → Text → Outcome Text
hash u msg = do
  m ← utf8_encode u msg
  returned (hash_text (hash_blocks (preprocess (m ++ 0x80 ∷ [])) initial_hash))
