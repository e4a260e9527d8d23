-- ===== src/Sha256/Fips.antt =====
-- SHA-256 as FIPS 180-4 defines it, on words below 2 ^ 32: the reference for the script.
use Prim.Native.Nat.{bit_and, bit_xor}
use general_worldwide_execut.Prelude.{
  ℕ, zero, suc, ◌+◌, ◌-◌, ◌*◌, ◌/◌, ◌%◌, ◌^◌, List, [], ◌∷◌, ◌++◌, length, get_or, replicate, map,
  leb, if◌then◌else◌,
}
use general_worldwide_execut.Sha256.{Hash}

-- Bytes and words are numbers.
abbrev pub plus : ℕ → ℕ → ℕ
plus a b = (a + b) % 2 ^ 32

-- The circular shift: the low digits go to the top.
abbrev pub rotate : ℕ → ℕ → ℕ
rotate n x = x / 2 ^ n + x % 2 ^ n * 2 ^ (32 - n)

abbrev pub xor3 : ℕ → ℕ → ℕ → ℕ
xor3 a b c = bit_xor (bit_xor a b) c

abbrev pub upper_sigma0 : ℕ → ℕ
upper_sigma0 x = xor3 (rotate 2 x) (rotate 13 x) (rotate 22 x)

abbrev pub upper_sigma1 : ℕ → ℕ
upper_sigma1 x = xor3 (rotate 6 x) (rotate 11 x) (rotate 25 x)

abbrev pub lower_sigma0 : ℕ → ℕ
lower_sigma0 x = xor3 (rotate 7 x) (rotate 18 x) (x / 2 ^ 3)

abbrev pub lower_sigma1 : ℕ → ℕ
lower_sigma1 x = xor3 (rotate 17 x) (rotate 19 x) (x / 2 ^ 10)

abbrev pub ch : ℕ → ℕ → ℕ → ℕ
ch x y z = bit_xor (bit_and x y) (bit_and (2 ^ 32 - 1 - x) z)

abbrev pub maj : ℕ → ℕ → ℕ → ℕ
maj x y z = xor3 (bit_and x y) (bit_and x z) (bit_and y z)

-- The message, the bit 1, zeros up to 56 bytes modulo 64, and the length in bits in 8 bytes.
abbrev pub zero_count : ℕ → ℕ
zero_count n = (119 - n % 64) % 64

abbrev pub big_endian : ℕ → List ℕ
big_endian w = w / 2 ^ 24 % 256 ∷ w / 2 ^ 16 % 256 ∷ w / 2 ^ 8 % 256 ∷ w % 256 ∷ []

abbrev pub filled : List ℕ → List ℕ
filled m = m ++ (0x80 ∷ replicate (zero_count (length m)) 0)

abbrev pub padded : List ℕ → List ℕ
padded m = filled m ++ (big_endian (8 * length m / 2 ^ 32) ++ big_endian (8 * length m % 2 ^ 32))

-- Words of four bytes, the greatest first.
abbrev pub words : List ℕ → List ℕ
words (a ∷ b ∷ c ∷ d ∷ l) = (a * 2 ^ 24 + b * 2 ^ 16 + c * 2 ^ 8 + d) ∷ words l
words _ = []

-- Blocks of sixteen words.
abbrev pub blocks : List ℕ → List (List ℕ)
blocks (x0 ∷ x1 ∷ x2 ∷ x3 ∷ x4 ∷ x5 ∷ x6 ∷ x7 ∷ x8 ∷ x9 ∷ x10 ∷ x11 ∷ x12 ∷ x13 ∷ x14 ∷ x15 ∷ l) =
    (x0 ∷ x1 ∷ x2 ∷ x3 ∷ x4 ∷ x5 ∷ x6 ∷ x7 ∷ x8 ∷ x9 ∷ x10 ∷ x11 ∷ x12 ∷ x13 ∷ x14 ∷ x15 ∷ [])
    ∷ blocks l
blocks _ = []

-- The message schedule: `n` more words.
unfoldable pub schedule : ℕ → List ℕ → List ℕ
schedule zero w = w
schedule (suc n) w =
    let t = length w in
    schedule n (
      w
      ++ plus
          (plus (plus (lower_sigma1 (get_or w (t - 2) 0)) (get_or w (t - 7) 0))
            (lower_sigma0 (get_or w (t - 15) 0)))
          (get_or w (t - 16) 0)
        ∷ [])

unfoldable pub round : ℕ → ℕ → Hash ℕ → Hash ℕ
round k w s =
    let t1 = plus (plus (plus (plus s.h (upper_sigma1 s.e)) (ch s.e s.f s.g)) k) w in
    let t2 = plus (upper_sigma0 s.a) (maj s.a s.b s.c) in
    record { a = plus t1 t2; b = s.a; c = s.b; d = s.c; e = plus s.d t1; f = s.e; g = s.f; h = s.g }

unfoldable pub all_rounds : List ℕ → List ℕ → Hash ℕ → Hash ℕ
unfolding round
all_rounds (k ∷ ks) (w ∷ ws) s = all_rounds ks ws (round k w s)
all_rounds _ _ s = s

unfoldable pub add_words : Hash ℕ → Hash ℕ → Hash ℕ
add_words s t = record {
  a = plus s.a t.a;
  b = plus s.b t.b;
  c = plus s.c t.c;
  d = plus s.d t.d;
  e = plus s.e t.e;
  f = plus s.f t.f;
  g = plus s.g t.g;
  h = plus s.h t.h;
}

-- The greatest number of so many bits, above `x`, whose power is not above `n`: bit by bit from the top.
unfoldable pub root : (ℕ → ℕ) → ℕ → ℕ → ℕ → ℕ
root power zero n x = x
root power (suc bits) n x =
    let y = x + 2 ^ bits in root power bits n (if leb (power y) n then y else x)

-- The first 32 bits of the fractional part of the cube root and of the square root.
unfoldable pub cube_root_part : ℕ → ℕ
unfolding root
cube_root_part p = root (λ y. y * y * y) 35 (p * 2 ^ 96) 0 % 2 ^ 32

unfoldable pub square_root_part : ℕ → ℕ
unfolding root
square_root_part p = root (λ y. y * y) 37 (p * 2 ^ 64) 0 % 2 ^ 32

-- The first 64 primes.
abbrev primes : List ℕ
primes =
    2 ∷ 3 ∷ 5 ∷ 7 ∷ 11 ∷ 13 ∷ 17 ∷ 19 ∷ 23 ∷ 29 ∷ 31 ∷ 37 ∷ 41 ∷ 43 ∷ 47 ∷ 53 ∷ 59 ∷ 61 ∷ 67 ∷ 71
    ∷ 73 ∷ 79 ∷ 83 ∷ 89 ∷ 97 ∷ 101 ∷ 103 ∷ 107 ∷ 109 ∷ 113 ∷ 127 ∷ 131 ∷ 137 ∷ 139 ∷ 149 ∷ 151 ∷ 157
    ∷ 163 ∷ 167 ∷ 173 ∷ 179 ∷ 181 ∷ 191 ∷ 193 ∷ 197 ∷ 199 ∷ 211 ∷ 223 ∷ 227 ∷ 229 ∷ 233 ∷ 239 ∷ 241
    ∷ 251 ∷ 257 ∷ 263 ∷ 269 ∷ 271 ∷ 277 ∷ 281 ∷ 283 ∷ 293 ∷ 307 ∷ 311 ∷ []

unfoldable pub constants : List ℕ
unfolding cube_root_part
constants = map cube_root_part primes

unfoldable pub digest_blocks : List (List ℕ) → Hash ℕ → Hash ℕ
unfolding schedule all_rounds add_words constants
digest_blocks [] s = s
digest_blocks (m ∷ ms) s = digest_blocks ms (add_words s (all_rounds constants (schedule 48 m) s))

-- The roots of the first eight primes.
unfoldable pub initial_words : Hash ℕ
unfolding square_root_part
initial_words = record {
  a = square_root_part 2;
  b = square_root_part 3;
  c = square_root_part 5;
  d = square_root_part 7;
  e = square_root_part 11;
  f = square_root_part 13;
  g = square_root_part 17;
  h = square_root_part 19;
}

abbrev pub hash_bytes : Hash ℕ → List ℕ
hash_bytes s =
    big_endian s.a
    ++ (big_endian s.b
        ++ (big_endian s.c
            ++ (big_endian s.d
                ++ (big_endian s.e ++ (big_endian s.f ++ (big_endian s.g ++ big_endian s.h))))))

-- The digest of a message of bytes.
unfoldable pub digest : List ℕ → List ℕ
unfolding digest_blocks initial_words
digest m = hash_bytes (digest_blocks (blocks (words (padded m))) initial_words)
