-- ===== src/Utf8/Decoding.antt =====
-- The decoder against the encoding.
use general_worldwide_execut.Prelude.{
  ℕ, suc, ◌+◌, ◌*◌, ◌/◌, ◌%◌, ◌^◌, ◌<◌, List, [], ◌∷◌, ◌++◌, Option, none, some, ◌≡◌, refl, ap, ◌∙◌,
  inl, inr, Bool-cases, ltb, arith, if◌then◌else◌,
}
use general_worldwide_execut.Prelude.Int.{ℤ, pos}
use general_worldwide_execut.Prelude.Text.{Text}
use general_worldwide_execut.Js.Bits.{
  bit_and-fifteen, bit_and-five, bit_and-six, bit_or_disjoint_left,
}
use general_worldwide_execut.Js.Bitwise.{
  and32, to_uint32-and32, to_uint32-or32, to_uint32-shl, to_uint32-pos,
}
use general_worldwide_execut.Js.Word.{to_uint32}
use general_worldwide_execut.Utf8.{
  one, two, three, other, kind, char_code, two_bytes, three_bytes, put_char, decode_loop,
}

-- The bytes of a character below 2 ^ 16.
abbrev pub encode_char : ℕ → List ℕ
encode_char x =
    if ltb x 0x80
    then x ∷ []
    else if ltb x 0x800
    then (0xC0 + x / 64) ∷ (0x80 + x % 64) ∷ []
    else (0xE0 + x / 4096) ∷ (0x80 + x / 64 % 64) ∷ (0x80 + x % 64) ∷ []

abbrev pub encode : Text → List ℕ
encode [] = []
encode (x ∷ s) = encode_char x ++ encode s

abbrev pub AllUnits : Text → Type 0
AllUnits [] = Unit
AllUnits (x ∷ s) = (x < 2 ^ 16) × AllUnits s

char_code-pos : (x : ℕ) → x < 2 ^ 16 → char_code (pos x) ≡ x
unfolding char_code
char_code-pos x h = rw (to_uint32-pos x (omega arith)) (omega arith)

to_uint32-five : (c : ℕ) → c < 256 → to_uint32 (and32 (pos c) (pos 0x1F)) ≡ c % 32
to_uint32-five c h =
    rw (to_uint32-and32, to_uint32-pos c (omega arith), to_uint32-pos 0x1F (omega arith))
      (bit_and-five c)

to_uint32-six : (c : ℕ) → c < 256 → to_uint32 (and32 (pos c) (pos 0x3F)) ≡ c % 64
to_uint32-six c h =
    rw (to_uint32-and32, to_uint32-pos c (omega arith), to_uint32-pos 0x3F (omega arith))
      (bit_and-six c)

to_uint32-four : (c : ℕ) → c < 256 → to_uint32 (and32 (pos c) (pos 0x0F)) ≡ c % 16
to_uint32-four c h =
    rw (to_uint32-and32, to_uint32-pos c (omega arith), to_uint32-pos 0x0F (omega arith))
      (bit_and-fifteen c)

char_code-two_bytes :
    (c b : ℕ) → c < 256 → b < 256 → char_code (two_bytes c b) ≡ c % 32 * 64 + b % 64
unfolding char_code two_bytes
char_code-two_bytes c b hc hb =
    let e : c % 32 * 2 ^ 6 % 2 ^ 32 ≡ c % 32 * 2 ^ 6 = omega arith in
    rw
      (
        to_uint32-or32,
        to_uint32-shl,
        to_uint32-five c hc,
        to_uint32-six b hb,
        e,
        bit_or_disjoint_left 6 (c % 32) (b % 64) (omega arith),
      )
      (omega arith)

char_code-three_bytes :
    (c b a : ℕ)
    → c < 256
    → b < 256
    → a < 256
    → char_code (three_bytes c b a) ≡ c % 16 * 4096 + b % 64 * 64 + a % 64
unfolding char_code three_bytes
char_code-three_bytes c b a hc hb ha =
    let e : c % 16 * 2 ^ 12 % 2 ^ 32 ≡ c % 16 * 2 ^ 12 = omega arith in
    let g : b % 64 * 2 ^ 6 % 2 ^ 32 ≡ b % 64 * 2 ^ 6 = omega arith in
    let k : a % 64 * 2 ^ 0 % 2 ^ 32 ≡ a % 64 = omega arith in
    let q : c % 16 * 2 ^ 12 + b % 64 * 2 ^ 6 ≡ (c % 16 * 2 ^ 6 + b % 64) * 2 ^ 6 = omega arith in
    rw
      (
        to_uint32-or32,
        to_uint32-or32,
        to_uint32-shl,
        to_uint32-shl,
        to_uint32-shl,
        to_uint32-four c hc,
        to_uint32-six b hb,
        to_uint32-six a ha,
        e,
        g,
        k,
        bit_or_disjoint_left 12 (c % 16) (b % 64 * 2 ^ 6) (omega arith),
        q,
        bit_or_disjoint_left 6 (c % 16 * 2 ^ 6 + b % 64) (a % 64) (omega arith),
      )
      (omega arith)

kind-one : (x : ℕ) → x < 0x80 → kind x ≡ one
unfolding kind
kind-one x h = ground arith

kind-two : (x : ℕ) → x < 32 → kind (0xC0 + x) ≡ two
unfolding kind
kind-two x h = ground arith

kind-three : (x : ℕ) → x < 16 → kind (0xE0 + x) ≡ three
unfolding kind
kind-three x h = ground arith

pub kind-other : (x : ℕ) → x < 64 → kind (0x80 + x) ≡ other
unfolding kind
kind-other x h = ground arith

pub kind-four : (x : ℕ) → x < 16 → kind (0xF0 + x) ≡ other
unfolding kind
kind-four x h = ground arith

abbrev pub in_front : ℕ → Option Text → Option Text
in_front x none = none
in_front x (some out) = some (x ∷ out)

pub put_char-char_code :
    (v : ℤ) (x : ℕ) (o : Option Text) → char_code v ≡ x → put_char v o ≡ in_front x o
put_char-char_code v x none e = refl
put_char-char_code v x (some out) e = ap (λ t. some (t ∷ out)) e

-- One character in front of the rest.
pub decode_loop-encode_char :
    (f x : ℕ) (rest : List ℕ)
    → x < 2 ^ 16
    → decode_loop (suc f) (encode_char x ++ rest) ≡ in_front x (decode_loop f rest)
unfolding decode_loop
decode_loop-encode_char f x rest h = elim (Bool-cases (ltb x 0x80)) [
  | inl e ↦
      rw (e, decode_loop, kind-one x (ground arith))
        (put_char-char_code (pos x) x _ (char_code-pos x h))
  | inr e ↦ elim (Bool-cases (ltb x 0x800)) [
    | inl e2 ↦
        rw (e, e2, decode_loop, kind-two (x / 64) (ground arith))
          (put_char-char_code _ x _ (
            char_code-two_bytes (0xC0 + x / 64) (0x80 + x % 64) (ground arith) (omega arith)
            ∙ ground arith))
    | inr e2 ↦
        rw (e, e2, decode_loop, kind-three (x / 4096) (omega arith))
          (put_char-char_code _ x _ (
            char_code-three_bytes (0xE0 + x / 4096) (0x80 + x / 64 % 64) (0x80 + x % 64)
              (omega arith) (omega arith) (omega arith)
            ∙ omega arith))
  ]
]
