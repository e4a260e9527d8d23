-- ===== src/Utf8/RoundTrip.antt =====
-- Whole texts: the loop ends, and it undoes the encoding.
use general_worldwide_execut.Prelude.{
  ℕ, zero, suc, ◌+◌, ◌≤◌, ◌<◌, List, [], ◌∷◌, Option, none, some, ◌≡◌, refl, ap, ◌∙◌, inl, inr,
  Bool-cases, ltb, arith, length, length-append,
}
use general_worldwide_execut.Prelude.Int.{ℤ, pos}
use general_worldwide_execut.Prelude.Text.{Text}
use general_worldwide_execut.Utf8.Decoding.{
  encode_char, encode, AllUnits, in_front, decode_loop-encode_char, kind-other, kind-four,
}
use general_worldwide_execut.Utf8.{
  one, two, three, other, kind, next_byte, after_byte, put_char, two_bytes, three_bytes,
  decode_loop, utf8_array_to_str,
}

encode_char_nonempty : (x : ℕ) → 1 ≤ length (encode_char x)
encode_char_nonempty x = elim (Bool-cases (ltb x 0x80)) [
  | inl e ↦ rw e (omega arith)
  | inr e ↦ elim (Bool-cases (ltb x 0x800)) [
    | inl e2 ↦ rw (e, e2) (omega arith)
    | inr e2 ↦ rw (e, e2) (omega arith)
  ]
]

length-encode : (s : Text) → length s ≤ length (encode s)
length-encode [] = omega arith
length-encode (x ∷ s) =
    omega
      (arith, length-append {0} (encode_char x) (encode s), encode_char_nonempty x, length-encode s)

decode_loop-encode :
    (f : ℕ) (s : Text) → length s < f → AllUnits s → decode_loop f (encode s) ≡ some s
decode_loop-encode zero s h u = absurd (omega arith)
decode_loop-encode (suc f) [] h u = unfold decode_loop in refl
decode_loop-encode (suc f) (x ∷ s) h (hx, u) =
    decode_loop-encode_char f x (encode s) hx
    ∙ ap (in_front x) (decode_loop-encode f s (omega arith) u)

-- The decoder gives back every text of 16-bit units from its bytes, one to three for each unit.
pub utf8_array_to_str-encode : (s : Text) → AllUnits s → utf8_array_to_str (encode s) ≡ some s
unfolding utf8_array_to_str
utf8_array_to_str-encode s u =
    decode_loop-encode (suc (length (encode s))) s (omega (arith, length-encode s)) u

length-after_byte : (l : List ℕ) → length (after_byte l) ≤ length l
length-after_byte [] = omega arith
length-after_byte (c ∷ l) = omega arith

-- A result of at most so many characters.
abbrev pub Within : ℕ → Option Text → Type 0
Within n none = ⊥
Within n (some out) = length out ≤ n

Within-suc : (n : ℕ) (o : Option Text) → Within n o → Within (suc n) o
Within-suc n none h = h
Within-suc n (some out) h = omega arith

put_char-Within :
    (v : ℤ) (n m : ℕ) (o : Option Text) → Within m o → m ≤ n → Within (suc n) (put_char v o)
put_char-Within v n m none h g = h
put_char-Within v n m (some out) h g = omega arith

decode_loop-Within : (f : ℕ) (l : List ℕ) → length l < f → Within (length l) (decode_loop f l)
unfolding decode_loop
decode_loop-Within zero l h = absurd (omega arith)
decode_loop-Within (suc f) [] h = omega arith
decode_loop-Within (suc f) (c ∷ l) h =
    let l1 = length-after_byte l in
    let l2 = length-after_byte (after_byte l) in
    elim (kind c)
      as (λ k. Within (suc (length l)) (elim k [
        | one ↦ put_char (pos c) (decode_loop f l)
        | two ↦ put_char (two_bytes c (next_byte l)) (decode_loop f (after_byte l))
        | three ↦
            put_char (three_bytes c (next_byte l) (next_byte (after_byte l)))
              (decode_loop f (after_byte (after_byte l)))
        | other ↦ decode_loop f l
      ])) [
        | one ↦
            put_char-Within _ (length l) (length l) _ (decode_loop-Within f l (omega arith))
              (omega arith)
        | two ↦
            put_char-Within _ (length l) (length (after_byte l)) _
              (decode_loop-Within f (after_byte l) (omega (arith, l1))) (omega (arith, l1))
        | three ↦
            put_char-Within _ (length l) (length (after_byte (after_byte l))) _
              (decode_loop-Within f (after_byte (after_byte l)) (omega (arith, l1, l2)))
              (omega (arith, l1, l2))
        | other ↦ Within-suc (length l) _ (decode_loop-Within f l (omega arith))
      ]

-- The loop ends on every array, also where a sequence is cut off or no UTF-8, and there are at most
-- as many characters as bytes.
pub utf8_array_to_str_total : (array : List ℕ) → Within (length array) (utf8_array_to_str array)
unfolding utf8_array_to_str
utf8_array_to_str_total array = decode_loop-Within (suc (length array)) array (omega arith)

decode_loop_skip :
    (f c : ℕ) (l : List ℕ) → kind c ≡ other → decode_loop (suc f) (c ∷ l) ≡ decode_loop f l
unfolding decode_loop
decode_loop_skip f c l e = rw (e, decode_loop)

-- The four bytes of a character of 2 ^ 16 or above are dropped: what comes behind them is read as if
-- they were not there.
pub decode_loop_four_bytes :
    (f a b c d : ℕ) (l : List ℕ)
    → a < 16
    → b < 64
    → c < 64
    → d < 64
    → decode_loop (4 + f) ((0xF0 + a) ∷ (0x80 + b) ∷ (0x80 + c) ∷ (0x80 + d) ∷ l) ≡ decode_loop f l
decode_loop_four_bytes f a b c d l ha hb hc hd =
    let e : 4 + f ≡ suc (suc (suc (suc f))) = omega arith in
    rw e (
      decode_loop_skip _ _ _ (kind-four a ha)
      ∙ decode_loop_skip _ _ _ (kind-other b hb)
      ∙ decode_loop_skip _ _ _ (kind-other c hc)
      ∙ decode_loop_skip _ _ _ (kind-other d hd))
