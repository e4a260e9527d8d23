-- ===== src/Sha256/Padding.antt =====
-- The blocks of the script are those of the padded message.
use native.Mathlib.Nat.{zero-add}
use general_worldwide_execut.Prelude.{
  ℕ, zero, suc, ◌+◌, ◌-◌, ◌*◌, ◌/◌, ◌%◌, ◌^◌, ◌<◌, [], ◌∷◌, ◌++◌, map, ◌≡◌, refl, sym, ap, ◌∙◌,
  arith, length, length-append, length-replicate, get_or, replicate, append_assoc,
}
use general_worldwide_execut.Prelude.Int.{ℤ, pos}
use general_worldwide_execut.Prelude.Text.{Text}
use general_worldwide_execut.Js.Bits.{bit_or_disjoint_left}
use general_worldwide_execut.Js.Bitwise.{or32, shl, to_uint32-or32, to_uint32-shl, to_uint32-pos}
use general_worldwide_execut.Js.Word.{to_uint32}
use general_worldwide_execut.Sha256.Fips.{blocks, words, filled, padded, big_endian, zero_count}
use general_worldwide_execut.Sha256.Words.{to_uint32-cut}
use general_worldwide_execut.Sha256.{
  word_at, words_from, blocks_from, set_length, block_count, preprocess, char_code_at, cut,
}

abbrev pub AllBytes : Text → Type 0
AllBytes [] = Unit
AllBytes (c ∷ s) = (c < 256) × AllBytes s

AllBytes-append : (s t : Text) → AllBytes s → AllBytes t → AllBytes (s ++ t)
AllBytes-append [] t h g = g
AllBytes-append (c ∷ s) t (hc, h) g = (hc, AllBytes-append s t h g)

AllBytes-replicate : (n : ℕ) → AllBytes (replicate n 0)
AllBytes-replicate zero = tt
AllBytes-replicate (suc n) = (omega arith, AllBytes-replicate n)

-- Four bytes as one word.
word_bytes :
    (a b c d : ℕ)
    → a < 256
    → b < 256
    → c < 256
    → d < 256
    → to_uint32 (or32 (or32 (or32 (shl (pos a) 24) (shl (pos b) 16)) (shl (pos c) 8)) (pos d))
      ≡ a * 2 ^ 24 + b * 2 ^ 16 + c * 2 ^ 8 + d
word_bytes a b c d ha hb hc hd =
    let shifted : (x k : ℕ) → x < 256 → to_uint32 (shl (pos x) k) ≡ x * 2 ^ k % 2 ^ 32 = λ x k h.
      to_uint32-shl (pos x) k ∙ ap (λ t. t * 2 ^ k % 2 ^ 32) (to_uint32-pos x (omega arith)) in
    let ea : a * 2 ^ 24 % 2 ^ 32 ≡ a * 2 ^ 24 = omega arith in
    let eb : b * 2 ^ 16 % 2 ^ 32 ≡ b * 2 ^ 16 = omega arith in
    let ec : c * 2 ^ 8 % 2 ^ 32 ≡ c * 2 ^ 8 = omega arith in
    let two : a * 2 ^ 24 + b * 2 ^ 16 ≡ (a * 2 ^ 8 + b) * 2 ^ 16 = omega arith in
    let three : (a * 2 ^ 8 + b) * 2 ^ 16 + c * 2 ^ 8 ≡ ((a * 2 ^ 8 + b) * 2 ^ 8 + c) * 2 ^ 8 =
      omega arith in
    rw
      (
        to_uint32-or32,
        to_uint32-or32,
        to_uint32-or32,
        shifted a 24 ha,
        shifted b 16 hb,
        shifted c 8 hc,
        to_uint32-pos d (omega arith),
        ea,
        eb,
        ec,
        bit_or_disjoint_left 24 a (b * 2 ^ 16) (omega arith),
        two,
        bit_or_disjoint_left 16 (a * 2 ^ 8 + b) (c * 2 ^ 8) (omega arith),
        three,
        bit_or_disjoint_left 8 ((a * 2 ^ 8 + b) * 2 ^ 8 + c) d (omega arith),
      )
      (omega arith)

-- The script reads the words of `q` from the place `p` on, where it finds the bytes of `q` there.
map-words_from :
    (s q : Text) (p n : ℕ)
    → length q ≡ 4 * n
    → AllBytes q
    → ((i : ℕ) → get_or s (p + i) 0 ≡ get_or q i 0)
    → map to_uint32 (words_from s p n) ≡ words q
unfolding words_from word_at char_code_at
map-words_from s [] p zero e h same = refl
map-words_from s [] p (suc n) e h same = absurd (omega arith)
map-words_from s (a ∷ q) p zero e h same = absurd (omega arith)
map-words_from s (a ∷ []) p (suc n) e h same = absurd (omega arith)
map-words_from s (a ∷ b ∷ []) p (suc n) e h same = absurd (omega arith)
map-words_from s (a ∷ b ∷ c ∷ []) p (suc n) e h same = absurd (omega arith)
map-words_from s (a ∷ b ∷ c ∷ d ∷ q) p (suc n) e (ha, (hb, (hc, (hd, h)))) same =
    let start : p ≡ p + 0 = omega arith in
    let first : get_or s p 0 ≡ a = ap (λ t. get_or s t 0) start ∙ same 0 in
    let later : (i : ℕ) → p + 4 + i ≡ p + suc (suc (suc (suc i))) = λ i. omega arith in
    let tail =
      map-words_from s q (p + 4) n (omega arith) h
        (λ i. ap (λ t. get_or s t 0) (later i) ∙ same (suc (suc (suc (suc i))))) in
    rw (first, same 1, same 2, same 3, tail, word_bytes a b c d ha hb hc hd)

words-append : (n : ℕ) (q r : Text) → length q ≡ 4 * n → words (q ++ r) ≡ words q ++ words r
words-append zero [] r e = refl
words-append zero (a ∷ q) r e = absurd (omega arith)
words-append (suc n) [] r e = absurd (omega arith)
words-append (suc n) (a ∷ []) r e = absurd (omega arith)
words-append (suc n) (a ∷ b ∷ []) r e = absurd (omega arith)
words-append (suc n) (a ∷ b ∷ c ∷ []) r e = absurd (omega arith)
words-append (suc n) (a ∷ b ∷ c ∷ d ∷ q) r e =
    ap (λ l. (a * 2 ^ 24 + b * 2 ^ 16 + c * 2 ^ 8 + d) ∷ l) (words-append n q r (omega arith))

get_or-replicate : (n i : ℕ) → get_or {A = ℕ} (replicate n 0) i 0 ≡ 0
get_or-replicate zero i = refl
get_or-replicate (suc n) zero = refl
get_or-replicate (suc n) (suc i) = get_or-replicate n i

-- Zeros at the end are what is read past it.
get_or-append-replicate : (s : Text) (n i : ℕ) → get_or (s ++ replicate n 0) i 0 ≡ get_or s i 0
get_or-append-replicate [] n i = get_or-replicate n i
get_or-append-replicate (c ∷ s) n zero = refl
get_or-append-replicate (c ∷ s) n (suc i) = get_or-append-replicate s n i

words_from-add :
    (s : Text) (n m p : ℕ) → words_from s p (n + m) ≡ words_from s p n ++ words_from s (p + n * 4) m
unfolding words_from
words_from-add s zero m p = let e : p + 0 * 4 ≡ p = omega arith in rw (zero-add m, e)
words_from-add s (suc n) m p =
    let e : suc n + m ≡ suc (n + m) = omega arith in
    let g : p + suc n * 4 ≡ p + 4 + n * 4 = omega arith in
    rw (e, g) (ap (λ l. word_at s p ∷ l) (words_from-add s n m (p + 4)))

-- The blocks of the script, put into one list and cut into blocks again.
map-set_length :
    (s : Text) (high low : ℤ) (m i : ℕ)
    → map (map to_uint32) (set_length high low (blocks_from s i (suc m)))
      ≡ blocks (
          map to_uint32 (words_from s (i * 64) (16 * m + 14))
          ++ to_uint32 high ∷ to_uint32 low ∷ [])
unfolding set_length blocks_from words_from
map-set_length s high low zero i = refl
map-set_length s high low (suc m) i =
    let e : 16 * suc m + 14 ≡ 16 + (16 * m + 14) = omega arith in
    let g : suc i * 64 ≡ i * 64 + 16 * 4 = omega arith in
    let rest = map-set_length s high low m (suc i) in
    rw (e, words_from-add s 16 (16 * m + 14) (i * 64), ← g)
      (ap (λ l. map to_uint32 (words_from s (i * 64) 16) ∷ l) rest)

length-filled : (m : Text) → length (filled m) ≡ length m + 1 + zero_count (length m)
length-filled m = omega (
  arith,
  length-append {0} m (0x80 ∷ replicate (zero_count (length m)) 0),
  length-replicate {0} {A = ℕ} (zero_count (length m)) 0,
)

-- The number of the blocks before the last one.
abbrev full_blocks : ℕ → ℕ
full_blocks n = (n + 8) / 64

filled-words : (n : ℕ) → n + 1 + zero_count n ≡ 4 * (16 * full_blocks n + 14)
filled-words n = omega arith

-- The words of the message with its last byte and the zeros.
map-words_from-filled :
    (m : Text)
    → AllBytes m
    → map to_uint32 (words_from (m ++ 0x80 ∷ []) 0 (16 * full_blocks (length m) + 14))
      ≡ words (filled m)
map-words_from-filled m h =
    let zeros = replicate (zero_count (length m)) 0 in
    let joined : (m ++ 0x80 ∷ []) ++ zeros ≡ filled m = append_assoc m (0x80 ∷ []) zeros in
    map-words_from (m ++ 0x80 ∷ []) (filled m) 0 (16 * full_blocks (length m) + 14)
      (length-filled m ∙ filled-words (length m))
      (AllBytes-append m (0x80 ∷ zeros) h (omega arith, AllBytes-replicate (zero_count (length m))))
      (λ i.
        ap (λ t. get_or (m ++ 0x80 ∷ []) t 0) (zero-add i)
        ∙ sym (get_or-append-replicate (m ++ 0x80 ∷ []) (zero_count (length m)) i)
        ∙ ap (λ l. get_or l i 0) joined)

big_endian-words : (v w : ℕ) → words (big_endian v ++ big_endian w) ≡ v % 2 ^ 32 ∷ w % 2 ^ 32 ∷ []
big_endian-words v w =
    let e : v / 2 ^ 24 % 256 * 2 ^ 24
          + v / 2 ^ 16 % 256 * 2 ^ 16
          + v / 2 ^ 8 % 256 * 2 ^ 8
          + v % 256
        ≡ v % 2 ^ 32 =
      omega arith in
    let g : w / 2 ^ 24 % 256 * 2 ^ 24
          + w / 2 ^ 16 % 256 * 2 ^ 16
          + w / 2 ^ 8 % 256 * 2 ^ 8
          + w % 256
        ≡ w % 2 ^ 32 =
      omega arith in
    rw (e, g)

to_uint32-mod : (n : ℕ) → to_uint32 (pos n) ≡ n % 2 ^ 32
unfolding to_uint32
to_uint32-mod n = refl

-- The script cuts the padded message of the standard into the blocks of the standard.
pub map-preprocess :
    (m : Text)
    → AllBytes m
    → map (map to_uint32) (preprocess (m ++ 0x80 ∷ [])) ≡ blocks (words (padded m))
unfolding preprocess block_count
map-preprocess m h =
    let n = length m in
    let s = m ++ 0x80 ∷ [] in
    let size : length s ≡ suc n = length-append m (0x80 ∷ []) ∙ omega arith in
    let count : (suc n + 8 + 63) / 64 ≡ suc (full_blocks n) = omega arith in
    let bits : (suc n - 1) * 8 ≡ 8 * n = omega arith in
    let low : 8 * n % 2 ^ 32 % 2 ^ 32 ≡ 8 * n % 2 ^ 32 = omega arith in
    let ends = big_endian-words (8 * n / 2 ^ 32) (8 * n % 2 ^ 32) in
    rw (size, count, bits)
      (map-set_length s (pos (8 * n / 2 ^ 32)) (cut (pos (8 * n))) (full_blocks n) 0
        ∙ rw
            (
              map-words_from-filled m h,
              to_uint32-cut (pos (8 * n)),
              to_uint32-mod (8 * n),
              to_uint32-mod (8 * n / 2 ^ 32),
            )
            (ap blocks (
              sym (
                words-append (16 * full_blocks n + 14) (filled m) _
                  (length-filled m ∙ filled-words n)
                ∙ ap (λ l. words (filled m) ++ l) ends
                ∙ ap (λ t. words (filled m) ++ 8 * n / 2 ^ 32 % 2 ^ 32 ∷ t ∷ []) low))))
