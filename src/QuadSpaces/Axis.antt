-- ===== src/QuadSpaces/Axis.antt =====
-- One coordinate of the loop of `QuadSpaces.decompose`.
use general_worldwide_execut.Prelude.{
  ℕ, zero, suc, ◌+◌, ◌-◌, ◌*◌, ◌/◌, ◌%◌, ◌^◌, ◌≤◌, ◌<◌, ◌≡◌, refl, arith, dec_lt,
}
use general_worldwide_execut.Prelude.Int.{ℤ, pos, negsuc, pos_part, neg_part, sub_ℕ, ◌+ℤ◌, ◌-ℤ◌}
use general_worldwide_execut.Js.Word.{
  to_int32, and3, sar2, IsInt32, and3-pos, and3-negsuc, to_int32-pos, to_int32-negsuc,
}

-- `i1 - 2` for `x += 2; i1 = x & 3;`
unfoldable pub digit : ℤ → ℤ
digit x = pos (and3 (x +ℤ pos 2)) -ℤ pos 2

-- `x` after `x += 2; i1 = x & 3; x -= i1; x = (x >> 2) | 0;`. The sums are exact in doubles, and
-- `>>` reads its left side as a 32-bit word.
unfoldable pub next : ℤ → ℤ
next x = let x2 = x +ℤ pos 2 in to_int32 (sar2 (to_int32 (x2 -ℤ pos (and3 x2))))

-- A digit is one of -2, -1, 0 and 1.
pub digit_bounds : (x : ℤ) → (pos_part (digit x) ≤ 1) × (neg_part (digit x) ≤ 2)
unfolding digit ◌+ℤ◌ ◌-ℤ◌ and3
digit_bounds (pos n) = ground arith
digit_bounds (negsuc n) = ground arith

digit-pos : (n : ℕ) → digit (pos n) ≡ sub_ℕ ((n + 2) % 4) 2
unfolding digit ◌+ℤ◌ ◌-ℤ◌ and3
digit-pos n = ground arith

digit-negsuc : (n : ℕ) → digit (negsuc (suc (suc n))) ≡ sub_ℕ (3 - n % 4) 2
unfolding digit ◌+ℤ◌ ◌-ℤ◌ and3
digit-negsuc n = ground arith

sub-and3-pos : (n : ℕ) → pos n +ℤ pos 2 -ℤ pos (and3 (pos n +ℤ pos 2)) ≡ pos (4 * ((n + 2) / 4))
unfolding ◌+ℤ◌ ◌-ℤ◌
sub-and3-pos n =
    let e : pos n +ℤ pos 2 ≡ pos (n + 2) = ground arith in rw (e, and3-pos) (ground arith)

sub-and3-negsuc :
    (n : ℕ)
    → negsuc (suc (suc n)) +ℤ pos 2 -ℤ pos (and3 (negsuc (suc (suc n)) +ℤ pos 2))
      ≡ negsuc (4 * (n / 4) + 3)
unfolding ◌+ℤ◌ ◌-ℤ◌
sub-and3-negsuc n =
    let e : negsuc (suc (suc n)) +ℤ pos 2 ≡ negsuc n = ground arith in
    rw (e, and3-negsuc) (ground arith)

sar2-pos : (n : ℕ) → sar2 (pos (4 * n)) ≡ pos n
unfolding sar2
sar2-pos n = ground arith

sar2-negsuc : (n : ℕ) → sar2 (negsuc (4 * n + 3)) ≡ negsuc n
unfolding sar2
sar2-negsuc n = ground arith

next-pos : (n : ℕ) → n < 2 ^ 31 - 2 → next (pos n) ≡ pos ((n + 2) / 4)
unfolding next
next-pos n h =
    rw (sub-and3-pos n, to_int32-pos (4 * ((n + 2) / 4)) (omega arith), sar2-pos)
      (to_int32-pos ((n + 2) / 4) (omega arith))

-- At the last two words the sum passes 2 ^ 31, and the shift reads the least word.
pub next-pos_top : (n : ℕ) → 2 ^ 31 - 2 ≤ n → n < 2 ^ 31 → next (pos n) ≡ negsuc (2 ^ 29 - 1)
unfolding next
next-pos_top n l u =
    let e : 4 * ((n + 2) / 4) ≡ 2 ^ 31 = omega arith in
    rw (sub-and3-pos n, e) (unfold to_int32 sar2 in refl)

next-negsuc : (n : ℕ) → n < 2 ^ 31 → next (negsuc (suc (suc n))) ≡ negsuc (n / 4)
unfolding next
next-negsuc n h =
    rw (sub-and3-negsuc n, to_int32-negsuc (4 * (n / 4) + 3) (omega arith), sar2-negsuc)
      (to_int32-negsuc (n / 4) (omega arith))

-- Below the last two words, a round divides by four with remainder.
pub next-digit :
    (x : ℤ)
    → IsInt32 x
    → pos_part x < 2 ^ 31 - 2
    → pos_part x + (neg_part (digit x) + 4 * neg_part (next x))
      ≡ neg_part x + (pos_part (digit x) + 4 * pos_part (next x))
next-digit (pos n) w h = rw (digit-pos n, next-pos n h) (ground arith)
next-digit (negsuc zero) w h = unfold digit next ◌+ℤ◌ ◌-ℤ◌ and3 sar2 to_int32 in refl
next-digit (negsuc (suc zero)) w h = unfold digit next ◌+ℤ◌ ◌-ℤ◌ and3 sar2 to_int32 in refl
next-digit (negsuc (suc (suc n))) w h =
    rw (digit-negsuc n, next-negsuc n (omega (arith, w.lower))) (ground arith)

-- A coordinate on which the rounds of the loop are divisions: a word below the last two.
pub record IsInLoop (x : ℤ) : Type 0 where
  pub word : IsInt32 x
  pub below : pos_part x < 2 ^ 31 - 2

-- A round brings every word, the last two included, into the range of a quarter.
pub next_bounds : (x : ℤ) → IsInt32 x → (pos_part (next x) ≤ 2 ^ 29) × (neg_part (next x) ≤ 2 ^ 29)
next_bounds (negsuc zero) w = unfold next ◌+ℤ◌ ◌-ℤ◌ and3 sar2 to_int32 in omega arith
next_bounds (negsuc (suc zero)) w = unfold next ◌+ℤ◌ ◌-ℤ◌ and3 sar2 to_int32 in omega arith
next_bounds (negsuc (suc (suc n))) w =
    rw (next-negsuc n (omega (arith, w.lower))) (omega (arith, w.lower))
next_bounds (pos n) w = elim (dec_lt n (2 ^ 31 - 2)) [
  | yes h ↦ rw (next-pos n h) (omega arith)
  | no h ↦ rw (next-pos_top n (omega arith) (omega (arith, w.upper))) (omega arith)
]

pub next-IsInLoop : (x : ℤ) → IsInt32 x → IsInLoop (next x)
next-IsInLoop x w =
    let b = next_bounds x w in
    record {
      word = record { upper = omega (arith, b.0); lower = omega (arith, b.1) };
      below = omega (arith, b.0);
    }

-- Words of at most `k` balanced digits: the greatest has `k` digits 1, the least `k` digits -2.
abbrev pub greatest : ℕ → ℕ
greatest zero = 0
greatest (suc k) = 4 * greatest k + 1

abbrev pub Fits : ℕ → ℤ → Type 0
Fits k x = (pos_part x ≤ greatest k) × (neg_part x ≤ 2 * greatest k)

-- Each round needs one digit less.
pub next-Fits : (k : ℕ) (x : ℤ) → IsInLoop x → Fits (suc k) x → Fits k (next x)
next-Fits k (pos n) l f = rw (next-pos n l.below) (omega arith)
next-Fits k (negsuc zero) l f = unfold next ◌+ℤ◌ ◌-ℤ◌ and3 sar2 to_int32 in omega arith
next-Fits k (negsuc (suc zero)) l f = unfold next ◌+ℤ◌ ◌-ℤ◌ and3 sar2 to_int32 in omega arith
next-Fits k (negsuc (suc (suc n))) l f =
    rw (next-negsuc n (omega (arith, l.word.lower))) (omega arith)

-- 16 digits hold what any word leaves after one round.
pub next-Fits-sixteen : (x : ℤ) → IsInt32 x → Fits 16 (next x)
next-Fits-sixteen x w = let b = next_bounds x w in (omega (arith, b.0), omega (arith, b.1))

-- At the last two words the digits are short of 2 ^ 32.
pub next-digit_top :
    (n : ℕ)
    → 2 ^ 31 - 2 ≤ n
    → n < 2 ^ 31
    → n + neg_part (digit (pos n)) + 4 * neg_part (next (pos n))
      ≡ pos_part (digit (pos n)) + 4 * pos_part (next (pos n)) + 2 ^ 32
next-digit_top n l u = rw (digit-pos n, next-pos_top n l u) (ground arith)
