-- ===== src/Js/Word.antt =====
-- The bit operators `| 0`, `& 3`, `& 0xFFFFFFFC` and `>> 2` on numbers that are integers.
use general_worldwide_execut.Prelude.{
  ℕ, ◌-◌, ◌/◌, ◌%◌, ◌^◌, ◌≤◌, ◌<◌, ◌≡◌, refl, arith, ltb, if◌then◌else◌,
}
use general_worldwide_execut.Prelude.Int.{ℤ, pos, negsuc, pos_part, neg_part}

-- ToUint32.
unfoldable pub to_uint32 : ℤ → ℕ
to_uint32 (pos n) = n % 2 ^ 32
to_uint32 (negsuc n) = 2 ^ 32 - 1 - n % 2 ^ 32

-- A 32-bit pattern read as a signed integer.
unfoldable pub signed32 : ℕ → ℤ
signed32 u = if ltb u (2 ^ 31) then pos u else negsuc (2 ^ 32 - 1 - u)

-- ToInt32: `x | 0`.
unfoldable pub to_int32 : ℤ → ℤ
unfolding to_uint32 signed32
to_int32 x = signed32 (to_uint32 x)

-- `x & 3`.
unfoldable pub and3 : ℤ → ℕ
unfolding to_uint32
and3 x = to_uint32 x % 4

-- `x & 0xFFFFFFFC`: the word without its two low bits.
unfoldable pub and_high : ℤ → ℤ
unfolding to_uint32 signed32
and_high x = signed32 (to_uint32 x - to_uint32 x % 4)

-- `w >> 2` on a signed word: the arithmetic shift rounds down.
unfoldable pub sar2 : ℤ → ℤ
sar2 (pos n) = pos (n / 4)
sar2 (negsuc n) = negsuc (n / 4)

-- The range of a signed 32-bit word.
pub record IsInt32 (x : ℤ) : Type 0 where
  pub upper : pos_part x < 2 ^ 31
  pub lower : neg_part x ≤ 2 ^ 31

pub to_int32-IsInt32 : (x : ℤ) → IsInt32 (to_int32 x)
unfolding to_int32
to_int32-IsInt32 (pos n) = ground arith
to_int32-IsInt32 (negsuc n) = ground arith

-- A word is its own conversion.
pub to_int32_of_IsInt32 : (x : ℤ) → IsInt32 x → to_int32 x ≡ x
unfolding to_int32
to_int32_of_IsInt32 (pos n) h = ground arith
to_int32_of_IsInt32 (negsuc n) h = ground arith

pub and3-pos : (n : ℕ) → and3 (pos n) ≡ n % 4
unfolding and3
and3-pos n = omega arith

pub and3-negsuc : (n : ℕ) → and3 (negsuc n) ≡ 3 - n % 4
unfolding and3
and3-negsuc n = omega arith

pub to_int32-pos : (n : ℕ) → n < 2 ^ 31 → to_int32 (pos n) ≡ pos n
to_int32-pos n h = to_int32_of_IsInt32 (pos n) (record { upper = h; lower = omega arith })

pub to_int32-negsuc : (n : ℕ) → n < 2 ^ 31 → to_int32 (negsuc n) ≡ negsuc n
to_int32-negsuc n h = to_int32_of_IsInt32 (negsuc n) (record { upper = omega arith; lower = h })

-- The two words at the top wrap around to the least word.
pub to_int32-top : to_int32 (pos (2 ^ 31)) ≡ negsuc (2 ^ 31 - 1)
unfolding to_int32
to_int32-top = refl
