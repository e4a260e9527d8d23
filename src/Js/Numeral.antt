-- ===== src/Js/Numeral.antt =====
-- Integers as text: what `"" + n` writes and what `parseInt` reads.
pub mod RoundTrip
use general_worldwide_execut.Prelude.{
  ℕ, zero, suc, ◌+◌, ◌-◌, ◌*◌, ◌/◌, ◌%◌, ◌≡◌, refl, Bool, true, false, ◌&&◌, ◌||◌, List, [], ◌∷◌,
  Option, none, some, leb, ◌==◌, if◌then◌else◌,
}
use general_worldwide_execut.Prelude.Int.{ℤ, pos, negsuc, sub_ℕ}
use general_worldwide_execut.Prelude.Text.{Text, codes}

-- The decimal digits in front of `out`. The first argument is fuel.
emit : ℕ → ℕ → Text → Text
emit zero n out = out
emit (suc f) n out = elim (n == 0) [ true ↦ out | false ↦ emit f (n / 10) ((b'0' + n % 10) ∷ out) ]

unfoldable pub print_ℕ : ℕ → Text
unfolding emit
print_ℕ n = if n == 0 then b'0' ∷ [] else emit n n []

-- `"" + n` of an integer below 10 ^ 21.
unfoldable pub print_int : ℤ → Text
unfolding print_ℕ
print_int (pos n) = print_ℕ n
print_int (negsuc n) = b'-' ∷ print_ℕ (suc n)

-- The white space and line ends that `trim` and `parseInt` skip.
unfoldable pub is_space : ℕ → Bool
is_space c =
    (leb 9 c && leb c 13)
    || c == 32
    || c == 0xA0
    || c == 0x1680
    || (leb 0x2000 c && leb c 0x200A)
    || c == 0x2028
    || c == 0x2029
    || c == 0x202F
    || c == 0x205F
    || c == 0x3000
    || c == 0xFEFF

-- The text without its leading white space.
unfoldable pub trim_left : Text → Text
unfolding is_space
trim_left [] = []
trim_left (c ∷ s) = let rest = trim_left s in if is_space c then rest else c ∷ s

-- The value of a digit in the radix.
unfoldable pub digit_value : ℕ → ℕ → Option ℕ
digit_value radix c =
    let v =
      if leb b'0' c && leb c b'9'
      then c - b'0'
      else if leb b'a' c && leb c b'z'
      then c - b'a' + 10
      else if leb b'A' c && leb c b'Z'
      then c - b'A' + 10
      else 36 in
    if leb radix v then none else some v

-- The number that the leading digits spell behind `n`.
unfoldable pub read_digits : ℕ → Text → ℕ → ℕ
unfolding digit_value
read_digits radix [] n = n
read_digits radix (c ∷ s) n = elim (digit_value radix c) [
  | none ↦ n
  | some v ↦ read_digits radix s (n * radix + v)
]

-- `none` is NaN: there is no digit.
unfoldable pub read_number : ℕ → Text → Option ℕ
unfolding read_digits digit_value
read_number radix [] = none
read_number radix (c ∷ s) = elim (digit_value radix c) [
  | none ↦ none
  | some v ↦ some (read_digits radix s v)
]

-- A hexadecimal prefix selects the radix 16.
unfoldable pub read_magnitude : Text → Option ℕ
unfolding read_number
read_magnitude [] = none
read_magnitude (c ∷ []) = read_number 10 (c ∷ [])
read_magnitude (c ∷ x ∷ s) =
    if c == b'0' && (x == b'x' || x == b'X') then read_number 16 s else read_number 10 (c ∷ x ∷ s)

abbrev pub positive : Option ℕ → Option ℤ
positive none = none
positive (some n) = some (pos n)

abbrev pub negative : Option ℕ → Option ℤ
negative none = none
negative (some n) = some (sub_ℕ 0 n)

unfoldable pub read_signed : Text → Option ℤ
unfolding read_magnitude
read_signed [] = none
read_signed (c ∷ s) =
    if c == b'-'
    then negative (read_magnitude s)
    else if c == b'+'
    then positive (read_magnitude s)
    else positive (read_magnitude (c ∷ s))

-- `parseInt(s)` with no radix, as an integer; `none` is NaN.
unfoldable pub parse_int : Text → Option ℤ
unfolding trim_left read_signed
parse_int s = read_signed (trim_left s)

parse_int_tests :
    (parse_int (codes " -12px") ≡ some (negsuc 11))
    × (parse_int (codes "0x1F_") ≡ some (pos 31))
    × (parse_int (codes "x") ≡ none)
unfolding parse_int
parse_int_tests = (refl, refl, refl)
