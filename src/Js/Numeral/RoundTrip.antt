-- ===== src/Js/Numeral/RoundTrip.antt =====
-- `parseInt` reads back every integer that was printed.
use general_worldwide_execut.Prelude.{
  ℕ, zero, suc, ◌+◌, ◌*◌, ◌/◌, ◌%◌, ◌≤◌, ◌<◌, ◌≡◌, refl, [], ◌∷◌, some, arith, ◌-◌, ap, sym, ◌∙◌,
  false, inl, inr, ◌≢◌, Bool-cases, ◌==◌,
}
use general_worldwide_execut.Prelude.Int.{ℤ, pos, negsuc}
use general_worldwide_execut.Prelude.Text.{Text}
use general_worldwide_execut.Js.Numeral.{
  emit, print_ℕ, print_int, digit_value, read_digits, read_number, read_magnitude, read_signed,
  parse_int, positive, negative, trim_left, is_space,
}

-- One decimal digit is read back.
digit_value-digit : (d : ℕ) → d < 10 → digit_value 10 (b'0' + d) ≡ some d
unfolding digit_value
digit_value-digit d h = ground arith

read_digits-digit :
    (d n : ℕ) (s : Text)
    → d < 10
    → read_digits 10 ((b'0' + d) ∷ s) n ≡ read_digits 10 s (n * 10 + d)
unfolding read_digits
read_digits-digit d n s h = rw (digit_value-digit d h, read_digits)

read_digits-emit :
    (f n : ℕ) (out : Text) → n ≤ f → read_digits 10 (emit f n out) 0 ≡ read_digits 10 out n
unfolding emit
read_digits-emit zero n out h = let e : n ≡ 0 = omega arith in rw e
read_digits-emit (suc f) n out h = elim (Bool-cases (n == 0)) [
  | inl e ↦ let z : n ≡ 0 = ground arith in rw (e, emit) (ap (read_digits 10 out) (sym z))
  | inr e ↦
      let exact : n / 10 * 10 + n % 10 ≡ n = omega arith in
      rw (e, emit)
        (read_digits-emit f (n / 10) ((b'0' + n % 10) ∷ out) (ground arith)
          ∙ read_digits-digit (n % 10) (n / 10) out (omega arith)
          ∙ ap (read_digits 10 out) exact)
]

-- A text of decimal digits.
abbrev IsDecimal : Text → Type 0
IsDecimal [] = Unit
IsDecimal (c ∷ s) = (b'0' ≤ c) × (c ≤ b'9') × IsDecimal s

emit-IsDecimal : (f n : ℕ) (out : Text) → IsDecimal out → IsDecimal (emit f n out)
unfolding emit
emit-IsDecimal zero n out h = h
emit-IsDecimal (suc f) n out h = elim (Bool-cases (n == 0)) [
  | inl e ↦ rw (e, emit) h
  | inr e ↦ rw (e, emit) (emit-IsDecimal f (n / 10) _ (omega arith, omega arith, h))
]

print_ℕ-IsDecimal : (n : ℕ) → IsDecimal (print_ℕ n)
unfolding print_ℕ
print_ℕ-IsDecimal n = elim (Bool-cases (n == 0)) [
  | inl e ↦ rw e (omega arith)
  | inr e ↦ rw e (emit-IsDecimal n n [] tt)
]

read_digits-print : (n : ℕ) → read_digits 10 (print_ℕ n) 0 ≡ n
unfolding print_ℕ
read_digits-print n = elim (Bool-cases (n == 0)) [
  | inl e ↦
      let z : n ≡ 0 = ground arith in
      rw (e, z) (read_digits-digit 0 0 [] (omega arith) ∙ unfold read_digits in refl)
  | inr e ↦ rw e (read_digits-emit n n [] (omega arith) ∙ unfold read_digits in refl)
]

emit-ne-nil : (f n : ℕ) (out : Text) → out ≢ [] → emit f n out ≢ []
unfolding emit
emit-ne-nil zero n out h = h
emit-ne-nil (suc f) n out h = elim (Bool-cases (n == 0)) [
  | inl e ↦ rw (e, emit) h
  | inr e ↦ rw (e, emit) (emit-ne-nil f (n / 10) _ (λ q. cc))
]

print_ℕ-ne-nil : (n : ℕ) → print_ℕ n ≢ []
unfolding print_ℕ emit
print_ℕ-ne-nil zero = λ q. cc
print_ℕ-ne-nil (suc n) =
    let e : (suc n == 0) ≡ false = ground arith in
    rw (e, emit) (emit-ne-nil n (suc n / 10) _ (λ q. cc))

digit_value-decimal : (c : ℕ) → b'0' ≤ c → c ≤ b'9' → digit_value 10 c ≡ some (c - b'0')
unfolding digit_value
digit_value-decimal c l u = ground arith

read_number-decimal :
    (s : Text) → IsDecimal s → s ≢ [] → read_number 10 s ≡ some (read_digits 10 s 0)
unfolding read_number read_digits
read_number-decimal [] d h = absurd (h refl)
read_number-decimal (c ∷ s) (l, u, d) h =
    rw (digit_value-decimal c l u, read_number, read_digits)
      (ap (λ (k : ℕ). some (read_digits 10 s k)) (omega arith))

read_magnitude-decimal : (s : Text) → IsDecimal s → read_magnitude s ≡ read_number 10 s
unfolding read_magnitude
read_magnitude-decimal [] d = unfold read_number in refl
read_magnitude-decimal (c ∷ []) d = refl
read_magnitude-decimal (c ∷ x ∷ s) d = ground arith

read_magnitude-print : (n : ℕ) → read_magnitude (print_ℕ n) ≡ some n
read_magnitude-print n =
    read_magnitude-decimal _ (print_ℕ-IsDecimal n)
    ∙ read_number-decimal _ (print_ℕ-IsDecimal n) (print_ℕ-ne-nil n)
    ∙ ap some (read_digits-print n)

is_space-visible : (c : ℕ) → b'-' ≤ c → c ≤ b'9' → is_space c ≡ false
unfolding is_space
is_space-visible c l u = ground arith

trim_left-visible : (c : ℕ) (s : Text) → b'-' ≤ c → c ≤ b'9' → trim_left (c ∷ s) ≡ c ∷ s
unfolding trim_left
trim_left-visible c s l u = rw (is_space-visible c l u)

read_signed-decimal : (s : Text) → IsDecimal s → read_signed s ≡ positive (read_magnitude s)
unfolding read_signed
read_signed-decimal [] d = unfold read_magnitude in refl
read_signed-decimal (c ∷ s) d = ground arith

parse_int-decimal : (s : Text) → IsDecimal s → parse_int s ≡ positive (read_magnitude s)
unfolding parse_int
parse_int-decimal [] d = read_signed-decimal [] d
parse_int-decimal (c ∷ s) (l, u, d) =
    rw (trim_left-visible c s (omega arith) u) (read_signed-decimal (c ∷ s) (l, u, d))

parse_int-minus : (s : Text) → parse_int (b'-' ∷ s) ≡ negative (read_magnitude s)
unfolding parse_int
parse_int-minus s = refl

-- Every integer is read back from its print.
pub parse_int-print : (n : ℤ) → parse_int (print_int n) ≡ some n
unfolding print_int
parse_int-print (pos n) =
    parse_int-decimal _ (print_ℕ-IsDecimal n) ∙ ap positive (read_magnitude-print n)
parse_int-print (negsuc n) =
    parse_int-minus (print_ℕ (suc n)) ∙ ap negative (read_magnitude-print (suc n)) ∙ ground arith

-- A character that is no part of a printed integer: neither a digit nor the minus sign.
abbrev pub Lacks : ℕ → Text → Type 0
Lacks c [] = Unit
Lacks c (d ∷ s) = (d ≢ c) × Lacks c s

Lacks-decimal : (c : ℕ) (s : Text) → b'9' < c → IsDecimal s → Lacks c s
Lacks-decimal c [] h d = tt
Lacks-decimal c (x ∷ s) h (l, u, d) = (omega arith, Lacks-decimal c s h d)

-- No character above the digit 9 stands in a printed integer.
pub print_int-Lacks : (c : ℕ) (n : ℤ) → b'9' < c → Lacks c (print_int n)
unfolding print_int
print_int-Lacks c (pos n) h = Lacks-decimal c _ h (print_ℕ-IsDecimal n)
print_int-Lacks c (negsuc n) h = (omega arith, Lacks-decimal c _ h (print_ℕ-IsDecimal (suc n)))

-- The characters from the minus sign to the digit 9.
abbrev pub IsNumeral : Text → Type 0
IsNumeral [] = Unit
IsNumeral (c ∷ s) = (b'-' ≤ c) × (c ≤ b'9') × IsNumeral s

IsDecimal-IsNumeral : (s : Text) → IsDecimal s → IsNumeral s
IsDecimal-IsNumeral [] h = tt
IsDecimal-IsNumeral (c ∷ s) (l, u, h) = (omega arith, u, IsDecimal-IsNumeral s h)

pub print_int-IsNumeral : (n : ℤ) → IsNumeral (print_int n)
unfolding print_int
print_int-IsNumeral (pos n) = IsDecimal-IsNumeral _ (print_ℕ-IsDecimal n)
print_int-IsNumeral (negsuc n) =
    (omega arith, omega arith, IsDecimal-IsNumeral _ (print_ℕ-IsDecimal (suc n)))

pub print_int-inj : (m n : ℤ) → print_int m ≡ print_int n → m ≡ n
print_int-inj m n e = cc (parse_int-print m, parse_int-print n, ap parse_int e)
