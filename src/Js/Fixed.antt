-- ===== src/Js/Fixed.antt =====
-- Fixed-point numbers with 64 binary places: a type of numbers on which every law of `IsIeee` holds.
pub mod Laws
use general_worldwide_execut.Prelude.{
  ℕ, zero, suc, ◌+◌, ◌-◌, ◌*◌, ◌/◌, ◌%◌, ◌^◌, ◌≤◌, ◌<◌, ◌≡◌, refl, sym, ap, ◌∙◌, Bool, true, false,
  not, ltb, leb, [], ◌∷◌, Option, none, some, arith, if◌then◌else◌,
}
use general_worldwide_execut.Prelude.Int.{
  ℤ, pos, negsuc, pos_part, neg_part, sub_ℕ, ◌+ℤ◌, ◌-ℤ◌, scale, leb_ℤ, eqb_ℤ, +ℤ_parts, -ℤ_parts,
  scale_parts, eq_of_parts, int_laws,
}
use general_worldwide_execut.Prelude.Text.{Text, codes}
use general_worldwide_execut.Js.Double.{Double, IsIeee, IsExact, IsExponent}
use general_worldwide_execut.Js.Numeral.{print_int, parse_int}
use general_worldwide_execut.Js.Word
use general_worldwide_execut.Js.Word.{IsInt32, to_int32-IsInt32}
use native.Mathlib.Nat.{pow-suc}

abbrev pub one : ℕ
one = 2 ^ 64

-- `none` is NaN.
abbrev pub both : (ℤ → ℤ → ℤ) → Option ℤ → Option ℤ → Option ℤ
both f none b = none
both f (some a) none = none
both f (some a) (some b) = some (f a b)

abbrev pub test : (ℤ → ℤ → Bool) → Option ℤ → Option ℤ → Bool
test f none b = false
test f (some a) none = false
test f (some a) (some b) = f a b

unfoldable pub mul_fixed : ℤ → ℤ → ℤ
mul_fixed a b =
    sub_ℕ ((pos_part a * pos_part b + neg_part a * neg_part b) / one)
      ((pos_part a * neg_part b + neg_part a * pos_part b) / one)

-- A quotient by a positive number.
unfoldable pub div_fixed : ℤ → ℤ → ℤ
div_fixed a b = sub_ℕ (pos_part a * one / pos_part b) (neg_part a * one / pos_part b)

-- The places of 2 ^ e.
abbrev pub places : ℤ → ℕ
places e = 64 + pos_part e - neg_part e

unfoldable pub trunc : ℤ → ℤ
trunc a = sub_ℕ (pos_part a / one) (neg_part a / one)

abbrev pub fixed_int32 : Option ℤ → ℤ
fixed_int32 none = pos 0
fixed_int32 (some a) = Word.to_int32 (trunc a)

abbrev pub fixed_pow2 : Option ℤ → Option ℤ
fixed_pow2 none = none
fixed_pow2 (some a) = some (pos (2 ^ places (trunc a)))

abbrev pub fixed_text : Option ℤ → Text
fixed_text none = codes "NaN"
fixed_text (some a) = print_int (trunc a)

abbrev pub fixed_of_text : Text → Option ℤ
fixed_of_text s = elim (parse_int s) [ none ↦ none | some n ↦ some (scale one n) ]

abbrev pub fixed_truthy : Option ℤ → Bool
fixed_truthy none = false
fixed_truthy (some a) = not (eqb_ℤ a (pos 0))

abbrev pub fixed_neg : Option ℤ → Option ℤ
fixed_neg none = none
fixed_neg (some a) = some (pos 0 -ℤ a)

abbrev pub fixed_round : Option ℤ → Option ℤ
fixed_round none = none
fixed_round (some a) = some (scale one (trunc a))

abbrev pub fixed : Double
fixed = record {
  Num = Option ℤ;
  of_int = λ n. some (scale one n);
  nan = none;
  infinity = none;
  pi = some (scale 3 (pos one));
  add = both ◌+ℤ◌;
  sub = both ◌-ℤ◌;
  mul = both mul_fixed;
  div = both div_fixed;
  neg = fixed_neg;
  pow2 = fixed_pow2;
  sin = λ a. a;
  cos = λ a. a;
  round = fixed_round;
  min = both (λ a b. if leb_ℤ a b then a else b);
  max = both (λ a b. if leb_ℤ a b then b else a);
  lt = test (λ a b. not (leb_ℤ b a));
  le = test leb_ℤ;
  eq = test eqb_ℤ;
  to_int32 = fixed_int32;
  truthy = fixed_truthy;
  of_text = fixed_of_text;
  to_text = fixed_text;
}
