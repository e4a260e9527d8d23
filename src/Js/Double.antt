-- ===== src/Js/Double.antt =====
-- JavaScript numbers. The language fixes them as IEEE doubles; here they are a type with the
-- operations that the scripts use, and the laws are the exactness of doubles on small integers.
use general_worldwide_execut.Prelude.{ℕ, ◌+◌, ◌*◌, ◌^◌, ◌≤◌, ◌≡◌, Bool}
use general_worldwide_execut.Prelude.Int.{
  ℤ, pos, negsuc, pos_part, neg_part, ◌+ℤ◌, ◌-ℤ◌, scale, leb_ℤ,
}
use general_worldwide_execut.Prelude.Text.{Text}
use general_worldwide_execut.Js.Word
use general_worldwide_execut.Js.Word.{IsInt32}

pub record Double : Type 1 where
  pub Num : Type 0
  -- the double nearest to an integer
  pub of_int : ℤ → Num
  pub nan : Num
  pub infinity : Num
  pub pi : Num
  pub add : Num → Num → Num
  pub sub : Num → Num → Num
  pub mul : Num → Num → Num
  pub div : Num → Num → Num
  pub neg : Num → Num
  -- Math.pow(2, e)
  pub pow2 : Num → Num
  pub sin : Num → Num
  pub cos : Num → Num
  pub round : Num → Num
  -- Math.min and Math.max
  pub min : Num → Num → Num
  pub max : Num → Num → Num
  -- a < b, a <= b and a == b
  pub lt : Num → Num → Bool
  pub le : Num → Num → Bool
  pub eq : Num → Num → Bool
  -- ToInt32: `a | 0`
  pub to_int32 : Num → ℤ
  -- ToBoolean: false for NaN and the zeros
  pub truthy : Num → Bool
  -- ToNumber of a string
  pub of_text : Text → Num
  -- ToString
  pub to_text : Num → Text

-- An integer that every double operation below keeps exact.
abbrev pub IsExact : ℤ → Type 0
IsExact n = pos_part n + neg_part n ≤ 2 ^ 53

-- An exponent of two well inside the range of the doubles.
abbrev pub IsExponent : ℤ → Type 0
IsExponent e = (neg_part e ≤ 60) × (pos_part e ≤ 900)

-- What the scripts rely on. `scaled n e` is the double n * 2 ^ e.
pub record IsIeee (d : Double) : Type 0 where
  pub scaled : ℤ → ℤ → d.Num
  pub to_int32_range : (a : d.Num) → IsInt32 (d.to_int32 a)
  pub to_int32-of_int : (n : ℤ) → IsExact n → d.to_int32 (d.of_int n) ≡ Word.to_int32 n
  pub add-of_int :
      (m n : ℤ)
      → IsExact m
      → IsExact n
      → IsExact (m +ℤ n)
      → d.add (d.of_int m) (d.of_int n) ≡ d.of_int (m +ℤ n)
  pub scaled-zero : (e : ℤ) → IsExponent e → scaled (pos 0) e ≡ d.of_int (pos 0)
  pub mul-pow2 :
      (n e : ℤ) → IsExact n → IsExponent e → d.mul (d.of_int n) (d.pow2 (d.of_int e)) ≡ scaled n e
  pub pow2-mul :
      (n e : ℤ) → IsExact n → IsExponent e → d.mul (d.pow2 (d.of_int e)) (d.of_int n) ≡ scaled n e
  pub div-four :
      (n e : ℤ)
      → IsExact n
      → IsExponent e
      → IsExponent (e -ℤ pos 2)
      → d.div (scaled n e) (d.of_int (pos 4)) ≡ scaled n (e -ℤ pos 2)
  -- the unit 1 / 128 times an integer
  pub unit-mul :
      (n : ℤ)
      → IsExact n
      → d.mul (d.div (d.of_int (pos 1)) (d.of_int (pos 128))) (d.of_int n) ≡ scaled n (negsuc 6)
  -- the negative of an integer that is not zero
  pub neg-scaled :
      (n e : ℤ)
      → 1 ≤ pos_part n + neg_part n
      → IsExact n
      → IsExponent e
      → d.neg (scaled n e) ≡ scaled (pos 0 -ℤ n) e
  pub le-scaled :
      (m n e : ℤ)
      → IsExact m
      → IsExact n
      → IsExponent e
      → d.le (scaled m e) (scaled n e) ≡ leb_ℤ m n
  -- a sum whose terms are integers of the unit 2 ^ e, all of them below 2 ^ 53
  pub add-scaled :
      (m n e : ℤ) (k : ℕ)
      → IsExact m
      → IsExact (scale (4 ^ k) n)
      → IsExact (m +ℤ scale (4 ^ k) n)
      → IsExponent e
      → IsExponent (e +ℤ pos (2 * k))
      → d.add (scaled m e) (scaled n (e +ℤ pos (2 * k))) ≡ scaled (m +ℤ scale (4 ^ k) n) e
  -- adding a zero moves no value, and the two zeros give the same word
  pub to_int32-add-zero :
      (a b : d.Num) → d.to_int32 (d.mul (d.add a (d.of_int (pos 0))) b) ≡ d.to_int32 (d.mul a b)
