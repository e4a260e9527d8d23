-- ===== src/Js/Fixed/Laws.antt =====
-- The laws of `IsIeee` for the fixed-point numbers.
use general_worldwide_execut.Prelude.{
  ℕ, zero, suc, ◌+◌, ◌*◌, ◌/◌, ◌^◌, ◌≤◌, ◌<◌, ◌≡◌, refl, sym, ap, ◌∙◌, leb, Option, none, some,
  arith, dec_lt,
}
use general_worldwide_execut.Prelude.Int.{
  ℤ, pos, negsuc, pos_part, neg_part, ◌+ℤ◌, ◌-ℤ◌, scale, leb_ℤ, +ℤ_parts, -ℤ_parts, scale_parts,
  eq_of_parts, int_laws,
}
use general_worldwide_execut.Js.Double.{IsIeee, IsExponent}
use general_worldwide_execut.Js.Fixed.{one, mul_fixed, div_fixed, places, trunc, fixed, fixed_int32}
use general_worldwide_execut.Js.Word
use general_worldwide_execut.Js.Word.{IsInt32, to_int32-IsInt32}
use native.Mathlib.Nat.{pow-suc, mul_comm}

-- The two parts of an integer, one of them zero.
trunc-scale : (n : ℤ) → trunc (scale one n) ≡ n
unfolding trunc scale
trunc-scale (pos n) = ground arith
trunc-scale (negsuc n) = ground arith

fixed_int32-IsInt32 : (a : Option ℤ) → IsInt32 (fixed_int32 a)
fixed_int32-IsInt32 none = record { upper = omega arith; lower = omega arith }
fixed_int32-IsInt32 (some a) = to_int32-IsInt32 (trunc a)

scale-add : (c : ℕ) (m n : ℤ) → scale c m +ℤ scale c n ≡ scale c (m +ℤ n)
scale-add c m n = eq_of_parts _ _ (
    omega (
      arith,
      +ℤ_parts (scale c m) (scale c n),
      scale_parts c m,
      scale_parts c n,
      scale_parts c (m +ℤ n),
      ap (λ (t : ℕ). c * t) (+ℤ_parts m n),
    ))

scale-scale : (a b : ℕ) (n : ℤ) → scale a (scale b n) ≡ scale (a * b) n
scale-scale a b n = eq_of_parts _ _ (
    omega (
      arith,
      scale_parts a (scale b n),
      scale_parts (a * b) n,
      ap (λ (t : ℕ). a * t) (scale_parts b n).0,
      ap (λ (t : ℕ). a * t) (scale_parts b n).1,
    ))

pow2-add : (a k : ℕ) → 2 ^ (a + 2 * k) ≡ 2 ^ a * 4 ^ k
pow2-add a zero = let e : a + 0 ≡ a = omega arith in rw e (omega arith)
pow2-add a (suc k) =
    let e : a + 2 * suc k ≡ suc (suc (a + 2 * k)) = omega arith in
    omega (
      arith,
      ap (λ (t : ℕ). 2 ^ t) e,
      pow-suc 2 (a + 2 * k),
      pow-suc 2 (suc (a + 2 * k)),
      pow2-add a k,
      ap (λ (t : ℕ). 2 ^ a * t) (pow-suc 4 k),
    )

places-add : (e : ℤ) (k : ℕ) → IsExponent e → places (e +ℤ pos (2 * k)) ≡ places e + 2 * k
places-add e k h = omega (arith, +ℤ_parts e (pos (2 * k)))

quotient : (p q c : ℕ) → (one * p * c + one * q * 0) / one ≡ p * c
quotient p q c = omega arith

quotient' : (p q c : ℕ) → (one * p * 0 + one * q * c) / one ≡ q * c
quotient' p q c = omega arith

quotient_left : (p q c : ℕ) → (c * (one * p) + 0 * (one * q)) / one ≡ c * p
quotient_left p q c = omega arith

mul_fixed-pow : (n : ℤ) (c : ℕ) → mul_fixed (scale one n) (pos c) ≡ scale c n
unfolding mul_fixed scale
mul_fixed-pow n c =
    rw ((scale_parts one n).0, (scale_parts one n).1)
      (rw (quotient, quotient', mul_comm (pos_part n) c, mul_comm (neg_part n) c))

pow-mul_fixed : (n : ℤ) (c : ℕ) → mul_fixed (pos c) (scale one n) ≡ scale c n
unfolding mul_fixed scale
pow-mul_fixed n c =
    rw ((scale_parts one n).0, (scale_parts one n).1)
      (rw (quotient_left (pos_part n), quotient_left (neg_part n)))

leb-mul : (c a b : ℕ) → 0 < c → leb (c * a) (c * b) ≡ leb a b
leb-mul c a b h = elim (dec_lt b a) [
  | yes l ↦ let m : c * (b + 1) ≤ c * a = grind arith in ground (arith, m)
  | no l ↦ let l' : a ≤ b = omega arith in let m : c * a ≤ c * b = grind arith in ground (arith, m)
]

leb-scale : (c : ℕ) (m n : ℤ) → 0 < c → leb_ℤ (scale c m) (scale c n) ≡ leb_ℤ m n
leb-scale c m n h =
    let e : pos_part (scale c m) + neg_part (scale c n) ≡ c * (pos_part m + neg_part n) =
      omega (arith, scale_parts c m, scale_parts c n) in
    let e' : pos_part (scale c n) + neg_part (scale c m) ≡ c * (pos_part n + neg_part m) =
      omega (arith, scale_parts c m, scale_parts c n) in
    rw (e, e') (leb-mul c _ _ h)

quarter : (c p : ℕ) → c * 4 ^ 1 * p * one / (one * 4 + 0) ≡ c * p
quarter c p = omega arith

-- A quotient by four moves the places by two.
div_fixed-four :
    (n : ℤ) (a : ℕ) → div_fixed (scale (2 ^ (a + 2)) n) (scale one (pos 4)) ≡ scale (2 ^ a) n
unfolding div_fixed scale
div_fixed-four n a =
    rw ((scale_parts (2 ^ (a + 2)) n).0, (scale_parts (2 ^ (a + 2)) n).1, pow2-add a 1)
      (rw (quarter (2 ^ a) (pos_part n), quarter (2 ^ a) (neg_part n)))

neg-scale : (c : ℕ) (n : ℤ) → pos 0 -ℤ scale c n ≡ scale c (pos 0 -ℤ n)
neg-scale c n = eq_of_parts _ _ (
    omega (
      arith,
      -ℤ_parts (pos 0) (scale c n),
      scale_parts c n,
      scale_parts c (pos 0 -ℤ n),
      ap (λ (t : ℕ). c * t) (-ℤ_parts (pos 0) n),
    ))

scale-zero : (c : ℕ) → scale c (pos 0) ≡ pos 0
scale-zero c = eq_of_parts _ _ (omega (arith, scale_parts c (pos 0)))

pow2-pos : (k : ℕ) → 0 < 2 ^ k
pow2-pos zero = omega arith
pow2-pos (suc k) = omega (arith, pow2-pos k, pow-suc 2 k)

fixed_pow2-of_int : (e : ℤ) → fixed.pow2 (fixed.of_int e) ≡ some (pos (2 ^ places e))
fixed_pow2-of_int e = rw (trunc-scale e)

add-zero : (a : Option ℤ) → fixed.add a (fixed.of_int (pos 0)) ≡ a
add-zero none = refl
add-zero (some a) = rw (scale-zero one) (ap (λ t. some t) (omega (int_laws, +ℤ_parts a (pos 0))))

places_four : (e : ℤ) → IsExponent e → IsExponent (e -ℤ pos 2) → places e ≡ places (e -ℤ pos 2) + 2
places_four e h k = omega (arith, -ℤ_parts e (pos 2))

add-places :
    (m n e : ℤ) (k : ℕ)
    → IsExponent e
    → scale (2 ^ places e) m +ℤ scale (2 ^ places (e +ℤ pos (2 * k))) n
      ≡ scale (2 ^ places e) (m +ℤ scale (4 ^ k) n)
add-places m n e k h =
    ap (λ (c : ℕ). scale (2 ^ places e) m +ℤ scale (2 ^ c) n) (places-add e k h)
    ∙ ap (λ (c : ℕ). scale (2 ^ places e) m +ℤ scale c n) (pow2-add (places e) k)
    ∙ ap (λ t. scale (2 ^ places e) m +ℤ t) (sym (scale-scale (2 ^ places e) (4 ^ k) n))
    ∙ scale-add (2 ^ places e) m (scale (4 ^ k) n)

-- Every law of doubles that the theorems use holds of the fixed-point numbers.
pub fixed-IsIeee : IsIeee fixed
unfolding div_fixed scale
fixed-IsIeee = record {
  scaled = λ n e. some (scale (2 ^ places e) n);
  to_int32_range = fixed_int32-IsInt32;
  to_int32-of_int = λ n h. ap Word.to_int32 (trunc-scale n);
  add-of_int = λ m n h k l. ap (λ t. some t) (scale-add one m n);
  scaled-zero = λ e h. ap (λ t. some t) (scale-zero (2 ^ places e) ∙ sym (scale-zero one));
  mul-pow2 = λ n e h k.
      ap (fixed.mul (fixed.of_int n)) (fixed_pow2-of_int e)
      ∙ ap (λ t. some t) (mul_fixed-pow n (2 ^ places e));
  pow2-mul = λ n e h k.
      ap (λ t. fixed.mul t (fixed.of_int n)) (fixed_pow2-of_int e)
      ∙ ap (λ t. some t) (pow-mul_fixed n (2 ^ places e));
  div-four = λ n e h k l.
      ap (λ (c : ℕ). fixed.div (some (scale (2 ^ c) n)) (fixed.of_int (pos 4))) (places_four e k l)
      ∙ ap (λ t. some t) (div_fixed-four n (places (e -ℤ pos 2)));
  unit-mul = λ n h. ap (λ t. some t) (pow-mul_fixed n (2 ^ places (negsuc 6)));
  neg-scaled = λ n e _ h k. ap (λ t. some t) (neg-scale (2 ^ places e) n);
  le-scaled = λ m n e h k l. leb-scale (2 ^ places e) m n (pow2-pos (places e));
  add-scaled = λ m n e k _ _ _ h _. ap (λ t. some t) (add-places m n e k h);
  to_int32-add-zero = λ a b. ap (λ t. fixed.to_int32 (fixed.mul t b)) (add-zero a);
}
