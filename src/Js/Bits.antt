-- ===== src/Js/Bits.antt =====
-- Binary digits of the native `bit_and`, `bit_or` and `bit_xor`: one digit at a time, the bound, and
-- disjoint patterns.
use Prim.Native.Nat.{min, max, digits, bitwise, differ, bit_and, bit_or, bit_xor}
use Prim.Native.Nat.{bit_and-bitwise, bit_or-bitwise, bit_xor-bitwise}
use native.Mathlib.Nat.{pow-suc, mul_assoc}
use general_worldwide_execut.Prelude.{
  ℕ, zero, suc, ◌+◌, ◌-◌, ◌*◌, ◌/◌, ◌%◌, ◌^◌, ◌≤◌, ◌<◌, ◌≡◌, refl, sym, ap, ◌∙◌, arith,
}

module _ (z : ℕ → ℕ) (f : ℕ → ℕ → ℕ) where
  -- One round more than the number of rounds that are needed changes nothing.
  one_round_more :
      (rounds x y : ℕ) → x ≤ rounds → digits z f (suc rounds) x y ≡ digits z f rounds x y
  one_round_more zero x y h = let none_left : x ≡ 0 = omega arith in rw none_left refl
  one_round_more (suc rounds) zero y h = refl
  one_round_more (suc rounds) (suc x) y h =
      let below = one_round_more rounds (suc x / 2) (y / 2) (omega arith) in rw below refl

  more_rounds : (k rounds x y : ℕ) → rounds ≡ k + x → digits z f rounds x y ≡ bitwise z f x y
  more_rounds zero rounds x y h = let same : rounds ≡ x = omega arith in rw same refl
  more_rounds (suc k) rounds x y h =
      let last : rounds ≡ suc (k + x) = omega arith in
      rw last (one_round_more (k + x) x y (omega arith) ∙ more_rounds k (k + x) x y refl)

  module _ (rest : (b : ℕ) → z b ≡ z (b / 2) * 2 + f 0 (b % 2)) where
    -- The law of the lowest digit.
    bitwise_lowest :
        (a b : ℕ) → bitwise z f a b ≡ bitwise z f (a / 2) (b / 2) * 2 + f (a % 2) (b % 2)
    bitwise_lowest zero b = rest b
    bitwise_lowest (suc a) b =
        let half = suc a / 2 in
        let shorter = more_rounds (a - half) a half (b / 2) (omega arith) in rw shorter refl

    module _ (none : z 0 ≡ 0) (bit : (a b : ℕ) → f (a % 2) (b % 2) < 2) where
      bitwise-lt : (k a b : ℕ) → a < 2 ^ k → b < 2 ^ k → bitwise z f a b < 2 ^ k
      bitwise-lt zero zero zero h g = omega (arith, none)
      bitwise-lt zero zero (suc b) h g = absurd (omega arith)
      bitwise-lt zero (suc a) b h g = absurd (omega arith)
      bitwise-lt (suc k) a b h g =
          let p = pow-suc 2 k in
          omega (
            arith,
            p,
            bitwise_lowest a b,
            bit a b,
            bitwise-lt k (a / 2) (b / 2) (omega (arith, p)) (omega (arith, p)),
          )

and_rest : (b : ℕ) → ◌≡◌ {A = ℕ} 0 (0 * 2 + min 0 (b % 2))
and_rest b = omega arith

or_rest : (b : ℕ) → b ≡ b / 2 * 2 + max 0 (b % 2)
or_rest b = omega arith

xor_rest : (b : ℕ) → b ≡ b / 2 * 2 + differ 0 (b % 2)
xor_rest b = omega arith

min_bit : (a b : ℕ) → min (a % 2) (b % 2) < 2
min_bit a b = omega arith

max_bit : (a b : ℕ) → max (a % 2) (b % 2) < 2
max_bit a b = omega arith

differ_small : (x y : ℕ) → x < 2 → y < 2 → differ x y < 2
differ_small zero y h g = g
differ_small (suc x) zero h g = h
differ_small (suc zero) (suc zero) h g = omega arith
differ_small (suc zero) (suc (suc y)) h g = absurd (omega arith)
differ_small (suc (suc x)) (suc y) h g = absurd (omega arith)

differ_bit : (a b : ℕ) → differ (a % 2) (b % 2) < 2
differ_bit a b = differ_small (a % 2) (b % 2) (omega arith) (omega arith)

pub bit_and_step : (a b : ℕ) → bit_and a b ≡ bit_and (a / 2) (b / 2) * 2 + min (a % 2) (b % 2)
bit_and_step a b =
    bit_and-bitwise a b
    ∙ bitwise_lowest (λ x. 0) min and_rest a b
    ∙ ap (λ t. t * 2 + min (a % 2) (b % 2)) (sym (bit_and-bitwise (a / 2) (b / 2)))

pub bit_or_step : (a b : ℕ) → bit_or a b ≡ bit_or (a / 2) (b / 2) * 2 + max (a % 2) (b % 2)
bit_or_step a b =
    bit_or-bitwise a b
    ∙ bitwise_lowest (λ x. x) max or_rest a b
    ∙ ap (λ t. t * 2 + max (a % 2) (b % 2)) (sym (bit_or-bitwise (a / 2) (b / 2)))

pub bit_and-lt : (k a b : ℕ) → a < 2 ^ k → b < 2 ^ k → bit_and a b < 2 ^ k
bit_and-lt k a b h g =
    rw (bit_and-bitwise a b) (bitwise-lt (λ x. 0) min and_rest refl min_bit k a b h g)

pub bit_or-lt : (k a b : ℕ) → a < 2 ^ k → b < 2 ^ k → bit_or a b < 2 ^ k
bit_or-lt k a b h g =
    rw (bit_or-bitwise a b) (bitwise-lt (λ x. x) max or_rest refl max_bit k a b h g)

pub bit_xor-lt : (k a b : ℕ) → a < 2 ^ k → b < 2 ^ k → bit_xor a b < 2 ^ k
bit_xor-lt k a b h g =
    rw (bit_xor-bitwise a b) (bitwise-lt (λ x. x) differ xor_rest refl differ_bit k a b h g)

bit_or-zero : (b : ℕ) → bit_or 0 b ≡ b
bit_or-zero b = bit_or-bitwise 0 b

bit_or_even : (a q : ℕ) → bit_or a (q * 2) ≡ bit_or (a / 2) q * 2 + a % 2
bit_or_even a q =
    let e : q * 2 / 2 ≡ q = omega arith in
    omega (arith, bit_or_step a (q * 2), ap (bit_or (a / 2)) e)

-- A pattern of k digits and a multiple of 2 ^ k have no digit in common.
pub bit_or_disjoint : (k a b : ℕ) → a < 2 ^ k → bit_or a (b * 2 ^ k) ≡ a + b * 2 ^ k
bit_or_disjoint zero zero b h = omega (arith, bit_or-zero (b * 2 ^ 0))
bit_or_disjoint zero (suc a) b h = absurd (omega arith)
bit_or_disjoint (suc k) a b h =
    let p = pow-suc 2 k in
    let e : b * 2 ^ suc k ≡ b * 2 ^ k * 2 = rw p (sym (mul_assoc b (2 ^ k) 2)) in
    omega (
      arith,
      e,
      ap (bit_or a) e,
      bit_or_even a (b * 2 ^ k),
      bit_or_disjoint k (a / 2) b (omega (arith, p)),
    )

-- The low digits under a mask of ones.
digits-no_mask : (rounds a : ℕ) → digits (λ x. 0) min rounds a 0 ≡ 0
digits-no_mask zero a = refl
digits-no_mask (suc rounds) zero = refl
digits-no_mask (suc rounds) (suc a) = omega (arith, digits-no_mask rounds (suc a / 2))

bit_and-no_mask : (a : ℕ) → bit_and a 0 ≡ 0
bit_and-no_mask a = bit_and-bitwise a 0 ∙ digits-no_mask a a

pub bit_and-fifteen : (a : ℕ) → bit_and a 15 ≡ a % 16
bit_and-fifteen a = omega (
  arith,
  bit_and_step a 15,
  bit_and_step (a / 2) 7,
  bit_and_step (a / 2 / 2) 3,
  bit_and_step (a / 2 / 2 / 2) 1,
  bit_and-no_mask (a / 2 / 2 / 2 / 2),
)

pub bit_and-byte : (a : ℕ) → bit_and a 255 ≡ a % 256
bit_and-byte a =
    let b = a / 2 / 2 / 2 / 2 in
    omega (
      arith,
      bit_and_step a 255,
      bit_and_step (a / 2) 127,
      bit_and_step (a / 2 / 2) 63,
      bit_and_step (a / 2 / 2 / 2) 31,
      bit_and-fifteen b,
    )

bit_or-zero_right : (n b : ℕ) → b ≤ n → bit_or b 0 ≡ b
bit_or-zero_right n zero h = refl
bit_or-zero_right zero (suc b) h = absurd (omega arith)
bit_or-zero_right (suc n) (suc b) h =
    omega (arith, bit_or_step (suc b) 0, bit_or-zero_right n (suc b / 2) (omega arith))

bit_or_even_left : (q a : ℕ) → bit_or (q * 2) a ≡ bit_or q (a / 2) * 2 + a % 2
bit_or_even_left q a =
    let e : q * 2 / 2 ≡ q = omega arith in
    omega (arith, bit_or_step (q * 2) a, ap (λ t. bit_or t (a / 2)) e)

-- The same with the multiple in front.
pub bit_or_disjoint_left : (k b a : ℕ) → a < 2 ^ k → bit_or (b * 2 ^ k) a ≡ b * 2 ^ k + a
bit_or_disjoint_left zero b zero h =
    omega (arith, bit_or-zero_right (b * 2 ^ 0) (b * 2 ^ 0) (omega arith))
bit_or_disjoint_left zero b (suc a) h = absurd (omega arith)
bit_or_disjoint_left (suc k) b a h =
    let p = pow-suc 2 k in
    let e : b * 2 ^ suc k ≡ b * 2 ^ k * 2 = rw p (sym (mul_assoc b (2 ^ k) 2)) in
    omega (
      arith,
      e,
      ap (λ t. bit_or t a) e,
      bit_or_even_left (b * 2 ^ k) a,
      bit_or_disjoint_left k b (a / 2) (omega (arith, p)),
    )

-- A mask of k ones keeps a pattern of k digits.
pub bit_and_ones : (k a : ℕ) → a < 2 ^ k → bit_and a (2 ^ k - 1) ≡ a
bit_and_ones zero zero h = refl
bit_and_ones zero (suc a) h = absurd (omega arith)
bit_and_ones (suc k) a h =
    let p = pow-suc 2 k in
    let e : (2 ^ suc k - 1) / 2 ≡ 2 ^ k - 1 = omega (arith, p) in
    omega (
      arith,
      p,
      bit_and_step a (2 ^ suc k - 1),
      ap (bit_and (a / 2)) e,
      bit_and_ones k (a / 2) (omega (arith, p)),
    )

pub bit_and-five : (a : ℕ) → bit_and a 31 ≡ a % 32
bit_and-five a = omega (arith, bit_and_step a 31, bit_and-fifteen (a / 2))

pub bit_and-six : (a : ℕ) → bit_and a 63 ≡ a % 64
bit_and-six a = omega (arith, bit_and_step a 63, bit_and-five (a / 2))
