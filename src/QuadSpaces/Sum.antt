-- ===== src/QuadSpaces/Sum.antt =====
-- The sum of the corners that `decompose` names, round by round.
use general_worldwide_execut.Prelude.{
  ℕ, zero, suc, ◌+◌, ◌-◌, ◌*◌, ◌^◌, ◌≤◌, ◌≡◌, refl, sym, ap, ◌∙◌, true, ◌&&◌, List, [], ◌∷◌, Option,
  none, some, arith, inl, inr, ◌⊎◌, Bool-cases,
}
use general_worldwide_execut.Prelude.Int.{
  ℤ, pos, pos_part, neg_part, ◌+ℤ◌, +ℤ_parts, +ℤ_bounds, scale, scale_parts, eq_of_parts, int_laws,
}
use general_worldwide_execut.QuadSpaces.Axis.{
  digit, next, next-digit, digit_bounds, IsInLoop, next-IsInLoop,
}
use native.Mathlib.Nat.{pow-suc}
use general_worldwide_execut.Prelude.Text.{Text}
use general_worldwide_execut.Js.Double.{Double, IsIeee, IsExponent}
use general_worldwide_execut.Js.Outcome.{returned}
use general_worldwide_execut.Js.Word.{IsInt32}
use general_worldwide_execut.QuadSpaces.{space_name, decompose_loop, add_corners, pushed, is_zero}
use general_worldwide_execut.QuadSpaces.Corner.{get_min_corner-space_name}
use general_worldwide_execut.Three.{Vector3, Three, IsThree}

mul_le : (c a b : ℕ) → a ≤ b → c * a ≤ c * b
mul_le c a b h = grind arith

-- 4 ^ k, with its bound for the rounds of the loop.
pow4-le : (j k : ℕ) → k + j ≡ 16 → 4 ^ k ≤ 2 ^ 32
pow4-le zero k e = let e' : k ≡ 16 = omega arith in rw e' (omega arith)
pow4-le (suc j) k e = omega (arith, pow4-le j (suc k) (omega arith), pow-suc 4 k)

-- The sum so far, in units of the least cube, and the coordinate that is left, after `k` rounds.
pub record IsPartial (k : ℕ) (sum x : ℤ) : Type 0 where
  pub small : pos_part sum + neg_part sum ≤ 4 ^ k
  pub word : IsInt32 x

-- What one round adds on this coordinate.
abbrev pub add_digit : ℕ → ℤ → ℤ → ℤ
add_digit k sum x = sum +ℤ scale (4 ^ k) (digit x)

pub add_digit-IsPartial :
    (k : ℕ) (sum x : ℤ) → IsPartial k sum x → IsPartial (suc k) (add_digit k sum x) (next x)
add_digit-IsPartial k sum x p = record {
  small = omega (
    arith,
    p.small,
    +ℤ_bounds sum (scale (4 ^ k) (digit x)),
    scale_parts (4 ^ k) (digit x),
    mul_le (4 ^ k) (pos_part (digit x)) 1 (digit_bounds x).0,
    mul_le (4 ^ k) (neg_part (digit x)) 2 (digit_bounds x).1,
    pow-suc 4 k,
  );
  word = (next-IsInLoop x p.word).word;
}

-- The digit and the rest make up what was left.
add_digit-next :
    (k : ℕ) (sum x : ℤ)
    → IsInLoop x
    → add_digit k sum x +ℤ scale (4 ^ suc k) (next x) ≡ sum +ℤ scale (4 ^ k) x
add_digit-next k sum x l = eq_of_parts _ _ (
    omega (
      arith,
      +ℤ_parts (add_digit k sum x) (scale (4 ^ suc k) (next x)),
      +ℤ_parts sum (scale (4 ^ k) (digit x)),
      +ℤ_parts sum (scale (4 ^ k) x),
      scale_parts (4 ^ suc k) (next x),
      scale_parts (4 ^ k) (digit x),
      scale_parts (4 ^ k) x,
      ap (λ (t : ℕ). t * pos_part (next x)) (pow-suc 4 k),
      ap (λ (t : ℕ). t * neg_part (next x)) (pow-suc 4 k),
      ap (λ (t : ℕ). 4 ^ k * t) (next-digit x l.word l.below),
    ))

pub add-scale-zero : (c : ℕ) (a : ℤ) → a +ℤ scale c (pos 0) ≡ a
add-scale-zero c a = omega (int_laws, +ℤ_parts a (scale c (pos 0)), scale_parts c (pos 0))

-- After the last digit nothing is left.
add_digit_last :
    (k : ℕ) (sum x : ℤ) → IsInLoop x → next x ≡ pos 0 → add_digit k sum x ≡ sum +ℤ scale (4 ^ k) x
add_digit_last k sum x l e =
    sym (add-scale-zero (4 ^ suc k) (add_digit k sum x))
    ∙ ap (λ t. add_digit k sum x +ℤ scale (4 ^ suc k) t) (sym e)
    ∙ add_digit-next k sum x l

pub bias_step : (bias : ℤ) (k : ℕ) → bias +ℤ pos (2 * k) +ℤ pos 2 ≡ bias +ℤ pos (2 * suc k)
bias_step bias k = omega int_laws

-- The exponents of a run of the loop stay in the range that the doubles keep exact.
abbrev pub IsBias : ℤ → Type 0
IsBias e = (neg_part e ≤ 60) × (pos_part e ≤ 800)

IsBias-IsExponent : (e : ℤ) (k : ℕ) → k ≤ 16 → IsBias e → IsExponent (e +ℤ pos (2 * k))
IsBias-IsExponent e k h b = omega (arith, +ℤ_bounds e (pos (2 * k)))

pushed-eq-some :
    (s : Text) (o : Option (List Text)) (l : List Text)
    → pushed s o ≡ some l
    → (l' : List Text) × (o ≡ some l') × (l ≡ s ∷ l')
pushed-eq-some s none l h = cc
pushed-eq-some s (some l') l h = (l', refl, cc)

zeros :
    (a b c : ℤ)
    → (is_zero a && is_zero b && is_zero c) ≡ true
    → (a ≡ pos 0) × (b ≡ pos 0) × (c ≡ pos 0)
zeros a b c h = ground arith

-- A run writes one name, and ends if nothing is left or goes on with the rest.
pub decompose_loop-eq-some :
    (f : ℕ) (x y z p : ℤ) (l : List Text)
    → decompose_loop (suc f) x y z p ≡ some l
    → (l' : List Text) × (l ≡ space_name (digit x) (digit y) (digit z) p ∷ l')
      × ((l' ≡ []) × (next x ≡ pos 0) × (next y ≡ pos 0) × (next z ≡ pos 0)
          ⊎ (decompose_loop f (next x) (next y) (next z) (p +ℤ pos 2) ≡ some l'))
unfolding decompose_loop
decompose_loop-eq-some f x y z p l h =
    elim (Bool-cases (is_zero (next x) && is_zero (next y) && is_zero (next z))) [
      | inl e ↦
          let one = rw (e, decompose_loop) at h in
          let (ex, ey, ez) = zeros _ _ _ e in ([], cc, inl (refl, ex, ey, ez))
      | inr e ↦
          let (l', ran, split) = pushed-eq-some _ _ l (rw (e, decompose_loop) at h) in
          (l', split, inr ran)
    ]

-- The coordinates that a sum holds, in units of 2 ^ e.
module _ {d : Double} (ieee : IsIeee d) where
  abbrev pub scaled_vector : ℤ → ℤ → ℤ → ℤ → Vector3 d.Num
  scaled_vector a b c e = record { x = ieee.scaled a e; y = ieee.scaled b e; z = ieee.scaled c e }

  add_digit-scaled :
      (k : ℕ) (sum x e : ℤ)
      → k ≤ 16
      → IsPartial k sum x
      → IsBias e
      → d.add (ieee.scaled sum e) (ieee.scaled (digit x) (e +ℤ pos (2 * k)))
        ≡ ieee.scaled (add_digit k sum x) e
  add_digit-scaled k sum x e hk p he =
      let bound = pow4-le (16 - k) k (omega arith) in
      let grown = (add_digit-IsPartial k sum x p).small in
      ieee.add-scaled sum (digit x) e k (omega arith)
        (omega (
          arith,
          scale_parts (4 ^ k) (digit x),
          mul_le (4 ^ k) (pos_part (digit x)) 1 (digit_bounds x).0,
          mul_le (4 ^ k) (neg_part (digit x)) 2 (digit_bounds x).1,
        ))
        (omega (arith, pow-suc 4 k)) (omega arith) (IsBias-IsExponent e k hk he)

  module _ {three : Three d} (vectors : IsThree three) (bias : ℤ) (hb : IsBias bias) where
    -- One name adds its digits.
    pub add_corners-space_name :
        (k : ℕ) (a b c x y z : ℤ) (l : List Text)
        → k ≤ 16
        → IsPartial k a x
        → IsPartial k b y
        → IsPartial k c z
        → add_corners d three
            (space_name (digit x) (digit y) (digit z) (bias +ℤ pos (2 * k)) ∷ l)
            (scaled_vector a b c bias)
          ≡ add_corners d three l
              (scaled_vector (add_digit k a x) (add_digit k b y) (add_digit k c z) bias)
    unfolding add_corners
    add_corners-space_name k a b c x y z l hk pa pb pc = rw (
      get_min_corner-space_name ieee vectors (digit x) (digit y) (digit z) (bias +ℤ pos (2 * k))
          (digit_bounds x) (digit_bounds y) (digit_bounds z) (IsBias-IsExponent bias k hk hb),
      vectors.add_lem,
      add_digit-scaled k a x bias hk pa hb,
      add_digit-scaled k b y bias hk pb hb,
      add_digit-scaled k c z bias hk pc hb,
    )

    -- The names that the loop writes from round `k` on add what is left to the sum.
    pub add_corners-decompose_loop :
        (f k : ℕ) (a b c x y z : ℤ) (l : List Text)
        → f + k ≡ 17
        → IsPartial k a x
        → IsPartial k b y
        → IsPartial k c z
        → IsInLoop x
        → IsInLoop y
        → IsInLoop z
        → decompose_loop f x y z (bias +ℤ pos (2 * k)) ≡ some l
        → add_corners d three l (scaled_vector a b c bias)
          ≡ returned (
              scaled_vector
                (a +ℤ scale (4 ^ k) x)
                (b +ℤ scale (4 ^ k) y)
                (c +ℤ scale (4 ^ k) z)
                bias)
    add_corners-decompose_loop zero k a b c x y z l hf pa pb pc lx ly lz e =
        unfold decompose_loop in cc
    add_corners-decompose_loop (suc f) k a b c x y z l hf pa pb pc lx ly lz e =
        let (l', split, rest) = decompose_loop-eq-some f x y z (bias +ℤ pos (2 * k)) l e in
        let one = add_corners-space_name k a b c x y z l' (omega arith) pa pb pc in
        ap (λ t. add_corners d three t (scaled_vector a b c bias)) split ∙ one ∙ elim rest [
          | inl (stop, ex, ey, ez) ↦
              rw
                (
                  stop,
                  add_digit_last k a x lx ex,
                  add_digit_last k b y ly ey,
                  add_digit_last k c z lz ez,
                )
                (unfold add_corners in refl)
          | inr ran ↦ rw (
            add_corners-decompose_loop f (suc k) (add_digit k a x) (add_digit k b y)
                (add_digit k c z) (next x) (next y) (next z) l' (omega arith)
                (add_digit-IsPartial k a x pa) (add_digit-IsPartial k b y pb)
                (add_digit-IsPartial k c z pc) (next-IsInLoop x pa.word) (next-IsInLoop y pb.word)
                (next-IsInLoop z pc.word) (rw bias_step at ran),
            add_digit-next k a x lx,
            add_digit-next k b y ly,
            add_digit-next k c z lz,
          )
        ]
