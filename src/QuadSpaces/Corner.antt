-- ===== src/QuadSpaces/Corner.antt =====
-- `getMinCorner` on the names that `decompose` writes.
use general_worldwide_execut.Prelude.{◌≤◌, ◌≡◌, ap, ◌∙◌, false, [], ◌∷◌, arith}
use general_worldwide_execut.Prelude.Int.{ℤ, pos, negsuc, pos_part, neg_part, ◌+ℤ◌, +ℤ_bounds}
use general_worldwide_execut.Js.Double.{Double, IsIeee, IsExponent}
use general_worldwide_execut.Js.Numeral.{print_int}
use general_worldwide_execut.Js.Numeral.RoundTrip.{parse_int-print, print_int-Lacks}
use general_worldwide_execut.Js.Outcome.{returned}
use general_worldwide_execut.Js.Strings.{split}
use general_worldwide_execut.Js.Strings.Split.{split-cons, split-Lacks}
use general_worldwide_execut.Js.Word
use general_worldwide_execut.Js.Word.{and_high}
use general_worldwide_execut.QuadSpaces.{
  space_name, parsed, is_out_of_range, corner_of_parts, get_min_corner,
}
use general_worldwide_execut.Three.{Three, IsThree}

-- The four parts of a name.
split-space_name :
    (a b c p : ℤ)
    → split (space_name a b c p) (b'_' ∷ [])
      ≡ print_int a ∷ print_int b ∷ print_int c ∷ print_int p ∷ []
unfolding space_name
split-space_name a b c p =
    split-cons b'_' (print_int a) _ (print_int-Lacks b'_' a (omega arith))
    ∙ ap (λ l. print_int a ∷ l)
        (split-cons b'_' (print_int b) _ (print_int-Lacks b'_' b (omega arith)))
    ∙ ap (λ l. print_int a ∷ print_int b ∷ l)
        (split-cons b'_' (print_int c) _ (print_int-Lacks b'_' c (omega arith)))
    ∙ ap (λ l. print_int a ∷ print_int b ∷ print_int c ∷ l)
        (split-Lacks b'_' (print_int p) (print_int-Lacks b'_' p (omega arith)))

-- A signed two-bit number.
abbrev pub IsTwoBit : ℤ → Type 0
IsTwoBit a = (pos_part a ≤ 1) × (neg_part a ≤ 2)

-- The mask leaves nothing of a word between 0 and 3.
and_high-two_bit : (a : ℤ) → IsTwoBit a → and_high (Word.to_int32 (a +ℤ pos 2)) ≡ pos 0
unfolding and_high Word.to_int32 ◌+ℤ◌
and_high-two_bit (pos n) h = ground arith
and_high-two_bit (negsuc n) h = ground arith

module _ {d : Double} (ieee : IsIeee d) where
  open d use {Num, of_int}

  parsed-print : (a : ℤ) → parsed d (print_int a) ≡ of_int a
  unfolding parsed
  parsed-print a = rw (parse_int-print a, parsed)

  in_range : (a : ℤ) → IsTwoBit a → is_out_of_range d (of_int a) ≡ false
  unfolding is_out_of_range
  in_range a h = rw (
    ieee.add-of_int a (pos 2) (omega arith) (omega arith) (omega (arith, +ℤ_bounds a (pos 2))),
    ieee.to_int32-of_int (a +ℤ pos 2) (omega (arith, +ℤ_bounds a (pos 2))),
    and_high-two_bit a h,
  )

  module _ {three : Three d} (vectors : IsThree three) where
    corner_of_prints :
        (a b c p : ℤ)
        → IsTwoBit a
        → IsTwoBit b
        → IsTwoBit c
        → IsExponent p
        → corner_of_parts d three (print_int a ∷ print_int b ∷ print_int c ∷ print_int p ∷ [])
          ≡ returned (record { x = ieee.scaled a p; y = ieee.scaled b p; z = ieee.scaled c p })
    unfolding corner_of_parts
    corner_of_prints a b c p ha hb hc hp = rw (
      parsed-print a,
      parsed-print b,
      parsed-print c,
      parsed-print p,
      in_range a ha,
      in_range b hb,
      in_range c hc,
      vectors.vector3_int a b c,
      ieee.mul-pow2 a p (omega arith) hp,
      ieee.mul-pow2 b p (omega arith) hp,
      ieee.mul-pow2 c p (omega arith) hp,
    )

    -- The corner of a cube: its three digits in units of its edge.
    pub get_min_corner-space_name :
        (a b c p : ℤ)
        → IsTwoBit a
        → IsTwoBit b
        → IsTwoBit c
        → IsExponent p
        → get_min_corner d three (space_name a b c p)
          ≡ returned (record { x = ieee.scaled a p; y = ieee.scaled b p; z = ieee.scaled c p })
    unfolding get_min_corner
    get_min_corner-space_name a b c p ha hb hc hp =
        ap (corner_of_parts d three) (split-space_name a b c p)
        ∙ corner_of_prints a b c p ha hb hc hp
