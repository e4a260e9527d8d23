-- ===== src/QuadSpaces/Surrounding/Offsets.antt =====
-- The loops of `surroundingSpaceNames` take three offsets for each axis: -3/4, 0 and 3/4 of the edge.
use general_worldwide_execut.Prelude.{
  ℕ, suc, ◌+◌, ◌*◌, ◌^◌, ◌≤◌, ◌≡◌, refl, ap, ◌∙◌, true, [], ◌∷◌, some, arith,
}
use general_worldwide_execut.Prelude.Int.{
  ℤ, pos, negsuc, pos_part, neg_part, ◌+ℤ◌, ◌-ℤ◌, int_laws, scale, scale_parts, +ℤ_bounds, leb_ℤ,
}
use general_worldwide_execut.Js.Double.{Double, IsIeee, IsExponent}
use general_worldwide_execut.QuadSpaces.Surrounding.{found, offsets, reach}

module _ {d : Double} (ieee : IsIeee d) where
  -- The three offsets of the loop.
  pub reach-scaled :
      (bias : ℤ)
      → IsExponent (bias -ℤ pos 2)
      → IsExponent bias
      → reach d bias ≡ ieee.scaled (pos 3) (bias -ℤ pos 2)
  unfolding reach
  reach-scaled bias h k =
      ap (λ t. d.div t (d.of_int (pos 4))) (ieee.pow2-mul (pos 3) bias (omega arith) k)
      ∙ ieee.div-four (pos 3) bias (omega arith) k h

  add-scaled_same :
      (m n e : ℤ)
      → pos_part m + neg_part m ≤ 2 ^ 10
      → pos_part n + neg_part n ≤ 2 ^ 10
      → IsExponent e
      → d.add (ieee.scaled m e) (ieee.scaled n e) ≡ ieee.scaled (m +ℤ n) e
  add-scaled_same m n e hm hn he =
      let flat : e +ℤ pos (2 * 0) ≡ e = omega int_laws in
      let same : scale (4 ^ 0) n ≡ n = omega (int_laws, scale_parts 1 n) in
      let law =
        ieee.add-scaled m n e 0 (omega arith) (omega (arith, scale_parts (4 ^ 0) n))
          (omega (arith, +ℤ_bounds m (scale (4 ^ 0) n), scale_parts (4 ^ 0) n)) he (rw flat he) in
      rw (flat, same) at law

  offsets-step :
      (f : ℕ) (length x : d.Num)
      → d.le x length ≡ true
      → offsets d (suc f) length x ≡ found x (offsets d f length (d.add x length))
  unfolding offsets
  offsets-step f length x e = rw (e, offsets)

  offsets-le :
      (f : ℕ) (m e : ℤ)
      → pos_part m + neg_part m ≤ 2 ^ 10
      → IsExponent e
      → leb_ℤ m (pos 3) ≡ true
      → offsets d (suc f) (ieee.scaled (pos 3) e) (ieee.scaled m e)
        ≡ found (ieee.scaled m e) (offsets d f (ieee.scaled (pos 3) e) (ieee.scaled (m +ℤ pos 3) e))
  offsets-le f m e hm he t =
      offsets-step f (ieee.scaled (pos 3) e) (ieee.scaled m e)
        (ieee.le-scaled m (pos 3) e (omega arith) (omega arith) he ∙ t)
      ∙ ap (λ x. found (ieee.scaled m e) (offsets d f (ieee.scaled (pos 3) e) x))
          (add-scaled_same m (pos 3) e hm (omega arith) he)

  offsets-lt :
      (f : ℕ) (e : ℤ)
      → IsExponent e
      → offsets d (suc f) (ieee.scaled (pos 3) e) (ieee.scaled (pos 6) e) ≡ some []
  unfolding offsets
  offsets-lt f e he = rw (ieee.le-scaled (pos 6) (pos 3) e (omega arith) (omega arith) he, offsets)

  pub offsets_three :
      (e : ℤ)
      → IsExponent e
      → offsets d 4 (ieee.scaled (pos 3) e) (d.neg (ieee.scaled (pos 3) e))
        ≡ some (ieee.scaled (negsuc 2) e ∷ ieee.scaled (pos 0) e ∷ ieee.scaled (pos 3) e ∷ [])
  unfolding ◌+ℤ◌ ◌-ℤ◌
  offsets_three e h = rw (
    ieee.neg-scaled (pos 3) e (omega arith) (omega arith) h,
    offsets-le 3 (negsuc 2) e (omega arith) h refl,
    offsets-le 2 (pos 0) e (omega arith) h refl,
    offsets-le 1 (pos 3) e (omega arith) h refl,
    offsets-lt 0 e h,
  )
