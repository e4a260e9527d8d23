-- ===== src/QuadSpaces/Surrounding/Laws.antt =====
-- The surrounding cubes are named for every position, and the position's own cube is among them.
use general_worldwide_execut.Prelude.{ℕ, zero, suc, ◌+◌, ◌<◌, ◌≤◌, ◌≡◌, List, [], ◌∷◌, some, arith}
use general_worldwide_execut.Prelude.Int.{
  ℤ, pos, negsuc, pos_part, neg_part, ◌+ℤ◌, ◌-ℤ◌, int_laws, -ℤ_bounds, +ℤ_bounds,
}
use general_worldwide_execut.Prelude.Text.{Text}
use general_worldwide_execut.Js.Double.{Double, IsIeee, IsExponent}
use general_worldwide_execut.QuadSpaces.{decompose, list_to_string}
use general_worldwide_execut.QuadSpaces.Surrounding.{
  ChannelSet, offsets, add_name, reach, level_names, levels, surrounding_space_names,
}
use general_worldwide_execut.QuadSpaces.Surrounding.Loop.{
  Gives, Gives-bind, Gives-map, nest-Gives, nest-middle,
}
use general_worldwide_execut.QuadSpaces.Surrounding.Offsets.{reach-scaled, offsets_three}
use general_worldwide_execut.QuadSpaces.Surrounding.Sets.{
  Extends, Has, Covers, put-Extends, empty-Extends, put-stays, put-added,
}
use general_worldwide_execut.QuadSpaces.Termination.{decompose_total}
use general_worldwide_execut.Three.{Vector3}

module _ {d : Double} (ieee : IsIeee d) (position : Vector3 d.Num) (bias : ℤ) where
  add_name-Extends :
      (x y z : d.Num) (old o : ChannelSet)
      → Extends old o
      → Gives (Extends old) (add_name d position bias x y z o)
  unfolding add_name
  add_name-Extends x y z old o h =
      let (l, e, _, _) =
        decompose_total ieee
          (record { x = d.add position.x x; y = d.add position.y y; z = d.add position.z z })
          bias in
      rw e (put-Extends old o (list_to_string l) h)

  add_name-Has :
      (own : Text) (x y z : d.Num) (old o : ChannelSet)
      → Has old own o
      → Gives (Has old own) (add_name d position bias x y z o)
  unfolding add_name
  add_name-Has own x y z old o (h, has) =
      let (l, e, _, _) =
        decompose_total ieee
          (record { x = d.add position.x x; y = d.add position.y y; z = d.add position.z z })
          bias in
      rw e (put-Extends old o (list_to_string l) h, put-stays o (list_to_string l) own has)

  -- A position that is moved by a zero has the same cubes.
  pub decompose-zero :
      (v : Vector3 d.Num)
      → let o : d.Num = d.of_int (pos 0) in
        decompose d (record { x = d.add v.x o; y = d.add v.y o; z = d.add v.z o }) bias
        ≡ decompose d v bias
  unfolding decompose
  decompose-zero v = rw (
    ieee.to_int32-add-zero v.x (d.pow2 (d.of_int (pos 0 -ℤ bias))),
    ieee.to_int32-add-zero v.y (d.pow2 (d.of_int (pos 0 -ℤ bias))),
    ieee.to_int32-add-zero v.z (d.pow2 (d.of_int (pos 0 -ℤ bias))),
  )

  add_name-own :
      (l : List Text) (old o : ChannelSet)
      → decompose d position bias ≡ some l
      → Extends old o
      → let zero : d.Num = d.of_int (pos 0) in
        Gives (Has old (list_to_string l)) (add_name d position bias zero zero zero o)
  unfolding add_name
  add_name-own l old o e h =
      rw (decompose-zero position, e)
        (put-Extends old o (list_to_string l) h, put-added o (list_to_string l))

bias_zero : {bias : ℤ} → bias +ℤ pos 0 ≡ bias
bias_zero = omega int_laws

bias_suc : (bias : ℤ) (k : ℕ) → bias +ℤ pos (suc k) ≡ bias +ℤ pos 1 +ℤ pos k
bias_suc bias k = omega int_laws

-- The biases at which the offsets are exact.
abbrev pub IsLevel : ℤ → Type 0
IsLevel b = (neg_part b ≤ 58) × (pos_part b ≤ 900)

module _ {d : Double} (ieee : IsIeee d) (position : Vector3 d.Num) where
  level_steps :
      (bias : ℤ)
      → IsLevel bias
      → (a c : d.Num) × (offsets d 4 (reach d bias) (d.neg (reach d bias))
          ≡ some (a ∷ d.of_int (pos 0) ∷ c ∷ []))
  level_steps bias h =
      let low : IsExponent (bias -ℤ pos 2) = omega (arith, -ℤ_bounds bias (pos 2)) in
      let e = bias -ℤ pos 2 in
      (
        ieee.scaled (negsuc 2) e,
        ieee.scaled (pos 3) e,
        rw (
          reach-scaled ieee bias low (omega arith),
          offsets_three ieee e low,
          ieee.scaled-zero e low,
        ),
      )

  level_names-Extends :
      (bias : ℤ) (old o : ChannelSet)
      → IsLevel bias
      → Extends old o
      → Gives (Extends old) (level_names d position bias o)
  unfolding level_names
  level_names-Extends bias old o hb h =
      let (a, c, e) = level_steps bias hb in
      rw e (
        nest-Gives _ (Extends old) (λ x y z s. add_name-Extends ieee position bias x y z old s) _ o
          h)

  level_names-Has :
      (bias : ℤ) (own : Text) (old o : ChannelSet)
      → IsLevel bias
      → Has old own o
      → Gives (Has old own) (level_names d position bias o)
  unfolding level_names
  level_names-Has bias own old o hb h =
      let (a, c, e) = level_steps bias hb in
      rw e (
        nest-Gives _ (Has old own) (λ x y z s. add_name-Has ieee position bias own x y z old s) _ o
          h)

  level_names-own :
      (bias : ℤ) (l : List Text) (old o : ChannelSet)
      → IsLevel bias
      → decompose d position bias ≡ some l
      → Extends old o
      → Gives (Has old (list_to_string l)) (level_names d position bias o)
  unfolding level_names
  level_names-own bias l old o hb el h =
      let (a, c, e) = level_steps bias hb in
      let own = list_to_string l in
      rw e (
        nest-middle _ (Extends old) (Has old own) _ _ _ o
          (λ x y z s. add_name-Extends ieee position bias x y z old s)
          (λ x y z s. add_name-Has ieee position bias own x y z old s)
          (λ s hs. add_name-own ieee position bias l old s el hs) h)

  levels-suc :
      (n : ℕ) (bias : ℤ) (o : ChannelSet) (P Q : ChannelSet → Type 0)
      → Gives P (level_names d position bias o)
      → ((s : ChannelSet) → P s → Gives Q (levels d n position (bias +ℤ pos 1) s))
      → Gives Q (levels d (suc n) position bias o)
  unfolding levels
  levels-suc n bias o P Q h k = Gives-bind P Q _ _ h k

  levels-Has :
      (n : ℕ) (bias : ℤ) (own : Text) (old o : ChannelSet)
      → (neg_part bias ≤ 58) × (pos_part bias + n ≤ 900)
      → Has old own o
      → Gives (Has old own) (levels d n position bias o)
  unfolding levels
  levels-Has zero bias own old o hb h = h
  levels-Has (suc n) bias own old o hb h =
      levels-suc n bias o (Has old own) (Has old own)
        (level_names-Has bias own old o (omega arith) h)
        λ s hs. levels-Has n (bias +ℤ pos 1) own old s (omega (arith, +ℤ_bounds bias (pos 1))) hs

  levels-own :
      (n k : ℕ) (bias : ℤ) (l : List Text) (old o : ChannelSet)
      → (neg_part bias ≤ 58) × (pos_part bias + n ≤ 900)
      → k < n
      → decompose d position (bias +ℤ pos k) ≡ some l
      → Extends old o
      → Gives (Has old (list_to_string l)) (levels d n position bias o)
  unfolding levels
  levels-own zero k bias l old o hb hk e h = absurd (omega arith)
  levels-own (suc n) zero bias l old o hb hk e h =
      levels-suc n bias o (Has old (list_to_string l)) (Has old (list_to_string l))
        (level_names-own bias l old o (omega arith) (rw bias_zero at e) h)
        λ s hs.
          levels-Has n (bias +ℤ pos 1) (list_to_string l) old s
            (omega (arith, +ℤ_bounds bias (pos 1))) hs
  levels-own (suc n) (suc k) bias l old o hb hk e h =
      levels-suc n bias o (Extends old) (Has old (list_to_string l))
        (level_names-Extends bias old o (omega arith) h)
        λ s hs.
          levels-own n k (bias +ℤ pos 1) l old s (omega (arith, +ℤ_bounds bias (pos 1)))
            (omega arith) (rw bias_suc at e) hs

  -- For every position and every range of levels from -58 to 900 that is not empty,
  -- `surroundingSpaceNames` returns a set in which each value is its own key; and for each level of
  -- the range the channel of the cube that holds the position is in the set.
  pub surrounding-own :
      (start end : ℤ) (k : ℕ) (l : List Text)
      → (neg_part start ≤ 58) × (pos_part start + pos_part (end -ℤ start) ≤ 900)
      → k < pos_part (end -ℤ start)
      → decompose d position (start +ℤ pos k) ≡ some l
      → Gives (Covers (list_to_string l)) (surrounding_space_names d position start end)
  unfolding surrounding_space_names
  surrounding-own start end k l hs hk e =
      Gives-map (Has [] (list_to_string l)) (Covers (list_to_string l)) _
        (levels-own _ k start l [] [] hs hk e empty-Extends) λ o h. (h.0.channels, h.1)
