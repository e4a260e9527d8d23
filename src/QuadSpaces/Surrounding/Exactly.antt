-- ===== src/QuadSpaces/Surrounding/Exactly.antt =====
-- Which channels `surroundingSpaceNames` returns.
use general_worldwide_execut.Prelude.{
  ℕ, zero, suc, ◌+◌, ◌≤◌, ◌≡◌, Bool, true, false, ◌||◌, List, [], ◌∷◌, Option, none, some, arith,
  inl, inr, Bool-cases, Option-cases,
}
use general_worldwide_execut.Prelude.Int.{
  ℤ, pos, pos_part, neg_part, ◌+ℤ◌, ◌-ℤ◌, -ℤ_bounds, +ℤ_bounds,
}
use general_worldwide_execut.Prelude.Text.{Text, eqb_text, eqb_text→eq, eqb_text_refl}
use general_worldwide_execut.Gwems.Sets.Laws.{has, has-put}
use general_worldwide_execut.Js.Double.{Double, IsIeee, IsExponent}
use general_worldwide_execut.QuadSpaces.Channel.{HasBias, decompose-HasBias}
use general_worldwide_execut.QuadSpaces.Surrounding.{
  ChannelSet, ◌>>=◌, for_each, offsets, add_name, reach, level_names, levels,
  surrounding_space_names,
}
use general_worldwide_execut.QuadSpaces.Surrounding.Laws.{IsLevel, decompose-zero}
use general_worldwide_execut.QuadSpaces.Surrounding.Loop.{Gives, Gives-map}
use general_worldwide_execut.QuadSpaces.Surrounding.Offsets.{reach-scaled, offsets_three}
use general_worldwide_execut.QuadSpaces.Surrounding.Sets.{IsChannelSet, put-IsChannelSet}
use general_worldwide_execut.QuadSpaces.Termination.{decompose_total}
use general_worldwide_execut.QuadSpaces.{decompose, list_to_string}
use general_worldwide_execut.Three.{Vector3}
use mathlib.Core.Path.{subst}

-- Whether the test holds for one of the values.
abbrev pub any_of : {A : Type 0} → (A → Bool) → List A → Bool
any_of test [] = false
any_of test (a ∷ l) = test a || any_of test l

-- Whether the list of names has this text.
abbrev is_channel : Option (List Text) → Text → Bool
is_channel none k = false
is_channel (some l) k = eqb_text (list_to_string l) k

any_of-found :
    {A : Type 0} (test : A → Bool) (l : List A) → any_of test l ≡ true → (a : A) × (test a ≡ true)
any_of-found test [] h = absurd (ground arith)
any_of-found test (a ∷ l) h = elim (Bool-cases (test a)) [
  | inl e ↦ (a, e)
  | inr e ↦ any_of-found test l (ground arith)
]

-- The set has the keys of another and those that pass the test, each as its own value if so before.
abbrev IsAdded : (Text → Bool) → ChannelSet → ChannelSet → Type 0
IsAdded test o p = (IsChannelSet o → IsChannelSet p) × ((k : Text) → has p k ≡ (has o k || test k))

-- The run ends in such a set.
abbrev pub Adds : (Text → Bool) → ChannelSet → Option ChannelSet → Type 0
Adds test o r = Gives (IsAdded test o) r

Adds-bind :
    (test more : Text → Bool) (f : ChannelSet → Option ChannelSet) (o : ChannelSet)
    (r : Option ChannelSet)
    → Adds test o r
    → ((p : ChannelSet) → Adds more p (f p))
    → Adds (λ k. test k || more k) o (r >>= f)
Adds-bind test more f o none h g = absurd h
Adds-bind test more f o (some p) h g =
    Gives-map (IsAdded more p) (IsAdded (λ k. test k || more k) o) (f p) (g p)
      (λ q (own, e). (λ c. own (h.0 c), λ k. ground (arith, h.1 k, e k)))

for_each-Adds :
    {A : Type 0} (body : A → ChannelSet → Option ChannelSet) (test : A → Text → Bool)
    → ((a : A) (o : ChannelSet) → Adds (test a) o (body a o))
    → (l : List A) (o : ChannelSet) → Adds (λ k. any_of (λ a. test a k) l) o (for_each l body o)
unfolding for_each
for_each-Adds body test h [] o = (λ c. c, λ k. ground arith)
for_each-Adds body test h (a ∷ l) o =
    Adds-bind (test a) (λ k. any_of (λ b. test b k) l) (for_each l body) o (body a o) (h a o)
      (for_each-Adds body test h l)

module _ (d : Double) (position : Vector3 d.Num) where
  -- Whether the text is the channel of the cube that holds a position.
  abbrev pub names_cube : Vector3 d.Num → ℤ → Text → Bool
  names_cube v bias = is_channel (decompose d v bias)

  -- The position with an offset on each axis.
  abbrev pub moved_by : d.Num → d.Num → d.Num → Vector3 d.Num
  moved_by x y z = record { x = d.add position.x x; y = d.add position.y y; z = d.add position.z z }

  -- Three quarters of the edge back, none, and as many forth.
  abbrev pub shifts : ℤ → List d.Num
  shifts bias = d.neg (reach d bias) ∷ d.of_int (pos 0) ∷ reach d bias ∷ []

  abbrev in_row : ℤ → Text → d.Num → d.Num → Bool
  in_row bias k x y = any_of (λ z. names_cube (moved_by x y z) bias k) (shifts bias)

  abbrev in_plane : ℤ → Text → d.Num → Bool
  in_plane bias k x = any_of (in_row bias k x) (shifts bias)

  -- Whether the text is the channel of one of the 27 cubes around the position at a level,
  abbrev pub is_near : ℤ → Text → Bool
  is_near bias k = any_of (in_plane bias k) (shifts bias)

  -- at one of so many levels from the first.
  abbrev pub is_near_levels : ℕ → ℤ → Text → Bool
  is_near_levels zero bias k = false
  is_near_levels (suc n) bias k = is_near bias k || is_near_levels n (bias +ℤ pos 1) k

names_cube-HasBias :
    (d : Double) (v : Vector3 d.Num) (bias : ℤ) (k : Text)
    → is_channel (decompose d v bias) k ≡ true
    → HasBias bias k
names_cube-HasBias d v bias k h = elim (Option-cases (decompose d v bias)) [
  | inl e ↦ let wrong : false ≡ true = rw e at h in absurd (ground arith)
  | inr (l, e) ↦
      let same : eqb_text (list_to_string l) k ≡ true = rw e at h in
      subst (HasBias bias) (eqb_text→eq (list_to_string l) k same) (decompose-HasBias d v bias l e)
]

-- All channels around a position at a level have the bias of the level.
pub is_near-HasBias :
    (d : Double) (position : Vector3 d.Num) (bias : ℤ) (k : Text)
    → is_near d position bias k ≡ true
    → HasBias bias k
is_near-HasBias d position bias k h =
    let s = shifts d position bias in
    let (x, hx) = any_of-found (in_plane d position bias k) s h in
    let (y, hy) = any_of-found (in_row d position bias k x) s hx in
    let (z, hz) =
      any_of-found (λ z. names_cube d position (moved_by d position x y z) bias k) s hy in
    names_cube-HasBias d (moved_by d position x y z) bias k hz

module _ {d : Double} (ieee : IsIeee d) (position : Vector3 d.Num) where
  add_name-Adds :
      (bias : ℤ) (x y z : d.Num) (o : ChannelSet)
      → Adds
          (names_cube d position (moved_by d position x y z) bias)
          o
          (add_name d position bias x y z o)
  unfolding add_name
  add_name-Adds bias x y z o =
      let (l, e, _, _) = decompose_total ieee (moved_by d position x y z) bias in
      rw e (
        put-IsChannelSet o (list_to_string l),
        λ k. ground (arith, has-put o (list_to_string l) k (list_to_string l)),
      )

  offsets-shifts :
      (bias : ℤ)
      → IsLevel bias
      → offsets d 4 (reach d bias) (d.neg (reach d bias)) ≡ some (shifts d position bias)
  unfolding ◌-ℤ◌
  offsets-shifts bias h =
      let e = bias -ℤ pos 2 in
      let low : IsExponent e = omega (arith, -ℤ_bounds bias (pos 2)) in
      rw (
        reach-scaled ieee bias low (omega arith),
        offsets_three ieee e low,
        ieee.neg-scaled (pos 3) e (omega arith) (omega arith) low,
        ieee.scaled-zero e low,
      )

  level_names-Adds :
      (bias : ℤ) (o : ChannelSet)
      → IsLevel bias
      → Adds (is_near d position bias) o (level_names d position bias o)
  unfolding level_names
  level_names-Adds bias o h =
      let steps = shifts d position bias in
      rw (offsets-shifts bias h) (
        for_each-Adds _ _
          (λ x.
            for_each-Adds _ _ (λ y. for_each-Adds _ _ (λ z. add_name-Adds bias x y z) steps) steps)
          steps o)

  levels-Adds :
      (n : ℕ) (bias : ℤ) (o : ChannelSet)
      → (neg_part bias ≤ 58) × (pos_part bias + n ≤ 900)
      → Adds (is_near_levels d position n bias) o (levels d n position bias o)
  unfolding levels
  levels-Adds zero bias o h = (λ c. c, λ k. ground arith)
  levels-Adds (suc n) bias o h =
      Adds-bind (is_near d position bias) (is_near_levels d position n (bias +ℤ pos 1)) _ o
        (level_names d position bias o) (level_names-Adds bias o (omega arith))
        λ p. levels-Adds n (bias +ℤ pos 1) p (omega (arith, +ℤ_bounds bias (pos 1)))

  -- For every position and every range of levels from -58 to 900, `surroundingSpaceNames` returns
  -- a set in which each value is its own key, and whose keys are exactly the channels of the cubes
  -- that hold the position moved, on each axis by itself, by three quarters of the edge back, by
  -- nothing, or by three quarters of the edge forth, at the levels of the range.
  pub surrounding_space_names_lem :
      (start end : ℤ)
      → (neg_part start ≤ 58) × (pos_part start + pos_part (end -ℤ start) ≤ 900)
      → Gives
          (λ o.
            IsChannelSet o
            × ((k : Text) → has o k ≡ is_near_levels d position (pos_part (end -ℤ start)) start k))
          (surrounding_space_names d position start end)
  unfolding surrounding_space_names has
  surrounding_space_names_lem start end h =
      Gives-map (IsAdded (is_near_levels d position (pos_part (end -ℤ start)) start) [])
        (λ o.
          IsChannelSet o
          × ((k : Text) → has o k ≡ is_near_levels d position (pos_part (end -ℤ start)) start k))
        (levels d (pos_part (end -ℤ start)) position start [])
        (levels-Adds (pos_part (end -ℤ start)) start [] h) (λ o (c, e). (c tt, e))

  any_of_middle :
      {A : Type 0} (test : A → Bool) (a b c : A)
      → test b ≡ true
      → any_of test (a ∷ b ∷ c ∷ []) ≡ true
  any_of_middle test a b c h = ground arith

  -- The position's own channel is one of those around it.
  pub is_near-own :
      (bias : ℤ) (l : List Text)
      → decompose d position bias ≡ some l
      → is_near d position bias (list_to_string l) ≡ true
  is_near-own bias l e =
      let zero = d.of_int (pos 0) in
      let k = list_to_string l in
      let own : names_cube d position (moved_by d position zero zero zero) bias k ≡ true =
        rw (decompose-zero ieee position bias position, e) (eqb_text_refl k) in
      any_of_middle (in_plane d position bias k) (d.neg (reach d bias)) zero (reach d bias) (
        any_of_middle (in_row d position bias k zero) (d.neg (reach d bias)) zero (reach d bias) (
          any_of_middle (λ z. names_cube d position (moved_by d position zero zero z) bias k)
            (d.neg (reach d bias)) zero (reach d bias) own))
