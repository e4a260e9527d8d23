-- ===== src/QuadSpaces/Surrounding.antt =====
-- `QuadSpaces.surroundingSpaceNames`: the channels of the cubes around a position.
pub mod Exactly
pub mod Laws
pub mod Loop
mod Offsets
pub mod Sets
use general_worldwide_execut.Prelude.{
  ℕ, zero, suc, ◌+◌, Bool, true, false, List, [], ◌∷◌, Option, none, some,
}
use general_worldwide_execut.Prelude.Int.{ℤ, pos, pos_part, ◌+ℤ◌, ◌-ℤ◌}
use general_worldwide_execut.Prelude.Text.{Text}
use general_worldwide_execut.Js.Double.{Double}
use general_worldwide_execut.Js.Object.{put}
use general_worldwide_execut.QuadSpaces.{decompose, list_to_string}
use general_worldwide_execut.Three.{Vector3}

-- A set of channels: an object where each value is its own key.
abbrev pub ChannelSet : Type 0
ChannelSet = List (Text × Text)

infixl 5 ◌>>=◌
abbrev pub ◌>>=◌ {ℓ κ} : {A : Type ℓ} {B : Type κ} → Option A → (A → Option B) → Option B
none >>= f = none
some a >>= f = f a

-- A loop over a list of values whose body may run out of fuel.
unfoldable pub for_each : {A S : Type 0} → List A → (A → S → Option S) → S → Option S
for_each [] body s = some s
for_each (a ∷ l) body s = body a s >>= for_each l body

abbrev pub found : {A : Type 0} → A → Option (List A) → Option (List A)
found a none = none
found a (some l) = some (a ∷ l)

module _ (d : Double) where
  open d use {Num, of_int, add, mul, div, neg, pow2, le}

  -- The values of `x` in `for (var x = -length; x <= lenEnd; x += length)`, from `x` on. The first
  -- argument is fuel.
  unfoldable pub offsets : ℕ → Num → Num → Option (List Num)
  offsets zero length x = none
  offsets (suc f) length x = elim (le x length) [
    | true ↦ found x (offsets f length (add x length))
    | false ↦ some []
  ]

  -- The body of the innermost loop.
  unfoldable pub add_name : Vector3 Num → ℤ → Num → Num → Num → ChannelSet → Option ChannelSet
  add_name position bias x y z set = do
    quad ←
        decompose d (record { x = add position.x x; y = add position.y y; z = add position.z z })
          bias
    let str = list_to_string quad
    some (put set str str)

  -- `Math.pow(2, bias) * 3.0 / 4.0`
  unfoldable pub reach : ℤ → Num
  reach bias = div (mul (pow2 (of_int bias)) (of_int (pos 3))) (of_int (pos 4))

  -- One round of the loop over `bias`: three offsets for each axis, and one test that fails.
  unfoldable pub level_names : Vector3 Num → ℤ → ChannelSet → Option ChannelSet
  unfolding offsets reach
  level_names position bias set = do
    let length = reach bias
    steps ← offsets 4 length (neg length)
    for_each steps (λ x. for_each steps (λ y. for_each steps (λ z. add_name position bias x y z)))
        set

  unfoldable pub levels : ℕ → Vector3 Num → ℤ → ChannelSet → Option ChannelSet
  unfolding level_names
  levels zero position bias set = some set
  levels (suc n) position bias set =
      level_names position bias set >>= levels n position (bias +ℤ pos 1)

  unfoldable pub surrounding_space_names : Vector3 Num → ℤ → ℤ → Option ChannelSet
  unfolding levels
  surrounding_space_names position start end = levels (pos_part (end -ℤ start)) position start []
