-- ===== src/QuadSpaces.antt =====
-- `QuadSpaces` of WebContent/js/QuadSpaces.js: names of cubes at every power of four.
pub mod Accessors
pub mod Axis
pub mod Cells
pub mod Channel
pub mod Corner
pub mod Names
pub mod RoundTrip
pub mod Sum
pub mod Surrounding
pub mod Termination
use general_worldwide_execut.Prelude.{
  ℕ, zero, suc, ◌+◌, Bool, true, false, ◌&&◌, not, List, [], ◌∷◌, ◌++◌, Option, none, some, drop,
  if◌then◌else◌,
}
use general_worldwide_execut.Prelude.Int.{ℤ, pos, neg_part, ◌+ℤ◌, ◌-ℤ◌, eqb_ℤ}
use general_worldwide_execut.Prelude.Text.{Text, codes}
use general_worldwide_execut.Js.Double.{Double}
use general_worldwide_execut.Js.Numeral.{print_int, parse_int}
use general_worldwide_execut.Js.Object.{put}
use general_worldwide_execut.Js.Outcome.{Outcome, returned, thrown, ◌>>=◌}
use general_worldwide_execut.Js.Strings.{split}
use general_worldwide_execut.Js.Word
use general_worldwide_execut.Three.{Vector3, Three}
use Axis.{digit, next}

-- `"" + (i1 - 2) + "_" + (i2 - 2) + "_" + (i3 - 2) + "_" + (p)`
unfoldable pub space_name : ℤ → ℤ → ℤ → ℤ → Text
space_name a b c p =
    print_int a ++ b'_' ∷ (print_int b ++ b'_' ∷ (print_int c ++ b'_' ∷ print_int p))

-- `x == 0`
abbrev pub is_zero : ℤ → Bool
is_zero x = eqb_ℤ x (pos 0)

-- `Option.map` of a `push` in front.
abbrev pub pushed : Text → Option (List Text) → Option (List Text)
pushed s none = none
pushed s (some l) = some (s ∷ l)

-- The `while (true)` loop of `decompose`; `none` means that the fuel ran out.
unfoldable pub decompose_loop : ℕ → ℤ → ℤ → ℤ → ℤ → Option (List Text)
decompose_loop zero x y z p = none
decompose_loop (suc f) x y z p =
    let s = space_name (digit x) (digit y) (digit z) p in
    elim (is_zero (next x) && is_zero (next y) && is_zero (next z)) [
      | true ↦ some (s ∷ [])
      | false ↦ pushed s (decompose_loop f (next x) (next y) (next z) (p +ℤ pos 2))
    ]

-- The loop makes at most 17 rounds on words of 32 bits.
abbrev pub max_rounds : ℕ
max_rounds = 17

-- The text between the brackets, where `i` items are written already.
unfoldable pub list_items : List Text → ℕ → Text
list_items [] i = []
list_items (s ∷ l) zero = s ++ list_items l 1
list_items (s ∷ l) (suc i) = b',' ∷ b' ' ∷ (s ++ list_items l (suc (suc i)))

unfoldable pub list_to_string : List Text → Text
unfolding list_items
list_to_string list = b'[' ∷ (list_items list 0 ++ b']' ∷ [])

unfoldable pub list_to_string_offset : List Text → ℕ → Text
unfolding list_items
list_to_string_offset list offset = b'[' ∷ (list_items (drop offset list) 0 ++ b']' ∷ [])

module _ (d : Double) where
  open d use {Num, of_int, nan, add, mul, div, neg, pow2, le, to_int32}

  unfoldable pub decompose : Vector3 Num → ℤ → Option (List Text)
  unfolding decompose_loop
  decompose v bias =
      let power = pow2 (of_int (pos 0 -ℤ bias)) in
      decompose_loop max_rounds (to_int32 (mul v.x power)) (to_int32 (mul v.y power))
        (to_int32 (mul v.z power)) bias

  -- The number that `parseInt` returns.
  unfoldable pub parsed : Text → Num
  parsed s = elim (parse_int s) [ none ↦ nan | some n ↦ of_int n ]

  -- `((i + off) & 0xFFFFFFFC) != 0`
  unfoldable pub is_out_of_range : Num → Bool
  is_out_of_range i = not (is_zero (Word.and_high (to_int32 (add i (of_int (pos 2))))))

  module _ (three : Three d) where
    -- The corner of a name that is split into its parts.
    unfoldable pub corner_of_parts : List Text → Outcome (Vector3 Num)
    unfolding parsed is_out_of_range
    corner_of_parts (a ∷ b ∷ c ∷ e ∷ []) =
        let vmin = three.vector3 (parsed a) (parsed b) (parsed c) in
        let power = pow2 (parsed e) in
        if is_out_of_range (parsed a)
        then thrown
        else if is_out_of_range (parsed b)
        then thrown
        else if is_out_of_range (parsed c)
        then thrown
        else returned (record { x = mul vmin.x power; y = mul vmin.y power; z = mul vmin.z power })
    corner_of_parts _ = thrown

    unfoldable pub get_min_corner : Text → Outcome (Vector3 Num)
    unfolding corner_of_parts
    get_min_corner str = corner_of_parts (split str (b'_' ∷ []))

    -- The `for … in` loop of `reconstitute`.
    unfoldable pub add_corners : List Text → Vector3 Num → Outcome (Vector3 Num)
    unfolding get_min_corner
    add_corners [] sum = returned sum
    add_corners (str ∷ l) sum = get_min_corner str >>= λ v. add_corners l (three.add sum v)

    unfoldable pub reconstitute : List Text → Outcome (Vector3 Num)
    unfolding add_corners
    reconstitute quadspaces =
        add_corners quadspaces (three.vector3 (of_int (pos 0)) (of_int (pos 0)) (of_int (pos 0)))
