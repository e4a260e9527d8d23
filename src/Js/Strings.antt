-- ===== src/Js/Strings.antt =====
-- The methods of strings that the scripts call: `split` and `trim`.
pub mod Split
use general_worldwide_execut.Prelude.{
  ℕ, zero, suc, ◌-◌, ◌≡◌, refl, Bool, true, false, ◌&&◌, List, [], ◌∷◌, ◌++◌, ◌==◌, length,
  if◌then◌else◌,
}
use general_worldwide_execut.Prelude.Text.{Text, codes}
use general_worldwide_execut.Js.Numeral.{trim_left}
use mathlib.Core.List.{reverse}

-- Whether `sep` stands at the front of `s`.
unfoldable pub starts_with : Text → Text → Bool
starts_with [] s = true
starts_with (c ∷ sep) [] = false
starts_with (c ∷ sep) (d ∷ s) = c == d && starts_with sep s

-- The parts of a text, where `skip` characters of a separator are still to be passed over and
-- `part` is the part so far.
unfoldable pub split_from : Text → Text → ℕ → Text → List Text
unfolding starts_with
split_from sep [] skip part = part ∷ []
split_from sep (c ∷ s) (suc skip) part = split_from sep s skip part
split_from sep (c ∷ s) zero part = elim (starts_with sep (c ∷ s)) [
  | true ↦ part ∷ split_from sep s (length sep - 1) []
  | false ↦ split_from sep s 0 (part ++ c ∷ [])
]

-- `s.split(sep)` for a separator that is not empty.
unfoldable pub split : Text → Text → List Text
unfolding split_from
split s sep = split_from sep s 0 []

-- `s.trim()`.
unfoldable pub trim : Text → Text
unfolding trim_left
trim s = reverse (trim_left (reverse (trim_left s)))

split_tests :
    (split (codes "a##b#") (codes "#") ≡ codes "a" ∷ [] ∷ codes "b" ∷ [] ∷ [])
    × (split (codes "xabyab") (codes "ab") ≡ codes "x" ∷ codes "y" ∷ [] ∷ [])
unfolding split
split_tests = (refl, refl)
