-- ===== src/Tests/Quads.antt =====
-- The names of cubes (WebContent/js/QuadSpaces.js) at concrete positions.
use general_worldwide_execut.Prelude.{◌≤◌, ◌≡◌, refl, List, [], ◌∷◌, some, arith, length}
use general_worldwide_execut.Prelude.Int.{pos, negsuc, ◌+ℤ◌, ◌-ℤ◌, scale}
use general_worldwide_execut.Prelude.Text.{Text, codes}
use general_worldwide_execut.Js.Fixed.{fixed, mul_fixed, trunc}
use general_worldwide_execut.Js.Fixed.Laws.{fixed-IsIeee}
use general_worldwide_execut.Js.Numeral.{print_int}
use general_worldwide_execut.Js.Outcome.{returned}
use general_worldwide_execut.Js.Word
use general_worldwide_execut.QuadSpaces.{
  decompose, reconstitute, list_to_string, list_to_string_offset, space_name,
}
use general_worldwide_execut.QuadSpaces.Axis.{digit, next}
use general_worldwide_execut.QuadSpaces.RoundTrip.{word, recovered, reconstitute-decompose}
use general_worldwide_execut.QuadSpaces.Sum.{scaled_vector}
use general_worldwide_execut.QuadSpaces.Surrounding.{surrounding_space_names}
use general_worldwide_execut.Gwems.Sets.Laws.{has}
use general_worldwide_execut.QuadSpaces.Cells.{list_to_string-word}
use general_worldwide_execut.QuadSpaces.Surrounding.Exactly.{
  is_near_levels, surrounding_space_names_lem,
}
use general_worldwide_execut.QuadSpaces.Surrounding.Loop.{Gives}
use general_worldwide_execut.QuadSpaces.Surrounding.Sets.{IsChannelSet}
use general_worldwide_execut.QuadSpaces.Termination.{decompose_total}
use general_worldwide_execut.Three.{Vector3, Three, IsThree}

-- Vectors that store their coordinates.
abbrev plain : Three fixed
plain = record {
  vector3 = λ a b c. record { x = a; y = b; z = c };
  add = λ u v. record { x = fixed.add u.x v.x; y = fixed.add u.y v.y; z = fixed.add u.z v.z };
}

plain-IsThree : IsThree plain
plain-IsThree = record { vector3_int = λ a b c. refl; add_lem = λ u v. refl }

abbrev position : Vector3 fixed.Num
position = record {
  x = fixed.of_int (pos 5);
  y = fixed.of_int (negsuc 6);
  z = fixed.of_int (pos 100);
}

abbrev names : List Text
names =
    codes "1_1_0_0" ∷ codes "1_-2_1_2" ∷ codes "0_0_-2_4" ∷ codes "0_0_-2_6" ∷ codes "0_0_1_8" ∷ []

abbrev at_four : List Text
at_four = codes "1_-1_1_2" ∷ codes "0_0_-2_4" ∷ codes "0_0_-2_6" ∷ codes "0_0_1_8" ∷ []

decompose_runs : decompose fixed position (pos 0) ≡ some names
unfolding decompose space_name digit next ◌+ℤ◌ ◌-ℤ◌ scale mul_fixed trunc Word.to_int32 Word.and3
    Word.sar2 print_int
decompose_runs = refl

decompose-at_four : decompose fixed position (pos 2) ≡ some at_four
unfolding decompose space_name digit next ◌+ℤ◌ ◌-ℤ◌ scale mul_fixed trunc Word.to_int32 Word.and3
    Word.sar2 print_int
decompose-at_four = refl

list_to_string_runs :
    (list_to_string at_four ≡ codes "[1_-1_1_2, 0_0_-2_4, 0_0_-2_6, 0_0_1_8]")
    × (list_to_string_offset at_four 2 ≡ codes "[0_0_-2_6, 0_0_1_8]")
unfolding list_to_string list_to_string_offset
list_to_string_runs = (refl, refl)

decompose_total_example :
    (l : List Text) × (decompose fixed position (pos 2) ≡ some l) × (1 ≤ length l) × (length l ≤ 17)
decompose_total_example = decompose_total fixed-IsIeee position (pos 2)

reconstitute-decompose_example :
    (l : List Text) × (decompose fixed position (pos 0) ≡ some l)
    × (reconstitute fixed plain l
        ≡ returned (
            scaled_vector fixed-IsIeee
              (recovered (word fixed position.x (pos 0)))
              (recovered (word fixed position.y (pos 0)))
              (recovered (word fixed position.z (pos 0)))
              (pos 0)))
reconstitute-decompose_example =
    reconstitute-decompose fixed-IsIeee plain-IsThree position (pos 0) (omega arith)

surrounding_space_names_lem_example :
    Gives
      (λ o. IsChannelSet o × ((k : Text) → has o k ≡ is_near_levels fixed position 1 (pos 2) k))
      (surrounding_space_names fixed position (pos 2) (pos 3))
unfolding ◌+ℤ◌ ◌-ℤ◌
surrounding_space_names_lem_example =
    surrounding_space_names_lem fixed-IsIeee position (pos 2) (pos 3) (omega arith)

abbrev near_by : Vector3 fixed.Num
near_by = record {
  x = fixed.of_int (pos 6);
  y = fixed.of_int (negsuc 6);
  z = fixed.of_int (pos 100);
}

near_by-at_four : decompose fixed near_by (pos 2) ≡ some at_four
unfolding decompose space_name digit next ◌+ℤ◌ ◌-ℤ◌ scale mul_fixed trunc Word.to_int32 Word.and3
    Word.sar2 print_int
near_by-at_four = refl

list_to_string-word_example :
    (pos 2 ≡ pos 2)
    × (at_four ≡ at_four)
    × (word fixed position.x (pos 2) ≡ word fixed near_by.x (pos 2))
    × (word fixed position.y (pos 2) ≡ word fixed near_by.y (pos 2))
    × (word fixed position.z (pos 2) ≡ word fixed near_by.z (pos 2))
list_to_string-word_example =
    list_to_string-word fixed-IsIeee position near_by (pos 2) (pos 2) at_four at_four
      decompose-at_four near_by-at_four refl
