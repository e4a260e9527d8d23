-- ===== src/Js/Coerce.antt =====
-- How values of the messages are turned into keys and compared with strings.
use general_worldwide_execut.Prelude.{Bool, true, false, [], ◌∷◌, ◌++◌, Option, none, some}
use general_worldwide_execut.Prelude.Int.{pos}
use general_worldwide_execut.Prelude.Text.{Text, codes, eqb_text}
use general_worldwide_execut.Js.Double.{Double}
use general_worldwide_execut.Js.Json.{Value, null, bool, num, text, array, object, Items, nil, cons}

module _ (d : Double) where
  open d use {Num, of_int, nan, add, eq, of_text}

  -- ToString of a parsed value; an array joins its items by commas, `null` items empty.
  unfoldable mutual
    pub to_string : Value Num → Text
    to_string null = codes "null"
    to_string (bool true) = codes "true"
    to_string (bool false) = codes "false"
    to_string (num n) = d.to_text n
    to_string (text s) = s
    to_string (array l) = join_items l
    to_string (object m) = codes "[object Object]"

    pub join_items : Items Num → Text
    join_items nil = []
    join_items (cons v nil) = join_item v
    join_items (cons v (cons w l)) = join_item v ++ b',' ∷ join_items (cons w l)

    pub join_item : Value Num → Text
    join_item null = []
    join_item (bool true) = codes "true"
    join_item (bool false) = codes "false"
    join_item (num n) = d.to_text n
    join_item (text s) = s
    join_item (array l) = join_items l
    join_item (object m) = codes "[object Object]"

  -- `v == s` for a string `s`.
  unfoldable pub equals_text : Value Num → Text → Bool
  unfolding to_string
  equals_text null s = false
  equals_text (bool true) s = eq (of_int (pos 1)) (of_text s)
  equals_text (bool false) s = eq (of_int (pos 0)) (of_text s)
  equals_text (num n) s = eq n (of_text s)
  equals_text (text t) s = eqb_text t s
  equals_text (array l) s = eqb_text (join_items l) s
  equals_text (object m) s = eqb_text (codes "[object Object]") s

  -- ToBoolean of a value, where `none` is `undefined`.
  unfoldable pub truthy : Option (Value Num) → Bool
  truthy none = false
  truthy (some null) = false
  truthy (some (bool b)) = b
  truthy (some (num n)) = d.truthy n
  truthy (some (text [])) = false
  truthy (some (text (c ∷ s))) = true
  truthy (some (array l)) = true
  truthy (some (object m)) = true

  -- ToNumber of a value, where `none` is `undefined`. An array counts as its text, an object as NaN.
  unfoldable pub to_number : Option (Value Num) → Num
  unfolding to_string
  to_number none = nan
  to_number (some null) = of_int (pos 0)
  to_number (some (bool true)) = of_int (pos 1)
  to_number (some (bool false)) = of_int (pos 0)
  to_number (some (num n)) = n
  to_number (some (text s)) = of_text s
  to_number (some (array l)) = of_text (join_items l)
  to_number (some (object m)) = nan

  -- `v + n` for a number `n`: a concatenation if `v` is a string or becomes one, and else a sum.
  unfoldable pub plus : Option (Value Num) → Num → Option (Value Num)
  unfolding to_number
  plus (some (text s)) n = some (text (s ++ d.to_text n))
  plus (some (array l)) n = some (text (join_items l ++ d.to_text n))
  plus (some (object m)) n = some (text (codes "[object Object]" ++ d.to_text n))
  plus none n = some (num (add (to_number none) n))
  plus (some null) n = some (num (add (to_number (some null)) n))
  plus (some (bool b)) n = some (num (add (to_number (some (bool b))) n))
  plus (some (num a)) n = some (num (add a n))
