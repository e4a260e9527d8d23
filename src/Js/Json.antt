-- ===== src/Js/Json.antt =====
-- JSON values and `JSON.stringify`.
use general_worldwide_execut.Prelude.{
  ℕ, ◌+◌, ◌-◌, ◌/◌, ◌%◌, Bool, true, false, [], ◌∷◌, ◌++◌, Option, none, some, ltb, ◌==◌,
  if◌then◌else◌,
}
use general_worldwide_execut.Prelude.Text.{Text, codes, eqb_text}

-- The values over a type of numbers.
mutual
  pub data Value (N : Type 0) : Type 0 where
    null : Value N
    bool : Bool → Value N
    num : N → Value N
    text : Text → Value N
    array : Items N → Value N
    object : Members N → Value N

  pub data Items (N : Type 0) : Type 0 where
    nil : Items N
    cons : Value N → Items N → Items N

  pub data Members (N : Type 0) : Type 0 where
    end : Members N
    member : Text → Value N → Members N → Members N

-- A hexadecimal digit in lower case.
unfoldable pub hex : ℕ → ℕ
hex n = if ltb n 10 then b'0' + n else b'a' + (n - 10)

-- One code unit between quotes.
unfoldable pub quote_unit : ℕ → Text
unfolding hex
quote_unit c =
    if c == b'"'
    then codes "\\\""
    else if c == b'\\'
    then codes "\\\\"
    else if c == 8
    then codes "\\b"
    else if c == 9
    then codes "\\t"
    else if c == 10
    then codes "\\n"
    else if c == 12
    then codes "\\f"
    else if c == 13
    then codes "\\r"
    else if ltb c 32
    then codes "\\u00" ++ hex (c / 16) ∷ hex (c % 16) ∷ []
    else c ∷ []

unfoldable pub quote_units : Text → Text
unfolding quote_unit
quote_units [] = []
quote_units (c ∷ s) = quote_unit c ++ quote_units s

-- A string as JSON.
unfoldable pub quote : Text → Text
unfolding quote_units
quote s = b'"' ∷ (quote_units s ++ b'"' ∷ [])

-- `JSON.stringify(v)`, where `print` writes a number.
unfoldable mutual
  unfolding quote

  pub stringify : {N : Type 0} → (N → Text) → Value N → Text
  stringify print null = codes "null"
  stringify print (bool true) = codes "true"
  stringify print (bool false) = codes "false"
  stringify print (num n) = print n
  stringify print (text s) = quote s
  stringify print (array l) = b'[' ∷ (stringify_items print l ++ b']' ∷ [])
  stringify print (object m) = b'{' ∷ (stringify_members print m ++ b'}' ∷ [])

  pub stringify_items : {N : Type 0} → (N → Text) → Items N → Text
  stringify_items print nil = []
  stringify_items print (cons v nil) = stringify print v
  stringify_items print (cons v (cons w l)) =
      stringify print v ++ b',' ∷ stringify_items print (cons w l)

  pub stringify_members : {N : Type 0} → (N → Text) → Members N → Text
  stringify_members print end = []
  stringify_members print (member k v end) = quote k ++ b':' ∷ stringify print v
  stringify_members print (member k v (member j w m)) =
      quote k ++ b':' ∷ (stringify print v ++ b',' ∷ stringify_members print (member j w m))

-- `obj[k]` of an object, where the last property of a name counts; `none` is `undefined`.
unfoldable pub member_of : {N : Type 0} → Members N → Text → Option (Value N)
member_of end k = none
member_of (member j v m) k =
    let rest = member_of m k in
    elim rest [ some w ↦ some w | none ↦ if eqb_text j k then some v else none ]
