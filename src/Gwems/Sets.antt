-- ===== src/Gwems/Sets.antt =====
-- `GWEMS.addedToSet` and `GWEMS.removedFromSet`.
pub mod Laws
use general_worldwide_execut.Prelude.{
  Bool, true, false, List, [], ◌∷◌, Option, none, some, if◌then◌else◌,
}
use general_worldwide_execut.Prelude.Text.{Text}
use general_worldwide_execut.Js.Object.{put}

-- An object of strings, and the copy whose values may be `null`.
abbrev pub Object : Type 0
Object = List (Text × Text)

abbrev pub Copy : Type 0
Copy = List (Text × Option Text)

-- `JSON.parse(JSON.stringify(after))`.
unfoldable pub copy : Object → Copy
copy [] = []
copy ((k, v) ∷ o) = (k, some v) ∷ copy o

-- `for (key in before) res[key] = null;`
unfoldable pub clear : Object → Copy → Copy
clear [] res = res
clear ((k, v) ∷ before) res = clear before (put res k none)

-- `if (res[key])`: neither `null` nor the empty string.
unfoldable pub truthy : Option Text → Bool
truthy none = false
truthy (some []) = false
truthy (some (c ∷ s)) = true

-- `for (key in res) if (res[key]) res2[key] = key;`
unfoldable pub collect : Copy → Object → Object
unfolding truthy
collect [] res2 = res2
collect ((k, v) ∷ res) res2 = collect res (if truthy v then put res2 k k else res2)

unfoldable pub added_to_set : Object → Object → Object
unfolding copy clear collect
added_to_set before after = collect (clear before (copy after)) []

unfoldable pub removed_from_set : Object → Object → Object
unfolding added_to_set
removed_from_set before after = added_to_set after before
