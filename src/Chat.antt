-- ===== src/Chat.antt =====
-- `wwc` of WebContent/js/WootWideChat.js: the tags of a text.
pub mod Tags
pub mod RoundTrip
use general_worldwide_execut.Prelude.{
  ℕ, zero, suc, ◌+◌, List, [], ◌∷◌, ◌++◌, Option, none, some, Bool, true, false, ◌==◌, leb, length,
  if◌then◌else◌,
}
use general_worldwide_execut.Prelude.Text.{Text, codes}
use general_worldwide_execut.Js.Object.{put}
use general_worldwide_execut.Js.Strings.{split, trim}

-- A set of tags: an object where each value is its own key.
abbrev pub TagSet : Type 0
TagSet = List (Text × Text)

-- `str.replace('"', '\\"')`: the first quote gets a backslash.
unfoldable pub escape_quote : Text → Text
escape_quote [] = []
escape_quote (c ∷ s) = let rest = escape_quote s in if c == b'"' then b'\\' ∷ c ∷ s else c ∷ rest

-- `a[0]`, where `split` always gives a part.
abbrev pub first : List Text → Text
first [] = []
first (s ∷ l) = s

-- The tag of one part.
unfoldable pub tag_of : Text → Text
unfolding escape_quote
tag_of part = escape_quote (first (split (trim part) (codes " ")))

-- The loop over the parts, from the set so far.
unfoldable pub extract_parts : List Text → TagSet → TagSet
unfolding tag_of
extract_parts [] result = result
extract_parts (part ∷ parts) result =
    let str = tag_of part in
    extract_parts parts (if leb 3 (length str) then put result str str else result)

-- `if (!delim) delim = "#"`; `none` is `undefined`.
abbrev pub delimiter : Option Text → Text
delimiter none = codes "#"
delimiter (some []) = codes "#"
delimiter (some (c ∷ s)) = c ∷ s

unfoldable pub extract_tags : Text → Option Text → TagSet
unfolding extract_parts
extract_tags text delim = extract_parts (split text (delimiter delim)) []

-- `if (delim != "") delim = '#'`: every delimiter but the empty one becomes `#`.
abbrev pub tag_mark : Option Text → Text
tag_mark (some []) = []
tag_mark _ = codes "#"

-- The loop over the keys, where `start` tags are written already.
unfoldable pub tag_items : TagSet → Text → ℕ → Text
tag_items [] delim start = []
tag_items ((i, v) ∷ map) delim zero = delim ++ (i ++ tag_items map delim 1)
tag_items ((i, v) ∷ map) delim (suc start) =
    b' ' ∷ (delim ++ (i ++ tag_items map delim (suc (suc start))))

unfoldable pub to_tags : TagSet → Option Text → Text
unfolding tag_items
to_tags map delim = tag_items map (tag_mark delim) 0
