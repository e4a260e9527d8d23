-- ===== src/Gwems/Sets/Laws.antt =====
-- The difference of sets.
use general_worldwide_execut.Prelude.{
  ◌≡◌, refl, ◌∙◌, Bool, false, ◌||◌, List, [], ◌∷◌, Option, none, some, arith, inl, inr, Bool-cases,
  if◌then◌else◌,
}
use general_worldwide_execut.Prelude.Text.{Text, eqb_text, eqb_text_iff}
use general_worldwide_execut.Js.Object.{put, get, get-put}
use general_worldwide_execut.Gwems.Sets.{Object, Copy, copy, clear, truthy, collect, added_to_set}

module _ {V : Type 0} where
  -- Whether the object has the property.
  unfoldable pub has : List (Text × V) → Text → Bool
  has [] k = false
  has ((j, v) ∷ o) k = eqb_text j k || has o k

  -- No two properties share a name, as in every object.
  abbrev pub IsObject : List (Text × V) → Type 0
  IsObject [] = Unit
  IsObject ((k, v) ∷ o) = (has o k ≡ false) × IsObject o

  pub has-put :
      (o : List (Text × V)) (k j : Text) (v : V) → has (put o k v) j ≡ (eqb_text k j || has o j)
  unfolding has put
  has-put [] k j v = refl
  has-put ((i, w) ∷ o) k j v =
      ground (arith, eqb_text_iff i k, eqb_text_iff i j, eqb_text_iff k j, has-put o k j v)

  pub put-IsObject : (o : List (Text × V)) (k : Text) (v : V) → IsObject o → IsObject (put o k v)
  unfolding put
  put-IsObject [] k v h = (unfold has in refl, tt)
  put-IsObject ((i, w) ∷ o) k v (h, hs) =
      ground (arith, put-IsObject o k v hs, has-put o k i v, eqb_text_iff i k, eqb_text_iff k i)

  get-has-none : (o : List (Text × V)) (k : Text) → has o k ≡ false → get o k ≡ none
  unfolding has get
  get-has-none [] k h = refl
  get-has-none ((j, v) ∷ o) k h = ground (arith, get-has-none o k)

get-copy-has : (o : Object) (k : Text) → has (copy o) k ≡ has o k
unfolding has copy
get-copy-has [] k = refl
get-copy-has ((j, v) ∷ o) k = ground (arith, get-copy-has o k)

copy-IsObject : (o : Object) → IsObject o → IsObject (copy o)
unfolding copy
copy-IsObject [] h = h
copy-IsObject ((k, v) ∷ o) (h, hs) = (get-copy-has o k ∙ h, copy-IsObject o hs)

clear-IsObject : (before : Object) (res : Copy) → IsObject res → IsObject (clear before res)
unfolding clear
clear-IsObject [] res h = h
clear-IsObject ((k, v) ∷ before) res h = clear-IsObject before _ (put-IsObject res k none h)

-- What the copy holds at a key, `undefined` counted as `null`.
abbrev value : Option (Option Text) → Option Text
value none = none
value (some v) = v

value-clear :
    (before : Object) (res : Copy) (k : Text)
    → value (get (clear before res) k) ≡ (if has before k then none else value (get res k))
unfolding clear has
value-clear [] res k = refl
value-clear ((j, v) ∷ before) res k =
    ground (arith, value-clear before (put res j none) k, get-put res j k none)

value-copy : (o : Object) (k : Text) → value (get (copy o) k) ≡ get o k
unfolding copy get
value-copy [] k = refl
value-copy ((j, v) ∷ o) k = ground (arith, value-copy o k)

get_nil : (k : Text) → get {V = Text} [] k ≡ none
unfolding get
get_nil k = refl

truthy_none : truthy none ≡ false
unfolding truthy
truthy_none = refl

-- The second loop copies the keys whose value counts as true.
get-collect :
    (res : Copy) (res2 : Object) (k : Text)
    → IsObject res
    → get (collect res res2) k ≡ (if truthy (value (get res k)) then some k else get res2 k)
unfolding collect get truthy
get-collect [] res2 k h = refl
get-collect ((j, v) ∷ res) res2 k (h, hs) =
    let rest = get-collect res (if truthy v then put res2 j j else res2) k hs in
    let gone = get-has-none res j h in
    ground (arith, rest, gone, get-put res2 j k j, eqb_text_iff j k)

collect-IsObject : (res : Copy) (res2 : Object) → IsObject res2 → IsObject (collect res res2)
unfolding collect
collect-IsObject [] res2 h = h
collect-IsObject ((j, v) ∷ res) res2 h = elim (Bool-cases (truthy v)) [
  | inl e ↦ rw e (collect-IsObject res (put res2 j j) (put-IsObject res2 j j h))
  | inr e ↦ rw e (collect-IsObject res res2 h)
]

-- `addedToSet` returns exactly the keys of `after` that hold a text which is not empty and are no
-- keys of `before`, each as its own value.
pub get-added_to_set :
    (before after : Object) (k : Text)
    → IsObject after
    → get (added_to_set before after) k
      ≡ (if has before k then none else if truthy (get after k) then some k else none)
unfolding added_to_set
get-added_to_set before after k h =
    let found =
      get-collect (clear before (copy after)) [] k
        (clear-IsObject before (copy after) (copy-IsObject after h)) in
    ground
      (arith, found, value-clear before (copy after) k, value-copy after k, get_nil k, truthy_none)

pub added_to_set-IsObject : (before after : Object) → IsObject (added_to_set before after)
unfolding added_to_set
added_to_set-IsObject before after = collect-IsObject (clear before (copy after)) [] tt
