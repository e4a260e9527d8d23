-- ===== src/Js/Object.antt =====
-- Plain objects as maps: the properties in the order of their creation, which `for … in` follows
-- for names that are no array indices.
use general_worldwide_execut.Prelude.{
  ◌≡◌, refl, List, [], ◌∷◌, ◌++◌, Option, none, some, arith, if◌then◌else◌,
}
use general_worldwide_execut.Prelude.Text.{Text, eqb_text, eqb_text_iff}

module _ {ℓ} {V : Type ℓ} where
  -- `o[k]`, or `undefined`.
  unfoldable pub get : List (Text × V) → Text → Option V
  get [] k = none
  get ((j, v) ∷ o) k = if eqb_text j k then some v else get o k

  -- `o[k] = v`.
  unfoldable pub put : List (Text × V) → Text → V → List (Text × V)
  put [] k v = (k, v) ∷ []
  put ((j, w) ∷ o) k v = if eqb_text j k then (j, v) ∷ o else (j, w) ∷ put o k v

  -- `Object.keys(o)`.
  unfoldable pub keys : List (Text × V) → List Text
  keys [] = []
  keys ((j, v) ∷ o) = j ∷ keys o

  -- An assignment changes its own property and no other.
  pub get-put :
      (o : List (Text × V)) (k j : Text) (v : V)
      → get (put o k v) j ≡ (if eqb_text k j then some v else get o j)
  unfolding get put
  get-put [] k j v = refl
  get-put ((i, w) ∷ o) k j v =
      ground (arith, eqb_text_iff i k, eqb_text_iff i j, eqb_text_iff k j, get-put o k j v)

  pub keys-put-some :
      (o : List (Text × V)) (k : Text) (v w : V) → get o k ≡ some w → keys (put o k v) ≡ keys o
  unfolding get put keys
  keys-put-some [] k v w h = ground arith
  keys-put-some ((j, u) ∷ o) k v w h = ground (arith, keys-put-some o k v w)

  pub keys-put-none :
      (o : List (Text × V)) (k : Text) (v : V)
      → get o k ≡ none
      → keys (put o k v) ≡ keys o ++ k ∷ []
  unfolding get put keys
  keys-put-none [] k v h = refl
  keys-put-none ((j, u) ∷ o) k v h = ground (arith, keys-put-none o k v)

  pub get-put_self : (o : List (Text × V)) (k : Text) (v : V) → get (put o k v) k ≡ some v
  get-put_self o k v = ground (arith, get-put o k k v, eqb_text_iff k k)
