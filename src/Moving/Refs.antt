-- ===== src/Moving/Refs.antt =====
-- The references of the map.
use general_worldwide_execut.Prelude.{
  ℕ, ◌≤◌, ◌<◌, List, [], ◌∷◌, some, Bool, true, false, ◌==◌, ◌&&◌, ◌||◌, not, ◌≡◌, refl, arith, inl,
  inr, Bool-cases,
}
use general_worldwide_execut.Prelude.Text.{Text, eqb_text}
use general_worldwide_execut.Js.Object.{get, put}
use general_worldwide_execut.Moving.{is_ref}

-- Whether the map holds the object.
unfoldable pub holds : List (Text × ℕ) → ℕ → Bool
holds [] r = false
holds ((k, p) ∷ m) r = p == r || holds m r

-- No object has two ids.
abbrev pub AreDistinct : List (Text × ℕ) → Type 0
AreDistinct [] = Unit
AreDistinct ((k, p) ∷ m) = (holds m p ≡ false) × AreDistinct m

-- All references are older than `n`.
abbrev pub AreOlder : ℕ → List (Text × ℕ) → Type 0
AreOlder n [] = Unit
AreOlder n ((k, p) ∷ m) = (p < n) × AreOlder n m

pub holds-get : (m : List (Text × ℕ)) (k : Text) (p : ℕ) → get m k ≡ some p → holds m p ≡ true
unfolding get holds
holds-get [] k p e = ground arith
holds-get ((j, q) ∷ m) k p e = ground (arith, holds-get m k p)

is_ref-get :
    (m : List (Text × ℕ)) (k : Text) (r : ℕ) → holds m r ≡ false → is_ref (get m k) r ≡ false
unfolding get holds
is_ref-get [] k r h = refl
is_ref-get ((j, q) ∷ m) k r h = ground (arith, is_ref-get m k r)

-- The object under the key is exchanged for the new one.
pub holds-put :
    (m : List (Text × ℕ)) (k : Text) (o r : ℕ)
    → AreDistinct m
    → holds (put m k o) r ≡ (o == r || (holds m r && not (is_ref (get m k) r)))
unfolding get put holds
holds-put [] k o r h = ground arith
holds-put ((j, q) ∷ m) k o r (hq, h) = elim (Bool-cases (eqb_text j k)) [
  | inl e ↦
      rw (e, put, get)
        (elim (Bool-cases (q == r)) [
          | inl g ↦ let same : q ≡ r = ground arith in rw (← same) (rw hq (ground arith))
          | inr g ↦ rw g (ground arith)
        ])
  | inr e ↦
      rw (e, put, get, holds-put m k o r h)
        (elim (Bool-cases (q == r)) [
          | inl g ↦
              let same : q ≡ r = ground arith in
              let other : is_ref (get m k) q ≡ false = is_ref-get m k q hq in
              rw (← same) (rw other (ground arith))
          | inr g ↦ rw g (ground arith)
        ])
]

pub put-AreDistinct :
    (m : List (Text × ℕ)) (k : Text) (o : ℕ)
    → holds m o ≡ false
    → AreDistinct m
    → AreDistinct (put m k o)
unfolding put holds
put-AreDistinct [] k o g h = (refl, tt)
put-AreDistinct ((j, q) ∷ m) k o g (hq, h) =
    ground (arith, put-AreDistinct m k o, holds-put m k o q h)

pub AreOlder-holds :
    (n : ℕ) (m : List (Text × ℕ)) (r : ℕ) → AreOlder n m → n ≤ r → holds m r ≡ false
unfolding holds
AreOlder-holds n [] r h g = refl
AreOlder-holds n ((k, p) ∷ m) r (hp, h) g = ground (arith, AreOlder-holds n m r h g)

pub AreOlder-le : (n l : ℕ) (m : List (Text × ℕ)) → AreOlder n m → n ≤ l → AreOlder l m
AreOlder-le n l [] h g = tt
AreOlder-le n l ((k, p) ∷ m) (hp, h) g = (omega arith, AreOlder-le n l m h g)

pub put-AreOlder :
    (n : ℕ) (m : List (Text × ℕ)) (k : Text) (o : ℕ) → AreOlder n m → o < n → AreOlder n (put m k o)
unfolding put
put-AreOlder n [] k o h g = (g, tt)
put-AreOlder n ((j, q) ∷ m) k o (hq, h) g = ground (arith, put-AreOlder n m k o h g)
