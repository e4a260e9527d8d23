-- ===== src/QuadSpaces/Surrounding/Loop.antt =====
-- Loops whose body may fail, and what their rounds keep.
use general_worldwide_execut.Prelude.{◌≡◌, refl, List, [], ◌∷◌, Option, none, some}
use general_worldwide_execut.QuadSpaces.Surrounding.{◌>>=◌, for_each}
use mathlib.Core.Path.{subst}

-- A run ends in a state with `P`.
abbrev pub Gives : {S : Type 0} → (S → Type 0) → Option S → Type 0
Gives P none = ⊥
Gives P (some s) = P s

pub Gives-bind :
    {S T : Type 0} (P : S → Type 0) (Q : T → Type 0) (f : S → Option T) (r : Option S)
    → Gives P r
    → ((s : S) → P s → Gives Q (f s))
    → Gives Q (r >>= f)
Gives-bind P Q f none h k = absurd h
Gives-bind P Q f (some s) h k = k s h

pub Gives-some :
    {S : Type 0} (P : S → Type 0) (r : Option S) → Gives P r → (s : S) × (r ≡ some s) × P s
Gives-some P none h = absurd h
Gives-some P (some s) h = (s, refl, h)

pub Gives-map :
    {S : Type 0} (P Q : S → Type 0) (r : Option S) → Gives P r → ((s : S) → P s → Q s) → Gives Q r
Gives-map P Q none h k = absurd h
Gives-map P Q (some s) h k = k s h

pub Gives-end : {S : Type 0} (P : S → Type 0) (r : Option S) (s : S) → Gives P r → r ≡ some s → P s
Gives-end P r s h e = subst (Gives P) e h

pub Gives-both :
    {S : Type 0} (P Q : S → Type 0) (r : Option S)
    → Gives P r
    → Gives Q r
    → Gives (λ s. P s × Q s) r
Gives-both P Q none h k = h
Gives-both P Q (some s) h k = (h, k)

module _ {A S : Type 0} (P : S → Type 0) (body : A → S → Option S) where
  -- A property that every round keeps holds at the end of the loop.
  pub for_each-Gives :
      ((a : A) (s : S) → P s → Gives P (body a s))
      → (l : List A) (s : S) → P s
      → Gives P (for_each l body s)
  unfolding for_each
  for_each-Gives keep [] s h = h
  for_each-Gives keep (a ∷ l) s h =
      Gives-bind P P (for_each l body) (body a s) (keep a s h) (for_each-Gives keep l)

  -- What the second of three rounds establishes and the third keeps holds at the end.
  pub for_each-middle :
      (Q : S → Type 0) (a b c : A) (s : S)
      → P s
      → ((x : A) (s : S) → P s → Gives P (body x s))
      → ((x : A) (s : S) → Q s → Gives Q (body x s))
      → ((s : S) → P s → Gives Q (body b s))
      → Gives Q (for_each (a ∷ b ∷ c ∷ []) body s)
  unfolding for_each
  for_each-middle Q a b c s h keep keepQ reach = Gives-bind P Q _ (body a s) (keep a s h) λ t ht.
      Gives-bind Q Q _ (body b t) (reach t ht)
        λ u hu. Gives-bind Q Q _ (body c u) (keepQ c u hu) λ w hw. hw

-- Three nested loops over one list of steps.
module _ {A S : Type 0} (body : A → A → A → S → Option S) where
  abbrev pub row : List A → A → A → S → Option S
  row steps x y = for_each steps (body x y)

  abbrev pub plane : List A → A → S → Option S
  plane steps x = for_each steps (row steps x)

  abbrev pub nest : List A → S → Option S
  nest steps = for_each steps (plane steps)

  module _ (P : S → Type 0) (keep : (x y z : A) (s : S) → P s → Gives P (body x y z s)) where
    row-Gives : (steps : List A) (x y : A) (s : S) → P s → Gives P (row steps x y s)
    row-Gives steps x y = for_each-Gives P (body x y) (keep x y) steps

    plane-Gives : (steps : List A) (x : A) (s : S) → P s → Gives P (plane steps x s)
    plane-Gives steps x = for_each-Gives P (row steps x) (row-Gives steps x) steps

    pub nest-Gives : (steps : List A) (s : S) → P s → Gives P (nest steps s)
    nest-Gives steps = for_each-Gives P (plane steps) (plane-Gives steps) steps

  -- What the body establishes at the middle of the cube holds at the end.
  pub nest-middle :
      (P Q : S → Type 0) (a b c : A) (s : S)
      → ((x y z : A) (s : S) → P s → Gives P (body x y z s))
      → ((x y z : A) (s : S) → Q s → Gives Q (body x y z s))
      → ((s : S) → P s → Gives Q (body b b b s))
      → P s
      → Gives Q (nest (a ∷ b ∷ c ∷ []) s)
  nest-middle P Q a b c s keep keepQ hit h =
      let steps = a ∷ b ∷ c ∷ [] in
      for_each-middle P (plane steps) Q a b c s h (plane-Gives P keep steps)
        (plane-Gives Q keepQ steps)
        λ t ht.
          for_each-middle P (row steps b) Q a b c t ht (row-Gives P keep steps b)
            (row-Gives Q keepQ steps b)
            λ u hu. for_each-middle P (body b b) Q a b c u hu (keep b b) (keepQ b b) hit
