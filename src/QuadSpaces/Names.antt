-- ===== src/QuadSpaces/Names.antt =====
-- A channel lists the names of its cubes: positions that share a channel share all their names.
use general_worldwide_execut.Prelude.{
  ℕ, zero, suc, ◌≡◌, ◌≢◌, ◌⊎◌, refl, sym, ◌∙◌, inl, inr, List, [], ◌∷◌, ◌++◌, some, arith,
  append_assoc,
}
use general_worldwide_execut.Prelude.Int.{ℤ, pos, ◌+ℤ◌}
use general_worldwide_execut.Prelude.Text.{Text}
use general_worldwide_execut.Js.Double.{Double}
use general_worldwide_execut.Js.Numeral.{print_int}
use general_worldwide_execut.Js.Numeral.RoundTrip.{IsNumeral, print_int-IsNumeral}
use general_worldwide_execut.QuadSpaces.Axis.{digit, next}
use general_worldwide_execut.QuadSpaces.Channel.{HasBias-inj, decompose-HasBias}
use general_worldwide_execut.QuadSpaces.{
  space_name, decompose, decompose_loop, list_items, list_to_string,
}
use general_worldwide_execut.QuadSpaces.Sum.{decompose_loop-eq-some}
use general_worldwide_execut.Three.{Vector3}

-- A text without a comma and without a closing bracket.
abbrev IsPlain : Text → Type 0
IsPlain [] = Unit
IsPlain (c ∷ s) = (c ≢ b',') × (c ≢ b']') × IsPlain s

abbrev pub AllPlain : List Text → Type 0
AllPlain [] = Unit
AllPlain (s ∷ l) = IsPlain s × AllPlain l

IsPlain-append : (s t : Text) → IsPlain s → IsPlain t → IsPlain (s ++ t)
IsPlain-append [] t h k = k
IsPlain-append (c ∷ s) t (x, y, h) k = (x, y, IsPlain-append s t h k)

IsNumeral-IsPlain : (s : Text) → IsNumeral s → IsPlain s
IsNumeral-IsPlain [] h = tt
IsNumeral-IsPlain (c ∷ s) (l, u, h) =
    (λ e. absurd (omega (arith, e)), λ e. absurd (omega (arith, e)), IsNumeral-IsPlain s h)

print_int-IsPlain : (n : ℤ) → IsPlain (print_int n)
print_int-IsPlain n = IsNumeral-IsPlain (print_int n) (print_int-IsNumeral n)

field-IsPlain : (n : ℤ) (s : Text) → IsPlain s → IsPlain (print_int n ++ b'_' ∷ s)
field-IsPlain n s h =
    IsPlain-append (print_int n) (b'_' ∷ s) (print_int-IsPlain n)
      (λ e. absurd (omega (arith, e)), λ e. absurd (omega (arith, e)), h)

space_name-IsPlain : (a b c p : ℤ) → IsPlain (space_name a b c p)
unfolding space_name
space_name-IsPlain a b c p =
    field-IsPlain a _ (field-IsPlain b _ (field-IsPlain c _ (print_int-IsPlain p)))

decompose_loop-AllPlain :
    (f : ℕ) (x y z p : ℤ) (l : List Text) → decompose_loop f x y z p ≡ some l → AllPlain l
decompose_loop-AllPlain zero x y z p l e = unfold decompose_loop in absurd cc
decompose_loop-AllPlain (suc f) x y z p l e =
    let (l', split, rest) = decompose_loop-eq-some f x y z p l e in
    rw split (
      space_name-IsPlain (digit x) (digit y) (digit z) p,
      elim rest [
        | inl (stop, _, _, _) ↦ rw stop tt
        | inr ran ↦ decompose_loop-AllPlain f (next x) (next y) (next z) (p +ℤ pos 2) l' ran
      ],
    )

-- A text that goes on with a comma or a closing bracket.
abbrev Parts : Text → Type 0
Parts [] = ⊥
Parts (c ∷ s) = (c ≡ b',') ⊎ (c ≡ b']')

plain-inj :
    (s t u v : Text)
    → IsPlain s
    → IsPlain t
    → Parts u
    → Parts v
    → s ++ u ≡ t ++ v
    → (s ≡ t) × (u ≡ v)
plain-inj [] [] u v hs ht hu hv e = (refl, e)
plain-inj [] (d ∷ t) [] v hs ht hu hv e = absurd hu
plain-inj [] (d ∷ t) (c ∷ u) v hs (x, y, ht) hu hv e =
    let same : d ≡ c = cc in
    elim hu [ inl k ↦ absurd (x (same ∙ k)) | inr k ↦ absurd (y (same ∙ k)) ]
plain-inj (c ∷ s) [] u [] hs ht hu hv e = absurd hv
plain-inj (c ∷ s) [] u (d ∷ v) (x, y, hs) ht hu hv e =
    let same : c ≡ d = cc in
    elim hv [ inl k ↦ absurd (x (same ∙ k)) | inr k ↦ absurd (y (same ∙ k)) ]
plain-inj (c ∷ s) (d ∷ t) u v (_, _, hs) (_, _, ht) hu hv e =
    let head : c ≡ d = cc in
    let tail : s ++ u ≡ t ++ v = cc in
    let (same, rest) = plain-inj s t u v hs ht hu hv tail in (rw (head, same), rest)

list_items-Parts : (l : List Text) (i : ℕ) → Parts (list_items l (suc i) ++ b']' ∷ [])
unfolding list_items
list_items-Parts [] i = inr refl
list_items-Parts (s ∷ l) i = inl refl

-- What follows the first name is read back.
list_items-inj :
    (l m : List Text) (i : ℕ)
    → AllPlain l
    → AllPlain m
    → list_items l (suc i) ++ b']' ∷ [] ≡ list_items m (suc i) ++ b']' ∷ []
    → l ≡ m
unfolding list_items
list_items-inj [] [] i h k e = refl
list_items-inj [] (t ∷ m) i h k e =
    let e' : b']' ∷ [] ≡ b',' ∷ b' ' ∷ ((t ++ list_items m (suc (suc i))) ++ b']' ∷ []) = e in
    let wrong : ◌≡◌ {A = ℕ} b']' b',' = cc in absurd (omega (arith, wrong))
list_items-inj (s ∷ l) [] i h k e =
    let e' : b',' ∷ b' ' ∷ ((s ++ list_items l (suc (suc i))) ++ b']' ∷ []) ≡ b']' ∷ [] = e in
    let wrong : ◌≡◌ {A = ℕ} b',' b']' = cc in absurd (omega (arith, wrong))
list_items-inj (s ∷ l) (t ∷ m) i (hs, h) (kt, k) e =
    let u = list_items l (suc (suc i)) ++ b']' ∷ [] in
    let v = list_items m (suc (suc i)) ++ b']' ∷ [] in
    let whole : b',' ∷ b' ' ∷ ((s ++ list_items l (suc (suc i))) ++ b']' ∷ [])
        ≡ b',' ∷ b' ' ∷ ((t ++ list_items m (suc (suc i))) ++ b']' ∷ []) =
      e in
    let inner : (s ++ list_items l (suc (suc i))) ++ b']' ∷ []
        ≡ (t ++ list_items m (suc (suc i))) ++ b']' ∷ [] =
      cc whole in
    let from_name : s ++ u ≡ t ++ v =
      sym (append_assoc s (list_items l (suc (suc i))) (b']' ∷ []))
      ∙ inner
      ∙ append_assoc t (list_items m (suc (suc i))) (b']' ∷ []) in
    let (same, rest) =
      plain-inj s t u v hs kt (list_items-Parts l (suc i)) (list_items-Parts m (suc i)) from_name in
    (rw (same, list_items-inj l m (suc i) h k rest))

pub list_to_string-inj :
    (l m : List Text)
    → AllPlain l
    → AllPlain m
    → l ≢ []
    → m ≢ []
    → list_to_string l ≡ list_to_string m
    → l ≡ m
unfolding list_to_string list_items
list_to_string-inj [] m h k hn kn e = absurd (hn refl)
list_to_string-inj (s ∷ l) [] h k hn kn e = absurd (kn refl)
list_to_string-inj (s ∷ l) (t ∷ m) (hs, h) (kt, k) hn kn e =
    let whole : b'[' ∷ ((s ++ list_items l 1) ++ b']' ∷ [])
        ≡ b'[' ∷ ((t ++ list_items m 1) ++ b']' ∷ []) =
      e in
    let inner : (s ++ list_items l 1) ++ b']' ∷ [] ≡ (t ++ list_items m 1) ++ b']' ∷ [] =
      cc whole in
    let from_name : s ++ (list_items l 1 ++ b']' ∷ []) ≡ t ++ (list_items m 1 ++ b']' ∷ []) =
      sym (append_assoc s (list_items l 1) (b']' ∷ []))
      ∙ inner
      ∙ append_assoc t (list_items m 1) (b']' ∷ []) in
    let (same, rest) =
      plain-inj s t (list_items l 1 ++ b']' ∷ []) (list_items m 1 ++ b']' ∷ []) hs kt
        (list_items-Parts l 0) (list_items-Parts m 0) from_name in
    rw (same, list_items-inj l m 0 h k rest) refl

pub decompose-AllPlain :
    (d : Double) (v : Vector3 d.Num) (p : ℤ) (l : List Text)
    → decompose d v p ≡ some l
    → AllPlain l × (l ≢ [])
unfolding decompose
decompose-AllPlain d v p l e =
    let (l', split, _) = decompose_loop-eq-some 16 _ _ _ p l e in
    (decompose_loop-AllPlain 17 _ _ _ p l e, λ none. cc (none, split))

-- For any two positions and any two levels, if the lists of names that `decompose` returns are
-- written as the same channel, then the levels are the same and the lists are the same: a channel
-- stands for one list of cubes at one level.
pub list_to_string-decompose :
    (d : Double) (v w : Vector3 d.Num) (p q : ℤ) (l m : List Text)
    → decompose d v p ≡ some l
    → decompose d w q ≡ some m
    → list_to_string l ≡ list_to_string m
    → (p ≡ q) × (l ≡ m)
list_to_string-decompose d v w p q l m el em e =
    let (h, hn) = decompose-AllPlain d v p l el in
    let (k, kn) = decompose-AllPlain d w q m em in
    (
      HasBias-inj p q (list_to_string l) (decompose-HasBias d v p l el)
          (rw e (decompose-HasBias d w q m em)),
      list_to_string-inj l m h k hn kn e,
    )
