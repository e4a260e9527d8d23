-- ===== src/QuadSpaces/Channel.antt =====
-- The channel of a cube names the bias of the cube: channels of two biases differ.
use general_worldwide_execut.Prelude.{
  ◌<◌, ◌≡◌, ◌⊎◌, refl, sym, ap, ◌∙◌, inl, inr, List, [], ◌∷◌, ◌++◌, some, arith, append_assoc,
}
use general_worldwide_execut.Prelude.Int.{ℤ}
use general_worldwide_execut.Prelude.Text.{Text}
use general_worldwide_execut.Js.Double.{Double}
use general_worldwide_execut.Js.Numeral.{print_int}
use general_worldwide_execut.Js.Numeral.RoundTrip.{IsNumeral, print_int-IsNumeral, print_int-inj}
use general_worldwide_execut.QuadSpaces.{space_name, decompose, list_items, list_to_string}
use general_worldwide_execut.QuadSpaces.Sum.{decompose_loop-eq-some}
use general_worldwide_execut.Three.{Vector3}

-- A text that does not go on with a numeral.
abbrev Stops : Text → Type 0
Stops [] = Unit
Stops (c ∷ s) = (c < b'-') ⊎ (b'9' < c)

-- A numeral is read off the front of a text.
numeral-inj :
    (s t u v : Text)
    → IsNumeral s
    → IsNumeral t
    → Stops u
    → Stops v
    → s ++ u ≡ t ++ v
    → (s ≡ t) × (u ≡ v)
numeral-inj [] [] u v hs ht hu hv e = (refl, e)
numeral-inj [] (d ∷ t) [] v hs ht hu hv e = absurd cc
numeral-inj [] (d ∷ t) (c ∷ u) v hs ht hu hv e = let same : c ≡ d = cc in absurd (ground arith)
numeral-inj (c ∷ s) [] u [] hs ht hu hv e = absurd cc
numeral-inj (c ∷ s) [] u (d ∷ v) hs ht hu hv e = let same : c ≡ d = cc in absurd (ground arith)
numeral-inj (c ∷ s) (d ∷ t) u v (_, _, hs) (_, _, ht) hu hv e =
    let head : c ≡ d = cc in
    let tail : s ++ u ≡ t ++ v = cc in
    let (same, rest) = numeral-inj s t u v hs ht hu hv tail in (rw (head, same), rest)

-- The four numbers of a name in front of a text.
abbrev numbered : ℤ → ℤ → ℤ → ℤ → Text → Text
numbered a b c p rest =
    print_int a ++ b'_' ∷ (print_int b ++ b'_' ∷ (print_int c ++ b'_' ∷ (print_int p ++ rest)))

space_name-append : (a b c p : ℤ) (rest : Text) → space_name a b c p ++ rest ≡ numbered a b c p rest
unfolding space_name
space_name-append a b c p rest = simp append_assoc

-- A number that an underscore ends is read off the front.
field-inj :
    (a b : ℤ) (u v : Text) → print_int a ++ b'_' ∷ u ≡ print_int b ++ b'_' ∷ v → (a ≡ b) × (u ≡ v)
field-inj a b u v e =
    let far : b'9' < b'_' = omega arith in
    let (same, rest) =
      numeral-inj (print_int a) (print_int b) (b'_' ∷ u) (b'_' ∷ v) (print_int-IsNumeral a)
        (print_int-IsNumeral b) (inr far) (inr far) e in
    (print_int-inj a b same, cc)

numbered-inj :
    (a b c p a' b' c' p' : ℤ) (u v : Text)
    → Stops u
    → Stops v
    → numbered a b c p u ≡ numbered a' b' c' p' v
    → (a ≡ a') × (b ≡ b') × (c ≡ c') × (p ≡ p')
numbered-inj a b c p a' b' c' p' u v hu hv e =
    let (same_a, eb) = field-inj a a' _ _ e in
    let (same_b, ec) = field-inj b b' _ _ eb in
    let (same_c, ep) = field-inj c c' _ _ ec in
    let (same, _) =
      numeral-inj (print_int p) (print_int p') u v (print_int-IsNumeral p) (print_int-IsNumeral p')
        hu hv ep in
    (same_a, same_b, same_c, print_int-inj p p' same)

-- The text is the channel of a cube whose edge is 2 ^ p.
pub record HasBias (p : ℤ) (channel : Text) : Type 0 where
  pub a : ℤ
  pub b : ℤ
  pub c : ℤ
  pub larger : List Text
  pub named : channel ≡ list_to_string (space_name a b c p ∷ larger)

list_items-Stops : (l : List Text) → Stops (list_items l 1 ++ b']' ∷ [])
unfolding list_items
list_items-Stops [] = inr (omega arith)
list_items-Stops (s ∷ l) = inl (omega arith)

list_to_string-numbered :
    (a b c p : ℤ) (l : List Text)
    → list_to_string (space_name a b c p ∷ l)
      ≡ b'[' ∷ numbered a b c p (list_items l 1 ++ b']' ∷ [])
unfolding list_to_string list_items
list_to_string-numbered a b c p l =
    ap (λ t. b'[' ∷ t)
      (append_assoc (space_name a b c p) (list_items l 1) (b']' ∷ [])
        ∙ space_name-append a b c p (list_items l 1 ++ b']' ∷ []))

-- A channel has one bias.
pub HasBias-inj : (p q : ℤ) (channel : Text) → HasBias p channel → HasBias q channel → p ≡ q
HasBias-inj p q channel h k =
    let e : b'[' ∷ numbered h.a h.b h.c p (list_items h.larger 1 ++ b']' ∷ [])
        ≡ b'[' ∷ numbered k.a k.b k.c q (list_items k.larger 1 ++ b']' ∷ []) =
      sym (list_to_string-numbered h.a h.b h.c p h.larger)
      ∙ sym h.named
      ∙ k.named
      ∙ list_to_string-numbered k.a k.b k.c q k.larger in
    let (_, _, _, same) =
      numbered-inj h.a h.b h.c p k.a k.b k.c q _ _ (list_items-Stops h.larger)
        (list_items-Stops k.larger) (cc e) in
    same

-- The channel of the names of a position at a bias has that bias.
pub decompose-HasBias :
    (d : Double) (v : Vector3 d.Num) (bias : ℤ) (l : List Text)
    → decompose d v bias ≡ some l
    → HasBias bias (list_to_string l)
unfolding decompose
decompose-HasBias d v bias l e =
    let (l', split, _) = decompose_loop-eq-some 16 _ _ _ bias l e in
    rw split (record { a = _; b = _; c = _; larger = l'; named = refl })

-- A name tells its numbers.
pub space_name-inj :
    (a b c p a' b' c' p' : ℤ)
    → space_name a b c p ≡ space_name a' b' c' p'
    → (a ≡ a') × (b ≡ b') × (c ≡ c') × (p ≡ p')
space_name-inj a b c p a' b' c' p' e =
    let rest = b']' ∷ [] in
    numbered-inj a b c p a' b' c' p' rest rest (inr (omega arith)) (inr (omega arith)) (
      sym (space_name-append a b c p rest)
      ∙ ap (λ s. s ++ rest) e
      ∙ space_name-append a' b' c' p' rest)
