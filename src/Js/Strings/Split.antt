-- ===== src/Js/Strings/Split.antt =====
-- Parts that lack a one-character separator are found again.
use general_worldwide_execut.Prelude.{
  ℕ, ◌≡◌, sym, ◌≢◌, ap, ◌∙◌, [], ◌∷◌, ◌++◌, arith, append_assoc, append-nil,
}
use general_worldwide_execut.Prelude.Text.{Text}
use general_worldwide_execut.Js.Numeral.RoundTrip.{Lacks}
use general_worldwide_execut.Js.Strings.{split, split_from, starts_with}

module _ (c : ℕ) where
  pub split_from-ne :
      (d : ℕ) (s part : Text)
      → d ≢ c
      → split_from (c ∷ []) (d ∷ s) 0 part ≡ split_from (c ∷ []) s 0 (part ++ d ∷ [])
  unfolding split_from starts_with
  split_from-ne d s part ne = ground arith

  pub split_from-sep :
      (s part : Text) → split_from (c ∷ []) (c ∷ s) 0 part ≡ part ∷ split_from (c ∷ []) s 0 []
  unfolding split_from starts_with
  split_from-sep s part = ground arith

  split_from-append :
      (s rest part : Text)
      → Lacks c s
      → split_from (c ∷ []) (s ++ rest) 0 part ≡ split_from (c ∷ []) rest 0 (part ++ s)
  split_from-append [] rest part h = rw append-nil
  split_from-append (d ∷ s) rest part (ne, h) =
      split_from-ne d (s ++ rest) part ne
      ∙ split_from-append s rest (part ++ d ∷ []) h
      ∙ ap (split_from (c ∷ []) rest 0) (append_assoc part (d ∷ []) s)

  -- The first part of a text ends at its first separator.
  pub split-cons :
      (s rest : Text) → Lacks c s → split (s ++ c ∷ rest) (c ∷ []) ≡ s ∷ split rest (c ∷ [])
  unfolding split
  split-cons s rest h = split_from-append s (c ∷ rest) [] h ∙ split_from-sep rest s

  -- A text with no separator is its only part.
  pub split-Lacks : (s : Text) → Lacks c s → split s (c ∷ []) ≡ s ∷ []
  unfolding split split_from
  split-Lacks s h =
      ap (λ t. split_from (c ∷ []) t 0 []) (sym (append-nil s)) ∙ split_from-append s [] [] h
