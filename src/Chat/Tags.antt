-- ===== src/Chat/Tags.antt =====
-- What `extractTags` returns.
use general_worldwide_execut.Prelude.{
  ℕ, ◌≤◌, ◌≡◌, ◌≢◌, refl, sym, inl, inr, Bool-cases, leb→le, ℕ_discrete, List, [], ◌∷◌, ◌++◌,
  Option, ◌==◌, leb, length, arith,
}
use general_worldwide_execut.Prelude.Text.{Text, eqb_text, eqb_text→eq}
use general_worldwide_execut.Chat.{
  TagSet, first, escape_quote, tag_of, extract_parts, extract_tags, delimiter,
}
use general_worldwide_execut.Js.Numeral.RoundTrip.{Lacks}
use general_worldwide_execut.Js.Object.{put}
use general_worldwide_execut.Js.Strings.{split, split_from, trim}
use general_worldwide_execut.Js.Strings.Split.{split_from-ne, split_from-sep}

-- Every entry has its key as its value, of at least three code units and with no space.
abbrev pub AllTags : TagSet → Type 0
AllTags [] = Unit
AllTags ((k, v) ∷ o) = ((k ≡ v) × (3 ≤ length k) × Lacks b' ' k) × AllTags o

pub Lacks-append : (c : ℕ) (s t : Text) → Lacks c s → Lacks c t → Lacks c (s ++ t)
Lacks-append c [] t h k = k
Lacks-append c (d ∷ s) t (ne, h) k = (ne, Lacks-append c s t h k)

first-split_from :
    (c : ℕ) (s part : Text) → Lacks c part → Lacks c (first (split_from (c ∷ []) s 0 part))
unfolding split_from
first-split_from c [] part h = h
first-split_from c (d ∷ s) part h = elim (ℕ_discrete d c) [
  | yes e ↦ rw (e, split_from-sep c s part) h
  | no ne ↦
      rw (split_from-ne c d s part ne)
        (first-split_from c s (part ++ d ∷ []) (Lacks-append c part (d ∷ []) h (ne, tt)))
]

escape_quote-Lacks : (c : ℕ) (s : Text) → c ≢ b'\\' → Lacks c s → Lacks c (escape_quote s)
unfolding escape_quote
escape_quote-Lacks c [] ne h = tt
escape_quote-Lacks c (d ∷ s) ne (hd, h) = elim (Bool-cases (d == b'"')) [
  | inl e ↦ rw (e, escape_quote) (λ x. ne (sym x), (hd, h))
  | inr e ↦ rw (e, escape_quote) (hd, escape_quote-Lacks c s ne h)
]

tag_of-Lacks : (part : Text) → Lacks b' ' (tag_of part)
unfolding tag_of split
tag_of-Lacks part =
    escape_quote-Lacks b' ' _ (λ e. omega arith) (first-split_from b' ' (trim part) [] tt)

put-AllTags :
    (o : TagSet) (k : Text) → AllTags o → 3 ≤ length k → Lacks b' ' k → AllTags (put o k k)
unfolding put
put-AllTags [] k h n l = ((refl, n, l), tt)
put-AllTags ((j, v) ∷ o) k (hj, h) n l = elim (Bool-cases (eqb_text j k)) [
  | inl e ↦ rw (e, put) ((eqb_text→eq j k e, hj.1, hj.2), h)
  | inr e ↦ rw (e, put) (hj, put-AllTags o k h n l)
]

extract_parts-AllTags :
    (parts : List Text) (result : TagSet) → AllTags result → AllTags (extract_parts parts result)
unfolding extract_parts
extract_parts-AllTags [] result h = h
extract_parts-AllTags (part ∷ parts) result h = elim (Bool-cases (leb 3 (length (tag_of part)))) [
  | inl e ↦
      rw (e, extract_parts)
        (extract_parts-AllTags parts _
          (put-AllTags result (tag_of part) h (leb→le _ _ e) (tag_of-Lacks part)))
  | inr e ↦ rw (e, extract_parts) (extract_parts-AllTags parts result h)
]

-- Of any text, with any delimiter, `extractTags` returns a set in which every key is its own value,
-- has at least three code units and no space.
pub extract_tags-AllTags : (text : Text) (delim : Option Text) → AllTags (extract_tags text delim)
unfolding extract_tags
extract_tags-AllTags text delim = extract_parts-AllTags (split text (delimiter delim)) [] tt
