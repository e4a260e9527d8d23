-- ===== src/Chat/RoundTrip.antt =====
-- `extractTags` undoes `toTags`.
use general_worldwide_execut.Prelude.{
  ℕ, suc, ◌≤◌, ◌≡◌, ◌≢◌, refl, sym, ap, ◌∙◌, List, [], ◌∷◌, ◌++◌, none, ◌||◌, leb, length, arith,
  true, false, append_assoc, append-nil,
}
use mathlib.Core.Path.{subst}
use mathlib.Core.List.{reverse, reverse-cons, reverse-append, reverse-reverse}
use general_worldwide_execut.Prelude.Text.{Text, codes, eqb_text_iff}
use general_worldwide_execut.Chat.{
  TagSet, escape_quote, tag_of, extract_parts, extract_tags, tag_items, to_tags,
}
use general_worldwide_execut.Chat.Tags.{Lacks-append}
use general_worldwide_execut.Gwems.Sets.Laws.{has, IsObject}
use general_worldwide_execut.Js.Numeral.RoundTrip.{Lacks}
use general_worldwide_execut.Js.Numeral.{is_space, trim_left}
use general_worldwide_execut.Js.Object.{put}
use general_worldwide_execut.Js.Strings.{split, trim}
use general_worldwide_execut.Js.Strings.Split.{split-cons, split-Lacks}

-- A text with no white space, no `#` and no quote.
abbrev pub IsClean : Text → Type 0
IsClean [] = Unit
IsClean (c ∷ s) = ((is_space c ≡ false) × (c ≢ b'#') × (c ≢ b'"')) × IsClean s

-- A set of clean tags of at least three code units, each its own value.
abbrev pub AllClean : TagSet → Type 0
AllClean [] = Unit
AllClean ((k, v) ∷ o) = ((k ≡ v) × (3 ≤ length k) × IsClean k) × AllClean o

IsClean-append : (s t : Text) → IsClean s → IsClean t → IsClean (s ++ t)
IsClean-append [] t h k = k
IsClean-append (c ∷ s) t (hc, h) k = (hc, IsClean-append s t h k)

IsClean-reverse : (s : Text) → IsClean s → IsClean (reverse s)
IsClean-reverse [] h = tt
IsClean-reverse (c ∷ s) (hc, h) =
    rw (reverse-cons c s) (IsClean-append (reverse s) (c ∷ []) (IsClean-reverse s h) (hc, tt))

IsClean-Lacks_hash : (s : Text) → IsClean s → Lacks b'#' s
IsClean-Lacks_hash [] h = tt
IsClean-Lacks_hash (c ∷ s) (hc, h) = (hc.1, IsClean-Lacks_hash s h)

space_is_space : is_space b' ' ≡ true
unfolding is_space
space_is_space = refl

IsClean-Lacks_space : (s : Text) → IsClean s → Lacks b' ' s
IsClean-Lacks_space [] h = tt
IsClean-Lacks_space (c ∷ s) (hc, h) =
    (λ e. ground (arith, space_is_space, hc.0, ap is_space e), IsClean-Lacks_space s h)

trim_left-cons : (c : ℕ) (s : Text) → is_space c ≡ false → trim_left (c ∷ s) ≡ c ∷ s
unfolding trim_left
trim_left-cons c s e = rw e

trim_left-IsClean : (s : Text) → IsClean s → trim_left s ≡ s
unfolding trim_left
trim_left-IsClean [] h = refl
trim_left-IsClean (c ∷ s) h = trim_left-cons c s h.0.0

trim_left-space : (s : Text) → trim_left (b' ' ∷ s) ≡ trim_left s
unfolding trim_left is_space
trim_left-space s = refl

trim-IsClean : (s : Text) → IsClean s → trim s ≡ s
unfolding trim
trim-IsClean s h =
    rw (
      trim_left-IsClean s h,
      trim_left-IsClean (reverse s) (IsClean-reverse s h),
      reverse-reverse s,
    )

-- A space after the tag is trimmed.
trim-space : (c : ℕ) (s : Text) → IsClean (c ∷ s) → trim (c ∷ s ++ b' ' ∷ []) ≡ c ∷ s
unfolding trim
trim-space c s h = rw (
  trim_left-cons c (s ++ b' ' ∷ []) h.0.0,
  reverse-append (c ∷ s) (b' ' ∷ []),
  trim_left-space (reverse (c ∷ s)),
  trim_left-IsClean (reverse (c ∷ s)) (IsClean-reverse (c ∷ s) h),
  reverse-reverse (c ∷ s),
)

escape_quote-IsClean : (s : Text) → IsClean s → escape_quote s ≡ s
unfolding escape_quote
escape_quote-IsClean [] h = refl
escape_quote-IsClean (c ∷ s) (hc, h) = ground (arith, escape_quote-IsClean s h, hc.2)

tag_of-trim : (part s : Text) → IsClean s → trim part ≡ s → tag_of part ≡ s
unfolding tag_of
tag_of-trim part s h e =
    rw (e, split-Lacks b' ' s (IsClean-Lacks_space s h)) (escape_quote-IsClean s h)

tag_of-space : (s : Text) → 3 ≤ length s → IsClean s → tag_of (s ++ b' ' ∷ []) ≡ s
tag_of-space [] n h = absurd (omega arith)
tag_of-space (c ∷ s) n h = tag_of-trim (c ∷ s ++ b' ' ∷ []) (c ∷ s) h (trim-space c s h)

-- The parts of the tags `k` and `m`, without the empty part in front.
abbrev parts_of : Text → TagSet → List Text
parts_of k [] = k ∷ []
parts_of k ((i, v) ∷ m) = (k ++ b' ' ∷ []) ∷ parts_of i m

split-tag_items :
    (k : Text) (m : TagSet) (start : ℕ)
    → IsClean k
    → AllClean m
    → split (k ++ tag_items m (codes "#") (suc start)) (codes "#") ≡ parts_of k m
unfolding tag_items
split-tag_items k [] start h hm = rw (append-nil k) (split-Lacks b'#' k (IsClean-Lacks_hash k h))
split-tag_items k ((i, v) ∷ m) start h ((e, n, hi), hm) =
    let rest = i ++ tag_items m (codes "#") (suc (suc start)) in
    let spaced = k ++ b' ' ∷ [] in
    ap (λ t. split t (codes "#")) (sym (append_assoc k (b' ' ∷ []) (b'#' ∷ rest)))
    ∙ split-cons b'#' spaced rest
        (Lacks-append b'#' k (b' ' ∷ []) (IsClean-Lacks_hash k h) ((λ q. omega arith), tt))
    ∙ ap (λ l. spaced ∷ l) (split-tag_items i m (suc start) hi hm)

-- Putting the tags one after the other.
abbrev add_all : TagSet → TagSet → TagSet
add_all [] r = r
add_all ((k, v) ∷ m) r = add_all m (put r k k)

extract_parts-cons :
    (part k : Text) (parts : List Text) (r : TagSet)
    → 3 ≤ length k
    → tag_of part ≡ k
    → extract_parts (part ∷ parts) r ≡ extract_parts parts (put r k k)
unfolding extract_parts
extract_parts-cons part k parts r n e =
    let long : leb 3 (length k) ≡ true = ground arith in rw (e, long)

extract_parts-parts_of :
    (k : Text) (m r : TagSet)
    → 3 ≤ length k
    → IsClean k
    → AllClean m
    → extract_parts (parts_of k m) r ≡ add_all m (put r k k)
extract_parts-parts_of k [] r n h hm =
    extract_parts-cons k k [] r n (tag_of-trim k k h (trim-IsClean k h))
    ∙ (unfold extract_parts in refl)
extract_parts-parts_of k ((i, v) ∷ m) r n h ((e, ni, hi), hm) =
    extract_parts-cons (k ++ b' ' ∷ []) k (parts_of i m) r n (tag_of-space k n h)
    ∙ extract_parts-parts_of i m (put r k k) ni hi hm

put-fresh : (r : TagSet) (k v : Text) → has r k ≡ false → put r k v ≡ r ++ (k, v) ∷ []
unfolding has put
put-fresh [] k v h = refl
put-fresh ((j, w) ∷ r) k v h = ground (arith, put-fresh r k v)

has-append : (r m : TagSet) (k : Text) → has (r ++ m) k ≡ (has r k || has m k)
unfolding has
has-append [] m k = refl
has-append ((j, w) ∷ r) m k = ground (arith, has-append r m k)

IsObject-append : (r m : TagSet) (k v : Text) → IsObject (r ++ (k, v) ∷ m) → has r k ≡ false
unfolding has
IsObject-append [] m k v h = refl
IsObject-append ((j, w) ∷ r) m k v (hj, h) = ground (
  arith,
  IsObject-append r m k v h,
  has-append r ((k, v) ∷ m) j,
  eqb_text_iff j k,
  eqb_text_iff k j,
)

add_all-append : (m r : TagSet) → AllClean m → IsObject (r ++ m) → add_all m r ≡ r ++ m
add_all-append [] r h o = sym (append-nil r)
add_all-append ((k, v) ∷ m) r ((e, n, hk), h) o =
    let same : r ++ (k, v) ∷ m ≡ (r ++ (k, k) ∷ []) ++ m =
      ap (λ t. r ++ (k, t) ∷ m) (sym e) ∙ sym (append_assoc r ((k, k) ∷ []) m) in
    ap (add_all m) (put-fresh r k k (IsObject-append r m k v o))
    ∙ add_all-append m (r ++ (k, k) ∷ []) h (subst IsObject same o)
    ∙ sym same

tag_of_nil : tag_of [] ≡ []
unfolding tag_of split trim trim_left
tag_of_nil = refl

extract_parts_nil :
    (parts : List Text) (r : TagSet) → extract_parts ([] ∷ parts) r ≡ extract_parts parts r
unfolding extract_parts
extract_parts_nil parts r = rw tag_of_nil

split_hash : (rest : Text) → split (b'#' ∷ rest) (codes "#") ≡ [] ∷ split rest (codes "#")
split_hash rest = split-cons b'#' [] rest tt

-- For a set of different tags, each its own value, of at least three code units and with no white
-- space, no `#` and no quote, `extractTags` finds in the text of `toTags` the same set in the same
-- order.
pub extract_tags-to_tags :
    (m : TagSet) → AllClean m → IsObject m → extract_tags (to_tags m none) none ≡ m
unfolding extract_tags to_tags tag_items
extract_tags-to_tags [] h o =
    unfold split in extract_parts_nil [] [] ∙ (unfold extract_parts in refl)
extract_tags-to_tags ((k, v) ∷ m) ((e, n, hk), h) o =
    ap (λ l. extract_parts l [])
      (split_hash (k ++ tag_items m (codes "#") 1) ∙ ap (λ l. [] ∷ l) (split-tag_items k m 0 hk h))
    ∙ extract_parts_nil (parts_of k m) []
    ∙ extract_parts-parts_of k m [] n hk h
    ∙ add_all-append ((k, v) ∷ m) [] ((e, n, hk), h) o
