-- ===== src/Tests/Tags.antt =====
-- The tags of WebContent/js/WootWideChat.js at concrete texts.
use general_worldwide_execut.Prelude.{◌≡◌, refl, [], ◌∷◌, none, some, arith}
use general_worldwide_execut.Prelude.Text.{codes}
use general_worldwide_execut.Chat.RoundTrip.{AllClean, extract_tags-to_tags}
use general_worldwide_execut.Chat.Tags.{AllTags, extract_tags-AllTags}
use general_worldwide_execut.Chat.{TagSet, extract_tags, to_tags, tag_of, escape_quote}
use general_worldwide_execut.Gwems.Sets.Laws.{has, IsObject}
use general_worldwide_execut.Js.Numeral.{is_space, trim_left}
use general_worldwide_execut.Js.Object.{put}
use general_worldwide_execut.Js.Strings.{split, trim}

abbrev tags : TagSet
tags = (codes "sky", codes "sky") ∷ (codes "blue", codes "blue") ∷ []

tags-AllClean : AllClean tags
unfolding is_space
tags-AllClean = (
  (
    refl,
    omega arith,
    (
      (refl, (λ e. omega arith), (λ e. omega arith)),
      (
        (refl, (λ e. omega arith), (λ e. omega arith)),
        ((refl, (λ e. omega arith), (λ e. omega arith)), tt),
      ),
    ),
  ),
  (
    (
      refl,
      omega arith,
      (
        (refl, (λ e. omega arith), (λ e. omega arith)),
        (
          (refl, (λ e. omega arith), (λ e. omega arith)),
          (
            (refl, (λ e. omega arith), (λ e. omega arith)),
            ((refl, (λ e. omega arith), (λ e. omega arith)), tt),
          ),
        ),
      ),
    ),
    tt,
  ),
)

tags-IsObject : IsObject tags
unfolding has
tags-IsObject = (refl, (refl, tt))

-- The part in front of the first delimiter counts too, and short tags are dropped.
extract_tags_runs :
    extract_tags (codes "hello you #sky is #up # blue  x") none
    ≡ (codes "hello", codes "hello")
      ∷ (codes "sky", codes "sky")
      ∷ (codes "blue", codes "blue")
      ∷ []
unfolding extract_tags tag_of escape_quote split trim trim_left put
extract_tags_runs = refl

to_tags_runs : to_tags tags (some (codes "+")) ≡ codes "#sky #blue"
unfolding to_tags
to_tags_runs = refl

extract_tags-AllTags_example :
    AllTags (extract_tags (codes "hello you #sky is #up") (some (codes "o")))
extract_tags-AllTags_example =
    extract_tags-AllTags (codes "hello you #sky is #up") (some (codes "o"))

extract_tags-to_tags_example : extract_tags (to_tags tags none) none ≡ tags
extract_tags-to_tags_example = extract_tags-to_tags tags tags-AllClean tags-IsObject
