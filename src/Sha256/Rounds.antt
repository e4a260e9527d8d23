-- ===== src/Sha256/Rounds.antt =====
-- The schedule, the rounds and the loop over the blocks follow the standard.
use mathlib.Core.List.{map-append}
use general_worldwide_execut.Prelude.{
  ℕ, zero, suc, ◌-◌, List, [], ◌∷◌, ◌++◌, map, ◌≡◌, refl, ap, ◌∙◌, arith, length, length-map,
  get_or,
}
use general_worldwide_execut.Prelude.Int.{ℤ, pos, ◌+ℤ◌}
use general_worldwide_execut.Js.Bitwise.{to_uint32-+ℤ}
use general_worldwide_execut.Js.Word.{to_uint32}
use general_worldwide_execut.Sha256.Fips.{
  plus, lower_sigma0, lower_sigma1, upper_sigma0, upper_sigma1, ch, maj, schedule, round,
  all_rounds, add_words, constants, digest_blocks,
}
use general_worldwide_execut.Sha256.Words.{
  to_uint32-cut-+ℤ, to_uint32-big_sigma0, to_uint32-big_sigma1, to_uint32-small_sigma0,
  to_uint32-small_sigma1, to_uint32-choose, to_uint32-majority,
}
use general_worldwide_execut.Sha256.{
  Hash, round_constants, cut, extend, round_step, rounds, add_hash, hash_blocks, small_sigma0,
  small_sigma1, big_sigma0, big_sigma1, choose, majority,
}

-- The patterns of the eight words.
abbrev pub patterns : Hash ℤ → Hash ℕ
patterns s = record {
  a = to_uint32 s.a;
  b = to_uint32 s.b;
  c = to_uint32 s.c;
  d = to_uint32 s.d;
  e = to_uint32 s.e;
  f = to_uint32 s.f;
  g = to_uint32 s.g;
  h = to_uint32 s.h;
}

get_or-to_uint32 :
    (w : List ℤ) (i : ℕ) → get_or (map to_uint32 w) i 0 ≡ to_uint32 (get_or w i (pos 0))
get_or-to_uint32 [] i = unfold to_uint32 in refl
get_or-to_uint32 (x ∷ w) zero = refl
get_or-to_uint32 (x ∷ w) (suc i) = get_or-to_uint32 w i

-- The next word of the schedule.
next_word :
    (w : List ℤ) (i j k l : ℕ)
    → to_uint32 (
        cut (
          small_sigma1 (get_or w i (pos 0))
          +ℤ get_or w j (pos 0)
          +ℤ small_sigma0 (get_or w k (pos 0))
          +ℤ get_or w l (pos 0)))
      ≡ plus
          (plus
            (plus (lower_sigma1 (get_or (map to_uint32 w) i 0)) (get_or (map to_uint32 w) j 0))
            (lower_sigma0 (get_or (map to_uint32 w) k 0)))
          (get_or (map to_uint32 w) l 0)
next_word w i j k l = rw (
  get_or-to_uint32 w i,
  get_or-to_uint32 w j,
  get_or-to_uint32 w k,
  get_or-to_uint32 w l,
  to_uint32-cut-+ℤ,
  to_uint32-+ℤ (small_sigma1 (get_or w i (pos 0)) +ℤ get_or w j (pos 0)),
  to_uint32-+ℤ (small_sigma1 (get_or w i (pos 0))),
  to_uint32-small_sigma1,
  to_uint32-small_sigma0,
)

map-extend : (n : ℕ) (w : List ℤ) → map to_uint32 (extend n w) ≡ schedule n (map to_uint32 w)
unfolding extend schedule
map-extend zero w = refl
map-extend (suc n) w =
    let t = length w in
    map-extend n _
    ∙ ap (schedule n) (
        map-append to_uint32 w _
        ∙ rw (length-map w to_uint32)
            (ap (λ x. map to_uint32 w ++ x ∷ []) (next_word w (t - 2) (t - 7) (t - 15) (t - 16))))

plus-pos : (a k : ℕ) → plus a (to_uint32 (pos k)) ≡ plus a k
unfolding to_uint32
plus-pos a k = omega arith

module _ (k : ℕ) (w : ℤ) (s : Hash ℤ) where
  to_uint32-first_term :
      to_uint32 (s.h +ℤ big_sigma1 s.e +ℤ choose s.e s.f s.g +ℤ pos k +ℤ w)
      ≡ plus
          (plus
            (plus
              (plus (to_uint32 s.h) (upper_sigma1 (to_uint32 s.e)))
              (ch (to_uint32 s.e) (to_uint32 s.f) (to_uint32 s.g)))
            k)
          (to_uint32 w)
  to_uint32-first_term = rw (
    to_uint32-+ℤ (s.h +ℤ big_sigma1 s.e +ℤ choose s.e s.f s.g +ℤ pos k),
    to_uint32-+ℤ (s.h +ℤ big_sigma1 s.e +ℤ choose s.e s.f s.g),
    plus-pos,
    to_uint32-+ℤ (s.h +ℤ big_sigma1 s.e),
    to_uint32-+ℤ s.h,
    to_uint32-big_sigma1,
    to_uint32-choose,
  )

  to_uint32-second_term :
      to_uint32 (big_sigma0 s.a +ℤ majority s.a s.b s.c)
      ≡ plus (upper_sigma0 (to_uint32 s.a)) (maj (to_uint32 s.a) (to_uint32 s.b) (to_uint32 s.c))
  to_uint32-second_term = rw (to_uint32-+ℤ, to_uint32-big_sigma0, to_uint32-majority)

  patterns-round_step : patterns (round_step k w s) ≡ round k (to_uint32 w) (patterns s)
  unfolding round_step round
  patterns-round_step =
      rw (to_uint32-cut-+ℤ, to_uint32-cut-+ℤ, to_uint32-first_term, to_uint32-second_term)

patterns-rounds :
    (ks : List ℕ) (ws : List ℤ) (s : Hash ℤ)
    → patterns (rounds ks ws s) ≡ all_rounds ks (map to_uint32 ws) (patterns s)
unfolding rounds all_rounds
patterns-rounds [] ws s = refl
patterns-rounds (k ∷ ks) [] s = refl
patterns-rounds (k ∷ ks) (w ∷ ws) s =
    patterns-rounds ks ws (round_step k w s)
    ∙ ap (all_rounds ks (map to_uint32 ws)) (patterns-round_step k w s)

patterns-add_hash : (s t : Hash ℤ) → patterns (add_hash s t) ≡ add_words (patterns s) (patterns t)
unfolding add_hash add_words
patterns-add_hash s t = rw (
  to_uint32-cut-+ℤ s.a,
  to_uint32-cut-+ℤ s.b,
  to_uint32-cut-+ℤ s.c,
  to_uint32-cut-+ℤ s.d,
  to_uint32-cut-+ℤ s.e,
  to_uint32-cut-+ℤ s.f,
  to_uint32-cut-+ℤ s.g,
  to_uint32-cut-+ℤ s.h,
)

-- The table of the script has the constants of the standard.
round_constants-constants : round_constants ≡ constants
unfolding constants
round_constants-constants = refl

-- The loop over the blocks, on the patterns of its words, is the one of the standard.
pub patterns-hash_blocks :
    (ms : List (List ℤ)) (s : Hash ℤ)
    → patterns (hash_blocks ms s) ≡ digest_blocks (map (map to_uint32) ms) (patterns s)
unfolding hash_blocks digest_blocks
patterns-hash_blocks [] s = refl
patterns-hash_blocks (m ∷ ms) s =
    patterns-hash_blocks ms _
    ∙ ap (digest_blocks (map (map to_uint32) ms)) (
        patterns-add_hash s (rounds round_constants (extend 48 m) s)
        ∙ ap (add_words (patterns s)) (
            patterns-rounds round_constants (extend 48 m) s
            ∙ ap (λ w. all_rounds round_constants w (patterns s)) (map-extend 48 m)
            ∙ ap (λ ks. all_rounds ks (schedule 48 (map to_uint32 m)) (patterns s))
                round_constants-constants))
