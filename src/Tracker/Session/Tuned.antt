-- ===== src/Tracker/Session/Tuned.antt =====
-- The loop of `update` stops at the first level whose channel is right: those behind it are right too.
use general_worldwide_execut.Prelude.{
  ℕ, ◌+◌, ◌≤◌, ◌≡◌, ◌≢◌, ◌⊎◌, refl, ap, sym, ◌∙◌, inl, inr, true, false, Bool-cases, List, [], ◌∷◌,
  ◌++◌, some, arith, append-nil, length, ltb,
}
use general_worldwide_execut.Prelude.Int.{pos}
use general_worldwide_execut.Prelude.Text.{Text, codes, eqb_text, eqb_text→eq}
use general_worldwide_execut.Js.Double.{Double, IsIeee}
use general_worldwide_execut.Js.Numeral.{print_int, print_ℕ}
use general_worldwide_execut.QuadSpaces.{decompose, list_to_string, space_name, list_items}
use general_worldwide_execut.QuadSpaces.Channel.{HasBias, HasBias-inj, decompose-HasBias}
use general_worldwide_execut.QuadSpaces.Names.{AllPlain, decompose-AllPlain, list_to_string-inj}
use general_worldwide_execut.QuadSpaces.Surrounding.Loop.{Gives, Gives-bind}
use general_worldwide_execut.QuadSpaces.Surrounding.{ChannelSet}
use general_worldwide_execut.Three.{Vector3}
use general_worldwide_execut.Tracker.{Level, min_level}
use general_worldwide_execut.Tracker.Session.Exchange.{IsAbsent, around_level}
use general_worldwide_execut.Tracker.Session.Total.{logscales}
use general_worldwide_execut.Tracker.Update.{level_channel, put_all, refresh}
use general_worldwide_execut.Tracker.Update.Follow.{AllScales}
use mathlib.Core.Path.{subst}

-- Each level publishes on the channel that belongs to the list of names.
abbrev pub AllTuned : List Text → ℕ → List Level → Type 0
AllTuned lodlist i [] = Unit
AllTuned lodlist i (level ∷ levels) =
    (level.channel ≡ level_channel level i lodlist) × AllTuned lodlist (i + 1) levels

-- No level has a channel yet.
abbrev pub AllBlank : List Level → Type 0
AllBlank [] = Unit
AllBlank (level ∷ levels) = (level.channel ≡ []) × AllBlank levels

-- The names of a position at the smallest level.
pub record IsAddress (lodlist : List Text) : Type 0 where
  pub plain : AllPlain lodlist
  pub some_name : lodlist ≢ []
  pub bias : HasBias min_level (list_to_string lodlist)

pub decompose-IsAddress :
    (d : Double) (v : Vector3 d.Num) (l : List Text)
    → decompose d v min_level ≡ some l
    → IsAddress l
decompose-IsAddress d v l e =
    let (h, k) = decompose-AllPlain d v min_level l e in
    record { plain = h; some_name = k; bias = decompose-HasBias d v min_level l e }

-- The channel of a level that the list does not reach names the cube around the origin.
abbrev far_channel : Level → Text
far_channel level = codes "[0_0_0_" ++ (print_int level.logscale ++ codes "]")

far_channel-HasBias : (level : Level) → HasBias level.logscale (far_channel level)
unfolding space_name list_to_string list_items print_int print_ℕ
far_channel-HasBias level = record {
  a = pos 0;
  b = pos 0;
  c = pos 0;
  larger = [];
  named =
      ap (λ s. codes "[0_0_0_" ++ (s ++ codes "]")) (sym (append-nil (print_int level.logscale)));
}

pub level_channel-near :
    (level : Level) (i : ℕ) (l : List Text)
    → ltb i (length l) ≡ true
    → level_channel level i l ≡ list_to_string l
unfolding level_channel
level_channel-near level i l e = rw e

level_channel-far :
    (level : Level) (i : ℕ) (l : List Text)
    → ltb i (length l) ≡ false
    → level_channel level i l ≡ far_channel level
unfolding level_channel
level_channel-far level i l e = rw e

pub level_channel-full : (level : Level) (i : ℕ) (l : List Text) → level_channel level i l ≢ []
unfolding level_channel list_to_string
level_channel-full level i l e = elim (Bool-cases (ltb i (length l))) [
  | inl h ↦
      let shape : level_channel level i l ≡ b'[' ∷ (list_items l 0 ++ b']' ∷ []) =
        level_channel-near level i l h in
      absurd (cc (shape, e))
  | inr h ↦
      let shape : level_channel level i l
          ≡ b'[' ∷ (codes "0_0_0_" ++ (print_int level.logscale ++ codes "]")) =
        level_channel-far level i l h in
      absurd (cc (shape, e))
]

far_channel-ltb :
    (i j : ℕ) (l : List Text) → i ≤ j → ltb i (length l) ≡ false → ltb j (length l) ≡ false
far_channel-ltb i j l h e = ground arith

-- Where neither list reaches, the channels agree.
AllTuned-far :
    (old new : List Text) (i : ℕ) (levels : List Level)
    → ltb i (length old) ≡ false
    → ltb i (length new) ≡ false
    → AllTuned old i levels
    → AllTuned new i levels
AllTuned-far old new i [] ho hn h = tt
AllTuned-far old new i (level ∷ levels) ho hn (e, h) = (
  e ∙ level_channel-far level i old ho ∙ sym (level_channel-far level i new hn),
  AllTuned-far old new (i + 1) levels (far_channel-ltb i (i + 1) old (omega arith) ho)
      (far_channel-ltb i (i + 1) new (omega arith) hn) h,
)

-- The first level may have any scale, every later one has another than the smallest.
abbrev pub IsApart : ℕ → List Level → Type 0
IsApart i [] = Unit
IsApart i (level ∷ levels) =
    ((i ≡ 0) ⊎ (min_level ≢ level.logscale)) × IsAbsent min_level (logscales levels)

IsAbsent-IsApart :
    (i : ℕ) (levels : List Level) → IsAbsent min_level (logscales levels) → IsApart i levels
IsAbsent-IsApart i [] h = tt
IsAbsent-IsApart i (level ∷ levels) (h, hs) = (inr h, hs)

pub first_near : (l : List Text) (i : ℕ) → l ≢ [] → i ≡ 0 → ltb i (length l) ≡ true
first_near [] i h e = absurd (h refl)
first_near (s ∷ l) i h e = ground arith

-- A level does not take a channel of the list for the one around the origin.
near_far :
    (level : Level) (i : ℕ) (near far : List Text)
    → IsAddress near
    → IsAddress far
    → (i ≡ 0) ⊎ (min_level ≢ level.logscale)
    → ltb i (length far) ≡ false
    → list_to_string near ≢ far_channel level
near_far level i near far hn hf (inl z) e same =
    absurd (ground (arith, first_near far i hf.some_name z))
near_far level i near far hn hf (inr apart) e same = apart (
    HasBias-inj min_level level.logscale (far_channel level)
      (subst (HasBias min_level) same hn.bias) (far_channel-HasBias level))

-- If a level has the same channel for two lists of names, so have all behind it.
AllTuned-same :
    (old new : List Text) (i : ℕ) (level : Level) (levels : List Level)
    → IsAddress old
    → IsAddress new
    → (i ≡ 0) ⊎ (min_level ≢ level.logscale)
    → level_channel level i old ≡ level_channel level i new
    → AllTuned old i (level ∷ levels)
    → AllTuned new i (level ∷ levels)
AllTuned-same old new i level levels ho hn apart e h = elim (Bool-cases (ltb i (length old))) [
  | inl o ↦ elim (Bool-cases (ltb i (length new))) [
    | inl n ↦
        let same : old ≡ new =
          list_to_string-inj old new ho.plain hn.plain ho.some_name hn.some_name
            (sym (level_channel-near level i old o) ∙ e ∙ level_channel-near level i new n) in
        subst (λ l. AllTuned l i (level ∷ levels)) same h
    | inr n ↦ absurd (
        near_far level i old new ho hn apart n
          (sym (level_channel-near level i old o) ∙ e ∙ level_channel-far level i new n))
  ]
  | inr o ↦ elim (Bool-cases (ltb i (length new))) [
    | inl n ↦ absurd (
        near_far level i new old hn ho apart o
          (sym (level_channel-near level i new n) ∙ sym e ∙ level_channel-far level i old o))
    | inr n ↦ AllTuned-far old new i (level ∷ levels) o n h
  ]
]

-- The levels are as new, or all tuned to one list of names.
abbrev pub IsConsistent : ℕ → List Level → Type 0
IsConsistent i levels =
    AllBlank levels ⊎ ((old : List Text) × IsAddress old × AllTuned old i levels)

IsConsistent-tail :
    (i : ℕ) (level : Level) (levels : List Level)
    → IsConsistent i (level ∷ levels)
    → IsConsistent (i + 1) levels
IsConsistent-tail i level levels (inl (e, h)) = inl h
IsConsistent-tail i level levels (inr (old, a, (e, h))) = inr (old, a, h)

IsConsistent-stop :
    (lodlist : List Text) (i : ℕ) (level : Level) (levels : List Level)
    → IsAddress lodlist
    → IsApart i (level ∷ levels)
    → IsConsistent i (level ∷ levels)
    → level.channel ≡ level_channel level i lodlist
    → AllTuned lodlist i (level ∷ levels)
IsConsistent-stop lodlist i level levels a apart (inl (blank, h)) e =
    absurd (level_channel-full level i lodlist (sym e ∙ blank))
IsConsistent-stop lodlist i level levels a apart (inr (old, b, (t, h))) e =
    AllTuned-same old lodlist i level levels b a apart.0 (sym t ∙ e) (t, h)

module _ {d : Double} (ieee : IsIeee d) (position : Vector3 d.Num) where
  -- The loop leaves every level on the channel of the new list, also those it did not come to.
  pub refresh-AllTuned :
      (lodlist : List Text) (levels : List Level) (i : ℕ) (unsubs subs : ChannelSet)
      → IsAddress lodlist
      → AllScales levels
      → IsApart i levels
      → IsConsistent i levels
      → Gives (λ m. AllTuned lodlist i m.0) (refresh d position lodlist levels i unsubs subs)
  unfolding refresh
  refresh-AllTuned lodlist [] i unsubs subs a h apart c = tt
  refresh-AllTuned lodlist (level ∷ levels) i unsubs subs a (hs, h) (apart, aparts) c =
      elim (Bool-cases (eqb_text level.channel (level_channel level i lodlist))) [
        | inl e ↦
            rw (e, refresh)
              (IsConsistent-stop lodlist i level levels a (apart, aparts) c
                (eqb_text→eq level.channel (level_channel level i lodlist) e))
        | inr e ↦
            let (found, ef, _) = around_level ieee position level.logscale hs in
            let left = put_all unsubs level.subscribe_spaces in
            let joined = put_all subs found in
            rw (e, ef, refresh)
              (Gives-bind (λ m. AllTuned lodlist (i + 1) m.0) _ _
                (refresh d position lodlist levels (i + 1) left joined)
                (refresh-AllTuned lodlist levels (i + 1) left joined a h
                  (IsAbsent-IsApart (i + 1) levels aparts) (IsConsistent-tail i level levels c))
                λ m tuned. (refl, tuned))
      ]
