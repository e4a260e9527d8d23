-- ===== src/Tracker/Session/Exchange.antt =====
-- The channels that the levels leave and join when they move.
use general_worldwide_execut.Prelude.{
  ℕ, ◌+◌, ◌≡◌, refl, ap, sym, ◌∙◌, inl, inr, Bool, true, false, ◌&&◌, ◌||◌, Bool-cases, List, [],
  ◌∷◌, some, arith,
}
use general_worldwide_execut.Prelude.Int.{ℤ, pos, pos_part, ◌+ℤ◌, ◌-ℤ◌, int_laws}
use general_worldwide_execut.Prelude.Text.{Text, eqb_text}
use general_worldwide_execut.Gwems.Sets.Laws.{has}
use general_worldwide_execut.Js.Double.{Double, IsIeee}
use general_worldwide_execut.QuadSpaces.Channel.{HasBias, HasBias-inj}
use general_worldwide_execut.QuadSpaces.Surrounding.{ChannelSet, surrounding_space_names}
use general_worldwide_execut.QuadSpaces.Surrounding.Exactly.{
  is_near, is_near_levels, is_near-HasBias, surrounding_space_names_lem,
}
use general_worldwide_execut.QuadSpaces.Surrounding.Loop.{Gives, Gives-bind, Gives-some}
use general_worldwide_execut.Three.{Vector3}
use general_worldwide_execut.Tracker.{Level}
use general_worldwide_execut.Tracker.Session.Total.{logscales}
use general_worldwide_execut.Tracker.Update.{Moved, moved_on, level_channel, put_all, refresh}
use general_worldwide_execut.Tracker.Update.Follow.{IsScale, AllScales}
use general_worldwide_execut.Tracker.Update.Split.{subscribes, has-put_all, or_assoc}

-- All channels of the set have the bias.
abbrev pub IsBiased : ℤ → ChannelSet → Type 0
IsBiased s o = (k : Text) → has o k ≡ true → HasBias s k

-- Each level subscribes to channels of its own scale.
abbrev pub AllBiased : List Level → Type 0
AllBiased [] = Unit
AllBiased (level ∷ levels) = IsBiased level.logscale level.subscribe_spaces × AllBiased levels

abbrev pub IsAbsent : ℤ → List ℤ → Type 0
IsAbsent s [] = Unit
IsAbsent s (p ∷ l) = ¬ (s ≡ p) × IsAbsent s l

abbrev pub AllDistinct : List ℤ → Type 0
AllDistinct [] = Unit
AllDistinct (s ∷ l) = IsAbsent s l × AllDistinct l

-- A channel of another scale is none of theirs.
pub subscribes-HasBias :
    (s : ℤ) (k : Text) (levels : List Level)
    → HasBias s k
    → IsAbsent s (logscales levels)
    → AllBiased levels
    → subscribes levels k ≡ false
subscribes-HasBias s k [] h a b = refl
subscribes-HasBias s k (level ∷ levels) h (apart, a) (own, b) =
    elim (Bool-cases (has level.subscribe_spaces k)) [
      | inl e ↦ absurd (apart (HasBias-inj s level.logscale k h (own k e)))
      | inr e ↦ rw (e, subscribes-HasBias s k levels h a b) refl
    ]

-- What happens to one channel: the moved levels leave it, they join it, the others stay on it.
pub record IsExchanged (k : Text) (unsubs subs : ChannelSet) (old : List Level) (m : Moved)
    : Type 0 where
  pub gone : Bool
  pub come : Bool
  pub stays : Bool
  pub before : subscribes old k ≡ (gone || stays)
  pub after : subscribes m.0 k ≡ (come || stays)
  pub left : has m.1 k ≡ (has unsubs k || gone)
  pub joined : has m.2 k ≡ (has subs k || come)
  pub apart : (gone && stays) ≡ false

or_false : (a : Bool) → (a || false) ≡ a
or_false true = refl
or_false false = refl

kept_apart :
    (own gone stays : Bool)
    → (gone && stays) ≡ false
    → (own ≡ true → (gone || stays) ≡ false)
    → ((own || gone) && stays) ≡ false
kept_apart true gone true h k = absurd (ground (arith, k refl))
kept_apart true gone false h k = refl
kept_apart false gone stays h k = h

IsExchanged-moved_on :
    (k channel : Text) (unsubs subs found : ChannelSet) (level : Level) (levels : List Level)
    (m : Moved)
    → (has level.subscribe_spaces k ≡ true → subscribes levels k ≡ false)
    → IsExchanged k (put_all unsubs level.subscribe_spaces) (put_all subs found) levels m
    → IsExchanged k unsubs subs
        (level ∷ levels)
        (moved_on (record level { channel = channel; subscribe_spaces = found }) m)
IsExchanged-moved_on k channel unsubs subs found level levels m h x =
    let own = has level.subscribe_spaces k in
    record {
      gone = own || x.gone;
      come = has found k || x.come;
      stays = x.stays;
      before = ap (λ b. own || b) x.before ∙ or_assoc own x.gone x.stays;
      after = ap (λ b. has found k || b) x.after ∙ or_assoc (has found k) x.come x.stays;
      left =
          x.left
          ∙ ap (λ b. b || x.gone) (has-put_all unsubs level.subscribe_spaces k)
          ∙ sym (or_assoc (has unsubs k) own x.gone);
      joined =
          x.joined
          ∙ ap (λ b. b || x.come) (has-put_all subs found k)
          ∙ sym (or_assoc (has subs k) (has found k) x.come);
      apart = kept_apart own x.gone x.stays x.apart (λ e. sym x.before ∙ h e);
    }

module _ {d : Double} (ieee : IsIeee d) (position : Vector3 d.Num) where
  pub around_level :
      (s : ℤ)
      → IsScale s
      → (set : ChannelSet) × (surrounding_space_names d position s (s +ℤ pos 1) ≡ some set)
        × ((k : Text) → is_near d position s k ≡ has set k)
  around_level s h =
      let one : s +ℤ pos 1 -ℤ s ≡ pos 1 = omega int_laws in
      let count : pos_part (s +ℤ pos 1 -ℤ s) ≡ 1 = rw one in
      let (set, e, (_, keys)) =
        Gives-some _ (surrounding_space_names d position s (s +ℤ pos 1))
          (surrounding_space_names_lem ieee position s (s +ℤ pos 1) (omega (arith, count))) in
      let near : (k : Text) → is_near d position s k ≡ has set k = λ k. sym (
        keys k
        ∙ ap (λ n. is_near_levels d position n s k) count
        ∙ or_false (is_near d position s k)) in
      (set, e, near)

  pub refresh-IsExchanged :
      (lodlist : List Text) (levels : List Level) (i : ℕ) (unsubs subs : ChannelSet)
      → AllScales levels
      → AllDistinct (logscales levels)
      → AllBiased levels
      → Gives
          (λ m. AllBiased m.0 × ((k : Text) → IsExchanged k unsubs subs levels m))
          (refresh d position lodlist levels i unsubs subs)
  unfolding refresh
  refresh-IsExchanged lodlist [] i unsubs subs h a b = (
    tt,
    λ k. record {
      gone = false;
      come = false;
      stays = false;
      before = refl;
      after = refl;
      left = ground arith;
      joined = ground arith;
      apart = refl;
    },
  )
  refresh-IsExchanged lodlist (level ∷ levels) i unsubs subs (hs, h) (away, a) (own, b) =
      elim (Bool-cases (eqb_text level.channel (level_channel level i lodlist))) [
        | inl e ↦
            rw (e, refresh)
              (
                (own, b),
                λ k. record {
                  gone = false;
                  come = false;
                  stays = subscribes (level ∷ levels) k;
                  before = refl;
                  after = refl;
                  left = ground arith;
                  joined = ground arith;
                  apart = refl;
                },
              )
        | inr e ↦
            let (found, ef, near) = around_level level.logscale hs in
            let left = put_all unsubs level.subscribe_spaces in
            let joined = put_all subs found in
            rw (e, ef, refresh)
              (Gives-bind _ _ _ (refresh d position lodlist levels (i + 1) left joined)
                (refresh-IsExchanged lodlist levels (i + 1) left joined h a b)
                λ m (all, x). (
                  (λ k hk. is_near-HasBias d position level.logscale k (near k ∙ hk), all),
                  λ k.
                      IsExchanged-moved_on k (level_channel level i lodlist) unsubs subs found level
                        levels m (λ h. subscribes-HasBias level.logscale k levels (own k h) away b)
                        (x k),
                ))
      ]
