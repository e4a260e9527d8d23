-- ===== src/Tracker/Update/Split.antt =====
-- The channels that an update leaves and joins, from the levels that move.
use general_worldwide_execut.Prelude.{
  ℕ, ◌+◌, ◌≡◌, refl, ap, sym, ◌∙◌, inl, inr, Bool, true, false, ◌||◌, Bool-cases, List, [], ◌∷◌,
  ◌++◌, map, arith,
}
use general_worldwide_execut.Prelude.Int.{ℤ}
use general_worldwide_execut.Prelude.Text.{Text, eqb_text}
use general_worldwide_execut.Gwems.Sets.Laws.{has, has-put}
use general_worldwide_execut.Js.Double.{Double, IsIeee}
use general_worldwide_execut.Js.Object.{put}
use general_worldwide_execut.QuadSpaces.Surrounding.{ChannelSet}
use general_worldwide_execut.QuadSpaces.Surrounding.Loop.{Gives, Gives-bind}
use general_worldwide_execut.Three.{Vector3}
use general_worldwide_execut.Tracker.{Level}
use general_worldwide_execut.Tracker.Update.{Moved, moved_on, level_channel, put_all, refresh}
use general_worldwide_execut.Tracker.Update.Follow.{AllScales, surrounding_level}

-- Whether some level subscribes to the channel.
abbrev pub subscribes : List Level → Text → Bool
subscribes [] k = false
subscribes (level ∷ levels) k = has level.subscribe_spaces k || subscribes levels k

pub has-put_all :
    (into from : ChannelSet) (k : Text) → has (put_all into from) k ≡ (has into k || has from k)
unfolding put_all has
has-put_all into [] k = ground arith
has-put_all into ((j, v) ∷ from) k =
    ground (arith, has-put_all (put into j v) from k, has-put into j k v)

pub or_assoc : (a b c : Bool) → (a || (b || c)) ≡ (a || b || c)
or_assoc true b c = refl
or_assoc false b c = refl

or_false : (a : Bool) → a ≡ (a || false)
or_false true = refl
or_false false = refl

abbrev pub logscale_of : Level → ℤ
logscale_of level = level.logscale

-- The first levels, `before`, have become `after` of the same scales, and the others stay; beyond what the two sets held
-- at first, the channels to leave are those of the levels before, and the channels to join are those
-- of the levels after.
pub record IsSplit (unsubs subs : ChannelSet) (old : List Level) (m : Moved) : Type 0 where
  pub before : List Level
  pub after : List Level
  pub stay : List Level
  pub olds : old ≡ before ++ stay
  pub news : m.0 ≡ after ++ stay
  pub scales : map logscale_of after ≡ map logscale_of before
  pub left : (k : Text) → has m.1 k ≡ (has unsubs k || subscribes before k)
  pub joined : (k : Text) → has m.2 k ≡ (has subs k || subscribes after k)

IsSplit-moved_on :
    (unsubs subs found : ChannelSet) (level level' : Level) (levels : List Level) (m : Moved)
    → level'.subscribe_spaces ≡ found
    → level'.logscale ≡ level.logscale
    → IsSplit (put_all unsubs level.subscribe_spaces) (put_all subs found) levels m
    → IsSplit unsubs subs (level ∷ levels) (moved_on level' m)
IsSplit-moved_on unsubs subs found level level' levels m e same x = record {
  before = level ∷ x.before;
  after = level' ∷ x.after;
  stay = x.stay;
  olds = ap (λ l. level ∷ l) x.olds;
  news = ap (λ l. level' ∷ l) x.news;
  scales = ap (λ (c : ℤ). c ∷ map logscale_of x.after) same ∙ ap (λ l. level.logscale ∷ l) x.scales;
  left = λ k.
      x.left k
      ∙ ap (λ b. b || subscribes x.before k) (has-put_all unsubs level.subscribe_spaces k)
      ∙ sym (or_assoc (has unsubs k) (has level.subscribe_spaces k) (subscribes x.before k));
  joined = λ k.
      x.joined k
      ∙ ap (λ b. b || subscribes x.after k) (has-put_all subs found k)
      ∙ sym (or_assoc (has subs k) (has found k) (subscribes x.after k))
      ∙ ap (λ o. has subs k || (has o k || subscribes x.after k)) (sym e);
}

pub refresh-IsSplit :
    {d : Double} (ieee : IsIeee d) (position : Vector3 d.Num) (lodlist : List Text)
    (levels : List Level) (i : ℕ) (unsubs subs : ChannelSet)
    → AllScales levels
    → Gives (IsSplit unsubs subs levels) (refresh d position lodlist levels i unsubs subs)
unfolding refresh
refresh-IsSplit ieee position lodlist [] i unsubs subs h = record {
  before = [];
  after = [];
  stay = [];
  olds = refl;
  news = refl;
  scales = refl;
  left = λ k. or_false (has unsubs k);
  joined = λ k. or_false (has subs k);
}
refresh-IsSplit {d} ieee position lodlist (level ∷ levels) i unsubs subs (hs, h) =
    elim (Bool-cases (eqb_text level.channel (level_channel level i lodlist))) [
      | inl e ↦
          rw (e, refresh)
            (record {
              before = [];
              after = [];
              stay = level ∷ levels;
              olds = refl;
              news = refl;
              scales = refl;
              left = λ k. or_false (has unsubs k);
              joined = λ k. or_false (has subs k);
            })
      | inr e ↦
          let (found, cube, ef, ec, covers) = surrounding_level ieee position level.logscale hs in
          let left = put_all unsubs level.subscribe_spaces in
          let joined = put_all subs found in
          rw (e, ef, refresh)
            (Gives-bind _ _ _ (refresh d position lodlist levels (i + 1) left joined)
              (refresh-IsSplit ieee position lodlist levels (i + 1) left joined h)
              λ m x.
                IsSplit-moved_on unsubs subs found level
                  (record level {
                    channel = level_channel level i lodlist;
                    subscribe_spaces = found;
                  })
                  levels m refl refl x)
    ]
