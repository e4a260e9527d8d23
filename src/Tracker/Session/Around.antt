-- ===== src/Tracker/Session/Around.antt =====
-- What the levels subscribe to: the cubes around a position whose channel they publish on.
use general_worldwide_execut.Prelude.{
  ℕ, ◌+◌, ◌≡◌, ◌⊎◌, refl, inl, inr, Bool-cases, List, [], ◌∷◌, map, some, ltb,
}
use general_worldwide_execut.Prelude.Text.{Text, eqb_text}
use general_worldwide_execut.Gwems.Sets.Laws.{has}
use general_worldwide_execut.Js.Double.{Double, IsIeee}
use general_worldwide_execut.QuadSpaces.{decompose}
use general_worldwide_execut.QuadSpaces.Surrounding.Exactly.{is_near}
use general_worldwide_execut.QuadSpaces.Surrounding.Loop.{Gives, Gives-bind}
use general_worldwide_execut.QuadSpaces.Surrounding.{ChannelSet}
use general_worldwide_execut.Three.{Vector3}
use general_worldwide_execut.Tracker.{Level, min_level}
use general_worldwide_execut.Tracker.Session.Exchange.{around_level}
use general_worldwide_execut.Tracker.Update.{level_channel, put_all, refresh}
use general_worldwide_execut.Tracker.Update.Follow.{AllScales}
use general_worldwide_execut.Tracker.Update.Schedule.{advance}

module _ (d : Double) where
  -- The level subscribes to exactly the channels around a position at its scale, and publishes on
  -- the channel of that position.
  pub record IsAround (i : ℕ) (level : Level) : Type 0 where
    pub from : Vector3 d.Num
    pub names : List Text
    pub named : decompose d from min_level ≡ some names
    pub publishes : level.channel ≡ level_channel level i names
    pub spaces : (k : Text) → is_near d from level.logscale k ≡ has level.subscribe_spaces k

  -- Every level that has a channel does so.
  abbrev pub AllAround : ℕ → List Level → Type 0
  AllAround i [] = Unit
  AllAround i (level ∷ levels) =
      ((level.channel ≡ []) ⊎ IsAround i level) × AllAround (i + 1) levels

  pub advance-AllAround :
      (now i : ℕ) (levels : List Level)
      → AllAround i levels
      → AllAround i (map (advance now) levels)
  unfolding level_channel
  advance-AllAround now i [] h = tt
  advance-AllAround now i (level ∷ levels) (own, h) = elim (Bool-cases (ltb level.next_send now)) [
    | inl e ↦ rw e (
      elim own [
        | inl blank ↦ inl blank
        | inr a ↦ inr (record {
          from = a.from;
          names = a.names;
          named = a.named;
          publishes = a.publishes;
          spaces = a.spaces;
        })
      ],
      advance-AllAround now (i + 1) levels h,
    )
    | inr e ↦ rw e (own, advance-AllAround now (i + 1) levels h)
  ]

module _ {d : Double} (ieee : IsIeee d) (position : Vector3 d.Num) where
  pub refresh-AllAround :
      (lodlist : List Text) (levels : List Level) (i : ℕ) (unsubs subs : ChannelSet)
      → decompose d position min_level ≡ some lodlist
      → AllScales levels
      → AllAround d i levels
      → Gives (λ m. AllAround d i m.0) (refresh d position lodlist levels i unsubs subs)
  unfolding refresh level_channel
  refresh-AllAround lodlist [] i unsubs subs el h a = tt
  refresh-AllAround lodlist (level ∷ levels) i unsubs subs el (hs, h) (own, a) =
      elim (Bool-cases (eqb_text level.channel (level_channel level i lodlist))) [
        | inl e ↦ rw (e, refresh) (own, a)
        | inr e ↦
            let (found, ef, near) = around_level ieee position level.logscale hs in
            let left = put_all unsubs level.subscribe_spaces in
            let joined = put_all subs found in
            rw (e, ef, refresh)
              (Gives-bind (λ m. AllAround d (i + 1) m.0) _ _
                (refresh d position lodlist levels (i + 1) left joined)
                (refresh-AllAround lodlist levels (i + 1) left joined el h a)
                λ m rest. (
                  inr (record {
                    from = position;
                    names = lodlist;
                    named = el;
                    publishes = refl;
                    spaces = near;
                  }),
                  rest,
                ))
      ]
