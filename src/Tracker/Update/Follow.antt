-- ===== src/Tracker/Update/Follow.antt =====
-- How the levels follow the position.
use general_worldwide_execut.Prelude.{
  ℕ, ◌+◌, ◌≤◌, ◌≡◌, refl, ap, sym, ◌∙◌, inl, inr, ◌⊎◌, Bool-cases, true, false, List, [], ◌∷◌, map,
  some, arith,
}
use general_worldwide_execut.Prelude.Int.{ℤ, pos, pos_part, neg_part, ◌+ℤ◌, ◌-ℤ◌, int_laws}
use general_worldwide_execut.Prelude.Text.{Text, eqb_text, eqb_text→eq}
use general_worldwide_execut.Gwems.Client.{Accepts, accepts}
use general_worldwide_execut.Gwems.Messages.{World}
use general_worldwide_execut.Js.Coerce.{plus, to_number}
use general_worldwide_execut.Js.Double.{Double, IsIeee}
use general_worldwide_execut.Js.Object.{keys}
use general_worldwide_execut.QuadSpaces.{decompose, list_to_string}
use general_worldwide_execut.QuadSpaces.Surrounding.{ChannelSet, surrounding_space_names}
use general_worldwide_execut.QuadSpaces.Surrounding.Laws.{surrounding-own}
use general_worldwide_execut.QuadSpaces.Surrounding.Loop.{Gives, Gives-bind, Gives-some}
use general_worldwide_execut.QuadSpaces.Surrounding.Sets.{Covers}
use general_worldwide_execut.QuadSpaces.Termination.{decompose_total}
use general_worldwide_execut.Three.{Vector3}
use general_worldwide_execut.Tracker.{Tracker, Avatar, Level, min_level}
use general_worldwide_execut.Tracker.Update.Schedule.{advance, publish_due_lem}
use general_worldwide_execut.Tracker.Update.{
  drift, level_channel, move_avatars, put_all, refresh, update_open, update,
}

-- The scales at which the surrounding names are exact.
abbrev pub IsScale : ℤ → Type 0
IsScale s = (neg_part s ≤ 58) × (pos_part s ≤ 899)

abbrev pub AllScales : List Level → Type 0
AllScales [] = Unit
AllScales (level ∷ levels) = IsScale level.logscale × AllScales levels

-- Each coordinate of the place is the one before, plus by `+=` the velocity of the coordinate, as a
-- number, times `delta`; the velocity is the same.
pub record IsDrifted (d : Double) (delta : d.Num) (old new : Avatar d.Num) : Type 0 where
  pub x : new.place.x ≡ plus d old.place.x (d.mul (to_number d old.velocity.x) delta)
  pub y : new.place.y ≡ plus d old.place.y (d.mul (to_number d old.velocity.y) delta)
  pub z : new.place.z ≡ plus d old.place.z (d.mul (to_number d old.velocity.z) delta)
  pub velocity : new.velocity ≡ old.velocity

-- The same avatars in the same order, each of which has drifted.
abbrev pub AllDrifted :
    (d : Double) → d.Num → List (Text × Avatar d.Num) → List (Text × Avatar d.Num) → Type 0
AllDrifted d delta [] [] = Unit
AllDrifted d delta [] ((id', a') ∷ l') = ⊥
AllDrifted d delta ((id, a) ∷ l) [] = ⊥
AllDrifted d delta ((id, a) ∷ l) ((id', a') ∷ l') =
    (id' ≡ id) × IsDrifted d delta a a' × AllDrifted d delta l l'

move_avatars-AllDrifted :
    (d : Double) (delta : d.Num) (l : List (Text × Avatar d.Num))
    → AllDrifted d delta l (move_avatars d delta l)
unfolding move_avatars drift
move_avatars-AllDrifted d delta [] = tt
move_avatars-AllDrifted d delta ((id, a) ∷ l) = (
  refl,
  record { x = refl; y = refl; z = refl; velocity = refl },
  move_avatars-AllDrifted d delta l,
)

-- The names of the avatars are the same.
pub AllDrifted-keys :
    (d : Double) (delta : d.Num) (l l' : List (Text × Avatar d.Num))
    → AllDrifted d delta l l'
    → keys l' ≡ keys l
unfolding keys
AllDrifted-keys d delta [] [] h = refl
AllDrifted-keys d delta [] ((id', a') ∷ l') h = absurd h
AllDrifted-keys d delta ((id, a) ∷ l) [] h = absurd h
AllDrifted-keys d delta ((id, a) ∷ l) ((id', a') ∷ l') (e, _, h) =
    ap (λ i. i ∷ keys l') e ∙ ap (λ r. id ∷ r) (AllDrifted-keys d delta l l' h)

one_level : (s : ℤ) → pos_part (s +ℤ pos 1 -ℤ s) ≡ 1
one_level s = let e : s +ℤ pos 1 -ℤ s ≡ pos 1 = omega int_laws in rw e

plus_zero : (s : ℤ) → s ≡ s +ℤ pos 0
plus_zero s = omega int_laws

module _ {d : Double} (ieee : IsIeee d) (position : Vector3 d.Num) where
  -- The level has moved to the position: it publishes on the channel that `update` computes, and it
  -- subscribes to a set that holds the channel of its own cube.
  pub record IsMoved (lodlist : List Text) (i : ℕ) (old new : Level) : Type 0 where
    pub publishes : new.channel ≡ level_channel old i lodlist
    pub cube : List Text
    pub cube_names : decompose d position old.logscale ≡ some cube
    pub covers : Covers (list_to_string cube) new.subscribe_spaces
    pub scale : new.logscale ≡ old.logscale
    pub interval : new.interval ≡ old.interval
    pub next_send : new.next_send ≡ old.next_send

  -- The levels have moved up to the first whose channel is the one that is computed; from there on
  -- they are as they were.
  abbrev pub IsFollowed : List Text → ℕ → List Level → List Level → Type 0
  IsFollowed lodlist i [] new = new ≡ []
  IsFollowed lodlist i (level ∷ levels) [] = ⊥
  IsFollowed lodlist i (level ∷ levels) (level' ∷ levels') =
      (level.channel ≡ level_channel level i lodlist) × (level' ≡ level) × (levels' ≡ levels)
      ⊎ IsMoved lodlist i level level' × IsFollowed lodlist (i + 1) levels levels'

  pub surrounding_level :
      (s : ℤ)
      → IsScale s
      → (set : ChannelSet) × (l : List Text) × (surrounding_space_names d position s (s +ℤ pos 1)
          ≡ some set)
        × (decompose d position s ≡ some l)
        × Covers (list_to_string l) set
  surrounding_level s h =
      let (l, e, _, _) = decompose_total ieee position s in
      let one = one_level s in
      let given =
        surrounding-own ieee position s (s +ℤ pos 1) 0 l (omega (arith, one)) (omega (arith, one))
          (ap (decompose d position) (sym (plus_zero s)) ∙ e) in
      let (set, es, c) = Gives-some _ (surrounding_space_names d position s (s +ℤ pos 1)) given in
      (set, l, es, e, c)

  pub refresh-IsFollowed :
      (lodlist : List Text) (levels : List Level) (i : ℕ) (unsubs subs : ChannelSet)
      → AllScales levels
      → Gives
          (λ m. IsFollowed lodlist i levels m.0)
          (refresh d position lodlist levels i unsubs subs)
  unfolding refresh
  refresh-IsFollowed lodlist [] i unsubs subs h = refl
  refresh-IsFollowed lodlist (level ∷ levels) i unsubs subs (hs, h) =
      elim (Bool-cases (eqb_text level.channel (level_channel level i lodlist))) [
        | inl e ↦ rw (e, refresh) (inl (eqb_text→eq _ _ e, refl, refl))
        | inr e ↦
            let (found, cube, ef, ec, covers) = surrounding_level level.logscale hs in
            rw (e, ef, refresh)
              (Gives-bind (λ m. IsFollowed lodlist (i + 1) levels m.0)
                (λ m. IsFollowed lodlist i (level ∷ levels) m.0) _
                (refresh d position lodlist levels (i + 1) (put_all unsubs level.subscribe_spaces)
                  (put_all subs found))
                (refresh-IsFollowed lodlist levels (i + 1) _ _ h)
                λ m hm. inr (
                  record {
                    publishes = refl;
                    cube = cube;
                    cube_names = ec;
                    covers = covers;
                    scale = refl;
                    interval = refl;
                    next_send = refl;
                  },
                  hm,
                ))
      ]

  -- What a run of `update` on an open connection leaves.
  pub record IsUpdated (time : ℕ) (delta : d.Num) (t u : Tracker d.Num) : Type 0 where
    pub lodlist : List Text
    pub names : decompose d position min_level ≡ some lodlist
    pub followed : List Level
    pub follows : IsFollowed lodlist 0 t.intervals followed
    pub levels : u.intervals ≡ map (advance time) followed
    pub avatars : AllDrifted d delta t.avatars u.avatars
    pub user : u.user_hash ≡ t.user_hash
    pub count : u.self_count ≡ t.self_count
    pub scene : u.scene ≡ t.scene

  pub update-IsUpdated :
      (time : ℕ) (velocity : Vector3 d.Num) (delta : d.Num) (t : Tracker d.Num) (w : World d.Num)
      → w.1.is_open ≡ true
      → AllScales t.intervals
      → Gives (λ r. IsUpdated time delta t r.0) (update d accepts time position velocity delta t w)
  unfolding update update_open
  update-IsUpdated time velocity delta t w e h =
      let (lodlist, el, _, _) = decompose_total ieee position min_level in
      let (moved, em, follows) =
        Gives-some _ (refresh d position lodlist t.intervals 0 [] [])
          (refresh-IsFollowed lodlist t.intervals 0 [] [] h) in
      rw (e, el, em, update, update_open)
        (record {
          lodlist = lodlist;
          names = el;
          followed = moved.0;
          follows = follows;
          levels = (publish_due_lem d position velocity t.user_hash time moved.0 _ _).0;
          avatars = move_avatars-AllDrifted d delta t.avatars;
          user = refl;
          count = refl;
          scene = refl;
        })

-- On a closed connection nothing changes and nothing is sent.
pub update_closed :
    (d : Double) (a : Accepts) (time : ℕ) (position velocity : Vector3 d.Num) (delta : d.Num)
    (t : Tracker d.Num) (w : World d.Num)
    → w.1.is_open ≡ false
    → update d a time position velocity delta t w ≡ some (t, w)
unfolding update
update_closed d a time position velocity delta t w e = rw e
