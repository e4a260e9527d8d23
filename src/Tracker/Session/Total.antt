-- ===== src/Tracker/Session/Total.antt =====
-- A session never fails, and keeps the tracker in order.
use general_worldwide_execut.Prelude.{
  ℕ, ◌+◌, ◌≤◌, ◌≡◌, refl, ap, sym, ◌∙◌, inl, inr, Bool-cases, List, [], ◌∷◌, map, Option, none,
  some, arith,
}
use general_worldwide_execut.Prelude.Int.{ℤ, pos, ◌+ℤ◌}
use general_worldwide_execut.Prelude.Text.{Text}
use general_worldwide_execut.Gwems.Client.{accepts}
use general_worldwide_execut.Gwems.Messages.{World}
use general_worldwide_execut.Js.Double.{Double, IsIeee}
use general_worldwide_execut.Js.Json.{Value}
use general_worldwide_execut.Js.Object.{keys}
use general_worldwide_execut.QuadSpaces.Surrounding.Loop.{Gives, Gives-map}
use general_worldwide_execut.Three.{Vector3}
use general_worldwide_execut.Tracker.{Tracker, Level, new_tracker}
use general_worldwide_execut.Tracker.Incoming.Laws.{IsShown, handle_incoming-IsShown}
use general_worldwide_execut.Tracker.Session.{Step, handle_message, passed, session}
use general_worldwide_execut.Tracker.Session.Keeps.{session-keeps}
use general_worldwide_execut.Tracker.Session.Kept.{handle_incoming-IsKept}
use general_worldwide_execut.Tracker.Update.{update}
use general_worldwide_execut.Tracker.Update.Follow.{
  AllDrifted-keys, IsScale, AllScales, IsFollowed, IsUpdated, update-IsUpdated, update_closed,
}
use general_worldwide_execut.Tracker.Update.Schedule.{advance}

abbrev pub logscales : List Level → List ℤ
logscales = map (λ level. level.logscale)

-- The scales of the six levels, from cubes of 4 m to cubes of 4 km.
abbrev pub six_scales : List ℤ
six_scales = pos 2 ∷ pos 4 ∷ pos 6 ∷ pos 8 ∷ pos 10 ∷ pos 12 ∷ []

-- The scene shows exactly the avatars that are known, the six levels keep their scales, and the
-- user is the one of the start.
pub record IsReady {N : Type 0} (user : Text) (t : Tracker N) : Type 0 where
  pub shown : IsShown t
  pub scales : logscales t.intervals ≡ six_scales
  pub name : t.user_hash ≡ user

abbrev pub AllIsScale : List ℤ → Type 0
AllIsScale [] = Unit
AllIsScale (s ∷ l) = IsScale s × AllIsScale l

pub logscales-AllScales : (levels : List Level) → AllIsScale (logscales levels) → AllScales levels
logscales-AllScales [] h = tt
logscales-AllScales (level ∷ levels) (hs, h) = (hs, logscales-AllScales levels h)

pub six_scales_all : AllIsScale six_scales
six_scales_all =
    let small : (n : ℕ) → n ≤ 899 → IsScale (pos n) = λ n h. (omega arith, h) in
    (
      small 2 (omega arith),
      (
        small 4 (omega arith),
        (
          small 6 (omega arith),
          (small 8 (omega arith), (small 10 (omega arith), (small 12 (omega arith), tt))),
        ),
      ),
    )

advance_logscale : (time : ℕ) (level : Level) → (advance time level).logscale ≡ level.logscale
advance_logscale time level = ground arith

logscales-advance :
    (time : ℕ) (levels : List Level) → logscales (map (advance time) levels) ≡ logscales levels
logscales-advance time [] = refl
logscales-advance time (level ∷ levels) =
    rw (advance_logscale time level, logscales-advance time levels) refl

pub new_tracker-IsReady :
    {N : Type 0} (user : Text) (start : ℕ) → IsReady {N = N} user (new_tracker user start)
unfolding new_tracker keys ◌+ℤ◌
new_tracker-IsReady user start = record { shown = refl; scales = refl; name = refl }

module _ {d : Double} (ieee : IsIeee d) where
  IsFollowed-logscales :
      (position : Vector3 d.Num) (lodlist : List Text) (i : ℕ) (old new : List Level)
      → IsFollowed ieee position lodlist i old new
      → logscales new ≡ logscales old
  IsFollowed-logscales position lodlist i [] new h = ap logscales h
  IsFollowed-logscales position lodlist i (level ∷ levels) [] h = absurd h
  IsFollowed-logscales position lodlist i (level ∷ levels) (level' ∷ levels') (inl (_, e, f)) =
      rw (e, f) refl
  IsFollowed-logscales position lodlist i (level ∷ levels) (level' ∷ levels') (inr (m, h)) =
      rw (m.scale, IsFollowed-logscales position lodlist (i + 1) levels levels' h) refl

  pub IsUpdated-IsReady :
      (user : Text) (position : Vector3 d.Num) (time : ℕ) (delta : d.Num) (t u : Tracker d.Num)
      → IsReady user t
      → IsUpdated ieee position time delta t u
      → IsReady user u
  IsUpdated-IsReady user position time delta t u h g = record {
    shown = g.scene ∙ h.shown ∙ sym (AllDrifted-keys d delta t.avatars _ g.avatars);
    scales =
        ap logscales g.levels
        ∙ logscales-advance time g.followed
        ∙ IsFollowed-logscales position g.lodlist 0 t.intervals g.followed g.follows
        ∙ h.scales;
    name = g.user ∙ h.name;
  }

  pub update-IsReady :
      (user : Text) (position velocity : Vector3 d.Num) (time : ℕ) (delta : d.Num)
      (t : Tracker d.Num) (w : World d.Num)
      → IsReady user t
      → Gives (λ r. IsReady user r.0) (update d accepts time position velocity delta t w)
  update-IsReady user position velocity time delta t w h = elim (Bool-cases w.1.is_open) [
    | inl e ↦
        let all : AllScales t.intervals =
          logscales-AllScales t.intervals (rw h.scales six_scales_all) in
        Gives-map (λ r. IsUpdated ieee position time delta t r.0) (λ r. IsReady user r.0)
          (update d accepts time position velocity delta t w)
          (update-IsUpdated ieee position time velocity delta t w e all)
          (λ r g. IsUpdated-IsReady user position time delta t r.0 h g)
    | inr e ↦ rw (update_closed d accepts time position velocity delta t w e) h
  ]

  pub handle_message-IsReady :
      (user : Text) (built : Option (Vector3 d.Num)) (m : Option (Value d.Num)) (t : Tracker d.Num)
      → IsReady user t
      → IsReady user (handle_message d built m t)
  unfolding handle_message
  handle_message-IsReady user built none t h = h
  handle_message-IsReady user built (some v) t h =
      let k = handle_incoming-IsKept d built v t in
      record {
        shown = handle_incoming-IsShown d built v t h.shown;
        scales = ap logscales k.levels ∙ h.scales;
        name = k.user ∙ h.name;
      }

  -- From a new tracker, any sequence of socket events and updates runs to its end, whatever messages
  -- arrive and wherever the user is: no loop runs out of rounds, the scene shows exactly the avatars
  -- that are known, the six levels keep their scales, and the user keeps the name.
  pub session-IsReady :
      (built : Option (Vector3 d.Num)) (user : Text) (start : ℕ) (w : World d.Num)
      (steps : List (Step d.Num))
      → Gives (λ r. IsReady user r.0) (session d built steps (new_tracker user start, w))
  session-IsReady built user start w steps =
      session-keeps d built (λ r. IsReady user r.0)
        (λ e t u. handle_message-IsReady user built (passed e) t)
        (λ now p v delta t u. update-IsReady user p v now delta t u) steps
        (new_tracker user start, w) (new_tracker-IsReady user start)
