-- ===== src/Tracker/Session/Pace.antt =====
-- How often the levels publish.
use native.Mathlib.Nat.{suc-mul}
use general_worldwide_execut.Prelude.{
  ℕ, suc, ◌+◌, ◌*◌, ◌≤◌, ◌≡◌, refl, ◌∙◌, inl, inr, Bool-cases, List, [], ◌∷◌, map, Option, none,
  some, arith, ltb, ltb→lt,
}
use general_worldwide_execut.Prelude.Text.{Text}
use general_worldwide_execut.Gwems.Client.{accepts}
use general_worldwide_execut.Gwems.Messages.{World}
use general_worldwide_execut.Js.Double.{Double, IsIeee}
use general_worldwide_execut.Js.Json.{Value}
use general_worldwide_execut.QuadSpaces.Surrounding.Loop.{Gives, Gives-bind, Gives-map}
use general_worldwide_execut.Three.{Vector3}
use general_worldwide_execut.Tracker.{Tracker, Level, new_tracker}
use general_worldwide_execut.Tracker.Session.{
  Step, socket_event, frame, Page, handle_message, passed, step, session,
}
use general_worldwide_execut.Tracker.Session.Kept.{handle_incoming-IsKept}
use general_worldwide_execut.Tracker.Session.Total.{
  IsReady, new_tracker-IsReady, logscales-AllScales, six_scales_all, IsUpdated-IsReady,
  handle_message-IsReady,
}
use general_worldwide_execut.Tracker.Update.{update}
use general_worldwide_execut.Tracker.Update.Follow.{
  AllScales, IsMoved, IsFollowed, IsUpdated, update-IsUpdated, update_closed,
}
use general_worldwide_execut.Tracker.Update.Schedule.{advance}

-- A level has moved on from the start by whole intervals, and it is at most one ahead of the time.
pub record IsPaced (start time : ℕ) (interval : ℕ) (level : Level) : Type 0 where
  pub fixed : level.interval ≡ interval
  pub count : ℕ
  pub schedule : level.next_send ≡ start + count * interval
  pub bound : level.next_send ≤ time + interval

-- The levels of these intervals.
abbrev pub AllPaced : ℕ → ℕ → List ℕ → List Level → Type 0
AllPaced start time [] [] = Unit
AllPaced start time [] (level ∷ levels) = ⊥
AllPaced start time (i ∷ intervals) [] = ⊥
AllPaced start time (i ∷ intervals) (level ∷ levels) =
    IsPaced start time i level × AllPaced start time intervals levels

-- The clock does not pass the time.
abbrev pub AllBefore : {N : Type 0} → ℕ → List (Step N) → Type 0
AllBefore time [] = Unit
AllBefore time (socket_event e ∷ steps) = AllBefore time steps
AllBefore time (frame now position velocity delta ∷ steps) = (now ≤ time) × AllBefore time steps

-- In milliseconds.
abbrev pub six_intervals : List ℕ
six_intervals = 200 ∷ 400 ∷ 800 ∷ 1600 ∷ 3200 ∷ 6400 ∷ []

module _ (start time : ℕ) where
  advance-IsPaced :
      (now interval : ℕ) (level : Level)
      → now ≤ time
      → IsPaced start time interval level
      → IsPaced start time interval (advance now level)
  advance-IsPaced now interval level h p = elim (Bool-cases (ltb level.next_send now)) [
    | inl e ↦ rw e (record {
      fixed = p.fixed;
      count = suc p.count;
      schedule = omega (arith, p.schedule, p.fixed, suc-mul p.count interval);
      bound = omega (arith, p.fixed, h, ltb→lt level.next_send now e);
    })
    | inr e ↦ rw e p
  ]

  AllPaced-advance :
      (now : ℕ) (intervals : List ℕ) (levels : List Level)
      → now ≤ time
      → AllPaced start time intervals levels
      → AllPaced start time intervals (map (advance now) levels)
  AllPaced-advance now [] [] h p = tt
  AllPaced-advance now [] (level ∷ levels) h p = absurd p
  AllPaced-advance now (i ∷ intervals) [] h p = absurd p
  AllPaced-advance now (i ∷ intervals) (level ∷ levels) h (p, q) =
      (advance-IsPaced now i level h p, AllPaced-advance now intervals levels h q)

  IsMoved-IsPaced :
      {d : Double} (ieee : IsIeee d) (position : Vector3 d.Num) (lodlist : List Text)
      (i interval : ℕ) (old new : Level)
      → IsMoved ieee position lodlist i old new
      → IsPaced start time interval old
      → IsPaced start time interval new
  IsMoved-IsPaced ieee position lodlist i interval old new m p = record {
    fixed = m.interval ∙ p.fixed;
    count = p.count;
    schedule = m.next_send ∙ p.schedule;
    bound = omega (arith, m.next_send, p.bound);
  }

  IsFollowed-AllPaced :
      {d : Double} (ieee : IsIeee d) (position : Vector3 d.Num) (lodlist : List Text) (i : ℕ)
      (intervals : List ℕ) (old new : List Level)
      → IsFollowed ieee position lodlist i old new
      → AllPaced start time intervals old
      → AllPaced start time intervals new
  IsFollowed-AllPaced ieee position lodlist i intervals [] new f p = rw f p
  IsFollowed-AllPaced ieee position lodlist i intervals (level ∷ levels) [] f p = absurd f
  IsFollowed-AllPaced ieee position lodlist i [] (level ∷ levels) (level' ∷ levels') f p = absurd p
  IsFollowed-AllPaced ieee position lodlist i (k ∷ intervals) (level ∷ levels) (level' ∷ levels')
        (inl (_, e, f)) p =
      rw (e, f) p
  IsFollowed-AllPaced ieee position lodlist i (k ∷ intervals) (level ∷ levels) (level' ∷ levels')
        (inr (m, f)) (p, q) =
      (
        IsMoved-IsPaced ieee position lodlist i k level level' m p,
        IsFollowed-AllPaced ieee position lodlist (i + 1) intervals levels levels' f q,
      )

  -- A tracker in order whose levels keep their pace.
  abbrev IsRunning : {N : Type 0} → Text → Tracker N → Type 0
  IsRunning user t = IsReady user t × AllPaced start time six_intervals t.intervals

  module _ {d : Double} (ieee : IsIeee d) (user : Text) where
    update-IsRunning :
        (position velocity : Vector3 d.Num) (now : ℕ) (delta : d.Num) (t : Tracker d.Num)
        (w : World d.Num)
        → now ≤ time
        → IsRunning user t
        → Gives (λ r. IsRunning user r.0) (update d accepts now position velocity delta t w)
    update-IsRunning position velocity now delta t w b (h, p) = elim (Bool-cases w.1.is_open) [
      | inl e ↦
          let all : AllScales t.intervals =
            logscales-AllScales t.intervals (rw h.scales six_scales_all) in
          Gives-map (λ r. IsUpdated ieee position now delta t r.0) (λ r. IsRunning user r.0)
            (update d accepts now position velocity delta t w)
            (update-IsUpdated ieee position now velocity delta t w e all)
            (λ r g. (
              IsUpdated-IsReady ieee user position now delta t r.0 h g,
              rw g.levels (
                  AllPaced-advance now six_intervals g.followed b (
                    IsFollowed-AllPaced ieee position g.lodlist 0 six_intervals t.intervals
                      g.followed g.follows p)),
            ))
      | inr e ↦ rw (update_closed d accepts now position velocity delta t w e) (h, p)
    ]

    handle_message-AllPaced :
        (built : Option (Vector3 d.Num)) (m : Option (Value d.Num)) (t : Tracker d.Num)
        → AllPaced start time six_intervals t.intervals
        → AllPaced start time six_intervals (handle_message d built m t).intervals
    unfolding handle_message
    handle_message-AllPaced built none t p = p
    handle_message-AllPaced built (some v) t p = rw (handle_incoming-IsKept d built v t).levels p

    session_from-IsRunning :
        (built : Option (Vector3 d.Num)) (steps : List (Step d.Num)) (page : Page d)
        → AllBefore time steps
        → IsRunning user page.0
        → Gives (λ r. IsRunning user r.0) (session d built steps page)
    unfolding session step
    session_from-IsRunning built [] page b h = h
    session_from-IsRunning built (socket_event e ∷ steps) (t, w) b (h, p) =
        session_from-IsRunning built steps _ b (
          handle_message-IsReady ieee user built (passed e) t h,
          handle_message-AllPaced built (passed e) t p,
        )
    session_from-IsRunning built (frame now position velocity delta ∷ steps) (t, w) (b, bs) h =
        Gives-bind (λ r. IsRunning user r.0) (λ r. IsRunning user r.0) (session d built steps)
          (update d accepts now position velocity delta t w)
          (update-IsRunning position velocity now delta t w b h)
          (λ next g. session_from-IsRunning built steps next bs g)

new_tracker-AllPaced :
    (N : Type 0) (user : Text) (start time : ℕ)
    → start ≤ time
    → AllPaced start time six_intervals (new_tracker {N = N} user start).intervals
unfolding new_tracker
new_tracker-AllPaced N user start time h =
    let first : (i : ℕ) (level : Level)
        → level.interval ≡ i
        → level.next_send ≡ start
        → IsPaced start time i level =
      λ i level e g. record {
        fixed = e;
        count = 0;
        schedule = omega (arith, g);
        bound = omega (arith, g);
      } in
    (
      first _ _ refl refl,
      (
        first _ _ refl refl,
        (
          first _ _ refl refl,
          (first _ _ refl refl, (first _ _ refl refl, (first _ _ refl refl, tt))),
        ),
      ),
    )

-- In any session whose clock does not pass a time, and which does not start after it, each of the
-- six levels keeps its interval, 200 ms for the smallest and doubled from level to level; its next
-- time is the start and a whole number of its intervals, and at most one interval after the time,
-- whatever messages arrive and however often `update` is called.
pub session-AllPaced :
    {d : Double} (ieee : IsIeee d) (built : Option (Vector3 d.Num)) (user : Text) (start time : ℕ)
    (w : World d.Num) (steps : List (Step d.Num))
    → start ≤ time
    → AllBefore time steps
    → Gives
        (λ r. AllPaced start time six_intervals r.0.intervals)
        (session d built steps (new_tracker user start, w))
session-AllPaced {d} ieee built user start time w steps h b =
    Gives-map (λ r. IsRunning start time user r.0)
      (λ r. AllPaced start time six_intervals r.0.intervals)
      (session d built steps (new_tracker user start, w))
      (session_from-IsRunning start time ieee user built steps (new_tracker user start, w) b
        (new_tracker-IsReady user start, new_tracker-AllPaced d.Num user start time h))
      (λ r g. g.1)
