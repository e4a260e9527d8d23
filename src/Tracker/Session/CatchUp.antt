-- ===== src/Tracker/Session/CatchUp.antt =====
-- The levels catch up with the clock.
use general_worldwide_execut.Prelude.{
  ℕ, ◌+◌, ◌*◌, ◌≤◌, ◌<◌, ◌≡◌, ◌⊎◌, refl, ◌∙◌, inl, inr, Bool-cases, true, List, [], ◌∷◌, map, arith,
  ltb, length, Option,
}
use general_worldwide_execut.Prelude.Text.{Text}
use general_worldwide_execut.Gwems.Client.{accepts}
use general_worldwide_execut.Gwems.Messages.{World}
use general_worldwide_execut.Js.Double.{Double, IsIeee}
use general_worldwide_execut.QuadSpaces.Surrounding.Loop.{Gives, Gives-bind, Gives-both, Gives-map}
use general_worldwide_execut.Three.{Vector3}
use general_worldwide_execut.Tracker.{Level, new_tracker}
use general_worldwide_execut.Tracker.Session.Open.{update-is_open}
use general_worldwide_execut.Tracker.Session.{Step, socket_event, frame, Page, session, step}
use general_worldwide_execut.Tracker.Session.Total.{
  IsReady, new_tracker-IsReady, logscales-AllScales, six_scales_all, IsUpdated-IsReady,
}
use general_worldwide_execut.Tracker.Update.{update}
use general_worldwide_execut.Tracker.Update.Follow.{
  AllScales, IsFollowed, IsUpdated, update-IsUpdated,
}
use general_worldwide_execut.Tracker.Update.Schedule.{advance}

-- A level that has moved on by so much from the start, or has reached the time.
pub record IsLate (start time passed : ℕ) (level : Level) : Type 0 where
  pub interval : 200 ≤ level.interval
  pub reached : (time ≤ level.next_send) ⊎ (start + passed ≤ level.next_send)

abbrev AllLate : ℕ → ℕ → ℕ → List Level → Type 0
AllLate start time passed [] = Unit
AllLate start time passed (level ∷ levels) =
    IsLate start time passed level × AllLate start time passed levels

-- All levels have reached the time.
abbrev pub AllReached : ℕ → List Level → Type 0
AllReached time [] = Unit
AllReached time (level ∷ levels) = (time ≤ level.next_send) × AllReached time levels

-- Updates, all of them after the time.
abbrev pub AllUpdates : {N : Type 0} → ℕ → List (Step N) → Type 0
AllUpdates time [] = Unit
AllUpdates time (socket_event e ∷ steps) = ⊥
AllUpdates time (frame now position velocity delta ∷ steps) = (time < now) × AllUpdates time steps

module _ (start time : ℕ) where
  advance-IsLate :
      (now passed : ℕ) (level : Level)
      → time < now
      → IsLate start time passed level
      → IsLate start time (passed + 200) (advance now level)
  advance-IsLate now passed level h p = elim (Bool-cases (ltb level.next_send now)) [
    | inl e ↦ rw e (record {
      interval = p.interval;
      reached = elim p.reached [
        | inl r ↦ inl (omega arith)
        | inr r ↦ inr (omega (arith, p.interval))
      ];
    })
    | inr e ↦ rw e (record { interval = p.interval; reached = inl (ground arith) })
  ]

  AllLate-advance :
      (now passed : ℕ) (levels : List Level)
      → time < now
      → AllLate start time passed levels
      → AllLate start time (passed + 200) (map (advance now) levels)
  AllLate-advance now passed [] h p = tt
  AllLate-advance now passed (level ∷ levels) h (p, q) =
      (advance-IsLate now passed level h p, AllLate-advance now passed levels h q)

  AllLate-AllReached :
      (passed : ℕ) (levels : List Level)
      → time ≤ start + passed
      → AllLate start time passed levels
      → AllReached time levels
  AllLate-AllReached passed [] h p = tt
  AllLate-AllReached passed (level ∷ levels) h (p, q) =
      (elim p.reached [ inl r ↦ r | inr r ↦ omega arith ], AllLate-AllReached passed levels h q)

  IsFollowed-AllLate :
      {d : Double} (ieee : IsIeee d) (position : Vector3 d.Num) (lodlist : List Text) (i passed : ℕ)
      (old new : List Level)
      → IsFollowed ieee position lodlist i old new
      → AllLate start time passed old
      → AllLate start time passed new
  IsFollowed-AllLate ieee position lodlist i passed [] new f p = rw f p
  IsFollowed-AllLate ieee position lodlist i passed (level ∷ levels) [] f p = absurd f
  IsFollowed-AllLate ieee position lodlist i passed (level ∷ levels) (level' ∷ levels')
        (inl (_, e, f)) p =
      rw (e, f) p
  IsFollowed-AllLate ieee position lodlist i passed (level ∷ levels) (level' ∷ levels') (inr (m, f))
        (p, q) =
      (
        record { interval = rw m.interval p.interval; reached = rw m.next_send p.reached },
        IsFollowed-AllLate ieee position lodlist (i + 1) passed levels levels' f q,
      )

module _ (start time : ℕ) {d : Double} (ieee : IsIeee d) (user : Text) where
  -- A page whose connection is open, and whose levels have moved on by so much.
  abbrev IsOnTheWay : ℕ → Page d → Type 0
  IsOnTheWay passed (t, w) =
      IsReady user t × (w.1.is_open ≡ true) × AllLate start time passed t.intervals

  update-IsOnTheWay :
      (position velocity : Vector3 d.Num) (now passed : ℕ) (delta : d.Num) (page : Page d)
      → time < now
      → IsOnTheWay passed page
      → Gives
          (IsOnTheWay (passed + 200))
          (update d accepts now position velocity delta page.0 page.1)
  update-IsOnTheWay position velocity now passed delta (t, w) b (h, is_on, p) =
      let all : AllScales t.intervals =
        logscales-AllScales t.intervals (rw h.scales six_scales_all) in
      Gives-map (λ r. IsUpdated ieee position now delta t r.0 × (r.1.1.is_open ≡ w.1.is_open))
        (IsOnTheWay (passed + 200)) (update d accepts now position velocity delta t w)
        (Gives-both _ _ (update d accepts now position velocity delta t w)
          (update-IsUpdated ieee position now velocity delta t w is_on all)
          (update-is_open ieee position velocity now delta t w is_on all))
        (λ (u, v) (g, same). (
          IsUpdated-IsReady ieee user position now delta t u h g,
          same ∙ is_on,
          rw g.levels (
              AllLate-advance start time now passed g.followed b (
                IsFollowed-AllLate start time ieee position g.lodlist 0 passed t.intervals
                  g.followed g.follows p)),
        ))

  session_from-AllReached :
      (built : Option (Vector3 d.Num)) (passed : ℕ) (steps : List (Step d.Num)) (page : Page d)
      → AllUpdates time steps
      → time ≤ start + (passed + 200 * length steps)
      → IsOnTheWay passed page
      → Gives (λ r. AllReached time r.0.intervals) (session d built steps page)
  unfolding session step
  session_from-AllReached built passed [] (t, w) b e (h, is_on, p) =
      AllLate-AllReached start time passed t.intervals (omega arith) p
  session_from-AllReached built passed (socket_event e ∷ steps) page b f h = absurd b
  session_from-AllReached built passed (frame now position velocity delta ∷ steps) (t, w) (b, bs) e
        h =
      Gives-bind (IsOnTheWay (passed + 200)) (λ r. AllReached time r.0.intervals)
        (session d built steps) (update d accepts now position velocity delta t w)
        (update-IsOnTheWay position velocity now passed delta (t, w) b h)
        (λ next g. session_from-AllReached built (passed + 200) steps next bs (omega arith) g)

new_tracker-AllLate :
    (N : Type 0) (user : Text) (start time : ℕ)
    → AllLate start time 0 (new_tracker {N = N} user start).intervals
unfolding new_tracker
new_tracker-AllLate N user start time =
    let late : (level : Level)
        → 200 ≤ level.interval
        → level.next_send ≡ start
        → IsLate start time 0 level =
      λ level e g. record { interval = e; reached = inr (omega (arith, g)) } in
    (
      late _ (omega arith) refl,
      (
        late _ (omega arith) refl,
        (
          late _ (omega arith) refl,
          (late _ (omega arith) refl, (late _ (omega arith) refl, (late _ (omega arith) refl, tt))),
        ),
      ),
    )

-- On an open connection, after enough updates that all come after a time, 200 ms for each of them
-- reaching from the start to the time, every level's next time has reached that time: a level that
-- is behind catches up, wherever the user is at each update.
pub session-AllReached :
    {d : Double} (ieee : IsIeee d) (built : Option (Vector3 d.Num)) (user : Text) (start time : ℕ)
    (w : World d.Num) (steps : List (Step d.Num))
    → w.1.is_open ≡ true
    → AllUpdates time steps
    → time ≤ start + 200 * length steps
    → Gives (λ r. AllReached time r.0.intervals) (session d built steps (new_tracker user start, w))
session-AllReached {d} ieee built user start time w steps is_on b e =
    session_from-AllReached start time ieee user built 0 steps (new_tracker user start, w) b
      (omega arith)
      (new_tracker-IsReady user start, is_on, new_tracker-AllLate d.Num user start time)
