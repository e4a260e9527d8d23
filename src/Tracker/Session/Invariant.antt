-- ===== src/Tracker/Session/Invariant.antt =====
-- What holds at the start of a session and is kept by its steps holds at the end.
use general_worldwide_execut.Prelude.{
  ℕ, ◌≡◌, refl, sym, inl, inr, Bool-cases, true, List, [], map, Option, none, some,
}
use general_worldwide_execut.Prelude.Text.{Text}
use general_worldwide_execut.Gwems.Client.{accepts}
use general_worldwide_execut.Gwems.Messages.{World}
use general_worldwide_execut.Js.Double.{Double, IsIeee}
use general_worldwide_execut.Js.Json.{Value}
use general_worldwide_execut.QuadSpaces.Surrounding.Loop.{Gives, Gives-both, Gives-map, Gives-some}
use general_worldwide_execut.QuadSpaces.Termination.{decompose_total}
use general_worldwide_execut.QuadSpaces.{decompose}
use general_worldwide_execut.Three.{Vector3}
use general_worldwide_execut.Tracker.{Tracker, Level, new_tracker, min_level}
use general_worldwide_execut.Tracker.Session.Keeps.{session-keeps}
use general_worldwide_execut.Tracker.Session.Kept.{handle_incoming-IsKept}
use general_worldwide_execut.Tracker.Session.Total.{
  IsReady, logscales, logscales-AllScales, six_scales, six_scales_all, update-IsReady,
  handle_message-IsReady, new_tracker-IsReady,
}
use general_worldwide_execut.Tracker.Session.{Step, Page, handle_message, passed, session}
use general_worldwide_execut.Tracker.Update.Follow.{AllScales, update_closed}
use general_worldwide_execut.Tracker.Update.Schedule.{advance, publish_due_lem}
use general_worldwide_execut.Tracker.Update.Sends.{update-update_open}
use general_worldwide_execut.Tracker.Update.{Moved, refresh, update, update_open}
use mathlib.Core.Path.{subst}

pub handle_message-intervals :
    (d : Double) (built : Option (Vector3 d.Num)) (m : Option (Value d.Num)) (t : Tracker d.Num)
    → (handle_message d built m t).intervals ≡ t.intervals
unfolding handle_message
handle_message-intervals d built none t = refl
handle_message-intervals d built (some v) t = (handle_incoming-IsKept d built v t).levels

module _ {d : Double} (ieee : IsIeee d) (p v : Vector3 d.Num) (now : ℕ) (delta : d.Num) where
  pub update_open-intervals :
      (t : Tracker d.Num) (w : World d.Num) (lodlist : List Text) (moved : Moved)
      → decompose d p min_level ≡ some lodlist
      → refresh d p lodlist t.intervals 0 [] [] ≡ some moved
      → Gives
          (λ r. r.0.intervals ≡ map (advance now) moved.0)
          (update_open d accepts now p v delta t w)
  unfolding update_open
  update_open-intervals t w lodlist moved el em =
      rw (el, em, update_open) (publish_due_lem d p v t.user_hash now moved.0 _ _).0

  pub update-intervals :
      (t : Tracker d.Num) (w : World d.Num) (lodlist : List Text) (moved : Moved)
      → w.1.is_open ≡ true
      → decompose d p min_level ≡ some lodlist
      → refresh d p lodlist t.intervals 0 [] [] ≡ some moved
      → Gives (λ r. r.0.intervals ≡ map (advance now) moved.0) (update d accepts now p v delta t w)
  update-intervals t w lodlist moved is_on el em =
      subst (Gives (λ r. r.0.intervals ≡ map (advance now) moved.0))
        (sym (update-update_open ieee p v now delta t w is_on))
        (update_open-intervals t w lodlist moved el em)

  -- What the move of the levels establishes, and publishing leaves, holds after an update.
  pub update-levels :
      (Q : List Level → Type 0) (t : Tracker d.Num) (w : World d.Num) (lodlist : List Text)
      → w.1.is_open ≡ true
      → AllScales t.intervals
      → decompose d p min_level ≡ some lodlist
      → Gives (λ m. Q m.0) (refresh d p lodlist t.intervals 0 [] [])
      → ((levels : List Level) → Q levels → Q (map (advance now) levels))
      → Gives (λ r. Q r.0.intervals) (update d accepts now p v delta t w)
  update-levels Q t w lodlist e all el h keep =
      let (moved, em, q) = Gives-some (λ m. Q m.0) (refresh d p lodlist t.intervals 0 [] []) h in
      subst (Gives (λ r. Q r.0.intervals)) (sym (update-update_open ieee p v now delta t w e)) (
        Gives-map (λ r. r.0.intervals ≡ map (advance now) moved.0) (λ r. Q r.0.intervals)
          (update_open d accepts now p v delta t w) (update_open-intervals t w lodlist moved el em)
          λ r same. subst Q (sym same) (keep moved.0 q))

-- The same for what a session keeps of the levels.
module _ {d : Double} (ieee : IsIeee d) (user : Text) (Q : List Level → Type 0) where
  abbrev pub IsKeeping : Page d → Type 0
  IsKeeping page = IsReady user page.0 × Q page.0.intervals

  pub session-levels :
      ((p : Vector3 d.Num) (lodlist : List Text) (levels : List Level)
        → decompose d p min_level ≡ some lodlist
        → logscales levels ≡ six_scales
        → Q levels
        → Gives (λ m. Q m.0) (refresh d p lodlist levels 0 [] []))
      → ((now : ℕ) (levels : List Level) → Q levels → Q (map (advance now) levels))
      → (built : Option (Vector3 d.Num)) (start : ℕ) (w : World d.Num) (steps : List (Step d.Num))
      → Q (new_tracker {N = d.Num} user start).intervals
      → Gives IsKeeping (session d built steps (new_tracker user start, w))
  session-levels moves keep built start w steps q =
      session-keeps d built IsKeeping
        (λ e t u (h, k). (
          handle_message-IsReady ieee user built (passed e) t h,
          subst Q (sym (handle_message-intervals d built (passed e) t)) k,
        ))
        (λ now p v delta t u (h, k). elim (Bool-cases u.1.is_open) [
          | inl e ↦
              let (lodlist, el, _, _) = decompose_total ieee p min_level in
              let all : AllScales t.intervals =
                logscales-AllScales t.intervals (rw h.scales six_scales_all) in
              Gives-both (λ r. IsReady user r.0) (λ r. Q r.0.intervals)
                (update d accepts now p v delta t u) (update-IsReady ieee user p v now delta t u h)
                (update-levels ieee p v now delta Q t u lodlist e all el
                  (moves p lodlist t.intervals el h.scales k) (keep now))
          | inr e ↦ rw (update_closed d accepts now p v delta t u e) (h, k)
        ])
        steps (new_tracker user start, w) (new_tracker-IsReady user start, q)
