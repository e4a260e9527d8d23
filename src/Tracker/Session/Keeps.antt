-- ===== src/Tracker/Session/Keeps.antt =====
-- What the steps of a session keep holds at its end.
use general_worldwide_execut.Prelude.{ℕ, List, [], ◌∷◌, Option}
use general_worldwide_execut.Gwems.Client.{accepts, Event, handle}
use general_worldwide_execut.Gwems.Messages.{World}
use general_worldwide_execut.Js.Double.{Double}
use general_worldwide_execut.QuadSpaces.Surrounding.Loop.{Gives, Gives-bind}
use general_worldwide_execut.Three.{Vector3}
use general_worldwide_execut.Tracker.Session.{
  Step, socket_event, frame, Page, handle_message, passed, step, session,
}
use general_worldwide_execut.Tracker.Update.{update}
use general_worldwide_execut.Tracker.{Tracker}

module _ (d : Double) (built : Option (Vector3 d.Num)) (P : Page d → Type 0) where
  pub session-keeps :
      ((e : Event d.Num) (t : Tracker d.Num) (w : World d.Num)
        → P (t, w)
        → P (handle_message d built (passed e) t, (w.0, handle e w.1)))
      → ((now : ℕ) (p v : Vector3 d.Num) (delta : d.Num) (t : Tracker d.Num) (w : World d.Num)
          → P (t, w)
          → Gives P (update d accepts now p v delta t w))
      → (steps : List (Step d.Num)) (page : Page d) → P page
      → Gives P (session d built steps page)
  unfolding session step
  session-keeps event follow [] page h = h
  session-keeps event follow (socket_event e ∷ steps) (t, w) h =
      session-keeps event follow steps _ (event e t w h)
  session-keeps event follow (frame now p v delta ∷ steps) (t, w) h =
      Gives-bind P P (session d built steps) (update d accepts now p v delta t w)
        (follow now p v delta t w h) (session-keeps event follow steps)
