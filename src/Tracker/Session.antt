-- ===== src/Tracker/Session.antt =====
-- The tracker on its socket: `handleMessage` of the client is the `handleIncoming` of the tracker,
-- and the page calls `update` between the events of the socket.
pub mod Around
pub mod CatchUp
mod Counts
pub mod Deaf
pub mod Exchange
pub mod Delivery
pub mod Hearing
mod Invariant
mod Keeps
pub mod Kept
pub mod Open
pub mod Metered
pub mod Pace
mod Settled
mod Spoken
pub mod Subscriptions
pub mod Total
pub mod Tuned
use general_worldwide_execut.Prelude.{ℕ, List, [], ◌∷◌, Option, none, some}
use general_worldwide_execut.Gwems.Client.{
  Accepts, accepts, Client, Event, opened, closed, failed, received, ticked, handle,
}
use general_worldwide_execut.Gwems.Messages.{World}
use general_worldwide_execut.Js.Double.{Double}
use general_worldwide_execut.Js.Json.{Value, null, object, end}
use general_worldwide_execut.QuadSpaces.Surrounding.{◌>>=◌}
use general_worldwide_execut.Three.{Vector3}
use general_worldwide_execut.Tracker.{Tracker}
use general_worldwide_execut.Tracker.Incoming.{handle_incoming}
use general_worldwide_execut.Tracker.Update.{update}

-- What `socket.onmessage` passes to `handleMessage`; `none` means that it does not call it.
unfoldable pub passed : {N : Type 0} → Event N → Option (Value N)
passed (received none) = some (object end)
passed (received (some null)) = none
passed (received (some v)) = some v
passed opened = none
passed closed = none
passed failed = none
passed (ticked a) = none

-- What happens to the tracker: an event of its socket, or a call of `update` at a time, with the
-- position, the velocity and the seconds.
pub data Step (N : Type 0) : Type 0 where
  socket_event : Event N → Step N
  frame : ℕ → Vector3 N → Vector3 N → N → Step N

module _ (d : Double) where
  open d use {Num}

  abbrev pub Page : Type 0
  Page = Tracker Num × World Num

  -- `this.tracker.handleIncoming(data)`, of what is passed.
  unfoldable pub handle_message :
      Option (Vector3 Num) → Option (Value Num) → Tracker Num → Tracker Num
  unfolding handle_incoming
  handle_message built none t = t
  handle_message built (some v) t = (handle_incoming d built v t).0

  unfoldable pub step : Option (Vector3 Num) → Step Num → Page → Option Page
  unfolding passed handle handle_message update
  step built (socket_event e) (t, (templates, c)) =
      some (handle_message built (passed e) t, (templates, handle e c))
  step built (frame time position velocity delta) (t, w) =
      update d accepts time position velocity delta t w

  unfoldable pub session : Option (Vector3 Num) → List (Step Num) → Page → Option Page
  unfolding step
  session built [] page = some page
  session built (s ∷ steps) page = do next ← step built s page; session built steps next
