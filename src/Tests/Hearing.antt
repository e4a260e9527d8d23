-- ===== src/Tests/Hearing.antt =====
-- Sessions of the tracker at concrete inputs: what the server knows and who hears whom.
use general_worldwide_execut.Prelude.{sym, ◌≡◌, refl, List, [], ◌∷◌, true, false, some}
use general_worldwide_execut.Prelude.Int.{pos, negsuc, ◌+ℤ◌, ◌-ℤ◌, scale}
use general_worldwide_execut.Prelude.Text.{Text, codes}
use general_worldwide_execut.Gwems.Client.{
  accepts, new_client, opened, received, handle, on_message, on_value, is_ack, equals_ack,
}
use general_worldwide_execut.Gwems.Messages.{World, templates}
use general_worldwide_execut.Js.Fixed.{fixed, mul_fixed, trunc}
use general_worldwide_execut.Js.Fixed.Laws.{fixed-IsIeee}
use general_worldwide_execut.Js.Json.{member_of}
use general_worldwide_execut.Js.Numeral.{print_int, parse_int}
use general_worldwide_execut.Js.Object.{get}
use general_worldwide_execut.Js.Transfer.{carried, is_finite}
use general_worldwide_execut.Js.Word
use general_worldwide_execut.QuadSpaces.Axis.{digit, next}
use general_worldwide_execut.QuadSpaces.Surrounding.Loop.{Gives}
use general_worldwide_execut.QuadSpaces.{decompose, list_to_string, space_name}
use general_worldwide_execut.Tests.Messages.{client, world}
use general_worldwide_execut.Tests.Motion.{number, place, velocity, tracker, payload}
use general_worldwide_execut.Tests.Page.{two_updates}
use general_worldwide_execut.Three.{Vector3}
use general_worldwide_execut.Tracker.Incoming.Laws.{IsFrame}
use general_worldwide_execut.Tracker.Incoming.RoundTrip.{arrived, handle_incoming-make_message}
use general_worldwide_execut.Tracker.Incoming.{handle_incoming}
use general_worldwide_execut.Tracker.Session.Delivery.{
  IsCarriedVector, IsDue, IsDelivered, session-delivers,
}
use general_worldwide_execut.Tracker.Session.Hearing.{session-IsSettledOn}
use general_worldwide_execut.Tracker.Session.Around.{AllAround}
use general_worldwide_execut.Tracker.Session.Deaf.{larger_levels, session-larger_levels}
use general_worldwide_execut.Tracker.Update.Split.{subscribes}
use general_worldwide_execut.Tracker.Session.Kept.{handle_incoming-IsKept}
use general_worldwide_execut.Tracker.Session.Subscriptions.{IsServed, session-IsServed}
use general_worldwide_execut.Tracker.Session.Tuned.{AllTuned}
use general_worldwide_execut.Tracker.Session.{
  Step, Page, socket_event, session, passed, handle_message,
}
use general_worldwide_execut.Tracker.Update.{make_message, update}
use general_worldwide_execut.Tracker.{min_level, new_tracker}
use mathlib.Core.Path.{subst}

session-IsServed_example :
    Gives
      (λ r. IsServed fixed client.sent r.0.intervals r.1.1.sent)
      (session fixed (some velocity) two_updates (new_tracker (codes "me") 1000, world))
session-IsServed_example =
    session-IsServed fixed-IsIeee (some velocity) (codes "me") 1000 world two_updates

-- A page whose socket is not open yet.
abbrev before : World fixed.Num
before = (templates, new_client (codes "h") (codes "8081") (codes "/s"))

-- The socket opens, and somebody is there.
abbrev steps : List (Step fixed.Num)
steps = socket_event opened ∷ socket_event (received (some payload)) ∷ []

abbrev mine : Page fixed
mine = (
  handle_message fixed (some velocity) (some payload) (new_tracker (codes "me") 1000),
  (templates, handle (received (some payload)) (handle opened before.1)),
)

abbrev yours : Page fixed
yours = (new_tracker (codes "you") 2000, (templates, handle opened before.1))

mine_runs : session fixed (some velocity) steps (new_tracker (codes "me") 1000, before) ≡ some mine
unfolding session handle_message passed
mine_runs = refl

yours_runs :
    session fixed (some place) (socket_event opened ∷ []) (new_tracker (codes "you") 2000, before)
    ≡ some yours
unfolding session handle_message passed
yours_runs = refl

mine_open : mine.1.1.is_open ≡ true
unfolding handle on_message on_value is_ack equals_ack member_of
mine_open = refl

yours_open : yours.1.1.is_open ≡ true
unfolding handle
yours_open = refl

abbrev near_by : Vector3 fixed.Num
near_by = record { x = number (pos 6); y = number (negsuc 6); z = number (pos 100) }

same_cube : decompose fixed place min_level ≡ decompose fixed near_by min_level
unfolding decompose space_name digit next ◌+ℤ◌ ◌-ℤ◌ scale mul_fixed trunc Word.to_int32 Word.and3
    Word.sar2 print_int
same_cube = refl

session-IsSettledOn_example :
    (lodlist : List Text) × (decompose fixed place min_level ≡ some lodlist)
    × Gives
        (λ r. AllTuned lodlist 0 r.0.intervals × AllAround fixed 0 r.0.intervals)
        (update fixed accepts 2500 place velocity (number (pos 1)) mine.0 mine.1)
session-IsSettledOn_example =
    session-IsSettledOn fixed-IsIeee (some velocity) (codes "me") 1000 before steps mine place
      velocity 2500 (number (pos 1)) mine_runs mine_open

abbrev at_four : List Text
at_four = codes "1_-1_1_2" ∷ codes "0_0_-2_4" ∷ codes "0_0_-2_6" ∷ codes "0_0_1_8" ∷ []

near_by-at_four : decompose fixed near_by min_level ≡ some at_four
unfolding decompose space_name digit next ◌+ℤ◌ ◌-ℤ◌ scale mul_fixed trunc Word.to_int32 Word.and3
    Word.sar2 print_int
near_by-at_four = refl

session-larger_levels_example :
    Gives
      (λ r. subscribes (larger_levels r.0.intervals) (list_to_string at_four) ≡ false)
      (session fixed (some velocity) two_updates (new_tracker (codes "me") 1000, world))
session-larger_levels_example =
    session-larger_levels fixed-IsIeee (some velocity) (codes "me") 1000 world two_updates near_by
      at_four near_by-at_four

mine-IsDue : IsDue 2500 mine.0.intervals
unfolding handle_message new_tracker
mine-IsDue =
    let same : mine.0.intervals ≡ (new_tracker {N = fixed.Num} (codes "me") 1000).intervals =
      (handle_incoming-IsKept fixed (some velocity) payload
        (new_tracker (codes "me") 1000)).levels in
    subst (IsDue 2500) (sym same) refl

-- Whole numbers are read back from their digits.
place-carried : IsCarriedVector fixed place
unfolding is_finite print_int parse_int scale trunc ◌-ℤ◌
place-carried = ((refl, refl), (refl, refl), (refl, refl))

velocity-carried : IsCarriedVector fixed velocity
unfolding is_finite print_int parse_int scale trunc ◌-ℤ◌
velocity-carried = ((refl, refl), (refl, refl), (refl, refl))

session-delivers_example :
    Gives
      (λ r.
        Gives
          (λ s. IsDelivered fixed (codes "me") place velocity near_by before.1.sent r s)
          (update fixed accepts 2600 near_by velocity (number (pos 1)) yours.0 yours.1))
      (update fixed accepts 2500 place velocity (number (pos 1)) mine.0 mine.1)
session-delivers_example =
    session-delivers fixed-IsIeee (some velocity) (some place) near_by b'm' (codes "e")
      (codes "you") 1000 2000 before before steps (socket_event opened ∷ []) mine yours place
      velocity near_by velocity 2500 2600 (number (pos 1)) (number (pos 1)) place-carried
      velocity-carried refl mine_runs yours_runs mine_open yours_open same_cube mine-IsDue

handle_incoming-make_message_example :
    let (u, threw) =
      handle_incoming fixed
        (some near_by)
        (carried fixed (make_message fixed place velocity (codes "bob")))
        tracker in
    (threw ≡ false)
    × (get u.avatars (codes "bob")
        ≡ some (record { place = arrived fixed place; velocity = arrived fixed velocity }))
    × IsFrame fixed (codes "bob") tracker u
unfolding new_tracker
handle_incoming-make_message_example =
    handle_incoming-make_message fixed near_by place velocity b'b' (codes "ob") tracker refl
