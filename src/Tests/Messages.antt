-- ===== src/Tests/Messages.antt =====
-- The sets and the messages of WebContent/js/GWEMS.js at concrete inputs.
use general_worldwide_execut.Prelude.{
  ◌≡◌, refl, List, [], ◌∷◌, ◌++◌, map, true, false, none, some, if◌then◌else◌,
}
use general_worldwide_execut.Prelude.Text.{Text, codes}
use general_worldwide_execut.Gwems.Changes.{
  serve, commands, command_text, IsFilled, subscribe_changes_lem,
}
use general_worldwide_execut.Gwems.Client.{
  Client, new_client, start, Event, opened, closed, received, ticked, accepts, throws, handle, run,
  get_session_id, on_message, on_value, is_ack, equals_ack, send,
}
use general_worldwide_execut.Gwems.Client.Runs.{
  run-session_id, run_trace, connections, beats, deliveries,
}
use general_worldwide_execut.Gwems.Messages.{World, templates, subscribe_changes}
use general_worldwide_execut.Gwems.Sets.{Object, added_to_set, truthy, copy, clear, collect}
use general_worldwide_execut.Gwems.Sets.Laws.{has, IsObject, get-added_to_set}
use general_worldwide_execut.Js.Fixed.{fixed}
use general_worldwide_execut.Js.Json.{Value, text, object, end, member, null, member_of}
use general_worldwide_execut.Js.Object.{get, put}

abbrev pub north : Object
north = (codes "a", codes "a") ∷ (codes "b", codes "b") ∷ []

abbrev pub south : Object
south = (codes "b", codes "b") ∷ (codes "c", codes "c") ∷ (codes "d", []) ∷ []

abbrev pub west : Object
west = (codes "b", codes "b") ∷ (codes "c", codes "c") ∷ []

-- A client whose socket is open.
abbrev pub client : Client fixed.Num
client = record (new_client (codes "h") (codes "8081") (codes "/s")) { is_open = true }

abbrev pub world : World fixed.Num
world = (templates, client)

abbrev ack : Value fixed.Num
ack = object (
    member (codes "@") (text (codes "gwems.Ack"))
      (member (codes "session") (text (codes "s17")) end))

abbrev events : List (Event fixed.Num)
events =
    opened
    ∷ received (some ack)
    ∷ ticked accepts
    ∷ received none
    ∷ received (some null)
    ∷ ticked throws
    ∷ closed
    ∷ []

added_to_set_runs : added_to_set north south ≡ (codes "c", codes "c") ∷ []
unfolding added_to_set copy clear collect truthy put
added_to_set_runs = refl

south-IsObject : IsObject south
unfolding has
south-IsObject = (refl, (refl, (refl, tt)))

north-IsObject : IsObject north
unfolding has
north-IsObject = (refl, (refl, tt))

west-IsObject : IsObject west
unfolding has
west-IsObject = (refl, (refl, tt))

north-IsFilled : IsFilled north
unfolding truthy
north-IsFilled = (refl, (refl, tt))

west-IsFilled : IsFilled west
unfolding truthy
west-IsFilled = (refl, (refl, tt))

-- The session of the acknowledgement ends on the socket, not on the client.
acknowledged : (run events (start false client)).socket_session_id ≡ some (text (codes "s17"))
unfolding run handle on_message on_value is_ack equals_ack send start member_of
acknowledged = refl

get-added_to_set_example : get (added_to_set north south) (codes "c") ≡ (
    if has north (codes "c")
    then none
    else if truthy (get south (codes "c"))
    then some (codes "c")
    else none)
get-added_to_set_example = get-added_to_set north south (codes "c") south-IsObject

subscribe_changes_lem_example :
    ((subscribe_changes fixed.to_text accepts north west world).0 ≡ west)
    × ((subscribe_changes fixed.to_text accepts north west world).1.1.sent
        ≡ client.sent ++ map (command_text fixed.to_text) (commands north west))
    × ((k : Text) → serve (commands north west) (has north) k ≡ has west k)
subscribe_changes_lem_example =
    subscribe_changes_lem fixed.to_text north west world north-IsObject north-IsFilled west-IsObject
      west-IsFilled

run-session_id_example : get_session_id (run events (start true client)) ≡ some (codes "none")
run-session_id_example = run-session_id true events client

run_trace_example :
    ((run events client).is_open ≡ connections events client.is_open)
    × ((run events client).sent ≡ client.sent ++ beats events)
    × ((run events client).handled ≡ client.handled ++ deliveries events)
run_trace_example = run_trace events client
