-- ===== src/Gwems/Client.antt =====
-- `GWEMS.WebSocketClient`: the client, the handlers that `start` installs, and `send`.
pub mod Runs
use general_worldwide_execut.Prelude.{
  Bool, true, false, List, [], ◌∷◌, ◌++◌, Option, none, some, if◌then◌else◌,
}
use general_worldwide_execut.Prelude.Text.{Text, codes, eqb_text}
use general_worldwide_execut.Js.Json.{
  Value, null, bool, num, text, array, object, Members, end, member_of, nil, cons,
}

-- A client and the socket that it made. `sent` holds what reached the socket, oldest first, and
-- `handled` what was passed to `handleMessage`. `this.sessionId` of the message handler is a
-- property of the socket, since the handler is a method of the socket.
pub record Client (N : Type 0) : Type 0 where
  pub host : Text
  pub port : Text
  pub uri : Text
  pub url : Option Text
  pub is_open : Bool
  pub session_id : Option Text
  pub socket_session_id : Option (Value N)
  pub sent : List Text
  pub handled : List (Value N)
  pub close_requested : Bool
  pub keep_alive : Bool

-- `new GWEMS.WebSocketClient(host, port, uri)`
unfoldable pub new_client : {N : Type 0} → Text → Text → Text → Client N
new_client host port uri = record {
  host = host;
  port = port;
  uri = uri;
  url = none;
  is_open = false;
  session_id = none;
  socket_session_id = none;
  sent = [];
  handled = [];
  close_requested = false;
  keep_alive = false;
}

-- `start`, on a page that was loaded by https or not.
unfoldable pub start : {N : Type 0} → Bool → Client N → Client N
start secure c =
    let scheme = if secure then codes "wss://" else codes "ws://" in
    record c {
      url = some (scheme ++ (c.host ++ b':' ∷ (c.port ++ c.uri)));
      session_id = some (codes "none");
      keep_alive = true;
    }

-- The socket takes a text, or throws because it is still connecting.
pub data Accepts : Type 0 where
  accepts throws : Accepts

-- `send`: a text that is empty is dropped, and what the socket throws is caught.
unfoldable pub send : {N : Type 0} → Accepts → Text → Client N → Client N
send a [] c = c
send accepts (u ∷ s) c = record c { sent = c.sent ++ (u ∷ s) ∷ [] }
send throws (u ∷ s) c = c

-- What the browser calls.
pub data Event (N : Type 0) : Type 0 where
  opened : Event N
  closed : Event N
  failed : Event N
  -- a message with what `JSON.parse` makes of it; `none` means that it throws
  received : Option (Value N) → Event N
  -- a tick of the keep-alive timer
  ticked : Accepts → Event N

-- `v == "gwems.Ack"`. An array of one value is compared as that value; a longer one has a comma.
unfoldable pub equals_ack : {N : Type 0} → Value N → Bool
equals_ack null = false
equals_ack (bool b) = false
equals_ack (num n) = false
equals_ack (text s) = eqb_text s (codes "gwems.Ack")
equals_ack (array nil) = false
equals_ack (array (cons v nil)) = equals_ack v
equals_ack (array (cons v (cons w l))) = false
equals_ack (object m) = false

-- `obj['@'] == "gwems.Ack"`
unfoldable pub is_ack : {N : Type 0} → Value N → Bool
unfolding equals_ack
is_ack null = false
is_ack (bool b) = false
is_ack (num n) = false
is_ack (text s) = false
is_ack (array l) = false
is_ack (object m) = elim (member_of m (codes "@")) [ none ↦ false | some v ↦ equals_ack v ]

abbrev pub session_of : {N : Type 0} → Value N → Option (Value N)
session_of (object m) = member_of m (codes "session")
session_of null = none
session_of (bool b) = none
session_of (num n) = none
session_of (text s) = none
session_of (array l) = none

-- `socket.onmessage` on a parsed message. Reading a property of `null` throws, and the message is
-- not handled.
unfoldable pub on_value : {N : Type 0} → Value N → Client N → Client N
unfolding is_ack
on_value null c = c
on_value v c = record c {
  socket_session_id = if is_ack v then session_of v else c.socket_session_id;
  handled = c.handled ++ v ∷ [];
}

-- A text that does not parse is handled as the empty object.
unfoldable pub on_message : {N : Type 0} → Option (Value N) → Client N → Client N
unfolding on_value
on_message none c = on_value (object end) c
on_message (some v) c = on_value v c

-- The keep-alive message.
abbrev pub live : Text
live = codes "{\"@\":\"d.Live\"}"

unfoldable pub handle : {N : Type 0} → Event N → Client N → Client N
unfolding on_message send
handle opened c = record c { is_open = true }
handle closed c = record c { is_open = false }
handle failed c = record c { close_requested = true }
handle (received m) c = on_message m c
handle (ticked a) c = send a live c

unfoldable pub run : {N : Type 0} → List (Event N) → Client N → Client N
unfolding handle
run [] c = c
run (e ∷ events) c = run events (handle e c)

-- `getSessionId`
unfoldable pub get_session_id : {N : Type 0} → Client N → Option Text
get_session_id c = c.session_id
