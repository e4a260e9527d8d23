-- ===== src/Gwems/Serving.antt =====
-- What the texts of a client ask of the server.
use general_worldwide_execut.Prelude.{
  ◌≡◌, refl, ap, sym, ◌∙◌, Bool, false, List, [], ◌∷◌, ◌++◌, map, none, some, append-nil,
}
use general_worldwide_execut.Prelude.Text.{Text}
use general_worldwide_execut.Gwems.Changes.{Command, command_text}
use general_worldwide_execut.Gwems.Client.{
  accepts, throws, Client, Event, opened, closed, failed, received, ticked, handle, live, on_value,
}
use general_worldwide_execut.Gwems.Messages.{templates, publish_object}
use general_worldwide_execut.Js.Json.{Value, null, stringify}

-- What a client tells the server: to join or to leave a channel, to publish a message on a channel,
-- and that it is alive.
pub data Message (N : Type 0) : Type 0 where
  ask : Command → Message N
  tell : Text → Value N → Message N
  beat : Message N

-- The text of a message.
abbrev pub message_text : {N : Type 0} → (N → Text) → Message N → Text
message_text print (ask c) = command_text print c
message_text print (tell channel msg) =
    stringify print
      (publish_object (record templates { publish_channel = channel; publish_msg = msg }))
message_text print beat = live

-- The commands among the messages.
abbrev pub commands_of : {N : Type 0} → List (Message N) → List Command
commands_of [] = []
commands_of (ask c ∷ l) = c ∷ commands_of l
commands_of (tell channel msg ∷ l) = commands_of l
commands_of (beat ∷ l) = commands_of l

-- No channel at all.
abbrev pub nothing : Text → Bool
nothing k = false

pub commands_of-ask : (N : Type 0) (l : List Command) → commands_of {N = N} (map ask l) ≡ l
commands_of-ask N [] = refl
commands_of-ask N (c ∷ l) = ap (λ t. c ∷ t) (commands_of-ask N l)

module _ {N : Type 0} where
  pub commands_of-append :
      (l m : List (Message N)) → commands_of (l ++ m) ≡ commands_of l ++ commands_of m
  commands_of-append [] m = refl
  commands_of-append (ask c ∷ l) m = ap (λ t. c ∷ t) (commands_of-append l m)
  commands_of-append (tell channel msg ∷ l) m = commands_of-append l m
  commands_of-append (beat ∷ l) m = commands_of-append l m

  pub message_text-ask :
      (print : N → Text) (l : List Command)
      → map (message_text print) (map ask l) ≡ map (command_text print) l
  message_text-ask print [] = refl
  message_text-ask print (c ∷ l) = ap (λ t. command_text print c ∷ t) (message_text-ask print l)

  -- What an event makes the client send.
  abbrev pub beats : Event N → List (Message N)
  beats (ticked accepts) = beat ∷ []
  beats _ = []

  pub commands_of-beats : (e : Event N) → commands_of (beats e) ≡ []
  commands_of-beats opened = refl
  commands_of-beats closed = refl
  commands_of-beats failed = refl
  commands_of-beats (received m) = refl
  commands_of-beats (ticked accepts) = refl
  commands_of-beats (ticked throws) = refl

  on_value-sent : (v : Value N) (c : Client N) → (on_value v c).sent ≡ c.sent
  unfolding on_value
  on_value-sent null c = refl
  on_value-sent v c = refl

  pub handle-sent :
      (print : N → Text) (e : Event N) (c : Client N)
      → (handle e c).sent ≡ c.sent ++ map (message_text print) (beats e)
  unfolding handle
  handle-sent print opened c = sym (append-nil c.sent)
  handle-sent print closed c = sym (append-nil c.sent)
  handle-sent print failed c = sym (append-nil c.sent)
  handle-sent print (received none) c = sym (append-nil c.sent)
  handle-sent print (received (some v)) c = on_value-sent v c ∙ sym (append-nil c.sent)
  handle-sent print (ticked accepts) c = refl
  handle-sent print (ticked throws) c = sym (append-nil c.sent)
