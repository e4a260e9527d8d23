-- ===== src/Gwems/Client/Runs.antt =====
-- What holds after any run of events.
use general_worldwide_execut.Prelude.{
  Bool, true, false, List, [], ◌∷◌, ◌++◌, none, some, ◌≡◌, refl, ◌∙◌, append_assoc, append-nil, ap,
  sym,
}
use general_worldwide_execut.Prelude.Text.{Text, codes}
use general_worldwide_execut.Js.Json.{Value, null, object, end}
use general_worldwide_execut.Gwems.Client.{
  Client, start, Accepts, accepts, throws, send, Event, opened, closed, failed, received, ticked,
  on_value, live, handle, run, get_session_id,
}

module _ {N : Type 0} where
  send-session_id : (a : Accepts) (s : Text) (c : Client N) → (send a s c).session_id ≡ c.session_id
  unfolding send
  send-session_id a [] c = refl
  send-session_id accepts (u ∷ s) c = refl
  send-session_id throws (u ∷ s) c = refl

  on_value-session_id : (v : Value N) (c : Client N) → (on_value v c).session_id ≡ c.session_id
  unfolding on_value
  on_value-session_id null c = refl
  on_value-session_id v c = refl

  handle-session_id : (e : Event N) (c : Client N) → (handle e c).session_id ≡ c.session_id
  unfolding handle
  handle-session_id opened c = refl
  handle-session_id closed c = refl
  handle-session_id failed c = refl
  handle-session_id (received none) c = refl
  handle-session_id (received (some v)) c = on_value-session_id v c
  handle-session_id (ticked a) c = send-session_id a live c

  run-keeps-session_id :
      (events : List (Event N)) (c : Client N) → (run events c).session_id ≡ c.session_id
  unfolding run
  run-keeps-session_id [] c = refl
  run-keeps-session_id (e ∷ events) c =
      run-keeps-session_id events (handle e c) ∙ handle-session_id e c

  -- Once the client is started, no event changes what `getSessionId` returns: it stays "none",
  -- whatever acknowledgements arrive.
  pub run-session_id :
      (secure : Bool) (events : List (Event N)) (c : Client N)
      → get_session_id (run events (start secure c)) ≡ some (codes "none")
  unfolding get_session_id start
  run-session_id secure events c = run-keeps-session_id events (start secure c)

  -- What an observer of the events expects: the state of the connection,
  abbrev pub connection : Event N → Bool → Bool
  connection opened b = true
  connection closed b = false
  connection _ b = b

  abbrev pub connections : List (Event N) → Bool → Bool
  connections [] b = b
  connections (e ∷ events) b = connections events (connection e b)

  -- one keep-alive message for each tick that the socket accepts,
  abbrev pub beats : List (Event N) → List Text
  beats [] = []
  beats (ticked accepts ∷ events) = live ∷ beats events
  beats (_ ∷ events) = beats events

  -- and the messages in their order, those that do not parse as empty objects and `null` left out.
  abbrev pub delivery : Event N → List (Value N)
  delivery (received none) = object end ∷ []
  delivery (received (some null)) = []
  delivery (received (some v)) = v ∷ []
  delivery _ = []

  abbrev pub deliveries : List (Event N) → List (Value N)
  deliveries [] = []
  deliveries (e ∷ events) = delivery e ++ deliveries events

  handle-is_open : (e : Event N) (c : Client N) → (handle e c).is_open ≡ connection e c.is_open
  unfolding handle
  handle-is_open opened c = refl
  handle-is_open closed c = refl
  handle-is_open failed c = refl
  handle-is_open (received none) c = refl
  handle-is_open (received (some null)) c = refl
  handle-is_open (received (some v)) c = refl
  handle-is_open (ticked accepts) c = refl
  handle-is_open (ticked throws) c = refl

  handle-sent :
      (e : Event N) (rest : List (Event N)) (c : Client N)
      → (handle e c).sent ++ beats rest ≡ c.sent ++ beats (e ∷ rest)
  unfolding handle
  handle-sent opened rest c = refl
  handle-sent closed rest c = refl
  handle-sent failed rest c = refl
  handle-sent (received none) rest c = refl
  handle-sent (received (some null)) rest c = refl
  handle-sent (received (some v)) rest c = refl
  handle-sent (ticked accepts) rest c = append_assoc c.sent (live ∷ []) (beats rest)
  handle-sent (ticked throws) rest c = refl

  handle-handled : (e : Event N) (c : Client N) → (handle e c).handled ≡ c.handled ++ delivery e
  unfolding handle
  handle-handled opened c = sym (append-nil c.handled)
  handle-handled closed c = sym (append-nil c.handled)
  handle-handled failed c = sym (append-nil c.handled)
  handle-handled (received none) c = refl
  handle-handled (received (some null)) c = sym (append-nil c.handled)
  handle-handled (received (some v)) c = refl
  handle-handled (ticked accepts) c = sym (append-nil c.handled)
  handle-handled (ticked throws) c = sym (append-nil c.handled)

  -- After any run of events, the connection is what the last opening or closing made it; the socket
  -- got one keep-alive message for each tick at which it accepts texts, and nothing else; and
  -- `handleMessage` got every message in order, one that does not parse as an empty object, and none
  -- for `null`.
  pub run_trace :
      (events : List (Event N)) (c : Client N)
      → ((run events c).is_open ≡ connections events c.is_open)
        × ((run events c).sent ≡ c.sent ++ beats events)
        × ((run events c).handled ≡ c.handled ++ deliveries events)
  unfolding run
  run_trace [] c = (refl, sym (append-nil c.sent), sym (append-nil c.handled))
  run_trace (e ∷ events) c =
      let (state, texts, values) = run_trace events (handle e c) in
      (
        state ∙ ap (connections events) (handle-is_open e c),
        texts ∙ handle-sent e events c,
        values
            ∙ ap (λ l. l ++ deliveries events) (handle-handled e c)
            ∙ append_assoc c.handled (delivery e) (deliveries events),
      )
