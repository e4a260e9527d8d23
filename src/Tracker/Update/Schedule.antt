-- ===== src/Tracker/Update/Schedule.antt =====
-- When a level publishes.
use general_worldwide_execut.Prelude.{
  ℕ, ◌+◌, ◌≡◌, refl, ap, sym, ◌∙◌, inl, inr, Bool-cases, List, [], ◌∷◌, ◌++◌, map, ltb, append-nil,
  append_assoc, if◌then◌else◌,
}
use general_worldwide_execut.Prelude.Text.{Text}
use general_worldwide_execut.Gwems.Client.{Client, accepts, send}
use general_worldwide_execut.Gwems.Messages.{Templates, templates, publish_object}
use general_worldwide_execut.Js.Double.{Double}
use general_worldwide_execut.Js.Json.{Members, object, stringify}
use general_worldwide_execut.Three.{Vector3}
use general_worldwide_execut.Tracker.{Level}
use general_worldwide_execut.Tracker.Update.{json_number, make_message, publish_due}

-- A level after one round at a time.
abbrev pub advance : ℕ → Level → Level
advance time level =
    if ltb level.next_send time
    then record level { next_send = level.next_send + level.interval }
    else level

-- The levels whose time has come.
abbrev pub due : ℕ → List Level → List Level
due time [] = []
due time (level ∷ levels) =
    if ltb level.next_send time then level ∷ due time levels else due time levels

module _ (d : Double) (p v : Vector3 d.Num) (id : Text) where
  -- The text that a level publishes.
  abbrev pub publication : Level → Text
  publication level = stringify (json_number d) (
      publish_object
        (record templates { publish_channel = level.channel; publish_msg = make_message d p v id }))

  send-object :
      (m : Members d.Num) (c : Client d.Num)
      → (send accepts (stringify (json_number d) (object m)) c).sent
        ≡ c.sent ++ stringify (json_number d) (object m) ∷ []
  unfolding send stringify
  send-object m c = refl

  -- On an open socket each level whose time has come publishes once, on its own channel, in the order
  -- of the levels, and nothing else is sent; its next time is one interval later, and the other
  -- levels stay as they are.
  pub publish_due_lem :
      (time : ℕ) (levels : List Level) (t : Templates d.Num) (c : Client d.Num)
      → ((publish_due d accepts time p v id levels (t, c)).0 ≡ map (advance time) levels)
        × ((publish_due d accepts time p v id levels (t, c)).1.1.sent
            ≡ c.sent ++ map publication (due time levels))
  unfolding publish_due
  publish_due_lem time [] t c = (refl, sym (append-nil c.sent))
  publish_due_lem time (level ∷ levels) t c = elim (Bool-cases (ltb level.next_send time)) [
    | inl e ↦
        let t' : Templates d.Num = record t {
          publish_channel = level.channel;
          publish_msg = make_message d p v id;
        } in
        let c' = send accepts (stringify (json_number d) (publish_object t')) c in
        let (same, texts) = publish_due_lem time levels t' c' in
        let rest = map publication (due time levels) in
        rw (e, publish_due)
          (
            ap (λ l. record level { next_send = level.next_send + level.interval } ∷ l) same,
            texts
                ∙ ap (λ l. l ++ rest) (send-object _ c)
                ∙ append_assoc c.sent (publication level ∷ []) rest,
          )
    | inr e ↦
        let (same, texts) = publish_due_lem time levels t c in
        rw (e, publish_due) (ap (λ l. level ∷ l) same, texts)
  ]
