-- ===== src/Tracker/Update/Sends.antt =====
-- What `update` sends.
use general_worldwide_execut.Prelude.{
  ℕ, ◌≡◌, ap, sym, ◌∙◌, Bool, true, List, [], ◌++◌, map, some, append_assoc, if◌then◌else◌,
}
use general_worldwide_execut.Prelude.Text.{Text}
use mathlib.Core.Path.{subst}
use general_worldwide_execut.Gwems.Changes.{
  join, leave, command_text, subscribe-sent, unsubscribe-sent,
}
use general_worldwide_execut.Gwems.Client.{accepts}
use general_worldwide_execut.Gwems.Messages.{World, subscribe, unsubscribe}
use general_worldwide_execut.Js.Double.{Double, IsIeee}
use general_worldwide_execut.Js.Object.{keys}
use general_worldwide_execut.QuadSpaces.{decompose}
use general_worldwide_execut.QuadSpaces.Surrounding.Loop.{Gives, Gives-some}
use general_worldwide_execut.QuadSpaces.Termination.{decompose_total}
use general_worldwide_execut.Three.{Vector3}
use general_worldwide_execut.Tracker.Update.Follow.{AllScales}
use general_worldwide_execut.Tracker.Update.Split.{IsSplit, refresh-IsSplit}
use general_worldwide_execut.Tracker.Update.Schedule.{due, publication, publish_due_lem}
use general_worldwide_execut.Tracker.Update.{
  Moved, json_number, publish_due, refresh, update, update_open,
}
use general_worldwide_execut.Tracker.{Tracker, Level, min_level}

module _ {d : Double} (ieee : IsIeee d) (position velocity : Vector3 d.Num) where
  -- The texts of an update for the levels, the channels to leave and the channels to join.
  abbrev pub update_texts : ℕ → Text → Moved → List Text
  update_texts time user (levels, unsubs, subs) =
      map (command_text (json_number d)) (map leave (keys unsubs))
      ++ (map (command_text (json_number d)) (map join (keys subs))
          ++ map (publication d position velocity user) (due time levels))

  sends :
      (time : ℕ) (user : Text) (levels : List Level) (unsubs subs : List (Text × Text))
      (w : World d.Num)
      → (publish_due d accepts time position velocity user levels (
          subscribe
            (json_number d)
            accepts
            subs
            (unsubscribe (json_number d) accepts unsubs w))).1.1.sent
        ≡ w.1.sent ++ update_texts time user (levels, unsubs, subs)
  sends time user levels unsubs subs (t, c) =
      let w1 = unsubscribe (json_number d) accepts unsubs (t, c) in
      let w2 = subscribe (json_number d) accepts subs w1 in
      let left = map (command_text (json_number d)) (map leave (keys unsubs)) in
      let joined = map (command_text (json_number d)) (map join (keys subs)) in
      let told = map (publication d position velocity user) (due time levels) in
      (publish_due_lem d position velocity user time levels w2.0 w2.1).1
      ∙ ap (λ l. l ++ told)
          (subscribe-sent (json_number d) subs w1.0 w1.1
            ∙ ap (λ l. l ++ joined) (unsubscribe-sent (json_number d) unsubs t c))
      ∙ append_assoc (c.sent ++ left) joined told
      ∙ append_assoc c.sent left (joined ++ told)

  pub update_open-sends :
      (time : ℕ) (delta : d.Num) (t : Tracker d.Num) (w : World d.Num) (lodlist : List Text)
      (moved : Moved)
      → decompose d position min_level ≡ some lodlist
      → refresh d position lodlist t.intervals 0 [] [] ≡ some moved
      → Gives
          (λ r. r.1.1.sent ≡ w.1.sent ++ update_texts time t.user_hash moved)
          (update_open d accepts time position velocity delta t w)
  unfolding update_open
  update_open-sends time delta t w lodlist moved el em =
      rw (el, em, update_open) (sends time t.user_hash moved.0 moved.1 moved.2 w)

  pub update-update_open :
      (time : ℕ) (delta : d.Num) (t : Tracker d.Num) (w : World d.Num)
      → w.1.is_open ≡ true
      → update d accepts time position velocity delta t w
        ≡ update_open d accepts time position velocity delta t w
  unfolding update
  update-update_open time delta t w e =
      ap
        (λ (b : Bool).
          if b then update_open d accepts time position velocity delta t w else some (t, w))
        e

  -- On an open connection whose socket accepts texts, for levels of scales from -58 to 899, `update`
  -- returns, and it sends, in this order and nothing else: the texts that leave a set of channels, those
  -- that join another, and one publication for each level whose time has come, on the channel that it
  -- has after the move. `refresh` gives the levels after the move: the first ones have become others
  -- of the same scales, one for each, and the rest is as it was. A channel is in the set to leave if
  -- and only if one of those first levels subscribed to it before, and in the set to join if and only
  -- if one of them does now.
  pub update-update_texts :
      (time : ℕ) (delta : d.Num) (t : Tracker d.Num) (w : World d.Num)
      → w.1.is_open ≡ true
      → AllScales t.intervals
      → (lodlist : List Text) × (moved : Moved) × IsSplit [] [] t.intervals moved
        × (decompose d position min_level ≡ some lodlist)
        × (refresh d position lodlist t.intervals 0 [] [] ≡ some moved)
        × Gives
            (λ r. r.1.1.sent ≡ w.1.sent ++ update_texts time t.user_hash moved)
            (update d accepts time position velocity delta t w)
  update-update_texts time delta t w e h =
      let (lodlist, el, _, _) = decompose_total ieee position min_level in
      let (moved, em, split) =
        Gives-some _ (refresh d position lodlist t.intervals 0 [] [])
          (refresh-IsSplit ieee position lodlist t.intervals 0 [] [] h) in
      (
        lodlist,
        moved,
        split,
        el,
        em,
        subst (λ o. Gives (λ r. r.1.1.sent ≡ w.1.sent ++ update_texts time t.user_hash moved) o)
            (sym (update-update_open time delta t w e))
            (update_open-sends time delta t w lodlist moved el em),
      )
