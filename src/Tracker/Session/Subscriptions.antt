-- ===== src/Tracker/Session/Subscriptions.antt =====
-- The server's view of a session: the channels that the messages of the tracker ask for.
use general_worldwide_execut.Prelude.{
  ℕ, zero, suc, ◌*◌, ◌≡◌, refl, ap, sym, ◌∙◌, inl, inr, Bool, false, Bool-cases, List, [], ◌++◌,
  map, arith, append_assoc, append-nil, Option,
}
use general_worldwide_execut.Prelude.Int.{ℤ, pos, ◌+ℤ◌}
use general_worldwide_execut.Prelude.Text.{Text}
use general_worldwide_execut.Gwems.Changes.{serve, serve-append}
use general_worldwide_execut.Gwems.Client.{accepts, Event, handle}
use general_worldwide_execut.Gwems.Messages.{World}
use general_worldwide_execut.Gwems.Serving.{
  Message, message_text, commands_of, commands_of-append, commands_of-beats, beats, handle-sent,
  nothing,
}
use general_worldwide_execut.Gwems.Sets.Laws.{has}
use general_worldwide_execut.Js.Double.{Double, IsIeee}
use general_worldwide_execut.QuadSpaces.Surrounding.Loop.{Gives, Gives-both, Gives-map, Gives-some}
use general_worldwide_execut.QuadSpaces.Termination.{decompose_total}
use general_worldwide_execut.Three.{Vector3}
use general_worldwide_execut.Tracker.{
  Tracker, Level, new_tracker, make_levels, level_count, min_level,
}
use general_worldwide_execut.Tracker.Session.Exchange.{AllBiased, AllDistinct, refresh-IsExchanged}
use general_worldwide_execut.Tracker.Update.Split.{subscribes}
use general_worldwide_execut.Tracker.Session.Total.{
  IsReady, logscales-AllScales, six_scales_all, update-IsReady, handle_message-IsReady,
  new_tracker-IsReady, six_scales,
}
use general_worldwide_execut.Tracker.Session.Keeps.{session-keeps}
use general_worldwide_execut.Tracker.Session.Invariant.{
  update_open-intervals, handle_message-intervals,
}
use general_worldwide_execut.Tracker.Session.Spoken.{
  update_messages, commands_of-update_messages, map-update_messages, advance-AllBiased,
  subscribes-advance, serve-moved,
}
use general_worldwide_execut.Tracker.Session.{Step, Page, handle_message, passed, session}
use general_worldwide_execut.Tracker.Update.Follow.{AllScales, update_closed}
use general_worldwide_execut.Tracker.Update.Sends.{update_open-sends, update-update_open}
use general_worldwide_execut.Tracker.Update.{json_number, refresh, update, update_open}
use mathlib.Core.List.{map-append}
use mathlib.Core.Path.{subst}

-- The messages that a session has sent, and what they come to.
pub record IsServed (d : Double) (before : List Text) (levels : List Level) (after : List Text)
    : Type 0 where
  pub messages : List (Message d.Num)
  pub texts : after ≡ before ++ map (message_text (json_number d)) messages
  pub served : (k : Text) → serve (commands_of messages) nothing k ≡ subscribes levels k

-- The same after more messages.
IsServed-append :
    (d : Double) (before sent after : List Text) (old new : List Level) (l : List (Message d.Num))
    → IsServed d before old sent
    → after ≡ sent ++ map (message_text (json_number d)) l
    → ((s : Text → Bool) (k : Text)
        → s k ≡ subscribes old k
        → serve (commands_of l) s k ≡ subscribes new k)
    → IsServed d before new after
IsServed-append d before sent after old new l h e f =
    let text_of = message_text (json_number d) in
    record {
      messages = h.messages ++ l;
      texts =
          e
          ∙ ap (λ t. t ++ map text_of l) h.texts
          ∙ append_assoc before (map text_of h.messages) (map text_of l)
          ∙ ap (λ t. before ++ t) (sym (map-append text_of h.messages l));
      served = λ k.
          ap (λ c. serve c nothing k) (commands_of-append h.messages l)
          ∙ serve-append (commands_of h.messages) (commands_of l) nothing k
          ∙ f (serve (commands_of h.messages) nothing) k (h.served k);
    }

six_scales_distinct : AllDistinct six_scales
six_scales_distinct = ground arith

module _ {d : Double} (ieee : IsIeee d) (user : Text) (before : List Text) where
  -- A tracker in order on its socket, whose server knows the channels of the levels.
  abbrev pub IsFaithful : Page d → Type 0
  IsFaithful page =
      IsReady user page.0
      × (AllBiased page.0.intervals × IsServed d before page.0.intervals page.1.1.sent)

  update_open-IsFaithful :
      (p v : Vector3 d.Num) (now : ℕ) (delta : d.Num) (t : Tracker d.Num) (w : World d.Num)
      → IsFaithful (t, w)
      → Gives
          (λ r. AllBiased r.0.intervals × IsServed d before r.0.intervals r.1.1.sent)
          (update_open d accepts now p v delta t w)
  update_open-IsFaithful p v now delta t w (h, (biased, told)) =
      let all : AllScales t.intervals =
        logscales-AllScales t.intervals (rw h.scales six_scales_all) in
      let distinct = subst AllDistinct (sym h.scales) six_scales_distinct in
      let (lodlist, el, _, _) = decompose_total ieee p min_level in
      let (moved, em, (biased', exchanged)) =
        Gives-some _ (refresh d p lodlist t.intervals 0 [] [])
          (refresh-IsExchanged ieee p lodlist t.intervals 0 [] [] all distinct biased) in
      Gives-map _ _ (update_open d accepts now p v delta t w)
        (Gives-both _ _ (update_open d accepts now p v delta t w)
          (update_open-intervals ieee p v now delta t w lodlist moved el em)
          (update_open-sends ieee p v now delta t w lodlist moved el em))
        (λ r (levels, texts). (
          rw levels (advance-AllBiased now moved.0 biased'),
          IsServed-append d before w.1.sent r.1.1.sent t.intervals r.0.intervals
              (update_messages d p v now t.user_hash moved) told
              (texts
                ∙ ap (λ l. w.1.sent ++ l)
                    (sym (map-update_messages d ieee p v now t.user_hash moved)))
              (λ s k e.
                ap (λ c. serve c s k) (commands_of-update_messages d p v now t.user_hash moved)
                ∙ serve-moved k moved.1 moved.2 s t.intervals moved.0 e (exchanged k)
                ∙ sym (subscribes-advance now moved.0 k)
                ∙ ap (λ l. subscribes l k) (sym levels)),
        ))

  pub update-IsFaithful :
      (p v : Vector3 d.Num) (now : ℕ) (delta : d.Num) (t : Tracker d.Num) (w : World d.Num)
      → IsFaithful (t, w)
      → Gives IsFaithful (update d accepts now p v delta t w)
  update-IsFaithful p v now delta t w h = elim (Bool-cases w.1.is_open) [
    | inl e ↦
        Gives-both (λ r. IsReady user r.0)
          (λ r. AllBiased r.0.intervals × IsServed d before r.0.intervals r.1.1.sent)
          (update d accepts now p v delta t w) (update-IsReady ieee user p v now delta t w h.0)
          (rw (update-update_open ieee p v now delta t w e)
            (update_open-IsFaithful p v now delta t w h))
    | inr e ↦ rw (update_closed d accepts now p v delta t w e) h
  ]

  event-IsFaithful :
      (built : Option (Vector3 d.Num)) (e : Event d.Num) (t : Tracker d.Num) (w : World d.Num)
      → IsFaithful (t, w)
      → IsFaithful (handle_message d built (passed e) t, (w.0, handle e w.1))
  event-IsFaithful built e t w (h, (biased, told)) =
      let same = sym (handle_message-intervals d built (passed e) t) in
      (
        handle_message-IsReady ieee user built (passed e) t h,
        (
          subst AllBiased same biased,
          subst (λ l. IsServed d before l (handle e w.1).sent) same
              (IsServed-append d before w.1.sent (handle e w.1).sent t.intervals t.intervals
                (beats e) told (handle-sent (json_number d) e w.1)
                (λ s k g. ap (λ l. serve l s k) (commands_of-beats e) ∙ g)),
        ),
      )

-- A new tracker subscribes to nothing.
make_levels-AllBiased :
    (n interval time : ℕ) (i : ℤ)
    → AllBiased (make_levels n i interval time)
      × ((k : Text) → subscribes (make_levels n i interval time) k ≡ false)
unfolding make_levels has
make_levels-AllBiased zero interval time i = (tt, λ k. refl)
make_levels-AllBiased (suc n) interval time i =
    let (h, e) = make_levels-AllBiased n (interval * 2) time (i +ℤ pos 2) in
    ((λ k wrong. absurd (ground arith), h), e)

new_tracker-AllBiased :
    (N : Type 0) (user : Text) (start : ℕ)
    → AllBiased (new_tracker {N = N} user start).intervals
      × ((k : Text) → subscribes (new_tracker {N = N} user start).intervals k ≡ false)
unfolding new_tracker
new_tracker-AllBiased N user start = make_levels-AllBiased level_count 200 start min_level

pub session-IsFaithful :
    {d : Double} (ieee : IsIeee d) (built : Option (Vector3 d.Num)) (user : Text) (start : ℕ)
    (w : World d.Num) (steps : List (Step d.Num))
    → Gives (IsFaithful ieee user w.1.sent) (session d built steps (new_tracker user start, w))
session-IsFaithful {d} ieee built user start w steps =
    let (biased, empty) = new_tracker-AllBiased d.Num user start in
    session-keeps d built (IsFaithful ieee user w.1.sent)
      (event-IsFaithful ieee user w.1.sent built)
      (λ now p v delta t u. update-IsFaithful ieee user w.1.sent p v now delta t u) steps
      (new_tracker user start, w)
      (
        new_tracker-IsReady user start,
        (
          biased,
          record { messages = []; texts = sym (append-nil w.1.sent); served = λ k. sym (empty k) },
        ),
      )

-- From a new tracker, any sequence of socket events and updates sends, after what was sent before, the
-- texts of a list of messages: commands to join or to leave a channel, publications and keep-alives.
-- A server that starts with no channels and obeys the commands in their order ends with exactly the
-- channels that some level of the tracker subscribes to.
pub session-IsServed :
    {d : Double} (ieee : IsIeee d) (built : Option (Vector3 d.Num)) (user : Text) (start : ℕ)
    (w : World d.Num) (steps : List (Step d.Num))
    → Gives
        (λ r. IsServed d w.1.sent r.0.intervals r.1.1.sent)
        (session d built steps (new_tracker user start, w))
session-IsServed {d} ieee built user start w steps =
    Gives-map (IsFaithful ieee user w.1.sent) _ (session d built steps (new_tracker user start, w))
      (session-IsFaithful ieee built user start w steps) (λ r h. h.1.1)
