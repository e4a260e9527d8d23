-- ===== src/Tracker/Session/Metered.antt =====
-- How many messages a session publishes.
use general_worldwide_execut.Prelude.{
  ℕ, zero, suc, ◌+◌, ◌*◌, ◌≤◌, ◌≡◌, refl, ap, sym, ◌∙◌, inl, inr, Bool-cases, true, List, [], ◌∷◌,
  ◌++◌, map, arith, append_assoc, append-nil, Option,
}
use general_worldwide_execut.Prelude.Int.{ℤ, pos, ◌+ℤ◌}
use general_worldwide_execut.Prelude.Text.{Text}
use general_worldwide_execut.Gwems.Client.{accepts, Event, handle}
use general_worldwide_execut.Gwems.Messages.{World}
use general_worldwide_execut.Gwems.Serving.{Message, message_text, beats, handle-sent}
use general_worldwide_execut.Js.Double.{Double, IsIeee}
use general_worldwide_execut.QuadSpaces.Surrounding.Loop.{Gives, Gives-both, Gives-end, Gives-map}
use general_worldwide_execut.Three.{Vector3}
use general_worldwide_execut.Tracker.Session.Counts.{
  tells, sum, AllCounted, bump, bump-AllCounted, sum-bump, tells-append, tells-beats,
  tells-update_messages,
}
use general_worldwide_execut.Tracker.Session.Keeps.{session-keeps}
use general_worldwide_execut.Tracker.Session.Invariant.{update-intervals, handle_message-intervals}
use general_worldwide_execut.Tracker.Session.Pace.{
  AllBefore, AllPaced, six_intervals, session-AllPaced,
}
use general_worldwide_execut.Tracker.Session.Spoken.{update_messages, map-update_messages}
use general_worldwide_execut.Tracker.Session.Total.{
  IsReady, logscales-AllScales, six_scales_all, update-IsReady, handle_message-IsReady,
  new_tracker-IsReady,
}
use general_worldwide_execut.Tracker.Session.{Step, Page, handle_message, passed, session}
use general_worldwide_execut.Tracker.Update.Follow.{
  AllScales, IsFollowed, refresh-IsFollowed, update_closed,
}
use general_worldwide_execut.Tracker.Update.Sends.{update-update_texts}
use general_worldwide_execut.Tracker.Update.{json_number, refresh, update}
use general_worldwide_execut.Tracker.{
  Level, Tracker, level_count, make_levels, min_level, new_tracker,
}
use mathlib.Core.List.{map-append}
use mathlib.Core.Path.{subst}

-- The messages of a session, with as many publications as the levels have moved on.
record IsCounted (d : Double) (start : ℕ) (before : List Text) (levels : List Level)
    (after : List Text) : Type 0 where
  messages : List (Message d.Num)
  counts : List ℕ
  texts : after ≡ before ++ map (message_text (json_number d)) messages
  counted : AllCounted start counts levels
  published : tells messages ≡ sum counts

IsCounted-append :
    (d : Double) (start : ℕ) (before sent after : List Text) (old new : List Level)
    (l : List (Message d.Num))
    → (h : IsCounted d start before old sent) → after ≡ sent ++ map (message_text (json_number d)) l
    → (counts : List ℕ) → AllCounted start counts new
    → sum counts ≡ sum h.counts + tells l
    → IsCounted d start before new after
IsCounted-append d start before sent after old new l h e counts c s =
    let text_of = message_text (json_number d) in
    record {
      messages = h.messages ++ l;
      counts = counts;
      texts =
          e
          ∙ ap (λ t. t ++ map text_of l) h.texts
          ∙ append_assoc before (map text_of h.messages) (map text_of l)
          ∙ ap (λ t. before ++ t) (sym (map-append text_of h.messages l));
      counted = c;
      published = omega (arith, tells-append h.messages l, h.published, s);
    }

IsFollowed-AllCounted :
    {d : Double} (ieee : IsIeee d) (p : Vector3 d.Num) (lodlist : List Text) (i start : ℕ)
    (counts : List ℕ) (old new : List Level)
    → IsFollowed ieee p lodlist i old new
    → AllCounted start counts old
    → AllCounted start counts new
IsFollowed-AllCounted ieee p lodlist i start counts [] new f h = rw f h
IsFollowed-AllCounted ieee p lodlist i start counts (level ∷ levels) [] f h = absurd f
IsFollowed-AllCounted ieee p lodlist i start [] (level ∷ levels) (level' ∷ levels') f h = absurd h
IsFollowed-AllCounted ieee p lodlist i start (n ∷ counts) (level ∷ levels) (level' ∷ levels')
      (inl (_, e, f)) h =
    rw (e, f) h
IsFollowed-AllCounted ieee p lodlist i start (n ∷ counts) (level ∷ levels) (level' ∷ levels')
      (inr (m, f)) (e, h) =
    (
      rw (m.next_send, m.interval) e,
      IsFollowed-AllCounted ieee p lodlist (i + 1) start counts levels levels' f h,
    )

module _ {d : Double} (ieee : IsIeee d) (user : Text) (start : ℕ) (before : List Text) where
  abbrev IsOnCount : Page d → Type 0
  IsOnCount page = IsReady user page.0 × IsCounted d start before page.0.intervals page.1.1.sent

  update-IsCounted :
      (p v : Vector3 d.Num) (now : ℕ) (delta : d.Num) (t : Tracker d.Num) (w : World d.Num)
      → w.1.is_open ≡ true
      → IsOnCount (t, w)
      → Gives
          (λ r. IsCounted d start before r.0.intervals r.1.1.sent)
          (update d accepts now p v delta t w)
  update-IsCounted p v now delta t w is_on (ready, h) =
      let all : AllScales t.intervals =
        logscales-AllScales t.intervals (rw ready.scales six_scales_all) in
      let (lodlist, moved, _, el, em, texts) =
        update-update_texts ieee p v now delta t w is_on all in
      let follows =
        Gives-end (λ m. IsFollowed ieee p lodlist 0 t.intervals m.0)
          (refresh d p lodlist t.intervals 0 [] []) moved
          (refresh-IsFollowed ieee p lodlist t.intervals 0 [] [] all) em in
      let counted =
        IsFollowed-AllCounted ieee p lodlist 0 start h.counts t.intervals moved.0 follows
          h.counted in
      let l = update_messages d p v now t.user_hash moved in
      Gives-map _ _ (update d accepts now p v delta t w)
        (Gives-both _ _ (update d accepts now p v delta t w) texts
          (update-intervals ieee p v now delta t w lodlist moved is_on el em))
        λ r (sent, same).
          IsCounted-append d start before w.1.sent r.1.1.sent t.intervals r.0.intervals l h
            (sent
              ∙ ap (λ m. w.1.sent ++ m)
                  (sym (map-update_messages d ieee p v now t.user_hash moved)))
            (bump now moved.0 h.counts)
            (subst (AllCounted start (bump now moved.0 h.counts)) (sym same)
              (bump-AllCounted start now h.counts moved.0 counted))
            (sum-bump start now h.counts moved.0 counted
              ∙ ap (λ n. sum h.counts + n)
                  (sym (tells-update_messages d p v t.user_hash now moved)))

  frame-IsOnCount :
      (now : ℕ) (p v : Vector3 d.Num) (delta : d.Num) (t : Tracker d.Num) (w : World d.Num)
      → IsOnCount (t, w)
      → Gives IsOnCount (update d accepts now p v delta t w)
  frame-IsOnCount now p v delta t w h = elim (Bool-cases w.1.is_open) [
    | inl e ↦
        Gives-both (λ r. IsReady user r.0) (λ r. IsCounted d start before r.0.intervals r.1.1.sent)
          (update d accepts now p v delta t w) (update-IsReady ieee user p v now delta t w h.0)
          (update-IsCounted p v now delta t w e h)
    | inr e ↦ rw (update_closed d accepts now p v delta t w e) h
  ]

  event-IsOnCount :
      (built : Option (Vector3 d.Num)) (e : Event d.Num) (t : Tracker d.Num) (w : World d.Num)
      → IsOnCount (t, w)
      → IsOnCount (handle_message d built (passed e) t, (w.0, handle e w.1))
  event-IsOnCount built e t w (ready, h) =
      let same = sym (handle_message-intervals d built (passed e) t) in
      (
        handle_message-IsReady ieee user built (passed e) t ready,
        subst (λ l. IsCounted d start before l (handle e w.1).sent) same
            (IsCounted-append d start before w.1.sent (handle e w.1).sent t.intervals t.intervals
              (beats e) h (handle-sent (json_number d) e w.1) h.counts h.counted
              (let none_told = tells-beats e in omega (arith, none_told))),
      )

-- No level has moved on more often than once for each of its intervals up to the time, and once more.
abbrev pub AllAtMost : ℕ → ℕ → List ℕ → List ℕ → Type 0
AllAtMost start time [] [] = Unit
AllAtMost start time [] (n ∷ counts) = ⊥
AllAtMost start time (i ∷ intervals) [] = ⊥
AllAtMost start time (i ∷ intervals) (n ∷ counts) =
    (start + n * i ≤ time + i) × AllAtMost start time intervals counts

AllPaced-AllAtMost :
    (start time : ℕ) (intervals counts : List ℕ) (levels : List Level)
    → AllPaced start time intervals levels
    → AllCounted start counts levels
    → AllAtMost start time intervals counts
AllPaced-AllAtMost start time [] [] levels p h = tt
AllPaced-AllAtMost start time [] (n ∷ counts) [] p h = absurd h
AllPaced-AllAtMost start time [] (n ∷ counts) (level ∷ levels) p h = absurd p
AllPaced-AllAtMost start time (i ∷ intervals) counts [] p h = absurd p
AllPaced-AllAtMost start time (i ∷ intervals) [] (level ∷ levels) p h = absurd h
AllPaced-AllAtMost start time (i ∷ intervals) (n ∷ counts) (level ∷ levels) (p, ps) (e, h) =
    let on_time : level.next_send ≡ start + n * i = e ∙ ap (λ k. start + n * k) p.fixed in
    (omega (arith, on_time, p.bound), AllPaced-AllAtMost start time intervals counts levels ps h)

abbrev zeros : ℕ → List ℕ
zeros zero = []
zeros (suc n) = 0 ∷ zeros n

make_levels-AllCounted :
    (n interval start : ℕ) (i : ℤ) → AllCounted start (zeros n) (make_levels n i interval start)
unfolding make_levels
make_levels-AllCounted zero interval start i = tt
make_levels-AllCounted (suc n) interval start i =
    (omega arith, make_levels-AllCounted n (interval * 2) start (i +ℤ pos 2))

new_tracker-AllCounted :
    (N : Type 0) (user : Text) (start : ℕ)
    → AllCounted start (zeros level_count) (new_tracker {N = N} user start).intervals
unfolding new_tracker
new_tracker-AllCounted N user start = make_levels-AllCounted level_count 200 start min_level

-- What was sent is a list of messages, with as many publications as the sum of six counts, each of
-- which is bounded by the interval of its level.
pub record IsMetered (d : Double) (start time : ℕ) (before after : List Text) : Type 0 where
  pub messages : List (Message d.Num)
  pub counts : List ℕ
  pub texts : after ≡ before ++ map (message_text (json_number d)) messages
  pub published : tells messages ≡ sum counts
  pub bounded : AllAtMost start time six_intervals counts

-- In any session whose clock does not pass a time, and which does not start after it, the tracker
-- sends a list of messages whose publications are at most one for each level in each of its
-- intervals from the start to the time, and one more for each level: the intervals are 200 ms for the
-- smallest and doubled from level to level. This holds however often `update` is called, and
-- whatever messages arrive.
pub session-IsMetered :
    {d : Double} (ieee : IsIeee d) (built : Option (Vector3 d.Num)) (user : Text) (start time : ℕ)
    (w : World d.Num) (steps : List (Step d.Num))
    → start ≤ time
    → AllBefore time steps
    → Gives
        (λ r. IsMetered d start time w.1.sent r.1.1.sent)
        (session d built steps (new_tracker user start, w))
session-IsMetered {d} ieee built user start time w steps h b =
    let first : IsCounted d start w.1.sent (new_tracker {N = d.Num} user start).intervals w.1.sent =
      record {
        messages = [];
        counts = zeros level_count;
        texts = sym (append-nil w.1.sent);
        counted = new_tracker-AllCounted d.Num user start;
        published = refl;
      } in
    Gives-map _ _ (session d built steps (new_tracker user start, w))
      (Gives-both _ _ (session d built steps (new_tracker user start, w))
        (session-AllPaced ieee built user start time w steps h b)
        (session-keeps d built (IsOnCount ieee user start w.1.sent)
          (event-IsOnCount ieee user start w.1.sent built)
          (frame-IsOnCount ieee user start w.1.sent) steps (new_tracker user start, w)
          (new_tracker-IsReady user start, first)))
      λ r (paced, (_, c)). record {
        messages = c.messages;
        counts = c.counts;
        texts = c.texts;
        published = c.published;
        bounded =
            AllPaced-AllAtMost start time six_intervals c.counts r.0.intervals paced c.counted;
      }
