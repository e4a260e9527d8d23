-- ===== src/Tracker/Session/Delivery.antt =====
-- From the position of one user to the avatar that another user sees.
use general_worldwide_execut.Prelude.{
  ℕ, ◌≡◌, refl, ap, sym, ◌∙◌, inl, inr, true, false, Bool-cases, List, [], ◌∷◌, ◌++◌, map, some,
  ltb, append_assoc, Option,
}
use general_worldwide_execut.Prelude.Text.{Text, eqb_text}
use general_worldwide_execut.Gwems.Changes.{serve, command_text, join, leave}
use general_worldwide_execut.Gwems.Client.{accepts}
use general_worldwide_execut.Gwems.Messages.{World}
use general_worldwide_execut.Gwems.Serving.{commands_of, nothing, message_text, tell}
use general_worldwide_execut.Js.Double.{Double, IsIeee}
use general_worldwide_execut.Js.Object.{get, keys}
use general_worldwide_execut.Js.Transfer.{carried, carried_number-num, IsCarried}
use general_worldwide_execut.QuadSpaces.{decompose}
use general_worldwide_execut.QuadSpaces.Surrounding.Loop.{Gives, Gives-both, Gives-end, Gives-map}
use general_worldwide_execut.Three.{Vector3}
use general_worldwide_execut.Tracker.{Avatar, Level, Tracker, new_tracker, min_level, numbers}
use general_worldwide_execut.Tracker.Incoming.RoundTrip.{handle_incoming-make_message, arrived}
use general_worldwide_execut.Tracker.Incoming.{handle_incoming}
use general_worldwide_execut.Tracker.Session.Hearing.{first_channel, session-hears}
use general_worldwide_execut.Tracker.Session.Invariant.{update-intervals}
use general_worldwide_execut.Tracker.Session.Subscriptions.{IsServed}
use general_worldwide_execut.Tracker.Session.Total.{
  IsReady, logscales-AllScales, six_scales_all, update-IsReady, session-IsReady,
}
use general_worldwide_execut.Tracker.Session.{Step, Page, session}
use general_worldwide_execut.Tracker.Update.Follow.{AllScales, IsFollowed, refresh-IsFollowed}
use general_worldwide_execut.Tracker.Update.Schedule.{advance, due, publication}
use general_worldwide_execut.Tracker.Update.Sends.{update-update_texts}
use general_worldwide_execut.Tracker.Update.{json_number, make_message, refresh, update}
use mathlib.Core.Path.{subst}

-- The coordinates arrive as they are.
abbrev pub IsCarriedVector : (d : Double) → Vector3 d.Num → Type 0
IsCarriedVector d p = IsCarried d p.x × IsCarried d p.y × IsCarried d p.z

arrived-numbers : (d : Double) (p : Vector3 d.Num) → IsCarriedVector d p → arrived d p ≡ numbers p
arrived-numbers d p (hx, hy, hz) =
    rw (carried_number-num d p.x hx, carried_number-num d p.y hy, carried_number-num d p.z hz) refl

arrived_avatar :
    (d : Double) (p v : Vector3 d.Num)
    → IsCarriedVector d p
    → IsCarriedVector d v
    → ◌≡◌ {A = Option (Avatar d.Num)}
        (some (record { place = arrived d p; velocity = arrived d v }))
        (some (record { place = numbers p; velocity = numbers v }))
arrived_avatar d p v hp hv = rw (arrived-numbers d p hp, arrived-numbers d v hv) refl

-- The time of the smallest level has come.
abbrev pub IsDue : ℕ → List Level → Type 0
IsDue now [] = ⊥
IsDue now (level ∷ levels) = ltb level.next_send now ≡ true

first_channel-advance :
    (now : ℕ) (levels : List Level)
    → first_channel (map (advance now) levels) ≡ first_channel levels
first_channel-advance now [] = refl
first_channel-advance now (level ∷ levels) = elim (Bool-cases (ltb level.next_send now)) [
  | inl e ↦ rw e refl
  | inr e ↦ rw e refl
]

regroup : (a b c l : List Text) → a ++ (b ++ (c ++ l)) ≡ (a ++ (b ++ c)) ++ l
regroup a b c l = ap (λ m. a ++ m) (sym (append_assoc b c l)) ∙ sym (append_assoc a (b ++ c) l)

module _ {d : Double} (ieee : IsIeee d) (p v : Vector3 d.Num) where
  IsFollowed-IsDue :
      (lodlist : List Text) (now : ℕ) (old new : List Level)
      → IsFollowed ieee p lodlist 0 old new
      → IsDue now old
      → IsDue now new
  IsFollowed-IsDue lodlist now [] new f h = absurd h
  IsFollowed-IsDue lodlist now (level ∷ levels) [] f h = absurd f
  IsFollowed-IsDue lodlist now (level ∷ levels) (level' ∷ levels') (inl (_, e, _)) h = rw e h
  IsFollowed-IsDue lodlist now (level ∷ levels) (level' ∷ levels') (inr (m, _)) h = rw m.next_send h

  -- The text by which the smallest level tells the position.
  abbrev pub told_by : Text → List Level → Text
  told_by user levels =
      message_text (json_number d) (tell (first_channel levels) (make_message d p v user))

  first_told :
      (user : Text) (now : ℕ) (levels : List Level)
      → IsDue now levels
      → (rest : List Text) × (map (publication d p v user) (due now levels)
          ≡ told_by user levels ∷ rest)
  first_told user now [] h = absurd h
  first_told user now (level ∷ levels) h =
      (map (publication d p v user) (due now levels), rw h refl)

  -- An update tells the position on the channel of the smallest level.
  update-tells :
      (now : ℕ) (delta : d.Num) (t : Tracker d.Num) (w : World d.Num)
      → w.1.is_open ≡ true
      → AllScales t.intervals
      → IsDue now t.intervals
      → Gives
          (λ r.
            (pre post : List Text) × (r.1.1.sent ≡ pre ++ told_by t.user_hash r.0.intervals ∷ post))
          (update d accepts now p v delta t w)
  update-tells now delta t w is_on all h =
      let (lodlist, (levels, unsubs, subs), _, el, em, texts) =
        update-update_texts ieee p v now delta t w is_on all in
      let follows =
        Gives-end (λ m. IsFollowed ieee p lodlist 0 t.intervals m.0)
          (refresh d p lodlist t.intervals 0 [] []) (levels, unsubs, subs)
          (refresh-IsFollowed ieee p lodlist t.intervals 0 [] [] all) em in
      let (rest, told) =
        first_told t.user_hash now levels
          (IsFollowed-IsDue lodlist now t.intervals levels follows h) in
      let left = map (command_text (json_number d)) (map leave (keys unsubs)) in
      let joined = map (command_text (json_number d)) (map join (keys subs)) in
      let told_now = told_by t.user_hash levels in
      Gives-map _ _ (update d accepts now p v delta t w)
        (Gives-both _ _ (update d accepts now p v delta t w) texts
          (update-intervals ieee p v now delta t w lodlist (levels, unsubs, subs) is_on el em))
        λ r (sent, same). (
          w.1.sent ++ (left ++ joined),
          rest,
          sent
              ∙ ap (λ l. w.1.sent ++ (left ++ (joined ++ l))) told
              ∙ regroup w.1.sent left joined (told_now ∷ rest)
              ∙ ap
                  (λ c.
                    (w.1.sent ++ (left ++ joined))
                    ++ message_text (json_number d) (tell c (make_message d p v t.user_hash))
                      ∷ rest)
                  (sym (first_channel-advance now levels) ∙ ap first_channel (sym same)),
        )

-- One page has sent a publication of a position and a velocity, on a channel that the server knows
-- the other page to be on, and the tracker of the other page, when JSON has carried the message to it,
-- shows the position and the velocity that were published.
pub record IsDelivered (d : Double) (user : Text) (p v built : Vector3 d.Num) (before : List Text)
    (r s : Page d) : Type 0 where
  pub channel : Text
  pub earlier : List Text
  pub later : List Text
  pub published :
      r.1.1.sent
      ≡ earlier ++ message_text (json_number d) (tell channel (make_message d p v user)) ∷ later
  pub server : IsServed d before s.0.intervals s.1.1.sent
  pub on_channel : serve (commands_of server.messages) nothing channel ≡ true
  pub quiet : (handle_incoming d (some built) (carried d (make_message d p v user)) s.0).1 ≡ false
  pub seen :
      get (handle_incoming d (some built) (carried d (make_message d p v user)) s.0).0.avatars user
      ≡ some (record { place = numbers p; velocity = numbers v })

module _ {d : Double} (ieee : IsIeee d) where
  update_at-IsReady :
      (built : Option (Vector3 d.Num)) (user : Text) (start : ℕ) (w : World d.Num)
      (steps : List (Step d.Num)) (page : Page d)
      → session d built steps (new_tracker user start, w) ≡ some page
      → IsReady user page.0
  update_at-IsReady built user start w steps page =
      Gives-end (λ r. IsReady user r.0) (session d built steps (new_tracker user start, w)) page
        (session-IsReady ieee built user start w steps)

  -- Whatever has happened in the sessions of two users of different names, the first of which is not
  -- empty, if each then updates on an open connection, at positions with the same names at the
  -- smallest level, and the time of the first user's smallest level has come, then the first user
  -- sends a publication of its position and velocity; it is on a channel that the second user's
  -- messages have joined and not left; and the second user's tracker, when JSON has carried the
  -- message to it and the builder of the avatars is there, does not throw and has an avatar of the
  -- first user with exactly that position and velocity. The coordinates of both are finite, and each
  -- is the number that is read from its text.
  pub session-delivers :
      (built_a built_b : Option (Vector3 d.Num)) (built : Vector3 d.Num) (x : ℕ)
      (name user_b : Text) (start_a start_b : ℕ) (w_a w_b : World d.Num)
      (steps_a steps_b : List (Step d.Num)) (a b : Page d) (p v q u : Vector3 d.Num)
      (now_a now_b : ℕ) (delta_a delta_b : d.Num)
      → IsCarriedVector d p
      → IsCarriedVector d v
      → eqb_text (x ∷ name) user_b ≡ false
      → session d built_a steps_a (new_tracker (x ∷ name) start_a, w_a) ≡ some a
      → session d built_b steps_b (new_tracker user_b start_b, w_b) ≡ some b
      → a.1.1.is_open ≡ true
      → b.1.1.is_open ≡ true
      → decompose d p min_level ≡ decompose d q min_level
      → IsDue now_a a.0.intervals
      → Gives
          (λ r.
            Gives
              (λ s. IsDelivered d (x ∷ name) p v built w_b.1.sent r s)
              (update d accepts now_b q u delta_b b.0 b.1))
          (update d accepts now_a p v delta_a a.0 a.1)
  session-delivers built_a built_b built x name user_b start_a start_b w_a w_b steps_a steps_b a b p
        v q u now_a now_b delta_a delta_b cp cv other ea eb open_a open_b same is_due =
      let ready_a = update_at-IsReady built_a (x ∷ name) start_a w_a steps_a a ea in
      let ready_b = update_at-IsReady built_b user_b start_b w_b steps_b b eb in
      let all : AllScales a.0.intervals =
        logscales-AllScales a.0.intervals (rw ready_a.scales six_scales_all) in
      Gives-map _ _ (update d accepts now_a p v delta_a a.0 a.1)
        (Gives-both _ _ (update d accepts now_a p v delta_a a.0 a.1)
          (update-tells ieee p v now_a delta_a a.0 a.1 open_a all is_due)
          (session-hears ieee built_a built_b (x ∷ name) user_b start_a start_b w_a w_b steps_a
            steps_b a b p v q u now_a now_b delta_a delta_b ea eb open_a open_b same))
        λ r ((pre, post, sent), heard).
          Gives-map _ _ (update d accepts now_b q u delta_b b.0 b.1)
            (Gives-both _ _ (update d accepts now_b q u delta_b b.0 b.1) heard
              (update-IsReady ieee user_b q u now_b delta_b b.0 b.1 ready_b))
            λ s ((h, on_channel), ready).
              let (quiet, seen, _) =
                handle_incoming-make_message d built p v x name s.0 (rw ready.name other) in
              record {
                channel = first_channel r.0.intervals;
                earlier = pre;
                later = post;
                published =
                    subst
                      (λ id.
                        r.1.1.sent
                        ≡ pre
                          ++ message_text (json_number d)
                              (tell (first_channel r.0.intervals) (make_message d p v id))
                            ∷ post)
                      ready_a.name sent;
                server = h;
                on_channel = on_channel;
                quiet = quiet;
                seen = seen ∙ arrived_avatar d p v cp cv;
              }
