-- ===== src/Tracker/Session/Hearing.antt =====
-- Who hears whom: the channels that a session publishes on and those it is subscribed to.
use general_worldwide_execut.Prelude.{
  ℕ, ◌≡◌, refl, ap, sym, ◌∙◌, inl, inr, true, List, [], ◌∷◌, some, Option,
}
use general_worldwide_execut.Prelude.Text.{Text}
use general_worldwide_execut.Gwems.Changes.{serve}
use general_worldwide_execut.Gwems.Client.{accepts}
use general_worldwide_execut.Gwems.Messages.{World}
use general_worldwide_execut.Gwems.Serving.{commands_of, nothing}
use general_worldwide_execut.Gwems.Sets.Laws.{has}
use general_worldwide_execut.Js.Double.{Double, IsIeee}
use general_worldwide_execut.QuadSpaces.{decompose, list_to_string}
use general_worldwide_execut.QuadSpaces.Surrounding.Exactly.{is_near, is_near-own}
use general_worldwide_execut.QuadSpaces.Surrounding.Loop.{Gives, Gives-both, Gives-end, Gives-map}
use general_worldwide_execut.QuadSpaces.Termination.{decompose_total}
use general_worldwide_execut.Three.{Vector3}
use general_worldwide_execut.Tracker.{Level, new_tracker, min_level}
use general_worldwide_execut.Tracker.Session.Around.{AllAround, advance-AllAround}
use general_worldwide_execut.Tracker.Update.Split.{subscribes}
use general_worldwide_execut.Tracker.Session.Invariant.{IsKeeping, update-levels}
use general_worldwide_execut.Tracker.Session.Settled.{
  IsSettled, IsSettledOn, advance-AllTuned, refresh-IsSettledOn, session-IsSettled,
}
use general_worldwide_execut.Tracker.Session.Subscriptions.{
  IsFaithful, IsServed, session-IsFaithful, update-IsFaithful,
}
use general_worldwide_execut.Tracker.Session.Total.{
  logscales, logscales-AllScales, six_scales, six_scales_all, update-IsReady,
}
use general_worldwide_execut.Tracker.Session.Tuned.{
  AllTuned, decompose-IsAddress, level_channel-near, level_channel-full, first_near,
}
use general_worldwide_execut.Tracker.Session.{Step, Page, session}
use general_worldwide_execut.Tracker.Update.{level_channel, update}
use general_worldwide_execut.Tracker.Update.Follow.{AllScales}

-- The channel of the smallest level.
abbrev pub first_channel : List Level → Text
first_channel [] = []
first_channel (level ∷ levels) = level.channel

module _ {d : Double} (ieee : IsIeee d) where
  -- A session leaves the levels settled, for any later page.
  session-IsSettled_at :
      (built : Option (Vector3 d.Num)) (user : Text) (start : ℕ) (w : World d.Num)
      (steps : List (Step d.Num)) (page : Page d)
      → session d built steps (new_tracker user start, w) ≡ some page
      → IsKeeping ieee user (IsSettled d) page
  session-IsSettled_at built user start w steps page =
      Gives-end (IsKeeping ieee user (IsSettled d))
        (session d built steps (new_tracker user start, w)) page
        (session-IsSettled ieee built user start w steps)

  update-IsSettledOn :
      (p v : Vector3 d.Num) (now : ℕ) (delta : d.Num) (user : Text) (page : Page d)
      (lodlist : List Text)
      → page.1.1.is_open ≡ true
      → IsKeeping ieee user (IsSettled d) page
      → decompose d p min_level ≡ some lodlist
      → Gives
          (λ r. IsSettledOn d lodlist r.0.intervals)
          (update d accepts now p v delta page.0 page.1)
  update-IsSettledOn p v now delta user (t, w) lodlist is_on (h, s) el =
      let all : AllScales t.intervals =
        logscales-AllScales t.intervals (rw h.scales six_scales_all) in
      update-levels ieee p v now delta (IsSettledOn d lodlist) t w lodlist is_on all el
        (refresh-IsSettledOn ieee p lodlist t.intervals el h.scales s)
        λ levels (tuned, around).
          (advance-AllTuned now lodlist 0 levels tuned, advance-AllAround d now 0 levels around)

  update-IsSettled_page :
      (p v : Vector3 d.Num) (now : ℕ) (delta : d.Num) (user : Text) (page : Page d)
      (lodlist : List Text)
      → page.1.1.is_open ≡ true
      → IsKeeping ieee user (IsSettled d) page
      → decompose d p min_level ≡ some lodlist
      → Gives
          (IsKeeping ieee user (IsSettledOn d lodlist))
          (update d accepts now p v delta page.0 page.1)
  update-IsSettled_page p v now delta user page lodlist is_on k el =
      Gives-both _ _ (update d accepts now p v delta page.0 page.1)
        (update-IsReady ieee user p v now delta page.0 page.1 k.0)
        (update-IsSettledOn p v now delta user page lodlist is_on k el)

  session-IsFaithful_at :
      (built : Option (Vector3 d.Num)) (user : Text) (start : ℕ) (w : World d.Num)
      (steps : List (Step d.Num)) (page : Page d)
      → session d built steps (new_tracker user start, w) ≡ some page
      → IsFaithful ieee user w.1.sent page
  session-IsFaithful_at built user start w steps page =
      Gives-end (IsFaithful ieee user w.1.sent) (session d built steps (new_tracker user start, w))
        page (session-IsFaithful ieee built user start w steps)

  -- After any session, an update on an open connection leaves all six levels on the channels that
  -- belong to the new position, although its loop stops at the first level whose channel is right:
  -- each level publishes on the channel that the loop computes for it from the names of the
  -- position at the smallest level; and each subscribes to exactly the channels of the cubes of its
  -- scale around a position, which may be an earlier one, but has the same channel at that level.
  pub session-IsSettledOn :
      (built : Option (Vector3 d.Num)) (user : Text) (start : ℕ) (w : World d.Num)
      (steps : List (Step d.Num)) (page : Page d) (p v : Vector3 d.Num) (now : ℕ) (delta : d.Num)
      → session d built steps (new_tracker user start, w) ≡ some page
      → page.1.1.is_open ≡ true
      → (lodlist : List Text) × (decompose d p min_level ≡ some lodlist)
        × Gives
            (λ r. AllTuned lodlist 0 r.0.intervals × AllAround d 0 r.0.intervals)
            (update d accepts now p v delta page.0 page.1)
  session-IsSettledOn built user start w steps page p v now delta e is_on =
      let (lodlist, el, _, _) = decompose_total ieee p min_level in
      (
        lodlist,
        el,
        update-IsSettledOn p v now delta user page lodlist is_on
            (session-IsSettled_at built user start w steps page e) el,
      )

  -- The smallest level publishes on the channel of its own cube and is subscribed to it.
  first_level :
      (lodlist : List Text) (p : Vector3 d.Num) (levels : List Level)
      → decompose d p min_level ≡ some lodlist
      → logscales levels ≡ six_scales
      → IsSettledOn d lodlist levels
      → (first_channel levels ≡ list_to_string lodlist)
        × (subscribes levels (list_to_string lodlist) ≡ true)
  first_level lodlist p [] el h s = absurd (cc h)
  first_level lodlist p (level ∷ levels) el h ((tuned, _), (around, _)) =
      let near : (q : Vector3 d.Num) (l : List Text)
          → decompose d q min_level ≡ some l
          → level_channel level 0 l ≡ list_to_string l =
        λ q l e.
          level_channel-near level 0 l
            (first_near l 0 (decompose-IsAddress d q l e).some_name refl) in
      let publishes = tuned ∙ near p lodlist el in
      (
        publishes,
        elim around [
          | inl blank ↦ absurd (level_channel-full level 0 lodlist (sym tuned ∙ blank))
          | inr a ↦
              let same : list_to_string a.names ≡ list_to_string lodlist =
                sym (near a.from a.names a.named) ∙ sym a.publishes ∙ publishes in
              let scale : level.logscale ≡ min_level = cc h in
              let own : is_near d a.from level.logscale (list_to_string lodlist) ≡ true =
                rw (scale, sym same) (is_near-own ieee a.from min_level a.names a.named) in
              let heard : has level.subscribe_spaces (list_to_string lodlist) ≡ true =
                sym (a.spaces (list_to_string lodlist)) ∙ own in
              rw heard refl
        ],
      )

  -- Whatever has happened in the sessions of two users, if each then updates on an open connection,
  -- and their positions have the same names at the smallest level, which is 4 m, then the channel on
  -- which the first user's smallest level publishes is one of those that the second user's messages
  -- have joined and not left: a server that obeys them passes the first user's positions on to the
  -- second.
  pub session-hears :
      (built_a built_b : Option (Vector3 d.Num)) (user_a user_b : Text) (start_a start_b : ℕ)
      (w_a w_b : World d.Num) (steps_a steps_b : List (Step d.Num)) (a b : Page d)
      (p v q u : Vector3 d.Num) (now_a now_b : ℕ) (delta_a delta_b : d.Num)
      → session d built_a steps_a (new_tracker user_a start_a, w_a) ≡ some a
      → session d built_b steps_b (new_tracker user_b start_b, w_b) ≡ some b
      → a.1.1.is_open ≡ true
      → b.1.1.is_open ≡ true
      → decompose d p min_level ≡ decompose d q min_level
      → Gives
          (λ r.
            Gives
              (λ s.
                (h : IsServed d w_b.1.sent s.0.intervals s.1.1.sent) × (serve
                    (commands_of h.messages)
                    nothing
                    (first_channel r.0.intervals)
                  ≡ true))
              (update d accepts now_b q u delta_b b.0 b.1))
          (update d accepts now_a p v delta_a a.0 a.1)
  session-hears built_a built_b user_a user_b start_a start_b w_a w_b steps_a steps_b a b p v q u
        now_a now_b delta_a delta_b ea eb open_a open_b same =
      let (lodlist, el, _, _) = decompose_total ieee p min_level in
      let from_a = session-IsSettled_at built_a user_a start_a w_a steps_a a ea in
      let from_b = session-IsSettled_at built_b user_b start_b w_b steps_b b eb in
      Gives-map _ _ (update d accepts now_a p v delta_a a.0 a.1)
        (update-IsSettled_page p v now_a delta_a user_a a lodlist open_a from_a el)
        λ r (hr, sr).
          Gives-map _ _ (update d accepts now_b q u delta_b b.0 b.1)
            (Gives-both _ _ (update d accepts now_b q u delta_b b.0 b.1)
              (update-IsSettled_page q u now_b delta_b user_b b lodlist open_b from_b
                (sym same ∙ el))
              (update-IsFaithful ieee user_b w_b.1.sent q u now_b delta_b b.0 b.1
                (session-IsFaithful_at built_b user_b start_b w_b steps_b b eb)))
            λ s ((hs, ss), (_, (_, told))). (
              told,
              told.served (first_channel r.0.intervals)
                  ∙ ap (subscribes s.0.intervals)
                      (first_level lodlist p r.0.intervals el hr.scales sr).0
                  ∙ (first_level lodlist p s.0.intervals el hs.scales ss).1,
            )
