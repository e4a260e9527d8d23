-- ===== src/Tracker/Session/Open.antt =====
-- `update` keeps the connection open.
use general_worldwide_execut.Prelude.{
  ℕ, ◌≡◌, refl, sym, ◌∙◌, Bool, true, false, List, [], ◌∷◌, some, ltb, if◌then◌else◌,
}
use general_worldwide_execut.Prelude.Text.{Text}
use general_worldwide_execut.Gwems.Client.{Accepts, accepts, throws, send, Client}
use general_worldwide_execut.Gwems.Messages.{World, subscribe, unsubscribe}
use general_worldwide_execut.Gwems.Sets.{Object}
use general_worldwide_execut.Js.Double.{Double, IsIeee}
use general_worldwide_execut.QuadSpaces.{decompose}
use general_worldwide_execut.QuadSpaces.Surrounding.Loop.{Gives, Gives-some}
use general_worldwide_execut.QuadSpaces.Termination.{decompose_total}
use general_worldwide_execut.Three.{Vector3}
use general_worldwide_execut.Tracker.{Tracker, Level, min_level}
use general_worldwide_execut.Tracker.Update.{
  Moved, json_number, publish_due, refresh, update_open, update,
}
use general_worldwide_execut.Tracker.Update.Follow.{AllScales, refresh-IsFollowed}
use general_worldwide_execut.Tracker.Update.Sends.{update-update_open}
use mathlib.Core.Path.{subst}

-- No text that is sent changes the state of the connection.
module _ {N : Type 0} where
  send-is_open : (a : Accepts) (s : Text) (c : Client N) → (send a s c).is_open ≡ c.is_open
  unfolding send
  send-is_open a [] c = refl
  send-is_open accepts (u ∷ s) c = refl
  send-is_open throws (u ∷ s) c = refl

  module _ (print : N → Text) (a : Accepts) where
    subscribe-is_open : (o : Object) (w : World N) → (subscribe print a o w).1.is_open ≡ w.1.is_open
    unfolding subscribe
    subscribe-is_open [] w = refl
    subscribe-is_open ((key, v) ∷ o) (t, c) = subscribe-is_open o _ ∙ send-is_open a _ c

    unsubscribe-is_open :
        (o : Object) (w : World N) → (unsubscribe print a o w).1.is_open ≡ w.1.is_open
    unfolding unsubscribe
    unsubscribe-is_open [] w = refl
    unsubscribe-is_open ((key, v) ∷ o) (t, c) = unsubscribe-is_open o _ ∙ send-is_open a _ c

if-is_open :
    {N : Type 0} (b : Bool) (v w : World N)
    → v.1.is_open ≡ w.1.is_open
    → (if b then v else w).1.is_open ≡ w.1.is_open
if-is_open true v w h = h
if-is_open false v w h = refl

module _ {d : Double} (ieee : IsIeee d) (position velocity : Vector3 d.Num) (now : ℕ) where
  publish_due-is_open :
      (user : Text) (levels : List Level) (w : World d.Num)
      → (publish_due d accepts now position velocity user levels w).1.1.is_open ≡ w.1.is_open
  unfolding publish_due
  publish_due-is_open user [] w = refl
  publish_due-is_open user (level ∷ levels) (t, c) =
      publish_due-is_open user levels _
      ∙ if-is_open (ltb level.next_send now) _ (t, c) (send-is_open accepts _ c)

  update_open-is_open :
      (delta : d.Num) (t : Tracker d.Num) (w : World d.Num) (lodlist : List Text) (moved : Moved)
      → decompose d position min_level ≡ some lodlist
      → refresh d position lodlist t.intervals 0 [] [] ≡ some moved
      → Gives
          (λ r. r.1.1.is_open ≡ w.1.is_open)
          (update_open d accepts now position velocity delta t w)
  unfolding update_open
  update_open-is_open delta t w lodlist moved el em =
      rw (el, em, update_open)
        (publish_due-is_open t.user_hash moved.0 _
          ∙ subscribe-is_open (json_number d) accepts moved.2 _
          ∙ unsubscribe-is_open (json_number d) accepts moved.1 w)

  -- An update of an open connection returns, and the connection stays open.
  pub update-is_open :
      (delta : d.Num) (t : Tracker d.Num) (w : World d.Num)
      → w.1.is_open ≡ true
      → AllScales t.intervals
      → Gives (λ r. r.1.1.is_open ≡ w.1.is_open) (update d accepts now position velocity delta t w)
  update-is_open delta t w e h =
      let (lodlist, el, _, _) = decompose_total ieee position min_level in
      let (moved, em, _) =
        Gives-some _ (refresh d position lodlist t.intervals 0 [] [])
          (refresh-IsFollowed ieee position lodlist t.intervals 0 [] [] h) in
      subst (Gives (λ r. r.1.1.is_open ≡ w.1.is_open))
        (sym (update-update_open ieee position velocity now delta t w e))
        (update_open-is_open delta t w lodlist moved el em)
