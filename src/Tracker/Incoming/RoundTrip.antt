-- ===== src/Tracker/Incoming/RoundTrip.antt =====
-- The message that one tracker publishes, as another one gets it.
use general_worldwide_execut.Prelude.{ℕ, ◌≡◌, refl, false, ◌∷◌, some}
use general_worldwide_execut.Prelude.Text.{Text, codes, eqb_text}
use general_worldwide_execut.Js.Coerce.{to_string, equals_text, truthy}
use general_worldwide_execut.Js.Double.{Double}
use general_worldwide_execut.Js.Json.{Value, text, member_of}
use general_worldwide_execut.Js.Object.{get}
use general_worldwide_execut.Js.Transfer.{carried, carried_number}
use general_worldwide_execut.Three.{Vector3}
use general_worldwide_execut.Tracker.{Tracker, Slots}
use general_worldwide_execut.Tracker.Incoming.Laws.{IsFrame, handle_incoming-place}
use general_worldwide_execut.Tracker.Incoming.{property, coordinates, item_of, handle_incoming}
use general_worldwide_execut.Tracker.Update.{make_message}

-- The three values that arrive for three coordinates.
abbrev pub arrived : (d : Double) → Vector3 d.Num → Slots d.Num
arrived d p = record {
  x = some (carried_number d p.x);
  y = some (carried_number d p.y);
  z = some (carried_number d p.z);
}

module _ (d : Double) (p v : Vector3 d.Num) (id : Text) where
  -- What arrives of the message.
  abbrev pub arriving : Value d.Num
  arriving = carried d (make_message d p v id)

  message_tag : truthy d (property arriving (codes "@")) ≡ false
  unfolding carried make_message property member_of truthy
  message_tag = refl

  message_id : property arriving (codes "id") ≡ some (text id)
  unfolding carried make_message property member_of
  message_id = refl

  message_place : coordinates (property arriving (codes "p")) ≡ some (arrived d p)
  unfolding carried make_message property member_of coordinates item_of
  message_place = refl

  message_velocity : coordinates (property arriving (codes "v")) ≡ some (arrived d v)
  unfolding carried make_message property member_of coordinates item_of
  message_velocity = refl

-- A message that `makeMessage` builds from a position, a velocity and a user's id that is not empty,
-- when it reaches the tracker of another user as JSON carries it, and the builder of the avatars is
-- there, does not throw; the tracker then has an avatar of that id, known or new, whose position and
-- velocity are, coordinate by coordinate, the number that is read from the number's text, and `null`
-- for a number that is not finite; every other avatar, the levels, the count of own messages and the
-- user are as they were.
pub handle_incoming-make_message :
    (d : Double) (built p v : Vector3 d.Num) (c : ℕ) (s : Text) (t : Tracker d.Num)
    → eqb_text (c ∷ s) t.user_hash ≡ false
    → let (u, threw) = handle_incoming d (some built) (carried d (make_message d p v (c ∷ s))) t in
      (threw ≡ false)
      × (get u.avatars (c ∷ s) ≡ some (record { place = arrived d p; velocity = arrived d v }))
      × IsFrame d (c ∷ s) t u
unfolding to_string equals_text truthy
handle_incoming-make_message d built p v c s t h =
    handle_incoming-place d built (arrived d p) (arrived d v) (arriving d p v (c ∷ s))
      (text (c ∷ s)) t (message_tag d p v (c ∷ s)) (message_id d p v (c ∷ s)) refl h
      (message_place d p v (c ∷ s)) (message_velocity d p v (c ∷ s))
