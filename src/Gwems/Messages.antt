-- ===== src/Gwems/Messages.antt =====
-- The messages of `GWEMS`: the template objects that are filled in and written as JSON, and the
-- loops that send them.
use general_worldwide_execut.Prelude.{[], ◌∷◌, Bool, true, false, if◌then◌else◌}
use general_worldwide_execut.Prelude.Text.{Text, codes}
use general_worldwide_execut.Js.Json.{Value, text, object, end, member, stringify}
use general_worldwide_execut.Gwems.Client.{Client, Accepts, send}
use general_worldwide_execut.Gwems.Sets.{Object, added_to_set, removed_from_set}

-- What `subscribeJsonObject`, `unsubscribeJsonObject` and `publishObject` hold between the calls.
pub record Templates (N : Type 0) : Type 0 where
  pub subscribe_channel : Text
  pub unsubscribe_channel : Text
  pub publish_channel : Text
  pub publish_msg : Value N

abbrev pub templates : {N : Type 0} → Templates N
templates = record {
  subscribe_channel = [];
  unsubscribe_channel = [];
  publish_channel = [];
  publish_msg = text [];
}

abbrev pub subscribe_object : {N : Type 0} → Templates N → Value N
subscribe_object t = object (
    member (codes "@") (text (codes "gwems.Subscribe"))
      (member (codes "channel") (text t.subscribe_channel) end))

abbrev pub unsubscribe_object : {N : Type 0} → Templates N → Value N
unsubscribe_object t = object (
    member (codes "@") (text (codes "gwems.Unsubscribe"))
      (member (codes "channel") (text t.unsubscribe_channel) end))

abbrev pub publish_object : {N : Type 0} → Templates N → Value N
publish_object t = object (
    member (codes "@") (text (codes "gwems.Publish")) (
      member (codes "channel") (text t.publish_channel) (
        member (codes "msg")
          (object (
            member (codes "@") (text (codes "gwems.Push2Client"))
              (member (codes "msg") t.publish_msg end)))
          end)))

-- The templates and the client, which the calls change.
abbrev pub World : Type 0 → Type 0
World N = Templates N × Client N

-- `Object.keys(o).length`, as a test
abbrev pub is_empty : Object → Bool
is_empty [] = true
is_empty (p ∷ o) = false

module _ {N : Type 0} (print : N → Text) where
  unfoldable pub get_subscribe_string : Text → Templates N → Text × Templates N
  get_subscribe_string channel t =
      let t' = record t { subscribe_channel = channel } in
      (stringify print (subscribe_object t'), t')

  unfoldable pub get_unsubscribe_string : Text → Templates N → Text × Templates N
  get_unsubscribe_string channel t =
      let t' = record t { unsubscribe_channel = channel } in
      (stringify print (unsubscribe_object t'), t')

  unfoldable pub get_publish_string : Text → Value N → Templates N → Text × Templates N
  get_publish_string channel message t =
      let t' = record t { publish_channel = channel; publish_msg = message } in
      (stringify print (publish_object t'), t')

  -- `for (key in aMap)`: one message for each key.
  unfoldable pub subscribe : Accepts → Object → World N → World N
  unfolding get_subscribe_string
  subscribe a [] w = w
  subscribe a ((key, v) ∷ o) (t, c) =
      let (msg, t') = get_subscribe_string key t in subscribe a o (t', send a msg c)

  unfoldable pub unsubscribe : Accepts → Object → World N → World N
  unfolding get_unsubscribe_string
  unsubscribe a [] w = w
  unsubscribe a ((key, v) ∷ o) (t, c) =
      let (msg, t') = get_unsubscribe_string key t in unsubscribe a o (t', send a msg c)

  -- The returned set is `after`.
  unfoldable pub subscribe_changes : Accepts → Object → Object → World N → Object × World N
  unfolding subscribe unsubscribe
  subscribe_changes a before after w =
      let added = added_to_set before after in
      let removed = removed_from_set before after in
      let w' = if is_empty added then w else subscribe a added w in
      (after, if is_empty removed then w' else unsubscribe a removed w')
