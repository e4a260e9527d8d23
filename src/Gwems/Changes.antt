-- ===== src/Gwems/Changes.antt =====
-- `GWEMS.subscribeChanges` against what a server does with its messages.
use general_worldwide_execut.Prelude.{
  List, [], ◌∷◌, ◌++◌, map, Bool, true, false, not, ◌&&◌, ◌||◌, Option, none, some, ◌≡◌, refl, ap,
  sym, ◌∙◌, arith, if◌then◌else◌, append_assoc, append-nil,
}
use mathlib.Core.List.{map-append}
use general_worldwide_execut.Prelude.Text.{Text, eqb_text}
use general_worldwide_execut.Js.Json.{Members, object, stringify}
use general_worldwide_execut.Js.Object.{get, keys}
use general_worldwide_execut.Gwems.Client.{Client, accepts, send}
use general_worldwide_execut.Gwems.Messages.{
  Templates, World, templates, subscribe_object, unsubscribe_object, subscribe, unsubscribe,
  subscribe_changes, is_empty,
}
use general_worldwide_execut.Gwems.Sets.{Object, added_to_set, removed_from_set, truthy}
use general_worldwide_execut.Gwems.Sets.Laws.{has, IsObject, get-added_to_set}

-- What a message asks of the server.
pub data Command : Type 0 where
  join : Text → Command
  leave : Text → Command

-- The channels of a session after a list of commands, in order.
abbrev pub serve : List Command → (Text → Bool) → Text → Bool
serve [] s k = s k
serve (join c ∷ l) s k = serve l (λ j. eqb_text c j || s j) k
serve (leave c ∷ l) s k = serve l (λ j. not (eqb_text c j) && s j) k

-- The commands that turn the set `before` into the set `after`.
abbrev pub commands : Object → Object → List Command
commands before after =
    map join (keys (added_to_set before after)) ++ map leave (keys (removed_from_set before after))

module _ {N : Type 0} (print : N → Text) where
  -- The text of a command.
  abbrev pub command_text : Command → Text
  command_text (join c) =
      stringify print (subscribe_object (record templates { subscribe_channel = c }))
  command_text (leave c) =
      stringify print (unsubscribe_object (record templates { unsubscribe_channel = c }))

  send-object :
      (m : Members N) (c : Client N)
      → (send accepts (stringify print (object m)) c).sent
        ≡ c.sent ++ stringify print (object m) ∷ []
  unfolding send stringify
  send-object m c = refl

  pub subscribe-sent :
      (o : Object) (t : Templates N) (c : Client N)
      → (subscribe print accepts o (t, c)).1.sent ≡ c.sent ++ map command_text (map join (keys o))
  unfolding subscribe keys
  subscribe-sent [] t c = sym (append-nil c.sent)
  subscribe-sent ((k, v) ∷ o) t c =
      let rest = map command_text (map join (keys o)) in
      subscribe-sent o _ _
      ∙ ap (λ l. l ++ rest) (send-object _ c)
      ∙ append_assoc c.sent (command_text (join k) ∷ []) rest

  pub unsubscribe-sent :
      (o : Object) (t : Templates N) (c : Client N)
      → (unsubscribe print accepts o (t, c)).1.sent
        ≡ c.sent ++ map command_text (map leave (keys o))
  unfolding unsubscribe keys
  unsubscribe-sent [] t c = sym (append-nil c.sent)
  unsubscribe-sent ((k, v) ∷ o) t c =
      let rest = map command_text (map leave (keys o)) in
      unsubscribe-sent o _ _
      ∙ ap (λ l. l ++ rest) (send-object _ c)
      ∙ append_assoc c.sent (command_text (leave k) ∷ []) rest

  -- The test of the length only spares an empty loop.
  subscribe-spared :
      (o : Object) (w : World N)
      → (if is_empty o then w else subscribe print accepts o w) ≡ subscribe print accepts o w
  unfolding subscribe
  subscribe-spared [] w = refl
  subscribe-spared (p ∷ o) w = refl

  unsubscribe-spared :
      (o : Object) (w : World N)
      → (if is_empty o then w else unsubscribe print accepts o w) ≡ unsubscribe print accepts o w
  unfolding unsubscribe
  unsubscribe-spared [] w = refl
  unsubscribe-spared (p ∷ o) w = refl

  changes-sent :
      (before after : Object) (w : World N)
      → (subscribe_changes print accepts before after w).1.1.sent
        ≡ w.1.sent ++ map command_text (commands before after)
  unfolding subscribe_changes
  changes-sent before after (t, c) =
      let added = added_to_set before after in
      let removed = removed_from_set before after in
      let w = subscribe print accepts added (t, c) in
      rw (subscribe-spared added (t, c), unsubscribe-spared removed w)
        (unsubscribe-sent removed w.0 w.1
          ∙ ap (λ l. l ++ map command_text (map leave (keys removed))) (subscribe-sent added t c)
          ∙ append_assoc c.sent _ _
          ∙ ap (λ l. c.sent ++ l)
              (sym (map-append command_text (map join (keys added)) (map leave (keys removed)))))

-- Commands one after the other.
pub serve-append :
    (l m : List Command) (s : Text → Bool) (k : Text) → serve (l ++ m) s k ≡ serve m (serve l s) k
serve-append [] m s k = refl
serve-append (join c ∷ l) m s k = serve-append l m _ k
serve-append (leave c ∷ l) m s k = serve-append l m _ k

pub serve-join :
    (o : Object) (s : Text → Bool) (k : Text) → serve (map join (keys o)) s k ≡ (has o k || s k)
unfolding keys has
serve-join [] s k = refl
serve-join ((j, v) ∷ o) s k = ground (arith, serve-join o (λ i. eqb_text j i || s i) k)

pub serve-leave :
    (o : Object) (s : Text → Bool) (k : Text)
    → serve (map leave (keys o)) s k ≡ (not (has o k) && s k)
unfolding keys has
serve-leave [] s k = refl
serve-leave ((j, v) ∷ o) s k = ground (arith, serve-leave o (λ i. not (eqb_text j i) && s i) k)

-- Sets as the program makes them: no value is the empty string.
abbrev pub IsFilled : Object → Type 0
IsFilled [] = Unit
IsFilled ((k, v) ∷ o) = (truthy (some v) ≡ true) × IsFilled o

truthy-get : (o : Object) (k : Text) → IsFilled o → truthy (get o k) ≡ has o k
unfolding get has truthy
truthy-get [] k h = refl
truthy-get ((j, v) ∷ o) k (t, h) = ground (arith, truthy-get o k h)

abbrev is_some : Option Text → Bool
is_some none = false
is_some (some v) = true

has-get : (o : Object) (k : Text) → has o k ≡ is_some (get o k)
unfolding get has
has-get [] k = refl
has-get ((j, v) ∷ o) k = ground (arith, has-get o k)

has-added_to_set :
    (before after : Object) (k : Text)
    → IsObject after
    → IsFilled after
    → has (added_to_set before after) k ≡ (not (has before k) && has after k)
has-added_to_set before after k h f = ground (
  arith,
  has-get (added_to_set before after) k,
  get-added_to_set before after k h,
  truthy-get after k f,
)

serve-commands :
    (before after : Object) (k : Text)
    → IsObject before
    → IsFilled before
    → IsObject after
    → IsFilled after
    → serve (commands before after) (has before) k ≡ has after k
unfolding removed_from_set
serve-commands before after k hb fb ha fa = ground (
  arith,
  serve-append (map join (keys (added_to_set before after)))
      (map leave (keys (removed_from_set before after))) (has before) k,
  serve-leave (removed_from_set before after)
      (serve (map join (keys (added_to_set before after))) (has before)) k,
  serve-join (added_to_set before after) (has before) k,
  has-added_to_set before after k ha fa,
  has-added_to_set after before k hb fb,
)

module _ {N : Type 0} (print : N → Text) where
  -- On an open socket, for sets whose values are not empty, `subscribeChanges` returns `after` and
  -- sends the texts of the commands that join the added and then leave the removed channels; a
  -- server that obeys them turns the channels of `before` into those of `after`.
  pub subscribe_changes_lem :
      (before after : Object) (w : World N)
      → IsObject before
      → IsFilled before
      → IsObject after
      → IsFilled after
      → ((subscribe_changes print accepts before after w).0 ≡ after)
        × ((subscribe_changes print accepts before after w).1.1.sent
            ≡ w.1.sent ++ map (command_text print) (commands before after))
        × ((k : Text) → serve (commands before after) (has before) k ≡ has after k)
  subscribe_changes_lem before after w hb fb ha fa = (
    unfold subscribe_changes in refl,
    changes-sent print before after w,
    λ k. serve-commands before after k hb fb ha fa,
  )
