-- ===== src/Tracker/Incoming.antt =====
-- `Tracker.handleIncoming`: the messages about other avatars.
pub mod Laws
pub mod RoundTrip
use general_worldwide_execut.Prelude.{
  ℕ, ◌+◌, zero, suc, Bool, true, false, List, [], ◌∷◌, ◌++◌, Option, none, some, if◌then◌else◌,
}
use general_worldwide_execut.Prelude.Int.{pos}
use general_worldwide_execut.Prelude.Text.{Text, codes}
use general_worldwide_execut.Js.Coerce.{to_string, equals_text, truthy}
use general_worldwide_execut.Js.Double.{Double}
use general_worldwide_execut.Js.Json.{
  Value, null, bool, num, text, array, object, Items, nil, cons, Members, end, member, member_of,
}
use general_worldwide_execut.Js.Numeral.{print_ℕ}
use general_worldwide_execut.Js.Object.{get, put}
use general_worldwide_execut.Three.{Vector3}
use general_worldwide_execut.Tracker.{Tracker, Avatar, Slots, numbers}

unfoldable pub item_of : {N : Type 0} → Items N → ℕ → Option (Value N)
item_of nil i = none
item_of (cons v l) zero = some v
item_of (cons v l) (suc i) = item_of l i

-- A property of a parsed value that is not `null`; only objects have any that is read.
unfoldable pub property : {N : Type 0} → Value N → Text → Option (Value N)
property null k = none
property (bool b) k = none
property (num n) k = none
property (text s) k = none
property (array l) k = none
property (object m) k = member_of m k

-- The character of a string at an index.
unfoldable pub char_of : {N : Type 0} → Text → ℕ → Option (Value N)
char_of [] i = none
char_of (c ∷ s) zero = some (text (c ∷ []))
char_of (c ∷ s) (suc i) = char_of s i

-- `p[0]`, `p[1]` and `p[2]`, as they are assigned; `none` means that `p` is `undefined` or `null` and
-- the read throws.
unfoldable pub coordinates : {N : Type 0} → Option (Value N) → Option (Slots N)
unfolding char_of item_of
coordinates none = none
coordinates (some null) = none
coordinates (some (array l)) = some (record { x = item_of l 0; y = item_of l 1; z = item_of l 2 })
coordinates (some (object m)) = some (record {
  x = member_of m (codes "0");
  y = member_of m (codes "1");
  z = member_of m (codes "2");
})
coordinates (some (text s)) = some (record { x = char_of s 0; y = char_of s 1; z = char_of s 2 })
coordinates (some (bool b)) = some (record { x = none; y = none; z = none })
coordinates (some (num n)) = some (record { x = none; y = none; z = none })

module _ (d : Double) where
  open d use {Num, of_int}

  abbrev pub origin : Vector3 Num
  origin = record { x = of_int (pos 0); y = of_int (pos 0); z = of_int (pos 0) }

  -- The tracker after a call, and whether the call threw.
  abbrev pub Handled : Type 0
  Handled = Tracker Num × Bool

  -- `var theObject = this.avatars[payload.id]`, built and registered if there is none. `built` is
  -- the place that `avatarBuilder.build` gives an object, and `none` while there is no
  -- `avatarBuilder`: then the call throws, as the `none` of the result says.
  unfoldable pub registered :
      Option (Vector3 Num) → Text → Tracker Num → Option (Avatar Num × Tracker Num)
  registered built id t = elim (get t.avatars id) [
    | some a ↦ some (a, t)
    | none ↦ elim built [
      | none ↦ none
      | some place ↦
          let a : Avatar Num = record { place = numbers place; velocity = numbers origin } in
          some (a, record t { avatars = put t.avatars id a; scene = t.scene ++ id ∷ [] })
    ]
  ]

  -- The six assignments from `payload.p` and `payload.v`.
  unfoldable pub assign :
      Text → Option (Value Num) → Option (Value Num) → Avatar Num → Tracker Num → Handled
  unfolding coordinates
  assign id p v a t = elim (coordinates p) [
    | none ↦ (t, true)
    | some place ↦
        let a' : Avatar Num = record a { place = place } in
        elim (coordinates v) [
          | none ↦ (record t { avatars = put t.avatars id a' }, true)
          | some velocity ↦
              (record t { avatars = put t.avatars id (record a' { velocity = velocity }) }, false)
        ]
  ]

  unfoldable pub handle_payload :
      Option (Vector3 Num) → Value Num → Value Num → Tracker Num → Handled
  unfolding registered assign
  handle_payload built payload id t =
      if equals_text d id t.user_hash
      then (record t { self_count = t.self_count + 1 }, false)
      else elim (registered built (to_string d id) t) [
        | none ↦ (t, true)
        | some (a, t') ↦
            assign (to_string d id) (property payload (codes "p")) (property payload (codes "v")) a
              t'
      ]

  -- A message with a property `@`, and one with no `id` that counts as true, is ignored; so is
  -- `null`, whose error is caught.
  unfoldable pub handle_incoming : Option (Vector3 Num) → Value Num → Tracker Num → Handled
  unfolding handle_payload
  handle_incoming built payload t =
      if truthy d (property payload (codes "@"))
      then (t, false)
      else elim (property payload (codes "id")) [
        | none ↦ (t, false)
        | some id ↦ if truthy d (some id) then handle_payload built payload id t else (t, false)
      ]
