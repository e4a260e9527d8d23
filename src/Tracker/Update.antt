-- ===== src/Tracker/Update.antt =====
-- `Tracker.update`: moving the avatars, following the position with subscriptions, and publishing.
pub mod Schedule
pub mod Follow
pub mod Split
pub mod Sends
use general_worldwide_execut.Prelude.{
  ℕ, ◌+◌, zero, suc, Bool, true, false, ◌&&◌, not, List, [], ◌∷◌, ◌++◌, Option, none, some, ltb,
  length, if◌then◌else◌,
}
use general_worldwide_execut.Prelude.Int.{ℤ, pos, ◌+ℤ◌}
use general_worldwide_execut.Prelude.Text.{Text, codes, eqb_text}
use general_worldwide_execut.Gwems.Client.{Client, Accepts, send}
use general_worldwide_execut.Gwems.Messages.{
  Templates, World, get_publish_string, subscribe, unsubscribe,
}
use general_worldwide_execut.Js.Coerce.{plus, to_number}
use general_worldwide_execut.Js.Double.{Double}
use general_worldwide_execut.Js.Json.{Value, num, text, array, object, nil, cons, end, member}
use general_worldwide_execut.Js.Numeral.{print_int}
use general_worldwide_execut.Js.Object.{put}
use general_worldwide_execut.Js.Transfer.{is_finite}
use general_worldwide_execut.QuadSpaces.{decompose, list_to_string}
use general_worldwide_execut.QuadSpaces.Surrounding.{ChannelSet, ◌>>=◌, surrounding_space_names}
use general_worldwide_execut.Three.{Vector3}
use general_worldwide_execut.Tracker.{Tracker, Level, Avatar, min_level}

-- `for (key in from) into[key] = from[key];`
unfoldable pub put_all : ChannelSet → ChannelSet → ChannelSet
put_all into [] = into
put_all into ((k, v) ∷ from) = put_all (put into k v) from

-- The channel that a level publishes on. `listToString(lodlist, i)` ignores its second argument.
unfoldable pub level_channel : Level → ℕ → List Text → Text
level_channel level i lodlist =
    if ltb i (length lodlist)
    then list_to_string lodlist
    else codes "[0_0_0_" ++ (print_int level.logscale ++ codes "]")

-- The levels, the channels to leave and the channels to join.
abbrev pub Moved : Type 0
Moved = List Level × ChannelSet × ChannelSet

abbrev pub moved_on : Level → Moved → Moved
moved_on level (levels, unsubs, subs) = (level ∷ levels, unsubs, subs)

module _ (d : Double) where
  open d use {Num, mul}

  -- One avatar after `delta` seconds.
  unfoldable pub drift : Num → Avatar Num → Avatar Num
  unfolding plus to_number
  drift delta a =
      let p = a.place in
      let v = a.velocity in
      record a {
        place = record {
          x = plus d p.x (mul (to_number d v.x) delta);
          y = plus d p.y (mul (to_number d v.y) delta);
          z = plus d p.z (mul (to_number d v.z) delta);
        };
      }

  unfoldable pub move_avatars : Num → List (Text × Avatar Num) → List (Text × Avatar Num)
  unfolding drift
  move_avatars delta [] = []
  move_avatars delta ((id, a) ∷ l) = (id, drift delta a) ∷ move_avatars delta l

  -- The loop that finds the levels whose channel has changed; the first one that has not ends it.
  unfoldable pub refresh :
      Vector3 Num → List Text → List Level → ℕ → ChannelSet → ChannelSet → Option Moved
  unfolding level_channel put_all
  refresh position lodlist [] i unsubs subs = some ([], unsubs, subs)
  refresh position lodlist (level ∷ levels) i unsubs subs =
      let str = level_channel level i lodlist in
      elim (eqb_text level.channel str) [
        | true ↦ some (level ∷ levels, unsubs, subs)
        | false ↦ do
          found ← surrounding_space_names d position level.logscale (level.logscale +ℤ pos 1)
          rest ←
              refresh position lodlist levels (i + 1) (put_all unsubs level.subscribe_spaces)
                (put_all subs found)
          some (moved_on (record level { channel = str; subscribe_spaces = found }) rest)
      ]

  -- A number as JSON: what is not finite is written `null`.
  unfoldable pub json_number : Num → Text
  unfolding is_finite
  json_number n = if is_finite d n then d.to_text n else codes "null"

  abbrev pub triple : Vector3 Num → Value Num
  triple v = array (cons (num v.x) (cons (num v.y) (cons (num v.z) nil)))

  -- `makeMessage(p, v, id)`
  unfoldable pub make_message : Vector3 Num → Vector3 Num → Text → Value Num
  make_message p v id = object (
      member (codes "p") (triple p)
        (member (codes "v") (triple v) (member (codes "id") (text id) end)))

  -- The loop that publishes on every level whose time has come.
  unfoldable pub publish_due :
      Accepts
      → ℕ
      → Vector3 Num
      → Vector3 Num
      → Text
      → List Level
      → World Num
      → List Level × World Num
  unfolding make_message json_number get_publish_string send
  publish_due a time p v id [] w = ([], w)
  publish_due a time p v id (level ∷ levels) (t, c) =
      let due = ltb level.next_send time in
      let (pubstr, t') = get_publish_string json_number level.channel (make_message p v id) t in
      let level' =
        if due then record level { next_send = level.next_send + level.interval } else level in
      let (levels', w') =
        publish_due a time p v id levels (if due then (t', send a pubstr c) else (t, c)) in
      (level' ∷ levels', w')

  -- What follows the test of the connection.
  unfoldable pub update_open :
      Accepts
      → ℕ
      → Vector3 Num
      → Vector3 Num
      → Num
      → Tracker Num
      → World Num
      → Option (Tracker Num × World Num)
  unfolding refresh move_avatars publish_due
  update_open a time position velocity delta t w = do
    lodlist ← decompose d position min_level
    moved ← refresh position lodlist t.intervals 0 [] []
    let (levels, unsubs, subs) = moved
    let w1 = unsubscribe json_number a unsubs w
    let w2 = subscribe json_number a subs w1
    let (levels', w3) = publish_due a time position velocity t.user_hash levels w2
    some (record t { intervals = levels'; avatars = move_avatars delta t.avatars }, w3)

  -- `update(position, velocity, delta)` at a time; `none` means that a loop ran out of fuel.
  unfoldable pub update :
      Accepts
      → ℕ
      → Vector3 Num
      → Vector3 Num
      → Num
      → Tracker Num
      → World Num
      → Option (Tracker Num × World Num)
  unfolding update_open
  update a time position velocity delta t w =
      if w.1.is_open then update_open a time position velocity delta t w else some (t, w)
