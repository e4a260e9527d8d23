-- ===== src/Tracker.antt =====
-- `QuadSpaces.Tracker` and `QuadSpaces.Level` of WebContent/js/QuadSpacesTracker.js.
pub mod Incoming
pub mod Session
pub mod Update
use general_worldwide_execut.Prelude.{
  ℕ, zero, suc, ◌+◌, ◌*◌, ◌^◌, List, [], ◌∷◌, Option, none, some,
}
use general_worldwide_execut.Prelude.Int.{ℤ, pos, ◌+ℤ◌}
use general_worldwide_execut.Prelude.Text.{Text}
use general_worldwide_execut.Js.Double.{Double}
use general_worldwide_execut.Js.Json.{Value, num}
use general_worldwide_execut.QuadSpaces.{decompose, list_to_string}
use general_worldwide_execut.QuadSpaces.Surrounding.{ChannelSet}
use general_worldwide_execut.Three.{Vector3}

-- `new QuadSpaces.Level(logscale)`: the time and the interval are in milliseconds.
pub record Level : Type 0 where
  pub next_send : ℕ
  pub interval : ℕ
  pub logscale : ℤ
  pub channel : Text
  pub subscribe_spaces : ChannelSet

unfoldable pub new_level : ℤ → Level
new_level logscale = record {
  next_send = 0;
  interval = 1;
  logscale = logscale;
  channel = [];
  subscribe_spaces = [];
}

-- Three coordinates as they were assigned: any values of a message, where `none` is `undefined`.
abbrev pub Slots : Type 0 → Type 0
Slots N = Vector3 (Option (Value N))

-- Three numbers as such values.
abbrev pub numbers : {N : Type 0} → Vector3 N → Slots N
numbers v = record { x = some (num v.x); y = some (num v.y); z = some (num v.z) }

-- An object of the scene with its velocity.
pub record Avatar (N : Type 0) : Type 0 where
  pub place : Slots N
  pub velocity : Slots N

pub record Tracker (N : Type 0) : Type 0 where
  pub user_hash : Text
  pub self_count : ℕ
  pub intervals : List Level
  pub avatars : List (Text × Avatar N)
  -- what was added to the scene, oldest first
  pub scene : List Text

abbrev pub min_level : ℤ
min_level = pos 2

-- The levels below 14: `for (i = this.minLevel; i < this.maxLevel; i += 2)` makes six rounds.
abbrev pub level_count : ℕ
level_count = 6

-- The loop of the constructor, where `interval` doubles in each round.
unfoldable pub make_levels : ℕ → ℤ → ℕ → ℕ → List Level
unfolding new_level
make_levels zero i interval time = []
make_levels (suc n) i interval time =
    record (new_level i) { next_send = time; interval = interval }
    ∷ make_levels n (i +ℤ pos 2) (interval * 2) time

-- `new QuadSpaces.Tracker(socket, scene, userHash)` at a time.
unfoldable pub new_tracker : {N : Type 0} → Text → ℕ → Tracker N
unfolding make_levels
new_tracker user_hash time = record {
  user_hash = user_hash;
  self_count = 0;
  intervals = make_levels level_count min_level 200 time;
  avatars = [];
  scene = [];
}

-- `getId`
unfoldable pub get_id : {N : Type 0} → Tracker N → Text
get_id t = t.user_hash

-- `calcChannelString`; `none` means that a loop ran out of fuel.
unfoldable pub calc_channel_string : (d : Double) → Level → Vector3 d.Num → Option Text
calc_channel_string d level v = elim (decompose d v level.logscale) [
  | none ↦ none
  | some list ↦ some (list_to_string list)
]
