-- ===== src/Lib.antt =====
-- The JavaScript client of the General Worldwide Executing Messaging System: avatars in a shared
-- space tell each other their positions by publishing on channels that are named after cubes.
--
-- The parts, and how they interact:
-- * WebContent/js/QuadSpaces.js names the cubes of sides 2 ^ p that hold a position. `decompose`,
--   `getMinCorner`, `reconstitute`, `listToString` and `listToStringOffset` are in QuadSpaces,
--   `surroundingSpaceNames` is in QuadSpaces/Surrounding, `vector` and the readers of its coordinates
--   in QuadSpaces/Accessors. The other children of QuadSpaces hold the proofs: Axis (one round on one
--   coordinate), Termination, Corner, Sum and RoundTrip, Channel (the level of a channel), Names
--   (what a channel tells of its names) and Cells (which positions share a channel); those of
--   Surrounding follow the nested loops, Exactly to all the names that they find.
-- * WebContent/js/GWEMS.js is the client of the server. `WebSocketClient`, its `start`, `send` and
--   handlers are in Gwems/Client, `addedToSet` and `removedFromSet` in Gwems/Sets, the messages and
--   `subscribe`, `unsubscribe`, `subscribeChanges` in Gwems/Messages. Gwems/Changes states what a
--   server does with these messages, and Gwems/Serving what a list of sent texts asks of it.
-- * WebContent/js/QuadSpacesTracker.js follows the position of the user. `Tracker` and `Level` are in
--   Tracker, `handleIncoming` in Tracker/Incoming, `update` in Tracker/Update, which calls QuadSpaces
--   for the channels and Gwems for the messages; Update/Split tells the sets of channels that it leaves
--   and joins from the levels that move. Tracker/Session puts the tracker on its socket: the
--   events of Gwems/Client reach `handleIncoming` as `handleMessage`, between the calls of `update`.
--   Its children are about whole sessions: Total (they run to their end), Pace, CatchUp and Metered
--   (when the levels publish, and how often; with Counts), Kept and Open (what messages and updates
--   leave as it is), Subscriptions (what the server knows; with Exchange for one move and Spoken for
--   one update), Hearing (the channels of the levels after an update, and who hears whom; with Tuned,
--   Around and Settled), Delivery (from one user's update to the avatar that another sees) and Deaf
--   (what no larger level hears). Keeps and Invariant have the induction on the steps that they
--   share.
-- * WebContent/js/AtwControls.js moves the camera by keys and mouse: Controls/Fly, its `update` in
--   Controls/Fly/Motion, with the jump of the space key in Controls/Fly/Jump.
--   WebContent/js/libs/controls/AtwNoMouseFirstPersonControls.js moves an object that falls:
--   Controls/Walk. The key flags that both share are in Controls/Keys, and the listeners that both
--   install in Controls/Events.
-- * WebContent/js/WootWideChat.js finds and writes #tags: Chat.
-- * WebContent/js/RunningInCircleBot1.js publishes the places of a bot: Bot. Its `VelocityObjects`,
--   the objects that move by their velocity, are in Moving: Moving/Refs has the references of the
--   map, Moving/Consistent the map and the container, Moving/Motion the loop of `update`. Moving/Page is
--   the part of WebContent/Three30.html that drives them by messages and frames.
-- * WebContent/js/SHA256_veness.js, a script that the repository has changed to return bytes: Sha256.
--   Sha256/Fips is the standard on natural numbers, its constants from the roots of primes, Words, Rounds and Padding compare the parts, Digest
--   the whole; HexText is about `toHexStr`. `XXXXUtf8ArrayToStr` of the same file is in Utf8, and
--   `utf8Encode` and `utf8Decode` are in Utf8/Browser.
-- * WebContent/scripts/avatar_proto.js and avatar.js build what an avatar looks like: Avatar.
--   WebContent/js/Axes.js builds six lines: Axes.
-- * WebContent/js/js/atw_stats.js shows durations and rates of frames: Stats.
-- * Js holds what the language gives the scripts: 32-bit words (Js/Word), the bit operators on them
--   (Js/Bitwise, on the patterns of Js/Bits), numbers (Js/Double, with the instance Js/Fixed),
--   `parseInt` and the printing of integers (Js/Numeral), `split` and `trim` (Js/Strings), objects as
--   maps (Js/Object), JSON (Js/Json, and Js/Transfer for what arrives of a value that it carries),
--   coercions and `+` (Js/Coerce), calls that throw (Js/Outcome).
-- * Prelude passes on the library's names and has integers, lists and texts over the native numbers.
--
-- Representation. A method that changes an object is a function from the old to the new state. The
-- socket is the list of the texts that reached it, and the browser's events are a list. An object that
-- serves as a map is a list of its own properties in the order of their creation; a channel name starts
-- with a bracket and is no array index, so this is the order of `for ... in`. A name that every object
-- inherits ("constructor") is taken as absent. A text is the list of its code units. `Date.now()` is an
-- argument, and so are the flag for https and the answers of the socket. An object that several places
-- share, as those of `VelocityObjects`, is a number that stands for its reference. The coordinates of an
-- avatar are any values, since `handleIncoming` stores those of the message as they are. An object in
-- a message has no `toString` of its own, whose call would throw where the object becomes a string.
--
-- Parameters. The numbers are a record `Double` with the laws `IsIeee`, which IEEE doubles have: small
-- integers and their multiples by powers of two are exact. Js/Fixed/Laws proves the laws of fixed-point
-- numbers, on which the tests run. `Three`, `IsThree` and `Object3d` stand for THREE.Vector3,
-- THREE.Object3D and THREE.Math of three.js, `Container` with the laws `IsContainer` for the `add` and
-- `remove` of a THREE.Object3D, `Uri` with the law `IsUri` for `encodeURIComponent` and its siblings;
-- the place that avatarBuilder gives a new avatar is an argument, which is missing while the page has
-- no avatarBuilder; it is there or not for the whole of a session. The sums of Sha256 and the length of
-- its message are integers that doubles hold exactly.
--
-- Bounds and fuel. `decompose` has 17 rounds of fuel: the first leaves a word below 2 ^ 29, each later
-- one divides it by four. A loop over the offsets has 4 tests: three offsets and the one that ends it.
-- The decoder of Utf8 takes at least one byte in each round and has one round more than bytes.
-- The tracker has 6 levels, from 2 to 12. Biases are between -60 and 800 where sums must be exact, and
-- levels between -58 and 900 for the surrounding cubes.
--
-- Not modelled: the log, `focus` and `preventDefault`; `Level.scale` and the channel sets of the tracker
-- that nothing reads; the elements of the panel and their style, and `updateGraph`, which nothing calls;
-- `stop` of the bot and `setPosition` of an avatar, which cannot work and which nothing calls; the other
-- SHA-256 scripts and the copies of libraries (three.js, physijs, ammo, jQuery and others); the rest
-- of the HTML pages; the Java server, its tests and the Python scripts.
pub mod Prelude
pub mod Js
pub mod QuadSpaces
pub mod Controls
pub mod Gwems
pub mod Three
pub mod Tracker
pub mod Chat
pub mod Avatar
pub mod Axes
pub mod Bot
pub mod Moving
pub mod Stats
pub mod Sha256
pub mod Utf8
mod Tests
