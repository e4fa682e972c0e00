-- ===== src/Core/Routing.antt =====
-- elfo-core/src/routers/mod.rs: which actors of a group get a message. Keys are numbers; what a user's
-- router answers is an argument of the code that asks it.
use elfo.Base.{List, map}

pub data Outcome (T : Type 0) : Type 0 where
  unicast : T → Outcome T
  gentle_unicast : T → Outcome T
  multicast : List T → Outcome T
  gentle_multicast : List T → Outcome T
  broadcast : Outcome T
  discard : Outcome T
  default : Outcome T

-- `Outcome::map` and `Outcome::or`.
unfoldable pub map_outcome : {T U : Type 0} → (T → U) → Outcome T → Outcome U
map_outcome f (unicast key) = unicast (f key)
map_outcome f (gentle_unicast key) = gentle_unicast (f key)
map_outcome f (multicast keys) = multicast (map f keys)
map_outcome f (gentle_multicast keys) = gentle_multicast (map f keys)
map_outcome f broadcast = broadcast
map_outcome f discard = discard
map_outcome f default = default

unfoldable pub or_outcome : {T : Type 0} → Outcome T → Outcome T → Outcome T
or_outcome default outcome = outcome
or_outcome (unicast key) outcome = unicast key
or_outcome (gentle_unicast key) outcome = gentle_unicast key
or_outcome (multicast keys) outcome = multicast keys
or_outcome (gentle_multicast keys) outcome = gentle_multicast keys
or_outcome broadcast outcome = broadcast
or_outcome discard outcome = discard
