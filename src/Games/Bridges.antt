-- ===== src/Games/Bridges.antt =====
-- The bridges of games/registry.mjs: which one takes a client's message or owns a client, by the rules
-- `shouldRoute` of games/<id>/server/<id>.game.mjs. An instance is what it answers from: the codes of its
-- rooms, and the clients who wait for it or play in it.
use factory_network_server.Prelude.{
  Bool, true, false, Option, none, some, List, [], ◌∷◌, ◌>>=◌, ◌||◌, ◌&&◌, not, any, if◌then◌else◌,
  contains, or_else, ◌==◌, ◌++◌,
}
use factory_network_server.Prelude.Texts.{Text, codes, Text_eq}
use factory_network_server.Js.Values.{Json, object, Fields, get_field}
use factory_network_server.Js.Strings.{trim, to_upper}
use factory_network_server.Js.Convert.{Host}
use factory_network_server.State.{Server}
use factory_network_server.Transport.{is_taken, first_free, with_code}
use factory_network_server.Lobby.Creating.{Ending, thrown}
use factory_network_server.Lobby.Joining.{text_or_empty}
use factory_network_server.Games.Definitions.{
  starts_with, Route, by_session, by_orbit, by_prefix, Definition,
}

pub record Instance : Type 0 where
  pub room_codes : List Text
  pub clients : List Text

pub record Entry : Type 0 where
  pub id : Text
  pub route : Route
  pub instance : Instance

-- `hasRoomCode`
unfoldable pub has_room_code : Route → Text → Instance → Bool
has_room_code (by_session own) code i = contains code i.room_codes
has_room_code by_orbit code i = contains (to_upper (trim code)) i.room_codes
has_room_code (by_prefix p) code i = false

-- `ownsClient`
abbrev pub owns_client : Text → Instance → Bool
owns_client client i = contains client i.clients

abbrev is_blank : Text → Bool
is_blank [] = true
is_blank (c ∷ s) = false

abbrev pub owned_types : List Text
owned_types = codes "cancel_match" ∷ codes "room_message" ∷ codes "leave_room" ∷ []

module _ (host : Host) (frame : Fields) where
  -- `String(data?.key || "")`
  abbrev pub field_text : Text → Option Text
  field_text key = text_or_empty host (get_field key frame)

  -- The code of a message that names another game.
  unfoldable pub session_code : Instance → Option Bool
  session_code i = do
    typed ← field_text (codes "roomCode")
    some (not (is_blank (to_upper (trim typed))) && contains (to_upper (trim typed)) i.room_codes)

  unfoldable pub orbit_code : Instance → Option Bool
  unfolding has_room_code
  orbit_code i = do typed ← field_text (codes "roomCode"); some (has_room_code by_orbit typed i)

module _ (host : Host) (client : Text) (frame : Fields) where
  unfoldable pub route_session : Text → Text → Text → Instance → Option Bool
  unfolding session_code
  route_session own type game i =
      if contains type (codes "find_match" ∷ codes "queue_status" ∷ codes "create_room" ∷ [])
      then some (game == own)
      else (if type == codes "join_room"
          then (if game == own then some true else session_code host frame i)
          else some (contains type owned_types && owns_client client i))

  unfoldable pub route_orbit : Text → Text → Instance → Option Bool
  unfolding orbit_code
  route_orbit type game i =
      if contains type (codes "find_match" ∷ codes "create_room" ∷ [])
      then some (game == codes "orbit-pong")
      else (if type == codes "join_room"
          then (if game == codes "orbit-pong" then some true else orbit_code host frame i)
          else some (contains type owned_types && owns_client client i))

  -- `none` where a conversion to a string throws.
  unfoldable pub should_route : Route → Instance → Option Bool
  unfolding route_session route_orbit
  should_route (by_session own) i = do
    type ← field_text host frame (codes "type")
    game ← field_text host frame (codes "gameId")
    route_session own type game i
  should_route by_orbit i = do
    type ← field_text host frame (codes "type")
    game ← field_text host frame (codes "gameId")
    route_orbit type game i
  should_route (by_prefix p) i = do
    type ← field_text host frame (codes "type")
    some (starts_with p type)

  -- The first entry that should take the message, if any.
  unfoldable pub route_to_bridge : List Entry → Option (Option Entry)
  unfolding should_route
  route_to_bridge [] = some none
  route_to_bridge (e ∷ es) =
      let rest = route_to_bridge es in
      elim (should_route e.route e.instance) [
        | none ↦ none
        | some takes ↦ if takes then some (some e) else rest
      ]

unfoldable pub bridge_owning_client : Text → List Entry → Option Entry
bridge_owning_client client [] = none
bridge_owning_client client (e ∷ es) =
    let rest = bridge_owning_client client es in
    if owns_client client e.instance then some e else rest

abbrev entry_of : Option Text → Option Route → (Text → Instance) → List Entry
entry_of id none instance_of = []
entry_of id (some route) instance_of =
    record { id = or_else id []; route = route; instance = instance_of (or_else id []) } ∷ []

-- The definitions with a bridge, in their order, each with its instance.
unfoldable pub ensure_bridges : {G : Type 0} → (Text → Instance) → List (Definition G) → List Entry
ensure_bridges instance_of [] = []
ensure_bridges instance_of (d ∷ ds) =
    entry_of d.id d.bridge instance_of ++ ensure_bridges instance_of ds

module _ {G : Type 0} where
  -- Whether a code names a room, a lobby or a room of a bridge.
  unfoldable pub is_taken_anywhere : List Entry → Text → Server G → Bool
  unfolding is_taken has_room_code
  is_taken_anywhere es code s =
      is_taken code s || any (λ (e : Entry). has_room_code e.route code e.instance) es

  -- The loop of `createRoomCode` over the codes to be drawn.
  unfoldable pub create_room_code : List Entry → Server G → Option (Text × Server G)
  unfolding is_taken_anywhere with_code
  create_room_code es s = with_code s (first_free (λ code. is_taken_anywhere es code s) s.draws)

  abbrev pub taken_by :
      (Entry → Server G → Ending × Server G)
      → Option (Option Entry)
      → Option (Server G → Ending × Server G)
  taken_by handle none = some (λ s. (thrown, s))
  taken_by handle (some none) = none
  taken_by handle (some (some e)) = some (handle e)

  -- What the dispatch of src/router.mjs asks: who takes the message. `handle` is the bridge's handler; a
  -- throw of the question is one of the dispatch.
  unfoldable pub bridge_for :
      Host
      → Text
      → List Entry
      → (Json → Entry → Server G → Ending × Server G)
      → Json
      → Option (Server G → Ending × Server G)
  bridge_for host client es handle (object frame) =
      taken_by (handle (object frame)) (route_to_bridge host client frame es)
  bridge_for host client es handle json = none

-- `tickBridgeInstances`: the ids of those that throw, and what all leave. A tick says whether it throws
-- beside what it leaves.
unfoldable pub tick_bridge_instances :
    {W : Type 0} → List (Option Text × (W → Bool × W)) → W → List Text × W
tick_bridge_instances [] w = ([], w)
tick_bridge_instances ((id, tick) ∷ rest) w =
    let (throws, after) = tick w in
    let (errors, last) = tick_bridge_instances rest after in
    (if throws then or_else id (codes "game") ∷ errors else errors, last)
