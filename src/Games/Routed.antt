-- ===== src/Games/Routed.antt =====
-- Which bridge of games/registry.mjs takes a message.
use factory_network_server.Prelude.{
  ◌≡◌, refl, ◌∙◌, Bool, false, Option, none, some, List, [], ◌∷◌, arith, ◌⊎◌, inl, inr, contains,
  if◌then◌else◌, ◌==◌, eq_comm,
}
use factory_network_server.Prelude.Texts.{Text, codes, Text_eq, text_eq}
use factory_network_server.Js.Values.{Fields}
use factory_network_server.Js.Convert.{Host}
use factory_network_server.Games.{LobbyGame}
use factory_network_server.Games.Definitions.{
  starts_with, Route, by_session, by_orbit, by_prefix, all_definitions, in_lobby, owned, relayed,
}
use factory_network_server.Games.Bridges.{
  Instance, Entry, field_text, route_session, route_orbit, should_route, route_to_bridge,
  ensure_bridges, owned_types,
}

-- The games whose bridge takes messages that open a room or look for a match.
abbrev pub session_games : List Text
session_games = codes "circuit-siege" ∷ codes "speed-demon" ∷ codes "orbit-pong" ∷ []

abbrev pub id_of : Option Entry → Option Text
id_of none = none
id_of (some e) = some e.id

-- The types of the messages that the bridges without a prefix can take.
abbrev pub session_types : List Text
session_types =
    codes "find_match"
    ∷ codes "queue_status"
    ∷ codes "create_room"
    ∷ codes "join_room"
    ∷ owned_types

abbrev entry_at : (Text → Instance) → Text → Route → Entry
entry_at instance_of id route = record { id = id; route = route; instance = instance_of id }

abbrev five_bridges : (Text → Instance) → List Entry
five_bridges instance_of =
    entry_at instance_of (codes "circuit-siege") (by_session (codes "circuit-siege"))
    ∷ entry_at instance_of (codes "speed-demon") (by_session (codes "speed-demon"))
    ∷ entry_at instance_of (codes "arcade-room") (by_prefix (codes "arcade_room_"))
    ∷ entry_at instance_of (codes "orbit-pong") by_orbit
    ∷ entry_at instance_of (codes "farm-downs") (by_prefix (codes "downs_race_"))
    ∷ []

bridges-five :
    {G : Type 0} (module_of : Text → LobbyGame G) (instance_of : Text → Instance)
    → ensure_bridges instance_of (all_definitions module_of) ≡ five_bridges instance_of
unfolding ensure_bridges all_definitions in_lobby owned relayed
bridges-five module_of instance_of = refl

-- What each rule answers to a message that looks for a match or opens a room.
abbrev opening_answer : Text → Text → Route → Bool
opening_answer type game (by_session own) = game == own
opening_answer type game by_orbit = game == codes "orbit-pong"
opening_answer type game (by_prefix p) = starts_with p type

-- What each rule answers to a message of a type that no session has.
abbrev other_answer : Text → Route → Bool
other_answer type (by_prefix p) = starts_with p type
other_answer type _ = false

-- The first entry whose rule answers yes.
abbrev first_entry : (Route → Bool) → List Entry → Option Entry
first_entry answer [] = none
first_entry answer (e ∷ es) =
    let rest = first_entry answer es in if answer e.route then some e else rest

abbrev IsOpening : Text → Type 0
IsOpening type = (type ≡ codes "find_match") ⊎ (type ≡ codes "create_room")

module _ (host : Host) (client : Text) (frame : Fields) (type game : Text)
    (typed : field_text host frame (codes "type") ≡ some type)
    (named : field_text host frame (codes "gameId") ≡ some game) where
  opening-answer :
      IsOpening type
      → (route : Route) (i : Instance)
      → should_route host client frame route i ≡ some (opening_answer type game route)
  unfolding should_route route_session route_orbit contains text_eq
  opening-answer (inl t) (by_session own) i = rw (typed, named, t) refl
  opening-answer (inr t) (by_session own) i = rw (typed, named, t) refl
  opening-answer (inl t) by_orbit i = rw (typed, named, t) refl
  opening-answer (inr t) by_orbit i = rw (typed, named, t) refl
  opening-answer t (by_prefix p) i = rw typed refl

  other-answer :
      contains type session_types ≡ false
      → (route : Route) (i : Instance)
      → should_route host client frame route i ≡ some (other_answer type route)
  unfolding should_route route_session route_orbit contains
  other-answer h (by_session own) i =
      rw (typed, named) (ground (arith, eq_comm type (codes "join_room")))
  other-answer h by_orbit i = rw (typed, named) (ground (arith, eq_comm type (codes "join_room")))
  other-answer h (by_prefix p) i = rw typed refl

module _ (host : Host) (client : Text) (frame : Fields) (answer : Route → Bool)
    (answered : (route : Route) (i : Instance)
      → should_route host client frame route i ≡ some (answer route)) where
  route_to_bridge-answer :
      (es : List Entry) → route_to_bridge host client frame es ≡ some (first_entry answer es)
  unfolding route_to_bridge
  route_to_bridge-answer [] = refl
  route_to_bridge-answer (e ∷ es) =
      ground (arith, answered e.route e.instance, route_to_bridge-answer es)

opening-no_prefix :
    (type : Text)
    → IsOpening type
    → (starts_with (codes "arcade_room_") type ≡ false)
      × (starts_with (codes "downs_race_") type ≡ false)
unfolding starts_with
opening-no_prefix type (inl t) = rw t (refl, refl)
opening-no_prefix type (inr t) = rw t (refl, refl)

opening-id :
    (type game : Text) (instance_of : Text → Instance)
    → IsOpening type
    → id_of (first_entry (opening_answer type game) (five_bridges instance_of))
      ≡ (if contains game session_games then some game else none)
unfolding contains
opening-id type game instance_of t = ground (
  arith,
  opening-no_prefix type t,
  Text_eq.test_iff game (codes "circuit-siege"),
  Text_eq.test_iff game (codes "speed-demon"),
  Text_eq.test_iff game (codes "orbit-pong"),
  Text_eq.test_iff (codes "circuit-siege") game,
  Text_eq.test_iff (codes "speed-demon") game,
  Text_eq.test_iff (codes "orbit-pong") game,
)

-- A message that looks for a match or opens a room is taken by the bridge of the game that it
-- names, and by none where that game is not circuit-siege, speed-demon or orbit-pong, whatever the
-- bridges hold and whoever sends it.
pub opening-route_to_bridge :
    {G : Type 0} (module_of : Text → LobbyGame G) (instance_of : Text → Instance) (host : Host)
    (client : Text) (frame : Fields) (type game : Text)
    → field_text host frame (codes "type") ≡ some type
    → field_text host frame (codes "gameId") ≡ some game
    → (type ≡ codes "find_match") ⊎ (type ≡ codes "create_room")
    → (o : Option Entry) × (route_to_bridge host client frame
          (ensure_bridges instance_of (all_definitions module_of))
        ≡ some o)
      × (id_of o ≡ (if contains game session_games then some game else none))
opening-route_to_bridge module_of instance_of host client frame type game typed named t =
    let answer = opening_answer type game in
    let five = five_bridges instance_of in
    rw (bridges-five module_of instance_of) (
      first_entry answer five,
      route_to_bridge-answer host client frame answer
          (opening-answer host client frame type game typed named t) five,
      opening-id type game instance_of t,
    )

-- A message whose type is none of the sessions' seven and begins with neither prefix is taken by no
-- bridge of the registry, whatever the bridges hold and whoever sends it.
pub other-route_to_bridge :
    {G : Type 0} (module_of : Text → LobbyGame G) (instance_of : Text → Instance) (host : Host)
    (client : Text) (frame : Fields) (type game : Text)
    → field_text host frame (codes "type") ≡ some type
    → field_text host frame (codes "gameId") ≡ some game
    → contains type session_types ≡ false
    → starts_with (codes "arcade_room_") type ≡ false
    → starts_with (codes "downs_race_") type ≡ false
    → route_to_bridge host client frame (ensure_bridges instance_of (all_definitions module_of))
      ≡ some none
other-route_to_bridge module_of instance_of host client frame type game typed named h a d =
    let answer = other_answer type in
    let five = five_bridges instance_of in
    rw (bridges-five module_of instance_of) (
      route_to_bridge-answer host client frame answer
        (other-answer host client frame type game typed named h) five
      ∙ rw (a, d) refl)
