-- ===== src/Tests/Bridges.antt =====
-- The registry of the games and its bridges.
use factory_network_server.Prelude.{
  ℕ, ◌≡◌, ◌≢◌, refl, Option, none, some, List, [], ◌∷◌, inl, if◌then◌else◌, contains,
}
use factory_network_server.Prelude.Texts.{Text, codes, Text_eq, text_eq}
use factory_network_server.Js.Values.{Json, Items, text, object, Fields, end, field, get_field}
use factory_network_server.Js.Convert.{to_text}
use factory_network_server.Protocol.{
  validate_client_frame, is_type, check_limits, check_limit, check_text, check_objects,
}
use factory_network_server.Js.Strings.{trim, is_space}
use factory_network_server.State.{Server}
use factory_network_server.Matchmaking.{side_pair}
use factory_network_server.Games.{LobbyGame}
use factory_network_server.Games.Definitions.{
  starts_with, one_of, Definition, relayed, config_only, sumorai_settings, all_definitions,
  build_sumorai_stage_plan, stage,
}
use factory_network_server.Games.Lookup.{claims, find_definition}
use factory_network_server.Games.Apart.{find_definition-claims}
use factory_network_server.Games.Bridges.{
  Instance, Entry, route_to_bridge, ensure_bridges, bridge_for,
}
use factory_network_server.Games.Readable.{route_to_bridge-accepted}
use factory_network_server.Games.Routed.{id_of, session_games, opening-route_to_bridge}
use factory_network_server.Lobby.Creating.{Ending, returned}
use factory_network_server.Lobby.Joining.{text_or_empty}
use factory_network_server.Router.Dispatch.{handle_client_message}
use factory_network_server.Router.Bridged.{other-handle_client_message}
use factory_network_server.Tests.Rooms.{registry, empty, p1}
use factory_network_server.Tests.Lobbies.{host}

abbrev module_of : Text → LobbyGame ℕ
module_of id = config_only (record { min_players = 2; max_players = 8 })

-- Every bridge holds the room AB and the client p1.
abbrev instance_of : Text → Instance
instance_of id = record { room_codes = codes "AB" ∷ []; clients = p1 ∷ [] }

abbrev entries : List Entry
entries = ensure_bridges instance_of (all_definitions module_of)

abbrev sumorai : Definition ℕ
sumorai =
    relayed (one_of (codes "sumorai" ∷ codes "sumorai-ranked" ∷ [])) side_pair
      (some sumorai_settings)

find_definition-claims_example :
    find_definition (all_definitions module_of) (codes "sumorai-ranked") ≡ some sumorai
unfolding all_definitions claims contains text_eq
find_definition-claims_example =
    find_definition-claims module_of 3 sumorai 115 (codes "umorai-ranked") refl refl

abbrev join : Fields
join =
    field (codes "type") (text (codes "join_room"))
      (field (codes "roomCode") (text (codes "ab")) end)

route_to_bridge-accepted_example : route_to_bridge host p1 join entries ≢ none
unfolding validate_client_frame is_type get_field text_eq trim is_space check_limits check_limit
    check_text to_text check_objects
route_to_bridge-accepted_example = route_to_bridge-accepted host p1 join entries refl

-- The first stage of the plan, as the tests of the registry have it.
first_stage : build_sumorai_stage_plan 12345 1 1 ≡ Items.cons (text (codes "battlefield")) Items.nil
unfolding build_sumorai_stage_plan stage
first_stage = refl

abbrev search : Fields
search =
    field (codes "type") (text (codes "find_match"))
      (field (codes "gameId") (text (codes "speed-demon")) end)

opening-route_to_bridge_example :
    (o : Option Entry) × (route_to_bridge host p1 search entries ≡ some o)
    × (id_of o ≡ (
        if contains (codes "speed-demon") session_games then some (codes "speed-demon") else none))
unfolding text_or_empty get_field text_eq to_text
opening-route_to_bridge_example =
    opening-route_to_bridge module_of instance_of host p1 search (codes "find_match")
      (codes "speed-demon") refl refl (inl refl)

abbrev chat : Fields
chat = field (codes "type") (text (codes "lobby_message")) end

abbrev parse_chat : Text → Option Json
parse_chat raw = some (object chat)

abbrev swallow : Json → Entry → Server ℕ → Ending × Server ℕ
swallow json e s = (returned, s)

other-handle_client_message_example :
    handle_client_message parse_chat host registry p1 1
      (bridge_for host p1 entries swallow)
      []
      empty
    ≡ handle_client_message parse_chat host registry p1 1 (λ json. none) [] empty
unfolding text_or_empty get_field text_eq to_text contains starts_with
other-handle_client_message_example =
    other-handle_client_message parse_chat host registry p1 1 module_of instance_of swallow [] chat
      (codes "lobby_message") empty refl refl refl refl refl
