-- ===== src/LobbyBus.antt =====
-- src/lobby-bus.mjs: sending to the members of a lobby, and the view of a lobby that clients get.
use factory_network_server.Prelude.{
  ℕ, zero, suc, ◌+◌, ◌/◌, ◌%◌, Option, none, some, List, [], ◌∷◌, ◌++◌, if◌then◌else◌, length, add,
  ltb,
}
use factory_network_server.Prelude.Texts.{Text, codes, Text_eq}
use factory_network_server.Prelude.Maps.{Map, get?}
use factory_network_server.Util.{Identity, or_text}
use factory_network_server.State.{Server, Lobby, LobbyView, Payload, lobby_updated}
use factory_network_server.Transport.{send_all}

-- The decimal digits of a number, most significant first; `fuel` above the number is enough.
unfoldable pub decimal_onto : ℕ → ℕ → Text → Text
decimal_onto zero n rest = rest
decimal_onto (suc fuel) n rest =
    let digit = 48 + n % 10 in
    let more = decimal_onto fuel (n / 10) (digit ∷ rest) in if ltb n 10 then digit ∷ rest else more

unfoldable pub decimal : ℕ → Text
unfolding decimal_onto
decimal n = decimal_onto (n + 1) n []

abbrev pub members_of {ℓ} : {G : Type 0} {A : Type ℓ} → (Lobby G → A) → A → Option (Lobby G) → A
members_of f d none = d
members_of f d (some lobby) = f lobby

unfoldable pub get_lobby_member_ids : {G : Type 0} → Text → Server G → List Text
get_lobby_member_ids code s = members_of (λ lobby. lobby.members) [] (get? code s.lobbies)

-- The members, and the display behind them.
unfoldable pub recipients : {G : Type 0} → Lobby G → List Text
recipients lobby = elim lobby.display_client_id [
  | none ↦ lobby.members
  | some d ↦ add d lobby.members
]

unfoldable pub broadcast_to_lobby :
    {G : Type 0} → Text → Payload → Option Text → Server G → Server G
broadcast_to_lobby code p except s = record s {
  net =
      members_of (λ lobby. send_all s.clients (recipients lobby) p except s.net) s.net
        (get? code s.lobbies);
}

abbrev profile_name : Option Identity → Text
profile_name none = []
profile_name (some i) = i.display_name

-- Each member with his name, or "Player n" by his place.
unfoldable pub players_from : ℕ → Map Text Identity → List Text → List (Text × Text)
players_from index profiles [] = []
players_from index profiles (m ∷ ms) =
    (m, or_text (profile_name (get? m profiles)) (codes "Player " ++ decimal (index + 1)))
    ∷ players_from (index + 1) profiles ms

unfoldable pub build_lobby_payload : {G : Type 0} → Lobby G → LobbyView
build_lobby_payload lobby = record {
  room_code = lobby.room_code;
  game_id = lobby.game_id;
  owner_id = lobby.owner_id;
  display_client_id = lobby.display_client_id;
  player_count = length lobby.members;
  min_players = lobby.min_players;
  max_players = lobby.max_players;
  status = lobby.status;
  is_private = lobby.is_private;
  settings = lobby.settings;
  members = lobby.members;
  players = players_from 0 lobby.member_profiles lobby.members;
  start_at = lobby.start_at;
}

unfoldable pub send_lobby_updated : {G : Type 0} → Lobby G → Server G → Server G
send_lobby_updated lobby s =
    broadcast_to_lobby lobby.room_code (lobby_updated (build_lobby_payload lobby)) none s
