-- ===== src/Lobby/Starting.antt =====
-- How a lobby starts: `canLobbyStart`, `startLobby` and `requestStartLobby` of src/lobby.mjs.
use factory_network_server.Prelude.{
  ℕ, ◌+◌, Bool, true, false, Option, none, some, ◌&&◌, if◌then◌else◌, leb, length, ◌==◌, not,
}
use factory_network_server.Prelude.Texts.{Text, codes, Text_eq}
use factory_network_server.Prelude.Maps.{get?}
use factory_network_server.Js.Values.{Json}
use factory_network_server.State.{
  Server, Lobby, Status, started, Payload, StartedView, lobby_started, failure, ErrorCode,
  not_in_lobby, not_lobby_owner, lobby_not_ready, lobby_not_joinable, lobby_start_delay_ms,
}
use factory_network_server.Transport.{send_to_client}
use factory_network_server.LobbyBus.{broadcast_to_lobby}
use factory_network_server.Games.{LobbyGame, Registry}
use factory_network_server.Lobby.Hooks.{put_lobby, run_hook, without_countdown}
use factory_network_server.Lobby.Joining.{is_open}

abbrev pub start_error : Status → ErrorCode
start_error st = if is_open st then lobby_not_ready else lobby_not_joinable

module _ {G : Type 0} where
  -- `game?.canStart?.(lobby) ?? true`
  abbrev pub may_start : Option (LobbyGame G) → Lobby G → Bool
  may_start none lobby = true
  may_start (some game) lobby = game.can_start lobby

  unfoldable pub can_lobby_start : Registry G → Lobby G → Bool
  can_lobby_start games lobby =
      is_open lobby.status
      && leb lobby.min_players (length lobby.members)
      && may_start (games.lobby_game lobby.game_id) lobby

  abbrev pub extras_of : Option (LobbyGame G) → Lobby G → ℕ → Option Json
  extras_of none lobby now = none
  extras_of (some game) lobby now = game.started_payload_extras lobby now

  unfoldable pub build_lobby_started_payload : Registry G → Lobby G → ℕ → Text → Payload
  build_lobby_started_payload games lobby now reason =
      let view : StartedView = record {
        room_code = lobby.room_code;
        game_id = lobby.game_id;
        seed = lobby.seed;
        start_at = lobby.start_at;
        owner_id = lobby.owner_id;
        members = lobby.members;
        settings = lobby.settings;
      } in
      lobby_started view now reason (extras_of (games.lobby_game lobby.game_id) lobby now)

  -- The lobby object once it is started.
  unfoldable pub as_started : ℕ → ℕ → Lobby G → Lobby G
  as_started seed start_at lobby = record lobby {
    status = started;
    seed = some seed;
    start_at = some start_at;
  }

  -- A start that the checks allow: the lobby is marked, the match is set up, and all are told.
  unfoldable pub launch_lobby : Registry G → Text → Text → Lobby G → Server G → Server G
  unfolding as_started build_lobby_started_payload
  launch_lobby games reason code lobby s =
      let game = games.lobby_game lobby.game_id in
      let calm = without_countdown lobby in
      let (cleared, s1) = run_hook code game (λ g. g.clear_timers) calm (put_lobby code calm s) in
      let start_at = s.now + lobby_start_delay_ms in
      let marked = as_started s.seed_bytes start_at cleared in
      let (ready, s2) =
        run_hook code game (λ g l. g.init_match l start_at) marked (put_lobby code marked s1) in
      let s3 =
        broadcast_to_lobby ready.room_code (build_lobby_started_payload games ready s.now reason)
          none s2 in
      (run_hook code game (λ g. g.after_start) ready s3).1

  unfoldable pub start_lobby : Registry G → Text → Text → Lobby G → Server G → Bool × Server G
  unfolding can_lobby_start launch_lobby
  start_lobby games reason code lobby s =
      if can_lobby_start games lobby
      then (true, launch_lobby games reason code lobby s)
      else (false, s)

  -- `clientLobbies.get(clientId) || clientDisplayLobbies.get(clientId)`
  unfoldable pub own_lobby : Text → Server G → Option Text
  own_lobby client s = elim (get? client s.client_lobbies) [
    | some code ↦ some code
    | none ↦ get? client s.client_display_lobbies
  ]

  unfoldable pub request_start_at : Registry G → Text → Text → Lobby G → Server G → Server G
  unfolding start_lobby
  request_start_at games client code lobby s =
      if not (lobby.owner_id == client)
      then send_to_client client (failure not_lobby_owner) s
      else (if can_lobby_start games lobby
          then (start_lobby games (codes "owner_start") code lobby s).1
          else send_to_client client (failure (start_error lobby.status)) s)

  unfoldable pub request_start_lobby : Registry G → Text → Server G → Server G
  unfolding own_lobby request_start_at
  request_start_lobby games client s = elim (own_lobby client s) [
    | none ↦ send_to_client client (failure not_in_lobby) s
    | some code ↦ elim (get? code s.lobbies) [
      | none ↦ send_to_client client (failure not_in_lobby) s
      | some lobby ↦ request_start_at games client code lobby s
    ]
  ]
