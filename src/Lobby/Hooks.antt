-- ===== src/Lobby/Hooks.antt =====
-- How a lobby in the map changes, and how src/lobby.mjs calls the hooks of a game module.
use factory_network_server.Prelude.{Option, none, some, List, [], ◌∷◌}
use factory_network_server.Prelude.Texts.{Text, Text_eq}
use factory_network_server.Prelude.Maps.{set}
use factory_network_server.State.{Server, Lobby, open_status, countdown, Status, game_message}
use factory_network_server.Transport.{send_to_client}
use factory_network_server.LobbyBus.{broadcast_to_lobby, send_lobby_updated}
use factory_network_server.Games.{GameSend, to_member, to_lobby, refresh, Change, LobbyGame}

-- A status that was "countdown" is open again.
abbrev pub reopened : Status → Status
reopened countdown = open_status
reopened st = st

module _ {G : Type 0} where
  -- The lobby object at the code is mutated to `lobby`.
  unfoldable pub put_lobby : Text → Lobby G → Server G → Server G
  put_lobby code lobby s = record s { lobbies = set code lobby s.lobbies }

  unfoldable pub send_game : Lobby G → GameSend → Server G → Server G
  send_game lobby (to_member client message) s = send_to_client client (game_message message) s
  send_game lobby (to_lobby message) s =
      broadcast_to_lobby lobby.room_code (game_message message) none s
  send_game lobby refresh s = send_lobby_updated lobby s

  unfoldable pub send_game_all : Lobby G → List GameSend → Server G → Server G
  send_game_all lobby [] s = s
  send_game_all lobby (m ∷ ms) s = send_game_all lobby ms (send_game lobby m s)

  abbrev pub changed : Lobby G → Change G → Lobby G
  changed lobby c = record lobby {
    status = c.status;
    start_at = c.start_at;
    seed = c.seed;
    match_state = c.match_state;
  }

  -- A hook has run on the lobby at the code: the lobby as it is then, and the server.
  unfoldable pub run_change : Text → Lobby G → Change G → Server G → Lobby G × Server G
  unfolding put_lobby
  run_change code lobby c s =
      let after = changed lobby c in (after, send_game_all after c.sends (put_lobby code after s))

  -- `game?.hook?.(lobby)`
  unfoldable pub run_hook :
      Text
      → Option (LobbyGame G)
      → (LobbyGame G → Lobby G → Change G)
      → Lobby G
      → Server G
      → Lobby G × Server G
  run_hook code none hook lobby s = (lobby, s)
  run_hook code (some game) hook lobby s = run_change code lobby (hook game lobby) s

  -- `clearLobbyCountdown` on the object.
  unfoldable pub without_countdown : Lobby G → Lobby G
  without_countdown lobby = record lobby { start_at = none; status = reopened lobby.status }

  unfoldable pub maybe_start_lobby_countdown : Text → Lobby G → Server G → Lobby G × Server G
  unfolding without_countdown put_lobby
  maybe_start_lobby_countdown code lobby s =
      let after = without_countdown lobby in
      (after, send_lobby_updated after (put_lobby code after s))
