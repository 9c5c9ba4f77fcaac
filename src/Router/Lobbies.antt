-- ===== src/Router/Lobbies.antt =====
-- The handlers of src/router.mjs for lobbies, but `resume_lobby` and `lobby_message`.
use factory_network_server.Prelude.{Bool, false, Option, none, some, if◌then◌else◌, ◌==◌}
use factory_network_server.Prelude.Texts.{Text, codes, Text_eq}
use factory_network_server.Js.Values.{Json, text, Fields, get_field, truthy}
use factory_network_server.Js.Convert.{Host}
use factory_network_server.Util.{Limits, sanitize_lobby_game_id, sanitize_lobby_limits}
use factory_network_server.State.{Server, Lobby}
use factory_network_server.Games.{Registry}
use factory_network_server.Lobby.Leaving.{leave_lobby}
use factory_network_server.Lobby.Creating.{Ending, thrown, create_lobby}
use factory_network_server.Lobby.Joining.{join_lobby}
use factory_network_server.Lobby.Search.{find_open_lobby}
use factory_network_server.Lobby.Settings.{update_lobby_settings}
use factory_network_server.Lobby.Starting.{request_start_lobby}

-- `data.role === "display"`
unfoldable pub is_display : Option Json → Bool
is_display (some (text role)) = role == codes "display"
is_display _ = false

-- `{ ...data, gameId }`
unfoldable pub with_game_id : Text → Fields → Text → Option Json
with_game_id game frame k = if k == codes "gameId" then some (text game) else get_field k frame

module _ {G : Type 0} (host : Host) (games : Registry G) (client : Text) where
  unfoldable pub create_lobby_message : Fields → Server G → Ending × Server G
  unfolding is_display
  create_lobby_message frame s =
      create_lobby host games client (λ k. get_field k frame)
        (truthy (get_field (codes "private") frame)) (is_display (get_field (codes "role") frame)) s

  unfoldable pub join_lobby_message : Fields → Server G → Ending × Server G
  join_lobby_message frame s =
      join_lobby host games client (get_field (codes "roomCode") frame)
        (get_field (codes "identity") frame) (get_field (codes "gameId") frame) s

  -- The lobby that was found is joined without a game to expect; else one is created.
  unfoldable pub join_or_create : Fields → Option (Lobby G) → Server G → Ending × Server G
  unfolding with_game_id
  join_or_create frame (some found) s =
      join_lobby host games client (some (text found.room_code))
        (get_field (codes "identity") frame) none s
  join_or_create frame none s =
      let game = sanitize_lobby_game_id (get_field (codes "gameId") frame) in
      create_lobby host games client (with_game_id game frame) false false s

  unfoldable pub find_with_limits : Fields → Limits → Server G → Ending × Server G
  unfolding join_or_create
  find_with_limits frame limits s =
      let game = some (text (sanitize_lobby_game_id (get_field (codes "gameId") frame))) in
      elim (find_open_lobby host game (some limits) (get_field (codes "settings") frame) s) [
        | none ↦ (thrown, s)
        | some found ↦ join_or_create frame found s
      ]

  unfoldable pub find_lobby_message : Fields → Server G → Ending × Server G
  unfolding find_with_limits
  find_lobby_message frame s =
      elim (sanitize_lobby_limits host (get_field (codes "minPlayers") frame)
        (get_field (codes "maxPlayers") frame)) [
          | none ↦ (thrown, s)
          | some limits ↦ find_with_limits frame limits s
        ]

  unfoldable pub update_lobby_settings_message : Fields → Server G → Ending × Server G
  update_lobby_settings_message frame s =
      update_lobby_settings host games client (λ k. get_field k frame) s

  unfoldable pub start_lobby_message : Server G → Server G
  start_lobby_message s = request_start_lobby games client s

  unfoldable pub leave_lobby_message : Server G → Server G
  leave_lobby_message s = leave_lobby games client (codes "left") s
