-- ===== src/Router/Messages.antt =====
-- The handler `lobby_message` of src/router.mjs. How the language parses JSON is a parameter; `none`
-- is a SyntaxError.
use factory_network_server.Prelude.{ℕ, Option, none, some, [], if◌then◌else◌, ◌==◌}
use factory_network_server.Prelude.Texts.{Text, codes, Text_eq}
use factory_network_server.Prelude.Maps.{get?}
use factory_network_server.Js.Values.{Json, Fields, get_field, is_nullish}
use factory_network_server.Js.Convert.{Host, to_text}
use factory_network_server.State.{Server, Lobby, failure, not_in_lobby, game_error, lobby_message}
use factory_network_server.Transport.{reply}
use factory_network_server.LobbyBus.{broadcast_to_lobby}
use factory_network_server.Games.{LobbyGame, Registry, Reply, unhandled, handled, threw, refused}
use factory_network_server.Lobby.Hooks.{put_lobby, run_change}
use factory_network_server.Lobby.Creating.{Ending, returned, thrown, remember_lobby_identity}
use factory_network_server.Lobby.Joining.{text_or_empty}

-- `String(value ?? "")`
unfoldable pub text_or_nothing : Host → Option Json → Option Text
text_or_nothing host none = some []
text_or_nothing host (some v) = if is_nullish (some v) then some [] else to_text host v

module _ {G : Type 0} (parse : Text → Option Json) (client : Text) (ws : ℕ) where
  unfoldable pub relay : Text → Text → Text → Server G → Server G
  relay code message_type value s =
      broadcast_to_lobby code (lobby_message message_type value client code) none s

  -- `if (messageType === "profile") rememberLobbyIdentity(lobby, clientId, JSON.parse(value))`
  unfoldable pub remember_profile : Text → Text → Lobby G → Lobby G
  remember_profile message_type value lobby =
      if message_type == codes "profile"
      then remember_lobby_identity client (parse value) lobby
      else lobby

  unfoldable pub answer_reply : Reply → Text → Text → Text → Server G → Ending × Server G
  unfolding relay
  answer_reply unhandled code message_type value s = (returned, relay code message_type value s)
  answer_reply handled code message_type value s = (returned, s)
  answer_reply threw code message_type value s = (thrown, s)
  answer_reply (refused error) code message_type value s =
      (returned, reply ws (failure (game_error error)) s)

  -- The message in the hands of the lobby's game module.
  unfoldable pub give_to_game :
      LobbyGame G → Lobby G → Text → Text → Text → Server G → Ending × Server G
  unfolding remember_profile answer_reply
  give_to_game game lobby code message_type value s =
      let known = remember_profile message_type value lobby in
      let t = put_lobby code known s in
      elim game.handle_message [
        | none ↦ (returned, relay code message_type value t)
        | some hook ↦
            let (change, answer) = hook known client message_type value in
            answer_reply answer code message_type value (run_change code known change t).1
      ]

  abbrev pub game_of : Registry G → Option (Lobby G) → Option (LobbyGame G × Lobby G)
  game_of games none = none
  game_of games (some lobby) = elim (games.lobby_game lobby.game_id) [
    | none ↦ none
    | some game ↦ some (game, lobby)
  ]

  unfoldable pub send_lobby_message : Registry G → Text → Text → Text → Server G → Ending × Server G
  unfolding give_to_game relay
  send_lobby_message games code message_type value s = elim (game_of games (get? code s.lobbies)) [
    | none ↦ (returned, relay code message_type value s)
    | some (game, lobby) ↦ give_to_game game lobby code message_type value s
  ]

  unfoldable pub lobby_message_handler : Host → Registry G → Fields → Server G → Ending × Server G
  unfolding send_lobby_message text_or_nothing
  lobby_message_handler host games frame s = elim (get? client s.client_lobbies) [
    | none ↦ (returned, reply ws (failure not_in_lobby) s)
    | some code ↦ elim (text_or_empty host (get_field (codes "messageType") frame)) [
      | none ↦ (thrown, s)
      | some message_type ↦ elim (text_or_nothing host (get_field (codes "value") frame)) [
        | none ↦ (thrown, s)
        | some value ↦ send_lobby_message games code message_type value s
      ]
    ]
  ]
