-- ===== src/Router/Reconnect.antt =====
-- The handler `resume_lobby` of src/router.mjs. That the connection answers to the old id from now on
-- is left to the runtime.
use factory_network_server.Prelude.{ℕ, Option, none, some, is_some, if◌then◌else◌}
use factory_network_server.Prelude.Texts.{Text, codes, Text_eq}
use factory_network_server.Prelude.Maps.{get?, set, erase}
use factory_network_server.Js.Values.{Fields, get_field}
use factory_network_server.Js.Convert.{Host}
use factory_network_server.State.{Server, Lobby, failure, resume_rejected, session_resumed}
use factory_network_server.Transport.{reply}
use factory_network_server.LobbyBus.{send_lobby_updated}
use factory_network_server.Games.{LobbyGame, Registry}
use factory_network_server.Lobby.Hooks.{run_hook, run_change}
use factory_network_server.Lobby.Creating.{Ending, returned, thrown}
use factory_network_server.Lobby.Joining.{text_or_empty}
use factory_network_server.Lobby.Sessions.{resume_lobby_client}

module _ {G : Type 0} where
  -- `game.broadcastAfterReconnect?.(lobby) || game.broadcastAfterLeave?.(lobby)`
  unfoldable pub tell_reconnected : LobbyGame G → Lobby G → Server G → Server G
  tell_reconnected game lobby s = elim game.broadcast_after_reconnect [
    | none ↦ (run_hook lobby.room_code (some game) (λ g. g.broadcast_after_leave) lobby s).1
    | some hook ↦
        let (change, truthy) = hook lobby in
        let (after, t) = run_change lobby.room_code lobby change s in
        let again =
          (run_hook after.room_code (some game) (λ g. g.broadcast_after_leave) after t).1 in
        if truthy then t else again
  ]

  unfoldable pub tell_resumed : Option (LobbyGame G) → Lobby G → Server G → Server G
  unfolding tell_reconnected
  tell_resumed none lobby s = send_lobby_updated lobby s
  tell_resumed (some game) lobby s =
      if is_some game.apply_reconnect
      then tell_reconnected game lobby s
      else send_lobby_updated lobby s

  -- The old id gets the socket, and the id of the new connection is forgotten.
  unfoldable pub hand_over : Text → Text → ℕ → Server G → Server G
  hand_over client previous ws s = record s {
    clients = set previous ws (erase client s.clients);
    client_session_tokens = erase client s.client_session_tokens;
  }

  unfoldable pub answer_resumed :
      Registry G → Text → Text → ℕ → Option (Lobby G) × Server G → Server G
  unfolding tell_resumed hand_over
  answer_resumed games client previous ws (none, s) = reply ws (failure resume_rejected) s
  answer_resumed games client previous ws (some lobby, s) =
      let t =
        tell_resumed (games.lobby_game lobby.game_id) lobby (hand_over client previous ws s) in
      let token = get? previous t.client_session_tokens in
      reply ws (session_resumed previous token lobby.room_code) t

  unfoldable pub resume_lobby_message :
      Host → Registry G → Text → ℕ → Fields → Server G → Ending × Server G
  unfolding answer_resumed
  resume_lobby_message host games client ws frame s =
      elim (text_or_empty host (get_field (codes "clientId") frame)) [
        | none ↦ (thrown, s)
        | some previous ↦ elim (text_or_empty host (get_field (codes "sessionToken") frame)) [
          | none ↦ (thrown, s)
          | some token ↦
              let resumed = resume_lobby_client games previous token s in
              (returned, answer_resumed games client previous ws resumed)
        ]
      ]
