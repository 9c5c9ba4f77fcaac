-- ===== src/Lobby/Sessions.antt =====
-- Seats of clients whose connection is lost: `suspendLobbyClient`, `expireSuspendedLobbyClient` and
-- `resumeLobbyClient` of src/lobby.mjs. The timer that calls the second is not modelled.
use factory_network_server.Prelude.{
  ℕ, ◌+◌, Bool, true, false, Option, none, some, ◌&&◌, if◌then◌else◌, ltb, is_some_of, not,
}
use factory_network_server.Prelude.Texts.{Text, codes, Text_eq}
use factory_network_server.Prelude.Maps.{get?, set, erase, has}
use factory_network_server.State.{
  Server, Lobby, Status, Suspension, started, lobby_player_disconnected, lobby_player_reconnected,
}
use factory_network_server.LobbyBus.{broadcast_to_lobby}
use factory_network_server.Games.{LobbyGame, Registry}
use factory_network_server.Lobby.Hooks.{run_hook, run_change}
use factory_network_server.Lobby.Leaving.{
  clear_suspended_lobby_session, disconnect_match, leave_lobby,
}

abbrev pub is_started : Status → Bool
is_started started = true
is_started _ = false

module _ {G : Type 0} where
  unfoldable pub reconnect_grace_ms : Option (LobbyGame G) → ℕ
  reconnect_grace_ms none = 0
  reconnect_grace_ms (some game) = game.reconnect_grace_ms

  -- Whether the client's seat in the lobby may be kept for him.
  unfoldable pub can_suspend : Registry G → Text → Lobby G → Server G → Bool
  unfolding reconnect_grace_ms
  can_suspend games client lobby s =
      is_started lobby.status
      && ltb 0 (reconnect_grace_ms (games.lobby_game lobby.game_id))
      && not (has client s.suspended_lobby_sessions)

  unfoldable pub suspend_seat : Registry G → Text → Text → Text → Lobby G → Server G → Server G
  unfolding reconnect_grace_ms
  suspend_seat games client reason code lobby s =
      let game = games.lobby_game lobby.game_id in
      let ((played, s1), match_changed) = disconnect_match code game client s.now lobby s in
      let expires = s.now + reconnect_grace_ms game in
      let kept : Suspension = record { room_code = code; expires_at = expires } in
      let s2 = record s1 {
        suspended_lobby_sessions = set client kept s1.suspended_lobby_sessions;
      } in
      let s3 =
        broadcast_to_lobby code (lobby_player_disconnected client code expires reason) (some client)
          s2 in
      if match_changed then (run_hook code game (λ g. g.broadcast_after_leave) played s3).1 else s3

  -- Whether the seat is kept, and the server then.
  unfoldable pub suspend_lobby_client : Registry G → Text → Text → Server G → Bool × Server G
  unfolding can_suspend suspend_seat
  suspend_lobby_client games client reason s = elim (get? client s.client_lobbies) [
    | none ↦ (false, s)
    | some code ↦ elim (get? code s.lobbies) [
      | none ↦ (false, s)
      | some lobby ↦
          if can_suspend games client lobby s
          then (true, suspend_seat games client reason code lobby s)
          else (false, s)
    ]
  ]

  unfoldable pub expire_suspended_lobby_client : Registry G → Text → Server G → Bool × Server G
  expire_suspended_lobby_client games client s = elim (get? client s.suspended_lobby_sessions) [
    | none ↦ (false, s)
    | some suspended ↦
        let s1 = clear_suspended_lobby_session client s in
        let s2 = leave_lobby games client (codes "reconnect_expired") s1 in
        (true, record s2 { client_session_tokens = erase client s2.client_session_tokens })
  ]

  unfoldable pub reconnect_match :
      Text → Option (LobbyGame G) → Text → ℕ → Lobby G → Server G → Lobby G × Server G
  reconnect_match code none client now lobby s = (lobby, s)
  reconnect_match code (some game) client now lobby s = elim game.apply_reconnect [
    | none ↦ (lobby, s)
    | some hook ↦ run_change code lobby (hook lobby client now).0 s
  ]

  -- The suspended seat is taken again.
  unfoldable pub resume_seat : Registry G → Text → Text → Lobby G → Server G → Lobby G × Server G
  unfolding reconnect_match
  resume_seat games client code lobby s =
      let s1 = clear_suspended_lobby_session client s in
      let (played, s2) =
        reconnect_match code (games.lobby_game lobby.game_id) client s.now lobby s1 in
      let notice = lobby_player_reconnected client played.room_code in
      (played, broadcast_to_lobby played.room_code notice (some client) s2)

  unfoldable pub resume_suspended :
      Registry G → Text → Text → Suspension → Server G → Option (Lobby G) × Server G
  unfolding resume_seat
  resume_suspended games client token suspended s =
      if ltb s.now suspended.expires_at && is_some_of (get? client s.client_session_tokens) token
      then elim (get? suspended.room_code s.lobbies) [
        | none ↦ (none, s)
        | some lobby ↦
            let (played, t) = resume_seat games client suspended.room_code lobby s in
            if is_some_of (get? client s.client_lobbies) lobby.room_code
            then (some played, t)
            else (none, s)
      ]
      else (none, s)

  -- The lobby that is resumed, or nothing.
  unfoldable pub resume_lobby_client :
      Registry G → Text → Text → Server G → Option (Lobby G) × Server G
  unfolding resume_suspended
  resume_lobby_client games client token s = elim (get? client s.suspended_lobby_sessions) [
    | none ↦ (none, s)
    | some suspended ↦ resume_suspended games client token suspended s
  ]
