-- ===== src/Lobby/Leaving.antt =====
-- `leaveLobby` and `leaveDisplayLobby`.
use factory_network_server.Prelude.{
  ℕ, Bool, false, Option, none, some, List, [], ◌∷◌, if◌then◌else◌, remove, length, ◌==◌,
  is_some_of,
}
use factory_network_server.Prelude.Texts.{Text, Text_eq}
use factory_network_server.Prelude.Maps.{get?, erase}
use factory_network_server.State.{Server, Lobby, lobby_left, lobby_closed, lobby_player_left}
use factory_network_server.Transport.{send_to_client}
use factory_network_server.LobbyBus.{broadcast_to_lobby, send_lobby_updated}
use factory_network_server.Games.{LobbyGame, Registry}
use factory_network_server.Lobby.Hooks.{
  put_lobby, run_change, run_hook, without_countdown, maybe_start_lobby_countdown,
}

abbrev pub first_or : Text → List Text → Text
first_or d [] = d
first_or d (m ∷ ms) = m

module _ {G : Type 0} where
  unfoldable pub clear_suspended_lobby_session : Text → Server G → Server G
  clear_suspended_lobby_session client s = record s {
    suspended_lobby_sessions = erase client s.suspended_lobby_sessions;
  }

  -- The lobby object without the client.
  unfoldable pub without_member : Text → Lobby G → Lobby G
  without_member client lobby = record lobby {
    members = remove client lobby.members;
    member_profiles = erase client lobby.member_profiles;
  }

  -- The maps without the client's seat.
  unfoldable pub without_seat : Text → Server G → Server G
  without_seat client s = record s {
    client_lobbies = erase client s.client_lobbies;
    client_session_tokens = erase client s.client_session_tokens;
  }

  -- The owner's place goes to the member who has been there longest.
  unfoldable pub pass_ownership : Text → Lobby G → Lobby G
  pass_ownership client lobby =
      if lobby.owner_id == client
      then record lobby { owner_id = first_or lobby.owner_id lobby.members }
      else lobby

  unfoldable pub cancel_if_pending :
      Text → Option (LobbyGame G) → ℕ → Lobby G → Server G → Lobby G × Server G
  cancel_if_pending code none now lobby s = (lobby, s)
  cancel_if_pending code (some game) now lobby s =
      if game.is_match_pending_start lobby now
      then run_change code lobby (game.cancel_pending_start lobby) s
      else (lobby, s)

  -- The lobby and the server after `applyDisconnect`, and whether the match changed.
  unfoldable pub disconnect_match :
      Text → Option (LobbyGame G) → Text → ℕ → Lobby G → Server G → (Lobby G × Server G) × Bool
  disconnect_match code none client now lobby s = ((lobby, s), false)
  disconnect_match code (some game) client now lobby s =
      let r = game.apply_disconnect lobby client now in (run_change code lobby r.0 s, r.1)

  unfoldable pub is_match_active : Option (LobbyGame G) → Lobby G → Bool
  is_match_active none lobby = false
  is_match_active (some game) lobby = game.has_active_match lobby

  -- The update behind the leave, unless a match goes on.
  unfoldable pub refresh_after_leave : Text → Option (LobbyGame G) → Lobby G × Server G → Server G
  unfolding is_match_active
  refresh_after_leave code game (lobby, s) =
      let (after, t) = maybe_start_lobby_countdown code lobby s in
      if is_match_active game lobby then s else send_lobby_updated after t

  -- What is done for those who stay.
  unfoldable pub leave_others :
      Text → Option (LobbyGame G) → Text → Text → Lobby G → Server G → Server G
  unfolding pass_ownership cancel_if_pending disconnect_match refresh_after_leave
  leave_others code game client reason left s =
      let owned = pass_ownership client left in
      let (pending, s1) = cancel_if_pending code game s.now owned (put_lobby code owned s) in
      let ((played, s2), match_changed) = disconnect_match code game client s.now pending s1 in
      let notice = lobby_player_left client code (length played.members) played.owner_id reason in
      let s3 = broadcast_to_lobby code notice none s2 in
      refresh_after_leave code game (
        if match_changed
        then run_hook code game (λ g. g.broadcast_after_leave) played s3
        else (played, s3))

  -- `clearTimers` of a game changes no lobby that is deleted next; what it sends, it sends.
  unfoldable pub close_lobby : Text → Option (LobbyGame G) → Lobby G → Server G → Server G
  unfolding without_countdown
  close_lobby code game lobby s =
      let (after, t) =
        run_hook code game (λ g. g.clear_timers) (without_countdown lobby)
          (put_lobby code (without_countdown lobby) s) in
      record t { lobbies = erase code t.lobbies }

  unfoldable pub leave_empty :
      Text → Option (LobbyGame G) → Option Text → Lobby G → Server G → Server G
  unfolding close_lobby
  leave_empty code game none lobby s = close_lobby code game lobby s
  leave_empty code game (some display) lobby s = (maybe_start_lobby_countdown code lobby s).1

  unfoldable pub leave_rest :
      Text → Option (LobbyGame G) → Text → Text → Lobby G → List Text → Server G → Server G
  unfolding leave_others leave_empty
  leave_rest code game client reason left [] s = leave_empty code game left.display_client_id left s
  leave_rest code game client reason left (m ∷ ms) s = leave_others code game client reason left s

  -- Leaving the lobby at the code, which is there.
  unfoldable pub leave_seat : Registry G → Text → Text → Text → Lobby G → Server G → Server G
  unfolding clear_suspended_lobby_session without_member without_seat leave_rest
  leave_seat games client reason code lobby s =
      let left = without_member client lobby in
      let s1 = without_seat client (put_lobby code left (clear_suspended_lobby_session client s)) in
      leave_rest code (games.lobby_game lobby.game_id) client reason left left.members
        (send_to_client client (lobby_left code) s1)

  unfoldable pub leave_lobby : Registry G → Text → Text → Server G → Server G
  unfolding leave_seat
  leave_lobby games client reason s = elim (get? client s.client_lobbies) [
    | none ↦ s
    | some code ↦ elim (get? code s.lobbies) [
      | none ↦ record s { client_lobbies = erase client s.client_lobbies }
      | some lobby ↦ leave_seat games client reason code lobby s
    ]
  ]

  -- Each member loses his seat and is told.
  unfoldable pub dismiss : Text → List Text → Server G → Server G
  dismiss code [] s = s
  dismiss code (m ∷ ms) s = dismiss code ms (
      send_to_client m (lobby_closed code) (record s { client_lobbies = erase m s.client_lobbies }))

  unfoldable pub close_display : Registry G → Text → Lobby G → Server G → Server G
  unfolding dismiss without_countdown
  close_display games code lobby s =
      let (after, t) =
        run_hook code (games.lobby_game lobby.game_id) (λ g. g.clear_timers)
          (without_countdown lobby) (put_lobby code (without_countdown lobby) s) in
      let u = dismiss code after.members t in record u { lobbies = erase code u.lobbies }

  unfoldable pub leave_display_lobby : Registry G → Text → Server G → Server G
  unfolding close_display
  leave_display_lobby games client s = elim (get? client s.client_display_lobbies) [
    | none ↦ s
    | some code ↦
        let s1 = record s { client_display_lobbies = erase client s.client_display_lobbies } in
        elim (get? code s.lobbies) [
          | none ↦ s1
          | some lobby ↦
              if is_some_of lobby.display_client_id client
              then close_display games code lobby s1
              else s1
        ]
  ]
