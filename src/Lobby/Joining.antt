-- ===== src/Lobby/Joining.antt =====
-- `joinLobby` of src/lobby.mjs.
use factory_network_server.Prelude.{
  Bool, true, false, Option, none, some, [], ◌&&◌, not, or_else, if◌then◌else◌, ltb, length, add,
  ◌==◌,
}
use factory_network_server.Prelude.Texts.{Text, codes, Text_eq}
use factory_network_server.Prelude.Maps.{get?, set, has}
use factory_network_server.Js.Values.{Json, null, truthy}
use factory_network_server.Js.Strings.{trim, to_upper}
use factory_network_server.Js.Convert.{Host, to_text}
use factory_network_server.Util.{sanitize_lobby_game_id}
use factory_network_server.State.{
  Server, Lobby, Status, open_status, started, failure, lobby_not_found, lobby_game_mismatch,
  lobby_started_error, lobby_not_joinable, lobby_full, lobby_joined, lobby_player_joined, ErrorCode,
}
use factory_network_server.Transport.{send_to_client}
use factory_network_server.LobbyBus.{build_lobby_payload, broadcast_to_lobby, send_lobby_updated}
use factory_network_server.Games.{LobbyGame, Registry}
use factory_network_server.Lobby.Hooks.{
  put_lobby, changed, without_countdown, maybe_start_lobby_countdown,
}
use factory_network_server.Lobby.Leaving.{without_member, leave_lobby, leave_display_lobby}
use factory_network_server.Lobby.Creating.{
  Ending, returned, thrown, remember_lobby_identity, release_client,
}
use factory_network_server.Matchmaking.{leave_queue}
use factory_network_server.Rooms.Seats.{leave_room}

abbrev pub is_open : Status → Bool
is_open open_status = true
is_open _ = false

-- `expectedGameId != null && lobby.gameId !== sanitizeLobbyGameId(expectedGameId)`
unfoldable pub is_other_game : Option Json → Text → Bool
is_other_game none game = false
is_other_game (some null) game = false
is_other_game (some v) game = not (sanitize_lobby_game_id (some v) == game)

-- `String(value || "")`
unfoldable pub text_or_empty : Host → Option Json → Option Text
text_or_empty host none = some []
text_or_empty host (some v) = if truthy (some v) then to_text host v else some []

abbrev pub closed_error : Status → ErrorCode
closed_error started = lobby_started_error
closed_error _ = lobby_not_joinable

module _ {G : Type 0} where
  unfoldable pub is_lobby_joinable : Lobby G → Bool
  is_lobby_joinable lobby = is_open lobby.status && ltb (length lobby.members) lobby.max_players

  -- Why the lobby at the code may not be entered, by the order of the tests.
  unfoldable pub join_refusal : Option Json → Lobby G → Option ErrorCode
  unfolding is_other_game is_lobby_joinable
  join_refusal expected lobby =
      if is_other_game expected lobby.game_id
      then some lobby_game_mismatch
      else (if not (is_open lobby.status)
          then some (closed_error lobby.status)
          else (if is_lobby_joinable lobby then none else some lobby_full))

  -- What closing has done to a lobby's object that is in the map no more.
  unfoldable pub closed_object : Option (LobbyGame G) → Lobby G → Lobby G
  closed_object none lobby = without_countdown lobby
  closed_object (some game) lobby =
      let cleared = without_countdown lobby in changed cleared (game.clear_timers cleared)

  -- The object after the client has been released: as the map has it, or as it was closed. The map
  -- does not hold it if the client was alone in it, or if he is its display.
  unfoldable pub object_after :
      Registry G → Text → Text → Text → Text → Lobby G → Server G → Lobby G
  unfolding closed_object
  object_after games client room_reason lobby_reason code lobby s =
      let game = games.lobby_game lobby.game_id in
      let s1 = record s { match_queues = (leave_queue client s.match_queues).1 } in
      let s2 = leave_lobby games client lobby_reason (leave_room client room_reason s1) in
      let left =
        or_else (get? code s2.lobbies) (closed_object game (without_member client lobby)) in
      or_else (get? code (leave_display_lobby games client s2).lobbies) (closed_object game left)

  -- The updates that follow reach nobody where the map lacks the lobby.
  unfoldable pub refresh_joined : Text → Lobby G → Server G → Server G
  refresh_joined code lobby s =
      if has code s.lobbies
      then (let (after, t) = maybe_start_lobby_countdown code lobby s in send_lobby_updated after t)
      else s

  -- The object is mutated; the map sees that only where it holds it.
  unfoldable pub keep_lobby : Text → Lobby G → Server G → Server G
  keep_lobby code lobby s = if has code s.lobbies then put_lobby code lobby s else s

  unfoldable pub enter_lobby : Text → Text → Option Json → Lobby G → Server G → Server G
  unfolding keep_lobby refresh_joined
  enter_lobby client code identity lobby s =
      let joined =
        remember_lobby_identity client identity
          (record lobby { members = add client lobby.members }) in
      let seated = record s { client_lobbies = set client code s.client_lobbies } in
      let s1 = keep_lobby code joined seated in
      let s2 = send_to_client client (lobby_joined false client (build_lobby_payload joined)) s1 in
      let notice = lobby_player_joined client code (length joined.members) joined.owner_id in
      refresh_joined code joined (broadcast_to_lobby code notice (some client) s2)

  unfoldable pub join_lobby_found :
      Registry G → Text → Text → Option Json → Option Json → Lobby G → Server G → Server G
  unfolding join_refusal object_after enter_lobby
  join_lobby_found games client code identity expected lobby s =
      elim (join_refusal expected lobby) [
        | some error ↦ send_to_client client (failure error) s
        | none ↦
            let held =
              object_after games client (codes "join_lobby") (codes "switch_lobby") code lobby s in
            enter_lobby client code identity held
              (release_client games client (codes "join_lobby") (codes "switch_lobby") s)
      ]

  unfoldable pub join_lobby_at :
      Registry G → Text → Text → Option Json → Option Json → Server G → Server G
  unfolding join_lobby_found
  join_lobby_at games client code identity expected s = elim (get? code s.lobbies) [
    | none ↦ send_to_client client (failure lobby_not_found) s
    | some lobby ↦ join_lobby_found games client code identity expected lobby s
  ]

  unfoldable pub join_lobby :
      Host
      → Registry G
      → Text
      → Option Json
      → Option Json
      → Option Json
      → Server G
      → Ending × Server G
  unfolding text_or_empty join_lobby_at
  join_lobby host games client room_code identity expected s = elim (text_or_empty host room_code) [
    | none ↦ (thrown, s)
    | some typed ↦
        (returned, join_lobby_at games client (to_upper (trim typed)) identity expected s)
  ]
