-- ===== src/Rooms/Joining.antt =====
-- `joinRoom`, and the moves of the router that fill rooms.
use factory_network_server.Prelude.{
  ℕ, Bool, false, Option, none, some, List, [], ◌∷◌, if◌then◌else◌, length, ◌==◌, or_else, add, leb,
  ◌&&◌, not, is_some_of,
}
use factory_network_server.Prelude.Texts.{Text, Text_eq, codes}
use factory_network_server.Prelude.Maps.{Map, get?, set}
use factory_network_server.Js.Values.{Json, truthy}
use factory_network_server.Util.{sanitize_room_game_id}
use factory_network_server.State.{
  Server, failure, room_not_found, room_game_mismatch, room_full, side_conflict, room_joined,
  player_joined, max_players_per_room,
}
use factory_network_server.Transport.{send_to_client}
use factory_network_server.Matchmaking.{set_client_side}
use factory_network_server.Games.{Registry}
use factory_network_server.Lobby.Leaving.{leave_lobby}
use factory_network_server.Rooms.Seats.{
  get_player_count, same_side_already_in_room, broadcast_to_room, emit_match_ready, leave_room,
}

-- `gameId ? sanitizeRoomGameId(gameId) : null`
abbrev pub requested_game : Option Json → Option Text
requested_game game = if truthy game then some (sanitize_room_game_id game) else none

-- `requested && existing !== "default" && requested !== existing`
abbrev pub is_mismatch : Option Text → Text → Bool
is_mismatch none existing = false
is_mismatch (some requested) existing =
    not (existing == codes "default") && not (requested == existing)

-- `!roomCode || !rooms.has(roomCode)` where it is none.
unfoldable pub room_at : {V : Type 0} → Text → Map Text V → Option V
room_at [] rooms = none
room_at (c ∷ code) rooms = get? (c ∷ code) rooms

module _ {G : Type 0} where
  unfoldable pub adopt_game : Text → Option Text → Text → Server G → Server G
  adopt_game code none existing s = s
  adopt_game code (some requested) existing s =
      if existing == codes "default"
      then record s { room_game_ids = set code requested s.room_game_ids }
      else s

  -- `members.add(clientId)` on the room's set, and the client's entry.
  unfoldable pub seat : Text → Text → List Text → Server G → Server G
  seat client code members s = record s {
    rooms = set code (add client members) s.rooms;
    client_rooms = set client code s.client_rooms;
  }

module _ {G : Type 0} (games : Registry G) where
  -- The one who has entered is told, then the others, then both that their match is ready.
  unfoldable pub welcome : Text → Text → ℕ → Server G → Server G
  welcome client code total s = emit_match_ready games code (
      broadcast_to_room code (player_joined client code total) (some client)
        (send_to_client client (room_joined code total false) s))

  -- What `joinRoom` does once all its checks have passed.
  unfoldable pub enter_room :
      Text → Text → Option Json → Option Text → Text → List Text → Server G → Server G
  unfolding adopt_game seat welcome
  enter_room client code side requested existing members s =
      let s1 = leave_room client (codes "switch_room") s in
      let s2 = leave_lobby games client (codes "join_room") s1 in
      let s3 = (set_client_side client side s2).1 in
      let s4 = seat client code members (adopt_game code requested existing s3) in
      welcome client code (length (add client members)) s4

  unfoldable pub join_existing :
      Text → Text → Option Json → Option Json → List Text → Server G → Server G
  unfolding enter_room
  join_existing client code side game members s =
      let existing = or_else (get? code s.room_game_ids) (codes "default") in
      let requested = requested_game game in
      if is_mismatch requested existing
      then send_to_client client (failure room_game_mismatch) s
      else (if leb max_players_per_room (length members)
          then send_to_client client (failure room_full) s
          else (if same_side_already_in_room code side s
              then send_to_client client (failure side_conflict) s
              else enter_room client code side requested existing members s))

  unfoldable pub join_room : Text → Text → Option Json → Option Json → Server G → Server G
  unfolding join_existing
  join_room client code side game s = elim (room_at code s.rooms) [
    | none ↦ send_to_client client (failure room_not_found) s
    | some members ↦
        if is_some_of (get? client s.client_rooms) code
        then send_to_client client (room_joined code (get_player_count code s) false) s
        else join_existing client code side game members s
  ]
