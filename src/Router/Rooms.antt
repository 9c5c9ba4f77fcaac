-- ===== src/Router/Rooms.antt =====
-- The handlers of src/router.mjs for rooms and direct messages.
use factory_network_server.Prelude.{ℕ, true, Option, none, some, [], ◌∷◌, if◌then◌else◌}
use factory_network_server.Prelude.Texts.{Text, codes, Text_eq}
use factory_network_server.Prelude.Maps.{get?, set, has}
use factory_network_server.Js.Values.{Json}
use factory_network_server.Js.Strings.{trim, to_upper}
use factory_network_server.Util.{sanitize_room_game_id}
use factory_network_server.State.{
  Server, room_joined, room_message, direct_message, failure, not_in_room, client_not_found,
}
use factory_network_server.Transport.{reply, send_to_client, unique_room_code}
use factory_network_server.Matchmaking.{set_client_side}
use factory_network_server.Games.{Registry}
use factory_network_server.Lobby.Leaving.{leave_lobby}
use factory_network_server.Rooms.Seats.{leave_room, broadcast_to_room}
use factory_network_server.Rooms.Joining.{join_room}

module _ {G : Type 0} where
  -- The new room and its first member.
  unfoldable pub open_room : Text → Text → Text → Server G → Server G
  open_room client game code s = record s {
    rooms = set code (client ∷ []) s.rooms;
    room_game_ids = set code game s.room_game_ids;
    client_rooms = set client code s.client_rooms;
  }

  -- Where no code is found the handler does not return, and the state is what it has done so far.
  unfoldable pub place_in_new_room :
      Text → ℕ → Text → Option (Text × Server G) → Server G → Server G
  unfolding open_room
  place_in_new_room client ws game none s = s
  place_in_new_room client ws game (some (code, t)) s =
      reply ws (room_joined code 1 true) (open_room client game code t)

  unfoldable pub create_room :
      Registry G → Text → ℕ → Option Json → Option Json → Server G → Server G
  unfolding place_in_new_room
  create_room games client ws game side s =
      let s1 = leave_room client (codes "create_new_room") s in
      let s2 = leave_lobby games client (codes "create_room") s1 in
      let s3 = (set_client_side client side s2).1 in
      place_in_new_room client ws (sanitize_room_game_id game) (unique_room_code s3) s3

  -- The code as the client typed it, a string by now.
  unfoldable pub join_room_by_code :
      Registry G → Text → Text → Option Json → Option Json → Server G → Server G
  join_room_by_code games client code side game s =
      join_room games client (to_upper (trim code)) side game s

  unfoldable pub leave_room_message : Text → Server G → Server G
  leave_room_message client s = leave_room client (codes "left") s

  unfoldable pub send_room_message : Text → ℕ → Text → Text → Server G → Server G
  send_room_message client ws message_type value s = elim (get? client s.client_rooms) [
    | none ↦ reply ws (failure not_in_room) s
    | some code ↦ broadcast_to_room code (room_message message_type value client code) none s
  ]

  unfoldable pub send_direct_message : Text → ℕ → Text → Text → Text → Server G → Server G
  send_direct_message client ws target message_type value s =
      if has target s.clients
      then send_to_client target (direct_message message_type value client) s
      else reply ws (failure client_not_found) s
