-- ===== src/Rooms/Seats.antt =====
-- The members of a room, broadcasts to them, and leaving.
use factory_network_server.Prelude.{
  ℕ, Bool, false, Option, none, some, List, [], ◌∷◌, remove, length, is_some_of, or_else, any,
}
use factory_network_server.Prelude.Texts.{Text, Text_eq}
use factory_network_server.Prelude.Maps.{Map, get?, set, erase}
use factory_network_server.Js.Values.{Json}
use factory_network_server.State.{
  Server, Payload, player_left, room_left, match_ready, match_ready_delay_ms,
}
use factory_network_server.Transport.{send_to_client, send_all}
use factory_network_server.Matchmaking.{normalize_match_side, build_match_ready_messages, Ready}
use factory_network_server.Games.{Registry}

unfoldable pub side_taken : Map Text Text → Text → List Text → Bool
side_taken sides side members = any (λ (m : Text). is_some_of (get? m sides) side) members

module _ {G : Type 0} where
  unfoldable pub get_room_member_ids : Text → Server G → List Text
  get_room_member_ids code s = or_else (get? code s.rooms) []

  -- A room that is not there has no members to send to.
  unfoldable pub broadcast_to_room : Text → Payload → Option Text → Server G → Server G
  unfolding get_room_member_ids
  broadcast_to_room code p except s = record s {
    net = send_all s.clients (get_room_member_ids code s) p except s.net;
  }

  unfoldable pub get_player_count : Text → Server G → ℕ
  unfolding get_room_member_ids
  get_player_count code s = length (get_room_member_ids code s)

  unfoldable pub same_side_already_in_room : Text → Option Json → Server G → Bool
  unfolding side_taken get_room_member_ids
  same_side_already_in_room code side s = elim (normalize_match_side side) [
    | none ↦ false
    | some n ↦ side_taken s.client_sides n (get_room_member_ids code s)
  ]

  unfoldable pub send_ready : Text → List Ready → Server G → Server G
  send_ready code [] s = s
  send_ready code (m ∷ ms) s = send_ready code ms (
      send_to_client m.client_id
        (match_ready m.seed m.server_now m.start_at m.remote_side m.match_settings code) s)

  unfoldable pub send_if_ready : Text → Option (List Ready) → Server G → Server G
  unfolding send_ready
  send_if_ready code none s = s
  send_if_ready code (some messages) s = send_ready code messages s

  unfoldable pub emit_to : Registry G → Text → List Text → Server G → Server G
  unfolding send_if_ready
  emit_to games code (a ∷ b ∷ others) s =
      let settings = games.match_settings (get? code s.room_game_ids) s.seed_bytes in
      send_if_ready code
        (build_match_ready_messages a (get? a s.client_sides) b (get? b s.client_sides) s.now
          match_ready_delay_ms s.seed_bytes settings)
        s
  emit_to games code _ s = s

  unfoldable pub emit_match_ready : Registry G → Text → Server G → Server G
  unfolding emit_to get_room_member_ids
  emit_match_ready games code s = emit_to games code (get_room_member_ids code s) s

  -- The room without the client; an empty one is deleted with its game id.
  unfoldable pub close_if_empty : Text → List Text → Server G → Server G
  close_if_empty code [] s = record s {
    rooms = erase code s.rooms;
    room_game_ids = erase code s.room_game_ids;
  }
  close_if_empty code (m ∷ ms) s = s

  unfoldable pub leave_members : Text → Text → Text → List Text → Server G → Server G
  unfolding close_if_empty broadcast_to_room
  leave_members client reason code members s =
      let left = remove client members in
      let s1 = record s { rooms = set code left s.rooms } in
      close_if_empty code left
        (broadcast_to_room code (player_left client code (length left) reason) none s1)

  -- The room's side of a leave: nothing where the room is gone.
  unfoldable pub leave_room_of : Text → Text → Text → Server G → Server G
  unfolding leave_members
  leave_room_of client reason code s = elim (get? code s.rooms) [
    | none ↦ s
    | some members ↦ leave_members client reason code members s
  ]

  unfoldable pub leave_room : Text → Text → Server G → Server G
  unfolding leave_room_of
  leave_room client reason s = elim (get? client s.client_rooms) [
    | none ↦ s
    | some code ↦
        let t = leave_room_of client reason code s in
        send_to_client client (room_left code)
          (record t { client_rooms = erase client t.client_rooms })
  ]
