-- ===== src/Router/Matching.antt =====
-- The handlers of src/router.mjs for matchmaking.
use factory_network_server.Prelude.{ℕ, false, Option, none, some, [], ◌∷◌}
use factory_network_server.Prelude.Texts.{Text, codes, Text_eq}
use factory_network_server.Prelude.Maps.{set}
use factory_network_server.Js.Values.{Json}
use factory_network_server.State.{Server, room_joined, player_joined, searching, search_cancelled}
use factory_network_server.Transport.{reply, send_to_client, unique_room_code}
use factory_network_server.Matchmaking.{
  set_client_side, leave_queue, claim_queued_opponent, enqueue_match_client, broadcast_queue_status,
  send_queue_status, get_game_id_from_queue_key, assign_side_for_strategy, Queues,
}
use factory_network_server.Games.{Registry}
use factory_network_server.Lobby.Leaving.{leave_lobby, leave_display_lobby}
use factory_network_server.Rooms.Seats.{leave_room, emit_match_ready}

module _ {G : Type 0} where
  -- `if (removedQueueKey) broadcastQueueStatus(…)`; a key is never the empty string here.
  unfoldable pub announce_removed : Option Text → Server G → Server G
  announce_removed none s = s
  announce_removed (some key) s = broadcast_queue_status (get_game_id_from_queue_key key) s

  -- `leaveQueue` on the server's queues, and the news of it.
  unfoldable pub leave_queues : Text → Server G → Server G
  unfolding announce_removed
  leave_queues client s =
      let (removed, queues) = leave_queue client s.match_queues in
      announce_removed removed (record s { match_queues = queues })

  -- The room of the pair.
  unfoldable pub open_match : Text → Text → Text → Text → Server G → Server G
  open_match opponent client game code s = record s {
    rooms = set code (opponent ∷ client ∷ []) s.rooms;
    room_game_ids = set code game s.room_game_ids;
    client_rooms = set client code (set opponent code s.client_rooms);
  }

  unfoldable pub tell_pair : Registry G → Text → Text → Text → Server G → Server G
  tell_pair games opponent client code s =
      let s1 = send_to_client opponent (room_joined code 2 false) s in
      let s2 = send_to_client client (room_joined code 2 false) s1 in
      let s3 = send_to_client opponent (player_joined client code 2) s2 in
      let s4 = send_to_client client (player_joined opponent code 2) s3 in
      emit_match_ready games code s4

  unfoldable pub pair_up :
      Registry G → Text → Text → Text → Option (Text × Server G) → Server G → Server G
  unfolding open_match tell_pair
  pair_up games opponent client game none s = s
  pair_up games opponent client game (some (code, t)) s =
      tell_pair games opponent client code (open_match opponent client game code t)

  -- The opponent that was claimed, or the wait for one.
  unfoldable pub meet_or_wait :
      Registry G → Text → ℕ → Text → Option Text → Option Text × Queues → Server G → Server G
  unfolding pair_up
  meet_or_wait games client ws game side (some opponent, queues) s =
      let t = broadcast_queue_status game (record s { match_queues = queues }) in
      pair_up games opponent client game (unique_room_code t) t
  meet_or_wait games client ws game side (none, queues) s =
      let waiting_queues = enqueue_match_client queues game side client in
      reply ws (searching game side)
        (broadcast_queue_status game (record s { match_queues = waiting_queues }))

  -- The client's side for the search, and the watch on the game's queues.
  unfoldable pub take_side :
      Registry G → Text → Text → Option Json → Server G → Option Text × Server G
  take_side games client game requested s =
      let assigned =
        assign_side_for_strategy (games.matchmaking_strategy game) game requested s.match_queues in
      let (side, t) = set_client_side client assigned s in
      (side, record t { client_queue_watch = set client game t.client_queue_watch })

  -- Out of every room, lobby and queue before the search.
  unfoldable pub free_client : Registry G → Text → Server G → Server G
  unfolding leave_queues
  free_client games client s =
      let s1 = leave_room client (codes "find_match") s in
      let s2 = leave_lobby games client (codes "find_match") s1 in
      leave_queues client (leave_display_lobby games client s2)

  unfoldable pub find_match : Registry G → Text → ℕ → Text → Option Json → Server G → Server G
  unfolding take_side free_client meet_or_wait
  find_match games client ws game requested s =
      let (side, s1) = take_side games client game requested s in
      let s2 = free_client games client s1 in
      meet_or_wait games client ws game side (claim_queued_opponent s2.match_queues game side) s2

  unfoldable pub watch_queue_status : Text → Text → Server G → Server G
  watch_queue_status client game s =
      send_queue_status client game
        (record s { client_queue_watch = set client game s.client_queue_watch })

  unfoldable pub cancel_match : Text → ℕ → Server G → Server G
  unfolding leave_queues
  cancel_match client ws s = reply ws search_cancelled (leave_queues client s)
