-- ===== src/Router/Entering.antt =====
-- Creating, joining and finding a lobby, of src/lobby.mjs and src/router.mjs, and the maps of rooms
-- and queues.
use mathlib.Core.Path.{subst}
use factory_network_server.Prelude.{
  ◌≡◌, refl, sym, ◌∙◌, Bool, true, false, Option, none, some, arith, Option-cases, inl, inr,
}
use factory_network_server.Prelude.Texts.{Text, codes, Text_eq}
use factory_network_server.Prelude.Maps.{get?, set, has}
use factory_network_server.Js.Values.{Json, text, Fields, get_field}
use factory_network_server.Js.Convert.{Host}
use factory_network_server.Util.{Limits, sanitize_lobby_game_id, sanitize_lobby_limits}
use factory_network_server.State.{Server, Lobby}
use factory_network_server.Transport.{send_to_client, unique_room_code}
use factory_network_server.Transport.Codes.{unique_room_code-untaken}
use factory_network_server.Matchmaking.{leave_queue}
use factory_network_server.Matchmaking.Waiting.{leave_queue-IsSingle, waiting-leave_queue}
use factory_network_server.LobbyBus.{broadcast_to_lobby, send_lobby_updated}
use factory_network_server.Games.{Registry}
use factory_network_server.Lobby.Hooks.{put_lobby}
use factory_network_server.Lobby.Leaving.{leave_lobby, leave_display_lobby}
use factory_network_server.Lobby.Frame.{
  outside, outside-if, outside-leave_lobby, outside-leave_display_lobby,
  outside-maybe_start_lobby_countdown,
}
use factory_network_server.Lobby.Creating.{
  release_client, enter_new_lobby, read_lobby, build_lobby, create_lobby,
}
use factory_network_server.Lobby.Joining.{
  text_or_empty, join_refusal, object_after, refresh_joined, keep_lobby, enter_lobby,
  join_lobby_found, join_lobby_at, join_lobby,
}
use factory_network_server.Lobby.Search.{find_open_lobby}
use factory_network_server.Rooms.Seats.{leave_room}
use factory_network_server.Router.Lobbies.{join_or_create, find_with_limits, find_lobby_message}
use factory_network_server.Router.Orderly.{IsOrderly, IsOrderly-outside, leave_room-IsOrderly}

module _ {G : Type 0} (games : Registry G) (client : Text) where
  -- Out of queue, room and lobbies.
  release_client-IsOrderly :
      (room_reason lobby_reason : Text) (s : Server G)
      → IsOrderly s
      → IsOrderly (release_client games client room_reason lobby_reason s)
  unfolding release_client
  release_client-IsOrderly room_reason lobby_reason s v =
      let s1 = record s { match_queues = (leave_queue client s.match_queues).1 } in
      let s2 = leave_room client room_reason s1 in
      let s3 = leave_lobby games client lobby_reason s2 in
      let unqueued : IsOrderly s1 = record {
        consistent = v.consistent;
        single = leave_queue-IsSingle client s.match_queues v.single;
        idle = λ a w. v.idle a (omega (arith, w, waiting-leave_queue a client s.match_queues));
      } in
      IsOrderly-outside (leave_display_lobby games client s3) s2
        (outside-leave_display_lobby games client s3
          ∙ outside-leave_lobby games client lobby_reason s2)
        (leave_room-IsOrderly client room_reason s1 unqueued)

  outside-enter_new_lobby :
      (display : Bool) (identity : Option Json) (code : Text) (lobby : Lobby G) (s : Server G)
      → outside (enter_new_lobby client display identity code lobby s) ≡ outside s
  unfolding enter_new_lobby put_lobby send_to_client
  outside-enter_new_lobby true identity code lobby s = refl
  outside-enter_new_lobby false identity code lobby s = refl

  outside-build_lobby :
      (host : Host) (get : Text → Option Json) (private display : Bool) (code : Text) (s : Server G)
      → outside (build_lobby host games client get private display code s).1 ≡ outside s
  unfolding build_lobby
  outside-build_lobby host get private display code s =
      elim (Option-cases (read_lobby host games get)) [
        | inl e ↦ rw (e, build_lobby)
        | inr (found, e) ↦
            rw (e, build_lobby) (outside-enter_new_lobby display (get (codes "identity")) code _ s)
      ]

  pub create_lobby-IsOrderly :
      (host : Host) (get : Text → Option Json) (private display : Bool) (s : Server G)
      → IsOrderly s
      → IsOrderly (create_lobby host games client get private display s).1
  unfolding create_lobby
  create_lobby-IsOrderly host get private display s v =
      let t = release_client games client (codes "create_lobby") (codes "create_new_lobby") s in
      let freed = release_client-IsOrderly (codes "create_lobby") (codes "create_new_lobby") s v in
      elim (Option-cases (unique_room_code t)) [
        | inl e ↦ rw (e, create_lobby) freed
        | inr ((code, u), e) ↦
            let (fresh, (rest, same)) = unique_room_code-untaken t code u e in
            rw (e, create_lobby)
              (IsOrderly-outside (build_lobby host games client get private display code u).1 u
                (outside-build_lobby host get private display code u)
                (subst IsOrderly (sym same) freed))
      ]

  outside-refresh_joined :
      (code : Text) (lobby : Lobby G) (s : Server G)
      → outside (refresh_joined code lobby s) ≡ outside s
  unfolding refresh_joined send_lobby_updated broadcast_to_lobby
  outside-refresh_joined code lobby s =
      outside-if (has code s.lobbies) _ _ (outside-maybe_start_lobby_countdown code lobby s) refl

  outside-keep_lobby :
      (code : Text) (lobby : Lobby G) (s : Server G) → outside (keep_lobby code lobby s) ≡ outside s
  unfolding keep_lobby put_lobby
  outside-keep_lobby code lobby s = outside-if (has code s.lobbies) _ _ refl refl

  outside-enter_lobby :
      (code : Text) (identity : Option Json) (lobby : Lobby G) (s : Server G)
      → outside (enter_lobby client code identity lobby s) ≡ outside s
  unfolding enter_lobby send_to_client broadcast_to_lobby
  outside-enter_lobby code identity lobby s =
      outside-refresh_joined code _ _
      ∙ outside-keep_lobby code _ (record s { client_lobbies = set client code s.client_lobbies })

  join_lobby_found-IsOrderly :
      (code : Text) (identity expected : Option Json) (lobby : Lobby G) (s : Server G)
      → IsOrderly s
      → IsOrderly (join_lobby_found games client code identity expected lobby s)
  unfolding join_lobby_found send_to_client
  join_lobby_found-IsOrderly code identity expected lobby s v =
      let held =
        object_after games client (codes "join_lobby") (codes "switch_lobby") code lobby s in
      let freed = release_client games client (codes "join_lobby") (codes "switch_lobby") s in
      elim (Option-cases (join_refusal expected lobby)) [
        | inl e ↦
            rw (e, join_lobby_found)
              (IsOrderly-outside (enter_lobby client code identity held freed) freed
                (outside-enter_lobby code identity held freed)
                (release_client-IsOrderly (codes "join_lobby") (codes "switch_lobby") s v))
        | inr (error, e) ↦ rw (e, join_lobby_found) v
      ]

  join_lobby_at-IsOrderly :
      (code : Text) (identity expected : Option Json) (s : Server G)
      → IsOrderly s
      → IsOrderly (join_lobby_at games client code identity expected s)
  unfolding join_lobby_at send_to_client
  join_lobby_at-IsOrderly code identity expected s v = elim (Option-cases (get? code s.lobbies)) [
    | inl e ↦ rw (e, join_lobby_at) v
    | inr (lobby, e) ↦
        rw (e, join_lobby_at) (join_lobby_found-IsOrderly code identity expected lobby s v)
  ]

  pub join_lobby-IsOrderly :
      (host : Host) (room_code identity expected : Option Json) (s : Server G)
      → IsOrderly s
      → IsOrderly (join_lobby host games client room_code identity expected s).1
  unfolding join_lobby
  join_lobby-IsOrderly host room_code identity expected s v =
      elim (Option-cases (text_or_empty host room_code)) [
        | inl e ↦ rw (e, join_lobby) v
        | inr (typed, e) ↦ rw (e, join_lobby) (join_lobby_at-IsOrderly _ identity expected s v)
      ]

  join_or_create-IsOrderly :
      (host : Host) (frame : Fields) (found : Option (Lobby G)) (s : Server G)
      → IsOrderly s
      → IsOrderly (join_or_create host games client frame found s).1
  unfolding join_or_create
  join_or_create-IsOrderly host frame (some found) s v =
      join_lobby-IsOrderly host _ (get_field (codes "identity") frame) none s v
  join_or_create-IsOrderly host frame none s v = create_lobby-IsOrderly host _ false false s v

  find_with_limits-IsOrderly :
      (host : Host) (frame : Fields) (limits : Limits) (s : Server G)
      → IsOrderly s
      → IsOrderly (find_with_limits host games client frame limits s).1
  unfolding find_with_limits
  find_with_limits-IsOrderly host frame limits s v =
      let game = some (text (sanitize_lobby_game_id (get_field (codes "gameId") frame))) in
      let found = find_open_lobby host game (some limits) (get_field (codes "settings") frame) s in
      elim (Option-cases found) [
        | inl e ↦ rw (e, find_with_limits) v
        | inr (lobby, e) ↦ rw (e, find_with_limits) (join_or_create-IsOrderly host frame lobby s v)
      ]

  -- Finding a lobby, or creating one.
  pub find_lobby_message-IsOrderly :
      (host : Host) (frame : Fields) (s : Server G)
      → IsOrderly s
      → IsOrderly (find_lobby_message host games client frame s).1
  unfolding find_lobby_message
  find_lobby_message-IsOrderly host frame s v =
      let limits =
        sanitize_lobby_limits host (get_field (codes "minPlayers") frame)
          (get_field (codes "maxPlayers") frame) in
      elim (Option-cases limits) [
        | inl e ↦ rw (e, find_lobby_message) v
        | inr (l, e) ↦ rw (e, find_lobby_message) (find_with_limits-IsOrderly host frame l s v)
      ]
