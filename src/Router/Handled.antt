-- ===== src/Router/Handled.antt =====
-- Each handler of src/router.mjs, and the maps of rooms and queues.
use factory_network_server.Prelude.{
  ℕ, ◌≡◌, Bool, true, false, Option, none, some, arith, Option-cases, inl, inr, ltb, ◌&&◌,
}
use factory_network_server.Prelude.Texts.{Text, codes, Text_eq}
use factory_network_server.Prelude.Maps.{get?}
use factory_network_server.Js.Values.{Json, Fields, get_field}
use factory_network_server.Js.Convert.{Host}
use factory_network_server.State.{Server}
use factory_network_server.Transport.{reply, send_to_client}
use factory_network_server.Matchmaking.{send_queue_status}
use factory_network_server.Matchmaking.Waiting.{waiting}
use factory_network_server.Games.{Registry}
use factory_network_server.Lobby.Frame.{outside, outside-leave_lobby}
use factory_network_server.Lobby.Quiet.{outside-request_start_lobby, outside-update_lobby_settings}
use factory_network_server.Lobby.Joining.{text_or_empty}
use factory_network_server.Rooms.Seats.{broadcast_to_room}
use factory_network_server.Router.Rooms.{
  join_room_by_code, leave_room_message, send_room_message, send_direct_message,
}
use factory_network_server.Router.Matching.{find_match, watch_queue_status}
use factory_network_server.Router.Lobbies.{
  create_lobby_message, join_lobby_message, update_lobby_settings_message, start_lobby_message,
  leave_lobby_message,
}
use factory_network_server.Router.Messages.{text_or_nothing, lobby_message_handler}
use factory_network_server.Router.Orderly.{
  IsOrderly, IsOrderly-outside, leave_room-IsOrderly, cancel_match-IsOrderly,
}
use factory_network_server.Router.Search.{find_match-IsOrderly}
use factory_network_server.Router.Hazards.{create_room-IsOrderly}
use factory_network_server.Router.Entering.{
  create_lobby-IsOrderly, join_lobby-IsOrderly, find_lobby_message-IsOrderly,
}
use factory_network_server.Router.Served.{
  join_room-IsOrderly, outside-lobby_message_handler, resume_lobby_message-IsOrderly,
}
use factory_network_server.Router.Dispatch.{
  Kind, creating_lobby, joining_lobby, finding_lobby, updating_settings, starting_lobby,
  leaving_lobby, resuming_lobby, messaging_lobby, creating_room, joining_room, leaving_room,
  messaging_room, messaging_client, finding_match, asking_status, cancelling_match, pinging,
  with_text, game_or_default, room_message_handler, direct_message_handler, run_handler,
}

-- The handlers that give the client a seat in a room without taking him out of the queues.
abbrev pub takes_seat : Kind → Bool
takes_seat creating_room = true
takes_seat joining_room = true
takes_seat _ = false

module _ {G : Type 0} where
  abbrev pub kind_enters : Option Kind → Text → Server G → Bool
  kind_enters none client s = false
  kind_enters (some kind) client s = takes_seat kind && ltb 0 (waiting client s.match_queues)

  with_text-IsOrderly :
      (t : Option Text) (f : Text → Server G → Server G) (s : Server G)
      → IsOrderly s
      → ((u : Text) → IsOrderly (f u s))
      → IsOrderly (with_text t f s).1
  unfolding with_text
  with_text-IsOrderly none f s v k = v
  with_text-IsOrderly (some u) f s v k = k u

  outside-send_room_message :
      (client : Text) (ws : ℕ) (message_type value : Text) (s : Server G)
      → outside (send_room_message client ws message_type value s) ≡ outside s
  unfolding send_room_message broadcast_to_room reply
  outside-send_room_message client ws message_type value s = ground arith

  outside-send_direct_message :
      (client : Text) (ws : ℕ) (target message_type value : Text) (s : Server G)
      → outside (send_direct_message client ws target message_type value s) ≡ outside s
  unfolding send_direct_message send_to_client reply
  outside-send_direct_message client ws target message_type value s = ground arith

module _ {G : Type 0} (parse : Text → Option Json) (host : Host) (games : Registry G)
    (client : Text) (ws : ℕ) where
  room_message_handler-IsOrderly :
      (frame : Fields) (s : Server G)
      → IsOrderly s
      → IsOrderly (room_message_handler parse host games client ws frame s).1
  unfolding room_message_handler reply
  room_message_handler-IsOrderly frame s v = elim (Option-cases (get? client s.client_rooms)) [
    | inl e ↦ rw (e, room_message_handler) v
    | inr (code, e) ↦
        elim (Option-cases (text_or_empty host (get_field (codes "messageType") frame))) [
          | inl f ↦ rw (e, room_message_handler) (rw f v)
          | inr (message_type, f) ↦
              rw (e, room_message_handler)
                (rw f (
                  with_text-IsOrderly (text_or_nothing host (get_field (codes "value") frame))
                    (send_room_message client ws message_type) s v
                    λ value.
                      IsOrderly-outside (send_room_message client ws message_type value s) s
                        (outside-send_room_message client ws message_type value s) v))
        ]
  ]

  direct_message_handler-IsOrderly :
      (frame : Fields) (s : Server G)
      → IsOrderly s
      → IsOrderly (direct_message_handler parse host games client ws frame s).1
  unfolding direct_message_handler
  direct_message_handler-IsOrderly frame s v =
      elim (Option-cases (text_or_empty host (get_field (codes "targetId") frame))) [
        | inl e ↦ rw (e, direct_message_handler) v
        | inr (target, e) ↦
            elim (Option-cases (text_or_empty host (get_field (codes "messageType") frame))) [
              | inl f ↦ rw (e, direct_message_handler) (rw f v)
              | inr (message_type, f) ↦
                  rw (e, direct_message_handler)
                    (rw f (
                      with_text-IsOrderly (text_or_nothing host (get_field (codes "value") frame))
                        (send_direct_message client ws target message_type) s v
                        λ value.
                          IsOrderly-outside
                            (send_direct_message client ws target message_type value s) s
                            (outside-send_direct_message client ws target message_type value s) v))
            ]
      ]

  -- Each handler of the table.
  pub run_handler-IsOrderly :
      (kind : Kind) (frame : Fields) (s : Server G)
      → IsOrderly s
      → kind_enters (some kind) client s ≡ false
      → IsOrderly (run_handler parse host games client ws kind frame s).1
  unfolding run_handler create_lobby_message join_lobby_message update_lobby_settings_message
      start_lobby_message leave_lobby_message join_room_by_code leave_room_message
      watch_queue_status send_queue_status send_to_client reply
  run_handler-IsOrderly creating_lobby frame s v h =
      create_lobby-IsOrderly games client host (λ k. get_field k frame) _ _ s v
  run_handler-IsOrderly joining_lobby frame s v h = join_lobby-IsOrderly games client host _ _ _ s v
  run_handler-IsOrderly finding_lobby frame s v h =
      find_lobby_message-IsOrderly games client host frame s v
  run_handler-IsOrderly updating_settings frame s v h =
      IsOrderly-outside (update_lobby_settings_message host games client frame s).1 s
        (outside-update_lobby_settings games host client (λ k. get_field k frame) s) v
  run_handler-IsOrderly starting_lobby frame s v h =
      IsOrderly-outside (start_lobby_message host games client s) s
        (outside-request_start_lobby games client s) v
  run_handler-IsOrderly leaving_lobby frame s v h =
      IsOrderly-outside (leave_lobby_message host games client s) s
        (outside-leave_lobby games client (codes "left") s) v
  run_handler-IsOrderly resuming_lobby frame s v h =
      resume_lobby_message-IsOrderly games client ws host frame s v
  run_handler-IsOrderly messaging_lobby frame s v h =
      IsOrderly-outside (lobby_message_handler parse client ws host games frame s).1 s
        (outside-lobby_message_handler games client ws parse host frame s) v
  run_handler-IsOrderly creating_room frame s v h =
      create_room-IsOrderly games client ws _ _ s v (ground (arith, h))
  run_handler-IsOrderly joining_room frame s v h =
      with_text-IsOrderly (text_or_empty host (get_field (codes "roomCode") frame))
        (λ code.
          join_room_by_code games client code (get_field (codes "side") frame)
            (get_field (codes "gameId") frame))
        s v λ code. join_room-IsOrderly games client ws _ _ _ s v (ground (arith, h))
  run_handler-IsOrderly leaving_room frame s v h = leave_room-IsOrderly client (codes "left") s v
  run_handler-IsOrderly messaging_room frame s v h = room_message_handler-IsOrderly frame s v
  run_handler-IsOrderly messaging_client frame s v h = direct_message_handler-IsOrderly frame s v
  run_handler-IsOrderly finding_match frame s v h =
      with_text-IsOrderly (game_or_default host (get_field (codes "gameId") frame))
        (λ game. find_match games client ws game (get_field (codes "side") frame)) s v
        λ game. find_match-IsOrderly games client ws game _ s v
  run_handler-IsOrderly asking_status frame s v h =
      with_text-IsOrderly (game_or_default host (get_field (codes "gameId") frame))
        (watch_queue_status client) s v λ game. v
  run_handler-IsOrderly cancelling_match frame s v h = cancel_match-IsOrderly client ws s v
  run_handler-IsOrderly pinging frame s v h = v
