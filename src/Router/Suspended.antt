-- ===== src/Router/Suspended.antt =====
-- Leaving queues and rooms of src/router.mjs, and the maps that seats in lobbies depend on.
use factory_network_server.Prelude.{
  ℕ, ◌≡◌, refl, ◌∙◌, Bool, true, false, Option, none, some, List, [], ◌∷◌, if◌then◌else◌,
  Option-cases, inl, inr,
}
use factory_network_server.Prelude.Texts.{Text, Text_eq}
use factory_network_server.Prelude.Maps.{Map, get?, keys}
use factory_network_server.State.{Server, Lobby, Suspension}
use factory_network_server.Transport.{send_to_client}
use factory_network_server.Matchmaking.{
  leave_queue, send_queue_status, send_status_each, broadcast_queue_status,
  should_receive_queue_status, get_game_id_from_queue_key,
}
use factory_network_server.Rooms.Seats.{
  leave_room, leave_room_of, leave_members, close_if_empty, broadcast_to_room,
}
use factory_network_server.Router.Matching.{leave_queues, announce_removed}
use factory_network_server.Router.Disconnect.{leave_play}

-- What the seats in lobbies depend on.
pub record LobbySide (G : Type 0) : Type 0 where
  pub lobbies : Map Text (Lobby G)
  pub client_lobbies : Map Text Text
  pub client_display_lobbies : Map Text Text
  pub client_session_tokens : Map Text Text
  pub suspended_lobby_sessions : Map Text Suspension
  pub now : ℕ

module _ {G : Type 0} where
  abbrev pub lobby_side : Server G → LobbySide G
  lobby_side s = record {
    lobbies = s.lobbies;
    client_lobbies = s.client_lobbies;
    client_display_lobbies = s.client_display_lobbies;
    client_session_tokens = s.client_session_tokens;
    suspended_lobby_sessions = s.suspended_lobby_sessions;
    now = s.now;
  }

  side-send_status_each :
      (cs : List Text) (game : Text) (s : Server G)
      → lobby_side (send_status_each cs game s) ≡ lobby_side s
  unfolding send_status_each send_queue_status send_to_client
  side-send_status_each [] game s = refl
  side-send_status_each (c ∷ cs) game s =
      side-send_status_each cs game _
      ∙ told (should_receive_queue_status s.client_queue_watch c game)
    where
      told : (b : Bool) → lobby_side (if b then send_queue_status c game s else s) ≡ lobby_side s
      told true = refl
      told false = refl

  side-broadcast_queue_status :
      (game : Text) (s : Server G) → lobby_side (broadcast_queue_status game s) ≡ lobby_side s
  unfolding broadcast_queue_status
  side-broadcast_queue_status [] s = refl
  side-broadcast_queue_status (c ∷ game) s = side-send_status_each (keys s.clients) (c ∷ game) s

  side-announce_removed :
      (key : Option Text) (s : Server G) → lobby_side (announce_removed key s) ≡ lobby_side s
  unfolding announce_removed
  side-announce_removed none s = refl
  side-announce_removed (some key) s =
      side-broadcast_queue_status (get_game_id_from_queue_key key) s

  side-close_if_empty :
      (code : Text) (left : List Text) (s : Server G)
      → lobby_side (close_if_empty code left s) ≡ lobby_side s
  unfolding close_if_empty
  side-close_if_empty code [] s = refl
  side-close_if_empty code (m ∷ ms) s = refl

  side-leave_room_of :
      (client reason code : Text) (s : Server G)
      → lobby_side (leave_room_of client reason code s) ≡ lobby_side s
  unfolding leave_room_of leave_members broadcast_to_room
  side-leave_room_of client reason code s = elim (Option-cases (get? code s.rooms)) [
    | inl e ↦ rw (e, leave_room_of)
    | inr (ms, e) ↦ rw (e, leave_room_of) (side-close_if_empty code _ _)
  ]

  side-leave_room :
      (client reason : Text) (s : Server G) → lobby_side (leave_room client reason s) ≡ lobby_side s
  unfolding leave_room send_to_client
  side-leave_room client reason s = elim (Option-cases (get? client s.client_rooms)) [
    | inl e ↦ rw (e, leave_room)
    | inr (code, e) ↦ rw (e, leave_room) (side-leave_room_of client reason code s)
  ]

  -- Leaving queues and rooms changes nothing of it.
  pub side-leave_play :
      (client reason : Text) (s : Server G)
      → lobby_side (leave_play none client reason s) ≡ lobby_side s
  unfolding leave_play leave_queues
  side-leave_play client reason s =
      let (removed, queues) = leave_queue client s.match_queues in
      side-leave_room client reason (leave_queues client s)
      ∙ side-announce_removed removed (record s { match_queues = queues })
