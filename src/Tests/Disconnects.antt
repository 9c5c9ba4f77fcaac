-- ===== src/Tests/Disconnects.antt =====
-- Sockets that are lost.
use factory_network_server.Prelude.{ℕ, ◌≡◌, refl, none, some, [], ◌∷◌}
use factory_network_server.Prelude.Texts.{Text, codes, Text_eq, text_eq}
use factory_network_server.Prelude.Maps.{get?, has, set, erase}
use factory_network_server.State.{Server, started}
use factory_network_server.Games.{Registry}
use factory_network_server.Matchmaking.{side_pair, leave_queue}
use factory_network_server.Lobby.Leaving.{leave_display_lobby, disconnect_match}
use factory_network_server.Lobby.Hooks.{run_change, send_game_all}
use factory_network_server.LobbyBus.{broadcast_to_lobby}
use factory_network_server.Router.Matching.{leave_queues}
use factory_network_server.Lobby.Sessions.{suspend_lobby_client}
use factory_network_server.Rooms.Seats.{leave_room}
use factory_network_server.Router.Free.{IsFree}
use factory_network_server.Router.Disconnect.{
  handle_client_disconnect, is_suspended, handle_client_disconnect_again,
}
use factory_network_server.Router.Gone.{handle_client_disconnect-IsFree}
use factory_network_server.Tests.Rooms.{registry, empty, empty-IsOrderly, p1, p2}
use factory_network_server.Tests.Lobbies.{lobby_of, game}

handle_client_disconnect-IsFree_example :
    IsFree p1 (handle_client_disconnect registry none p1 (codes "error") empty)
unfolding is_suspended has text_eq
handle_client_disconnect-IsFree_example =
    handle_client_disconnect-IsFree registry p1 (codes "error") empty empty-IsOrderly refl

-- A game that keeps a lost seat for a while.
abbrev pub patient : Registry ℕ
patient = record {
  lobby_game = λ id. some game;
  matchmaking_strategy = λ id. side_pair;
  match_settings = λ id seed. none;
}

abbrev pub code : Text
code = codes "AAAAA"

-- Both play.
abbrev pub playing : Server ℕ
playing = record empty {
  lobbies =
      (code, record (lobby_of code 9) { status = started; owner_id = p1; members = p1 ∷ p2 ∷ [] })
      ∷ [];
  client_lobbies = (p1, code) ∷ (p2, code) ∷ [];
}

handle_client_disconnect_again_example :
    handle_client_disconnect patient none p1
      (codes "close")
      (handle_client_disconnect patient none p1 (codes "error") playing)
    ≡ handle_client_disconnect patient none p1 (codes "error") playing
unfolding handle_client_disconnect suspend_lobby_client text_eq get? has set erase leave_queue
    leave_room leave_display_lobby leave_queues disconnect_match broadcast_to_lobby run_change
    send_game_all
handle_client_disconnect_again_example =
    handle_client_disconnect_again patient none none p1 (codes "error") (codes "close") playing refl
