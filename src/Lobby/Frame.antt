-- ===== src/Lobby/Frame.antt =====
-- `leaveLobby` and `leaveDisplayLobby` of src/lobby.mjs, and the maps of the server that are not of
-- lobbies.
use factory_network_server.Prelude.{
  ℕ, ◌≡◌, refl, ◌∙◌, Bool, true, false, Option, none, some, List, [], ◌∷◌, if◌then◌else◌,
  Option-cases, Bool-cases, inl, inr, is_some_of,
}
use factory_network_server.Prelude.Texts.{Text, Text_eq}
use factory_network_server.Prelude.Maps.{Map, get?, erase}
use factory_network_server.State.{Server, Lobby, lobby_left, lobby_closed}
use factory_network_server.Transport.{send_to_client}
use factory_network_server.LobbyBus.{broadcast_to_lobby, send_lobby_updated}
use factory_network_server.Games.{
  GameSend, to_member, to_lobby, refresh, Change, LobbyGame, Registry,
}
use factory_network_server.Lobby.Hooks.{
  put_lobby, send_game, send_game_all, changed, run_change, run_hook, without_countdown,
  maybe_start_lobby_countdown,
}
use factory_network_server.Lobby.Leaving.{
  clear_suspended_lobby_session, without_member, without_seat, is_match_active, cancel_if_pending,
  disconnect_match, refresh_after_leave, leave_others, close_lobby, leave_empty, leave_rest,
  leave_seat, leave_lobby, dismiss, close_display, leave_display_lobby,
}

-- The parts of the server that belong to sockets, rooms and queues.
pub record Outside : Type 0 where
  pub clients : Map Text ℕ
  pub client_rooms : Map Text Text
  pub rooms : Map Text (List Text)
  pub room_game_ids : Map Text Text
  pub client_sides : Map Text Text
  pub match_queues : Map Text (List Text)
  pub client_queue_watch : Map Text Text
  pub draws : List (List ℕ)

module _ {G : Type 0} where
  abbrev pub outside : Server G → Outside
  outside s = record {
    clients = s.clients;
    client_rooms = s.client_rooms;
    rooms = s.rooms;
    room_game_ids = s.room_game_ids;
    client_sides = s.client_sides;
    match_queues = s.match_queues;
    client_queue_watch = s.client_queue_watch;
    draws = s.draws;
  }

  pub outside-if :
      (b : Bool) (x y : Server G) {o : Outside}
      → outside x ≡ o
      → outside y ≡ o
      → outside (if b then x else y) ≡ o
  outside-if true x y p q = p
  outside-if false x y p q = q

  outside-send_game :
      (lobby : Lobby G) (m : GameSend) (s : Server G) → outside (send_game lobby m s) ≡ outside s
  unfolding send_game send_to_client send_lobby_updated broadcast_to_lobby
  outside-send_game lobby (to_member c p) s = refl
  outside-send_game lobby (to_lobby p) s = refl
  outside-send_game lobby refresh s = refl

  outside-send_game_all :
      (lobby : Lobby G) (ms : List GameSend) (s : Server G)
      → outside (send_game_all lobby ms s) ≡ outside s
  unfolding send_game_all
  outside-send_game_all lobby [] s = refl
  outside-send_game_all lobby (m ∷ ms) s =
      outside-send_game_all lobby ms (send_game lobby m s) ∙ outside-send_game lobby m s

  pub outside-run_change :
      (code : Text) (lobby : Lobby G) (c : Change G) (s : Server G)
      → outside (run_change code lobby c s).1 ≡ outside s
  unfolding run_change
  outside-run_change code lobby c s = outside-send_game_all (changed lobby c) c.sends _

  pub outside-run_hook :
      (code : Text) (game : Option (LobbyGame G)) (hook : LobbyGame G → Lobby G → Change G)
      (lobby : Lobby G) (s : Server G)
      → outside (run_hook code game hook lobby s).1 ≡ outside s
  unfolding run_hook
  outside-run_hook code none hook lobby s = refl
  outside-run_hook code (some g) hook lobby s = outside-run_change code lobby (hook g lobby) s

  pub outside-maybe_start_lobby_countdown :
      (code : Text) (lobby : Lobby G) (s : Server G)
      → outside (maybe_start_lobby_countdown code lobby s).1 ≡ outside s
  unfolding maybe_start_lobby_countdown send_lobby_updated broadcast_to_lobby
  outside-maybe_start_lobby_countdown code lobby s = refl

  outside-cancel_if_pending :
      (code : Text) (game : Option (LobbyGame G)) (now : ℕ) (lobby : Lobby G) (s : Server G)
      → outside (cancel_if_pending code game now lobby s).1 ≡ outside s
  unfolding cancel_if_pending
  outside-cancel_if_pending code none now lobby s = refl
  outside-cancel_if_pending code (some g) now lobby s =
      elim (Bool-cases (g.is_match_pending_start lobby now)) [
        | inl e ↦ rw e (outside-run_change code lobby (g.cancel_pending_start lobby) s)
        | inr e ↦ rw e
      ]

  pub outside-disconnect_match :
      (code : Text) (game : Option (LobbyGame G)) (client : Text) (now : ℕ) (lobby : Lobby G)
      (s : Server G)
      → outside (disconnect_match code game client now lobby s).0.1 ≡ outside s
  unfolding disconnect_match
  outside-disconnect_match code none client now lobby s = refl
  outside-disconnect_match code (some g) client now lobby s =
      outside-run_change code lobby (g.apply_disconnect lobby client now).0 s

  outside-refresh_after_leave :
      (code : Text) (game : Option (LobbyGame G)) (r : Lobby G × Server G)
      → outside (refresh_after_leave code game r) ≡ outside r.1
  unfolding refresh_after_leave send_lobby_updated broadcast_to_lobby maybe_start_lobby_countdown
  outside-refresh_after_leave code game (lobby, s) =
      outside-if (is_match_active game lobby) s _ refl refl

  outside-played :
      (code : Text) (game : Option (LobbyGame G)) (b : Bool) (lobby : Lobby G) (s : Server G)
      → outside
          (if b then run_hook code game (λ g. g.broadcast_after_leave) lobby s else (lobby, s)).1
        ≡ outside s
  outside-played code game true lobby s = outside-run_hook code game _ lobby s
  outside-played code game false lobby s = refl

  outside-leave_others :
      (code : Text) (game : Option (LobbyGame G)) (client reason : Text) (left : Lobby G)
      (s : Server G)
      → outside (leave_others code game client reason left s) ≡ outside s
  unfolding leave_others broadcast_to_lobby put_lobby
  outside-leave_others code game client reason left s =
      outside-refresh_after_leave code game _
      ∙ outside-played code game _ _ _
      ∙ outside-disconnect_match code game client s.now _ _
      ∙ outside-cancel_if_pending code game s.now _ _

  outside-close_lobby :
      (code : Text) (game : Option (LobbyGame G)) (lobby : Lobby G) (s : Server G)
      → outside (close_lobby code game lobby s) ≡ outside s
  unfolding close_lobby put_lobby
  outside-close_lobby code game lobby s = outside-run_hook code game _ _ _

  outside-leave_rest :
      (code : Text) (game : Option (LobbyGame G)) (client reason : Text) (left : Lobby G)
      (members : List Text) (s : Server G)
      → outside (leave_rest code game client reason left members s) ≡ outside s
  unfolding leave_rest leave_empty
  outside-leave_rest code game client reason left [] s =
      elim left.display_client_id as (λ d. outside (leave_empty code game d left s) ≡ outside s) [
        | none ↦ outside-close_lobby code game left s
        | some d ↦ outside-maybe_start_lobby_countdown code left s
      ]
  outside-leave_rest code game client reason left (m ∷ ms) s =
      outside-leave_others code game client reason left s

  outside-leave_seat :
      (games : Registry G) (client reason code : Text) (lobby : Lobby G) (s : Server G)
      → outside (leave_seat games client reason code lobby s) ≡ outside s
  unfolding leave_seat send_to_client put_lobby clear_suspended_lobby_session without_seat
  outside-leave_seat games client reason code lobby s =
      let left = without_member client lobby in
      outside-leave_rest code (games.lobby_game lobby.game_id) client reason left left.members (
        send_to_client client (lobby_left code)
          (without_seat client (put_lobby code left (clear_suspended_lobby_session client s))))

  -- Leaving a lobby, whatever its game module does, changes no client's socket entry, no room, no
  -- side, no queue and no queue watch.
  pub outside-leave_lobby :
      (games : Registry G) (client reason : Text) (s : Server G)
      → outside (leave_lobby games client reason s) ≡ outside s
  unfolding leave_lobby
  outside-leave_lobby games client reason s = elim (Option-cases (get? client s.client_lobbies)) [
    | inl e ↦ rw (e, leave_lobby)
    | inr (code, e) ↦ elim (Option-cases (get? code s.lobbies)) [
      | inl f ↦ rw (e, leave_lobby) (rw f)
      | inr (lobby, f) ↦
          rw (e, leave_lobby) (rw f (outside-leave_seat games client reason code lobby s))
    ]
  ]

  outside-dismiss :
      (code : Text) (ms : List Text) (s : Server G) → outside (dismiss code ms s) ≡ outside s
  unfolding dismiss send_to_client
  outside-dismiss code [] s = refl
  outside-dismiss code (m ∷ ms) s = outside-dismiss code ms (
      send_to_client m (lobby_closed code) (record s { client_lobbies = erase m s.client_lobbies }))

  outside-close_display :
      (games : Registry G) (code : Text) (lobby : Lobby G) (s : Server G)
      → outside (close_display games code lobby s) ≡ outside s
  unfolding close_display put_lobby
  outside-close_display games code lobby s =
      let game = games.lobby_game lobby.game_id in
      let open_again = without_countdown lobby in
      let (after, t) =
        run_hook code game (λ g. g.clear_timers) open_again (put_lobby code open_again s) in
      outside-dismiss code after.members t
      ∙ outside-run_hook code game (λ g. g.clear_timers) open_again (put_lobby code open_again s)

  -- Nor does a display that leaves its lobby.
  pub outside-leave_display_lobby :
      (games : Registry G) (client : Text) (s : Server G)
      → outside (leave_display_lobby games client s) ≡ outside s
  unfolding leave_display_lobby
  outside-leave_display_lobby games client s =
      elim (Option-cases (get? client s.client_display_lobbies)) [
        | inl e ↦ rw (e, leave_display_lobby)
        | inr (code, e) ↦ elim (Option-cases (get? code s.lobbies)) [
          | inl f ↦ rw (e, leave_display_lobby) (rw f)
          | inr (lobby, f) ↦
              rw (e, leave_display_lobby)
                (rw f (
                  outside-if (is_some_of lobby.display_client_id client) _ _
                    (outside-close_display games code lobby
                      (record s { client_display_lobbies = erase client s.client_display_lobbies }))
                    refl))
        ]
      ]
