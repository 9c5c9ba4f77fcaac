-- ===== src/Lobby/Leaves.antt =====
-- `leaveLobby` of src/lobby.mjs, and the lobby that is left.
use factory_network_server.Prelude.{
  ◌≡◌, refl, Bool, true, false, Option, none, some, List, [], ◌∷◌, arith, if◌then◌else◌, ◌==◌,
  Bool-cases, inl, inr, remove,
}
use factory_network_server.Prelude.Texts.{Text, Text_eq}
use factory_network_server.Prelude.Maps.{Map, get?, erase, get?-set, get?-erase}
use factory_network_server.State.{Server, Lobby}
use factory_network_server.Transport.{send_to_client}
use factory_network_server.LobbyBus.{broadcast_to_lobby, send_lobby_updated}
use factory_network_server.Games.{LobbyGame, Registry}
use factory_network_server.Lobby.Hooks.{
  put_lobby, run_hook, without_countdown, maybe_start_lobby_countdown,
}
use factory_network_server.Lobby.Leaving.{
  clear_suspended_lobby_session, without_member, without_seat, pass_ownership, cancel_if_pending,
  disconnect_match, is_match_active, refresh_after_leave, leave_others, close_lobby, leave_empty,
  leave_rest, leave_seat,
}
use factory_network_server.Lobby.Kept.{
  Kept, Kept-inside, IsKept, put_lobby-Kept, run_hook-IsKept, maybe_start_lobby_countdown-IsKept,
  cancel_if_pending-IsKept, disconnect_match-IsKept,
}

module _ {G : Type 0} where
  abbrev pub members_of : Option (Lobby G) → List Text
  members_of none = []
  members_of (some lobby) = lobby.members

  -- Who is in the lobby at the code.
  abbrev pub roster : Text → Map Text (Lobby G) → List Text
  roster r lobbies = members_of (get? r lobbies)

  -- The lobby at the code has the members, whether it is still in the map or not; all else is as
  -- `base` says.
  pub record AsLeft (base : Text → Option (Lobby G)) (code : Text) (members : List Text)
      (seats displays : Map Text Text) (s : Server G) : Type 0 where
    pub rosters :
        (r : Text) → roster r s.lobbies ≡ (if code == r then members else members_of (base r))
    pub others : (r : Text) → (code == r) ≡ false → get? r s.lobbies ≡ base r
    pub same_seats : s.client_lobbies ≡ seats
    pub same_displays : s.client_display_lobbies ≡ displays

  module _ (base : Text → Option (Lobby G)) (code : Text) (members : List Text)
      (seats displays : Map Text Text) where
    Kept-AsLeft :
        (lobby : Lobby G) (s : Server G)
        → Kept base code members seats displays lobby s
        → AsLeft base code members seats displays s
    Kept-AsLeft lobby s v = record {
      rosters = λ r. ground (arith, v.held r, v.same_members);
      others = λ r ne. ground (arith, v.held r, ne);
      same_seats = v.same_seats;
      same_displays = v.same_displays;
    }

    pass_ownership-members :
        (client : Text) (lobby : Lobby G) → (pass_ownership client lobby).members ≡ lobby.members
    unfolding pass_ownership
    pass_ownership-members client lobby = ground arith

    refresh_after_leave-AsLeft :
        (game : Option (LobbyGame G)) (r : Lobby G × Server G)
        → IsKept base code members seats displays r
        → AsLeft base code members seats displays (refresh_after_leave code game r)
    unfolding refresh_after_leave send_lobby_updated broadcast_to_lobby
    refresh_after_leave-AsLeft game (lobby, s) v = elim (Bool-cases (is_match_active game lobby)) [
      | inl e ↦ rw e (Kept-AsLeft lobby s v)
      | inr e ↦
          let w = maybe_start_lobby_countdown-IsKept base code members seats displays lobby s v in
          rw e (
            Kept-AsLeft _ _ (
              Kept-inside base code members seats displays _
                (maybe_start_lobby_countdown code lobby s).1 _ refl w))
    ]

    played-IsKept :
        (game : Option (LobbyGame G)) (b : Bool) (lobby : Lobby G) (s : Server G)
        → Kept base code members seats displays lobby s
        → IsKept base code members seats displays
            (if b then run_hook code game (λ g. g.broadcast_after_leave) lobby s else (lobby, s))
    played-IsKept game true lobby s v =
        run_hook-IsKept base code members seats displays game _ lobby s v
    played-IsKept game false lobby s v = v

    leave_others-AsLeft :
        (game : Option (LobbyGame G)) (client reason : Text) (left : Lobby G) (s : Server G)
        → Kept base code members seats displays left s
        → AsLeft base code members seats displays (leave_others code game client reason left s)
    unfolding leave_others broadcast_to_lobby
    leave_others-AsLeft game client reason left s v =
        let owned = pass_ownership client left in
        let v1 =
          put_lobby-Kept base code members seats displays left owned s v
            (pass_ownership-members client left) in
        let s1 = put_lobby code owned s in
        let r1 = cancel_if_pending code game s.now owned s1 in
        let v2 = cancel_if_pending-IsKept base code members seats displays game s.now owned s1 v1 in
        let v3 =
          disconnect_match-IsKept base code members seats displays game client s.now r1.0 r1.1 v2 in
        let r2 = disconnect_match code game client s.now r1.0 r1.1 in
        refresh_after_leave-AsLeft game _ (
          played-IsKept game r2.1 r2.0.0 _
            (Kept-inside base code members seats displays r2.0.0 r2.0.1 _ refl v3))

    close_lobby-AsLeft :
        (game : Option (LobbyGame G)) (lobby : Lobby G) (s : Server G)
        → members ≡ []
        → Kept base code members seats displays lobby s
        → AsLeft base code members seats displays (close_lobby code game lobby s)
    unfolding close_lobby without_countdown
    close_lobby-AsLeft game lobby s e v =
        let calm = without_countdown lobby in
        let v1 = put_lobby-Kept base code members seats displays lobby calm s v refl in
        let r = run_hook code game (λ g. g.clear_timers) calm (put_lobby code calm s) in
        let v2 =
          run_hook-IsKept base code members seats displays game (λ g. g.clear_timers) calm _ v1 in
        record {
          rosters = λ c. ground (arith, e, v2.held c, get?-erase code c r.1.lobbies);
          others = λ c ne. ground (arith, v2.held c, get?-erase code c r.1.lobbies, ne);
          same_seats = v2.same_seats;
          same_displays = v2.same_displays;
        }

    leave_empty-AsLeft :
        (game : Option (LobbyGame G)) (display : Option Text) (lobby : Lobby G) (s : Server G)
        → members ≡ []
        → Kept base code members seats displays lobby s
        → AsLeft base code members seats displays (leave_empty code game display lobby s)
    unfolding leave_empty
    leave_empty-AsLeft game none lobby s e v = close_lobby-AsLeft game lobby s e v
    leave_empty-AsLeft game (some d) lobby s e v =
        Kept-AsLeft _ _
          (maybe_start_lobby_countdown-IsKept base code members seats displays lobby s v)

    leave_rest-AsLeft :
        (game : Option (LobbyGame G)) (client reason : Text) (left : Lobby G) (ms : List Text)
        (s : Server G)
        → members ≡ ms
        → Kept base code members seats displays left s
        → AsLeft base code members seats displays (leave_rest code game client reason left ms s)
    unfolding leave_rest
    leave_rest-AsLeft game client reason left [] s e v =
        leave_empty-AsLeft game left.display_client_id left s e v
    leave_rest-AsLeft game client reason left (m ∷ ms) s e v =
        leave_others-AsLeft game client reason left s v

  -- Leaving the lobby at the code takes the client off its roster, and off no other.
  pub leave_seat-AsLeft :
      (games : Registry G) (client reason code : Text) (lobby : Lobby G) (s : Server G)
      → AsLeft
          (λ r. get? r s.lobbies)
          code
          (remove client lobby.members)
          (erase client s.client_lobbies)
          s.client_display_lobbies
          (leave_seat games client reason code lobby s)
  unfolding leave_seat clear_suspended_lobby_session without_member without_seat put_lobby
      send_to_client
  leave_seat-AsLeft games client reason code lobby s =
      leave_rest-AsLeft (λ r. get? r s.lobbies) code (remove client lobby.members)
        (erase client s.client_lobbies) s.client_display_lobbies (games.lobby_game lobby.game_id)
        client reason (without_member client lobby) (remove client lobby.members) _ refl
        (record {
          held = λ r. get?-set code r (without_member client lobby) s.lobbies;
          same_members = refl;
          same_seats = refl;
          same_displays = refl;
        })
