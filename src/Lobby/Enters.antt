-- ===== src/Lobby/Enters.antt =====
-- Seats in lobbies of src/lobby.mjs: taking one, and the releases before it.
use mathlib.Core.Path.{subst}
use factory_network_server.Prelude.{
  ◌≡◌, refl, sym, ap, ◌∙◌, none, List, [], ◌∷◌, arith, eq_iff, eq_refl, Bool-cases, Option-cases,
  inl, inr, contains, is_some_of, add, remove, contains-add, distinct-add,
}
use factory_network_server.Prelude.Texts.{Text, Text_eq}
use factory_network_server.Prelude.Maps.{Map, get?, erase, set, get?-set, get?-erase}
use factory_network_server.State.{Server, Lobby}
use factory_network_server.Transport.{send_to_client}
use factory_network_server.Games.{Registry}
use factory_network_server.Matchmaking.{leave_queue}
use factory_network_server.Rooms.Seats.{
  leave_room, leave_room_of, leave_members, close_if_empty, broadcast_to_room,
}
use factory_network_server.Lobby.Leaving.{leave_lobby, leave_display_lobby}
use factory_network_server.Lobby.Kept.{Inside, inside}
use factory_network_server.Lobby.Leaves.{roster, leave_seat-AsLeft}
use factory_network_server.Lobby.Seated.{AreSeated, IsSeated, leave_lobby-IsSeated}
use factory_network_server.Lobby.Closing.{seats-close_display, leave_display_lobby-IsSeated}
use factory_network_server.Lobby.Creating.{release_client}

module _ {G : Type 0} where
  -- The seat of a client who had none, in a lobby that counts him among its members.
  pub seat-AreSeated :
      (client code : Text) (lobby : Lobby G) (lobbies : Map Text (Lobby G)) (seats : Map Text Text)
      → AreSeated lobbies seats
      → get? client seats ≡ none
      → lobby.members ≡ add client (roster code lobbies)
      → AreSeated (set code lobby lobbies) (set client code seats)
  seat-AreSeated client code lobby lobbies seats v free joined = record {
    agree = λ c r. ground (
      arith,
      v.agree c r,
      get?-set code r lobby lobbies,
      get?-set client c code seats,
      ap (contains c) joined,
      contains-add c client (roster code lobbies),
      free,
      eq_iff c client,
      eq_iff client c,
      eq_iff code r,
    );
    different = λ r. ground (
      arith,
      v.different r,
      get?-set code r lobby lobbies,
      joined,
      eq_iff code r,
      distinct-add client (roster code lobbies),
    );
  }

  -- A lobby with the members that the map has.
  pub put-AreSeated :
      (code : Text) (lobby : Lobby G) (lobbies : Map Text (Lobby G)) (seats : Map Text Text)
      → AreSeated lobbies seats
      → lobby.members ≡ roster code lobbies
      → AreSeated (set code lobby lobbies) seats
  put-AreSeated code lobby lobbies seats v same = record {
    agree = λ c r.
        ground
          (arith, v.agree c r, get?-set code r lobby lobbies, ap (contains c) same, eq_iff code r);
    different =
        λ r. ground (arith, v.different r, get?-set code r lobby lobbies, same, eq_iff code r);
  }

  inside-close_if_empty :
      (code : Text) (left : List Text) (s : Server G)
      → inside (close_if_empty code left s) ≡ inside s
  unfolding close_if_empty
  inside-close_if_empty code [] s = refl
  inside-close_if_empty code (m ∷ ms) s = refl

  inside-leave_room_of :
      (client reason code : Text) (s : Server G)
      → inside (leave_room_of client reason code s) ≡ inside s
  unfolding leave_room_of leave_members broadcast_to_room
  inside-leave_room_of client reason code s = elim (Option-cases (get? code s.rooms)) [
    | inl e ↦ rw (e, leave_room_of)
    | inr (ms, e) ↦ rw (e, leave_room_of) (inside-close_if_empty code (remove client ms) _)
  ]

  pub inside-leave_room :
      (client reason : Text) (s : Server G) → inside (leave_room client reason s) ≡ inside s
  unfolding leave_room send_to_client
  inside-leave_room client reason s = elim (Option-cases (get? client s.client_rooms)) [
    | inl e ↦ rw (e, leave_room)
    | inr (code, e) ↦ rw (e, leave_room) (inside-leave_room_of client reason code s)
  ]

  unseated-leave_lobby :
      (games : Registry G) (client reason : Text) (s : Server G)
      → get? client (leave_lobby games client reason s).client_lobbies ≡ none
  unfolding leave_lobby
  unseated-leave_lobby games client reason s = elim (Option-cases (get? client s.client_lobbies)) [
    | inl e ↦ rw (e, leave_lobby) e
    | inr (code, e) ↦ elim (Option-cases (get? code s.lobbies)) [
      | inl f ↦
          rw (e, leave_lobby)
            (rw f (ground (arith, get?-erase client client s.client_lobbies, eq_refl client)))
      | inr (lobby, f) ↦
          let left = leave_seat-AsLeft games client reason code lobby s in
          rw (e, leave_lobby)
            (rw f (
              ap (get? client) left.same_seats
              ∙ ground (arith, get?-erase client client s.client_lobbies, eq_refl client)))
    ]
  ]

  unseated-leave_display_lobby :
      (games : Registry G) (client c : Text) (s : Server G)
      → get? c s.client_lobbies ≡ none
      → get? c (leave_display_lobby games client s).client_lobbies ≡ none
  unfolding leave_display_lobby
  unseated-leave_display_lobby games client c s free =
      elim (Option-cases (get? client s.client_display_lobbies)) [
        | inl e ↦ rw (e, leave_display_lobby) free
        | inr (code, e) ↦ elim (Option-cases (get? code s.lobbies)) [
          | inl f ↦ rw (e, leave_display_lobby) (rw f free)
          | inr (lobby, f) ↦ elim (Bool-cases (is_some_of lobby.display_client_id client)) [
            | inl b ↦
                let t = record s {
                  client_display_lobbies = erase client s.client_display_lobbies;
                } in
                rw (e, leave_display_lobby)
                  (rw f (rw b (ground (arith, free, seats-close_display games code c lobby t))))
            | inr b ↦ rw (e, leave_display_lobby) (rw f (rw b free))
          ]
        ]
      ]

  -- The client who is out of everything, and the lobbies that are as they should be.
  pub record IsReleased (client : Text) (s : Server G) : Type 0 where
    pub seated : IsSeated s
    pub unseated : get? client s.client_lobbies ≡ none

  pub release_client-IsReleased :
      (games : Registry G) (client room_reason lobby_reason : Text) (s : Server G)
      → IsSeated s
      → IsReleased client (release_client games client room_reason lobby_reason s)
  unfolding release_client
  release_client-IsReleased games client room_reason lobby_reason s v =
      let s1 = record s { match_queues = (leave_queue client s.match_queues).1 } in
      let s2 = leave_room client room_reason s1 in
      let v2 : IsSeated s2 =
        subst (λ (i : Inside G). AreSeated i.lobbies i.client_lobbies)
          (sym (inside-leave_room client room_reason s1)) v in
      let s3 = leave_lobby games client lobby_reason s2 in
      record {
        seated =
            leave_display_lobby-IsSeated games client s3
              (leave_lobby-IsSeated games client lobby_reason s2 v2);
        unseated =
            unseated-leave_display_lobby games client client s3
              (unseated-leave_lobby games client lobby_reason s2);
      }
