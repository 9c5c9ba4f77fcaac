-- ===== src/Rooms/Others.antt =====
-- What `joinRoom` of src/rooms.mjs leaves alone: the queues, and the seats of other clients.
use factory_network_server.Prelude.{
  ◌≡◌, refl, ap, ◌∙◌, Bool, true, false, Option, none, some, List, arith, if◌then◌else◌, or_else,
  is_some_of, leb, length, ◌==◌, Option-cases, inl, inr,
}
use factory_network_server.Prelude.Texts.{Text, Text_eq, codes}
use factory_network_server.Prelude.Maps.{get?, get?-set}
use factory_network_server.Js.Values.{Json}
use factory_network_server.State.{Server, Payload, max_players_per_room}
use factory_network_server.Transport.{send_to_client}
use factory_network_server.Matchmaking.{set_client_side}
use factory_network_server.Games.{Registry}
use factory_network_server.Lobby.Leaving.{leave_lobby}
use factory_network_server.Lobby.Frame.{Outside, outside-leave_lobby}
use factory_network_server.Rooms.Seats.{leave_room, same_side_already_in_room}
use factory_network_server.Rooms.Joining.{
  join_room, join_existing, enter_room, seat, adopt_game, room_at, requested_game, is_mismatch,
}
use factory_network_server.Rooms.Leaves.{get?-leave_room, queues-leave_room}
use factory_network_server.Rooms.Joins.{before_seat, outside-welcome}

module _ {G : Type 0} where
  -- From `s` to `t` no queue changes, and no seat but the client's.
  pub record LeavesOthers (client : Text) (s t : Server G) : Type 0 where
    pub queues : t.match_queues ≡ s.match_queues
    pub seats : (a : Text) → (client == a) ≡ false → get? a t.client_rooms ≡ get? a s.client_rooms

  LeavesOthers-if :
      (client : Text) (b : Bool) (s t u : Server G)
      → LeavesOthers client s t
      → LeavesOthers client s u
      → LeavesOthers client s (if b then t else u)
  LeavesOthers-if client true s t u p q = p
  LeavesOthers-if client false s t u p q = q

  LeavesOthers-told :
      (client to : Text) (p : Payload) (s : Server G)
      → LeavesOthers client s (send_to_client to p s)
  unfolding send_to_client
  LeavesOthers-told client to p s = record { queues = refl; seats = λ a e. refl }

  seats-adopt_game :
      (code : Text) (requested : Option Text) (existing : Text) (s : Server G)
      → ((adopt_game code requested existing s).match_queues ≡ s.match_queues)
        × ((adopt_game code requested existing s).client_rooms ≡ s.client_rooms)
  unfolding adopt_game
  seats-adopt_game code none existing s = (refl, refl)
  seats-adopt_game code (some r) existing s = ground arith

  before_seat-LeavesOthers :
      (games : Registry G) (client code : Text) (side : Option Json) (requested : Option Text)
      (existing : Text) (s : Server G)
      → LeavesOthers client s (before_seat games client code side requested existing s)
  unfolding set_client_side
  before_seat-LeavesOthers games client code side requested existing s =
      let u = leave_room client (codes "switch_room") s in
      let same = outside-leave_lobby games client (codes "join_room") u in
      let w = (set_client_side client side (leave_lobby games client (codes "join_room") u)).1 in
      let (q, c) = seats-adopt_game code requested existing w in
      record {
        queues =
            q
            ∙ ap (λ (o : Outside). o.match_queues) same
            ∙ queues-leave_room client (codes "switch_room") s;
        seats = λ a e.
            ap (get? a) c
            ∙ ap (λ (o : Outside). get? a o.client_rooms) same
            ∙ ground (arith, get?-leave_room client (codes "switch_room") a s, e);
      }

  enter_room-LeavesOthers :
      (games : Registry G) (client code : Text) (side : Option Json) (requested : Option Text)
      (existing : Text) (members : List Text) (s : Server G)
      → LeavesOthers client s (enter_room games client code side requested existing members s)
  unfolding enter_room seat
  enter_room-LeavesOthers games client code side requested existing members s =
      let t = before_seat games client code side requested existing s in
      let before = before_seat-LeavesOthers games client code side requested existing s in
      let told = outside-welcome games client code _ (seat client code members t) in
      record {
        queues = ap (λ (o : Outside). o.match_queues) told ∙ before.queues;
        seats = λ a e.
            ap (λ (o : Outside). get? a o.client_rooms) told
            ∙ ground (arith, get?-set client a code t.client_rooms, before.seats a e, e);
      }

  join_existing-LeavesOthers :
      (games : Registry G) (client code : Text) (side game : Option Json) (members : List Text)
      (s : Server G)
      → LeavesOthers client s (join_existing games client code side game members s)
  unfolding join_existing
  join_existing-LeavesOthers games client code side game members s =
      let existing = or_else (get? code s.room_game_ids) (codes "default") in
      let requested = requested_game game in
      LeavesOthers-if client (is_mismatch requested existing) s _ _ (LeavesOthers-told client _ _ s)
        (LeavesOthers-if client (leb max_players_per_room (length members)) s _ _
          (LeavesOthers-told client _ _ s)
          (LeavesOthers-if client (same_side_already_in_room code side s) s _ _
            (LeavesOthers-told client _ _ s)
            (enter_room-LeavesOthers games client code side requested existing members s)))

  -- Joining a room, on every branch, errors included.
  pub join_room-LeavesOthers :
      (games : Registry G) (client code : Text) (side game : Option Json) (s : Server G)
      → LeavesOthers client s (join_room games client code side game s)
  unfolding join_room
  join_room-LeavesOthers games client code side game s =
      elim (Option-cases (room_at code s.rooms)) [
        | inl e ↦ rw (e, join_room) (LeavesOthers-told client _ _ s)
        | inr (ms, e) ↦
            rw (e, join_room)
              (LeavesOthers-if client (is_some_of (get? client s.client_rooms) code) s _ _
                (LeavesOthers-told client _ _ s)
                (join_existing-LeavesOthers games client code side game ms s))
      ]
