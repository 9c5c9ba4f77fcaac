-- ===== src/Rooms/Joins.antt =====
-- What `joinRoom` does to the maps of the rooms.
use mathlib.Core.Path.{subst}
use factory_network_server.Prelude.{
  ℕ, ◌<◌, ◌≡◌, refl, sym, ap, ◌∙◌, Bool, true, false, Option, none, some, List, [], ◌∷◌, arith,
  length, or_else, is_some_of, if◌then◌else◌, eq_refl, Option-cases, inl, inr, leb, add,
}
use factory_network_server.Prelude.Texts.{Text, Text_eq, codes}
use factory_network_server.Prelude.Maps.{Map, get?, set}
use factory_network_server.Js.Values.{Json}
use factory_network_server.State.{
  Server, room_joined, player_joined, max_players_per_room, match_ready_delay_ms,
}
use factory_network_server.Transport.{send_to_client}
use factory_network_server.Matchmaking.{set_client_side, Ready, build_match_ready_messages}
use factory_network_server.Games.{Registry}
use factory_network_server.Lobby.Leaving.{leave_lobby}
use factory_network_server.Lobby.Frame.{Outside, outside, outside-leave_lobby}
use factory_network_server.Rooms.Seats.{
  leave_room, broadcast_to_room, emit_match_ready, emit_to, send_ready, send_if_ready,
  get_room_member_ids, same_side_already_in_room,
}
use factory_network_server.Rooms.Joining.{
  join_room, join_existing, enter_room, welcome, seat, adopt_game, room_at, requested_game,
  is_mismatch,
}
use factory_network_server.Rooms.Consistent.{ids, AreConsistent, IsConsistent, seat-AreConsistent}
use factory_network_server.Rooms.Leaves.{ids-leave_room, get?-leave_room, leave_room-IsConsistent}

room_at-get? :
    (code : Text) (rooms : Map Text (List Text)) {ms : List Text}
    → room_at code rooms ≡ some ms
    → get? code rooms ≡ some ms
unfolding room_at
room_at-get? [] rooms e = cc
room_at-get? (c ∷ code) rooms e = e

module _ {G : Type 0} where
  outside-send_ready :
      (code : Text) (ms : List Ready) (s : Server G) → outside (send_ready code ms s) ≡ outside s
  unfolding send_ready send_to_client
  outside-send_ready code [] s = refl
  outside-send_ready code (m ∷ ms) s = outside-send_ready code ms _

  outside-send_if_ready :
      (code : Text) (ms : Option (List Ready)) (s : Server G)
      → outside (send_if_ready code ms s) ≡ outside s
  unfolding send_if_ready
  outside-send_if_ready code none s = refl
  outside-send_if_ready code (some ms) s = outside-send_ready code ms s

  outside-emit_to :
      (games : Registry G) (code : Text) (ms : List Text) (s : Server G)
      → outside (emit_to games code ms s) ≡ outside s
  unfolding emit_to
  outside-emit_to games code [] s = refl
  outside-emit_to games code (a ∷ []) s = refl
  outside-emit_to games code (a ∷ b ∷ others) s =
      let settings = games.match_settings (get? code s.room_game_ids) s.seed_bytes in
      outside-send_if_ready code
        (build_match_ready_messages a (get? a s.client_sides) b (get? b s.client_sides) s.now
          match_ready_delay_ms s.seed_bytes settings)
        s

  -- Telling the players of a room that their match is ready changes nothing else.
  pub outside-emit_match_ready :
      (games : Registry G) (code : Text) (s : Server G)
      → outside (emit_match_ready games code s) ≡ outside s
  unfolding emit_match_ready
  outside-emit_match_ready games code s = outside-emit_to games code (get_room_member_ids code s) s

  pub outside-welcome :
      (games : Registry G) (client code : Text) (total : ℕ) (s : Server G)
      → outside (welcome games client code total s) ≡ outside s
  unfolding welcome send_to_client broadcast_to_room
  outside-welcome games client code total s = outside-emit_match_ready games code (
      broadcast_to_room code (player_joined client code total) (some client)
        (send_to_client client (room_joined code total false) s))

  -- Consistency looks at two maps alone.
  pub IsConsistent-outside :
      (s t : Server G) → outside s ≡ outside t → IsConsistent t → IsConsistent s
  IsConsistent-outside s t e v =
      subst (λ (o : Outside). AreConsistent o.rooms o.client_rooms) (sym e) v

  adopt_game-maps :
      (code : Text) (requested : Option Text) (existing : Text) (s : Server G)
      → ((adopt_game code requested existing s).rooms ≡ s.rooms)
        × ((adopt_game code requested existing s).client_rooms ≡ s.client_rooms)
  unfolding adopt_game
  adopt_game-maps code none existing s = (refl, refl)
  adopt_game-maps code (some r) existing s = ground arith

  -- Seating a client without a room in a room that has one to spare.
  pub seat-IsConsistent :
      (client code : Text) (members : List Text) (s : Server G)
      → IsConsistent s
      → get? client s.client_rooms ≡ none
      → ids code s.rooms ≡ members
      → length members < max_players_per_room
      → IsConsistent (seat client code members s)
  unfolding seat
  seat-IsConsistent client code members s v free e room =
      let seated =
        seat-AreConsistent client code s.rooms s.client_rooms v free
          (subst (λ ms. length ms < max_players_per_room) (sym e) room) in
      subst
        (λ (ms : List Text).
          AreConsistent (set code (add client ms) s.rooms) (set client code s.client_rooms))
        e seated

  -- The server just before the client takes his seat.
  abbrev pub before_seat :
      Registry G → Text → Text → Option Json → Option Text → Text → Server G → Server G
  before_seat games client code side requested existing s =
      adopt_game code requested existing
        (set_client_side client side (
          leave_lobby games client (codes "join_room")
            (leave_room client (codes "switch_room") s))).1

  before_seat-maps :
      (games : Registry G) (client code : Text) (side : Option Json) (requested : Option Text)
      (existing : Text) (s : Server G)
      → let t = before_seat games client code side requested existing s in
        let u = leave_room client (codes "switch_room") s in
        (t.rooms ≡ u.rooms) × (t.client_rooms ≡ u.client_rooms)
  unfolding set_client_side
  before_seat-maps games client code side requested existing s =
      let u = leave_room client (codes "switch_room") s in
      let same = outside-leave_lobby games client (codes "join_room") u in
      let w = (set_client_side client side (leave_lobby games client (codes "join_room") u)).1 in
      let (r, c) = adopt_game-maps code requested existing w in
      (r ∙ ap (λ (o : Outside). o.rooms) same, c ∙ ap (λ (o : Outside). o.client_rooms) same)

  enter_room-IsConsistent :
      (games : Registry G) (client code : Text) (side : Option Json) (requested : Option Text)
      (existing : Text) (members : List Text) (s : Server G)
      → IsConsistent s
      → is_some_of (get? client s.client_rooms) code ≡ false
      → ids code s.rooms ≡ members
      → length members < max_players_per_room
      → IsConsistent (enter_room games client code side requested existing members s)
  unfolding enter_room
  enter_room-IsConsistent games client code side requested existing members s v away e room =
      let u = leave_room client (codes "switch_room") s in
      let t = before_seat games client code side requested existing s in
      let (r, c) = before_seat-maps games client code side requested existing s in
      let kept : IsConsistent t =
        subst (λ (m : Map Text (List Text)). AreConsistent m t.client_rooms) (sym r)
          (subst (λ (m : Map Text Text). AreConsistent u.rooms m) (sym c)
            (leave_room-IsConsistent client (codes "switch_room") s v)) in
      let free : get? client t.client_rooms ≡ none =
        ap (get? client) c
        ∙ ground (arith, get?-leave_room client (codes "switch_room") client s, eq_refl client) in
      let there : ids code t.rooms ≡ members =
        ap (ids code) r ∙ ground (arith, ids-leave_room client (codes "switch_room") code s) in
      let seated = seat client code members t in
      let total = length (add client members) in
      IsConsistent-outside (welcome games client code total seated) seated
        (outside-welcome games client code total seated)
        (seat-IsConsistent client code members t kept free there room)

  IsConsistent-if :
      (b : Bool) (s t : Server G)
      → (b ≡ true → IsConsistent s)
      → (b ≡ false → IsConsistent t)
      → IsConsistent (if b then s else t)
  IsConsistent-if true s t p q = p refl
  IsConsistent-if false s t p q = q refl

  join_existing-IsConsistent :
      (games : Registry G) (client code : Text) (side game : Option Json) (members : List Text)
      (s : Server G)
      → IsConsistent s
      → is_some_of (get? client s.client_rooms) code ≡ false
      → get? code s.rooms ≡ some members
      → IsConsistent (join_existing games client code side game members s)
  unfolding join_existing send_to_client
  join_existing-IsConsistent games client code side game members s v away e =
      let existing = or_else (get? code s.room_game_ids) (codes "default") in
      let requested = requested_game game in
      IsConsistent-if (is_mismatch requested existing) _ _ (λ _. v)
        λ _.
          IsConsistent-if (leb max_players_per_room (length members)) _ _ (λ _. v)
            λ fits.
              IsConsistent-if (same_side_already_in_room code side s) _ _ (λ _. v)
                λ _.
                  enter_room-IsConsistent games client code side requested existing members s v away
                    (ap (λ (o : Option (List Text)). or_else o []) e) (ground arith)

  -- Joining a room, on every branch, errors included, keeps the rooms consistent: a room lists
  -- exactly the clients whose room it is, each once, two at most, and no empty room remains.
  pub join_room-IsConsistent :
      (games : Registry G) (client code : Text) (side game : Option Json) (s : Server G)
      → IsConsistent s
      → IsConsistent (join_room games client code side game s)
  unfolding join_room send_to_client
  join_room-IsConsistent games client code side game s v =
      elim (Option-cases (room_at code s.rooms)) [
        | inl e ↦ rw (e, join_room) v
        | inr (ms, e) ↦
            rw (e, join_room)
              (IsConsistent-if (is_some_of (get? client s.client_rooms) code) _ _ (λ _. v)
                λ away.
                  join_existing-IsConsistent games client code side game ms s v away
                    (room_at-get? code s.rooms e))
      ]
