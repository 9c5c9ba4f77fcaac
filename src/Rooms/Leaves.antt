-- ===== src/Rooms/Leaves.antt =====
-- What `leaveRoom` does to the maps of the rooms.
use factory_network_server.Prelude.{
  ◌≡◌, ◌≢◌, refl, none, some, List, [], ◌∷◌, arith, length, is_some_of, remove, if◌then◌else◌, ◌==◌,
  eq_iff, eq_refl, contains-remove, length-remove-le, distinct-remove, Option-cases, inl, inr,
}
use factory_network_server.Prelude.Texts.{Text, Text_eq}
use factory_network_server.Prelude.Maps.{get?, set, get?-set, get?-erase}
use factory_network_server.State.{Server, player_left}
use factory_network_server.Transport.{send_to_client}
use factory_network_server.Rooms.Seats.{
  leave_room, leave_room_of, leave_members, close_if_empty, broadcast_to_room,
}
use factory_network_server.Rooms.Consistent.{ids, IsConsistent}

module _ {G : Type 0} where
  ids-close_if_empty :
      (code r : Text) (left : List Text) (s : Server G)
      → get? code s.rooms ≡ some left
      → ids r (close_if_empty code left s).rooms ≡ ids r s.rooms
  unfolding close_if_empty
  ids-close_if_empty code r [] s e = ground (arith, get?-erase code r s.rooms, eq_iff code r)
  ids-close_if_empty code r (m ∷ ms) s e = refl

  -- The room as it stands when the one who leaves is out of its set, before it is closed.
  abbrev emptied : Text → Text → Text → List Text → Server G → Server G
  emptied client reason code members s =
      broadcast_to_room code (player_left client code (length (remove client members)) reason) none
        (record s { rooms = set code (remove client members) s.rooms })

  ids-leave_members :
      (client reason code r : Text) (members : List Text) (s : Server G)
      → ids r (leave_members client reason code members s).rooms
        ≡ (if code == r then remove client members else ids r s.rooms)
  unfolding leave_members broadcast_to_room
  ids-leave_members client reason code r members s =
      let left = remove client members in
      ground (
        arith,
        ids-close_if_empty code r left (emptied client reason code members s),
        get?-set code code left s.rooms,
        get?-set code r left s.rooms,
        eq_refl code,
      )

  ids-leave_room_of :
      (client reason code r : Text) (s : Server G)
      → ids r (leave_room_of client reason code s).rooms
        ≡ (if code == r then remove client (ids r s.rooms) else ids r s.rooms)
  unfolding leave_room_of remove
  ids-leave_room_of client reason code r s = elim (Option-cases (get? code s.rooms)) [
    | inl e ↦ ground (arith, eq_iff code r)
    | inr (ms, e) ↦ ground (arith, eq_iff code r, ids-leave_members client reason code r ms s)
  ]

  seats-leave_room_of :
      (client reason code : Text) (s : Server G)
      → (leave_room_of client reason code s).client_rooms ≡ s.client_rooms
  unfolding leave_room_of leave_members broadcast_to_room close_if_empty
  seats-leave_room_of client reason code s = ground arith

  peopled-leave_members :
      (client reason code r : Text) (members : List Text) (s : Server G)
      → get? r s.rooms ≢ some []
      → get? r (leave_members client reason code members s).rooms ≢ some []
  unfolding leave_members broadcast_to_room close_if_empty
  peopled-leave_members client reason code r members s h =
      let left = remove client members in
      ground (arith, get?-set code r left s.rooms, get?-erase code r (set code left s.rooms))

  peopled-leave_room_of :
      (client reason code r : Text) (s : Server G)
      → get? r s.rooms ≢ some []
      → get? r (leave_room_of client reason code s).rooms ≢ some []
  unfolding leave_room_of
  peopled-leave_room_of client reason code r s h = elim (Option-cases (get? code s.rooms)) [
    | inl e ↦ ground arith
    | inr (ms, e) ↦ ground (arith, peopled-leave_members client reason code r ms s)
  ]

  -- A leave takes the client out of the room that he has, and out of no other.
  pub ids-leave_room :
      (client reason r : Text) (s : Server G)
      → ids r (leave_room client reason s).rooms ≡ (
          if is_some_of (get? client s.client_rooms) r
          then remove client (ids r s.rooms)
          else ids r s.rooms)
  unfolding leave_room send_to_client
  ids-leave_room client reason r s = elim (Option-cases (get? client s.client_rooms)) [
    | inl e ↦ ground arith
    | inr (code, e) ↦ ground (arith, ids-leave_room_of client reason code r s)
  ]

  -- He has no room afterwards, and nobody else's changes.
  pub get?-leave_room :
      (client reason c : Text) (s : Server G)
      → get? c (leave_room client reason s).client_rooms
        ≡ (if client == c then none else get? c s.client_rooms)
  unfolding leave_room send_to_client
  get?-leave_room client reason c s = elim (Option-cases (get? client s.client_rooms)) [
    | inl e ↦ ground (arith, eq_iff client c)
    | inr (code, e) ↦
        ground (arith, seats-leave_room_of client reason code s, get?-erase client c s.client_rooms)
  ]

  peopled-leave_room :
      (client reason r : Text) (s : Server G)
      → get? r s.rooms ≢ some []
      → get? r (leave_room client reason s).rooms ≢ some []
  unfolding leave_room send_to_client
  peopled-leave_room client reason r s h = elim (Option-cases (get? client s.client_rooms)) [
    | inl e ↦ ground arith
    | inr (code, e) ↦ ground (arith, peopled-leave_room_of client reason code r s)
  ]

  -- Leaving a room keeps consistent rooms consistent, whether the client has a room or not, and
  -- whether others stay in it or it is closed.
  pub leave_room-IsConsistent :
      (client reason : Text) (s : Server G)
      → IsConsistent s
      → IsConsistent (leave_room client reason s)
  leave_room-IsConsistent client reason s v = record {
    agree = λ c r. ground (
      arith,
      v.agree c r,
      ids-leave_room client reason r s,
      get?-leave_room client reason c s,
      contains-remove c client (ids r s.rooms),
      eq_iff c client,
      eq_iff client c,
    );
    capped = λ r. ground (
      arith,
      v.capped r,
      ids-leave_room client reason r s,
      length-remove-le client (ids r s.rooms),
    );
    different = λ r. ground (
      arith,
      v.different r,
      ids-leave_room client reason r s,
      distinct-remove client (ids r s.rooms),
    );
    peopled = λ r. peopled-leave_room client reason r s (v.peopled r);
  }

  -- The queues are left alone.
  pub queues-leave_room :
      (client reason : Text) (s : Server G)
      → (leave_room client reason s).match_queues ≡ s.match_queues
  unfolding leave_room send_to_client leave_room_of leave_members broadcast_to_room close_if_empty
  queues-leave_room client reason s = ground arith
