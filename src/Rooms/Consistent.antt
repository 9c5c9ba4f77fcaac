-- ===== src/Rooms/Consistent.antt =====
-- The maps of rooms and of seats of src/rooms.mjs side by side.
use factory_network_server.Prelude.{
  ◌≤◌, ◌<◌, ◌≡◌, ◌≢◌, true, none, some, List, [], contains, distinct, length, or_else, is_some_of,
  add, arith, eq_iff, contains-add, length-add, add-ne-nil, distinct-add,
}
use factory_network_server.Prelude.Texts.{Text, Text_eq}
use factory_network_server.Prelude.Maps.{Map, get?, set, get?-set}
use factory_network_server.State.{Server, max_players_per_room}

-- The members of a room, none where there is no such room.
abbrev pub ids : Text → Map Text (List Text) → List Text
ids code rooms = or_else (get? code rooms) []

pub record AreConsistent (rooms : Map Text (List Text)) (seats : Map Text Text) : Type 0 where
  pub agree : (c r : Text) → contains c (ids r rooms) ≡ is_some_of (get? c seats) r
  pub capped : (r : Text) → length (ids r rooms) ≤ max_players_per_room
  pub different : (r : Text) → distinct (ids r rooms) ≡ true
  pub peopled : (r : Text) → get? r rooms ≢ some []

abbrev pub IsConsistent : {G : Type 0} → Server G → Type 0
IsConsistent s = AreConsistent s.rooms s.client_rooms

-- A client without a room takes a seat in a room that has one to spare, or that is new.
pub seat-AreConsistent :
    (client code : Text) (rooms : Map Text (List Text)) (seats : Map Text Text)
    → AreConsistent rooms seats
    → get? client seats ≡ none
    → length (ids code rooms) < max_players_per_room
    → AreConsistent (set code (add client (ids code rooms)) rooms) (set client code seats)
seat-AreConsistent client code rooms seats v free room =
    let joined = add client (ids code rooms) in
    record {
      agree = λ c r. ground (
        arith,
        v.agree c r,
        get?-set code r joined rooms,
        get?-set client c code seats,
        contains-add c client (ids code rooms),
        eq_iff c client,
        eq_iff client c,
        eq_iff code r,
      );
      capped = λ r.
          ground
            (arith, v.capped r, get?-set code r joined rooms, length-add client (ids code rooms));
      different = λ r. ground (
        arith,
        v.different r,
        get?-set code r joined rooms,
        eq_iff code r,
        distinct-add client (ids code rooms),
      );
      peopled = λ r.
          ground
            (arith, v.peopled r, get?-set code r joined rooms, add-ne-nil client (ids code rooms));
    }
