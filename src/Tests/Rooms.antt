-- ===== src/Tests/Rooms.antt =====
-- A server with two players, from an empty one through its own operations.
use factory_network_server.Prelude.{
  ℕ, ◌≡◌, ◌≢◌, refl, true, false, Option, none, some, List, [], ◌∷◌, arith, inl, contains, count,
  ◌++◌,
}
use factory_network_server.Prelude.Texts.{Text, codes, Text_eq, text_eq}
use factory_network_server.Prelude.Maps.{get?, has}
use factory_network_server.Js.Values.{Json, text}
use factory_network_server.State.{Server, Socket}
use factory_network_server.Transport.{unique_room_code, is_taken, make_room_code, first_free}
use factory_network_server.Transport.Codes.{
  IsUnnamed, AllNamed, unique_room_code-SomeFree, unique_room_code-free, unique_room_code-found,
}
use factory_network_server.Matchmaking.{side_pair, set_client_side}
use factory_network_server.Games.{Registry}
use factory_network_server.Lobby.Leaving.{leave_lobby}
use factory_network_server.Rooms.Seats.{leave_room}
use factory_network_server.Rooms.Joining.{join_room}
use factory_network_server.Rooms.Consistent.{IsConsistent}
use factory_network_server.Rooms.Joins.{join_room-IsConsistent}
use factory_network_server.Router.Rooms.{create_room}
use factory_network_server.Router.Matching.{find_match}
use factory_network_server.Router.Orderly.{IsOrderly}
use factory_network_server.Router.Search.{find_match-IsOrderly}
use factory_network_server.Router.Hazards.{before_code, create_room-IsOrderly, create_room-waiting}

abbrev pub registry : Registry ℕ
registry = record {
  lobby_game = λ id. none;
  matchmaking_strategy = λ id. side_pair;
  match_settings = λ id seed. none;
}

abbrev pub p1 : Text
p1 = codes "p1"

abbrev pub p2 : Text
p2 = codes "p2"

abbrev socket : Socket
socket = record { is_open = true; buffered_amount = 0; send_throws = false; close_throws = false }

-- Two clients, connected by the sockets 1 and 2.
abbrev pub empty : Server ℕ
empty = record {
  clients = (p1, 1) ∷ (p2, 2) ∷ [];
  client_rooms = [];
  rooms = [];
  room_game_ids = [];
  client_sides = [];
  match_queues = [];
  client_queue_watch = [];
  lobbies = [];
  client_lobbies = [];
  client_display_lobbies = [];
  client_session_tokens = [];
  suspended_lobby_sessions = [];
  net = record { socket = λ ws. socket; queued_bytes = λ ws payload. 100; log = [] };
  now = 1000;
  draws = (0 ∷ 1 ∷ 2 ∷ 3 ∷ 4 ∷ []) ∷ (5 ∷ 6 ∷ 7 ∷ 8 ∷ 9 ∷ []) ∷ [];
  seed_bytes = 7;
}

pub empty-IsOrderly : IsOrderly empty
unfolding contains get?
empty-IsOrderly = record {
  consistent = record {
    agree = λ c r. refl;
    capped = λ r. omega arith;
    different = λ r. refl;
    peopled = λ r. cc;
  };
  single = record { once = λ a. omega arith };
  idle = λ a w. refl;
}

abbrev boy : Option Json
boy = some (text (codes "boy"))

abbrev girl : Option Json
girl = some (text (codes "girl"))

-- One client waits.
abbrev one_waits : Server ℕ
one_waits = find_match registry p1 1 (codes "echo-duel") boy empty

one_waits-IsOrderly : IsOrderly one_waits
one_waits-IsOrderly =
    find_match-IsOrderly registry p1 1 (codes "echo-duel") boy empty empty-IsOrderly

-- The second client is his opponent.
find_match-IsOrderly_example :
    IsOrderly (find_match registry p2 2 (codes "echo-duel") girl one_waits)
find_match-IsOrderly_example =
    find_match-IsOrderly registry p2 2 (codes "echo-duel") girl one_waits one_waits-IsOrderly

-- The first client opens a room instead.
abbrev one_room : Server ℕ
one_room = create_room registry p1 1 none boy empty

join_room-IsConsistent_example :
    IsConsistent (join_room registry p2 (codes "ABCDE") girl none one_room)
join_room-IsConsistent_example =
    join_room-IsConsistent registry p2 (codes "ABCDE") girl none one_room
      (create_room-IsOrderly registry p1 1 none boy empty empty-IsOrderly refl).consistent

-- A server where the first client waits.
abbrev queued : Server ℕ
queued = record empty { match_queues = (codes "echo-duel:boy", p1 ∷ []) ∷ [] }

abbrev drawn : List ℕ
drawn = 0 ∷ 1 ∷ 2 ∷ 3 ∷ 4 ∷ []

queued_code : unique_room_code (before_code registry p1 1 none boy queued) ≢ none
unfolding is_taken has get? leave_room leave_lobby set_client_side
queued_code = unique_room_code-SomeFree (before_code registry p1 1 none boy queued) (inl refl)

create_room-waiting_example : ¬ IsOrderly (create_room registry p1 1 none boy queued)
unfolding text_eq count
create_room-waiting_example =
    create_room-waiting registry p1 1 none boy queued (omega arith) queued_code

unique_room_code-free_example :
    IsUnnamed empty (make_room_code drawn)
    × ((before : List (List ℕ)) × (picks : List ℕ) × (rest : List (List ℕ)) × (empty.draws
          ≡ before ++ picks ∷ rest)
        × (make_room_code drawn ≡ make_room_code picks)
        × AllNamed empty before
        × (record empty { draws = (5 ∷ 6 ∷ 7 ∷ 8 ∷ 9 ∷ []) ∷ [] } ≡ record empty { draws = rest }))
unfolding unique_room_code is_taken has get? first_free
unique_room_code-free_example =
    unique_room_code-free empty (make_room_code drawn)
      (record empty { draws = (5 ∷ 6 ∷ 7 ∷ 8 ∷ 9 ∷ []) ∷ [] }) refl

-- A server with one room, whose code is drawn first.
abbrev one_taken : Server ℕ
one_taken = record empty { rooms = (make_room_code drawn, p1 ∷ []) ∷ [] }

unique_room_code-found_example :
    (code : Text) × (t : Server ℕ) × (unique_room_code one_taken ≡ some (code, t))
    × IsUnnamed one_taken code
unfolding make_room_code contains text_eq
unique_room_code-found_example =
    unique_room_code-found one_taken
      (make_room_code drawn ∷ make_room_code (5 ∷ 6 ∷ 7 ∷ 8 ∷ 9 ∷ []) ∷ []) refl refl (omega arith)
