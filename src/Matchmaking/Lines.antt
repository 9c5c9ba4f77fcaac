-- ===== src/Matchmaking/Lines.antt =====
-- `claimQueuedOpponent` and `enqueueMatchClient` of src/matchmaking.mjs beside a specification: one
-- first-in first-out line for each key.
use factory_network_server.Prelude.{
  ◌≡◌, refl, Option, none, some, List, [], ◌∷◌, ◌++◌, if◌then◌else◌, arith, ◌==◌, eq_iff,
}
use factory_network_server.Prelude.Texts.{Text, Text_eq}
use factory_network_server.Prelude.Maps.{get?-set, get?-erase}
use factory_network_server.Matchmaking.{
  Queues, line, claim_queued_opponent, claim_at, shift_queue, enqueue_match_client,
  get_match_queue_key, get_opponent_match_side,
}

-- The specification: the line of each key.
abbrev pub Lines : Type 0
Lines = Text → List Text

abbrev pub view : Queues → Lines
view queues key = line key queues

abbrev pub put_line : Text → List Text → Lines → Lines
put_line key clients lines k = if key == k then clients else lines k

-- A client joins the end of a line.
abbrev pub join_line : Text → Text → Lines → Lines
join_line key client lines = put_line key (lines key ++ client ∷ []) lines

abbrev pub head_of : List Text → Option Text
head_of [] = none
head_of (c ∷ rest) = some c

abbrev pub tail_of : List Text → List Text
tail_of [] = []
tail_of (c ∷ rest) = rest

-- The first of a line is served, if there is one.
abbrev pub serve_line : Text → Lines → Option Text × Lines
serve_line key lines = (head_of (lines key), put_line key (tail_of (lines key)) lines)

-- Queues seen as lines, one for each key: enqueuing puts the client at the end of the line of his
-- game and side, and no other line changes.
pub view-enqueue_match_client :
    (queues : Queues) (game : Text) (side : Option Text) (client key : Text)
    → view (enqueue_match_client queues game side client) key
      ≡ join_line (get_match_queue_key game side) client (view queues) key
unfolding enqueue_match_client
view-enqueue_match_client queues game side client key =
    let own = get_match_queue_key game side in
    ground (arith, get?-set own key (line own queues ++ client ∷ []) queues)

view-shift_queue :
    (key k : Text) (rest : List Text) (queues : Queues)
    → view (shift_queue key rest queues) k ≡ put_line key rest (view queues) k
unfolding shift_queue
view-shift_queue key k [] queues = ground (arith, get?-erase key k queues)
view-shift_queue key k (c ∷ rest) queues = ground (arith, get?-set key k (c ∷ rest) queues)

claim_at-serve :
    (key k : Text) (clients : List Text) (queues : Queues)
    → line key queues ≡ clients
    → ((claim_at key clients queues).0 ≡ head_of clients)
      × (view (claim_at key clients queues).1 k ≡ put_line key (tail_of clients) (view queues) k)
unfolding claim_at
claim_at-serve key k [] queues e = (refl, ground (arith, eq_iff key k))
claim_at-serve key k (c ∷ rest) queues e = (refl, view-shift_queue key k rest queues)

-- Queues seen as lines, one for each key: claiming an opponent answers with the head of the line of
-- the opposite side and takes it off, or answers with nothing where that line is empty, and no
-- other line changes.
pub claim_queued_opponent-serve_line :
    (queues : Queues) (game : Text) (side : Option Text) (key : Text)
    → let own = get_match_queue_key game (get_opponent_match_side side) in
      ((claim_queued_opponent queues game side).0 ≡ (serve_line own (view queues)).0)
      × (view (claim_queued_opponent queues game side).1 key ≡ (serve_line own (view queues)).1 key)
unfolding claim_queued_opponent
claim_queued_opponent-serve_line queues game side key = claim_at-serve _ key _ queues refl
