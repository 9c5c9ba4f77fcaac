-- ===== src/Matchmaking.antt =====
-- src/matchmaking.mjs: sides, queue keys, the queues, and the messages that start a match.
pub mod Keys
pub mod Waiting
pub mod Lines
pub mod Mirrored
use factory_network_server.Prelude.{
  ℕ, ◌+◌, Bool, true, false, Option, none, some, List, [], ◌∷◌, ◌++◌, map, if◌then◌else◌, ltb, ◌||◌,
  length, ◌==◌, or_else, contains, any, is_some_of,
}
use factory_network_server.Prelude.Texts.{Text, codes, Text_eq}
use factory_network_server.Prelude.Maps.{Map, get?, set, erase, keys}
use factory_network_server.Js.Values.{Json, text}
use factory_network_server.Js.Strings.{trim, split}
use factory_network_server.State.{Server, Payload, match_ready, queue_status}
use factory_network_server.Transport.{send_to_client}

abbrev pub side_pairs : List (Text × Text)
side_pairs =
    (codes "boy", codes "girl") ∷ (codes "alpha", codes "beta") ∷ (codes "p1", codes "p2") ∷ []

-- `SIDE_PAIRS.some(([a, b]) => s === a || s === b)`
unfoldable pub is_paired : Text → Bool
is_paired s = any (λ (p : Text × Text). s == p.0 || s == p.1) side_pairs

unfoldable pub normalize_text : Text → Option Text
unfolding is_paired
normalize_text side = let s = trim side in if is_paired s then some s else none

-- An empty string is refused as falsy; it would be no side in any case.
unfoldable pub normalize_match_side : Option Json → Option Text
unfolding normalize_text
normalize_match_side (some (text [])) = none
normalize_match_side (some (text (c ∷ s))) = normalize_text (c ∷ s)
normalize_match_side _ = none

unfoldable pub get_match_queue_key : Text → Option Text → Text
get_match_queue_key game none = game
get_match_queue_key game (some []) = game
get_match_queue_key game (some (c ∷ side)) = game ++ (58 ∷ c ∷ side)

-- The other side of the first pair that has the side.
unfoldable pub partner_in : List (Text × Text) → Text → Option Text
partner_in [] side = none
partner_in ((a, b) ∷ pairs) side =
    let rest = partner_in pairs side in
    if side == a then some b else if side == b then some a else rest

unfoldable pub get_opponent_match_side : Option Text → Option Text
unfolding partner_in
get_opponent_match_side none = none
get_opponent_match_side (some side) = partner_in side_pairs side

abbrev pub first_or_empty : List Text → Text
first_or_empty [] = []
first_or_empty (p ∷ ps) = p

unfoldable pub get_game_id_from_queue_key : Text → Text
get_game_id_from_queue_key key = first_or_empty (split 58 key)

abbrev pub Queues : Type 0
Queues = Map Text (List Text)

-- `queues.get(key) || []`
abbrev pub line : Text → Queues → List Text
line key queues = or_else (get? key queues) []

unfoldable pub counts_of : List (Text × Text) → Queues → Text → List (Text × ℕ)
counts_of [] queues game = []
counts_of ((a, b) ∷ pairs) queues game =
    (a, length (line (get_match_queue_key game (some a)) queues))
    ∷ (b, length (line (get_match_queue_key game (some b)) queues))
    ∷ counts_of pairs queues game

unfoldable pub get_queue_counts_for_game : Queues → Text → List (Text × ℕ)
unfolding counts_of
get_queue_counts_for_game queues game = counts_of side_pairs queues game

unfoldable pub should_receive_queue_status : Map Text Text → Text → Text → Bool
should_receive_queue_status watched client game = is_some_of (get? client watched) game

unfoldable pub send_queue_status : {G : Type 0} → Text → Text → Server G → Server G
send_queue_status client game s =
    send_to_client client (queue_status game (get_queue_counts_for_game s.match_queues game)) s

unfoldable pub send_status_each : {G : Type 0} → List Text → Text → Server G → Server G
send_status_each [] game s = s
send_status_each (c ∷ cs) game s = send_status_each cs game (
    if should_receive_queue_status s.client_queue_watch c game
    then send_queue_status c game s
    else s)

unfoldable pub broadcast_queue_status : {G : Type 0} → Text → Server G → Server G
unfolding send_status_each
broadcast_queue_status [] s = s
broadcast_queue_status (c ∷ game) s = send_status_each (keys s.clients) (c ∷ game) s

-- What `queue.shift()` leaves of the queue at the key.
unfoldable pub shift_queue : Text → List Text → Queues → Queues
shift_queue key [] queues = erase key queues
shift_queue key (c ∷ rest) queues = set key (c ∷ rest) queues

unfoldable pub claim_at : Text → List Text → Queues → Option Text × Queues
unfolding shift_queue
claim_at key [] queues = (none, queues)
claim_at key (opponent ∷ rest) queues = (some opponent, shift_queue key rest queues)

unfoldable pub claim_queued_opponent : Queues → Text → Option Text → Option Text × Queues
unfolding claim_at
claim_queued_opponent queues game side =
    let key = get_match_queue_key game (get_opponent_match_side side) in
    claim_at key (line key queues) queues

unfoldable pub enqueue_match_client : Queues → Text → Option Text → Text → Queues
enqueue_match_client queues game side client =
    let key = get_match_queue_key game side in set key (line key queues ++ client ∷ []) queues

-- `queue.splice(queue.indexOf(clientId), 1)`
unfoldable pub remove_first : Text → List Text → List Text
remove_first client [] = []
remove_first client (c ∷ queue) =
    let rest = remove_first client queue in if c == client then queue else c ∷ rest

-- The entry without the client; an empty queue is deleted.
unfoldable pub keep_queue : Text → List Text → Queues → Queues
keep_queue key [] queues = queues
keep_queue key (c ∷ queue) queues = (key, c ∷ queue) ∷ queues

-- The first queue that holds the client loses it; the result has that queue's key.
unfoldable pub leave_queue : Text → Queues → Option Text × Queues
leave_queue client [] = (none, [])
leave_queue client ((key, queue) ∷ queues) =
    let rest = leave_queue client queues in
    if contains client queue
    then (some key, keep_queue key (remove_first client queue) queues)
    else (rest.0, (key, queue) ∷ rest.1)

-- A game's matchmaking descriptor; "symmetric-balanced" has its sides.
pub data Strategy : Type 0 where
  symmetric_balanced : List Text → Strategy
  side_pair lobby_only self_owned : Strategy

unfoldable pub assign_side_for_strategy : Strategy → Text → Option Json → Queues → Option Json
assign_side_for_strategy (symmetric_balanced (a ∷ b ∷ [])) game requested queues =
    let a_length = length (line (get_match_queue_key game (some a)) queues) in
    let b_length = length (line (get_match_queue_key game (some b)) queues) in
    some (text (if ltb b_length a_length then b else a))
assign_side_for_strategy _ game requested queues = requested

pub record Ready : Type 0 where
  pub client_id : Text
  pub seed : ℕ
  pub server_now : ℕ
  pub start_at : ℕ
  pub remote_side : Text
  pub match_settings : Option Json

unfoldable pub ready_pair : Text → Text → Text → Text → ℕ → ℕ → ℕ → Option Json → List Ready
ready_pair a side_a b side_b now start seed settings =
    record {
      client_id = a;
      seed = seed;
      server_now = now;
      start_at = start;
      remote_side = side_b;
      match_settings = settings;
    }
    ∷ record {
      client_id = b;
      seed = seed;
      server_now = now;
      start_at = start;
      remote_side = side_a;
      match_settings = settings;
    }
    ∷ []

unfoldable pub normalize_stored : Option Text → Option Text
normalize_stored none = none
normalize_stored (some side) = normalize_match_side (some (text side))

-- No messages unless both sides are known and differ.
unfoldable pub ready_unless_same :
    Text → Option Text → Text → Option Text → ℕ → ℕ → ℕ → Option Json → Option (List Ready)
unfolding ready_pair
ready_unless_same a (some na) b (some nb) now delay seed settings =
    if na == nb then none else some (ready_pair a na b nb now (now + delay) seed settings)
ready_unless_same a _ b _ now delay seed settings = none

-- The sides are read as they stand in `clientSides`.
unfoldable pub build_match_ready_messages :
    Text → Option Text → Text → Option Text → ℕ → ℕ → ℕ → Option Json → Option (List Ready)
unfolding ready_unless_same normalize_stored
build_match_ready_messages a side_a b side_b now delay seed settings =
    ready_unless_same a (normalize_stored side_a) b (normalize_stored side_b) now delay seed
      settings

unfoldable pub store_side : Text → Option Text → Map Text Text → Map Text Text
store_side client none sides = erase client sides
store_side client (some side) sides = set client side sides

-- The side as it was stored, or none.
unfoldable pub set_client_side :
    {G : Type 0} → Text → Option Json → Server G → Option Text × Server G
unfolding store_side
set_client_side client side s =
    let normalized = normalize_match_side side in
    (normalized, record s { client_sides = store_side client normalized s.client_sides })
