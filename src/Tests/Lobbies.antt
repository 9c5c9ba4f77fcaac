-- ===== src/Tests/Lobbies.antt =====
-- Concrete lobbies: one player who has opened a lobby, and the search for it.
use factory_network_server.Prelude.{ℕ, ◌≡◌, ◌≤◌, refl, true, false, none, some, [], ◌∷◌}
use factory_network_server.Prelude.Texts.{Text, codes, Text_eq, text_eq}
use factory_network_server.Prelude.Int.{pos}
use factory_network_server.Js.Values.{finite, text}
use factory_network_server.Js.Strings.{trim, trim_start, trim_end, is_space}
use factory_network_server.Js.Convert.{Host}
use factory_network_server.Util.{Limits, Settings, arcade, sanitize_lobby_game_id}
use factory_network_server.State.{Server, Lobby, Socket, open_status}
use factory_network_server.Games.{LobbyGame, Change}
use factory_network_server.Lobby.Search.{find_open_lobby, does_lobby_match_search}
use factory_network_server.Lobby.Joining.{is_lobby_joinable}
use factory_network_server.Lobby.Oldest.{Holds, find_open_lobby_oldest}

abbrev pub host : Host
host = record { string_to_number = λ s. finite (pos 5) 0; number_to_text = λ n. codes "5" }

abbrev settings : Settings
settings = record {
  penalty_word = codes "ECHO";
  pack_id = codes "pack_01";
  run_format = codes "canon_10_stage";
  match_type = codes "default";
  ranked = false;
  map_id = [];
  protocol_version = 1;
  mode_id = codes "still";
  duration = pos 30;
  location_id = codes "bedroom";
  ball_id = codes "basketball";
  race_to = 1;
  bowling_style = arcade;
  word = [];
  cpu_count = 0;
  cpu_level = 1;
}

-- Created at the given time.
abbrev pub lobby_of : Text → ℕ → Lobby ℕ
lobby_of code time = record {
  room_code = code;
  game_id = codes "tag";
  owner_id = codes "c1";
  members = codes "c1" ∷ [];
  member_profiles = [];
  display_client_id = none;
  min_players = 2;
  max_players = 6;
  settings = settings;
  is_private = false;
  status = open_status;
  countdown_ms = 20000;
  start_at = none;
  seed = none;
  created_at = time;
  match_state = none;
}

abbrev socket : Socket
socket = record { is_open = true; buffered_amount = 0; send_throws = false; close_throws = false }

abbrev two_lobbies : Server ℕ
two_lobbies = record {
  clients = [];
  client_rooms = [];
  rooms = [];
  room_game_ids = [];
  client_sides = [];
  match_queues = [];
  client_queue_watch = [];
  lobbies =
      (codes "AAAAA", lobby_of (codes "AAAAA") 9)
      ∷ (codes "BBBBB", lobby_of (codes "BBBBB") 7)
      ∷ [];
  client_lobbies = (codes "c1", codes "AAAAA") ∷ [];
  client_display_lobbies = [];
  client_session_tokens = [];
  suspended_lobby_sessions = [];
  net = record { socket = λ ws. socket; queued_bytes = λ ws payload. 100; log = [] };
  now = 1000;
  draws = [];
  seed_bytes = 7;
}

find_open_lobby_oldest_example :
    Holds (lobby_of (codes "BBBBB") 7) two_lobbies.lobbies
    × (does_lobby_match_search host
          (some (text (codes "tag")))
          none
          none
          (lobby_of (codes "BBBBB") 7)
        ≡ some true)
    × ((l : Lobby ℕ)
        → Holds l two_lobbies.lobbies
        → does_lobby_match_search host (some (text (codes "tag"))) none none l ≡ some true
        → 7 ≤ l.created_at)
unfolding find_open_lobby sanitize_lobby_game_id trim_start trim_end trim is_space text_eq
    is_lobby_joinable
find_open_lobby_oldest_example =
    find_open_lobby_oldest host (some (text (codes "tag"))) none none two_lobbies
      (lobby_of (codes "BBBBB") 7) refl

abbrev same : Lobby ℕ → Change ℕ
same lobby = record {
  status = lobby.status;
  start_at = lobby.start_at;
  seed = lobby.seed;
  match_state = lobby.match_state;
  sends = [];
}

abbrev exact : Limits
exact = record { min_players = 3; max_players = 4 }

-- A game for three or four players.
abbrev pub game : LobbyGame ℕ
game = record {
  lobby_limits = some exact;
  reconnect_grace_ms = 30000;
  can_start = λ lobby. true;
  is_match_pending_start = λ lobby now. false;
  has_active_match = λ lobby. false;
  started_payload_extras = λ lobby now. none;
  init_match = λ lobby start. same lobby;
  after_start = same;
  clear_timers = same;
  cancel_pending_start = same;
  broadcast_after_leave = same;
  apply_disconnect = λ lobby client now. (same lobby, false);
  apply_reconnect = none;
  broadcast_after_reconnect = none;
  handle_message = none;
}
