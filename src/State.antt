-- ===== src/State.antt =====
-- src/state.mjs: the maps of the whole server, with the lobbies that src/lobby.mjs keeps in them,
-- and beside them what the program reads from the runtime: the sockets, the clock and the random
-- numbers still to be drawn.
mod Messages
mod Network
pub use Messages.*
unfoldable pub use Network.*
use factory_network_server.Prelude.{ℕ, Bool, true, false, Option, none, some, List}
use factory_network_server.Prelude.Texts.{Text}
use factory_network_server.Prelude.Maps.{Map}
use factory_network_server.Util.{Settings, Identity}

abbrev pub max_players_per_room : ℕ
max_players_per_room = 2

abbrev pub match_ready_delay_ms : ℕ
match_ready_delay_ms = 4000

abbrev pub default_lobby_countdown_ms : ℕ
default_lobby_countdown_ms = 20000

abbrev pub lobby_start_delay_ms : ℕ
lobby_start_delay_ms = 4000

-- A lobby object. `match_state` holds what the game module keeps on it. No code sets a countdown
-- timer, so the lobby has no field for one.
pub record Lobby (G : Type 0) : Type 0 where
  pub room_code : Text
  pub game_id : Text
  pub owner_id : Text
  pub members : List Text
  pub member_profiles : Map Text Identity
  pub display_client_id : Option Text
  pub min_players : ℕ
  pub max_players : ℕ
  pub settings : Settings
  pub is_private : Bool
  pub status : Status
  pub countdown_ms : ℕ
  pub start_at : Option ℕ
  pub seed : Option ℕ
  pub created_at : ℕ
  pub match_state : Option G

pub record Suspension : Type 0 where
  pub room_code : Text
  pub expires_at : ℕ

pub record Server (G : Type 0) : Type 0 where
  pub clients : Map Text ℕ
  pub client_rooms : Map Text Text
  pub rooms : Map Text (List Text)
  pub room_game_ids : Map Text Text
  pub client_sides : Map Text Text
  pub match_queues : Map Text (List Text)
  pub client_queue_watch : Map Text Text
  pub lobbies : Map Text (Lobby G)
  pub client_lobbies : Map Text Text
  pub client_display_lobbies : Map Text Text
  pub client_session_tokens : Map Text Text
  pub suspended_lobby_sessions : Map Text Suspension
  pub net : Net
  -- `Date.now()`
  pub now : ℕ
  -- The picks of `Math.random()` for each room code that will be tried.
  pub draws : List (List ℕ)
  -- The next four bytes of `crypto.randomBytes`, as the number that `readUInt32BE` reads.
  pub seed_bytes : ℕ
