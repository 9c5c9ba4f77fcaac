-- ===== src/Games.antt =====
-- games/registry.mjs as the generic code asks it: what it knows of a game id. A game module is a
-- record of the hooks that src/lobby.mjs calls. A hook that a module lacks is the one that does
-- nothing. Hooks change the match state, the status, the start and the seed of their lobby, and send
-- messages; but for `handleMessage` they do not throw.
pub mod Definitions
pub mod Lookup
pub mod Apart
pub mod Bridges
pub mod Readable
pub mod Routed
pub mod Codes
use factory_network_server.Prelude.{ℕ, Bool, Option, List}
use factory_network_server.Prelude.Texts.{Text}
use factory_network_server.Js.Values.{Json}
use factory_network_server.Util.{Limits}
use factory_network_server.State.{Lobby, Status}
use factory_network_server.Matchmaking.{Strategy}

pub data GameSend : Type 0 where
  to_member : Text → Json → GameSend
  to_lobby : Json → GameSend
  refresh : GameSend

pub record Change (G : Type 0) : Type 0 where
  pub status : Status
  pub start_at : Option ℕ
  pub seed : Option ℕ
  pub match_state : Option G
  pub sends : List GameSend

-- What a module answers to a message: it is not one of the module's, it is dealt with, it is refused
-- with an error's code, or handling it throws.
pub data Reply : Type 0 where
  unhandled handled threw : Reply
  refused : Text → Reply

pub record LobbyGame (G : Type 0) : Type 0 where
  pub lobby_limits : Option Limits
  -- 0 where the module names no period.
  pub reconnect_grace_ms : ℕ
  pub can_start : Lobby G → Bool
  pub is_match_pending_start : Lobby G → ℕ → Bool
  pub has_active_match : Lobby G → Bool
  pub started_payload_extras : Lobby G → ℕ → Option Json
  pub init_match : Lobby G → ℕ → Change G
  pub after_start : Lobby G → Change G
  pub clear_timers : Lobby G → Change G
  pub cancel_pending_start : Lobby G → Change G
  pub broadcast_after_leave : Lobby G → Change G
  -- Beside the change, whether the match changed.
  pub apply_disconnect : Lobby G → Text → ℕ → Change G × Bool
  pub apply_reconnect : Option (Lobby G → Text → ℕ → Change G × Bool)
  -- Beside the change, whether what it returns is truthy.
  pub broadcast_after_reconnect : Option (Lobby G → Change G × Bool)
  -- The sender, the message's type and its value.
  pub handle_message : Option (Lobby G → Text → Text → Text → Change G × Reply)

pub record Registry (G : Type 0) : Type 0 where
  pub lobby_game : Text → Option (LobbyGame G)
  pub matchmaking_strategy : Text → Strategy
  pub match_settings : Option Text → ℕ → Option Json
