-- ===== src/State/Messages.antt =====
-- What the server sends: one constructor for each event, with the fields of its payload.
use factory_network_server.Prelude.{ℕ, Bool, Option, List}
use factory_network_server.Prelude.Texts.{Text}
use factory_network_server.Js.Values.{Json}
use factory_network_server.Util.{Settings}

-- `ended` is set by game modules only.
pub data Status : Type 0 where
  open_status countdown started ended : Status

pub data ErrorCode : Type 0 where
  room_not_found room_game_mismatch room_full side_conflict : ErrorCode
  lobby_not_found lobby_game_mismatch lobby_started_error lobby_not_joinable lobby_full : ErrorCode
  not_in_lobby not_lobby_owner lobby_locked lobby_not_ready : ErrorCode
  resume_rejected not_in_room client_not_found unknown_type bad_json bad_message internal :
      ErrorCode
  rate_limited : ErrorCode
  game_error : Text → ErrorCode

-- The result of `buildLobbyPayload`.
pub record LobbyView : Type 0 where
  pub room_code : Text
  pub game_id : Text
  pub owner_id : Text
  pub display_client_id : Option Text
  pub player_count : ℕ
  pub min_players : ℕ
  pub max_players : ℕ
  pub status : Status
  pub is_private : Bool
  pub settings : Settings
  pub members : List Text
  -- The id and the name of each player.
  pub players : List (Text × Text)
  pub start_at : Option ℕ

pub record StartedView : Type 0 where
  pub room_code : Text
  pub game_id : Text
  pub seed : Option ℕ
  pub start_at : Option ℕ
  pub owner_id : Text
  pub members : List Text
  pub settings : Settings

pub data Payload : Type 0 where
  failure : ErrorCode → Payload
  room_joined : Text → ℕ → Bool → Payload
  room_left : Text → Payload
  player_joined : Text → Text → ℕ → Payload
  player_left : Text → Text → ℕ → Text → Payload
  -- seed, serverNow, startAt, remoteSide, matchSettings, roomCode
  match_ready : ℕ → ℕ → ℕ → Text → Option Json → Text → Payload
  queue_status : Text → List (Text × ℕ) → Payload
  searching : Text → Option Text → Payload
  search_cancelled pong server_restarting : Payload
  -- clientId, sessionToken
  connected : Text → Text → Payload
  -- messageType, value, senderId, roomCode
  room_message : Text → Text → Text → Text → Payload
  direct_message : Text → Text → Text → Payload
  lobby_message : Text → Text → Text → Text → Payload
  -- created, clientId and the lobby
  lobby_joined : Bool → Text → LobbyView → Payload
  lobby_updated : LobbyView → Payload
  lobby_left : Text → Payload
  lobby_closed : Text → Payload
  -- clientId, roomCode, playerCount, ownerId
  lobby_player_joined : Text → Text → ℕ → Text → Payload
  lobby_player_left : Text → Text → ℕ → Text → Text → Payload
  -- clientId, roomCode, reconnectExpiresAt, reason
  lobby_player_disconnected : Text → Text → ℕ → Text → Payload
  lobby_player_reconnected : Text → Text → Payload
  -- What `buildLobbyStartedPayload` takes from the lobby, with serverNow, reason and the game's extras.
  lobby_started : StartedView → ℕ → Text → Option Json → Payload
  session_resumed : Text → Option Text → Text → Payload
  -- A message that a game module composes.
  game_message : Json → Payload
