-- ===== src/Lobby/Creating.antt =====
-- `createLobby` of src/lobby.mjs and what it shares with `joinLobby`.
use factory_network_server.Prelude.{
  ℕ, zero, suc, Bool, true, false, Option, none, some, [], ◌∷◌, ◌>>=◌, if◌then◌else◌, min, max,
}
use factory_network_server.Prelude.Texts.{Text, codes, Text_eq}
use factory_network_server.Prelude.Int.{pos}
use factory_network_server.Prelude.Maps.{set}
use factory_network_server.Js.Values.{Number, finite, Json, number}
use factory_network_server.Js.Convert.{Host, to_number}
use factory_network_server.Util.{
  Limits, Settings, clamp_int, sanitize_lobby_game_id, sanitize_lobby_identity,
  sanitize_lobby_limits, sanitize_lobby_settings,
}
use factory_network_server.State.{
  Server, Lobby, open_status, lobby_joined, default_lobby_countdown_ms,
}
use factory_network_server.Transport.{send_to_client, unique_room_code}
use factory_network_server.Matchmaking.{leave_queue}
use factory_network_server.LobbyBus.{build_lobby_payload}
use factory_network_server.Games.{LobbyGame, Registry}
use factory_network_server.Lobby.Hooks.{put_lobby}
use factory_network_server.Lobby.Leaving.{leave_lobby, leave_display_lobby}
use factory_network_server.Rooms.Seats.{leave_room}

-- How a handler ends: it returns, a conversion throws, or the search for a code goes on.
pub data Ending : Type 0 where
  returned thrown searching_code : Ending

-- `Number.isFinite(n)`
unfoldable pub is_finite : Number → Bool
is_finite (finite n f) = true
is_finite _ = false

abbrev pub number_of : ℕ → Json
number_of n = number (finite (pos n) 0)

-- `Number(n) || d` for a number that is not negative.
unfoldable pub or_number : ℕ → ℕ → ℕ
or_number zero d = d
or_number (suc n) d = suc n

-- The requested limits cut to those of the game.
unfoldable pub cut_limits : Limits → Limits → Limits
unfolding or_number
cut_limits required requested =
    let lowest = or_number required.min_players 2 in
    let highest =
      max lowest
        (min requested.max_players (or_number required.max_players requested.max_players)) in
    record { min_players = max lowest (min requested.min_players highest); max_players = highest }

module _ (host : Host) where
  -- The value, or the game's own where it is no finite number.
  unfoldable pub finite_or : Option Json → ℕ → Option (Option Json)
  unfolding is_finite
  finite_or value own = do
    n ← to_number host value
    some (if is_finite n then value else some (number_of own))

  unfoldable pub limits_within : Option Limits → Option Json → Option Json → Option Limits
  unfolding finite_or cut_limits
  limits_within none lo hi = sanitize_lobby_limits host lo hi
  limits_within (some required) lo hi = do
    wanted_lo ← finite_or lo required.min_players
    wanted_hi ← finite_or hi required.max_players
    requested ← sanitize_lobby_limits host wanted_lo wanted_hi
    some (cut_limits required requested)

-- The limits that a game module sets; none without a module.
abbrev pub limits_of : {G : Type 0} → Option (LobbyGame G) → Option Limits
limits_of none = none
limits_of (some game) = game.lobby_limits

module _ {G : Type 0} where
  unfoldable pub lobby_limits_for_game :
      Host → Option (LobbyGame G) → Option Json → Option Json → Option Limits
  unfolding limits_within
  lobby_limits_for_game host game lo hi = limits_within host (limits_of game) lo hi

  -- The profile stays as it was where the identity is not one.
  unfoldable pub remember_lobby_identity : Text → Option Json → Lobby G → Lobby G
  remember_lobby_identity client identity lobby = elim (sanitize_lobby_identity identity) [
    | none ↦ lobby
    | some profile ↦ record lobby { member_profiles = set client profile lobby.member_profiles }
  ]

  -- Out of queue, room and lobbies, with the two reasons that are told.
  unfoldable pub release_client : Registry G → Text → Text → Text → Server G → Server G
  release_client games client room_reason lobby_reason s =
      let s1 = record s { match_queues = (leave_queue client s.match_queues).1 } in
      let s2 = leave_lobby games client lobby_reason (leave_room client room_reason s1) in
      leave_display_lobby games client s2

  -- The lobby's record from what was read of the message.
  unfoldable pub new_lobby :
      Text → Text → Text → Bool → Bool → Limits → Settings → ℕ → Server G → Lobby G
  new_lobby code game client private display limits settings countdown s = record {
    room_code = code;
    game_id = game;
    owner_id = client;
    members = if display then [] else client ∷ [];
    member_profiles = [];
    display_client_id = if display then some client else none;
    min_players = limits.min_players;
    max_players = limits.max_players;
    settings = settings;
    is_private = private;
    status = open_status;
    countdown_ms = countdown;
    start_at = none;
    seed = none;
    created_at = s.now;
    match_state = none;
  }

  -- The maps with the new lobby, and the answer.
  unfoldable pub enter_new_lobby : Text → Bool → Option Json → Text → Lobby G → Server G → Server G
  unfolding remember_lobby_identity put_lobby
  enter_new_lobby client display identity code lobby s =
      let kept = if display then lobby else remember_lobby_identity client identity lobby in
      let seated =
        if display
        then record s { client_display_lobbies = set client code s.client_display_lobbies }
        else record s { client_lobbies = set client code s.client_lobbies } in
      send_to_client client (lobby_joined true client (build_lobby_payload kept))
        (put_lobby code kept seated)

  -- What the message says of the lobby; `none` where a conversion throws.
  unfoldable pub read_lobby :
      Host → Registry G → (Text → Option Json) → Option (Limits × Settings × ℕ)
  unfolding lobby_limits_for_game
  read_lobby host games get = do
    let game = games.lobby_game (sanitize_lobby_game_id (get (codes "gameId")))
    limits ← lobby_limits_for_game host game (get (codes "minPlayers")) (get (codes "maxPlayers"))
    settings ← sanitize_lobby_settings host (get (codes "settings"))
    countdown ← clamp_int host (get (codes "countdownMs")) 5000 60000 default_lobby_countdown_ms
    some (limits, settings, countdown)

  unfoldable pub build_lobby :
      Host
      → Registry G
      → Text
      → (Text → Option Json)
      → Bool
      → Bool
      → Text
      → Server G
      → Ending × Server G
  unfolding read_lobby new_lobby enter_new_lobby
  build_lobby host games client get private display code s = elim (read_lobby host games get) [
    | none ↦ (thrown, s)
    | some (limits, settings, countdown) ↦
        let game = sanitize_lobby_game_id (get (codes "gameId")) in
        let lobby = new_lobby code game client private display limits settings countdown s in
        (returned, enter_new_lobby client display (get (codes "identity")) code lobby s)
  ]

  unfoldable pub create_lobby :
      Host → Registry G → Text → (Text → Option Json) → Bool → Bool → Server G → Ending × Server G
  unfolding release_client build_lobby
  create_lobby host games client get private display s =
      let t = release_client games client (codes "create_lobby") (codes "create_new_lobby") s in
      elim (unique_room_code t) [
        | none ↦ (searching_code, t)
        | some (code, u) ↦ build_lobby host games client get private display code u
      ]
