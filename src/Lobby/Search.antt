-- ===== src/Lobby/Search.antt =====
-- The search for an open lobby: `doesLobbyMatchSearch` and `findOpenLobby` of src/lobby.mjs.
use factory_network_server.Prelude.{
  Bool, true, false, Option, none, some, List, [], ◌∷◌, ◌&&◌, not, ◌>>=◌, if◌then◌else◌, ltb,
  nat_eq, ◌==◌,
}
use factory_network_server.Prelude.Texts.{Text, codes, Text_eq}
use factory_network_server.Prelude.Int.{int_eq}
use factory_network_server.Prelude.Maps.{Map}
use factory_network_server.Js.Values.{
  finite, Json, boolean, number, text, object, Fields, end, field, truthy,
}
use factory_network_server.Js.Convert.{Host}
use factory_network_server.Util.{
  Limits, BowlingStyle, arcade, three_d, Settings, sanitize_lobby_game_id, sanitize_lobby_limits,
  sanitize_lobby_settings,
}
use factory_network_server.State.{Server, Lobby}
use factory_network_server.Lobby.Creating.{number_of}
use factory_network_server.Lobby.Joining.{is_lobby_joinable}

abbrev pub style_text : BowlingStyle → Text
style_text arcade = codes "arcade"
style_text three_d = codes "3d"

unfoldable pub fields_of : List (Text × Json) → Fields
fields_of [] = end
fields_of ((k, v) ∷ rest) = field k v (fields_of rest)

-- The settings of a lobby as the object that the code reads again.
unfoldable pub settings_fields : Settings → Fields
unfolding fields_of
settings_fields s = fields_of (
    (codes "penaltyWord", text s.penalty_word)
    ∷ (codes "packId", text s.pack_id)
    ∷ (codes "runFormat", text s.run_format)
    ∷ (codes "matchType", text s.match_type)
    ∷ (codes "ranked", boolean s.ranked)
    ∷ (codes "mapId", text s.map_id)
    ∷ (codes "protocolVersion", number_of s.protocol_version)
    ∷ (codes "modeId", text s.mode_id)
    ∷ (codes "duration", number (finite s.duration 0))
    ∷ (codes "locationId", text s.location_id)
    ∷ (codes "ballId", text s.ball_id)
    ∷ (codes "raceTo", number_of s.race_to)
    ∷ (codes "bowlingStyle", text (style_text s.bowling_style))
    ∷ (codes "word", text s.word)
    ∷ (codes "cpuCount", number_of s.cpu_count)
    ∷ (codes "cpuLevel", number_of s.cpu_level)
    ∷ [])

abbrev pub same_flag : Bool → Bool → Bool
same_flag true b = b
same_flag false b = not b

-- Every field but the host's own: `word`, `cpuCount` and `cpuLevel`.
unfoldable pub agree_on_settings : Settings → Settings → Bool
agree_on_settings a b =
    a.penalty_word == b.penalty_word
    && a.pack_id == b.pack_id
    && a.run_format == b.run_format
    && a.match_type == b.match_type
    && same_flag a.ranked b.ranked
    && a.map_id == b.map_id
    && nat_eq a.protocol_version b.protocol_version
    && a.mode_id == b.mode_id
    && int_eq a.duration b.duration
    && a.location_id == b.location_id
    && a.ball_id == b.ball_id
    && nat_eq a.race_to b.race_to
    && style_text a.bowling_style == style_text b.bowling_style

module _ (host : Host) where
  -- Both sides are sanitized, the lobby's own for the second time.
  unfoldable pub same_lobby_settings : Option Json → Option Json → Option Bool
  unfolding agree_on_settings
  same_lobby_settings a b = do
    left ← sanitize_lobby_settings host a
    right ← sanitize_lobby_settings host b
    some (agree_on_settings left right)

  -- `!limits` or the same limits
  unfoldable pub match_limits : {G : Type 0} → Option Limits → Lobby G → Option Bool
  match_limits none lobby = some true
  match_limits (some limits) lobby = do
    wanted ←
        sanitize_lobby_limits host (some (number_of limits.min_players))
          (some (number_of limits.max_players))
    some
        (nat_eq lobby.min_players wanted.min_players && nat_eq lobby.max_players wanted.max_players)

  -- `!settings` or the same settings
  unfoldable pub match_settings : {G : Type 0} → Option Json → Lobby G → Option Bool
  unfolding same_lobby_settings settings_fields
  match_settings settings lobby =
      if truthy settings
      then same_lobby_settings (some (object (settings_fields lobby.settings))) settings
      else some true

  -- Open to anyone who looks for the game.
  unfoldable pub is_candidate : {G : Type 0} → Text → Lobby G → Bool
  is_candidate game lobby = lobby.game_id == game && not lobby.is_private && is_lobby_joinable lobby

  -- `none` where a conversion throws.
  unfoldable pub does_lobby_match_search :
      {G : Type 0} → Option Json → Option Limits → Option Json → Lobby G → Option Bool
  unfolding match_limits match_settings is_candidate
  does_lobby_match_search game limits settings lobby =
      if is_candidate (sanitize_lobby_game_id game) lobby
      then (do
        fits ← match_limits limits lobby
        if fits then match_settings settings lobby else some false)
      else some false

-- The lobby, unless the best so far is as old.
unfoldable pub older : {G : Type 0} → Option (Lobby G) → Lobby G → Lobby G
older none lobby = lobby
older (some best) lobby = if ltb lobby.created_at best.created_at then lobby else best

-- The loop over the lobbies, from the best so far.
unfoldable pub oldest_match :
    {G : Type 0}
    → (Lobby G → Option Bool)
    → Option (Lobby G)
    → Map Text (Lobby G)
    → Option (Option (Lobby G))
unfolding older
oldest_match does_match best [] = some best
oldest_match does_match best ((code, lobby) ∷ rest) = do
  found ← does_match lobby
  oldest_match does_match (if found then some (older best lobby) else best) rest

unfoldable pub find_open_lobby :
    {G : Type 0}
    → Host
    → Option Json
    → Option Limits
    → Option Json
    → Server G
    → Option (Option (Lobby G))
unfolding oldest_match does_lobby_match_search
find_open_lobby host game limits settings s =
    oldest_match (does_lobby_match_search host game limits settings) none s.lobbies
