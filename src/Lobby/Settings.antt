-- ===== src/Lobby/Settings.antt =====
-- `updateLobbySettings` of src/lobby.mjs.
use factory_network_server.Prelude.{Option, none, some, if◌then◌else◌, ◌==◌, not}
use factory_network_server.Prelude.Texts.{Text, codes, Text_eq}
use factory_network_server.Prelude.Maps.{get?}
use factory_network_server.Js.Values.{Json, object, Fields, end, field, is_nullish}
use factory_network_server.Js.Convert.{Host}
use factory_network_server.Util.{Settings, sanitize_lobby_settings}
use factory_network_server.State.{
  Server, Lobby, failure, not_in_lobby, not_lobby_owner, lobby_locked,
}
use factory_network_server.Transport.{send_to_client}
use factory_network_server.LobbyBus.{send_lobby_updated}
use factory_network_server.Games.{Registry}
use factory_network_server.Lobby.Hooks.{put_lobby, maybe_start_lobby_countdown}
use factory_network_server.Lobby.Creating.{
  Ending, returned, thrown, number_of, lobby_limits_for_game,
}
use factory_network_server.Lobby.Joining.{is_open}
use factory_network_server.Lobby.Search.{settings_fields}

-- The first of two members with one name is the one that is read.
unfoldable pub spread_over : Fields → Fields → Fields
spread_over end below = below
spread_over (field k v above) below = field k v (spread_over above below)

-- What `...(settings || {})` adds: the members that are read are those of objects.
unfoldable pub spread_fields : Option Json → Fields
spread_fields (some (object fs)) = fs
spread_fields _ = end

-- `{ ...lobby.settings, ...(data.settings || {}) }`
unfoldable pub merged_settings : Option Json → Settings → Json
unfolding spread_over spread_fields
merged_settings settings own = object (spread_over (spread_fields settings) (settings_fields own))

-- `value ?? own`
unfoldable pub value_or : Option Json → Json → Option Json
value_or value own = if is_nullish value then some own else value

module _ {G : Type 0} where
  -- The new limits are stored before the settings are read, which may throw.
  unfoldable pub update_lobby :
      Host → Registry G → Text → (Text → Option Json) → Lobby G → Server G → Ending × Server G
  unfolding merged_settings value_or
  update_lobby host games code get lobby s =
      let lo = value_or (get (codes "minPlayers")) (number_of lobby.min_players) in
      let hi = value_or (get (codes "maxPlayers")) (number_of lobby.max_players) in
      elim (lobby_limits_for_game host (games.lobby_game lobby.game_id) lo hi) [
        | none ↦ (thrown, s)
        | some limits ↦
            let limited = record lobby {
              min_players = limits.min_players;
              max_players = limits.max_players;
            } in
            let merged = merged_settings (get (codes "settings")) lobby.settings in
            elim (sanitize_lobby_settings host (some merged)) [
              | none ↦ (thrown, put_lobby code limited s)
              | some settings ↦
                  let (after, t) =
                    maybe_start_lobby_countdown code (record limited { settings = settings }) s in
                  (returned, send_lobby_updated after t)
            ]
      ]

  unfoldable pub update_own_lobby :
      Host
      → Registry G
      → Text
      → Text
      → (Text → Option Json)
      → Lobby G
      → Server G
      → Ending × Server G
  unfolding update_lobby
  update_own_lobby host games client code get lobby s =
      if not (lobby.owner_id == client)
      then (returned, send_to_client client (failure not_lobby_owner) s)
      else (if is_open lobby.status
          then update_lobby host games code get lobby s
          else (returned, send_to_client client (failure lobby_locked) s))

  unfoldable pub update_lobby_settings :
      Host → Registry G → Text → (Text → Option Json) → Server G → Ending × Server G
  unfolding update_own_lobby
  update_lobby_settings host games client get s = elim (get? client s.client_lobbies) [
    | none ↦ (returned, send_to_client client (failure not_in_lobby) s)
    | some code ↦ elim (get? code s.lobbies) [
      | none ↦ (returned, send_to_client client (failure not_in_lobby) s)
      | some lobby ↦ update_own_lobby host games client code get lobby s
    ]
  ]
