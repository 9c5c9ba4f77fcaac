-- ===== src/Lobby/Quiet.antt =====
-- Starting a lobby, its settings and the resumption of a seat, of src/lobby.mjs, and the maps of the
-- server that are not of lobbies.
use factory_network_server.Prelude.{
  ℕ, ◌≡◌, refl, ◌∙◌, arith, Option, none, some, Option-cases, Bool-cases, inl, inr, is_some_of, ltb,
  ◌&&◌, ◌==◌, not,
}
use factory_network_server.Prelude.Texts.{Text, codes, Text_eq}
use factory_network_server.Prelude.Maps.{get?}
use factory_network_server.Js.Values.{Json}
use factory_network_server.Js.Convert.{Host}
use factory_network_server.Util.{sanitize_lobby_settings}
use factory_network_server.State.{Server, Lobby, Suspension}
use factory_network_server.Transport.{send_to_client}
use factory_network_server.LobbyBus.{broadcast_to_lobby, send_lobby_updated}
use factory_network_server.Games.{LobbyGame, Registry}
use factory_network_server.Lobby.Hooks.{put_lobby}
use factory_network_server.Lobby.Leaving.{clear_suspended_lobby_session}
use factory_network_server.Lobby.Creating.{number_of, lobby_limits_for_game}
use factory_network_server.Lobby.Starting.{
  launch_lobby, start_lobby, can_lobby_start, request_start_at, request_start_lobby, own_lobby,
}
use factory_network_server.Lobby.Settings.{
  update_lobby, update_own_lobby, update_lobby_settings, merged_settings, value_or,
}
use factory_network_server.Lobby.Sessions.{
  reconnect_match, resume_seat, resume_suspended, resume_lobby_client,
}
use factory_network_server.Lobby.Frame.{
  outside, outside-if, outside-run_change, outside-run_hook, outside-maybe_start_lobby_countdown,
}

module _ {G : Type 0} (games : Registry G) where
  outside-launch_lobby :
      (reason code : Text) (lobby : Lobby G) (s : Server G)
      → outside (launch_lobby games reason code lobby s) ≡ outside s
  unfolding launch_lobby put_lobby broadcast_to_lobby
  outside-launch_lobby reason code lobby s =
      outside-run_hook _ (games.lobby_game lobby.game_id) _ _ _
      ∙ outside-run_hook _ (games.lobby_game lobby.game_id) _ _ _
      ∙ outside-run_hook _ (games.lobby_game lobby.game_id) _ _ _

  outside-request_start_at :
      (client code : Text) (lobby : Lobby G) (s : Server G)
      → outside (request_start_at games client code lobby s) ≡ outside s
  unfolding request_start_at start_lobby send_to_client
  outside-request_start_at client code lobby s = elim (Bool-cases (can_lobby_start games lobby)) [
    | inl e ↦
        rw (e, request_start_at)
          (outside-if (not (lobby.owner_id == client)) _ _ refl
            (outside-launch_lobby (codes "owner_start") code lobby s))
    | inr e ↦ rw (e, request_start_at) (outside-if (not (lobby.owner_id == client)) _ _ refl refl)
  ]

  -- Asking for the start of a lobby, refusals included.
  pub outside-request_start_lobby :
      (client : Text) (s : Server G) → outside (request_start_lobby games client s) ≡ outside s
  unfolding request_start_lobby send_to_client
  outside-request_start_lobby client s = elim (Option-cases (own_lobby client s)) [
    | inl e ↦ rw (e, request_start_lobby)
    | inr (code, e) ↦ elim (Option-cases (get? code s.lobbies)) [
      | inl f ↦ rw (e, request_start_lobby) (rw f)
      | inr (lobby, f) ↦
          rw (e, request_start_lobby) (rw f (outside-request_start_at client code lobby s))
    ]
  ]

  outside-reconnect_match :
      (code : Text) (game : Option (LobbyGame G)) (client : Text) (now : ℕ) (lobby : Lobby G)
      (s : Server G)
      → outside (reconnect_match code game client now lobby s).1 ≡ outside s
  unfolding reconnect_match
  outside-reconnect_match code none client now lobby s = refl
  outside-reconnect_match code (some game) client now lobby s =
      elim (Option-cases game.apply_reconnect) [
        | inl e ↦ rw e
        | inr (hook, e) ↦ rw e (outside-run_change code lobby (hook lobby client now).0 s)
      ]

  outside-resume_seat :
      (client code : Text) (lobby : Lobby G) (s : Server G)
      → outside (resume_seat games client code lobby s).1 ≡ outside s
  unfolding resume_seat broadcast_to_lobby clear_suspended_lobby_session
  outside-resume_seat client code lobby s =
      outside-reconnect_match code (games.lobby_game lobby.game_id) client s.now lobby
        (clear_suspended_lobby_session client s)

  outside-resume_suspended :
      (client token : Text) (suspended : Suspension) (s : Server G)
      → outside (resume_suspended games client token suspended s).1 ≡ outside s
  unfolding resume_suspended
  outside-resume_suspended client token suspended s =
      let valid =
        ltb s.now suspended.expires_at && is_some_of (get? client s.client_session_tokens) token in
      elim (Bool-cases valid) [
        | inr b ↦ rw (b, resume_suspended)
        | inl b ↦ elim (Option-cases (get? suspended.room_code s.lobbies)) [
          | inl e ↦ rw (b, resume_suspended) (rw e)
          | inr (lobby, e) ↦
              elim (Bool-cases (is_some_of (get? client s.client_lobbies) lobby.room_code)) [
                | inl c ↦
                    rw (b, resume_suspended)
                      (rw e (rw c (outside-resume_seat client suspended.room_code lobby s)))
                | inr c ↦ rw (b, resume_suspended) (rw e (rw c))
              ]
        ]
      ]

  -- Taking a suspended seat again, whether that is refused or not.
  pub outside-resume_lobby_client :
      (client token : Text) (s : Server G)
      → outside (resume_lobby_client games client token s).1 ≡ outside s
  unfolding resume_lobby_client
  outside-resume_lobby_client client token s =
      elim (Option-cases (get? client s.suspended_lobby_sessions)) [
        | inl e ↦ rw (e, resume_lobby_client)
        | inr (kept, e) ↦ rw (e, resume_lobby_client) (outside-resume_suspended client token kept s)
      ]

  module _ (host : Host) (client : Text) (get : Text → Option Json) where
    outside-update_lobby :
        (code : Text) (lobby : Lobby G) (s : Server G)
        → outside (update_lobby host games code get lobby s).1 ≡ outside s
    unfolding update_lobby send_lobby_updated broadcast_to_lobby put_lobby
    outside-update_lobby code lobby s =
        let lo = value_or (get (codes "minPlayers")) (number_of lobby.min_players) in
        let hi = value_or (get (codes "maxPlayers")) (number_of lobby.max_players) in
        let game = games.lobby_game lobby.game_id in
        let merged = merged_settings (get (codes "settings")) lobby.settings in
        elim (Option-cases (lobby_limits_for_game host game lo hi)) [
          | inl e ↦ rw (e, update_lobby)
          | inr (limits, e) ↦ elim (Option-cases (sanitize_lobby_settings host (some merged))) [
            | inl f ↦ rw (e, update_lobby) (rw f)
            | inr (settings, f) ↦
                rw (e, update_lobby) (rw f (outside-maybe_start_lobby_countdown code _ s))
          ]
        ]

    outside-update_own_lobby :
        (code : Text) (lobby : Lobby G) (s : Server G)
        → outside (update_own_lobby host games client code get lobby s).1 ≡ outside s
    unfolding update_own_lobby send_to_client
    outside-update_own_lobby code lobby s = ground (arith, outside-update_lobby code lobby s)

    -- New settings of a lobby, refusals and conversions that throw included.
    pub outside-update_lobby_settings :
        (s : Server G) → outside (update_lobby_settings host games client get s).1 ≡ outside s
    unfolding update_lobby_settings send_to_client
    outside-update_lobby_settings s = elim (Option-cases (get? client s.client_lobbies)) [
      | inl e ↦ rw (e, update_lobby_settings)
      | inr (code, e) ↦ elim (Option-cases (get? code s.lobbies)) [
        | inl f ↦ rw (e, update_lobby_settings) (rw f)
        | inr (lobby, f) ↦
            rw (e, update_lobby_settings) (rw f (outside-update_own_lobby code lobby s))
      ]
    ]
