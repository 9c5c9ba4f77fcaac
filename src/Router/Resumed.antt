-- ===== src/Router/Resumed.antt =====
-- A seat in a lobby that a client loses his socket for, and takes again: `suspendLobbyClient` and
-- `resumeLobbyClient` of src/lobby.mjs under the disconnect and `resume_lobby` of src/router.mjs.
use factory_network_server.Prelude.{
  ℕ, ◌<◌, ◌≡◌, refl, ◌∙◌, Bool, true, false, Option, none, some, List, [], ◌∷◌, arith,
  if◌then◌else◌, Option-cases, inl, inr, ltb, eq_refl,
}
use factory_network_server.Prelude.Texts.{Text, Text_eq}
use factory_network_server.Prelude.Maps.{Map, get?}
use factory_network_server.State.{Server, Lobby, Suspension}
use factory_network_server.Transport.{send_to_client}
use factory_network_server.LobbyBus.{broadcast_to_lobby, send_lobby_updated}
use factory_network_server.Games.{
  GameSend, to_member, to_lobby, refresh, Change, LobbyGame, Registry,
}
use factory_network_server.Lobby.Hooks.{
  put_lobby, send_game, send_game_all, changed, run_change, run_hook,
}
use factory_network_server.Lobby.Leaving.{clear_suspended_lobby_session}
use factory_network_server.Lobby.Sessions.{
  reconnect_match, resume_seat, resume_suspended, resume_lobby_client,
}
use factory_network_server.Router.Reconnect.{tell_reconnected, tell_resumed}

-- The parts of the server that say whose socket and whose seat is whose.
pub record Seating : Type 0 where
  pub clients : Map Text ℕ
  pub client_lobbies : Map Text Text
  pub client_display_lobbies : Map Text Text
  pub client_session_tokens : Map Text Text
  pub suspended_lobby_sessions : Map Text Suspension

module _ {G : Type 0} where
  abbrev pub seating : Server G → Seating
  seating s = record {
    clients = s.clients;
    client_lobbies = s.client_lobbies;
    client_display_lobbies = s.client_display_lobbies;
    client_session_tokens = s.client_session_tokens;
    suspended_lobby_sessions = s.suspended_lobby_sessions;
  }

  seating-send_game :
      (lobby : Lobby G) (m : GameSend) (s : Server G) → seating (send_game lobby m s) ≡ seating s
  unfolding send_game send_to_client send_lobby_updated broadcast_to_lobby
  seating-send_game lobby (to_member c p) s = refl
  seating-send_game lobby (to_lobby p) s = refl
  seating-send_game lobby refresh s = refl

  seating-send_game_all :
      (lobby : Lobby G) (ms : List GameSend) (s : Server G)
      → seating (send_game_all lobby ms s) ≡ seating s
  unfolding send_game_all
  seating-send_game_all lobby [] s = refl
  seating-send_game_all lobby (m ∷ ms) s =
      seating-send_game_all lobby ms (send_game lobby m s) ∙ seating-send_game lobby m s

  pub seating-run_change :
      (code : Text) (lobby : Lobby G) (c : Change G) (s : Server G)
      → seating (run_change code lobby c s).1 ≡ seating s
  unfolding run_change put_lobby
  seating-run_change code lobby c s = seating-send_game_all (changed lobby c) c.sends _

  pub seating-run_hook :
      (code : Text) (game : Option (LobbyGame G)) (hook : LobbyGame G → Lobby G → Change G)
      (lobby : Lobby G) (s : Server G)
      → seating (run_hook code game hook lobby s).1 ≡ seating s
  unfolding run_hook
  seating-run_hook code none hook lobby s = refl
  seating-run_hook code (some g) hook lobby s = seating-run_change code lobby (hook g lobby) s

  pub seating-if :
      (b : Bool) (x y : Server G) {o : Seating}
      → seating x ≡ o
      → seating y ≡ o
      → seating (if b then x else y) ≡ o
  seating-if true x y p q = p
  seating-if false x y p q = q

  seating-reconnect_match :
      (code : Text) (game : Option (LobbyGame G)) (client : Text) (now : ℕ) (lobby : Lobby G)
      (s : Server G)
      → seating (reconnect_match code game client now lobby s).1 ≡ seating s
  unfolding reconnect_match
  seating-reconnect_match code none client now lobby s = refl
  seating-reconnect_match code (some game) client now lobby s =
      elim (Option-cases game.apply_reconnect) [
        | inl e ↦ rw e
        | inr (hook, e) ↦ rw e (seating-run_change code lobby (hook lobby client now).0 s)
      ]

  pub seating-resume_seat :
      (games : Registry G) (client code : Text) (lobby : Lobby G) (s : Server G)
      → seating (resume_seat games client code lobby s).1
        ≡ seating (clear_suspended_lobby_session client s)
  unfolding resume_seat broadcast_to_lobby
  seating-resume_seat games client code lobby s =
      seating-reconnect_match code (games.lobby_game lobby.game_id) client s.now lobby
        (clear_suspended_lobby_session client s)

  seating-tell_reconnected :
      (game : LobbyGame G) (lobby : Lobby G) (s : Server G)
      → seating (tell_reconnected game lobby s) ≡ seating s
  unfolding tell_reconnected
  seating-tell_reconnected game lobby s = elim (Option-cases game.broadcast_after_reconnect) [
    | inl e ↦ rw (e, tell_reconnected) (seating-run_hook lobby.room_code (some game) _ lobby s)
    | inr (hook, e) ↦
        let told = seating-run_change lobby.room_code lobby (hook lobby).0 s in
        rw (e, tell_reconnected)
          (seating-if (hook lobby).1 _ _ told (seating-run_hook _ (some game) _ _ _ ∙ told))
  ]

  pub seating-tell_resumed :
      (game : Option (LobbyGame G)) (lobby : Lobby G) (s : Server G)
      → seating (tell_resumed game lobby s) ≡ seating s
  unfolding tell_resumed send_lobby_updated broadcast_to_lobby
  seating-tell_resumed none lobby s = refl
  seating-tell_resumed (some game) lobby s =
      seating-if _ _ _ (seating-tell_reconnected game lobby s) refl

  -- A suspended seat whose time is not over, with the right token and its lobby still there.
  pub record IsResumable (client token : Text) (kept : Suspension) (lobby : Lobby G) (s : Server G)
      : Type 0 where
    pub suspended : get? client s.suspended_lobby_sessions ≡ some kept
    pub in_time : s.now < kept.expires_at
    pub right_token : get? client s.client_session_tokens ≡ some token
    pub there : get? kept.room_code s.lobbies ≡ some lobby
    pub seated : get? client s.client_lobbies ≡ some lobby.room_code

  pub resume_lobby_client-IsResumable :
      (games : Registry G) (client token : Text) (kept : Suspension) (lobby : Lobby G)
      (s : Server G)
      → IsResumable client token kept lobby s
      → resume_lobby_client games client token s
        ≡ (let (played, t) = resume_seat games client kept.room_code lobby s in (some played, t))
  unfolding resume_lobby_client resume_suspended
  resume_lobby_client-IsResumable games client token kept lobby s r =
      let valid : (ltb s.now kept.expires_at) ≡ true = ground (arith, r.in_time) in
      rw (r.suspended, resume_lobby_client)
        (rw valid (
          rw r.right_token
            (rw (eq_refl token) (rw r.there (rw r.seated (rw (eq_refl lobby.room_code)))))))
