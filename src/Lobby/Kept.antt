-- ===== src/Lobby/Kept.antt =====
-- The steps of src/lobby.mjs on one lobby, the hooks of its game module among them, and the maps of
-- lobbies.
use factory_network_server.Prelude.{
  ℕ, Bool-cases, inl, inr, ◌≡◌, refl, ap, ◌∙◌, Option, none, some, List, [], ◌∷◌, arith,
  if◌then◌else◌, ◌==◌,
}
use factory_network_server.Prelude.Texts.{Text, Text_eq}
use factory_network_server.Prelude.Maps.{Map, get?, get?-set}
use factory_network_server.State.{Server, Lobby}
use factory_network_server.Transport.{send_to_client}
use factory_network_server.LobbyBus.{broadcast_to_lobby, send_lobby_updated}
use factory_network_server.Games.{GameSend, to_member, to_lobby, refresh, Change, LobbyGame}
use factory_network_server.Lobby.Leaving.{cancel_if_pending, disconnect_match}
use factory_network_server.Lobby.Hooks.{
  put_lobby, send_game, send_game_all, changed, run_change, run_hook, without_countdown,
  maybe_start_lobby_countdown,
}

-- The parts of the server that belong to lobbies.
pub record Inside (G : Type 0) : Type 0 where
  pub lobbies : Map Text (Lobby G)
  pub client_lobbies : Map Text Text
  pub client_display_lobbies : Map Text Text

module _ {G : Type 0} where
  abbrev pub inside : Server G → Inside G
  inside s = record {
    lobbies = s.lobbies;
    client_lobbies = s.client_lobbies;
    client_display_lobbies = s.client_display_lobbies;
  }

  inside-send_game :
      (lobby : Lobby G) (m : GameSend) (s : Server G) → inside (send_game lobby m s) ≡ inside s
  unfolding send_game send_to_client send_lobby_updated broadcast_to_lobby
  inside-send_game lobby (to_member c p) s = refl
  inside-send_game lobby (to_lobby p) s = refl
  inside-send_game lobby refresh s = refl

  pub inside-send_game_all :
      (lobby : Lobby G) (ms : List GameSend) (s : Server G)
      → inside (send_game_all lobby ms s) ≡ inside s
  unfolding send_game_all
  inside-send_game_all lobby [] s = refl
  inside-send_game_all lobby (m ∷ ms) s =
      inside-send_game_all lobby ms (send_game lobby m s) ∙ inside-send_game lobby m s

  -- The map holds the lobby at the code and elsewhere what `base` says; the lobby has the members,
  -- and the seats are as given.
  pub record Kept (base : Text → Option (Lobby G)) (code : Text) (members : List Text)
      (seats displays : Map Text Text) (lobby : Lobby G) (s : Server G) : Type 0 where
    pub held : (r : Text) → get? r s.lobbies ≡ (if code == r then some lobby else base r)
    pub same_members : lobby.members ≡ members
    pub same_seats : s.client_lobbies ≡ seats
    pub same_displays : s.client_display_lobbies ≡ displays

  module _ (base : Text → Option (Lobby G)) (code : Text) (members : List Text)
      (seats displays : Map Text Text) where
    pub put_lobby-Kept :
        (lobby after : Lobby G) (s : Server G)
        → Kept base code members seats displays lobby s
        → after.members ≡ lobby.members
        → Kept base code members seats displays after (put_lobby code after s)
    unfolding put_lobby
    put_lobby-Kept lobby after s v e = record {
      held = λ r. ground (arith, v.held r, get?-set code r after s.lobbies);
      same_members = e ∙ v.same_members;
      same_seats = v.same_seats;
      same_displays = v.same_displays;
    }

    -- Only what lies inside the lobbies matters.
    pub Kept-inside :
        (lobby : Lobby G) (s t : Server G)
        → inside t ≡ inside s
        → Kept base code members seats displays lobby s
        → Kept base code members seats displays lobby t
    Kept-inside lobby s t e v = record {
      held = λ r. ap (λ (i : Inside G). get? r i.lobbies) e ∙ v.held r;
      same_members = v.same_members;
      same_seats = ap (λ (i : Inside G). i.client_lobbies) e ∙ v.same_seats;
      same_displays = ap (λ (i : Inside G). i.client_display_lobbies) e ∙ v.same_displays;
    }

    -- The lobby and the server that a step gives.
    abbrev pub IsKept : Lobby G × Server G → Type 0
    IsKept (lobby, s) = Kept base code members seats displays lobby s

    pub run_change-IsKept :
        (lobby : Lobby G) (c : Change G) (s : Server G)
        → Kept base code members seats displays lobby s
        → IsKept (run_change code lobby c s)
    unfolding run_change
    run_change-IsKept lobby c s v =
        let after = changed lobby c in
        Kept-inside after (put_lobby code after s) _
          (inside-send_game_all after c.sends (put_lobby code after s))
          (put_lobby-Kept lobby after s v refl)

    pub run_hook-IsKept :
        (game : Option (LobbyGame G)) (hook : LobbyGame G → Lobby G → Change G) (lobby : Lobby G)
        (s : Server G)
        → Kept base code members seats displays lobby s
        → IsKept (run_hook code game hook lobby s)
    unfolding run_hook
    run_hook-IsKept none hook lobby s v = v
    run_hook-IsKept (some game) hook lobby s v = run_change-IsKept lobby (hook game lobby) s v

    pub maybe_start_lobby_countdown-IsKept :
        (lobby : Lobby G) (s : Server G)
        → Kept base code members seats displays lobby s
        → IsKept (maybe_start_lobby_countdown code lobby s)
    unfolding maybe_start_lobby_countdown without_countdown send_lobby_updated broadcast_to_lobby
    maybe_start_lobby_countdown-IsKept lobby s v =
        Kept-inside (without_countdown lobby) (put_lobby code (without_countdown lobby) s) _ refl
          (put_lobby-Kept lobby (without_countdown lobby) s v refl)

    pub cancel_if_pending-IsKept :
        (game : Option (LobbyGame G)) (now : ℕ) (lobby : Lobby G) (s : Server G)
        → Kept base code members seats displays lobby s
        → IsKept (cancel_if_pending code game now lobby s)
    unfolding cancel_if_pending
    cancel_if_pending-IsKept none now lobby s v = v
    cancel_if_pending-IsKept (some g) now lobby s v =
        elim (Bool-cases (g.is_match_pending_start lobby now)) [
          | inl e ↦ rw e (run_change-IsKept lobby (g.cancel_pending_start lobby) s v)
          | inr e ↦ rw e v
        ]

    pub disconnect_match-IsKept :
        (game : Option (LobbyGame G)) (client : Text) (now : ℕ) (lobby : Lobby G) (s : Server G)
        → Kept base code members seats displays lobby s
        → IsKept (disconnect_match code game client now lobby s).0
    unfolding disconnect_match
    disconnect_match-IsKept none client now lobby s v = v
    disconnect_match-IsKept (some g) client now lobby s v =
        run_change-IsKept lobby (g.apply_disconnect lobby client now).0 s v
