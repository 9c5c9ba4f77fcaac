-- ===== src/Lobby/Closing.antt =====
-- `leaveDisplayLobby` of src/lobby.mjs, and the rosters and seats.
use factory_network_server.Prelude.{
  ◌≡◌, refl, ap, ◌∙◌, none, some, List, [], ◌∷◌, arith, if◌then◌else◌, ◌==◌, eq_iff, Bool-cases,
  Option-cases, inl, inr, contains, is_some_of,
}
use factory_network_server.Prelude.Texts.{Text, Text_eq}
use factory_network_server.Prelude.Maps.{Map, get?, get?-set, get?-erase}
use factory_network_server.State.{Server, Lobby}
use factory_network_server.Transport.{send_to_client}
use factory_network_server.Games.{Registry}
use factory_network_server.Lobby.Hooks.{put_lobby, run_hook, without_countdown}
use factory_network_server.Lobby.Leaving.{dismiss, close_display, leave_display_lobby}
use factory_network_server.Lobby.Kept.{IsKept, run_hook-IsKept}
use factory_network_server.Lobby.Leaves.{roster}
use factory_network_server.Lobby.Seated.{AreSeated, IsSeated}

module _ {G : Type 0} where
  pub lobbies-dismiss :
      (code : Text) (ms : List Text) (s : Server G) → (dismiss code ms s).lobbies ≡ s.lobbies
  unfolding dismiss send_to_client
  lobbies-dismiss code [] s = refl
  lobbies-dismiss code (m ∷ ms) s = lobbies-dismiss code ms _

  pub seats-dismiss :
      (code c : Text) (ms : List Text) (s : Server G)
      → get? c (dismiss code ms s).client_lobbies
        ≡ (if contains c ms then none else get? c s.client_lobbies)
  unfolding dismiss send_to_client contains
  seats-dismiss code c [] s = refl
  seats-dismiss code c (m ∷ ms) s =
      seats-dismiss code c ms _
      ∙ ground (arith, get?-erase m c s.client_lobbies, eq_iff m c, eq_iff c m)

  -- The roster at the code is gone, with the seats of those on it.
  closed-AreSeated :
      (code : Text) (before after : Map Text (Lobby G)) (seats left : Map Text Text)
      → AreSeated before seats
      → ((d : Text) → roster d after ≡ (if code == d then [] else roster d before))
      → ((c : Text)
          → get? c left ≡ (if contains c (roster code before) then none else get? c seats))
      → AreSeated after left
  unfolding contains
  closed-AreSeated code before after seats left v rosters seated = record {
    agree = λ c d. elim (Option-cases (get? c seats)) [
      | inl e ↦ ground (arith, rosters d, seated c, v.agree c d, v.agree c code, e)
      | inr (x, e) ↦ ground (
        arith,
        rosters d,
        seated c,
        v.agree c d,
        v.agree c code,
        e,
        eq_iff x d,
        eq_iff x code,
        eq_iff code d,
      )
    ];
    different = λ d. ground (arith, rosters d, v.different d);
  }

  -- The lobby and the server when the countdown and the game's timers are cleared.
  abbrev cleared : Registry G → Text → Lobby G → Server G → Lobby G × Server G
  cleared games code lobby s =
      run_hook code (games.lobby_game lobby.game_id) (λ g. g.clear_timers) (without_countdown lobby)
        (put_lobby code (without_countdown lobby) s)

  cleared-IsKept :
      (games : Registry G) (code : Text) (lobby : Lobby G) (s : Server G)
      → IsKept
          (λ c. get? c s.lobbies)
          code
          lobby.members
          s.client_lobbies
          s.client_display_lobbies
          (cleared games code lobby s)
  unfolding without_countdown put_lobby
  cleared-IsKept games code lobby s =
      run_hook-IsKept (λ c. get? c s.lobbies) code lobby.members s.client_lobbies
        s.client_display_lobbies (games.lobby_game lobby.game_id) (λ g. g.clear_timers)
        (without_countdown lobby) (put_lobby code (without_countdown lobby) s)
        (record {
          held = λ c. get?-set code c (without_countdown lobby) s.lobbies;
          same_members = refl;
          same_seats = refl;
          same_displays = refl;
        })

  pub seats-close_display :
      (games : Registry G) (code c : Text) (lobby : Lobby G) (s : Server G)
      → get? c (close_display games code lobby s).client_lobbies
        ≡ (if contains c lobby.members then none else get? c s.client_lobbies)
  unfolding close_display
  seats-close_display games code c lobby s =
      let k = cleared-IsKept games code lobby s in
      let r = cleared games code lobby s in
      seats-dismiss code c r.0.members r.1
      ∙ ground (arith, ap (get? c) k.same_seats, ap (contains c) k.same_members)

  pub get?-close_display :
      (games : Registry G) (code d : Text) (lobby : Lobby G) (s : Server G)
      → get? d (close_display games code lobby s).lobbies
        ≡ (if code == d then none else get? d s.lobbies)
  unfolding close_display
  get?-close_display games code d lobby s =
      let k = cleared-IsKept games code lobby s in
      let r = cleared games code lobby s in
      ground (
        arith,
        get?-erase code d (dismiss code r.0.members r.1).lobbies,
        ap (get? d) (lobbies-dismiss code r.0.members r.1),
        k.held d,
      )

  close_display-IsSeated :
      (games : Registry G) (code : Text) (lobby : Lobby G) (s : Server G)
      → IsSeated s
      → get? code s.lobbies ≡ some lobby
      → IsSeated (close_display games code lobby s)
  close_display-IsSeated games code lobby s v f =
      let t = close_display games code lobby s in
      closed-AreSeated code s.lobbies t.lobbies s.client_lobbies t.client_lobbies v
        (λ d. ground (arith, get?-close_display games code d lobby s))
        (λ c. ground (arith, seats-close_display games code c lobby s, f))

  -- A display's leaving, which may close its lobby and take everybody's seat there, keeps the
  -- lobbies seated: a client stands on a lobby's roster exactly if that lobby is his seat, and on
  -- no roster twice.
  pub leave_display_lobby-IsSeated :
      (games : Registry G) (client : Text) (s : Server G)
      → IsSeated s
      → IsSeated (leave_display_lobby games client s)
  unfolding leave_display_lobby
  leave_display_lobby-IsSeated games client s v =
      elim (Option-cases (get? client s.client_display_lobbies)) [
        | inl e ↦ rw (e, leave_display_lobby) v
        | inr (code, e) ↦ elim (Option-cases (get? code s.lobbies)) [
          | inl f ↦ rw (e, leave_display_lobby) (rw f v)
          | inr (lobby, f) ↦ elim (Bool-cases (is_some_of lobby.display_client_id client)) [
            | inl b ↦
                rw (e, leave_display_lobby)
                  (rw f (rw b (close_display-IsSeated games code lobby _ v f)))
            | inr b ↦ rw (e, leave_display_lobby) (rw f (rw b v))
          ]
        ]
      ]
