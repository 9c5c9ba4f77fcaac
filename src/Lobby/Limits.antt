-- ===== src/Lobby/Limits.antt =====
-- `lobbyLimitsForGame` of src/lobby.mjs, where the game module sets limits of its own.
use mathlib.Core.Path.{subst}
use factory_network_server.Prelude.{ℕ, ◌≡◌, ◌≤◌, Option, some, arith, ap, sym, ◌∙◌, >>=-eq-some}
use factory_network_server.Js.Values.{Json}
use factory_network_server.Js.Convert.{Host}
use factory_network_server.Util.{Limits, sanitize_lobby_limits}
use factory_network_server.Games.{LobbyGame}
use factory_network_server.Lobby.Creating.{
  or_number, cut_limits, finite_or, limits_within, lobby_limits_for_game,
}

or_number_positive : (n d : ℕ) → 1 ≤ n → or_number n d ≡ n
unfolding or_number
or_number_positive n d h = ground arith

cut_limits_bounds :
    (required requested : Limits)
    → 1 ≤ required.min_players
    → required.min_players ≤ required.max_players
    → (required.min_players ≤ (cut_limits required requested).min_players)
      × ((cut_limits required requested).min_players ≤ (cut_limits required requested).max_players)
      × ((cut_limits required requested).max_players ≤ required.max_players)
unfolding cut_limits
cut_limits_bounds required requested h k =
    let lo = or_number_positive required.min_players 2 h in
    let hi = or_number_positive required.max_players requested.max_players (omega arith) in
    (omega (arith, lo, hi), omega (arith, lo, hi), omega (arith, lo, hi))

limits_within_bounds :
    (host : Host) (required : Limits) (lo hi : Option Json) {l : Limits}
    → 1 ≤ required.min_players
    → required.min_players ≤ required.max_players
    → limits_within host (some required) lo hi ≡ some l
    → (required.min_players ≤ l.min_players)
      × (l.min_players ≤ l.max_players)
      × (l.max_players ≤ required.max_players)
unfolding limits_within
limits_within_bounds host required lo hi {l} h k r =
    let (wanted_lo, e, r1) = >>=-eq-some (finite_or host lo required.min_players) _ r in
    let (wanted_hi, f, r2) = >>=-eq-some (finite_or host hi required.max_players) _ r1 in
    let (requested, g, r3) = >>=-eq-some (sanitize_lobby_limits host wanted_lo wanted_hi) _ r2 in
    let same : cut_limits required requested ≡ l = cc in
    subst
      (λ (m : Limits).
        (required.min_players ≤ m.min_players)
        × (m.min_players ≤ m.max_players)
        × (m.max_players ≤ required.max_players))
      same (cut_limits_bounds required requested h k)

-- If a game module sets limits with 1 ≤ min ≤ max, the limits of its lobby lie within them, the
-- lower one not above the upper one, whatever the client asks for, if no conversion throws.
pub lobby_limits_for_game_bounds :
    {G : Type 0} (host : Host) (game : LobbyGame G) (required : Limits) (lo hi : Option Json)
    {l : Limits}
    → game.lobby_limits ≡ some required
    → 1 ≤ required.min_players
    → required.min_players ≤ required.max_players
    → lobby_limits_for_game host (some game) lo hi ≡ some l
    → (required.min_players ≤ l.min_players)
      × (l.min_players ≤ l.max_players)
      × (l.max_players ≤ required.max_players)
unfolding lobby_limits_for_game
lobby_limits_for_game_bounds host game required lo hi e h k r =
    limits_within_bounds host required lo hi h k
      (ap (λ (o : Option Limits). limits_within host o lo hi) (sym e) ∙ r)
