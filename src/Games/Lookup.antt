-- ===== src/Games/Lookup.antt =====
-- games/registry.mjs: the definition of a game id, and the answers of the generic code's questions.
use factory_network_server.Prelude.{
  ℕ, Bool, false, Option, none, some, List, [], ◌∷◌, ◌||◌, if◌then◌else◌, contains, is_some_of,
  or_else,
}
use factory_network_server.Prelude.Texts.{Text, Text_eq}
use factory_network_server.Js.Values.{Json}
use factory_network_server.Matchmaking.{Strategy, side_pair}
use factory_network_server.Games.{LobbyGame, Registry}
use factory_network_server.Games.Definitions.{
  starts_with, Matches, one_of, with_prefix, Definition, all_definitions,
}

abbrev pub is_match : Option Matches → Text → Bool
is_match none game = false
is_match (some (one_of ids)) game = contains game ids
is_match (some (with_prefix p)) game = starts_with p game

abbrev settings_of : Option (ℕ → Option Json) → ℕ → Option Json
settings_of none seed = none
settings_of (some f) seed = f seed

module _ {G : Type 0} where
  unfoldable pub claims : Definition G → Text → Bool
  claims d game = is_some_of d.id game || is_match d.matches game

  unfoldable pub first_claiming : List (Definition G) → Text → Option (Definition G)
  unfolding claims
  first_claiming [] game = none
  first_claiming (d ∷ ds) game =
      let rest = first_claiming ds game in if claims d game then some d else rest

  unfoldable pub find_definition : List (Definition G) → Text → Option (Definition G)
  unfolding first_claiming
  find_definition ds [] = none
  find_definition ds (c ∷ game) = first_claiming ds (c ∷ game)

  abbrev lobby_game_of : Option (Definition G) → Option (LobbyGame G)
  lobby_game_of none = none
  lobby_game_of (some d) = d.lobby_game

  unfoldable pub lobby_game : List (Definition G) → Text → Option (LobbyGame G)
  unfolding find_definition
  lobby_game ds game = lobby_game_of (find_definition ds game)

  abbrev strategy_of : Option (Definition G) → Strategy
  strategy_of none = side_pair
  strategy_of (some d) = or_else d.matchmaking side_pair

  unfoldable pub matchmaking_strategy : List (Definition G) → Text → Strategy
  unfolding find_definition
  matchmaking_strategy ds game = strategy_of (find_definition ds game)

  abbrev match_settings_of : Option (Definition G) → ℕ → Option Json
  match_settings_of none seed = none
  match_settings_of (some d) seed = settings_of d.match_settings seed

  unfoldable pub match_settings : List (Definition G) → Option Text → ℕ → Option Json
  unfolding find_definition
  match_settings ds none seed = none
  match_settings ds (some game) seed = match_settings_of (find_definition ds game) seed

  -- What the generic code takes as its registry.
  unfoldable pub registry : (Text → LobbyGame G) → Registry G
  unfolding all_definitions lobby_game matchmaking_strategy match_settings
  registry module_of = record {
    lobby_game = lobby_game (all_definitions module_of);
    matchmaking_strategy = matchmaking_strategy (all_definitions module_of);
    match_settings = match_settings (all_definitions module_of);
  }
