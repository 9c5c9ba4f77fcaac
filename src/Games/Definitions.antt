-- ===== src/Games/Definitions.antt =====
-- games/registry.mjs and the definitions games/<id>/server/<id>.game.mjs: which games there are, and
-- what the generic code is told of a game id. The lobby modules of the games stand behind their ids.
use factory_network_server.Prelude.{
  ℕ, suc, zero, ◌+◌, ◌*◌, ◌%◌, Bool, true, false, Option, none, some, List, [], ◌∷◌, ◌||◌, ◌&&◌,
  if◌then◌else◌, nat_eq,
}
use factory_network_server.Prelude.Texts.{Text, codes, Text_eq}
use factory_network_server.Prelude.Int.{pos}
use factory_network_server.Js.Values.{
  Json, text, number, array, object, Items, nil, cons, end, field, finite,
}
use factory_network_server.Util.{Limits}
use factory_network_server.State.{Lobby}
use factory_network_server.Matchmaking.{
  Strategy, symmetric_balanced, side_pair, lobby_only, self_owned,
}
use factory_network_server.Games.{LobbyGame, Change}

-- `t.startsWith(p)`
unfoldable pub starts_with : Text → Text → Bool
starts_with [] t = true
starts_with (c ∷ p) [] = false
starts_with (c ∷ p) (d ∷ t) = nat_eq c d && starts_with p t

-- `matches` of a definition: a set of ids, or a prefix.
pub data Matches : Type 0 where
  one_of : List Text → Matches
  with_prefix : Text → Matches

-- `shouldRoute` of a bridge: by the game, the room and the client, as circuit-siege and speed-demon
-- do; as orbit-pong does; or by the prefix of the message's type.
pub data Route : Type 0 where
  by_session : Text → Route
  by_orbit : Route
  by_prefix : Text → Route

pub record Definition (G : Type 0) : Type 0 where
  pub id : Option Text
  pub matches : Option Matches
  pub matchmaking : Option Strategy
  pub match_settings : Option (ℕ → Option Json)
  pub lobby_game : Option (LobbyGame G)
  pub bridge : Option Route

-- The stage of a round, from a seed that is a natural number.
unfoldable pub stage : ℕ → Text
stage n =
    if nat_eq n 0
    then codes "single"
    else (if nat_eq n 1 || nat_eq n 2
        then codes "battlefield"
        else (if nat_eq n 3 then codes "moving" else codes "none"))

-- The rounds that are left, and the number of the next one.
unfoldable pub build_sumorai_stage_plan : ℕ → ℕ → ℕ → Items
unfolding stage
build_sumorai_stage_plan seed zero round = nil
build_sumorai_stage_plan seed (suc rounds) round =
    cons (text (stage ((seed * 9301 + round * 49297) % 5)))
      (build_sumorai_stage_plan seed rounds (round + 1))

unfoldable pub sumorai_settings : ℕ → Option Json
unfolding build_sumorai_stage_plan
sumorai_settings seed = some (
    object (
      field (codes "rulesVersion") (text (codes "sumorai-online-v1")) (
        field (codes "seed") (number (finite (pos seed) 0)) (
          field (codes "roundTarget") (number (finite (pos 3) 0))
            (field (codes "stagePlan") (array (build_sumorai_stage_plan seed 5 1)) end)))))

abbrev seats_2_to_4 : Limits
seats_2_to_4 = record { min_players = 2; max_players = 4 }

module _ {G : Type 0} where
  abbrev keep : Lobby G → Change G
  keep lobby = record {
    status = lobby.status;
    start_at = lobby.start_at;
    seed = lobby.seed;
    match_state = lobby.match_state;
    sends = [];
  }

  -- A module with limits and no hooks, as those of mini-tactics and tactical-arena.
  unfoldable pub config_only : Limits → LobbyGame G
  config_only limits = record {
    lobby_limits = some limits;
    reconnect_grace_ms = 0;
    can_start = λ lobby. true;
    is_match_pending_start = λ lobby now. false;
    has_active_match = λ lobby. false;
    started_payload_extras = λ lobby now. none;
    init_match = λ lobby start. keep lobby;
    after_start = keep;
    clear_timers = keep;
    cancel_pending_start = keep;
    broadcast_after_leave = keep;
    apply_disconnect = λ lobby client now. (keep lobby, false);
    apply_reconnect = none;
    broadcast_after_reconnect = none;
    handle_message = none;
  }

  -- A game that is played in lobbies.
  unfoldable pub in_lobby : Text → LobbyGame G → Definition G
  in_lobby id game = record {
    id = some id;
    matches = none;
    matchmaking = some lobby_only;
    match_settings = none;
    lobby_game = some game;
    bridge = none;
  }

  -- A game that a bridge owns.
  unfoldable pub owned : Text → Route → Definition G
  owned id route = record {
    id = some id;
    matches = none;
    matchmaking = some self_owned;
    match_settings = none;
    lobby_game = none;
    bridge = some route;
  }

  -- A game that the generic rooms relay.
  unfoldable pub relayed : Matches → Strategy → Option (ℕ → Option Json) → Definition G
  relayed matches strategy settings = record {
    id = none;
    matches = some matches;
    matchmaking = some strategy;
    match_settings = settings;
    lobby_game = none;
    bridge = none;
  }

  -- `allDefinitions`, in its order.
  unfoldable pub all_definitions : (Text → LobbyGame G) → List (Definition G)
  unfolding in_lobby owned relayed config_only sumorai_settings
  all_definitions module_of =
      let lobby = λ (id : Text). in_lobby id (module_of id) in
      owned (codes "circuit-siege") (by_session (codes "circuit-siege"))
      ∷ lobby (codes "echo-duel")
      ∷ lobby (codes "build-buddy")
      ∷ relayed (one_of (codes "sumorai" ∷ codes "sumorai-ranked" ∷ [])) side_pair
          (some sumorai_settings)
      ∷ relayed (with_prefix (codes "creature-battler-"))
          (symmetric_balanced (codes "alpha" ∷ codes "beta" ∷ [])) none
      ∷ relayed (one_of (codes "cockpit-swarm" ∷ codes "cockpit-swarm-ranked" ∷ []))
          (symmetric_balanced (codes "p1" ∷ codes "p2" ∷ [])) none
      ∷ in_lobby (codes "mini-tactics") (config_only seats_2_to_4)
      ∷ in_lobby (codes "tactical-arena") (config_only seats_2_to_4)
      ∷ lobby (codes "pot-of-greed")
      ∷ lobby (codes "questionable-decisions")
      ∷ owned (codes "speed-demon") (by_session (codes "speed-demon"))
      ∷ lobby (codes "yam-bowling")
      ∷ lobby (codes "mini-hoops")
      ∷ lobby (codes "mini-hoops-horse")
      ∷ lobby (codes "hide-and-seek")
      ∷ lobby (codes "puckd-up")
      ∷ lobby (codes "shark-hall")
      ∷ lobby (codes "bird-duty")
      ∷ owned (codes "arcade-room") (by_prefix (codes "arcade_room_"))
      ∷ owned (codes "orbit-pong") by_orbit
      ∷ lobby (codes "barnyard-dash")
      ∷ lobby (codes "pondside-push")
      ∷ owned (codes "farm-downs") (by_prefix (codes "downs_race_"))
      ∷ []
