-- ===== src/Circuit/Start.antt =====
-- games/circuit-siege/shared/match-engine.mjs: the state that a match starts in.
use factory_network_server.Prelude.{ℕ, false, Option, some, List, [], ◌∷◌}
use factory_network_server.Prelude.Texts.{Text, Text_eq}
use factory_network_server.Prelude.Int.{ℤ, pos}
use factory_network_server.Prelude.Maps.{Map, set}
use factory_network_server.Circuit.State.{Slot, Route, Board, SlotState, Progress, Match}
use factory_network_server.Circuit.Engine.{build_initial_slot_state}

-- The score that a match starts with; `none` where it is no finite number.
unfoldable pub initial_score : Option ℤ → ℕ
initial_score (some (pos n)) = n
initial_score _ = 0

abbrev pub fresh : Route → Progress
fresh route = record { completed = false; owner = route.owner; is_damage = route.is_damage }

-- The loops over the routes and the slots.
unfoldable pub start_routes : List Route → Map Text Progress → Map Text Progress
start_routes [] m = m
start_routes (r ∷ rs) m = start_routes rs (set r.route_id (fresh r) m)

unfoldable pub start_terminals : List Route → Map Text Progress → Map Text Progress
start_terminals [] m = m
start_terminals (r ∷ rs) m = start_terminals rs (set r.terminal_id (fresh r) m)

unfoldable pub start_slots : List Slot → Map Text SlotState → Map Text SlotState
unfolding build_initial_slot_state
start_slots [] m = m
start_slots (slot ∷ slots) m =
    start_slots slots (set slot.slot_id (build_initial_slot_state slot) m)

unfoldable pub create_authoritative_match_state : Board → Option ℤ → Option ℤ → Match
unfolding initial_score start_routes start_terminals start_slots
create_authoritative_match_state board blue_start red_start = record {
  board = board;
  blue_score = initial_score blue_start;
  red_score = initial_score red_start;
  routes = start_routes board.routes [];
  terminals = start_terminals board.routes [];
  slots = start_slots board.repair_slots [];
}
