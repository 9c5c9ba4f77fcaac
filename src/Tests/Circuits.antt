-- ===== src/Tests/Circuits.antt =====
-- A board with two routes: the second has been resolved, the first lacks one tile.
use factory_network_server.Prelude.{◌≡◌, refl, true, false, none, some, [], ◌∷◌}
use factory_network_server.Prelude.Texts.{codes, Text_eq, text_eq}
use factory_network_server.Prelude.Int.{pos}
use factory_network_server.Prelude.Maps.{get?, set}
use factory_network_server.Circuit.Tiles.{ns, derive_canonical_masks_for_route, mask_at}
use factory_network_server.Circuit.State.{
  Board, Route, Slot, SlotState, Match, Intent, Resolved, applied, blue, red, hole, place_tile,
  straight,
}
use factory_network_server.Circuit.Engine.{apply_player_intent}
use factory_network_server.Circuit.Locked.{apply_player_intent_keeps}

abbrev first : Route
first = record {
  route_id = codes "r1";
  owner = blue;
  terminal_id = codes "t1";
  is_damage = true;
  cells = record { x = 1; y = 1 } ∷ record { x = 1; y = 2 } ∷ [];
}

abbrev second : Route
second = record {
  route_id = codes "r2";
  owner = red;
  terminal_id = codes "t2";
  is_damage = true;
  cells = record { x = 5; y = 1 } ∷ [];
}

abbrev slot_1 : Slot
slot_1 = record {
  slot_id = codes "s1";
  cell = record { x = 1; y = 1 };
  owner = blue;
  route_id = codes "r1";
  slot_type = hole;
  expected_mask = ns;
}

abbrev slot_2 : Slot
slot_2 = record {
  slot_id = codes "s2";
  cell = record { x = 5; y = 1 };
  owner = red;
  route_id = codes "r2";
  slot_type = hole;
  expected_mask = ns;
}

abbrev board : Board
board = record {
  routes = first ∷ second ∷ [];
  repair_slots = slot_1 ∷ slot_2 ∷ [];
  routes_by_id = (codes "r1", first) ∷ (codes "r2", second) ∷ [];
  slots_by_id = (codes "s1", slot_1) ∷ (codes "s2", slot_2) ∷ [];
  slots_by_route_id = (codes "r1", slot_1 ∷ []) ∷ (codes "r2", slot_2 ∷ []) ∷ [];
}

abbrev resolved : SlotState
resolved = record { placed_mask = some ns; locked = true }

abbrev play : Match
play = record {
  board = board;
  blue_score = 0;
  red_score = 1;
  routes =
      (codes "r1", record { completed = false; owner = blue; is_damage = true })
      ∷ (codes "r2", record { completed = true; owner = red; is_damage = true })
      ∷ [];
  terminals =
      (codes "t1", record { completed = false; owner = blue; is_damage = true })
      ∷ (codes "t2", record { completed = true; owner = red; is_damage = true })
      ∷ [];
  slots = (codes "s1", record { placed_mask = none; locked = false }) ∷ (codes "s2", resolved) ∷ [];
}

abbrev move : Intent
move = record {
  slot_id = codes "s1";
  player_side = blue;
  intent_type = place_tile;
  piece_type = straight;
  rotation = some (pos 450);
}

-- The move resolves the first route.
abbrev after : Match
after = record play {
  blue_score = 1;
  routes =
      (codes "r1", record { completed = true; owner = blue; is_damage = true })
      ∷ (codes "r2", record { completed = true; owner = red; is_damage = true })
      ∷ [];
  terminals =
      (codes "t1", record { completed = true; owner = blue; is_damage = true })
      ∷ (codes "t2", record { completed = true; owner = red; is_damage = true })
      ∷ [];
  slots = (codes "s1", resolved) ∷ (codes "s2", resolved) ∷ [];
}

abbrev news : Resolved
news = record {
  route_id = codes "r1";
  owner = blue;
  terminal_id = codes "t1";
  is_damage = true;
  score = 1;
}

apply_player_intent_keeps_example : get? (codes "s2") after.slots ≡ some resolved
unfolding get? text_eq set apply_player_intent derive_canonical_masks_for_route mask_at
apply_player_intent_keeps_example =
    apply_player_intent_keeps move play (applied after (some news)) (codes "s2") resolved refl refl
      refl
