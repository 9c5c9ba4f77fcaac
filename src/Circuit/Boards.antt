-- ===== src/Circuit/Boards.antt =====
-- games/circuit-siege/shared/circuit-board.mjs, for routes whose cells board-format.mjs has derived,
-- and getExpectedMaskForSlot of route-validator.mjs. A throw is `none`.
use factory_network_server.Prelude.{
  Bool, true, false, Option, none, some, List, [], ◌∷◌, ◌++◌, ◌&&◌, not, ◌>>=◌, or_else, ◌==◌,
  if◌then◌else◌, is_some,
}
use factory_network_server.Prelude.Texts.{Text, Text_eq}
use factory_network_server.Prelude.Maps.{Map, get?, set}
use factory_network_server.Circuit.Tiles.{
  Mask, Cell, same_cell, derive_canonical_masks_for_route, mask_at,
}
use factory_network_server.Circuit.State.{Slot, Route, Board}

-- Of two items with one id the later one counts.
unfoldable pub index_by_id : {A : Type 0} → (A → Text) → List A → Map Text A → Map Text A
index_by_id key [] m = m
index_by_id key (a ∷ rest) m = index_by_id key rest (set (key a) a m)

-- The ids of the routes that a cell is on, once for each time.
unfoldable pub owners_on : Text → Cell → List Cell → List Text
owners_on id cell [] = []
owners_on id cell (c ∷ cells) =
    let rest = owners_on id cell cells in if same_cell c cell then id ∷ rest else rest

unfoldable pub route_owners_of : List Route → Cell → List Text
unfolding owners_on
route_owners_of [] cell = []
route_owners_of (r ∷ rs) cell = owners_on r.route_id cell r.cells ++ route_owners_of rs cell

unfoldable pub is_sole_owner : List Text → Text → Bool
is_sole_owner [] id = false
is_sole_owner (owner ∷ []) id = owner == id
is_sole_owner (owner ∷ _ ∷ _) id = false

unfoldable pub add_slot : Slot → Map Text (List Slot) → Map Text (List Slot)
add_slot slot m = set slot.route_id (or_else (get? slot.route_id m) [] ++ (slot ∷ [])) m

-- The loop over the repair slots.
unfoldable pub slots_by_route :
    List Route → Map Text Route → List Slot → Map Text (List Slot) → Option (Map Text (List Slot))
unfolding is_sole_owner route_owners_of add_slot
slots_by_route routes by_id [] m = some m
slots_by_route routes by_id (slot ∷ rest) m =
    let later = slots_by_route routes by_id rest (add_slot slot m) in
    if is_some (get? slot.route_id by_id)
      && is_sole_owner (route_owners_of routes slot.cell) slot.route_id
    then later
    else none

abbrev pub has_items : {A : Type 0} → List A → Bool
has_items [] = false
has_items (_ ∷ _) = true

unfoldable pub load_board_definition : List Route → List Slot → Option Board
unfolding index_by_id slots_by_route
load_board_definition routes slots = if not (has_items routes && has_items slots) then none else (do
  let by_id = index_by_id (λ (r : Route). r.route_id) routes []
  by_route ← slots_by_route routes by_id slots []
  some (record {
    routes = routes;
    repair_slots = slots;
    routes_by_id = by_id;
    slots_by_id = index_by_id (λ (s : Slot). s.slot_id) slots [];
    slots_by_route_id = by_route;
  }))

unfoldable pub get_expected_mask_for_slot : Board → Text → Option (Option Mask)
get_expected_mask_for_slot board id = do
  slot ← get? id board.slots_by_id
  route ← get? slot.route_id board.routes_by_id
  masks ← derive_canonical_masks_for_route route.cells
  some (mask_at slot.cell masks)
