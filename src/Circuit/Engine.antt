-- ===== src/Circuit/Engine.antt =====
-- games/circuit-siege/shared/match-engine.mjs: an intent of a player applied to the match. A rotation
-- that is no integer is `none`; a throw is `none` of the result.
use factory_network_server.Prelude.{
  ℕ, suc, ◌-◌, ◌%◌, Bool, true, false, Option, none, some, List, [], ◌∷◌, ◌&&◌, not, ◌>>=◌, or_else,
  if◌then◌else◌, nat_eq, contains,
}
use factory_network_server.Prelude.Texts.{Text, Text_eq}
use factory_network_server.Prelude.Int.{ℤ, pos, negsuc}
use factory_network_server.Prelude.Maps.{Map, get?, set}
use factory_network_server.Js.Values.{inherited_names}
use factory_network_server.Circuit.Tiles.{
  Mask, ew, ns, ne, es, sw, nw, Cell, same_mask, derive_canonical_masks_for_route, mask_at,
}
use factory_network_server.Circuit.State.{
  Side, SlotType, Slot, Board, SlotState, Progress, Match, PieceType, IntentType, Intent, Refusal,
  Resolved, Answer, refused, applied, blue, red, hole, refactor, straight, corner, other_piece,
  place_tile, replace_tile, rotate_tile, unknown_type, invalid_slot, invalid_slot_state,
  wrong_owner, slot_locked, place_requires_hole, replace_requires_refactor, rotate_requires_tile,
  unknown_intent, invalid_piece,
}

-- ROTATE_MASK
unfoldable pub rotate_mask : Mask → Mask
rotate_mask ew = ns
rotate_mask ns = ew
rotate_mask ne = es
rotate_mask es = sw
rotate_mask sw = nw
rotate_mask nw = ne

unfoldable pub wrong_mask : Mask → Mask
wrong_mask ew = ns
wrong_mask ns = ew
wrong_mask ne = es
wrong_mask es = sw
wrong_mask sw = nw
wrong_mask nw = ne

unfoldable pub build_initial_slot_state : Slot → SlotState
unfolding wrong_mask
build_initial_slot_state slot = record {
  placed_mask = elim slot.slot_type [ hole ↦ none | _ ↦ some (wrong_mask slot.expected_mask) ];
  locked = false;
}

-- `((n % 360) + 360) % 360`
unfoldable pub normalized_rotation : ℤ → ℕ
normalized_rotation (pos n) = n % 360
normalized_rotation (negsuc n) = 359 - n % 360

abbrev pub is_rotation : ℕ → Option ℤ → Bool
is_rotation n none = false
is_rotation n (some r) = nat_eq (normalized_rotation r) n

unfoldable pub piece_mask_from_intent : PieceType → Option ℤ → Option Mask
unfolding normalized_rotation
piece_mask_from_intent straight r =
    some (if is_rotation 90 r then ns else (if is_rotation 270 r then ns else ew))
piece_mask_from_intent corner r =
    if is_rotation 0 r
    then some ne
    else (if is_rotation 90 r
        then some es
        else (if is_rotation 180 r then some sw else (if is_rotation 270 r then some nw else none)))
piece_mask_from_intent other_piece r = none

-- `slotPlacements[slotId] === expectedMask`; a slot without state and a cell without mask are both
-- undefined.
unfoldable pub is_placed : Option SlotState → Option Mask → Bool
is_placed none none = true
is_placed none (some mask) = false
is_placed (some slot) none = false
is_placed (some slot) (some mask) = elim slot.placed_mask [
  | none ↦ false
  | some placed ↦ same_mask placed mask
]

unfoldable pub all_placed : List Slot → List (Cell × Mask) → Map Text SlotState → Bool
unfolding is_placed
all_placed [] masks states = true
all_placed (slot ∷ rest) masks states =
    is_placed (get? slot.slot_id states) (mask_at slot.cell masks) && all_placed rest masks states

abbrev pub get_route_slots : Board → Text → List Slot
get_route_slots board id = or_else (get? id board.slots_by_route_id) []

unfoldable pub is_route_complete : Board → Text → Map Text SlotState → Option Bool
unfolding all_placed
is_route_complete board id states = do
  route ← get? id board.routes_by_id
  masks ← derive_canonical_masks_for_route route.cells
  some (all_placed (get_route_slots board id) masks states)

unfoldable pub complete_at : Text → Map Text Progress → Option (Map Text Progress)
complete_at id m = do p ← get? id m; some (set id (record p { completed = true }) m)

unfoldable pub lock_slots : List Slot → Map Text SlotState → Option (Map Text SlotState)
lock_slots [] states = some states
lock_slots (slot ∷ rest) states = do
  state ← get? slot.slot_id states
  lock_slots rest (set slot.slot_id (record state { locked = true }) states)

abbrev pub score_of : Side → Match → ℕ
score_of blue m = m.blue_score
score_of red m = m.red_score

unfoldable pub add_point : Side → Match → Match
add_point blue m = record m { blue_score = suc m.blue_score }
add_point red m = record m { red_score = suc m.red_score }

unfoldable pub resolve_route : Text → Match → Option (Match × Resolved)
unfolding complete_at lock_slots add_point
resolve_route id m = do
  route ← get? id m.board.routes_by_id
  routes ← complete_at id m.routes
  terminals ← complete_at route.terminal_id m.terminals
  slots ← lock_slots (get_route_slots m.board id) m.slots
  let done = record m { routes = routes; terminals = terminals; slots = slots }
  let scored = if route.is_damage then add_point route.owner done else done
  some (
    scored,
    record {
      route_id = id;
      owner = route.owner;
      terminal_id = route.terminal_id;
      is_damage = route.is_damage;
      score = score_of route.owner scored;
    },
  )

-- The mask that an intent asks for, or why it asks for none.
pub data Choice : Type 0 where
  turned_down : Refusal → Choice
  chosen : Mask → Choice

abbrev pub piece_or_refusal : Option Mask → Choice
piece_or_refusal none = turned_down invalid_piece
piece_or_refusal (some mask) = chosen mask

abbrev pub is_hole : SlotType → Bool
is_hole hole = true
is_hole _ = false

abbrev pub is_refactor : SlotType → Bool
is_refactor refactor = true
is_refactor _ = false

abbrev pub turned : Option Mask → Choice
turned none = turned_down rotate_requires_tile
turned (some mask) = chosen (rotate_mask mask)

abbrev pub same_side : Side → Side → Bool
same_side blue blue = true
same_side red red = true
same_side _ _ = false

unfoldable pub choose_mask : IntentType → Intent → Slot → SlotState → Choice
unfolding piece_mask_from_intent rotate_mask
choose_mask place_tile intent slot state =
    if is_hole slot.slot_type
    then piece_or_refusal (piece_mask_from_intent intent.piece_type intent.rotation)
    else turned_down place_requires_hole
choose_mask replace_tile intent slot state =
    if is_refactor slot.slot_type
    then piece_or_refusal (piece_mask_from_intent intent.piece_type intent.rotation)
    else turned_down replace_requires_refactor
choose_mask rotate_tile intent slot state = turned state.placed_mask
choose_mask unknown_type intent slot state = turned_down unknown_intent

-- The route is resolved if the move completes it.
unfoldable pub resolve_if_complete : Bool → Text → Match → Option Answer
unfolding resolve_route
resolve_if_complete true id m = do r ← resolve_route id m; some (applied r.0 (some r.1))
resolve_if_complete false id m = some (applied m none)

unfoldable pub place_mask : Slot → SlotState → Mask → Match → Option Answer
unfolding resolve_if_complete is_route_complete
place_mask slot state mask m = do
  let slots = set slot.slot_id (record state { placed_mask = some mask }) m.slots
  let next = record m { slots = slots }
  route ← get? slot.route_id next.routes
  complete ←
      (if route.completed then some false else is_route_complete next.board slot.route_id slots)
  resolve_if_complete complete slot.route_id next

unfoldable pub answer_choice : Choice → Slot → SlotState → Match → Option Answer
unfolding place_mask
answer_choice (turned_down why) slot state m = some (refused why)
answer_choice (chosen mask) slot state m = place_mask slot state mask m

unfoldable pub apply_to_slot : Intent → Slot → SlotState → Match → Option Answer
unfolding choose_mask answer_choice
apply_to_slot intent slot state m =
    if not (same_side slot.owner intent.player_side)
    then some (refused wrong_owner)
    else (if state.locked
        then some (refused slot_locked)
        else answer_choice (choose_mask intent.intent_type intent slot state) slot state m)

-- An object has the names of its prototype too: what stands there is no slot, and has no state.
unfoldable pub missing_slot : Text → Refusal
missing_slot id = if contains id inherited_names then invalid_slot_state else invalid_slot

unfoldable pub apply_player_intent : Match → Intent → Option Answer
unfolding apply_to_slot missing_slot
apply_player_intent m intent = elim (get? intent.slot_id m.board.slots_by_id) [
  | none ↦ some (refused (missing_slot intent.slot_id))
  | some slot ↦ elim (get? slot.slot_id m.slots) [
    | none ↦ some (refused invalid_slot_state)
    | some state ↦ apply_to_slot intent slot state m
  ]
]
