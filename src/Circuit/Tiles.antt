-- ===== src/Circuit/Tiles.antt =====
-- games/circuit-siege/shared/tile-connectivity.mjs and route-validator.mjs. Cells have natural numbers
-- as coordinates; a direction or a mask that is none of those named is not modelled. A throw is `none`.
use factory_network_server.Prelude.{
  ℕ, ◌+◌, Bool, true, false, Option, none, some, List, [], ◌∷◌, ◌&&◌, ◌||◌, ◌>>=◌, if◌then◌else◌,
  nat_eq,
}

pub data Direction : Type 0 where
  north east south west : Direction

pub data Mask : Type 0 where
  ew ns ne es sw nw : Mask

pub record Cell : Type 0 where
  pub x : ℕ
  pub y : ℕ

abbrev pub same_direction : Direction → Direction → Bool
same_direction north north = true
same_direction east east = true
same_direction south south = true
same_direction west west = true
same_direction _ _ = false

abbrev pub same_mask : Mask → Mask → Bool
same_mask ew ew = true
same_mask ns ns = true
same_mask ne ne = true
same_mask es es = true
same_mask sw sw = true
same_mask nw nw = true
same_mask _ _ = false

abbrev pub same_cell : Cell → Cell → Bool
same_cell a b = nat_eq a.x b.x && nat_eq a.y b.y

-- OPENINGS_BY_MASK
unfoldable pub get_mask_openings : Mask → Direction × Direction
get_mask_openings ew = (east, west)
get_mask_openings ns = (north, south)
get_mask_openings ne = (north, east)
get_mask_openings es = (east, south)
get_mask_openings sw = (south, west)
get_mask_openings nw = (north, west)

unfoldable pub opposite_direction : Direction → Direction
opposite_direction north = south
opposite_direction east = west
opposite_direction south = north
opposite_direction west = east

-- `openings.includes(direction)`
unfoldable pub is_open_to : Direction → Mask → Bool
unfolding get_mask_openings
is_open_to d m = let (a, b) = get_mask_openings m in same_direction a d || same_direction b d

abbrev pub masks : List Mask
masks = ew ∷ ns ∷ ne ∷ es ∷ sw ∷ nw ∷ []

-- The mask with both openings, in either order: the keys are sorted.
unfoldable pub mask_among : List Mask → Direction → Direction → Option Mask
unfolding get_mask_openings
mask_among [] a b = none
mask_among (m ∷ ms) a b =
    let rest = mask_among ms a b in
    let (c, d) = get_mask_openings m in
    if same_direction a c && same_direction b d || same_direction a d && same_direction b c
    then some m
    else rest

unfoldable pub get_mask_for_directions : Direction → Direction → Option Mask
unfolding mask_among
get_mask_for_directions a b = mask_among masks a b

unfoldable pub direction_from_to : Cell → Cell → Option Direction
direction_from_to from to =
    if nat_eq to.x (from.x + 1) && nat_eq to.y from.y
    then some east
    else (if nat_eq from.x (to.x + 1) && nat_eq to.y from.y
        then some west
        else (if nat_eq to.x from.x && nat_eq to.y (from.y + 1)
            then some south
            else (if nat_eq to.x from.x && nat_eq from.y (to.y + 1) then some north else none)))

-- The direction to the neighbour, or the one given where there is none.
unfoldable pub direction_or : Direction → Cell → Option Cell → Option Direction
unfolding direction_from_to
direction_or given current none = some given
direction_or given current (some other) = direction_from_to current other

unfoldable pub derive_mask_from_route_cell :
    Option Cell → Cell → Option Cell → Direction → Direction → Option Mask
unfolding direction_or get_mask_for_directions
derive_mask_from_route_cell previous current next start finish = do
  a ← direction_or start current previous
  b ← direction_or finish current next
  get_mask_for_directions a b

unfoldable pub masks_connect : Mask → Direction → Mask → Bool
unfolding is_open_to opposite_direction
masks_connect a d b = is_open_to d a && is_open_to (opposite_direction d) b

abbrev pub first_cell : List Cell → Option Cell
first_cell [] = none
first_cell (c ∷ cells) = some c

-- The masks of the cells from the one behind `previous` on, from north to south at the ends.
unfoldable pub masks_from : Option Cell → List Cell → Option (List (Cell × Mask))
unfolding derive_mask_from_route_cell
masks_from previous [] = some []
masks_from previous (c ∷ cells) = do
  mask ← derive_mask_from_route_cell previous c (first_cell cells) north south
  rest ← masks_from (some c) cells
  some ((c, mask) ∷ rest)

unfoldable pub derive_canonical_masks_for_route : List Cell → Option (List (Cell × Mask))
unfolding masks_from
derive_canonical_masks_for_route cells = masks_from none cells

-- The mask at the cell; of two entries the later one counts.
unfoldable pub mask_at : Cell → List (Cell × Mask) → Option Mask
mask_at cell [] = none
mask_at cell ((c, mask) ∷ rest) = elim (mask_at cell rest) [
  | some later ↦ some later
  | none ↦ if same_cell c cell then some mask else none
]
