-- ===== src/Circuit/State.antt =====
-- What games/circuit-siege/shared/match-engine.mjs works on: the board as it is loaded, the match, and
-- the intents of the players with their answers.
use factory_network_server.Prelude.{ℕ, Bool, Option, List}
use factory_network_server.Prelude.Texts.{Text, Text_eq}
use factory_network_server.Prelude.Int.{ℤ}
use factory_network_server.Prelude.Maps.{Map}
use factory_network_server.Circuit.Tiles.{Mask, Cell}

pub data Side : Type 0 where
  blue red : Side

pub data SlotType : Type 0 where
  hole refactor other_slot : SlotType

pub record Slot : Type 0 where
  pub slot_id : Text
  pub cell : Cell
  pub owner : Side
  pub route_id : Text
  pub slot_type : SlotType
  pub expected_mask : Mask

pub record Route : Type 0 where
  pub route_id : Text
  pub owner : Side
  pub terminal_id : Text
  pub is_damage : Bool
  pub cells : List Cell

pub record Board : Type 0 where
  pub routes : List Route
  pub repair_slots : List Slot
  pub routes_by_id : Map Text Route
  pub slots_by_id : Map Text Slot
  pub slots_by_route_id : Map Text (List Slot)

pub record SlotState : Type 0 where
  pub placed_mask : Option Mask
  pub locked : Bool

-- Of a route, and of a terminal.
pub record Progress : Type 0 where
  pub completed : Bool
  pub owner : Side
  pub is_damage : Bool

pub record Match : Type 0 where
  pub board : Board
  pub blue_score : ℕ
  pub red_score : ℕ
  pub routes : Map Text Progress
  pub terminals : Map Text Progress
  pub slots : Map Text SlotState

pub data PieceType : Type 0 where
  straight corner other_piece : PieceType

pub data IntentType : Type 0 where
  place_tile replace_tile rotate_tile unknown_type : IntentType

pub record Intent : Type 0 where
  pub slot_id : Text
  pub player_side : Side
  pub intent_type : IntentType
  pub piece_type : PieceType
  pub rotation : Option ℤ

pub data Refusal : Type 0 where
  invalid_slot invalid_slot_state wrong_owner slot_locked place_requires_hole : Refusal
  replace_requires_refactor rotate_requires_tile unknown_intent invalid_piece : Refusal

pub record Resolved : Type 0 where
  pub route_id : Text
  pub owner : Side
  pub terminal_id : Text
  pub is_damage : Bool
  pub score : ℕ

-- The state after an accepted intent, or the reason why it stays.
pub data Answer : Type 0 where
  refused : Refusal → Answer
  applied : Match → Option Resolved → Answer
