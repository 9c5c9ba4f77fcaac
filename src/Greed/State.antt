-- ===== src/Greed/State.antt =====
-- The match state of games/pot-of-greed/server/pot-of-greed-match-engine.mjs. `clientId` of a player
-- equals `id`, and `gameId` is constant. Objects that are keyed by clients' ids are association lists:
-- such an id starts with "c_", so it is no array index and no inherited name.
use factory_network_server.Prelude.{
  ℕ, Bool, true, false, Option, none, some, List, [], ◌∷◌, ◌==◌, if◌then◌else◌, filter,
}
use factory_network_server.Prelude.Texts.{Text, Text_eq}
use factory_network_server.Prelude.Maps.{Map}
use factory_network_server.Prelude.Int.{ℤ}

pub data Phase : Type 0 where
  hidden_vault_action hidden_discussion hidden_vote hidden_runoff_vote hidden_vote_result : Phase
  show_vault_action show_discussion show_vote show_runoff_vote show_vote_result : Phase
  final_settlement final_results : Phase

pub data CycleType : Type 0 where
  hidden_cycle show_cycle : CycleType

pub data Standing : Type 0 where
  active jury : Standing

pub record Investment : Type 0 where
  pub cost : ℕ
  pub return_amount : ℕ
  pub created_cycle : ℕ

pub record Player : Type 0 where
  pub id : Text
  pub name : Text
  pub gold : ℕ
  pub status : Standing
  pub connected : Bool
  pub pending_investments : List Investment
  pub correct_votes : ℕ
  pub wrongful_votes : ℕ

pub data Action : Type 0 where
  pass : Action
  invest : ℕ → ℕ → Action
  steal : ℕ → Action

pub data ResolvedType : Type 0 where
  resolved_pass resolved_invest resolved_steal : ResolvedType

pub record Resolved : Type 0 where
  pub resolved_type : ResolvedType
  pub requested : ℕ
  pub actual_stolen : ℕ

pub record Audit : Type 0 where
  pub vault_before : ℕ
  pub vault_after : ℕ
  pub net_change : ℤ

pub record VoteResult : Type 0 where
  pub tally : Map Text ℕ
  pub selected_id : Text
  pub selected_action : Resolved
  pub correct : Bool
  pub fine : ℕ
  pub random_tie_break : Bool

-- An entry of the history, behind the number of its cycle.
pub data Event : Type 0 where
  -- playerId, cost, returnAmount
  investment : Text → ℕ → ℕ → Event
  -- playerId, requested, actual
  theft : Text → ℕ → ℕ → Event
  vault_audit : Audit → Event
  -- selectedId, selectedAction, correct, fine, tally
  vote_result : Text → Resolved → Bool → ℕ → Map Text ℕ → Event
  -- playerId, amount, finalSettlement
  investment_return : Text → ℕ → Bool → Event

pub record Balance : Type 0 where
  pub id : Text
  pub name : Text
  pub gold : ℕ
  pub status : Standing

pub record FinalResults : Type 0 where
  pub winner_ids : List Text
  pub vault_gold : ℕ
  pub balances : List Balance

pub record Match : Type 0 where
  pub room_code : Text
  pub host_id : Text
  pub cycle_number : ℕ
  pub cycle_type : CycleType
  pub phase : Phase
  pub vault_gold : ℕ
  pub players : List Player
  pub vault_actions : Map Text Action
  pub resolved_actions : Map Text Resolved
  pub votes : Map Text Text
  pub runoff_targets : List Text
  pub audit : Option Audit
  pub last_vote_result : Option VoteResult
  pub final_results : Option FinalResults
  pub tie_break_seed : ℕ
  pub tie_break_count : ℕ
  pub history : List (ℕ × Event)
  pub created_at : ℕ
  pub updated_at : ℕ

-- `phase.startsWith("hidden_")`
unfoldable pub is_hidden_phase : Phase → Bool
is_hidden_phase hidden_vault_action = true
is_hidden_phase hidden_discussion = true
is_hidden_phase hidden_vote = true
is_hidden_phase hidden_runoff_vote = true
is_hidden_phase hidden_vote_result = true
is_hidden_phase _ = false

unfoldable pub is_vault_action_phase : Phase → Bool
is_vault_action_phase hidden_vault_action = true
is_vault_action_phase show_vault_action = true
is_vault_action_phase _ = false

unfoldable pub is_discussion_phase : Phase → Bool
is_discussion_phase hidden_discussion = true
is_discussion_phase show_discussion = true
is_discussion_phase _ = false

unfoldable pub is_vote_phase : Phase → Bool
is_vote_phase hidden_vote = true
is_vote_phase show_vote = true
is_vote_phase hidden_runoff_vote = true
is_vote_phase show_runoff_vote = true
is_vote_phase _ = false

unfoldable pub is_result_phase : Phase → Bool
is_result_phase hidden_vote_result = true
is_result_phase show_vote_result = true
is_result_phase _ = false

unfoldable pub discussion_phase_for : Match → Phase
unfolding is_hidden_phase
discussion_phase_for m = if is_hidden_phase m.phase then hidden_discussion else show_discussion

abbrev pub by_cycle : {A : Type 0} → CycleType → A → A → A
by_cycle hidden_cycle a b = a
by_cycle show_cycle a b = b

unfoldable pub vote_phase_for : Match → Phase
vote_phase_for m = by_cycle m.cycle_type hidden_vote show_vote

unfoldable pub vote_result_phase_for : Match → Phase
vote_result_phase_for m = by_cycle m.cycle_type hidden_vote_result show_vote_result

abbrev pub is_active : Player → Bool
is_active p = elim p.status [ active ↦ true | jury ↦ false ]

unfoldable pub find_player : Text → List Player → Option Player
find_player id [] = none
find_player id (p ∷ ps) = let rest = find_player id ps in if p.id == id then some p else rest

unfoldable pub player_for : Match → Text → Option Player
unfolding find_player
player_for m id = find_player id m.players

-- A write to the object that `playerFor` finds.
unfoldable pub update_player : Text → (Player → Player) → List Player → List Player
update_player id f [] = []
update_player id f (p ∷ ps) =
    let rest = update_player id f ps in if p.id == id then f p ∷ ps else p ∷ rest

abbrev pub active_players : Match → List Player
active_players m = filter is_active m.players

abbrev pub connected_players : Match → List Player
connected_players m = filter (λ (p : Player). p.connected) m.players
