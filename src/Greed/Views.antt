-- ===== src/Greed/Views.antt =====
-- What pot-of-greed-match-engine.mjs shows to all players and to one player.
use factory_network_server.Prelude.{
  ℕ, Bool, Option, none, some, List, map, ◌||◌, if◌then◌else◌, length, true, false,
}
use factory_network_server.Prelude.Texts.{Text, Text_eq}
use factory_network_server.Prelude.Maps.{has}
use factory_network_server.Greed.State.{
  Match, Player, Phase, final_results, CycleType, Standing, Audit, VoteResult, FinalResults,
  Investment, player_for, connected_players, by_cycle,
}

pub record PublicPlayer : Type 0 where
  pub id : Text
  pub name : Text
  pub status : Standing
  pub connected : Bool
  pub gold : Option ℕ

pub record PublicState : Type 0 where
  pub room_code : Text
  pub cycle_number : ℕ
  pub cycle_type : CycleType
  pub phase : Phase
  pub vault_gold : ℕ
  pub audit : Option Audit
  pub players : List PublicPlayer
  pub submitted : ℕ
  pub eligible : ℕ
  pub last_vote_result : Option VoteResult
  pub final_results : Option FinalResults

pub record PrivateState : Type 0 where
  pub public_state : PublicState
  pub id : Text
  pub gold : ℕ
  pub status : Standing
  pub pending_investments : List Investment
  pub submitted_action : Bool
  pub submitted_vote : Bool

abbrev pub is_final : Phase → Bool
is_final final_results = true
is_final _ = false

unfoldable pub shows_gold : Match → Bool
shows_gold m = by_cycle m.cycle_type false true || is_final m.phase

abbrev pub public_player : Bool → Player → PublicPlayer
public_player gold_shown p = record {
  id = p.id;
  name = p.name;
  status = p.status;
  connected = p.connected;
  gold = if gold_shown then some p.gold else none;
}

unfoldable pub serialize_public_state : Match → PublicState
unfolding shows_gold
serialize_public_state m = record {
  room_code = m.room_code;
  cycle_number = m.cycle_number;
  cycle_type = m.cycle_type;
  phase = m.phase;
  vault_gold = m.vault_gold;
  audit = m.audit;
  players = map (public_player (shows_gold m)) m.players;
  submitted = length m.votes;
  eligible = length (connected_players m);
  last_vote_result = m.last_vote_result;
  final_results = m.final_results;
}

unfoldable pub serialize_private_state : Match → Text → Option PrivateState
unfolding serialize_public_state player_for has
serialize_private_state m id = elim (player_for m id) [
  | none ↦ none
  | some player ↦ some (record {
    public_state = serialize_public_state m;
    id = player.id;
    gold = player.gold;
    status = player.status;
    pending_investments = player.pending_investments;
    submitted_action = has player.id m.vault_actions;
    submitted_vote = has player.id m.votes;
  })
]
