-- ===== src/Tests/Greeds.antt =====
-- The theorems on pot-of-greed at a game of four.
use factory_network_server.Prelude.{
  ◌≢◌, ℕ, ◌≡◌, refl, suc, zero, true, false, none, some, List, [], ◌∷◌, map, min, filter, all,
  arith, ℕ_eq, contains,
}
use factory_network_server.Prelude.Texts.{Text, codes, Text_eq, text_eq}
use factory_network_server.Greed.State.{
  Phase, Match, Player, active, hidden_cycle, hidden_vault_action, hidden_runoff_vote,
  final_results, steal, invest, pass, is_vote_phase,
}
use factory_network_server.Greed.Vault.{
  Theft, total_paid, distribute_theft, resolve_vault_actions, total_requested,
}
use factory_network_server.State.{Lobby}
use factory_network_server.Tests.Lobbies.{host, lobby_of}
use factory_network_server.Greed.Cycles.{calculate_final_results, new_match, create_match_state}
use factory_network_server.Greed.Ends.{
  Move, timeout, vote, connection, play_all, create_match_state_ends,
}
use factory_network_server.Greed.Views.{serialize_public_state}
use factory_network_server.Greed.Votes.{resolve_vote}
use factory_network_server.Greed.Shares.{IsFair, as_theft, distribute_theft_lem}
use factory_network_server.Greed.Conserved.{wealth, resolve_vault_actions-wealth}
use factory_network_server.Greed.Winners.{stands, calculate_final_results-winners}
use factory_network_server.Greed.Runoff.{selected_in, resolve_vote_silent_runoff}
use factory_network_server.Greed.Secrets.{with_secrets, serialize_public_state_secrets}

abbrev player : Text → ℕ → Player
player id gold = record {
  id = id;
  name = id;
  gold = gold;
  status = active;
  connected = true;
  pending_investments = [];
  correct_votes = 0;
  wrongful_votes = 0;
}

abbrev a : Text
a = codes "c_a"

abbrev b : Text
b = codes "c_b"

abbrev c : Text
c = codes "c_c"

abbrev d : Text
d = codes "c_d"

-- One invests, two steal more than the vault holds.
abbrev game : Match
game = record {
  room_code = codes "ABCDE";
  host_id = a;
  cycle_number = 1;
  cycle_type = hidden_cycle;
  phase = hidden_vault_action;
  vault_gold = 6;
  players = player a 20 ∷ player b 20 ∷ player c 15 ∷ player d 20 ∷ [];
  vault_actions = (a, invest 3 6) ∷ (b, steal 8) ∷ (c, steal 5) ∷ (d, pass) ∷ [];
  resolved_actions = [];
  votes = [];
  runoff_targets = [];
  audit = none;
  last_vote_result = none;
  final_results = none;
  tie_break_seed = 2;
  tie_break_count = 0;
  history = [];
  created_at = 0;
  updated_at = 0;
}

abbrev thefts : List Theft
thefts = record { player_id = b; amount = 8 } ∷ record { player_id = c; amount = 5 } ∷ []

distribute_theft_lem_example :
    (total_paid (distribute_theft 9 thefts) ≡ min 9 (total_requested thefts))
    × IsFair (distribute_theft 9 thefts)
    × (map as_theft (distribute_theft 9 thefts) ≡ thefts)
distribute_theft_lem_example = distribute_theft_lem 9 thefts (omega arith, (omega arith, tt))

resolve_vault_actions-wealth_example : wealth (resolve_vault_actions game 7) ≡ 81
resolve_vault_actions-wealth_example = resolve_vault_actions-wealth game 7

abbrev four : List Player
four = game.players

calculate_final_results-winners_example :
    (calculate_final_results four 6).winner_ids
    ≡ map (λ (p : Player). p.id) (filter (λ p. all (stands p) four) four)
calculate_final_results-winners_example = calculate_final_results-winners four 6

-- A and b stand in the runoff, nobody votes, and c is selected.
abbrev silent : Match
silent = record game { phase = hidden_runoff_vote; runoff_targets = a ∷ b ∷ [] }

resolve_vote_silent_runoff_example : selected_in (resolve_vote silent 9) ≡ some c
unfolding text_eq is_vote_phase contains
resolve_vote_silent_runoff_example =
    resolve_vote_silent_runoff silent 9 c refl (cc) refl refl (omega arith) refl

running : Phase.hidden_vault_action ≢ Phase.final_results
running e = cc

serialize_public_state_secrets_example :
    serialize_public_state
      (with_secrets game (player a 1 ∷ player b 2 ∷ player c 3 ∷ player d 4 ∷ []) [] [] [] [])
    ≡ serialize_public_state game
serialize_public_state_secrets_example =
    serialize_public_state_secrets game (player a 1 ∷ player b 2 ∷ player c 3 ∷ player d 4 ∷ []) []
      [] [] [] refl running refl refl

abbrev table : Lobby ℕ
table = record (lobby_of (codes "ABCDE") 0) { members = a ∷ b ∷ c ∷ d ∷ [] }

abbrev timers : ℕ → List Move
timers zero = []
timers (suc n) = timeout n ∷ timers n

-- Between the timers a vote is sent and a player goes and comes back.
abbrev moves : List Move
moves = vote a b 1 ∷ connection c false 2 ∷ timeout 3 ∷ connection c true 4 ∷ timers 22

create_match_state_ends_example :
    (play_all host moves (new_match host table 0)).phase ≡ final_results
unfolding create_match_state text_eq contains
create_match_state_ends_example =
    create_match_state_ends host table 0 (new_match host table 0) moves refl refl (omega arith)
