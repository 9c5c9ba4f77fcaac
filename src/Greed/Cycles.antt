-- ===== src/Greed/Cycles.antt =====
-- The cycles of pot-of-greed-match-engine.mjs: the start, the next cycle, the end with its winners, and
-- a player's connection; and what the phase timer of pot-of-greed-lobby-game.mjs calls.
use factory_network_server.Prelude.{
  ℕ, suc, ◌+◌, ◌*◌, ◌∷◌, Bool, true, false, Option, none, some, List, [], ◌++◌, map, ◌&&◌, ◌||◌,
  not, or_else, if◌then◌else◌, ltb, min, max, length, filter, ◌==◌, ℕ_eq,
}
use factory_network_server.Prelude.Texts.{Text, codes, Text_eq}
use factory_network_server.Prelude.Maps.{Map, get?}
use factory_network_server.Prelude.Int.{pos}
use factory_network_server.Js.Values.{finite, text}
use factory_network_server.Js.Convert.{Host}
use factory_network_server.Util.{Identity, sanitize_display_name}
use factory_network_server.State.{Lobby}
use factory_network_server.Greed.State.{
  Match, Player, Investment, Event, investment_return, Balance, FinalResults, active, hidden_cycle,
  show_cycle, hidden_vault_action, show_vault_action, final_results, is_result_phase,
  is_vault_action_phase, is_discussion_phase, is_vote_phase, player_for, update_player,
  active_players,
}
use factory_network_server.Greed.Vault.{in_cycle, resolve_vault_actions}
use factory_network_server.Greed.Votes.{begin_vote, resolve_vote}

abbrev pub minimum_players : ℕ
minimum_players = 4

abbrev pub maximum_players : ℕ
maximum_players = 8

-- The `displayName` of a member's profile, where he has one.
abbrev pub name_of : Option Identity → Text → Text
name_of none fallback = sanitize_display_name none fallback
name_of (some profile) fallback = sanitize_display_name (some (text profile.display_name)) fallback

-- `Player ${number}`
abbrev pub numbered : Host → ℕ → Text
numbered host n = codes "Player " ++ host.number_to_text (finite (pos n) 0)

unfoldable pub new_players : Host → Map Text Identity → ℕ → List Text → List Player
new_players host profiles index [] = []
new_players host profiles index (id ∷ ids) =
    record {
      id = id;
      name = name_of (get? id profiles) (numbered host (suc index));
      gold = 20;
      status = active;
      connected = true;
      pending_investments = [];
      correct_votes = 0;
      wrongful_votes = 0;
    }
    ∷ new_players host profiles (suc index) ids

unfoldable pub new_match : {G : Type 0} → Host → Lobby G → ℕ → Match
unfolding new_players
new_match host lobby now = record {
  room_code = lobby.room_code;
  host_id = lobby.owner_id;
  cycle_number = 1;
  cycle_type = hidden_cycle;
  phase = hidden_vault_action;
  vault_gold = length lobby.members * 12;
  players = new_players host lobby.member_profiles 0 lobby.members;
  vault_actions = [];
  resolved_actions = [];
  votes = [];
  runoff_targets = [];
  audit = none;
  last_vote_result = none;
  final_results = none;
  tie_break_seed = or_else lobby.seed 0;
  tie_break_count = 0;
  history = [];
  created_at = now;
  updated_at = now;
}

abbrev pub bad_roster : List Text → Bool
bad_roster members = ltb (length members) minimum_players || ltb maximum_players (length members)

-- `none` is the RangeError for a roster that is too small or too large.
unfoldable pub create_match_state : {G : Type 0} → Host → Lobby G → ℕ → Option Match
unfolding new_match
create_match_state host lobby now =
    if bad_roster lobby.members then none else some (new_match host lobby now)

abbrev pub returns : List Investment → ℕ
returns [] = 0
returns (i ∷ is) = i.return_amount + returns is

unfoldable pub collect : Player → Player
collect p = record p { gold = p.gold + returns p.pending_investments; pending_investments = [] }

abbrev pub return_entries : Bool → Text → List Investment → List Event
return_entries final id [] = []
return_entries final id (i ∷ is) =
    investment_return id i.return_amount final ∷ return_entries final id is

unfoldable pub all_return_entries : Bool → List Player → List Event
all_return_entries final [] = []
all_return_entries final (p ∷ ps) =
    return_entries final p.id p.pending_investments ++ all_return_entries final ps

abbrev pub most : (Player → ℕ) → List Player → ℕ
most f [] = 0
most f (p ∷ ps) = max (f p) (most f ps)

-- The least value, of a list that is not empty.
abbrev pub least : (Player → ℕ) → List Player → ℕ
least f [] = 0
least f (p ∷ []) = f p
least f (p ∷ q ∷ ps) = min (f p) (least f (q ∷ ps))

abbrev pub having : (Player → ℕ) → ℕ → List Player → List Player
having f n ps = filter (λ (p : Player). f p == n) ps

-- Where more than one is left, those with the best value.
unfoldable pub narrow : (Player → ℕ) → (List Player → ℕ) → List Player → List Player
narrow f best ps = if ltb 1 (length ps) then having f (best ps) ps else ps

abbrev pub gold : Player → ℕ
gold p = p.gold

abbrev pub correct_votes : Player → ℕ
correct_votes p = p.correct_votes

abbrev pub wrongful_votes : Player → ℕ
wrongful_votes p = p.wrongful_votes

unfoldable pub winners_of : List Player → List Player
winners_of ps =
    let richest = having gold (most gold ps) ps in
    narrow wrongful_votes (least wrongful_votes) (narrow correct_votes (most correct_votes) richest)

abbrev pub balance : Player → Balance
balance p = record { id = p.id; name = p.name; gold = p.gold; status = p.status }

unfoldable pub calculate_final_results : List Player → ℕ → FinalResults
unfolding winners_of
calculate_final_results ps vault = record {
  winner_ids = map (λ (p : Player). p.id) (winners_of ps);
  vault_gold = vault;
  balances = map balance ps;
}

-- All stakes come back, and the match is over.
unfoldable pub settle_match : Match → ℕ → Match
unfolding collect all_return_entries calculate_final_results
settle_match m now =
    let players = map collect m.players in
    record m {
      players = players;
      history = m.history ++ in_cycle m.cycle_number (all_return_entries true m.players);
      final_results = some (calculate_final_results players m.vault_gold);
      phase = final_results;
      updated_at = now;
    }

abbrev pub calm : Match → ℕ → Match
calm m now = record m {
  vault_actions = [];
  resolved_actions = [];
  votes = [];
  runoff_targets = [];
  audit = none;
  updated_at = now;
}

unfoldable pub next_cycle : Match → ℕ → Match
unfolding collect all_return_entries
next_cycle m now = elim m.cycle_type [
  | hidden_cycle ↦
      calm
        (record m {
          cycle_number = m.cycle_number + 1;
          cycle_type = show_cycle;
          players = map collect m.players;
          history = m.history ++ in_cycle (m.cycle_number + 1) (all_return_entries false m.players);
          phase = show_vault_action;
        })
        now
  | show_cycle ↦
      calm
        (record m {
          cycle_number = m.cycle_number + 1;
          cycle_type = hidden_cycle;
          phase = hidden_vault_action;
        })
        now
]

unfoldable pub advance_cycle : Match → ℕ → Match
unfolding settle_match next_cycle is_result_phase
advance_cycle m now =
    if not (is_result_phase m.phase)
    then m
    else (if length (active_players m) == 0 then settle_match m now else next_cycle m now)

unfoldable pub apply_connection : Match → Text → Bool → ℕ → Match
unfolding player_for update_player
apply_connection m id connected now = elim (player_for m id) [
  | none ↦ m
  | some player ↦
      if player.connected && connected || not player.connected && not connected
      then m
      else record m {
        players = update_player id (λ (p : Player). record p { connected = connected }) m.players;
        updated_at = now;
      }
]

-- What the timer of a phase does to the match; `none` where the engine throws.
unfoldable pub transition : Match → ℕ → Option Match
transition m now =
    if is_vault_action_phase m.phase
    then some (resolve_vault_actions m now)
    else (if is_discussion_phase m.phase
        then some (begin_vote m now)
        else (if is_vote_phase m.phase
            then resolve_vote m now
            else (if is_result_phase m.phase then some (advance_cycle m now) else some m)))

unfoldable pub phase_duration : Match → ℕ
phase_duration m =
    if is_vault_action_phase m.phase
    then 30000
    else (if is_discussion_phase m.phase
        then 90000
        else (if is_vote_phase m.phase
            then 30000
            else (if is_result_phase m.phase then 7000 else 0)))
