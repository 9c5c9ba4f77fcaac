-- ===== src/Greed/Ends.antt =====
-- A match of pot-of-greed ends: the timers of its phases, whatever the players send between them, come
-- to the final results.
use factory_network_server.Prelude.{
  ℕ, suc, ◌+◌, ◌-◌, ◌*◌, ◌≤◌, ◌≡◌, refl, sym, ◌∙◌, Bool, true, false, Option, none, some, List, [],
  ◌∷◌, inl, inr, Bool-cases, Option-cases, arith, length, distinct, or_else, not, ◌&&◌, ◌||◌,
}
use factory_network_server.Prelude.Texts.{Text, codes, Text_eq}
use factory_network_server.Prelude.Maps.{Map}
use factory_network_server.Js.Values.{Json, property}
use factory_network_server.Js.Convert.{Host, to_number}
use factory_network_server.Util.{Identity}
use factory_network_server.State.{Lobby}
use factory_network_server.Greed.State.{
  Match, Player, Phase, final_results, final_settlement, hidden_runoff_vote, show_runoff_vote,
  is_discussion_phase, is_result_phase, is_vault_action_phase, is_vote_phase, player_for,
}
use factory_network_server.Greed.Vault.{submit_vault_action, place_action, may_act, requested_type}
use factory_network_server.Greed.Votes.{ids_of, submit_vote, can_vote}
use factory_network_server.Greed.Cycles.{
  apply_connection, transition, create_match_state, new_match, new_players, bad_roster,
}
use factory_network_server.Greed.Roster.{badges, actives, badges-update_player}
use factory_network_server.Greed.Rank.{
  IsRunning, rank, count_active, timers_left, IsPlayable, IsRunning-same,
}
use factory_network_server.Greed.Progress.{transition_progress}

-- What happens to a match: a timer runs out, or the lobby calls for a player. Each comes with the time.
pub data Move : Type 0 where
  timeout : ℕ → Move
  vault_action : Text → Json → ℕ → Move
  vote : Text → Text → ℕ → Move
  connection : Text → Bool → ℕ → Move

-- A throw leaves the match as it is.
unfoldable pub play : Host → Move → Match → Match
unfolding transition submit_vault_action submit_vote apply_connection
play host (timeout now) m = or_else (transition m now) m
play host (vault_action id intent now) m = or_else (submit_vault_action host m id intent now) m
play host (vote id target now) m = submit_vote m id target now
play host (connection id connected now) m = apply_connection m id connected now

unfoldable pub play_all : Host → List Move → Match → Match
unfolding play
play_all host [] m = m
play_all host (move ∷ moves) m = play_all host moves (play host move m)

abbrev pub timeouts : List Move → ℕ
timeouts [] = 0
timeouts (timeout now ∷ moves) = suc (timeouts moves)
timeouts (vault_action id intent now ∷ moves) = timeouts moves
timeouts (vote id target now ∷ moves) = timeouts moves
timeouts (connection id connected now ∷ moves) = timeouts moves

-- What no player can change between two timers.
abbrev Same : Match → Match → Type 0
Same m m' =
    (badges m'.players ≡ badges m.players)
    × (m'.phase ≡ m.phase)
    × (m'.runoff_targets ≡ m.runoff_targets)

place_action-Same :
    (host : Host) (m : Match) (id : Text) (player : Player) (intent : Json) (now : ℕ)
    → Same m (or_else (place_action host m id player intent now) m)
unfolding place_action
place_action-Same host m id player intent now =
    elim (Option-cases (requested_type host (property (codes "type") intent))) [
      | inl e ↦ rw e (refl, refl, refl)
      | inr (requested, e) ↦
          elim (Option-cases (to_number host (property (codes "amount") intent))) [
            | inl k ↦ rw (e, k) (refl, refl, refl)
            | inr (amount, k) ↦ rw (e, k) (refl, refl, refl)
          ]
    ]

submit_vault_action-Same :
    (host : Host) (m : Match) (id : Text) (intent : Json) (now : ℕ)
    → Same m (or_else (submit_vault_action host m id intent now) m)
unfolding submit_vault_action
submit_vault_action-Same host m id intent now = elim (Bool-cases (is_vault_action_phase m.phase)) [
  | inr e ↦ rw e (refl, refl, refl)
  | inl e ↦ elim (Option-cases (may_act m id)) [
    | inl f ↦ rw e (rw (f, submit_vault_action) (refl, refl, refl))
    | inr (player, f) ↦
        rw e (rw (f, submit_vault_action) (place_action-Same host m id player intent now))
  ]
]

submit_vote-Same : (m : Match) (id target : Text) (now : ℕ) → Same m (submit_vote m id target now)
unfolding submit_vote
submit_vote-Same m id target now =
    elim (Bool-cases (is_vote_phase m.phase && can_vote m id target)) [
      | inl e ↦ rw e (refl, refl, refl)
      | inr e ↦ rw e (refl, refl, refl)
    ]

apply_connection-Same :
    (m : Match) (id : Text) (connected : Bool) (now : ℕ)
    → Same m (apply_connection m id connected now)
unfolding apply_connection
apply_connection-Same m id connected now = elim (Option-cases (player_for m id)) [
  | inl e ↦ rw (e, apply_connection) (refl, refl, refl)
  | inr (p, e) ↦ elim (Bool-cases (p.connected && connected || not p.connected && not connected)) [
    | inl k ↦ rw (e, apply_connection) (rw k (refl, refl, refl))
    | inr k ↦
        rw (e, apply_connection)
          (rw k (badges-update_player id _ m.players (λ q. refl), refl, refl))
  ]
]

Same-IsRunning :
    (m m' : Match) → Same m m' → IsRunning m → IsRunning m' × (timers_left m' ≡ timers_left m)
Same-IsRunning m m' same h = (
  record {
    different = IsRunning-same m m' same.0 h;
    playable = rw (same.0, same.1, same.2) h.playable;
  },
  rw (same.0, same.1) refl,
)

Phase-discrete : Discrete Phase
Phase-discrete = hlevel

transition_final : (m : Match) (now : ℕ) → m.phase ≡ final_results → transition m now ≡ some m
unfolding transition is_vault_action_phase is_discussion_phase is_vote_phase is_result_phase
transition_final m now e = rw e refl

-- A move keeps the match running, and a timer brings it nearer to the end.
play-IsRunning :
    (host : Host) (move : Move) (m : Match)
    → IsRunning m
    → IsRunning (play host move m)
      × (timers_left (play host move m) ≤ timers_left m - timeouts (move ∷ []))
unfolding play
play-IsRunning host (vault_action id intent now) m h =
    let (h', e) =
      Same-IsRunning m (or_else (submit_vault_action host m id intent now) m)
        (submit_vault_action-Same host m id intent now) h in
    (h', omega (arith, e))
play-IsRunning host (vote id target now) m h =
    let (h', e) =
      Same-IsRunning m (submit_vote m id target now) (submit_vote-Same m id target now) h in
    (h', omega (arith, e))
play-IsRunning host (connection id connected now) m h =
    let (h', e) =
      Same-IsRunning m (apply_connection m id connected now)
        (apply_connection-Same m id connected now) h in
    (h', omega (arith, e))
play-IsRunning host (timeout now) m h = elim (Phase-discrete m.phase final_results) [
  | yes e ↦ rw (transition_final m now e) (h, rw e (omega arith))
  | no live ↦ let (m', e, (h', less)) = transition_progress m now h live in rw e (h', omega arith)
]

rank_zero :
    (ph : Phase) (n : ℕ) (t : List Text) → IsPlayable ph n t → rank ph n ≤ 0 → ph ≡ final_results
rank_zero hidden_runoff_vote n t p h = absurd (omega (arith, p.0))
rank_zero show_runoff_vote n t p h = absurd (omega (arith, p.0))
rank_zero final_settlement n t p h = absurd p
rank_zero final_results n t p h = refl
rank_zero _ n t p h = absurd (omega arith)

timeouts_cons :
    (move : Move) (moves : List Move)
    → timeouts (move ∷ moves) ≡ timeouts (move ∷ []) + timeouts moves
timeouts_cons (timeout now) moves = omega arith
timeouts_cons (vault_action id intent now) moves = omega arith
timeouts_cons (vote id target now) moves = omega arith
timeouts_cons (connection id connected now) moves = omega arith

play_all_ends :
    (host : Host) (moves : List Move) (m : Match)
    → IsRunning m
    → timers_left m ≤ timeouts moves
    → (play_all host moves m).phase ≡ final_results
unfolding play_all
play_all_ends host [] m h le = rank_zero m.phase (count_active m) m.runoff_targets h.playable le
play_all_ends host (move ∷ moves) m h le =
    let (h', less) = play-IsRunning host move m h in
    play_all_ends host moves (play host move m) h' (omega (arith, timeouts_cons move moves))

-- A new match runs, and all its players are active.
new_players_roster :
    (host : Host) (profiles : Map Text Identity) (i : ℕ) (ids : List Text)
    → let ps = new_players host profiles i ids in
      (ids_of ps ≡ ids) × (actives (badges ps) ≡ length ids)
unfolding new_players
new_players_roster host profiles i [] = (refl, refl)
new_players_roster host profiles i (id ∷ ids) =
    let (a, b) = new_players_roster host profiles (suc i) ids in (rw a refl, rw b refl)

new_match-IsRunning :
    {G : Type 0} (host : Host) (lobby : Lobby G) (now : ℕ)
    → distinct lobby.members ≡ true
    → bad_roster lobby.members ≡ false
    → IsRunning (new_match host lobby now)
unfolding new_match
new_match-IsRunning host lobby now d fit =
    let roster = new_players_roster host lobby.member_profiles 0 lobby.members in
    record { different = rw roster.0 d; playable = rw roster.1 (ground arith) }

new_match-timers :
    {G : Type 0} (host : Host) (lobby : Lobby G) (now : ℕ)
    → timers_left (new_match host lobby now) ≡ 5 * length lobby.members + 3
unfolding new_match
new_match-timers host lobby now =
    rw (new_players_roster host lobby.member_profiles 0 lobby.members).1 refl

-- A new game of pot-of-greed of n different players comes to its final results once 5n + 3 phase
-- timers have run out, whatever vault actions, votes and changes of connection come between them.
pub create_match_state_ends :
    {G : Type 0} (host : Host) (lobby : Lobby G) (now : ℕ) (m : Match) (moves : List Move)
    → create_match_state host lobby now ≡ some m
    → distinct lobby.members ≡ true
    → 5 * length lobby.members + 3 ≤ timeouts moves
    → (play_all host moves m).phase ≡ final_results
unfolding create_match_state
create_match_state_ends host lobby now m moves made d enough =
    elim (Bool-cases (bad_roster lobby.members)) [
      | inl few ↦
          let none_made : ◌≡◌ {A = Option Match} none (some m) = sym (rw few refl) ∙ made in cc
      | inr fit ↦
          let same : ◌≡◌ {A = Option Match} (some (new_match host lobby now)) (some m) =
            sym (rw fit refl) ∙ made in
          let new : new_match host lobby now ≡ m = cc in
          rw (← new) (
            play_all_ends host moves (new_match host lobby now)
              (new_match-IsRunning host lobby now d fit)
              (rw (new_match-timers host lobby now) enough))
    ]
