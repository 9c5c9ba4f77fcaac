-- ===== src/Greed/Votes.antt =====
-- The votes of pot-of-greed-match-engine.mjs: who may vote for whom, the runoff of tied players, and
-- what the selected player and his voters win or lose.
use factory_network_server.Prelude.{
  ℕ, ◌+◌, ◌-◌, ◌/◌, ◌%◌, Bool, true, false, Option, none, some, List, [], ◌∷◌, ◌++◌, ◌&&◌, ◌||◌,
  not, ◌>>=◌, or_else, if◌then◌else◌, min, max, length, get_elem?, ◌==◌, ℕ_eq, contains,
}
use factory_network_server.Prelude.Texts.{Text, Text_eq}
use factory_network_server.Prelude.Maps.{Map, get?, set, has, values}
use factory_network_server.Greed.State.{
  Match, Player, hidden_runoff_vote, show_runoff_vote, jury, Resolved, resolved_pass,
  resolved_steal, ResolvedType, vote_result, VoteResult, is_active, by_cycle, player_for,
  update_player, active_players, is_discussion_phase, is_vote_phase, vote_phase_for,
  vote_result_phase_for,
}

unfoldable pub begin_vote : Match → ℕ → Match
unfolding is_discussion_phase vote_phase_for
begin_vote m now =
    if not (is_discussion_phase m.phase)
    then m
    else record m { phase = vote_phase_for m; votes = []; runoff_targets = []; updated_at = now }

abbrev pub is_empty : List Text → Bool
is_empty [] = true
is_empty (x ∷ xs) = false

unfoldable pub can_vote : Match → Text → Text → Bool
unfolding player_for has contains
can_vote m voter_id target_id = elim (player_for m voter_id) [
  | none ↦ false
  | some voter ↦ elim (player_for m target_id) [
    | none ↦ false
    | some target ↦
        voter.connected
        && is_active target
        && not (voter.id == target.id)
        && not (has voter_id m.votes)
        && (is_empty m.runoff_targets || contains target_id m.runoff_targets)
  ]
]

unfoldable pub submit_vote : Match → Text → Text → ℕ → Match
unfolding can_vote is_vote_phase
submit_vote m voter_id target_id now =
    if is_vote_phase m.phase && can_vote m voter_id target_id
    then record m { votes = set voter_id target_id m.votes; updated_at = now }
    else m

-- An object with a count of zero for each id.
unfoldable pub zeros : List Text → Map Text ℕ
zeros [] = []
zeros (id ∷ ids) = (id, 0) ∷ zeros ids

unfoldable pub count_vote : Text → Map Text ℕ → Map Text ℕ
count_vote id [] = []
count_vote id ((j, n) ∷ m) =
    let rest = count_vote id m in if j == id then (j, n + 1) ∷ m else (j, n) ∷ rest

unfoldable pub count_votes : List Text → Map Text ℕ → Map Text ℕ
unfolding count_vote
count_votes [] tally = tally
count_votes (id ∷ ids) tally = count_votes ids (count_vote id tally)

abbrev pub ids_of : List Player → List Text
ids_of [] = []
ids_of (p ∷ ps) = p.id ∷ ids_of ps

unfoldable pub tally_votes : Match → Map Text ℕ
unfolding zeros count_votes
tally_votes m = count_votes (values m.votes) (zeros (ids_of (active_players m)))

abbrev pub highest : Map Text ℕ → ℕ
highest [] = 0
highest ((id, n) ∷ m) = max n (highest m)

-- The ids with the count, in the order of the tally.
abbrev pub with_count : ℕ → Map Text ℕ → List Text
with_count n [] = []
with_count n ((id, k) ∷ m) = let rest = with_count n m in if k == n then id ∷ rest else rest

abbrev pub leaders_of : Map Text ℕ → List Text
leaders_of tally = with_count (highest tally) tally

-- The targets of the votes that active players cast.
unfoldable pub active_targets : Match → Map Text Text → List Text
unfolding player_for
active_targets m [] = []
active_targets m ((voter, target) ∷ votes) =
    let rest = active_targets m votes in
    elim (player_for m voter) [ none ↦ rest | some p ↦ if is_active p then target ∷ rest else rest ]

abbrev pub or_list : List Text → List Text → List Text
or_list [] ys = ys
or_list (x ∷ xs) ys = x ∷ xs

-- The leader of a tied runoff that the seed picks; `none` if there is none.
unfoldable pub tie_break : Match → List Text → Option Text
unfolding active_targets zeros count_votes
tie_break m leaders =
    let counts = count_votes (active_targets m m.votes) (zeros leaders) in
    let tied = or_list (leaders_of counts) leaders in
    get_elem? tied ((m.tie_break_seed + m.tie_break_count) % length tied)

unfoldable pub voters_for : Text → Map Text Text → List Text
voters_for id [] = []
voters_for id ((voter, target) ∷ votes) =
    let rest = voters_for id votes in if target == id then voter ∷ rest else rest

abbrev pub reward : Player → Player
reward p = record p { gold = p.gold + 2; correct_votes = p.correct_votes + 1 }

-- `Math.max(0, gold - 2)`
abbrev pub penalize : Player → Player
penalize p = record p { gold = p.gold - 2; wrongful_votes = p.wrongful_votes + 1 }

unfoldable pub update_each : (Player → Player) → List Text → List Player → List Player
unfolding update_player
update_each f [] ps = ps
update_each f (id ∷ ids) ps = update_each f ids (update_player id f ps)

unfoldable pub action_summary : Match → Text → Resolved
action_summary m id =
    or_else (get? id m.resolved_actions)
      (record { resolved_type = resolved_pass; requested = 0; actual_stolen = 0 })

abbrev pub is_steal : ResolvedType → Bool
is_steal resolved_steal = true
is_steal _ = false

unfoldable pub fine_for : Player → Resolved → ℕ
fine_for p r = min p.gold (min r.actual_stolen ((r.actual_stolen + 1) / 2))

-- The players after the verdict on the selected one.
unfoldable pub after_verdict : Bool → ℕ → Text → List Text → List Player → List Player
unfolding update_each
after_verdict true fine id voters ps =
    update_each reward voters
      (update_player id (λ (p : Player). record p { gold = p.gold - fine }) ps)
after_verdict false fine id voters ps =
    update_player id (λ (p : Player). record p { gold = p.gold + 5 })
      (update_each penalize voters ps)

abbrev pub convict : Player → Player
convict p = record p { status = jury }

-- The verdict on the selected player, who leaves the active ones.
unfoldable pub with_verdict : Match → Map Text ℕ → Bool → Text → Player → ℕ → Match
unfolding action_summary voters_for fine_for after_verdict vote_result_phase_for update_player
with_verdict m tally tied id selected now =
    let action = action_summary m id in
    let correct = is_steal action.resolved_type in
    let fine = if correct then fine_for selected action else 0 in
    let players = after_verdict correct fine id (voters_for id m.votes) m.players in
    let result : VoteResult = record {
      tally = tally;
      selected_id = id;
      selected_action = action;
      correct = correct;
      fine = fine;
      random_tie_break = not (is_empty m.runoff_targets) && tied;
    } in
    record m {
      players = update_player id convict players;
      vault_gold = m.vault_gold + fine;
      last_vote_result = some result;
      history = m.history ++ ((m.cycle_number, vote_result id action correct fine tally) ∷ []);
      phase = vote_result_phase_for m;
      updated_at = now;
    }

unfoldable pub judge : Match → Map Text ℕ → Bool → Text → ℕ → Option Match
unfolding with_verdict player_for
judge m tally tied id now =
    player_for m id >>= λ selected. some (with_verdict m tally tied id selected now)

unfoldable pub begin_runoff : Match → List Text → ℕ → Match
begin_runoff m leaders now = record m {
  runoff_targets = leaders;
  votes = [];
  phase = by_cycle m.cycle_type hidden_runoff_vote show_runoff_vote;
  updated_at = now;
}

abbrev pub only : List Text → Option Text
only (x ∷ []) = some x
only _ = none

-- `none` is the throw where nobody can be selected.
unfoldable pub resolve_vote : Match → ℕ → Option Match
unfolding judge begin_runoff tie_break tally_votes is_vote_phase
resolve_vote m now =
    let tally = tally_votes m in
    let leaders = leaders_of tally in
    if not (is_vote_phase m.phase) then some m else elim (only leaders) [
      | some id ↦ judge m tally false id now
      | none ↦
          if is_empty m.runoff_targets
          then some (begin_runoff m leaders now)
          else tie_break m leaders >>= λ id.
              judge (record m { tie_break_count = m.tie_break_count + 1 }) tally true id now
    ]
