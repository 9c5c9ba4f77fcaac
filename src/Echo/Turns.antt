-- ===== src/Echo/Turns.antt =====
-- How a turn of echo-duel goes on: the phases begin, copies end, letters are given.
use factory_network_server.Prelude.{
  ℕ, suc, ◌+◌, ◌*◌, Bool, true, false, Option, none, some, List, [], ◌∷◌, ◌++◌, if◌then◌else◌,
  length, filter, any, take, get_elem?, not, ltb, leb, nat_eq, ◌&&◌, or_else, is_some_of,
}
use factory_network_server.Prelude.Texts.{Text, Text_eq}
use factory_network_server.Prelude.Maps.{Map, get?, set, values}
use factory_network_server.Echo.State.{
  owner_create_initial, owner_replay, signal_playback, challenger_copy, match_over, fail,
  eliminated, safe, CopyStatus, copying, copy_failed, copy_safe, Player, Progress, RoundResult,
  Match, max_pattern_length, timer_for_length, active_players, find_player_index,
  first_active_index, get_owner, id_of, next_active_index, advance_phase, clear_player_results,
  set_player_result,
}

-- `players[index]` is written.
unfoldable pub update_at : ℕ → (Player → Player) → List Player → List Player
update_at n f [] = []
update_at ℕ.zero f (p ∷ ps) = f p ∷ ps
update_at (suc n) f (p ∷ ps) = p ∷ update_at n f ps

-- `penaltyWord[letters.length] || ""`
abbrev pub letter_at : Text → ℕ → Text
letter_at word n = elim (get_elem? word n) [ none ↦ [] | some c ↦ c ∷ [] ]

unfoldable pub award : Text → Player → Player
award word p =
    let letters = p.letters ++ letter_at word (length p.letters) in
    let out = leb (length word) (length letters) in
    record p {
      letters = letters;
      eliminated = out;
      last_result = some (if out then eliminated else fail);
    }

abbrev award_active : Text → Player → Player
award_active word p = if p.eliminated then p else award word p

-- `findIndex` gives -1, `none` here, where there is no such player.
unfoldable pub award_letter : Option ℕ → Match → Match
unfolding award update_at
award_letter none m = m
award_letter (some index) m = record m {
  players = update_at index (award_active m.penalty_word) m.players;
}

-- A negative index gives way to the first active one, and that to 0.
unfoldable pub begin_control : Option ℕ → Match → Match
unfolding advance_phase first_active_index
begin_control index m =
    let next = advance_phase owner_create_initial true m in
    let owner = or_else index (or_else (first_active_index m) 0) in
    record next {
      owner_index = owner;
      active_sequence = [];
      owner_draft = [];
      owner_replay_index = 0;
      append_target_length = 0;
      copy_progress = [];
      round_results = [];
      timer = none;
      playback = none;
      players = clear_player_results m.players;
    }

unfoldable pub begin_owner_replay : ℕ → Match → Match
unfolding advance_phase timer_for_length
begin_owner_replay now m = record (advance_phase owner_replay false m) {
  owner_replay_index = 0;
  owner_draft = [];
  append_target_length = 0;
  copy_progress = [];
  timer = some (timer_for_length (length m.active_sequence) now);
  playback = none;
  players = clear_player_results m.players;
}

abbrev start : Progress
start = record { index = 0; status = copying; finished_at = none }

-- The copies of the active players but the owner; the ids are different.
unfoldable pub challengers : Option Text → List Player → Map Text Progress
challengers owner [] = []
challengers owner (p ∷ ps) =
    let rest = challengers owner ps in
    if not p.eliminated && not (is_some_of owner p.id) then (p.id, start) ∷ rest else rest

unfoldable pub begin_challenger_copy : ℕ → Match → Match
unfolding advance_phase timer_for_length challengers
begin_challenger_copy now m = record (advance_phase challenger_copy false m) {
  copy_progress = challengers (id_of (get_owner m)) m.players;
  round_results = [];
  players = clear_player_results m.players;
  timer = some (timer_for_length (length m.active_sequence) now);
  playback = none;
}

unfoldable pub begin_signal_playback : ℕ → Match → Match
unfolding advance_phase
begin_signal_playback now m =
    let sequence = take max_pattern_length m.active_sequence in
    let next = advance_phase signal_playback false m in
    let total = length sequence * 570 + 700 in
    record next {
      active_sequence = sequence;
      timer = none;
      copy_progress = [];
      round_results = [];
      playback = some (record {
        turn_id = next.turn_id;
        phase_id = next.phase_id;
        sequence = sequence;
        started_at = now;
        total_ms = total;
        ends_at = now + total;
      });
    }

unfoldable pub finish_signal_playback : ℕ → Match → Match
unfolding begin_challenger_copy
finish_signal_playback now m = begin_challenger_copy now (record m { playback = none })

abbrev pub first_id : List Player → Option Text
first_id [] = none
first_id (p ∷ ps) = some p.id

unfoldable pub end_match : Match → Match
unfolding advance_phase
end_match m = record (advance_phase match_over false m) {
  winner_id = first_id (active_players m);
  timer = none;
}

-- The first of those that have finished earliest.
unfoldable pub fastest : List RoundResult → Option RoundResult
fastest [] = none
fastest (r ∷ rs) = elim (fastest rs) [
  | none ↦ some r
  | some q ↦ some (if leb r.finished_at q.finished_at then r else q)
]

unfoldable pub successful : Match → List RoundResult
successful m = filter (λ (r : RoundResult). r.is_safe) m.round_results

-- As many safe results as there are challengers, one at least.
unfoldable pub all_challengers_succeeded : Match → Bool
unfolding successful
all_challengers_succeeded m =
    ltb 0 (length m.copy_progress) && nat_eq (length (successful m)) (length m.copy_progress)

unfoldable pub owner_again : Match → Option ℕ
unfolding find_player_index
owner_again m = elim (get_owner m) [
  | none ↦ some m.owner_index
  | some owner ↦ some (or_else (find_player_index owner.id m) m.owner_index)
]

unfoldable pub index_of : Option RoundResult → Match → Option ℕ
unfolding find_player_index
index_of none m = none
index_of (some r) m = find_player_index r.player_id m

unfoldable pub next_owner : Match → Option ℕ
unfolding fastest successful index_of next_active_index
next_owner m = elim (index_of (fastest (successful m)) m) [
  | some i ↦ some i
  | none ↦ next_active_index m m.owner_index
]

unfoldable pub finish_copy_phase : ℕ → Match → Match
unfolding end_match all_challengers_succeeded begin_control owner_again next_owner
    begin_owner_replay
finish_copy_phase now m =
    if leb (length (active_players m)) 1
    then end_match m
    else (if not (all_challengers_succeeded m)
        then begin_control (owner_again m) m
        else (if leb max_pattern_length (length m.active_sequence)
            then begin_control (next_owner m) m
            else begin_owner_replay now m))

abbrev pub is_copying : CopyStatus → Bool
is_copying copying = true
is_copying _ = false

unfoldable pub unresolved : Match → Bool
unresolved m = any (λ (p : Progress). is_copying p.status) (values m.copy_progress)

-- The result is noted with the copy, the round and the player.
unfoldable pub note_result : Text → Bool → ℕ → Progress → Match → Match
unfolding award_letter find_player_index
note_result id is_safe now progress m =
    let done : Progress = record progress {
      status = if is_safe then copy_safe else copy_failed;
      finished_at = some now;
    } in
    let result : RoundResult = record { player_id = id; is_safe = is_safe; finished_at = now } in
    let noted = record m {
      copy_progress = set id done m.copy_progress;
      round_results = m.round_results ++ (result ∷ []);
    } in
    if is_safe
    then record noted { players = set_player_result id safe m.players }
    else award_letter (find_player_index id m) noted

unfoldable pub after_result : ℕ → Match → Match
unfolding end_match finish_copy_phase unresolved
after_result now m =
    if leb (length (active_players m)) 1
    then end_match m
    else (if unresolved m then m else finish_copy_phase now m)

unfoldable pub mark_challenger_result : Text → Bool → ℕ → Match → Match
unfolding note_result after_result
mark_challenger_result id is_safe now m = elim (get? id m.copy_progress) [
  | none ↦ m
  | some progress ↦
      if is_copying progress.status
      then after_result now (note_result id is_safe now progress m)
      else m
]
