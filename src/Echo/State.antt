-- ===== src/Echo/State.antt =====
-- The match of echo-duel, its clocks and its places.
use factory_network_server.Prelude.{
  ℕ, zero, suc, ◌+◌, ◌-◌, ◌*◌, ◌%◌, Bool, false, Option, none, some, List, [], ◌∷◌, ◌++◌, map,
  if◌then◌else◌, length, filter, get_elem?, min, max, not, ◌==◌, ltb, nat_eq,
}
use factory_network_server.Prelude.Texts.{Text, codes, Text_eq}
use factory_network_server.Prelude.Maps.{Map, get?}
use factory_network_server.Js.Values.{text}
use factory_network_server.Util.{Identity, sanitize_display_name, sanitize_penalty_word, or_text}
use factory_network_server.State.{Lobby}
use factory_network_server.LobbyBus.{decimal}

pub data Input : Type 0 where
  key_w key_a key_s key_d : Input

pub data Phase : Type 0 where
  owner_create_initial owner_replay owner_append signal_playback challenger_copy match_over : Phase

-- `lastResult` of a player, and the status of a copy: "copying", "fail" or "safe".
pub data Result : Type 0 where
  fail eliminated safe owner_fail disconnected : Result

pub data CopyStatus : Type 0 where
  copying copy_failed copy_safe : CopyStatus

-- The id is the client's id.
pub record Player : Type 0 where
  pub id : Text
  pub name : Text
  pub letters : Text
  pub eliminated : Bool
  pub last_result : Option Result

pub record Progress : Type 0 where
  pub index : ℕ
  pub status : CopyStatus
  pub finished_at : Option ℕ

pub record RoundResult : Type 0 where
  pub player_id : Text
  pub is_safe : Bool
  pub finished_at : ℕ

pub record Timer : Type 0 where
  pub started_at : ℕ
  pub duration_ms : ℕ
  pub ends_at : ℕ

-- The turn, the phase and the sequence make up the id.
pub record Playback : Type 0 where
  pub turn_id : ℕ
  pub phase_id : ℕ
  pub sequence : List Input
  pub started_at : ℕ
  pub total_ms : ℕ
  pub ends_at : ℕ

-- Of the settings, the penalty word differs from lobby to lobby; the others are the constants below.
pub record Match : Type 0 where
  pub phase : Phase
  pub turn_id : ℕ
  pub phase_id : ℕ
  pub penalty_word : Text
  pub player_count : ℕ
  pub players : List Player
  pub owner_index : ℕ
  pub active_sequence : List Input
  pub owner_replay_index : ℕ
  pub owner_draft : List Input
  pub append_target_length : ℕ
  pub copy_progress : Map Text Progress
  pub round_results : List RoundResult
  pub winner_id : Option Text
  pub timer : Option Timer
  pub playback : Option Playback
  -- The last id of an input that each client has sent: its floor and the part behind it.
  pub input_cursor : Map Text (ℕ × ℕ)
  pub created_at : ℕ

abbrev pub starting_pattern_length : ℕ
starting_pattern_length = 4

abbrev pub pattern_append_count : ℕ
pattern_append_count = 2

abbrev pub max_pattern_length : ℕ
max_pattern_length = 10

-- `echoTimerForLength`: a second and a quarter for each input, between 6 and 13 seconds.
unfoldable pub timer_for_length : ℕ → ℕ → Timer
timer_for_length n now =
    let duration = max 6000 (min 13000 (1250 * n)) in
    record { started_at = now; duration_ms = duration; ends_at = now + duration }

abbrev pub is_active : Player → Bool
is_active p = not p.eliminated

abbrev pub active_players : Match → List Player
active_players m = filter is_active m.players

-- `players.findIndex(test)`
unfoldable pub find_index : (Player → Bool) → List Player → Option ℕ
find_index test [] = none
find_index test (p ∷ ps) =
    let rest = find_index test ps in
    if test p then some 0 else elim rest [ none ↦ none | some i ↦ some (suc i) ]

unfoldable pub find_player_index : Text → Match → Option ℕ
unfolding find_index
find_player_index client m = find_index (λ (p : Player). p.id == client) m.players

unfoldable pub first_active_index : Match → Option ℕ
unfolding find_index
first_active_index m = find_index is_active m.players

abbrev pub get_owner : Match → Option Player
get_owner m = get_elem? m.players m.owner_index

-- `owner?.id`
abbrev pub id_of : Option Player → Option Text
id_of none = none
id_of (some p) = some p.id

abbrev pub is_out : Option Player → Bool
is_out none = false
is_out (some p) = p.eliminated

-- The loop over the offsets; the first number says how many are left.
unfoldable pub search_active : ℕ → ℕ → List Player → Option ℕ
search_active zero index players = none
search_active (suc left) index players =
    let later = search_active left ((index + 1) % length players) players in
    if is_out (get_elem? players index) then later else some index

unfoldable pub next_active_index : Match → ℕ → Option ℕ
unfolding search_active
next_active_index m from =
    if nat_eq (length (active_players m)) 0
    then none
    else search_active (length m.players) ((from + 1) % length m.players) m.players

abbrev pub next_turn : Bool → ℕ → ℕ
next_turn new_turn turn = if new_turn then turn + 1 else turn

unfoldable pub advance_phase : Phase → Bool → Match → Match
advance_phase phase new_turn m = record m {
  phase = phase;
  phase_id = m.phase_id + 1;
  turn_id = next_turn new_turn m.turn_id;
}

unfoldable pub append_target_length : Match → ℕ
append_target_length m =
    let current = length m.active_sequence in
    min (max current max_pattern_length) (current + max 1 pattern_append_count)

-- `match.appendTargetLength || echoAppendTargetLength(match)`, less what is there.
unfoldable pub remaining_append_inputs : Match → ℕ
unfolding append_target_length
remaining_append_inputs m =
    let target =
      if nat_eq m.append_target_length 0 then append_target_length m else m.append_target_length in
    target - length m.active_sequence

abbrev pub clear_player_results : List Player → List Player
clear_player_results ps = map (λ (p : Player). record p { last_result = none }) ps

abbrev pub set_result : Text → Result → Player → Player
set_result id result p = if p.id == id then record p { last_result = some result } else p

abbrev pub set_player_result : Text → Result → List Player → List Player
set_player_result id result ps = map (set_result id result) ps

abbrev pub named : Option Identity → Text → Text
named none fallback = sanitize_display_name none fallback
named (some i) fallback = sanitize_display_name (some (text i.display_name)) fallback

unfoldable pub create_players : {G : Type 0} → Lobby G → ℕ → List Text → List Player
create_players lobby index [] = []
create_players lobby index (c ∷ cs) =
    record {
      id = c;
      name = named (get? c lobby.member_profiles) (codes "Player " ++ decimal (index + 1));
      letters = [];
      eliminated = false;
      last_result = none;
    }
    ∷ create_players lobby (index + 1) cs

-- `Number(lobby.seed)`, 0 where there is none.
abbrev pub seed_of : Option ℕ → ℕ
seed_of none = 0
seed_of (some seed) = seed

unfoldable pub create_match_state : {G : Type 0} → Lobby G → ℕ → Match
unfolding create_players
create_match_state lobby now =
    let players = create_players lobby 0 lobby.members in
    let n = length players in
    record {
      phase = owner_create_initial;
      turn_id = 1;
      phase_id = 1;
      penalty_word =
          sanitize_penalty_word
            (some (text (or_text lobby.settings.penalty_word (codes "STATIC"))));
      player_count = length lobby.members;
      players = players;
      owner_index = if ltb 0 n then seed_of lobby.seed % n else 0;
      active_sequence = [];
      owner_replay_index = 0;
      owner_draft = [];
      append_target_length = 0;
      copy_progress = [];
      round_results = [];
      winner_id = none;
      timer = none;
      playback = none;
      input_cursor = [];
      created_at = now;
    }
