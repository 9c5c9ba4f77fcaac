-- ===== src/Tests/Echoes.antt =====
-- Matches of echo-duel.
use factory_network_server.Prelude.{◌≡◌, refl, true, false, none, some, List, [], ◌∷◌, arith}
use factory_network_server.Prelude.Texts.{Text, codes, Text_eq, text_eq}
use factory_network_server.Prelude.Maps.{get?, set, erase}
use factory_network_server.Js.Strings.{to_upper, upper_unit}
use factory_network_server.Echo.State.{
  Input, key_w, Player, Progress, Match, challenger_copy, copying, disconnected, find_player_index,
  find_index, create_match_state,
}
use factory_network_server.Echo.Turns.{
  finish_copy_phase, note_result, mark_challenger_result, after_result, unresolved, award_letter,
  award, update_at, successful, all_challengers_succeeded, fastest,
}
use factory_network_server.Echo.Moves.{
  apply_input, read_input, is_current, is_repeated, actor_of, actor_index_for_phase, act_if_active,
  act, copy_input, remember_input,
}
use factory_network_server.Echo.Clock.{
  apply_disconnect, advance_to_time, disconnect_found, disconnect_player, without_player,
}
use factory_network_server.Echo.Bounded.{IsBounded}
use factory_network_server.Echo.Played.{unchanged, by_input, create_match_state-Becomes}
use factory_network_server.Echo.Stuck.{finish_copy_phase_stuck}
use factory_network_server.Tests.Rooms.{p1, p2}
use factory_network_server.Tests.Served.{p3}
use factory_network_server.Tests.Lobbies.{lobby_of}

create_match_state-Becomes_example : IsBounded (
    apply_input
      (codes "c1")
      (codes "w")
      none
      20
      (create_match_state (lobby_of (codes "AAAAA") 9) 10))
create_match_state-Becomes_example =
    create_match_state-Becomes (lobby_of (codes "AAAAA") 9) 10 _
      (by_input (codes "c1") (codes "w") none 20 unchanged)

abbrev p4 : Text
p4 = codes "p4"

abbrev player : Text → Player
player id = record { id = id; name = id; letters = []; eliminated = false; last_result = none }

-- All but the last of ten inputs is copied.
abbrev almost : Progress
almost = record { index = 9; status = copying; finished_at = none }

abbrev w10 : List Input
w10 = key_w ∷ key_w ∷ key_w ∷ key_w ∷ key_w ∷ key_w ∷ key_w ∷ key_w ∷ key_w ∷ key_w ∷ []

abbrev longest : Match
longest = record {
  phase = challenger_copy;
  turn_id = 3;
  phase_id = 9;
  penalty_word = codes "ECHO";
  player_count = 4;
  players = player p1 ∷ player p2 ∷ player p3 ∷ player p4 ∷ [];
  owner_index = 0;
  active_sequence = w10;
  owner_replay_index = 0;
  owner_draft = [];
  append_target_length = 0;
  copy_progress = (p2, almost) ∷ (p3, almost) ∷ (p4, almost) ∷ [];
  round_results = [];
  winner_id = none;
  timer = none;
  playback = none;
  input_cursor = [];
  created_at = 0;
}

-- The second player copies it and is lost, the third one fails, and the fourth one copies it.
abbrev copied : Match
copied = note_result p4 true 300 almost (
    apply_input p3 (codes "A") none 200
      (apply_disconnect p2 150 (apply_input p2 (codes "W") none 100 longest)))

finish_copy_phase_stuck_example :
    (apply_input p1 (codes "W") none 9000 (finish_copy_phase 300 copied)
      ≡ finish_copy_phase 300 copied)
    × (advance_to_time 9000 (finish_copy_phase 300 copied) ≡ finish_copy_phase 300 copied)
unfolding text_eq get? set erase find_player_index find_index note_result mark_challenger_result
    after_result unresolved award_letter award update_at successful all_challengers_succeeded
    fastest apply_input apply_disconnect read_input to_upper upper_unit is_current is_repeated
    actor_of actor_index_for_phase act_if_active act copy_input remember_input disconnect_found
    disconnect_player without_player
finish_copy_phase_stuck_example =
    finish_copy_phase_stuck 1 (record { player_id = p2; is_safe = true; finished_at = 100 })
      (record (player p2) { eliminated = true; last_result = some disconnected }) 300 copied
      (record {
        others = omega arith;
        copied = refl;
        longest = omega arith;
        best = refl;
        index = refl;
        player = refl;
        out = refl;
      })
      p1 (codes "W") none 9000 (λ e. cc)
