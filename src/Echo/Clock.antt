-- ===== src/Echo/Clock.antt =====
-- What time and lost players do to a match of echo-duel, and what the lobby's adapter asks of it.
use factory_network_server.Prelude.{
  ℕ, Bool, true, false, Option, none, some, List, [], ◌∷◌, if◌then◌else◌, length, get_elem?, not,
  ltb, leb, nat_eq, ◌&&◌, or_else,
}
use factory_network_server.Prelude.Texts.{Text, Text_eq}
use factory_network_server.Prelude.Maps.{erase}
use factory_network_server.Echo.State.{
  Phase, owner_replay, owner_append, signal_playback, challenger_copy, match_over, disconnected,
  Player, Timer, Playback, Match, active_players, find_player_index, next_active_index,
}
use factory_network_server.Echo.Turns.{
  update_at, begin_control, finish_signal_playback, first_id, finish_copy_phase, unresolved,
  mark_challenger_result,
}
use factory_network_server.Echo.Moves.{copying_ids, is_copy_phase}

abbrev pub is_over : Phase → Bool
is_over match_over = true
is_over _ = false

-- Each that still copies fails, until the match is over.
unfoldable pub fail_all : List Text → ℕ → Match → Match
unfolding mark_challenger_result
fail_all [] now m = m
fail_all (id ∷ ids) now m =
    let next = mark_challenger_result id false now m in
    let rest = fail_all ids now next in if is_over next.phase then next else rest

unfoldable pub run_out : Phase → ℕ → Match → Match
unfolding begin_control next_active_index fail_all
run_out owner_replay now m = begin_control (next_active_index m m.owner_index) m
run_out owner_append now m = begin_control (next_active_index m m.owner_index) m
run_out challenger_copy now m = fail_all (copying_ids m.copy_progress) now m
run_out _ now m = m

unfoldable pub after_timer : Option Timer → ℕ → Match → Match
unfolding run_out
after_timer none now m = m
after_timer (some timer) now m = if ltb now timer.ends_at then m else run_out m.phase now m

unfoldable pub advance_in : Phase → Option Playback → ℕ → Match → Match
unfolding after_timer finish_signal_playback
advance_in signal_playback (some playback) now m =
    if leb playback.ends_at now then finish_signal_playback now m else m
advance_in _ playback now m = after_timer m.timer now m

unfoldable pub advance_to_time : ℕ → Match → Match
unfolding advance_in
advance_to_time now m = advance_in m.phase m.playback now m

-- The match with the player out.
unfoldable pub without_player : ℕ → Text → Match → Match
unfolding update_at
without_player index client m = record m {
  players =
      update_at index
        (λ (p : Player). record p { eliminated = true; last_result = some disconnected }) m.players;
  copy_progress = erase client m.copy_progress;
}

unfoldable pub disconnect_player : ℕ → Text → ℕ → Match → Match
unfolding without_player begin_control next_active_index finish_copy_phase unresolved
disconnect_player index client now m =
    let next = without_player index client m in
    if leb (length (active_players next)) 1
    then record next {
      phase = match_over;
      winner_id = first_id (active_players next);
      timer = none;
      playback = none;
    }
    else (if nat_eq index m.owner_index
        then begin_control (some (or_else (next_active_index next index) 0)) next
        else (if is_copy_phase m.phase && not (unresolved next)
            then finish_copy_phase now next
            else next))

unfoldable pub close_match : Match → Match
close_match m = record m { phase = match_over; winner_id = none; timer = none; playback = none }

unfoldable pub disconnect_found : Option ℕ → Text → ℕ → Match → Match
unfolding disconnect_player close_match
disconnect_found none client now m = m
disconnect_found (some index) client now m = elim (get_elem? m.players index) [
  | none ↦ m
  | some leaving ↦
      if leaving.eliminated
      then m
      else (if leb (length (active_players m)) 2
          then close_match m
          else disconnect_player index client now m)
]

unfoldable pub apply_disconnect : Text → ℕ → Match → Match
unfolding disconnect_found find_player_index
apply_disconnect client now m =
    if is_over m.phase then m else disconnect_found (find_player_index client m) client now m

abbrev timer_end : Option Timer → Option ℕ
timer_end none = none
timer_end (some timer) = some timer.ends_at

unfoldable pub deadline_in : Phase → Option Playback → Match → Option ℕ
deadline_in signal_playback (some playback) m = some playback.ends_at
deadline_in _ playback m = timer_end m.timer

-- The time that the match waits for, if any; no end is at 0.
unfoldable pub next_deadline : Match → Option ℕ
unfolding deadline_in
next_deadline m = deadline_in m.phase m.playback m

pub data MessageType : Type 0 where
  signal_message ended_message state_message : MessageType

unfoldable pub authority_message_type : Phase → MessageType
authority_message_type signal_playback = signal_message
authority_message_type match_over = ended_message
authority_message_type _ = state_message
