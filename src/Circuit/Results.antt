-- ===== src/Circuit/Results.antt =====
-- games/circuit-siege/shared/match-results.mjs
use factory_network_server.Prelude.{Option, none, some}
use factory_network_server.Prelude.Texts.{Text, codes}
use factory_network_server.Circuit.State.{Side}

pub data Outcome : Type 0 where
  win draw : Outcome

pub data Reason : Type 0 where
  by_score by_timer by_disconnect : Reason

pub record MatchResult : Type 0 where
  pub outcome : Outcome
  pub reason : Reason
  pub winner_side : Option Side
  pub loser_side : Option Side
  pub message : Option Text

unfoldable pub won : Reason → Side → Side → Option Text → MatchResult
won why winner loser message = record {
  outcome = win;
  reason = why;
  winner_side = some winner;
  loser_side = some loser;
  message = message;
}

unfoldable pub create_score_win_result : Side → Side → MatchResult
unfolding won
create_score_win_result winner loser = won by_score winner loser none

unfoldable pub create_timer_draw_result : MatchResult
create_timer_draw_result = record {
  outcome = draw;
  reason = by_timer;
  winner_side = none;
  loser_side = none;
  message = none;
}

unfoldable pub create_timer_win_result : Side → Side → MatchResult
unfolding won
create_timer_win_result winner loser = won by_timer winner loser none

-- `none` for a message that is left out
unfoldable pub create_disconnect_win_result : Side → Side → Option Text → MatchResult
unfolding won
create_disconnect_win_result winner loser none =
    won by_disconnect winner loser (some (codes "opponent disconnected"))
create_disconnect_win_result winner loser (some message) =
    won by_disconnect winner loser (some message)
