-- ===== src/Echo/Played.antt =====
-- A match of echo-duel from its creation on, whatever happens.
use factory_network_server.Prelude.{
  not, ◌&&◌, nat_eq, length, ℕ, ◌+◌, ◌≡◌, refl, true, false, Option, none, some, List, [], ◌∷◌,
  arith, all, get_elem?, Option-cases, inl, inr, or_else, leb, ltb,
}
use factory_network_server.Prelude.Texts.{text_eq, Text, Text_eq}
use factory_network_server.State.{Lobby}
use factory_network_server.Echo.State.{
  active_players, Phase, owner_create_initial, owner_replay, owner_append, signal_playback,
  challenger_copy, match_over, Match, Timer, Playback, find_player_index, next_active_index,
  create_players, create_match_state,
}
use factory_network_server.Echo.Turns.{unresolved, update_at, mark_challenger_result}
use factory_network_server.Echo.Moves.{is_copy_phase, Meta, apply_input, copying_ids}
use factory_network_server.Echo.Clock.{
  fail_all, run_out, after_timer, advance_in, advance_to_time, without_player, disconnect_player,
  close_match, disconnect_found, apply_disconnect, is_over,
}
use factory_network_server.Echo.Bounded.{
  spells, IsBounded, length-update_at, spelled-update_at, below-next_active_index,
  players-IsBounded, begin_control-IsBounded, finish_signal_playback-IsBounded,
}
use factory_network_server.Echo.Kept.{
  IsBounded-if, IsBounded-core, finish_copy_phase-IsBounded, mark_challenger_result-IsBounded,
}
use factory_network_server.Echo.Moved.{apply_input-IsBounded}

module _ (now : ℕ) where
  fail_all-IsBounded : (ids : List Text) (m : Match) → IsBounded m → IsBounded (fail_all ids now m)
  unfolding fail_all
  fail_all-IsBounded [] m v = v
  fail_all-IsBounded (id ∷ ids) m v =
      let k = mark_challenger_result-IsBounded id false now m v in
      IsBounded-if _ _ _ k (fail_all-IsBounded ids (mark_challenger_result id false now m) k)

  run_out-IsBounded : (phase : Phase) (m : Match) → IsBounded m → IsBounded (run_out phase now m)
  unfolding run_out
  run_out-IsBounded owner_create_initial m v = v
  run_out-IsBounded owner_replay m v =
      begin_control-IsBounded _ m v (below-next_active_index m m.owner_index)
  run_out-IsBounded owner_append m v =
      begin_control-IsBounded _ m v (below-next_active_index m m.owner_index)
  run_out-IsBounded signal_playback m v = v
  run_out-IsBounded challenger_copy m v = fail_all-IsBounded (copying_ids m.copy_progress) m v
  run_out-IsBounded match_over m v = v

  after_timer-IsBounded :
      (timer : Option Timer) (m : Match) → IsBounded m → IsBounded (after_timer timer now m)
  unfolding after_timer
  after_timer-IsBounded none m v = v
  after_timer-IsBounded (some timer) m v =
      IsBounded-if (ltb now timer.ends_at) _ _ v (run_out-IsBounded m.phase m v)

  advance_in-IsBounded :
      (phase : Phase) (playback : Option Playback) (m : Match)
      → IsBounded m
      → IsBounded (advance_in phase playback now m)
  unfolding advance_in
  advance_in-IsBounded owner_create_initial p m v = after_timer-IsBounded m.timer m v
  advance_in-IsBounded owner_replay p m v = after_timer-IsBounded m.timer m v
  advance_in-IsBounded owner_append p m v = after_timer-IsBounded m.timer m v
  advance_in-IsBounded signal_playback none m v = after_timer-IsBounded m.timer m v
  advance_in-IsBounded signal_playback (some p) m v =
      IsBounded-if (leb p.ends_at now) _ _ (finish_signal_playback-IsBounded now m v) v
  advance_in-IsBounded challenger_copy p m v = after_timer-IsBounded m.timer m v
  advance_in-IsBounded match_over p m v = after_timer-IsBounded m.timer m v

  advance_to_time-IsBounded : (m : Match) → IsBounded m → IsBounded (advance_to_time now m)
  unfolding advance_to_time
  advance_to_time-IsBounded m v = advance_in-IsBounded m.phase m.playback m v

  without_player-IsBounded :
      (index : ℕ) (client : Text) (m : Match)
      → IsBounded m
      → IsBounded (without_player index client m)
  unfolding without_player
  without_player-IsBounded index client m v =
      IsBounded-core (record m { players = update_at index _ m.players }) _ refl
        (players-IsBounded m _ v (length-update_at index _ m.players)
          (spelled-update_at m.penalty_word index _ m.players (λ p h. h) v.spelled))

  disconnect_player-IsBounded :
      (index : ℕ) (client : Text) (m : Match)
      → IsBounded m
      → IsBounded (disconnect_player index client now m)
  unfolding disconnect_player
  disconnect_player-IsBounded index client m v =
      let next = without_player index client m in
      let k = without_player-IsBounded index client m v in
      IsBounded-if (leb (length (active_players next)) 1) _ _ (IsBounded-core next _ refl k) (
        IsBounded-if (nat_eq index m.owner_index) _ _
          (begin_control-IsBounded (some (or_else (next_active_index next index) 0)) next k
            (ground (arith, below-next_active_index next index)))
          (IsBounded-if (is_copy_phase m.phase && not (unresolved next)) _ _
            (finish_copy_phase-IsBounded now next k) k))

  disconnect_found-IsBounded :
      (index : Option ℕ) (client : Text) (m : Match)
      → IsBounded m
      → IsBounded (disconnect_found index client now m)
  unfolding disconnect_found close_match
  disconnect_found-IsBounded none client m v = v
  disconnect_found-IsBounded (some index) client m v =
      elim (Option-cases (get_elem? m.players index)) [
        | inl e ↦ rw (e, disconnect_found) v
        | inr (leaving, e) ↦
            rw (e, disconnect_found)
              (IsBounded-if leaving.eliminated _ _ v (
                IsBounded-if (leb (length (active_players m)) 2) (close_match m) _
                  (IsBounded-core m (close_match m) refl v)
                  (disconnect_player-IsBounded index client m v)))
      ]

  apply_disconnect-IsBounded :
      (client : Text) (m : Match) → IsBounded m → IsBounded (apply_disconnect client now m)
  unfolding apply_disconnect
  apply_disconnect-IsBounded client m v =
      IsBounded-if (is_over m.phase) _ _ v
        (disconnect_found-IsBounded (find_player_index client m) client m v)

  create_players_spelled :
      {G : Type 0} (word : Text) (lobby : Lobby G) (index : ℕ) (members : List Text)
      → all (spells word) (create_players lobby index members) ≡ true
  unfolding create_players text_eq
  create_players_spelled word lobby index [] = refl
  create_players_spelled word lobby index (c ∷ cs) =
      create_players_spelled word lobby (index + 1) cs

  create_match_state-IsBounded :
      {G : Type 0} (lobby : Lobby G) → IsBounded (create_match_state lobby now)
  unfolding create_match_state
  create_match_state-IsBounded lobby = record {
    sequence = omega arith;
    draft = omega arith;
    target = omega arith;
    owner = ground arith;
    spelled = create_players_spelled _ lobby 0 lobby.members;
  }

-- What a match may become by inputs, time and lost players.
pub data Becomes (m : Match) : Match → Type 0 where
  unchanged : Becomes m m
  by_input :
      {n : Match} (client raw : Text) (meta : Option Meta) (now : ℕ)
      → Becomes m n
      → Becomes m (apply_input client raw meta now n)
  by_time : {n : Match} (now : ℕ) → Becomes m n → Becomes m (advance_to_time now n)
  by_loss :
      {n : Match} (client : Text) (now : ℕ)
      → Becomes m n
      → Becomes m (apply_disconnect client now n)

Becomes-IsBounded : (m n : Match) → Becomes m n → IsBounded m → IsBounded n
Becomes-IsBounded m _ unchanged v = v
Becomes-IsBounded m _ (by_input client raw meta now b) v =
    apply_input-IsBounded now client raw meta _ (Becomes-IsBounded m _ b v)
Becomes-IsBounded m _ (by_time now b) v =
    advance_to_time-IsBounded now _ (Becomes-IsBounded m _ b v)
Becomes-IsBounded m _ (by_loss client now b) v =
    apply_disconnect-IsBounded now client _ (Becomes-IsBounded m _ b v)

-- In every match of echo-duel that becomes of a new one by inputs, time and lost players, a pattern
-- has at most ten inputs, its target is at most ten, the owner's draft has fewer than four, the
-- owner's index names a player if there are any, and each player's letters are the first ones of
-- the penalty word.
pub create_match_state-Becomes :
    {G : Type 0} (lobby : Lobby G) (now : ℕ) (m : Match)
    → Becomes (create_match_state lobby now) m
    → IsBounded m
create_match_state-Becomes lobby now m b =
    Becomes-IsBounded (create_match_state lobby now) m b (create_match_state-IsBounded now lobby)
