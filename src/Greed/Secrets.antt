-- ===== src/Greed/Secrets.antt =====
-- What the public state of pot-of-greed keeps back.
use factory_network_server.Prelude.{
  ℕ, ◌≡◌, ◌≢◌, refl, Bool, false, List, [], ◌∷◌, map, length, filter, arith,
}
use factory_network_server.Prelude.Texts.{Text}
use factory_network_server.Prelude.Maps.{Map}
use factory_network_server.Greed.State.{
  Match, Player, Standing, Action, Resolved, Event, Phase, final_results, hidden_cycle,
}
use factory_network_server.Greed.Views.{serialize_public_state, shows_gold, public_player, is_final}

-- What everybody may know of a player: his id, his name, his standing and whether he is connected.
abbrev pub face : Player → Text × Text × Standing × Bool
face p = (p.id, p.name, p.status, p.connected)

faces_players :
    (ps qs : List Player)
    → map face ps ≡ map face qs
    → map (public_player false) ps ≡ map (public_player false) qs
faces_players [] [] h = refl
faces_players [] (q ∷ qs) h = cc
faces_players (p ∷ ps) [] h = cc
faces_players (p ∷ ps) (q ∷ qs) h =
    let one : face p ≡ face q = cc in
    let rest : map face ps ≡ map face qs = cc in rw (faces_players ps qs rest) (ground arith)

faces_connected :
    (ps qs : List Player)
    → map face ps ≡ map face qs
    → length (filter (λ (p : Player). p.connected) ps)
      ≡ length (filter (λ (p : Player). p.connected) qs)
faces_connected [] [] h = refl
faces_connected [] (q ∷ qs) h = cc
faces_connected (p ∷ ps) [] h = cc
faces_connected (p ∷ ps) (q ∷ qs) h =
    let one : face p ≡ face q = cc in
    let rest : map face ps ≡ map face qs = cc in ground (arith, faces_connected ps qs rest)

-- The match with other secrets.
abbrev pub with_secrets :
    Match
    → List Player
    → Map Text Action
    → Map Text Resolved
    → Map Text Text
    → List (ℕ × Event)
    → Match
with_secrets m players actions resolved votes history = record m {
  players = players;
  vault_actions = actions;
  resolved_actions = resolved;
  votes = votes;
  history = history;
}

is_final_of_ne : (ph : Phase) → ph ≢ final_results → is_final ph ≡ false
is_final_of_ne final_results h = absurd (h refl)
is_final_of_ne _ h = refl

hidden-shows_gold :
    (m : Match) → m.cycle_type ≡ hidden_cycle → m.phase ≢ final_results → shows_gold m ≡ false
unfolding shows_gold
hidden-shows_gold m cycle open_yet = rw cycle (is_final_of_ne m.phase open_yet)

-- In a hidden cycle of pot-of-greed, before the final results, the public state is the same
-- whatever the players' gold and stakes, their actions, their targets and the history are, if their
-- names, standing and connections and the number of votes are.
pub serialize_public_state_secrets :
    (m : Match) (players : List Player) (actions : Map Text Action) (resolved : Map Text Resolved)
    (votes : Map Text Text) (history : List (ℕ × Event))
    → m.cycle_type ≡ hidden_cycle
    → m.phase ≢ final_results
    → map face players ≡ map face m.players
    → length votes ≡ length m.votes
    → serialize_public_state (with_secrets m players actions resolved votes history)
      ≡ serialize_public_state m
unfolding serialize_public_state shows_gold
serialize_public_state_secrets m players actions resolved votes history cycle open_yet same count =
    let shown : map (public_player (shows_gold m)) players
        ≡ map (public_player (shows_gold m)) m.players =
      rw (hidden-shows_gold m cycle open_yet) (faces_players players m.players same) in
    λ i. record (serialize_public_state m) {
      players = shown i;
      submitted = count i;
      eligible = faces_connected players m.players same i;
    }
