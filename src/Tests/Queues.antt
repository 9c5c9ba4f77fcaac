-- ===== src/Tests/Queues.antt =====
-- Concrete queues and codes.
use factory_network_server.Prelude.{
  ◌≡◌, ◌≢◌, refl, false, none, some, [], ◌∷◌, arith, ◌==◌, eq_iff, contains, count,
}
use factory_network_server.Prelude.Texts.{Text, codes, Text_eq, text_eq}
use factory_network_server.Prelude.Maps.{get?}
use factory_network_server.Matchmaking.{
  Queues, symmetric_balanced, claim_queued_opponent, claim_at, enqueue_match_client, leave_queue,
  keep_queue, remove_first, get_match_queue_key, get_opponent_match_side, normalize_match_side,
  assign_side_for_strategy, partner_in,
}
use factory_network_server.Matchmaking.Keys.{boy, girl}
use factory_network_server.Matchmaking.Waiting.{
  IsSingle, waiting-leave_queue, waiting, claim-leave_ne,
}
use factory_network_server.Matchmaking.Lines.{
  view, join_line, serve_line, claim_queued_opponent-serve_line, view-enqueue_match_client,
}
use factory_network_server.Matchmaking.Mirrored.{assign_side_for_strategy-claims}

abbrev game : Text
game = codes "echo-duel"

abbrev boys : Text
boys = codes "echo-duel:boy"

-- Two boys wait.
abbrev queues : Queues
queues = (boys, codes "p1" ∷ codes "p2" ∷ []) ∷ []

apart : (codes "p1" == codes "p2") ≡ false
unfolding text_eq
apart = refl

queues-IsSingle : IsSingle queues
unfolding count
queues-IsSingle = record {
  once = λ a. ground (
    arith,
    eq_iff (codes "p1") a,
    eq_iff (codes "p2") a,
    eq_iff (codes "p1") (codes "p2"),
    apart,
  );
}

claim-leave_ne_example : codes "p2" ≢ codes "p1"
unfolding leave_queue keep_queue remove_first claim_queued_opponent claim_at get_match_queue_key
    get_opponent_match_side partner_in text_eq get? contains
claim-leave_ne_example =
    claim-leave_ne (codes "p1") game (some (codes "girl")) queues queues-IsSingle refl

claim_queued_opponent-serve_line_example :
    ((claim_queued_opponent queues game (some (codes "girl"))).0
      ≡ (serve_line
          (get_match_queue_key game (get_opponent_match_side (some (codes "girl"))))
          (view queues)).0)
    × (view (claim_queued_opponent queues game (some (codes "girl"))).1 boys
        ≡ (serve_line
              (get_match_queue_key game (get_opponent_match_side (some (codes "girl"))))
              (view queues)).1
            boys)
claim_queued_opponent-serve_line_example =
    claim_queued_opponent-serve_line queues game (some (codes "girl")) boys

view-enqueue_match_client_example :
    view (enqueue_match_client queues game (some (codes "boy")) (codes "p3")) boys
    ≡ join_line (get_match_queue_key game (some (codes "boy"))) (codes "p3") (view queues) boys
view-enqueue_match_client_example =
    view-enqueue_match_client queues game (some (codes "boy")) (codes "p3") boys

waiting-leave_queue_example : waiting (codes "p1") (leave_queue (codes "p1") queues).1 ≡ 0
unfolding text_eq count
waiting-leave_queue_example = waiting-leave_queue (codes "p1") (codes "p1") queues

assign_side_for_strategy-claims_example :
    (claim_queued_opponent queues game (
      normalize_match_side (
        assign_side_for_strategy
          (symmetric_balanced (codes "boy" ∷ codes "girl" ∷ []))
          game
          none
          queues))).0
    ≢ none
unfolding get_opponent_match_side partner_in text_eq get_match_queue_key get?
assign_side_for_strategy-claims_example =
    assign_side_for_strategy-claims (codes "boy") (codes "girl") game none queues boy girl refl refl
      (omega arith)
