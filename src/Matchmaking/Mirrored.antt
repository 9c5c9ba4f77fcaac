-- ===== src/Matchmaking/Mirrored.antt =====
-- The side that src/matchmaking.mjs assigns, and the two `match_ready` messages.
use factory_network_server.Prelude.{
  ℕ, ◌+◌, ◌≤◌, ◌<◌, ◌⊎◌, length, ◌≡◌, ◌≢◌, refl, Option, none, some, [], ◌∷◌, arith, ◌==◌,
  if◌then◌else◌,
}
use factory_network_server.Prelude.Texts.{Text, Text_eq, text_eq}
use factory_network_server.Js.Values.{Json, text}
use factory_network_server.Js.Strings.{trim, trim_start, trim_end, is_space}
use factory_network_server.Matchmaking.{
  ready_pair, ready_unless_same, normalize_stored, normalize_match_side, normalize_text, is_paired,
  build_match_ready_messages, assign_side_for_strategy, symmetric_balanced, line, Queues,
  claim_queued_opponent, claim_at, get_opponent_match_side, get_match_queue_key,
}
use factory_network_server.Matchmaking.Keys.{IsSide, boy, girl, alpha, beta, p1, p2}

-- A stored side stands for itself.
pub normalize_stored_side : {s : Text} → IsSide s → normalize_stored (some s) ≡ some s
unfolding normalize_stored normalize_match_side normalize_text is_paired trim trim_start trim_end
    is_space text_eq
normalize_stored_side boy = refl
normalize_stored_side girl = refl
normalize_stored_side alpha = refl
normalize_stored_side beta = refl
normalize_stored_side p1 = refl
normalize_stored_side p2 = refl

module _ (a b : Text) (now delay seed : ℕ) (settings : Option Json) where
  -- Two players on two different sides get messages with the same seed, clock and start, each with
  -- the other's side; two on the same side get none.
  pub build_match_ready_messages_sides :
      (s t : Text)
      → IsSide s
      → IsSide t
      → build_match_ready_messages a (some s) b (some t) now delay seed settings
        ≡ (if s == t then none else some (ready_pair a s b t now (now + delay) seed settings))
  unfolding build_match_ready_messages ready_unless_same
  build_match_ready_messages_sides s t i j =
      ground (arith, normalize_stored_side i, normalize_stored_side j)

module _ (a b game : Text) (requested : Option Json) (queues : Queues) where
  abbrev waiting_at : Text → ℕ
  waiting_at side = length (line (get_match_queue_key game (some side)) queues)

  -- The side that a symmetric game assigns is the one of the two with fewer players waiting, the
  -- first where they are even.
  pub assign_side_for_strategy-shorter :
      (assign_side_for_strategy (symmetric_balanced (a ∷ b ∷ [])) game requested queues
          ≡ some (text a))
        × (waiting_at a ≤ waiting_at b)
      ⊎ (assign_side_for_strategy (symmetric_balanced (a ∷ b ∷ [])) game requested queues
          ≡ some (text b))
        × (waiting_at b < waiting_at a)
  unfolding assign_side_for_strategy
  assign_side_for_strategy-shorter = ground arith

  -- In a game that balances two opposite sides, if anybody waits on either side, the next
  -- searcher's assigned side finds an opponent in the queues.
  pub assign_side_for_strategy-claims :
      IsSide a
      → IsSide b
      → get_opponent_match_side (some a) ≡ some b
      → get_opponent_match_side (some b) ≡ some a
      → 0 < waiting_at a + waiting_at b
      → (claim_queued_opponent queues game (
          normalize_match_side
            (assign_side_for_strategy (symmetric_balanced (a ∷ b ∷ [])) game requested queues))).0
        ≢ none
  unfolding claim_queued_opponent claim_at normalize_stored
  assign_side_for_strategy-claims i j p q h =
      ground
        (arith, assign_side_for_strategy-shorter, normalize_stored_side i, normalize_stored_side j)
