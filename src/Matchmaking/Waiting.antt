-- ===== src/Matchmaking/Waiting.antt =====
-- How often a client waits in the queues of src/matchmaking.mjs.
use factory_network_server.Prelude.{
  ℕ, ◌+◌, ◌-◌, ◌≤◌, ◌≡◌, ◌≢◌, refl, ap, true, false, Option, none, some, List, [], ◌∷◌, ◌++◌,
  if◌then◌else◌, arith, ◌==◌, eq_iff, eq_refl, contains, count, count-append,
}
use factory_network_server.Prelude.Texts.{Text, Text_eq}
use factory_network_server.Prelude.Maps.{get?, set, erase}
use factory_network_server.Matchmaking.{
  Queues, line, leave_queue, keep_queue, remove_first, claim_queued_opponent, claim_at, shift_queue,
  enqueue_match_client, get_match_queue_key, get_opponent_match_side,
}

-- In how many places of the queues the client waits.
abbrev pub waiting : Text → Queues → ℕ
waiting client [] = 0
waiting client ((key, queue) ∷ queues) = count client queue + waiting client queues

pub count-contains : (a : Text) (q : List Text) → contains a q ≡ false → count a q ≡ 0
unfolding contains count
count-contains a [] h = refl
count-contains a (x ∷ q) h = ground (arith, count-contains a q)

count-remove_first :
    (a b : Text) (q : List Text)
    → contains b q ≡ true
    → count a (remove_first b q) + (if b == a then 1 else 0) ≡ count a q
unfolding contains count remove_first
count-remove_first a b [] h = cc
count-remove_first a b (x ∷ q) h =
    ground (arith, eq_iff x b, eq_iff x a, eq_iff b a, count-remove_first a b q)

waiting-keep_queue :
    (a key : Text) (q : List Text) (qs : Queues)
    → waiting a (keep_queue key q qs) ≡ count a q + waiting a qs
unfolding keep_queue count
waiting-keep_queue a key [] qs = omega arith
waiting-keep_queue a key (x ∷ q) qs = refl

-- Leaving takes one place of the client, if there is one, and nobody else's.
pub waiting-leave_queue :
    (a b : Text) (qs : Queues)
    → waiting a (leave_queue b qs).1 ≡ waiting a qs - (if b == a then 1 else 0)
unfolding leave_queue
waiting-leave_queue a b [] = omega arith
waiting-leave_queue a b ((key, q) ∷ qs) = ground (
  arith,
  eq_iff b a,
  count-contains a q,
  count-remove_first a b q,
  waiting-keep_queue a key (remove_first b q) qs,
  waiting-leave_queue a b qs,
)

waiting-set :
    (a key : Text) (q : List Text) (qs : Queues)
    → waiting a (set key q qs) + count a (line key qs) ≡ waiting a qs + count a q
unfolding set get? count
waiting-set a key q [] = omega arith
waiting-set a key q ((k, r) ∷ qs) = ground (arith, waiting-set a key q qs)

waiting-erase :
    (a key : Text) (qs : Queues) → waiting a (erase key qs) + count a (line key qs) ≤ waiting a qs
unfolding erase get? count
waiting-erase a key [] = omega arith
waiting-erase a key ((k, r) ∷ qs) = ground (arith, waiting-erase a key qs)

-- Enqueuing gives the client one place more.
pub waiting-enqueue_match_client :
    (a client game : Text) (side : Option Text) (qs : Queues)
    → waiting a (enqueue_match_client qs game side client)
      ≡ waiting a qs + (if client == a then 1 else 0)
unfolding enqueue_match_client count
waiting-enqueue_match_client a client game side qs =
    let key = get_match_queue_key game side in
    ground (
      arith,
      waiting-set a key (line key qs ++ client ∷ []) qs,
      count-append a (line key qs) (client ∷ []),
    )

waiting-shift_queue :
    (a key : Text) (rest : List Text) (qs : Queues)
    → waiting a (shift_queue key rest qs) + count a (line key qs) ≤ waiting a qs + count a rest
unfolding shift_queue count
waiting-shift_queue a key [] qs = omega (arith, waiting-erase a key qs)
waiting-shift_queue a key (x ∷ rest) qs = omega (arith, waiting-set a key (x ∷ rest) qs)

waiting-claim_at :
    (a key : Text) (q : List Text) (qs : Queues) {o : Text}
    → line key qs ≡ q
    → (claim_at key q qs).0 ≡ some o
    → waiting a (claim_at key q qs).1 + (if o == a then 1 else 0) ≤ waiting a qs
unfolding claim_at count
waiting-claim_at a key [] qs e h = cc
waiting-claim_at a key (x ∷ rest) qs e h =
    ground (arith, waiting-shift_queue a key rest qs, ap (count a) e)

-- A claim takes a place of the opponent, and gives nobody a new one.
pub waiting-claim_queued_opponent :
    (a game : Text) (side : Option Text) (qs : Queues) {o : Text}
    → (claim_queued_opponent qs game side).0 ≡ some o
    → waiting a (claim_queued_opponent qs game side).1 + (if o == a then 1 else 0) ≤ waiting a qs
unfolding claim_queued_opponent
waiting-claim_queued_opponent a game side qs h =
    let key = get_match_queue_key game (get_opponent_match_side side) in
    waiting-claim_at a key (line key qs) qs refl h

claim_at-none :
    (key : Text) (q : List Text) (qs : Queues)
    → (claim_at key q qs).0 ≡ none
    → (claim_at key q qs).1 ≡ qs
unfolding claim_at
claim_at-none key [] qs h = refl
claim_at-none key (x ∷ q) qs h = cc

-- A claim that finds nobody leaves the queues as they are.
pub claim_queued_opponent-none :
    (game : Text) (side : Option Text) (qs : Queues)
    → (claim_queued_opponent qs game side).0 ≡ none
    → (claim_queued_opponent qs game side).1 ≡ qs
unfolding claim_queued_opponent
claim_queued_opponent-none game side qs h = claim_at-none _ _ qs h

-- No client waits in two places.
pub record IsSingle (qs : Queues) : Type 0 where
  pub once : (a : Text) → waiting a qs ≤ 1

pub leave_queue-IsSingle : (c : Text) (qs : Queues) → IsSingle qs → IsSingle (leave_queue c qs).1
leave_queue-IsSingle c qs v = record {
  once = λ a. omega (arith, v.once a, waiting-leave_queue a c qs);
}

pub waiting-leave_queue_self :
    (c : Text) (qs : Queues) → IsSingle qs → waiting c (leave_queue c qs).1 ≡ 0
waiting-leave_queue_self c qs v = ground (arith, v.once c, waiting-leave_queue c c qs, eq_refl c)

-- If no client stands twice in the queues, a client who first leaves them and then claims an
-- opponent never gets himself.
pub claim-leave_ne :
    (c game : Text) (side : Option Text) (qs : Queues) {o : Text}
    → IsSingle qs
    → (claim_queued_opponent (leave_queue c qs).1 game side).0 ≡ some o
    → o ≢ c
claim-leave_ne c game side qs {o} v h same = ground (
  arith,
  waiting-leave_queue_self c qs v,
  waiting-claim_queued_opponent c game side (leave_queue c qs).1 h,
  eq_iff o c,
)

pub claim-IsSingle :
    (game : Text) (side : Option Text) (qs : Queues) {o : Text}
    → IsSingle qs
    → (claim_queued_opponent qs game side).0 ≡ some o
    → IsSingle (claim_queued_opponent qs game side).1
claim-IsSingle game side qs v h = record {
  once = λ a. omega (arith, v.once a, waiting-claim_queued_opponent a game side qs h);
}

-- Whoever is not waiting may enqueue.
pub enqueue-IsSingle :
    (c game : Text) (side : Option Text) (qs : Queues)
    → IsSingle qs
    → waiting c qs ≡ 0
    → IsSingle (enqueue_match_client qs game side c)
enqueue-IsSingle c game side qs v h = record {
  once = λ a. ground (arith, v.once a, waiting-enqueue_match_client a c game side qs, eq_iff c a);
}
