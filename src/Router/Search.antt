-- ===== src/Router/Search.antt =====
-- `find_match` of src/router.mjs, and rooms and queues together.
use mathlib.Core.Path.{subst}
use factory_network_server.Prelude.{
  ℕ, ◌≡◌, refl, sym, ap, ◌∙◌, false, Option, none, some, [], ◌∷◌, arith, ◌==◌, eq_iff, Bool-cases,
  inl, inr,
}
use factory_network_server.Prelude.Texts.{Text, Text_eq}
use factory_network_server.Prelude.Maps.{get?, set, has-get?}
use factory_network_server.Js.Values.{Json}
use factory_network_server.State.{Server, room_joined, player_joined}
use factory_network_server.Transport.{send_to_client, reply, is_taken, unique_room_code}
use factory_network_server.Transport.Codes.{unique_room_code-untaken}
use factory_network_server.Matchmaking.{
  set_client_side, claim_queued_opponent, enqueue_match_client, broadcast_queue_status, Queues,
}
use factory_network_server.Matchmaking.Waiting.{
  claim-IsSingle, waiting-claim_queued_opponent, enqueue-IsSingle, waiting-enqueue_match_client,
  claim_queued_opponent-none,
}
use factory_network_server.Games.{Registry}
use factory_network_server.Lobby.Frame.{Outside, outside}
use factory_network_server.Rooms.Joins.{outside-emit_match_ready}
use factory_network_server.Router.Matching.{
  find_match, take_side, meet_or_wait, pair_up, open_match, tell_pair,
}
use factory_network_server.Router.Orderly.{
  AreOrderly, IsOrderly, IsOrderly-outside, outside-broadcast_queue_status,
}
use factory_network_server.Router.Free.{IsFree, free_client-IsFree, open-AreOrderly}

-- A code that is not taken names no room.
pub get?-is_taken :
    {G : Type 0} (code : Text) (s : Server G) → is_taken code s ≡ false → get? code s.rooms ≡ none
unfolding is_taken
get?-is_taken code s h = ground (arith, has-get? code s.rooms)

module _ {G : Type 0} (games : Registry G) where
  outside-tell_pair :
      (opponent client code : Text) (s : Server G)
      → outside (tell_pair games opponent client code s) ≡ outside s
  unfolding tell_pair send_to_client
  outside-tell_pair opponent client code s = outside-emit_match_ready games code (
      send_to_client client (player_joined opponent code 2) (
        send_to_client opponent (player_joined client code 2) (
          send_to_client client (room_joined code 2 false)
            (send_to_client opponent (room_joined code 2 false) s))))

  -- The queues without the claimed opponent.
  abbrev claimed : Text → Option Text → Server G → Server G
  claimed game side s = record s {
    match_queues = (claim_queued_opponent s.match_queues game side).1;
  }

  claimed-IsOrderly :
      (game : Text) (side : Option Text) (s : Server G) {opponent : Text}
      → IsOrderly s
      → (claim_queued_opponent s.match_queues game side).0 ≡ some opponent
      → IsOrderly (claimed game side s)
  claimed-IsOrderly game side s v h = record {
    consistent = v.consistent;
    single = claim-IsSingle game side s.match_queues v.single h;
    idle = λ a w.
        v.idle a (omega (arith, w, waiting-claim_queued_opponent a game side s.match_queues h));
  }

  -- `t` differs from that in what lies inside lobbies and sockets only.
  pair_up-IsOrderly :
      (opponent client game : Text) (side : Option Text) (s t : Server G)
      (found : Option (Text × Server G))
      → IsFree client s
      → (claim_queued_opponent s.match_queues game side).0 ≡ some opponent
      → outside t ≡ outside (claimed game side s)
      → unique_room_code t ≡ found
      → IsOrderly (pair_up games opponent client game found t)
  unfolding pair_up open_match
  pair_up-IsOrderly opponent client game side s t none v h e f =
      IsOrderly-outside t (claimed game side s) e (claimed-IsOrderly game side s v.orderly h)
  pair_up-IsOrderly opponent client game side s t (some (code, u)) v h e f =
      let (fresh, (rest, same)) = unique_room_code-untaken t code u f in
      let new : get? code s.rooms ≡ none =
        ap (λ (o : Outside). get? code o.rooms) (sym e) ∙ get?-is_taken code t fresh in
      let opened = open_match opponent client game code u in
      let maps : AreOrderly (set code (opponent ∷ client ∷ []) u.rooms)
          (set client code (set opponent code u.client_rooms)) u.match_queues =
        subst
          (λ (w : Server G).
            AreOrderly (set code (opponent ∷ client ∷ []) w.rooms)
              (set client code (set opponent code w.client_rooms)) w.match_queues)
          (sym same)
          (subst
            (λ (o : Outside).
              AreOrderly (set code (opponent ∷ client ∷ []) o.rooms)
                (set client code (set opponent code o.client_rooms)) o.match_queues)
            (sym e)
            (open-AreOrderly opponent client code game side s.rooms s.client_rooms s.match_queues
              v.orderly v.roomless v.unqueued h new)) in
      IsOrderly-outside (tell_pair games opponent client code opened) opened
        (outside-tell_pair opponent client code opened) maps

  wait-IsOrderly :
      (client game : Text) (side : Option Text) (s : Server G)
      → IsFree client s
      → IsOrderly (record s { match_queues = enqueue_match_client s.match_queues game side client })
  wait-IsOrderly client game side s v = record {
    consistent = v.orderly.consistent;
    single = enqueue-IsSingle client game side s.match_queues v.orderly.single v.unqueued;
    idle = λ a w. elim (Bool-cases (client == a)) [
      | inl p ↦
          subst (λ (c : Text). get? c s.client_rooms ≡ none) ((eq_iff client a).0 p) v.roomless
      | inr p ↦
          v.orderly.idle a
            (ground (arith, w, waiting-enqueue_match_client a client game side s.match_queues))
    ];
  }

  meet_or_wait-IsOrderly :
      (client : Text) (ws : ℕ) (game : Text) (side : Option Text) (s : Server G)
      (found : Option Text × Queues)
      → IsFree client s
      → claim_queued_opponent s.match_queues game side ≡ found
      → IsOrderly (meet_or_wait games client ws game side found s)
  unfolding meet_or_wait reply
  meet_or_wait-IsOrderly client ws game side s (some opponent, queues) v e =
      let r = record s { match_queues = queues } in
      let t = broadcast_queue_status game r in
      let same : outside t ≡ outside (claimed game side s) =
        outside-broadcast_queue_status game r
        ∙ ap (λ (f : Option Text × Queues). outside (record s { match_queues = f.1 })) (sym e) in
      pair_up-IsOrderly opponent client game side s t (unique_room_code t) v
        (ap (λ (f : Option Text × Queues). f.0) e) same refl
  meet_or_wait-IsOrderly client ws game side s (none, queues) v e =
      let q : queues ≡ s.match_queues =
        ap (λ (f : Option Text × Queues). f.1) (sym e)
        ∙ claim_queued_opponent-none game side s.match_queues
            (ap (λ (f : Option Text × Queues). f.0) e) in
      let r = record s { match_queues = enqueue_match_client queues game side client } in
      IsOrderly-outside (broadcast_queue_status game r) r (outside-broadcast_queue_status game r) (
        subst
          (λ (qs : Queues).
            IsOrderly (record s { match_queues = enqueue_match_client qs game side client }))
          (sym q) (wait-IsOrderly client game side s v))

  -- A search for a match, whether an opponent is found, no code is found for the room or the client
  -- waits, keeps the server orderly: a room lists exactly the clients whose room it is, each once,
  -- two at most; no client stands twice in the queues; and whoever stands in a queue has no room.
  pub find_match-IsOrderly :
      (client : Text) (ws : ℕ) (game : Text) (requested : Option Json) (s : Server G)
      → IsOrderly s
      → IsOrderly (find_match games client ws game requested s)
  unfolding find_match take_side set_client_side
  find_match-IsOrderly client ws game requested s v =
      meet_or_wait-IsOrderly client ws game _ _ _
        (free_client-IsFree games client (take_side games client game requested s).1 v) refl
