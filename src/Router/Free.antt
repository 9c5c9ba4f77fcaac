-- ===== src/Router/Free.antt =====
-- Clients out of every room, lobby and queue, and the room that a pair takes, as `find_match` of
-- src/router.mjs leaves them.
use factory_network_server.Prelude.{
  ◌+◌, ◌≤◌, ◌≡◌, ap, ◌∙◌, Option, none, some, List, [], ◌∷◌, arith, if◌then◌else◌, ◌==◌, eq_iff,
  eq_refl,
}
use factory_network_server.Prelude.Texts.{Text, Text_eq, codes}
use factory_network_server.Prelude.Maps.{Map, get?, set, get?-set}
use factory_network_server.State.{Server}
use factory_network_server.Matchmaking.{leave_queue, claim_queued_opponent, Queues}
use factory_network_server.Matchmaking.Waiting.{
  waiting, waiting-leave_queue_self, waiting-claim_queued_opponent, claim-IsSingle,
}
use factory_network_server.Games.{Registry}
use factory_network_server.Lobby.Leaving.{leave_lobby, leave_display_lobby}
use factory_network_server.Lobby.Frame.{
  Outside, outside, outside-leave_lobby, outside-leave_display_lobby,
}
use factory_network_server.Rooms.Seats.{leave_room}
use factory_network_server.Rooms.Leaves.{get?-leave_room}
use factory_network_server.Router.Matching.{free_client, leave_queues}
use factory_network_server.Router.Orderly.{
  AreOrderly, IsOrderly, pair-AreConsistent, outside-announce_removed, IsOrderly-outside,
  leave_room-IsOrderly, leave_queues-IsOrderly,
}

module _ {G : Type 0} where
  -- What the server is like when a client is out of every room, lobby and queue.
  pub record IsFree (client : Text) (s : Server G) : Type 0 where
    pub orderly : IsOrderly s
    pub roomless : get? client s.client_rooms ≡ none
    pub unqueued : waiting client s.match_queues ≡ 0

  pub IsFree-outside :
      (client : Text) (s t : Server G) → outside s ≡ outside t → IsFree client t → IsFree client s
  IsFree-outside client s t e v = record {
    orderly = IsOrderly-outside s t e v.orderly;
    roomless = ap (λ (o : Outside). get? client o.client_rooms) e ∙ v.roomless;
    unqueued = ap (λ (o : Outside). waiting client o.match_queues) e ∙ v.unqueued;
  }

  pub waiting-leave_queues :
      (client : Text) (s : Server G)
      → IsOrderly s
      → waiting client (leave_queues client s).match_queues ≡ 0
  unfolding leave_queues
  waiting-leave_queues client s v =
      let (removed, queues) = leave_queue client s.match_queues in
      ap (λ (o : Outside). waiting client o.match_queues)
        (outside-announce_removed removed (record s { match_queues = queues }))
      ∙ waiting-leave_queue_self client s.match_queues v.single

  leave_queues-IsFree :
      (client : Text) (s : Server G)
      → IsOrderly s
      → get? client s.client_rooms ≡ none
      → IsFree client (leave_queues client s)
  unfolding leave_queues
  leave_queues-IsFree client s v free =
      let (removed, queues) = leave_queue client s.match_queues in
      let told = outside-announce_removed removed (record s { match_queues = queues }) in
      record {
        orderly = leave_queues-IsOrderly client s v;
        roomless = ap (λ (o : Outside). get? client o.client_rooms) told ∙ free;
        unqueued = waiting-leave_queues client s v;
      }

  pub free_client-IsFree :
      (games : Registry G) (client : Text) (s : Server G)
      → IsOrderly s
      → IsFree client (free_client games client s)
  unfolding free_client
  free_client-IsFree games client s v =
      let s1 = leave_room client (codes "find_match") s in
      let s2 = leave_lobby games client (codes "find_match") s1 in
      let s3 = leave_display_lobby games client s2 in
      let same : outside s3 ≡ outside s1 =
        outside-leave_display_lobby games client s2
        ∙ outside-leave_lobby games client (codes "find_match") s1 in
      leave_queues-IsFree client s3
        (IsOrderly-outside s3 s1 same (leave_room-IsOrderly client (codes "find_match") s v))
        (ap (λ (o : Outside). get? client o.client_rooms) same
          ∙ ground (arith, get?-leave_room client (codes "find_match") client s, eq_refl client))

-- The maps when a claimed opponent and the searcher have taken their room.
pub open-AreOrderly :
    (opponent client code game : Text) (side : Option Text) (rooms : Map Text (List Text))
    (seats : Map Text Text) (queues : Queues)
    → AreOrderly rooms seats queues
    → get? client seats ≡ none
    → waiting client queues ≡ 0
    → (claim_queued_opponent queues game side).0 ≡ some opponent
    → get? code rooms ≡ none
    → AreOrderly
        (set code (opponent ∷ client ∷ []) rooms)
        (set client code (set opponent code seats))
        (claim_queued_opponent queues game side).1
open-AreOrderly opponent client code game side rooms seats queues v free out h new = record {
  consistent =
      pair-AreConsistent opponent client code rooms seats v.consistent
        (v.idle opponent (ground (arith, claim opponent, eq_refl opponent))) free
        (λ same. ground (arith, claim client, eq_iff opponent client)) new;
  single = claim-IsSingle game side queues v.single h;
  idle = λ a w. ground (
    arith,
    w,
    claim a,
    claim client,
    v.single.once a,
    v.idle a (omega (arith, w, claim a)),
    get?-set client a code (set opponent code seats),
    get?-set opponent a code seats,
    eq_iff client a,
    eq_iff opponent a,
  );
}
  where
    claim :
        (a : Text)
        → waiting a (claim_queued_opponent queues game side).1 + (if opponent == a then 1 else 0)
          ≤ waiting a queues
    claim a = waiting-claim_queued_opponent a game side queues h
