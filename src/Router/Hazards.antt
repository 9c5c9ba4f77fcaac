-- ===== src/Router/Hazards.antt =====
-- `create_room` of src/router.mjs beside the queues.
use mathlib.Core.Path.{subst}
use factory_network_server.Prelude.{
  ℕ, ◌<◌, ◌≡◌, ◌≢◌, refl, sym, ap, ◌∙◌, Option, none, some, List, [], ◌∷◌, arith, or_else, eq_iff,
  eq_refl, contains, add,
}
use factory_network_server.Prelude.Texts.{Text, Text_eq, codes}
use factory_network_server.Prelude.Maps.{Map, get?, set, get?-set}
use factory_network_server.Js.Values.{Json}
use factory_network_server.State.{Server}
use factory_network_server.Transport.{reply, unique_room_code}
use factory_network_server.Transport.Codes.{unique_room_code-untaken}
use factory_network_server.Matchmaking.{set_client_side, Queues}
use factory_network_server.Matchmaking.Waiting.{waiting}
use factory_network_server.Games.{Registry}
use factory_network_server.Lobby.Leaving.{leave_lobby}
use factory_network_server.Lobby.Frame.{Outside, outside-leave_lobby}
use factory_network_server.Rooms.Seats.{leave_room}
use factory_network_server.Rooms.Consistent.{ids, AreConsistent, seat-AreConsistent}
use factory_network_server.Rooms.Leaves.{get?-leave_room, queues-leave_room}
use factory_network_server.Router.Rooms.{create_room, place_in_new_room, open_room}
use factory_network_server.Router.Orderly.{AreOrderly, IsOrderly, leave_room-IsOrderly}
use factory_network_server.Router.Search.{get?-is_taken}

-- The maps when a client without a room opens one.
open-AreConsistent :
    (client code : Text) (rooms : Map Text (List Text)) (seats : Map Text Text)
    → AreConsistent rooms seats
    → get? client seats ≡ none
    → get? code rooms ≡ none
    → AreConsistent (set code (client ∷ []) rooms) (set client code seats)
unfolding add contains
open-AreConsistent client code rooms seats v free new =
    subst
      (λ (ms : List Text). AreConsistent (set code (add client ms) rooms) (set client code seats))
      empty (seat-AreConsistent client code rooms seats v free (rw empty (omega arith)))
  where
    empty : ids code rooms ≡ []
    empty = ap (λ (o : Option (List Text)). or_else o []) new

module _ {G : Type 0} (games : Registry G) (client : Text) (ws : ℕ) (game side : Option Json) where
  -- The server just before the code is drawn.
  abbrev pub before_code : Server G → Server G
  before_code s =
      (set_client_side client side (
        leave_lobby games client (codes "create_room")
          (leave_room client (codes "create_new_room") s))).1

  before_code-maps :
      (s : Server G)
      → let t = before_code s in
        let u = leave_room client (codes "create_new_room") s in
        (t.rooms ≡ u.rooms) × (t.client_rooms ≡ u.client_rooms) × (t.match_queues ≡ u.match_queues)
  unfolding set_client_side
  before_code-maps s =
      let u = leave_room client (codes "create_new_room") s in
      let same = outside-leave_lobby games client (codes "create_room") u in
      (
        ap (λ (o : Outside). o.rooms) same,
        ap (λ (o : Outside). o.client_rooms) same,
        ap (λ (o : Outside). o.match_queues) same,
      )

  before_code-IsOrderly : (s : Server G) → IsOrderly s → IsOrderly (before_code s)
  before_code-IsOrderly s v =
      let (r, c, q) = before_code-maps s in
      rw (r, c, q) (leave_room-IsOrderly client (codes "create_new_room") s v)

  before_code-roomless : (s : Server G) → get? client (before_code s).client_rooms ≡ none
  before_code-roomless s =
      ap (get? client) (before_code-maps s).1
      ∙ ground (arith, get?-leave_room client (codes "create_new_room") client s, eq_refl client)

  before_code-queues : (s : Server G) → (before_code s).match_queues ≡ s.match_queues
  before_code-queues s =
      (before_code-maps s).2 ∙ queues-leave_room client (codes "create_new_room") s

  placed-IsOrderly :
      (id : Text) (t : Server G) (found : Option (Text × Server G))
      → IsOrderly t
      → get? client t.client_rooms ≡ none
      → waiting client t.match_queues ≡ 0
      → unique_room_code t ≡ found
      → IsOrderly (place_in_new_room client ws id found t)
  unfolding place_in_new_room open_room reply
  placed-IsOrderly id t none v free out e = v
  placed-IsOrderly id t (some (code, u)) v free out e =
      let (fresh, (rest, same)) = unique_room_code-untaken t code u e in
      subst
        (λ (w : Server G).
          AreOrderly (set code (client ∷ []) w.rooms) (set client code w.client_rooms)
            w.match_queues)
        (sym same)
        (record {
          consistent =
              open-AreConsistent client code t.rooms t.client_rooms v.consistent free
                (get?-is_taken code t fresh);
          single = v.single;
          idle = λ a w.
              ground
                (arith, w, out, v.idle a w, get?-set client a code t.client_rooms, eq_iff client a);
        })

  -- If the server is orderly and the client stands in no match queue, opening a room keeps the
  -- server orderly.
  pub create_room-IsOrderly :
      (s : Server G)
      → IsOrderly s
      → waiting client s.match_queues ≡ 0
      → IsOrderly (create_room games client ws game side s)
  unfolding create_room
  create_room-IsOrderly s v out =
      placed-IsOrderly _ (before_code s) (unique_room_code (before_code s))
        (before_code-IsOrderly s v) (before_code-roomless s)
        (ap (waiting client) (before_code-queues s) ∙ out) refl

  placed_waiting :
      (id : Text) (t : Server G) (found : Option (Text × Server G))
      → 0 < waiting client t.match_queues
      → found ≢ none
      → unique_room_code t ≡ found
      → ¬ IsOrderly (place_in_new_room client ws id found t)
  unfolding place_in_new_room open_room reply
  placed_waiting id t none w found e v = absurd (found refl)
  placed_waiting id t (some (code, u)) w found e v =
      let (fresh, (rest, same)) = unique_room_code-untaken t code u e in
      let idle : get? client (set client code u.client_rooms) ≡ none =
        v.idle client (subst (λ (x : Server G). 0 < waiting client x.match_queues) (sym same) w) in
      ground (arith, idle, get?-set client client code u.client_rooms, eq_refl client)

  -- If a client who stands in a match queue opens a room, and a code is found for it, the server is
  -- not orderly afterwards, since he still waits in the queue while he has a room.
  pub create_room-waiting :
      (s : Server G)
      → 0 < waiting client s.match_queues
      → unique_room_code (before_code s) ≢ none
      → ¬ IsOrderly (create_room games client ws game side s)
  unfolding create_room
  create_room-waiting s w found =
      placed_waiting _ (before_code s) (unique_room_code (before_code s))
        (subst (λ (q : Queues). 0 < waiting client q) (sym (before_code-queues s)) w) found refl
