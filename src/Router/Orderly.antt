-- ===== src/Router/Orderly.antt =====
-- Rooms and queues together, and the handlers of src/router.mjs on them.
use mathlib.Core.Path.{subst}
use factory_network_server.Prelude.{
  ℕ, ◌<◌, ◌≡◌, ◌≢◌, refl, sym, ◌∙◌, Bool, true, false, Option, none, some, List, [], ◌∷◌, arith,
  contains, if◌then◌else◌, eq_iff,
}
use factory_network_server.Prelude.Texts.{Text, Text_eq}
use factory_network_server.Prelude.Maps.{Map, get?, set, get?-set, keys}
use factory_network_server.State.{Server}
use factory_network_server.Transport.{send_to_client, reply}
use factory_network_server.Matchmaking.{
  leave_queue, broadcast_queue_status, send_status_each, send_queue_status,
  get_game_id_from_queue_key, Queues, should_receive_queue_status,
}
use factory_network_server.Matchmaking.Waiting.{
  waiting, IsSingle, leave_queue-IsSingle, waiting-leave_queue,
}
use factory_network_server.Lobby.Frame.{Outside, outside}
use factory_network_server.Rooms.Seats.{leave_room}
use factory_network_server.Rooms.Consistent.{AreConsistent}
use factory_network_server.Rooms.Leaves.{
  get?-leave_room, leave_room-IsConsistent, queues-leave_room,
}
use factory_network_server.Router.Matching.{leave_queues, announce_removed, cancel_match}

-- The rooms are consistent, nobody waits twice, and whoever waits has no room.
pub record AreOrderly (rooms : Map Text (List Text)) (seats : Map Text Text) (queues : Queues)
    : Type 0 where
  pub consistent : AreConsistent rooms seats
  pub single : IsSingle queues
  pub idle : (a : Text) → 0 < waiting a queues → get? a seats ≡ none

abbrev pub IsOrderly : {G : Type 0} → Server G → Type 0
IsOrderly s = AreOrderly s.rooms s.client_rooms s.match_queues

-- Two different clients without rooms take a new room.
pub pair-AreConsistent :
    (opponent client code : Text) (rooms : Map Text (List Text)) (seats : Map Text Text)
    → AreConsistent rooms seats
    → get? opponent seats ≡ none
    → get? client seats ≡ none
    → opponent ≢ client
    → get? code rooms ≡ none
    → AreConsistent
        (set code (opponent ∷ client ∷ []) rooms)
        (set client code (set opponent code seats))
unfolding contains
pair-AreConsistent opponent client code rooms seats v o c ne new = record {
  agree = λ d r. ground (
    arith,
    v.agree d r,
    get?-set code r (opponent ∷ client ∷ []) rooms,
    get?-set client d code (set opponent code seats),
    get?-set opponent d code seats,
    eq_iff opponent d,
    eq_iff client d,
    eq_iff code r,
  );
  capped = λ r. ground (arith, v.capped r, get?-set code r (opponent ∷ client ∷ []) rooms);
  different = λ r. ground (
    arith,
    v.different r,
    get?-set code r (opponent ∷ client ∷ []) rooms,
    eq_iff client opponent,
  );
  peopled = λ r. ground (arith, v.peopled r, get?-set code r (opponent ∷ client ∷ []) rooms);
}

module _ {G : Type 0} where
  outside-status :
      (b : Bool) (c game : Text) (s : Server G)
      → outside (if b then send_queue_status c game s else s) ≡ outside s
  unfolding send_queue_status send_to_client
  outside-status true c game s = refl
  outside-status false c game s = refl

  outside-send_status_each :
      (cs : List Text) (game : Text) (s : Server G)
      → outside (send_status_each cs game s) ≡ outside s
  unfolding send_status_each send_queue_status send_to_client
  outside-send_status_each [] game s = refl
  outside-send_status_each (c ∷ cs) game s =
      outside-send_status_each cs game _
      ∙ outside-status (should_receive_queue_status s.client_queue_watch c game) c game s

  pub outside-broadcast_queue_status :
      (game : Text) (s : Server G) → outside (broadcast_queue_status game s) ≡ outside s
  unfolding broadcast_queue_status
  outside-broadcast_queue_status [] s = refl
  outside-broadcast_queue_status (c ∷ game) s =
      outside-send_status_each (keys s.clients) (c ∷ game) s

  pub outside-announce_removed :
      (key : Option Text) (s : Server G) → outside (announce_removed key s) ≡ outside s
  unfolding announce_removed
  outside-announce_removed none s = refl
  outside-announce_removed (some key) s =
      outside-broadcast_queue_status (get_game_id_from_queue_key key) s

  -- Order looks at three maps alone.
  pub IsOrderly-outside : (s t : Server G) → outside s ≡ outside t → IsOrderly t → IsOrderly s
  IsOrderly-outside s t e v =
      subst (λ (o : Outside). AreOrderly o.rooms o.client_rooms o.match_queues) (sym e) v

  pub leave_room-IsOrderly :
      (client reason : Text) (s : Server G) → IsOrderly s → IsOrderly (leave_room client reason s)
  leave_room-IsOrderly client reason s v = record {
    consistent = leave_room-IsConsistent client reason s v.consistent;
    single = subst IsSingle (sym (queues-leave_room client reason s)) v.single;
    idle = λ a w. ground (
      arith,
      get?-leave_room client reason a s,
      v.idle a (subst (λ (q : Queues). 0 < waiting a q) (queues-leave_room client reason s) w),
    );
  }

  pub leave_queues-IsOrderly :
      (client : Text) (s : Server G) → IsOrderly s → IsOrderly (leave_queues client s)
  unfolding leave_queues
  leave_queues-IsOrderly client s v =
      let (removed, queues) = leave_queue client s.match_queues in
      let t = record s { match_queues = queues } in
      IsOrderly-outside (announce_removed removed t) t (outside-announce_removed removed t)
        (record {
          consistent = v.consistent;
          single = leave_queue-IsSingle client s.match_queues v.single;
          idle = λ a w. v.idle a (omega (arith, w, waiting-leave_queue a client s.match_queues));
        })

  -- Giving up a search keeps an orderly server orderly.
  pub cancel_match-IsOrderly :
      (client : Text) (ws : ℕ) (s : Server G) → IsOrderly s → IsOrderly (cancel_match client ws s)
  unfolding cancel_match reply
  cancel_match-IsOrderly client ws s v = leave_queues-IsOrderly client s v
