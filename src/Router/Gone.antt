-- ===== src/Router/Gone.antt =====
-- The maps after `handleClientDisconnect` of src/router.mjs.
use mathlib.Core.Path.{subst}
use factory_network_server.Prelude.{
  ◌≡◌, sym, ap, ◌∙◌, false, none, arith, Bool-cases, Option-cases, inl, inr, eq_refl,
}
use factory_network_server.Prelude.Texts.{Text, Text_eq}
use factory_network_server.Prelude.Maps.{get?}
use factory_network_server.State.{Server, Lobby}
use factory_network_server.LobbyBus.{broadcast_to_lobby}
use factory_network_server.Games.{Registry}
use factory_network_server.Matchmaking.Waiting.{waiting}
use factory_network_server.Lobby.Frame.{
  outside, outside-if, outside-run_hook, outside-disconnect_match, outside-leave_lobby,
  outside-leave_display_lobby,
}
use factory_network_server.Lobby.Sessions.{can_suspend, suspend_seat, suspend_lobby_client}
use factory_network_server.Rooms.Leaves.{get?-leave_room, queues-leave_room}
use factory_network_server.Router.Matching.{leave_queues}
use factory_network_server.Router.Orderly.{IsOrderly, leave_room-IsOrderly, leave_queues-IsOrderly}
use factory_network_server.Router.Free.{IsFree, IsFree-outside, waiting-leave_queues}
use factory_network_server.Router.Disconnect.{
  leave_play, leave_or_suspend, forget_client, is_suspended, handle_client_disconnect,
  disconnect_present,
}

module _ {G : Type 0} (games : Registry G) (client reason : Text) where
  outside-suspend_seat :
      (code : Text) (lobby : Lobby G) (s : Server G)
      → outside (suspend_seat games client reason code lobby s) ≡ outside s
  unfolding suspend_seat broadcast_to_lobby
  outside-suspend_seat code lobby s =
      let game = games.lobby_game lobby.game_id in
      let played = outside-disconnect_match code game client s.now lobby s in
      outside-if _ _ _ (outside-run_hook code game _ _ _ ∙ played) played

  pub outside-suspend_lobby_client :
      (s : Server G) → outside (suspend_lobby_client games client reason s).1 ≡ outside s
  unfolding suspend_lobby_client
  outside-suspend_lobby_client s = elim (Option-cases (get? client s.client_lobbies)) [
    | inl e ↦ rw (e, suspend_lobby_client)
    | inr (code, e) ↦ elim (Option-cases (get? code s.lobbies)) [
      | inl f ↦ rw (e, suspend_lobby_client) (rw f)
      | inr (lobby, f) ↦ elim (Bool-cases (can_suspend games client lobby s)) [
        | inl c ↦ rw (e, suspend_lobby_client) (rw f (rw c (outside-suspend_seat code lobby s)))
        | inr c ↦ rw (e, suspend_lobby_client) (rw f (rw c))
      ]
    ]
  ]

  pub outside-leave_or_suspend :
      (s : Server G) → outside (leave_or_suspend games client reason s) ≡ outside s
  unfolding leave_or_suspend
  outside-leave_or_suspend s =
      outside-leave_display_lobby games client _
      ∙ outside-if (suspend_lobby_client games client reason s).0 _ _
          (outside-suspend_lobby_client s) (outside-leave_lobby games client reason s)

  leave_play-IsFree : (s : Server G) → IsOrderly s → IsFree client (leave_play none client reason s)
  unfolding leave_play
  leave_play-IsFree s v =
      let t = leave_queues client s in
      record {
        orderly = leave_room-IsOrderly client reason t (leave_queues-IsOrderly client s v);
        roomless = ground (arith, get?-leave_room client reason client t, eq_refl client);
        unqueued =
            ap (waiting client) (queues-leave_room client reason t)
            ∙ waiting-leave_queues client s v;
      }

  forget_client-IsFree : (s : Server G) → IsFree client s → IsFree client (forget_client client s)
  unfolding forget_client
  forget_client-IsFree s v = record {
    orderly = v.orderly;
    roomless = v.roomless;
    unqueued = v.unqueued;
  }

  -- If the server is orderly and the client, whom no bridge owns, has no suspended seat that was
  -- handled already, the disconnect takes him out of every room and queue and leaves the server
  -- orderly.
  pub handle_client_disconnect-IsFree :
      (s : Server G)
      → IsOrderly s
      → is_suspended client s ≡ false
      → IsFree client (handle_client_disconnect games none client reason s)
  handle_client_disconnect-IsFree s v h =
      let played = leave_play none client reason s in
      let left = leave_or_suspend games client reason played in
      subst (IsFree client) (sym (disconnect_present games none client reason s h)) (
        forget_client-IsFree left (
          IsFree-outside client left played (outside-leave_or_suspend played)
            (leave_play-IsFree s v)))
