-- ===== src/Router/Disconnect.antt =====
-- `handleClientDisconnect` of src/router.mjs. The bridge that owns a client is a parameter.
use factory_network_server.Prelude.{
  ◌≡◌, sym, ap, ◌∙◌, Bool, true, false, Option, none, some, arith, if◌then◌else◌, not, ◌&&◌,
  Bool-cases, inl, inr, eq_refl,
}
use factory_network_server.Prelude.Texts.{Text, Text_eq}
use factory_network_server.Prelude.Maps.{erase, has, has-get?, get?-erase}
use factory_network_server.State.{Server}
use factory_network_server.Games.{Registry}
use factory_network_server.Lobby.Leaving.{leave_lobby, leave_display_lobby}
use factory_network_server.Lobby.Sessions.{suspend_lobby_client}
use factory_network_server.Rooms.Seats.{leave_room}
use factory_network_server.Router.Matching.{leave_queues}

module _ {G : Type 0} where
  -- The bridge's own way to disconnect its client, or out of the queues and the room.
  unfoldable pub leave_play : Option (Server G → Server G) → Text → Text → Server G → Server G
  leave_play none client reason s = leave_room client reason (leave_queues client s)
  leave_play (some bridge) client reason s = bridge s

  -- The seat in a lobby is kept, or left.
  unfoldable pub leave_or_suspend : Registry G → Text → Text → Server G → Server G
  leave_or_suspend games client reason s =
      let (kept, t) = suspend_lobby_client games client reason s in
      leave_display_lobby games client (if kept then t else leave_lobby games client reason s)

  -- The `finally` block.
  unfoldable pub forget_client : Text → Server G → Server G
  forget_client client s = record s {
    client_sides = erase client s.client_sides;
    client_queue_watch = erase client s.client_queue_watch;
    clients = erase client s.clients;
    client_session_tokens =
        if has client s.suspended_lobby_sessions
        then s.client_session_tokens
        else erase client s.client_session_tokens;
  }

  -- The seat is suspended and the socket gone: the disconnect has been handled.
  unfoldable pub is_suspended : Text → Server G → Bool
  is_suspended client s = not (has client s.clients) && has client s.suspended_lobby_sessions

  unfoldable pub handle_client_disconnect :
      Registry G → Option (Server G → Server G) → Text → Text → Server G → Server G
  unfolding is_suspended leave_play leave_or_suspend forget_client
  handle_client_disconnect games bridge client reason s =
      if is_suspended client s
      then s
      else forget_client client
          (leave_or_suspend games client reason (leave_play bridge client reason s))

  pub disconnect_suspended :
      (games : Registry G) (bridge : Option (Server G → Server G)) (client reason : Text)
      (s : Server G)
      → is_suspended client s ≡ true
      → handle_client_disconnect games bridge client reason s ≡ s
  unfolding handle_client_disconnect
  disconnect_suspended games bridge client reason s h = rw (h, handle_client_disconnect)

  forget_client-is_suspended :
      (client : Text) (s : Server G)
      → has client (forget_client client s).suspended_lobby_sessions ≡ true
      → is_suspended client (forget_client client s) ≡ true
  unfolding is_suspended forget_client
  forget_client-is_suspended client s h = ground (
    arith,
    h,
    has-get? client (erase client s.clients),
    get?-erase client client s.clients,
    eq_refl client,
  )

  pub disconnect_present :
      (games : Registry G) (bridge : Option (Server G → Server G)) (client reason : Text)
      (s : Server G)
      → is_suspended client s ≡ false
      → handle_client_disconnect games bridge client reason s
        ≡ forget_client client
            (leave_or_suspend games client reason (leave_play bridge client reason s))
  unfolding handle_client_disconnect
  disconnect_present games bridge client reason s h = rw (h, handle_client_disconnect)

  disconnect-is_suspended :
      (games : Registry G) (bridge : Option (Server G → Server G)) (client reason : Text)
      (s : Server G)
      → has client (handle_client_disconnect games bridge client reason s).suspended_lobby_sessions
        ≡ true
      → is_suspended client (handle_client_disconnect games bridge client reason s) ≡ true
  disconnect-is_suspended games bridge client reason s h =
      elim (Bool-cases (is_suspended client s)) [
        | inl e ↦ ap (is_suspended client) (disconnect_suspended games bridge client reason s e) ∙ e
        | inr e ↦
            let p = disconnect_present games bridge client reason s e in
            ap (is_suspended client) p
            ∙ forget_client-is_suspended client _
                (ap (λ (t : Server G). has client t.suspended_lobby_sessions) (sym p) ∙ h)
      ]

  -- If a disconnect leaves the client with a suspended seat, a second one for the same client, with
  -- any reason and whichever bridge owns him, changes nothing.
  pub handle_client_disconnect_again :
      (games : Registry G) (bridge later : Option (Server G → Server G))
      (client reason again : Text) (s : Server G)
      → has client (handle_client_disconnect games bridge client reason s).suspended_lobby_sessions
        ≡ true
      → handle_client_disconnect games later client again
          (handle_client_disconnect games bridge client reason s)
        ≡ handle_client_disconnect games bridge client reason s
  handle_client_disconnect_again games bridge later client reason again s h =
      disconnect_suspended games later client again _
        (disconnect-is_suspended games bridge client reason s h)
