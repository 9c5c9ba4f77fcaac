-- ===== src/Runtime/Steps.antt =====
-- All that happens to the maps of the server, as steps: connections and messages and the loss of
-- sockets (src/server-runtime.mjs, src/router.mjs), seats that expire (src/lobby.mjs), and the clock.
use factory_network_server.Prelude.{
  map, ℕ, ◌≡◌, refl, Bool, true, false, Option, none, some, List, Option-cases, Bool-cases, inl,
  inr,
}
use factory_network_server.Prelude.Texts.{Text, codes, Text_eq}
use factory_network_server.Prelude.Maps.{get?}
use factory_network_server.Js.Values.{Json}
use factory_network_server.Js.Convert.{Host}
use factory_network_server.State.{Server}
use factory_network_server.Transport.{reply, make_id}
use factory_network_server.Guard.{take, disconnect_once}
use factory_network_server.Games.{Registry}
use factory_network_server.Lobby.Frame.{outside, outside-leave_lobby}
use factory_network_server.Lobby.Creating.{Ending}
use factory_network_server.Lobby.Leaving.{clear_suspended_lobby_session, leave_lobby}
use factory_network_server.Lobby.Sessions.{expire_suspended_lobby_client}
use factory_network_server.Router.Matching.{leave_queues}
use factory_network_server.Router.Disconnect.{
  leave_play, leave_or_suspend, forget_client, is_suspended, handle_client_disconnect,
  disconnect_present, disconnect_suspended,
}
use factory_network_server.Router.Gone.{outside-leave_or_suspend}
use factory_network_server.Router.Orderly.{
  IsOrderly, IsOrderly-outside, leave_room-IsOrderly, leave_queues-IsOrderly,
}
use factory_network_server.Router.Dispatched.{
  IsApart, enters_queued, handle_client_message-IsOrderly,
}
use factory_network_server.Runtime.{
  Connection, first_new, welcome_client, accept_connection, register_client, on_message, on_close,
}

-- A bridge that disconnects its client changes nothing of rooms, queues and sockets.
abbrev pub IsApartFrom : {G : Type 0} → Option (Server G → Server G) → Type 0
IsApartFrom bridge =
    (b : Server _ → Server _) → bridge ≡ some b → (s : Server _) → outside (b s) ≡ outside s

module _ {G : Type 0} (games : Registry G) where
  leave_play-IsOrderly :
      (bridge : Option (Server G → Server G)) (client reason : Text) (s : Server G)
      → IsOrderly s
      → IsApartFrom bridge
      → IsOrderly (leave_play bridge client reason s)
  unfolding leave_play
  leave_play-IsOrderly none client reason s v apart =
      leave_room-IsOrderly client reason (leave_queues client s) (leave_queues-IsOrderly client s v)
  leave_play-IsOrderly (some b) client reason s v apart =
      IsOrderly-outside (b s) s (apart b refl s) v

  disconnect-IsOrderly :
      (bridge : Option (Server G → Server G)) (client reason : Text) (s : Server G)
      → IsOrderly s
      → IsApartFrom bridge
      → IsOrderly (handle_client_disconnect games bridge client reason s)
  unfolding forget_client
  disconnect-IsOrderly bridge client reason s v apart = elim (Bool-cases (is_suspended client s)) [
    | inl e ↦ rw (disconnect_suspended games bridge client reason s e) v
    | inr e ↦
        let played = leave_play bridge client reason s in
        rw (disconnect_present games bridge client reason s e) (
          IsOrderly-outside (leave_or_suspend games client reason played) played
            (outside-leave_or_suspend games client reason played)
            (leave_play-IsOrderly bridge client reason s v apart))
  ]

  expire-IsOrderly :
      (client : Text) (s : Server G)
      → IsOrderly s
      → IsOrderly (expire_suspended_lobby_client games client s).1
  unfolding expire_suspended_lobby_client clear_suspended_lobby_session
  expire-IsOrderly client s v = elim (Option-cases (get? client s.suspended_lobby_sessions)) [
    | inl e ↦ rw (e, expire_suspended_lobby_client) v
    | inr (kept, e) ↦
        let cleared = clear_suspended_lobby_session client s in
        rw (e, expire_suspended_lobby_client)
          (IsOrderly-outside (leave_lobby games client (codes "reconnect_expired") cleared) s
            (outside-leave_lobby games client (codes "reconnect_expired") cleared) v)
  ]

  on_close-IsOrderly :
      (parse : Text → Option Json) (host : Host) (bridge : Option (Server G → Server G))
      (reason : Text) (c : Connection) (s : Server G)
      → IsOrderly s
      → IsApartFrom bridge
      → IsOrderly (on_close parse host games bridge reason c s).1
  unfolding on_close
  on_close-IsOrderly parse host bridge reason c s v apart =
      elim (Bool-cases (disconnect_once reason c.disconnect).1) [
        | inl e ↦ rw (e, on_close) (disconnect-IsOrderly bridge c.client_id reason s v apart)
        | inr e ↦ rw (e, on_close) v
      ]

  on_message-IsOrderly :
      (parse : Text → Option Json) (host : Host)
      (route : Json → Option (Server G → Ending × Server G)) (raw : Text) (c : Connection)
      (s : Server G)
      → IsOrderly s
      → IsApart route
      → enters_queued parse c.client_id raw s ≡ false
      → IsOrderly (on_message parse host games route raw c s).2
  unfolding on_message reply
  on_message-IsOrderly parse host route raw c s v apart h =
      elim (Bool-cases (take s.now c.limiter).1) [
        | inl e ↦
            rw (e, on_message)
              (handle_client_message-IsOrderly parse host games c.client_id c.ws route raw s v apart
                h)
        | inr e ↦ rw (e, on_message) v
      ]

welcome_client-IsOrderly :
    {G : Type 0} (rate : ℕ) (token : Text) (ws : ℕ) (found : Option Text) (s : Server G)
    → IsOrderly s
    → IsOrderly (welcome_client rate token ws found s).1
unfolding welcome_client register_client reply
welcome_client-IsOrderly rate token ws none s v = v
welcome_client-IsOrderly rate token ws (some client) s v = v

accept_connection-IsOrderly :
    {G : Type 0} (draining : Bool) (rate : ℕ) (bytes : List (List ℕ)) (secret : List ℕ) (ws : ℕ)
    (s : Server G)
    → IsOrderly s
    → IsOrderly (accept_connection draining rate bytes secret ws s).1
unfolding accept_connection
accept_connection-IsOrderly true rate bytes secret ws s v = v
accept_connection-IsOrderly false rate bytes secret ws s v =
    welcome_client-IsOrderly rate (make_id (codes "s_") secret) ws
      (first_new (map (make_id (codes "c_")) bytes) s.clients) s v

module _ {G : Type 0} (parse : Text → Option Json) (host : Host) (games : Registry G) where
  -- The servers that a server may become. A connection of a step is any, whoever it belongs to.
  pub data Leads (s : Server G) : Server G → Type 0 where
    at_once : Leads s s
    connects :
        {t : Server G} (draining : Bool) (rate : ℕ) (bytes : List (List ℕ)) (secret : List ℕ)
        (ws : ℕ)
        → Leads s t
        → Leads s (accept_connection draining rate bytes secret ws t).1
    sends :
        {t : Server G} (route : Json → Option (Server G → Ending × Server G)) (raw : Text)
        (c : Connection)
        → IsApart route
        → enters_queued parse c.client_id raw t ≡ false
        → Leads s t
        → Leads s (on_message parse host games route raw c t).2
    closes :
        {t : Server G} (bridge : Option (Server G → Server G)) (reason : Text) (c : Connection)
        → IsApartFrom bridge
        → Leads s t
        → Leads s (on_close parse host games bridge reason c t).1
    expires :
        {t : Server G} (client : Text)
        → Leads s t
        → Leads s (expire_suspended_lobby_client games client t).1
    -- Time passes, and there are new random numbers.
    passes :
        {t : Server G} (now seed : ℕ) (draws : List (List ℕ))
        → Leads s t
        → Leads s (record t { now = now; seed_bytes = seed; draws = draws })

  -- Along any steps of connections, messages, lost sockets, expired seats and time, where the
  -- games' bridges change nothing of rooms, queues, sides, sockets and draws and no message opens
  -- or joins a room for a client who stands in a queue, an orderly server stays orderly.
  pub Leads-IsOrderly : (s t : Server G) → Leads s t → IsOrderly s → IsOrderly t
  Leads-IsOrderly s _ at_once v = v
  Leads-IsOrderly s _ (connects draining rate bytes secret ws l) v =
      accept_connection-IsOrderly draining rate bytes secret ws _ (Leads-IsOrderly s _ l v)
  Leads-IsOrderly s _ (sends route raw c apart h l) v =
      on_message-IsOrderly games parse host route raw c _ (Leads-IsOrderly s _ l v) apart h
  Leads-IsOrderly s _ (closes bridge reason c apart l) v =
      on_close-IsOrderly games parse host bridge reason c _ (Leads-IsOrderly s _ l v) apart
  Leads-IsOrderly s _ (expires client l) v =
      expire-IsOrderly games client _ (Leads-IsOrderly s _ l v)
  Leads-IsOrderly s _ (passes now seed draws l) v = Leads-IsOrderly s _ l v
