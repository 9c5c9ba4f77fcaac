-- ===== src/Runtime.antt =====
-- src/server-runtime.mjs: connections, from the socket's side. The HTTP routes and the calls that
-- start and stop the servers of the packages are left out; the flag `isAlive` of a socket is part of
-- Hearts, and is true from its connection on.
pub mod Pulse
pub mod Steps
use factory_network_server.Prelude.{
  ℕ, zero, Bool, true, false, Option, none, some, List, [], ◌∷◌, map, is_some, if◌then◌else◌,
  nat_eq,
}
use factory_network_server.Prelude.Texts.{Text, codes, Text_eq}
use factory_network_server.Prelude.Int.{pos}
use factory_network_server.Prelude.Maps.{Map, get?, set, has}
use factory_network_server.Js.Values.{Number, finite, Json, object, Fields, get_field}
use factory_network_server.Js.Convert.{Host, to_number}
use factory_network_server.Protocol.{accepted, Verdict, validate_client_frame}
use factory_network_server.State.{
  Server, Net, closed, terminated, update_socket, failure, rate_limited, connected,
  server_restarting,
}
use factory_network_server.Transport.{reply, send, make_id}
use factory_network_server.Guard.{
  Limiter, create_message_rate_limiter, take, Once, create_disconnect_once, disconnect_once,
}
use factory_network_server.Games.{Registry}
use factory_network_server.Lobby.Creating.{Ending, returned}
use factory_network_server.Lobby.Joining.{text_or_empty}
use factory_network_server.Lobby.Sessions.{resume_lobby_client}
use factory_network_server.Router.Dispatch.{
  Kind, resuming_lobby, handlers, type_of, handle_client_message,
}
use factory_network_server.Router.Disconnect.{handle_client_disconnect}

abbrev pub default_max_payload : ℕ
default_max_payload = 262144

abbrev pub default_message_rate : ℕ
default_message_rate = 240

abbrev pub default_heartbeat_interval_ms : ℕ
default_heartbeat_interval_ms = 30000

-- `Number.isFinite(parsed) && parsed > 0 ? Math.floor(parsed) : fallback`
unfoldable pub floor_positive : Number → ℕ → ℕ
floor_positive (finite (pos zero) zero) fallback = fallback
floor_positive (finite (pos n) part) fallback = n
floor_positive _ fallback = fallback

-- `none` where the conversion throws.
unfoldable pub positive_int : Host → Option Json → ℕ → Option ℕ
unfolding floor_positive
positive_int host value fallback = elim (to_number host value) [
  | none ↦ none
  | some parsed ↦ some (floor_positive parsed fallback)
]

-- What the closures of one connection share.
pub record Connection : Type 0 where
  pub client_id : Text
  pub ws : ℕ
  pub limiter : Limiter
  pub disconnect : Once Text

-- The first of the ids to be drawn that no client has; `none` is a loop that has not ended.
unfoldable pub first_new : List Text → Map Text ℕ → Option Text
first_new [] clients = none
first_new (id ∷ ids) clients =
    let later = first_new ids clients in if has id clients then later else some id

-- `ws.close(code, …)` where an exception is not caught.
unfoldable pub close_socket : ℕ → ℕ → Net → Net
close_socket ws code n =
    let s = n.socket ws in
    if s.close_throws then n else record n {
      socket = update_socket n.socket ws (record s { is_open = false });
      log = closed ws code ∷ n.log;
    }

unfoldable pub terminate_socket : ℕ → Net → Net
terminate_socket ws n = record n {
  socket = update_socket n.socket ws (record (n.socket ws) { is_open = false });
  log = terminated ws ∷ n.log;
}

module _ {G : Type 0} where
  -- The maps with the new client.
  unfoldable pub register_client : Text → Text → ℕ → Server G → Server G
  register_client client token ws s = record s {
    clients = set client ws s.clients;
    client_session_tokens = set client token s.client_session_tokens;
  }

  unfoldable pub welcome_client :
      ℕ → Text → ℕ → Option Text → Server G → Option Connection × Server G
  unfolding register_client
  welcome_client rate token ws none s = (none, s)
  welcome_client rate token ws (some client) s =
      let connection : Connection = record {
        client_id = client;
        ws = ws;
        limiter = create_message_rate_limiter rate 1000 s.now;
        disconnect = create_disconnect_once;
      } in
      (some connection, reply ws (connected client token) (register_client client token ws s))

  -- A socket connects. The random bytes are those of the ids to be drawn, and of the token.
  unfoldable pub accept_connection :
      Bool → ℕ → List (List ℕ) → List ℕ → ℕ → Server G → Option Connection × Server G
  unfolding welcome_client first_new close_socket make_id
  accept_connection true rate bytes secret ws s =
      (none, record s { net = close_socket ws 1013 s.net })
  accept_connection false rate bytes secret ws s =
      welcome_client rate (make_id (codes "s_") secret) ws
        (first_new (map (make_id (codes "c_")) bytes) s.clients) s

module _ {G : Type 0} (parse : Text → Option Json) (host : Host) (games : Registry G) where
  -- The id that `resume_lobby` of src/router.mjs gives to the connection, if it succeeds.
  unfoldable pub resumed_id : Fields → Server G → Option Text
  resumed_id frame s = elim (text_or_empty host (get_field (codes "clientId") frame)) [
    | none ↦ none
    | some previous ↦ elim (text_or_empty host (get_field (codes "sessionToken") frame)) [
      | none ↦ none
      | some token ↦
          if is_some (resume_lobby_client games previous token s).0 then some previous else none
    ]
  ]

  unfoldable pub id_of_kind : Option Kind → Fields → Text → Server G → Text
  unfolding resumed_id
  id_of_kind (some resuming_lobby) frame client s = elim (resumed_id frame s) [
    | none ↦ client
    | some previous ↦ previous
  ]
  id_of_kind _ frame client s = client

  unfoldable pub id_of_verdict : Bool → Json → Option Verdict → Text → Server G → Text
  unfolding id_of_kind
  id_of_verdict false (object frame) (some accepted) client s =
      id_of_kind (get? (type_of frame) handlers) frame client s
  id_of_verdict _ json verdict client s = client

  -- `connection.clientId` after the message; a message that a bridge takes leaves it.
  unfoldable pub client_after :
      (Json → Option (Server G → Ending × Server G)) → Text → Text → Server G → Text
  unfolding id_of_verdict
  client_after route raw client s = elim (parse raw) [
    | none ↦ client
    | some json ↦
        id_of_verdict (is_some (route json)) json (validate_client_frame host json) client s
  ]

  unfoldable pub on_message :
      (Json → Option (Server G → Ending × Server G))
      → Text
      → Connection
      → Server G
      → Connection × Ending × Server G
  unfolding client_after
  on_message route raw c s =
      let (limiter, passes) = take s.now c.limiter in
      let client = client_after route raw c.client_id s in
      let (ending, t) = handle_client_message parse host games c.client_id c.ws route raw s in
      if passes
      then (record c { limiter = limiter; client_id = client }, ending, t)
      else (record c { limiter = limiter }, returned, reply c.ws (failure rate_limited) s)

  -- The events `close` and `error` of the socket.
  unfoldable pub on_close :
      Option (Server G → Server G) → Text → Connection → Server G → Connection × Server G
  on_close bridge reason c s =
      let (once, first) = disconnect_once reason c.disconnect in
      let gone = handle_client_disconnect games bridge c.client_id reason s in
      (record c { disconnect = once }, if first then gone else s)

-- What `stop` does to each socket.
unfoldable pub stop_socket : Bool → ℕ → Net → Net
unfolding close_socket terminate_socket
stop_socket notify ws n =
    let told = if notify then (send ws server_restarting n).0 else n in
    if (told.socket ws).close_throws then terminate_socket ws told else close_socket ws 1012 told

unfoldable pub stop_sockets : Bool → List ℕ → Net → Net
unfolding stop_socket
stop_sockets notify [] n = n
stop_sockets notify (ws ∷ rest) n = stop_sockets notify rest (stop_socket notify ws n)

-- `ws.isAlive` of the sockets beside the network.
pub record Hearts : Type 0 where
  pub is_alive : ℕ → Bool
  pub net : Net

unfoldable pub set_alive : (ℕ → Bool) → ℕ → Bool → ℕ → Bool
set_alive f ws v other = if nat_eq ws other then v else f other

-- The event `pong`.
unfoldable pub on_pong : ℕ → Hearts → Hearts
unfolding set_alive
on_pong ws h = record h { is_alive = set_alive h.is_alive ws true }

unfoldable pub on_pongs : List ℕ → Hearts → Hearts
unfolding on_pong
on_pongs [] h = h
on_pongs (ws ∷ rest) h = on_pongs rest (on_pong ws h)

-- One socket in the heartbeat's loop. `ping_throws` says whose `ping` throws.
unfoldable pub sweep_socket : (ℕ → Bool) → ℕ → Hearts → Hearts
unfolding set_alive terminate_socket
sweep_socket ping_throws ws h =
    if h.is_alive ws
    then record {
      is_alive = set_alive h.is_alive ws false;
      net = if ping_throws ws then terminate_socket ws h.net else h.net;
    }
    else record h { net = terminate_socket ws h.net }

unfoldable pub sweep : (ℕ → Bool) → List ℕ → Hearts → Hearts
unfolding sweep_socket
sweep ping_throws [] h = h
sweep ping_throws (ws ∷ rest) h = sweep ping_throws rest (sweep_socket ping_throws ws h)
