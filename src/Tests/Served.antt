-- ===== src/Tests/Served.antt =====
-- Connections, messages and sockets over the time.
use factory_network_server.Prelude.{
  ℕ, ◌≡◌, ◌≢◌, ◌<◌, ◌↔◌, refl, true, false, Option, none, some, [], ◌∷◌, arith, contains, count,
  eq_iff,
}
use factory_network_server.Prelude.Texts.{Text, codes, Text_eq, text_eq}
use factory_network_server.Prelude.Maps.{get?, has}
use factory_network_server.Js.Values.{Json, text, object, Fields, end, field, get_field}
use factory_network_server.Js.Convert.{to_text}
use factory_network_server.Protocol.{validate_client_frame}
use factory_network_server.State.{Server, Lobby, Suspension, started}
use factory_network_server.Guard.{create_message_rate_limiter, create_disconnect_once}
use factory_network_server.Lobby.Creating.{returned, thrown}
use factory_network_server.Lobby.Joining.{text_or_empty}
use factory_network_server.Lobby.Sessions.{can_suspend}
use factory_network_server.Matchmaking.Waiting.{waiting}
use factory_network_server.Router.Orderly.{IsOrderly}
use factory_network_server.Router.Dispatch.{handle_client_message}
use factory_network_server.Router.Dispatched.{enters_queued}
use factory_network_server.Router.Caught.{handle_client_message_throws}
use factory_network_server.Router.Disconnect.{handle_client_disconnect}
use factory_network_server.Router.Reconnect.{resume_lobby_message}
use factory_network_server.Router.Reseated.{Claims, IsReseated, resume_lobby_message_ghost}
use factory_network_server.Router.Returns.{disconnect-resume_lobby_message}
use factory_network_server.Runtime.{
  Connection, accept_connection, on_message, Hearts, on_pongs, sweep,
}
use factory_network_server.Runtime.Pulse.{is_open_at, sweep_twice}
use factory_network_server.Runtime.Steps.{at_once, connects, sends, Leads-IsOrderly}
use factory_network_server.Tests.Rooms.{registry, empty, empty-IsOrderly, p1, p2}
use factory_network_server.Tests.Lobbies.{host, lobby_of}
use factory_network_server.Tests.Disconnects.{patient, code, playing}

abbrev pub p3 : Text
p3 = codes "c_2a"

abbrev token : Text
token = codes "t"

-- Any text is read as a search.
abbrev parse : Text → Option Json
parse raw = some (object (field (codes "type") (text (codes "find_match")) end))

abbrev connection : Connection
connection = record {
  client_id = p3;
  ws = 3;
  limiter = create_message_rate_limiter 240 1000 1000;
  disconnect = create_disconnect_once;
}

abbrev with_three : Server ℕ
with_three = (accept_connection false 240 ((42 ∷ []) ∷ []) (7 ∷ []) 3 empty).1

Leads-IsOrderly_example :
    IsOrderly (on_message parse host registry (λ json. none) [] connection with_three).2
unfolding enters_queued get? text_eq get_field
Leads-IsOrderly_example =
    Leads-IsOrderly parse host registry empty
      (on_message parse host registry (λ json. none) [] connection with_three).2
      (sends (λ json. none) [] connection (λ json b e s. cc) refl
        (connects false 240 ((42 ∷ []) ∷ []) (7 ∷ []) 3 at_once))
      empty-IsOrderly

handle_client_message_throws_example :
    ((handle_client_message parse host registry p1 1 (λ json. none) [] empty).0 ≡ thrown)
    ↔ ((json : Json) × (parse [] ≡ some json) × (validate_client_frame host json ≡ none))
handle_client_message_throws_example =
    handle_client_message_throws parse host registry p1 1 (λ json. none) [] empty

abbrev hearts : Hearts
hearts = record { is_alive = λ ws. true; net = empty.net }

-- The second of two sockets does not answer.
sweep_twice_example :
    is_open_at 2 (
      sweep
        (λ ws. false)
        (1 ∷ 2 ∷ [])
        (on_pongs (1 ∷ []) (sweep (λ ws. false) (1 ∷ 2 ∷ []) hearts)))
    ≡ false
unfolding contains
sweep_twice_example =
    sweep_twice (λ ws. false) (λ ws. false) (1 ∷ 2 ∷ []) (1 ∷ []) 2 hearts refl refl

abbrev frame : Fields
frame = field (codes "clientId") (text p1) (field (codes "sessionToken") (text token) end)

abbrev trusted : Server ℕ
trusted = record playing { client_session_tokens = (p1, token) ∷ [] }

claims : Claims {G = ℕ} host patient p3 p1 token 3 frame
unfolding text_or_empty get_field to_text text_eq
claims = record { id = refl; secret = refl }

p3-ne : p3 ≢ p1
unfolding text_eq
p3-ne e = let same : false ≡ true = (eq_iff p3 p1).1 e in cc

-- The lobby where both play.
abbrev lobby : Lobby ℕ
lobby = record (lobby_of code 9) { status = started; owner_id = p1; members = p1 ∷ p2 ∷ [] }

abbrev kept : Suspension
kept = record { room_code = code; expires_at = 31000 }

-- The new connection has begun a search before it resumes the seat.
abbrev searching : Server ℕ
searching = record trusted {
  suspended_lobby_sessions = (p1, kept) ∷ [];
  match_queues = (codes "echo-duel:boy", p3 ∷ []) ∷ [];
}

resume_lobby_message_ghost_example :
    let t = (resume_lobby_message host patient p3 3 frame searching).1 in
    (get? p3 t.clients ≡ none) × (0 < waiting p3 t.match_queues)
unfolding get? text_eq count
resume_lobby_message_ghost_example =
    resume_lobby_message_ghost host patient p3 p1 token 3 frame kept lobby searching claims
      (record {
        suspended = refl;
        in_time = omega arith;
        right_token = refl;
        there = refl;
        seated = refl;
      })
      p3-ne (omega arith)

disconnect-resume_lobby_message_example :
    let gone = handle_client_disconnect patient none p1 (codes "error") trusted in
    let (ending, t) = resume_lobby_message host patient p3 3 frame (record gone { now = 30999 }) in
    (ending ≡ returned) × IsReseated host patient p3 p1 token 3 frame code t
unfolding can_suspend get? has text_eq
disconnect-resume_lobby_message_example =
    disconnect-resume_lobby_message patient p1 (codes "error") token code lobby host p3 3 30999
      frame trusted
      (record {
        seated = refl;
        there = refl;
        named = refl;
        suspendable = refl;
        no_display = refl;
        trusted = refl;
      })
      (omega arith) claims p3-ne
