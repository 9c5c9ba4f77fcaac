-- ===== src/Router/Dispatch.antt =====
-- `handleClientMessage` and `dispatchClientMessage` of src/router.mjs, with the table of handlers.
-- How the language parses JSON, and the bridge of a game that takes the message, are parameters. The
-- server's log of errors is left out.
use factory_network_server.Prelude.{
  ℕ, Bool, true, false, Option, none, some, [], ◌∷◌, if◌then◌else◌,
}
use factory_network_server.Prelude.Texts.{Text, codes, Text_eq}
use factory_network_server.Prelude.Maps.{Map, get?}
use factory_network_server.Js.Values.{Json, text, object, Fields, get_field, truthy}
use factory_network_server.Js.Convert.{Host}
use factory_network_server.Protocol.{Verdict, accepted, validate_client_frame}
use factory_network_server.State.{
  Server, failure, pong, bad_json, bad_message, internal, unknown_type, not_in_room,
}
use factory_network_server.Transport.{reply}
use factory_network_server.Games.{Registry}
use factory_network_server.Lobby.Creating.{Ending, returned, thrown}
use factory_network_server.Lobby.Joining.{text_or_empty}
use factory_network_server.Router.Rooms.{
  create_room, join_room_by_code, leave_room_message, send_room_message, send_direct_message,
}
use factory_network_server.Router.Matching.{find_match, watch_queue_status, cancel_match}
use factory_network_server.Router.Lobbies.{
  create_lobby_message, join_lobby_message, find_lobby_message, update_lobby_settings_message,
  start_lobby_message, leave_lobby_message,
}
use factory_network_server.Router.Reconnect.{resume_lobby_message}
use factory_network_server.Router.Messages.{text_or_nothing, lobby_message_handler}

-- The handlers of the table, in its order.
pub data Kind : Type 0 where
  creating_lobby joining_lobby finding_lobby updating_settings starting_lobby : Kind
  leaving_lobby resuming_lobby messaging_lobby : Kind
  creating_room joining_room leaving_room messaging_room messaging_client : Kind
  finding_match asking_status cancelling_match pinging : Kind

abbrev pub handlers : Map Text Kind
handlers =
    (codes "create_lobby", creating_lobby)
    ∷ (codes "join_lobby", joining_lobby)
    ∷ (codes "find_lobby", finding_lobby)
    ∷ (codes "update_lobby_settings", updating_settings)
    ∷ (codes "start_lobby", starting_lobby)
    ∷ (codes "leave_lobby", leaving_lobby)
    ∷ (codes "resume_lobby", resuming_lobby)
    ∷ (codes "lobby_message", messaging_lobby)
    ∷ (codes "create_room", creating_room)
    ∷ (codes "join_room", joining_room)
    ∷ (codes "leave_room", leaving_room)
    ∷ (codes "room_message", messaging_room)
    ∷ (codes "direct_message", messaging_client)
    ∷ (codes "find_match", finding_match)
    ∷ (codes "queue_status", asking_status)
    ∷ (codes "cancel_match", cancelling_match)
    ∷ (codes "ping", pinging)
    ∷ []

-- What the table inherits from the prototype of objects, and whether calling it throws: without a
-- receiver, only two of them return.
abbrev pub inherited : Map Text Bool
inherited =
    (codes "constructor", false)
    ∷ (codes "toString", false)
    ∷ (codes "toLocaleString", true)
    ∷ (codes "valueOf", true)
    ∷ (codes "hasOwnProperty", true)
    ∷ (codes "isPrototypeOf", true)
    ∷ (codes "propertyIsEnumerable", true)
    ∷ (codes "__proto__", true)
    ∷ (codes "__defineGetter__", true)
    ∷ (codes "__defineSetter__", true)
    ∷ (codes "__lookupGetter__", true)
    ∷ (codes "__lookupSetter__", true)
    ∷ []

-- `String(data.gameId || "default")`
unfoldable pub game_or_default : Host → Option Json → Option Text
game_or_default host v = if truthy v then text_or_empty host v else some (codes "default")

-- A handler with a text of the message, which may throw.
unfoldable pub with_text :
    {G : Type 0} → Option Text → (Text → Server G → Server G) → Server G → Ending × Server G
with_text none f s = (thrown, s)
with_text (some t) f s = (returned, f t s)

abbrev pub type_of : Fields → Text
type_of frame = elim (get_field (codes "type") frame) [ some (text t) ↦ t | _ ↦ [] ]

module _ {G : Type 0} (parse : Text → Option Json) (host : Host) (games : Registry G) where
  module _ (client : Text) (ws : ℕ) where
    unfoldable pub room_message_handler : Fields → Server G → Ending × Server G
    unfolding text_or_nothing with_text
    room_message_handler frame s = elim (get? client s.client_rooms) [
      | none ↦ (returned, reply ws (failure not_in_room) s)
      | some code ↦ elim (text_or_empty host (get_field (codes "messageType") frame)) [
        | none ↦ (thrown, s)
        | some message_type ↦
            with_text (text_or_nothing host (get_field (codes "value") frame))
              (λ value. send_room_message client ws message_type value) s
      ]
    ]

    unfoldable pub direct_message_handler : Fields → Server G → Ending × Server G
    unfolding text_or_nothing with_text
    direct_message_handler frame s =
        elim (text_or_empty host (get_field (codes "targetId") frame)) [
          | none ↦ (thrown, s)
          | some target ↦ elim (text_or_empty host (get_field (codes "messageType") frame)) [
            | none ↦ (thrown, s)
            | some message_type ↦
                with_text (text_or_nothing host (get_field (codes "value") frame))
                  (λ value. send_direct_message client ws target message_type value) s
          ]
        ]

    -- A room or a match whose code is not found among the draws counts as returned.
    unfoldable pub run_handler : Kind → Fields → Server G → Ending × Server G
    unfolding room_message_handler direct_message_handler game_or_default with_text
    run_handler creating_lobby frame s = create_lobby_message host games client frame s
    run_handler joining_lobby frame s = join_lobby_message host games client frame s
    run_handler finding_lobby frame s = find_lobby_message host games client frame s
    run_handler updating_settings frame s = update_lobby_settings_message host games client frame s
    run_handler starting_lobby frame s = (returned, start_lobby_message host games client s)
    run_handler leaving_lobby frame s = (returned, leave_lobby_message host games client s)
    run_handler resuming_lobby frame s = resume_lobby_message host games client ws frame s
    run_handler messaging_lobby frame s = lobby_message_handler parse client ws host games frame s
    run_handler creating_room frame s = (
      returned,
      create_room games client ws (get_field (codes "gameId") frame)
          (get_field (codes "side") frame) s,
    )
    run_handler joining_room frame s =
        with_text (text_or_empty host (get_field (codes "roomCode") frame))
          (λ code.
            join_room_by_code games client code (get_field (codes "side") frame)
              (get_field (codes "gameId") frame))
          s
    run_handler leaving_room frame s = (returned, leave_room_message client s)
    run_handler messaging_room frame s = room_message_handler frame s
    run_handler messaging_client frame s = direct_message_handler frame s
    run_handler finding_match frame s =
        with_text (game_or_default host (get_field (codes "gameId") frame))
          (λ game. find_match games client ws game (get_field (codes "side") frame)) s
    run_handler asking_status frame s =
        with_text (game_or_default host (get_field (codes "gameId") frame))
          (watch_queue_status client) s
    run_handler cancelling_match frame s = (returned, cancel_match client ws s)
    run_handler pinging frame s = (returned, reply ws pong s)

    unfoldable pub call_inherited : Option Bool → Server G → Ending × Server G
    call_inherited none s = (returned, reply ws (failure unknown_type) s)
    call_inherited (some true) s = (thrown, s)
    call_inherited (some false) s = (returned, s)

    -- `handlers[data.type]` and its call.
    unfoldable pub handle_type : Text → Fields → Server G → Ending × Server G
    unfolding run_handler call_inherited
    handle_type key frame s = elim (get? key handlers) [
      | none ↦ call_inherited (get? key inherited) s
      | some kind ↦ run_handler kind frame s
    ]

    unfoldable pub dispatch_client_message :
        Option (Server G → Ending × Server G) → Fields → Server G → Ending × Server G
    unfolding handle_type
    dispatch_client_message none frame s = handle_type (type_of frame) frame s
    dispatch_client_message (some bridge) frame s = bridge s

    -- The `catch` around the dispatch.
    unfoldable pub catch_thrown : Ending × Server G → Ending × Server G
    catch_thrown (thrown, s) = (returned, reply ws (failure internal) s)
    catch_thrown other = other

    unfoldable pub handle_verdict :
        (Json → Option (Server G → Ending × Server G))
        → Json
        → Option Verdict
        → Server G
        → Ending × Server G
    unfolding dispatch_client_message catch_thrown
    handle_verdict route (object frame) (some accepted) s =
        catch_thrown (dispatch_client_message (route (object frame)) frame s)
    handle_verdict route json none s = (thrown, s)
    handle_verdict route json (some refused) s = (returned, reply ws (failure bad_message) s)

    -- `route` is the bridge that claims the client's message.
    unfoldable pub handle_client_message :
        (Json → Option (Server G → Ending × Server G)) → Text → Server G → Ending × Server G
    unfolding handle_verdict
    handle_client_message route raw s = elim (parse raw) [
      | none ↦ (returned, reply ws (failure bad_json) s)
      | some json ↦ handle_verdict route json (validate_client_frame host json) s
    ]
