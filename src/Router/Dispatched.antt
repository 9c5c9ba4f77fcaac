-- ===== src/Router/Dispatched.antt =====
-- `handleClientMessage`, `handleClientDisconnect` and the end of a suspended seat, whole, and the maps
-- of rooms and queues.
use factory_network_server.Prelude.{
  ℕ, ◌≡◌, refl, sym, ap, ◌∙◌, Bool, true, false, Option, none, some, Option-cases, inl, inr,
}
use factory_network_server.Prelude.Texts.{Text, Text_eq}
use factory_network_server.Prelude.Maps.{get?}
use factory_network_server.Js.Values.{Json, object, Fields}
use factory_network_server.Js.Convert.{Host}
use factory_network_server.Protocol.{Verdict, accepted, validate_client_frame}
use factory_network_server.State.{Server}
use factory_network_server.Transport.{reply}
use factory_network_server.Games.{Registry}
use factory_network_server.Lobby.Frame.{outside}
use factory_network_server.Lobby.Creating.{Ending, returned, thrown, searching_code}
use factory_network_server.Router.Orderly.{IsOrderly, IsOrderly-outside}
use factory_network_server.Router.Dispatch.{
  Kind, handlers, inherited, type_of, call_inherited, handle_type, dispatch_client_message,
  catch_thrown, handle_verdict, handle_client_message,
}
use factory_network_server.Router.Handled.{kind_enters, run_handler-IsOrderly}

module _ {G : Type 0} where
  abbrev json_enters : Option Json → Text → Server G → Bool
  json_enters (some (object frame)) client s = kind_enters (get? (type_of frame) handlers) client s
  json_enters _ client s = false

  -- Whether the message opens or joins a room for a client who stands in a queue.
  unfoldable pub enters_queued : (Text → Option Json) → Text → Text → Server G → Bool
  enters_queued parse client raw s = json_enters (parse raw) client s

  -- A bridge that takes messages changes nothing of rooms, queues and sockets.
  abbrev pub IsApart : (Json → Option (Server G → Ending × Server G)) → Type 0
  IsApart route =
      (json : Json) (bridge : Server G → Ending × Server G)
      → route json ≡ some bridge
      → (s : Server G) → outside (bridge s).1 ≡ outside s

module _ {G : Type 0} (parse : Text → Option Json) (host : Host) (games : Registry G)
    (client : Text) (ws : ℕ) where
  call_inherited-IsOrderly :
      (throws : Option Bool) (s : Server G)
      → IsOrderly s
      → IsOrderly (call_inherited parse host games client ws throws s).1
  unfolding call_inherited reply
  call_inherited-IsOrderly none s v = v
  call_inherited-IsOrderly (some true) s v = v
  call_inherited-IsOrderly (some false) s v = v

  handle_type-IsOrderly :
      (key : Text) (frame : Fields) (s : Server G)
      → IsOrderly s
      → kind_enters (get? key handlers) client s ≡ false
      → IsOrderly (handle_type parse host games client ws key frame s).1
  unfolding handle_type
  handle_type-IsOrderly key frame s v h = elim (Option-cases (get? key handlers)) [
    | inl e ↦ rw (e, handle_type) (call_inherited-IsOrderly (get? key inherited) s v)
    | inr (kind, e) ↦
        rw (e, handle_type)
          (run_handler-IsOrderly parse host games client ws kind frame s v
            (ap (λ (k : Option Kind). kind_enters k client s) (sym e) ∙ h))
  ]

  dispatch-IsOrderly :
      (bridge : Option (Server G → Ending × Server G)) (frame : Fields) (s : Server G)
      → IsOrderly s
      → ((b : Server G → Ending × Server G) → bridge ≡ some b → outside (b s).1 ≡ outside s)
      → kind_enters (get? (type_of frame) handlers) client s ≡ false
      → IsOrderly (dispatch_client_message parse host games client ws bridge frame s).1
  unfolding dispatch_client_message
  dispatch-IsOrderly none frame s v apart h = handle_type-IsOrderly (type_of frame) frame s v h
  dispatch-IsOrderly (some b) frame s v apart h = IsOrderly-outside (b s).1 s (apart b refl) v

  catch_thrown-IsOrderly :
      (e : Ending) (s : Server G)
      → IsOrderly s
      → IsOrderly (catch_thrown parse host games client ws (e, s)).1
  unfolding catch_thrown reply
  catch_thrown-IsOrderly returned s v = v
  catch_thrown-IsOrderly thrown s v = v
  catch_thrown-IsOrderly searching_code s v = v

  handle_verdict-IsOrderly :
      (route : Json → Option (Server G → Ending × Server G)) (json : Json)
      (verdict : Option Verdict) (s : Server G)
      → IsOrderly s
      → IsApart route
      → json_enters (some json) client s ≡ false
      → IsOrderly (handle_verdict parse host games client ws route json verdict s).1
  unfolding handle_verdict reply
  handle_verdict-IsOrderly route json none s v apart h = v
  handle_verdict-IsOrderly route (object frame) (some accepted) s v apart h =
      let (e, t) =
        dispatch_client_message parse host games client ws (route (object frame)) frame s in
      catch_thrown-IsOrderly e t
        (dispatch-IsOrderly (route (object frame)) frame s v (λ b e. apart (object frame) b e s) h)
  handle_verdict-IsOrderly route json (some refused) s v apart h = v

  -- Whatever bytes a client sends, if the server is orderly, the game's bridges change nothing of
  -- rooms, queues and sockets, and the message does not open or join a room for a client who stands
  -- in a queue, then the server is orderly after the message.
  pub handle_client_message-IsOrderly :
      (route : Json → Option (Server G → Ending × Server G)) (raw : Text) (s : Server G)
      → IsOrderly s
      → IsApart route
      → enters_queued parse client raw s ≡ false
      → IsOrderly (handle_client_message parse host games client ws route raw s).1
  unfolding handle_client_message enters_queued reply
  handle_client_message-IsOrderly route raw s v apart h = elim (Option-cases (parse raw)) [
    | inl e ↦ rw (e, handle_client_message) v
    | inr (json, e) ↦
        rw (e, handle_client_message)
          (handle_verdict-IsOrderly route json (validate_client_frame host json) s v apart
            (ap (λ (j : Option Json). json_enters j client s) (sym e) ∙ h))
  ]
