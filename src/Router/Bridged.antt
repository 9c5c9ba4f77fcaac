-- ===== src/Router/Bridged.antt =====
-- The dispatch of src/router.mjs with the bridges of games/registry.mjs.
use factory_network_server.Prelude.{ℕ, ◌≡◌, refl, false, Option, none, some, List, contains}
use factory_network_server.Prelude.Texts.{Text, codes, Text_eq}
use factory_network_server.Js.Values.{Json, object, Fields}
use factory_network_server.Js.Convert.{Host}
use factory_network_server.Protocol.{Verdict, accepted, validate_client_frame}
use factory_network_server.State.{Server}
use factory_network_server.Games.{LobbyGame, Registry}
use factory_network_server.Games.Definitions.{starts_with, all_definitions}
use factory_network_server.Games.Bridges.{
  Instance, Entry, field_text, route_to_bridge, ensure_bridges, bridge_for, taken_by,
}
use factory_network_server.Games.Readable.{accepted-IsReadable}
use factory_network_server.Games.Routed.{session_types, other-route_to_bridge}
use factory_network_server.Lobby.Frame.{outside}
use factory_network_server.Lobby.Creating.{Ending, thrown}
use factory_network_server.Router.Dispatch.{handle_verdict, handle_client_message}
use factory_network_server.Router.Dispatched.{IsApart}

taken_by-apart :
    {G : Type 0} (handle : Entry → Server G → Ending × Server G) (o : Option (Option Entry))
    (bridge : Server G → Ending × Server G) (s : Server G)
    → ((e : Entry) → outside (handle e s).1 ≡ outside s)
    → taken_by handle o ≡ some bridge
    → outside (bridge s).1 ≡ outside s
taken_by-apart handle none bridge s apart taken =
    let same : (λ t. (thrown, t)) ≡ bridge = cc in rw (← same) refl
taken_by-apart handle (some none) bridge s apart taken = cc
taken_by-apart handle (some (some e)) bridge s apart taken =
    let same : handle e ≡ bridge = cc in rw (← same) (apart e)

module _ {G : Type 0} (host : Host) (client : Text) (es : List Entry)
    (handle : Json → Entry → Server G → Ending × Server G) where
  -- Where the handlers of the bridges change nothing of rooms, queues and sockets, no bridge does.
  pub bridge_for-IsApart :
      ((json : Json) (e : Entry) (s : Server G) → outside (handle json e s).1 ≡ outside s)
      → IsApart (bridge_for host client es handle)
  unfolding bridge_for
  bridge_for-IsApart apart (object frame) bridge taken s =
      taken_by-apart (handle (object frame)) (route_to_bridge host client frame es) bridge s
        (λ e. apart (object frame) e s) taken
  bridge_for-IsApart apart json bridge taken s = cc

module _ {G : Type 0} (parse : Text → Option Json) (host : Host) (games : Registry G)
    (client : Text) (ws : ℕ) where
  same_verdict :
      (route : Json → Option (Server G → Ending × Server G)) (frame : Fields)
      (verdict : Option Verdict) (s : Server G)
      → (verdict ≡ some accepted → route (object frame) ≡ none)
      → handle_verdict parse host games client ws route (object frame) verdict s
        ≡ handle_verdict parse host games client ws (λ json. none) (object frame) verdict s
  unfolding handle_verdict
  same_verdict route frame none s h = refl
  same_verdict route frame (some accepted) s h = rw (h refl) refl
  same_verdict route frame (some refused) s h = refl

  -- A message that is an object whose type is none of the seven types of the session bridges and
  -- begins with neither prefix is handled as if there were no bridges, whatever they hold and do.
  pub other-handle_client_message :
      (module_of : Text → LobbyGame G) (instance_of : Text → Instance)
      (handle : Json → Entry → Server G → Ending × Server G) (raw : Text) (frame : Fields)
      (type : Text) (s : Server G)
      → parse raw ≡ some (object frame)
      → field_text host frame (codes "type") ≡ some type
      → contains type session_types ≡ false
      → starts_with (codes "arcade_room_") type ≡ false
      → starts_with (codes "downs_race_") type ≡ false
      → handle_client_message parse host games client ws
          (bridge_for host client (ensure_bridges instance_of (all_definitions module_of)) handle)
          raw
          s
        ≡ handle_client_message parse host games client ws (λ json. none) raw s
  unfolding handle_client_message
  other-handle_client_message module_of instance_of handle raw frame type s parsed typed h a d =
      let es = ensure_bridges instance_of (all_definitions module_of) in
      let route = bridge_for host client es handle in
      rw (parsed, handle_client_message)
        (same_verdict route frame (validate_client_frame host (object frame)) s
          (λ (v : validate_client_frame host (object frame) ≡ some accepted).
            let (t, (game, named), r) = accepted-IsReadable host frame v in
            unfold bridge_for in
            rw
              (other-route_to_bridge module_of instance_of host client frame type game typed named h
                a d)
              refl))
