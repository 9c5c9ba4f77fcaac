-- ===== src/Router/Caught.antt =====
-- The exceptions that `handleClientMessage` of src/router.mjs does not catch.
use factory_network_server.Prelude.{◌≡◌, ◌≢◌, ◌↔◌, refl, sym, ap, ◌∙◌, ℕ, Option, none, some}
use factory_network_server.Prelude.Texts.{Text}
use factory_network_server.Js.Values.{Json, object}
use factory_network_server.Js.Convert.{Host}
use factory_network_server.Protocol.{Verdict, accepted, validate_client_frame}
use factory_network_server.State.{Server}
use factory_network_server.Games.{Registry}
use factory_network_server.Lobby.Creating.{Ending, returned, thrown, searching_code}
use factory_network_server.Router.Dispatch.{
  dispatch_client_message, catch_thrown, handle_verdict, handle_client_message,
}

module _ {G : Type 0} (parse : Text → Option Json) (host : Host) (games : Registry G)
    (client : Text) (ws : ℕ) where
  caught : (e : Ending) (s : Server G) → (catch_thrown parse host games client ws (e, s)).0 ≢ thrown
  unfolding catch_thrown
  caught returned s h = cc
  caught thrown s h = cc
  caught searching_code s h = cc

  verdict_caught :
      (route : Json → Option (Server G → Ending × Server G)) (json : Json)
      (verdict : Option Verdict) (s : Server G)
      → (handle_verdict parse host games client ws route json verdict s).0 ≡ thrown
      → verdict ≡ none
  unfolding handle_verdict
  verdict_caught route json none s h = refl
  verdict_caught route (object frame) (some accepted) s h =
      let (e, t) =
        dispatch_client_message parse host games client ws (route (object frame)) frame s in
      absurd (caught e t h)
  verdict_caught route json (some refused) s h = cc

  thrown_at :
      (route : Json → Option (Server G → Ending × Server G)) (raw : Text) (json : Json)
      (s : Server G)
      → parse raw ≡ some json
      → validate_client_frame host json ≡ none
      → (handle_client_message parse host games client ws route raw s).0 ≡ thrown
  unfolding handle_client_message handle_verdict
  thrown_at route raw json s e f = rw (e, handle_client_message) (rw f)

  thrown_from :
      (route : Json → Option (Server G → Ending × Server G)) (raw : Text) (parsed : Option Json)
      (s : Server G)
      → parse raw ≡ parsed
      → (handle_client_message parse host games client ws route raw s).0 ≡ thrown
      → (json : Json) × (parsed ≡ some json) × (validate_client_frame host json ≡ none)
  unfolding handle_client_message
  thrown_from route raw none s e h =
      let quiet : (handle_client_message parse host games client ws route raw s).0 ≡ returned =
        rw (e, handle_client_message) in
      cc
  thrown_from route raw (some json) s e h =
      let same : handle_client_message parse host games client ws route raw s
          ≡ handle_verdict parse host games client ws route json (validate_client_frame host json)
              s =
        rw (e, handle_client_message) in
      (
        json,
        refl,
        verdict_caught route json (validate_client_frame host json) s
            (ap (λ (r : Ending × Server G). r.0) (sym same) ∙ h),
      )

  -- An exception leaves the handling of a client's message exactly if the message is JSON on which
  -- the check of the frame throws, whatever the handlers, the games and their bridges do.
  pub handle_client_message_throws :
      (route : Json → Option (Server G → Ending × Server G)) (raw : Text) (s : Server G)
      → ((handle_client_message parse host games client ws route raw s).0 ≡ thrown)
        ↔ ((json : Json) × (parse raw ≡ some json) × (validate_client_frame host json ≡ none))
  handle_client_message_throws route raw s =
      (thrown_from route raw (parse raw) s refl, λ (json, e, f). thrown_at route raw json s e f)
