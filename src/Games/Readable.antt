-- ===== src/Games/Readable.antt =====
-- Asking the bridges of games/registry.mjs who takes a message that src/protocol.mjs has accepted.
use factory_network_server.Prelude.{
  ℕ, ◌≡◌, ◌≢◌, refl, true, none, some, List, [], ◌∷◌, arith, inl, inr, Bool-cases, is_some,
}
use factory_network_server.Prelude.Texts.{Text, codes, Text_eq}
use factory_network_server.Js.Values.{Json, text, object, Fields, get_field, truthy}
use factory_network_server.Js.Convert.{Host, to_text}
use factory_network_server.Protocol.{accepted, validate_client_frame}
use factory_network_server.Protocol.Checks.{Fits, IsAbsent}
use factory_network_server.Protocol.Accepted.{validate_client_frame_iff}
use factory_network_server.Lobby.Joining.{text_or_empty}
use factory_network_server.Games.Definitions.{Route, by_session, by_orbit, by_prefix}
use factory_network_server.Games.Bridges.{
  Instance, Entry, field_text, route_session, session_code, route_orbit, orbit_code, should_route,
  route_to_bridge,
}

text-or_empty :
    (host : Host) (v : Json) (s : Text)
    → to_text host v ≡ some s
    → (t : Text) × (text_or_empty host (some v) ≡ some t)
unfolding text_or_empty
text-or_empty host v s e = elim (Bool-cases (truthy (some v))) [
  | inl p ↦ (s, rw p e)
  | inr p ↦ ([], rw p refl)
]

absent-or_empty :
    (host : Host) (key : Text) (frame : Fields)
    → IsAbsent key frame
    → text_or_empty host (get_field key frame) ≡ some []
unfolding text_or_empty
absent-or_empty host key frame (inl e) = rw e refl
absent-or_empty host key frame (inr e) = rw e refl

module _ (host : Host) (frame : Fields) where
  -- A limited field that fits has a string.
  Fits-text :
      (key : Text) (n : ℕ)
      → Fits host key n frame
      → (t : Text) × (field_text host frame key ≡ some t)
  Fits-text key n (inl h) = ([], absent-or_empty host key frame h)
  Fits-text key n (inr (v, s, e, t, l)) = let (u, f) = text-or_empty host v s t in (u, rw e f)

  -- The strings that the bridges read of a message.
  abbrev pub IsReadable : Type 0
  IsReadable =
      ((t : Text) × (field_text host frame (codes "type") ≡ some t))
      × ((t : Text) × (field_text host frame (codes "gameId") ≡ some t))
      × ((t : Text) × (field_text host frame (codes "roomCode") ≡ some t))

  pub accepted-IsReadable : validate_client_frame host (object frame) ≡ some accepted → IsReadable
  accepted-IsReadable h =
      let f = (validate_client_frame_iff host frame).0 h in
      let (kind, typed) = text-or_empty host (text f.kind) f.kind (unfold to_text in refl) in
      (
        (kind, rw f.typed typed),
        Fits-text (codes "gameId") 64 f.game_id,
        Fits-text (codes "roomCode") 16 f.room_code,
      )

module _ (host : Host) (client : Text) (frame : Fields) where
  should_route-some :
      (route : Route) (i : Instance)
      → IsReadable host frame
      → is_some (should_route host client frame route i) ≡ true
  unfolding should_route route_session session_code route_orbit orbit_code
  should_route-some (by_session own) i ((t, a), (g, b), (c, d)) = ground (arith, a, b, d)
  should_route-some by_orbit i ((t, a), (g, b), (c, d)) = ground (arith, a, b, d)
  should_route-some (by_prefix p) i ((t, a), g, r) = ground (arith, a)

  readable-route_to_bridge :
      (es : List Entry) → IsReadable host frame → route_to_bridge host client frame es ≢ none
  unfolding route_to_bridge
  readable-route_to_bridge [] r = ground arith
  readable-route_to_bridge (e ∷ es) r =
      ground (arith, should_route-some e.route e.instance r, readable-route_to_bridge es r)

  -- If the check of the frame accepts a message, then asking the bridges who takes it does not
  -- throw, whichever bridges there are and whatever they hold.
  pub route_to_bridge-accepted :
      (es : List Entry)
      → validate_client_frame host (object frame) ≡ some accepted
      → route_to_bridge host client frame es ≢ none
  route_to_bridge-accepted es h = readable-route_to_bridge es (accepted-IsReadable host frame h)
