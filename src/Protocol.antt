-- ===== src/Protocol.antt =====
-- src/protocol.mjs: the check of a frame before it is dispatched.
pub mod Checks
pub mod Accepted
use factory_network_server.Prelude.{
  ℕ, Bool, true, false, Option, none, some, List, [], ◌∷◌, ◌>>=◌, if◌then◌else◌, length, ltb, leb,
  ◌||◌, not,
}
use factory_network_server.Prelude.Texts.{Text, codes}
use factory_network_server.Js.Values.{
  Json, null, boolean, number, text, array, object, Fields, get_field, is_nullish, is_plain_object,
  is_null,
}
use factory_network_server.Js.Strings.{trim}
use factory_network_server.Js.Convert.{Host, to_text}

-- The messages of a refusal.
pub data Verdict : Type 0 where
  accepted : Verdict
  not_an_object : Verdict
  bad_type : Verdict
  too_long : Text → Verdict
  not_a_json_object : Text → Verdict

abbrev pub field_limits : List (Text × ℕ)
field_limits =
    (codes "gameId", 64)
    ∷ (codes "roomCode", 16)
    ∷ (codes "messageType", 96)
    ∷ (codes "targetId", 128)
    ∷ (codes "clientId", 128)
    ∷ (codes "sessionToken", 128)
    ∷ []

abbrev pub object_fields : List Text
object_fields = codes "settings" ∷ codes "identity" ∷ []

abbrev pub is_blank : Text → Bool
is_blank [] = true
is_blank (c ∷ s) = false

-- `typeof frame.type !== "string" || !frame.type.trim() || frame.type.length > 64`, negated
unfoldable pub is_type : Option Json → Bool
is_type (some (text s)) = not (is_blank (trim s) || ltb 64 (length s))
is_type _ = false

-- `settings` and `identity` may be undefined, but not null.
unfoldable pub check_objects : List Text → Fields → Verdict
check_objects [] frame = accepted
check_objects (k ∷ ks) frame =
    let rest = check_objects ks frame in
    elim (get_field k frame) [
      | none ↦ rest
      | some v ↦ if is_plain_object v then rest else not_a_json_object k
    ]

-- What `String(frame[field]).length > maxLength` decides; `none` where `String` throws.
unfoldable pub check_text : Text → ℕ → Option Text → Option Verdict
check_text k n t = do s ← t; some (if leb (length s) n then accepted else too_long k)

module _ (host : Host) where
  unfoldable pub check_limit : Text → ℕ → Option Json → Option Verdict
  check_limit k n none = some accepted
  check_limit k n (some v) = if is_null v then some accepted else check_text k n (to_text host v)

  unfoldable pub check_limits : List (Text × ℕ) → Fields → Option Verdict
  check_limits [] frame = some accepted
  check_limits ((k, n) ∷ limits) frame =
      let rest = check_limits limits frame in
      elim (check_limit k n (get_field k frame)) [
        | none ↦ none
        | some accepted ↦ rest
        | some refused ↦ some refused
      ]

  unfoldable pub check_fields : Fields → Option Verdict
  check_fields frame = elim (check_limits field_limits frame) [
    | none ↦ none
    | some accepted ↦ some (check_objects object_fields frame)
    | some refused ↦ some refused
  ]

  unfoldable pub validate_client_frame : Json → Option Verdict
  unfolding check_fields
  validate_client_frame (object frame) =
      if is_type (get_field (codes "type") frame) then check_fields frame else some bad_type
  validate_client_frame _ = some not_an_object
