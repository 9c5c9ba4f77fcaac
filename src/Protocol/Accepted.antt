-- ===== src/Protocol/Accepted.antt =====
-- Which frames `validateClientFrame` of src/protocol.mjs accepts.
use factory_network_server.Prelude.{
  ℕ, ◌≡◌, ◌≤◌, refl, true, false, none, some, List, [], ◌∷◌, length, arith, any, not, ◌↔◌, is_some,
  ◌++◌,
}
use factory_network_server.Prelude.Texts.{Text, codes}
use factory_network_server.Js.Values.{Json, text, object, Fields, get_field, is_null}
use factory_network_server.Js.Strings.{is_space}
use factory_network_server.Js.Convert.{Host, to_text}
use factory_network_server.Protocol.{
  accepted, field_limits, object_fields, is_type, check_limit, check_text, check_limits,
  validate_client_frame,
}
use factory_network_server.Protocol.Checks.{
  IsObjectIfAny, Objects, Fits, AllFit, Fits-check_limit, AllFit-check_limits,
  Objects-check_objects, check_fields-accepted, typed-check_fields, is_type-text, text-is_type,
}

-- The words of the rule: the type is a string that is not blank and has at most 64 units, the limited
-- fields are absent or short as strings, and `settings` and `identity` are objects where they are given.
pub record IsFrame (host : Host) (frame : Fields) : Type 0 where
  pub kind : Text
  pub typed : get_field (codes "type") frame ≡ some (text kind)
  pub solid : any (λ c. not (is_space c)) kind ≡ true
  pub short : length kind ≤ 64
  pub game_id : Fits host (codes "gameId") 64 frame
  pub room_code : Fits host (codes "roomCode") 16 frame
  pub message_type : Fits host (codes "messageType") 96 frame
  pub target_id : Fits host (codes "targetId") 128 frame
  pub client_id : Fits host (codes "clientId") 128 frame
  pub session_token : Fits host (codes "sessionToken") 128 frame
  pub settings : IsObjectIfAny (codes "settings") frame
  pub identity : IsObjectIfAny (codes "identity") frame

accepted-IsFrame :
    (host : Host) (frame : Fields)
    → validate_client_frame host (object frame) ≡ some accepted
    → IsFrame host frame
accepted-IsFrame host frame h =
    let (ty, c) = typed-check_fields host frame h in
    let (kind, typed, solid, short) = is_type-text (get_field (codes "type") frame) ty in
    let ((game, (room, (message, (target, (client, (token, _)))))), (settings, (identity, _))) =
      check_fields-accepted host frame c in
    record {
      kind = kind;
      typed = typed;
      solid = solid;
      short = short;
      game_id = game;
      room_code = room;
      message_type = message;
      target_id = target;
      client_id = client;
      session_token = token;
      settings = settings;
      identity = identity;
    }

IsFrame-accepted :
    (host : Host) (frame : Fields)
    → IsFrame host frame
    → validate_client_frame host (object frame) ≡ some accepted
unfolding validate_client_frame
IsFrame-accepted host frame f =
    let fits : AllFit host field_limits frame = (
      f.game_id,
      (f.room_code, (f.message_type, (f.target_id, (f.client_id, (f.session_token, tt))))),
    ) in
    let objects : Objects object_fields frame = (f.settings, (f.identity, tt)) in
    let ty : is_type (get_field (codes "type") frame) ≡ true =
      rw f.typed (text-is_type f.kind f.solid f.short) in
    ground (
      arith,
      ty,
      AllFit-check_limits host field_limits frame fits,
      Objects-check_objects object_fields frame objects,
    )

-- An object is accepted as a frame exactly if its type is a string of at most 64 units that are not
-- all white space, the strings of gameId, roomCode, messageType, targetId, clientId and
-- sessionToken, where not absent or null, have at most 64, 16, 96, 128, 128 and 128 units, and
-- settings and identity, where present, are objects.
pub validate_client_frame_iff :
    (host : Host) (frame : Fields)
    → (validate_client_frame host (object frame) ≡ some accepted) ↔ IsFrame host frame
validate_client_frame_iff host frame = (accepted-IsFrame host frame, IsFrame-accepted host frame)

check_limits_throw :
    (host : Host) (before after : List (Text × ℕ)) (k : Text) (n : ℕ) (frame : Fields) (v : Json)
    → AllFit host before frame
    → get_field k frame ≡ some v
    → is_null v ≡ false
    → to_text host v ≡ none
    → check_limits host (before ++ (k, n) ∷ after) frame ≡ none
unfolding check_limits check_limit check_text
check_limits_throw host [] after k n frame v fit e p t = ground arith
check_limits_throw host ((j, m) ∷ before) after k n frame v (f, fit) e p t = ground (
  arith,
  Fits-check_limit host j m frame f,
  check_limits_throw host before after k n frame v fit e p t,
)

-- If the type of a frame is good, the limited fields checked before a field k fit, and k holds an
-- object with a member named toString, then the check throws.
pub validate_client_frame_throws :
    (host : Host) (before after : List (Text × ℕ)) (k : Text) (n : ℕ) (frame inner : Fields)
    → field_limits ≡ before ++ (k, n) ∷ after
    → is_type (get_field (codes "type") frame) ≡ true
    → AllFit host before frame
    → get_field k frame ≡ some (object inner)
    → is_some (get_field (codes "toString") inner) ≡ true
    → validate_client_frame host (object frame) ≡ none
unfolding validate_client_frame to_text
validate_client_frame_throws host before after k n frame inner l ty fit e str =
    ground (arith, check_limits_throw host before after k n frame (object inner) fit e refl)
