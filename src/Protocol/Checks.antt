-- ===== src/Protocol/Checks.antt =====
-- What the tests of `validateClientFrame` of src/protocol.mjs ask of a frame, one by one.
use factory_network_server.Prelude.{
  ℕ, ◌≡◌, ◌≤◌, refl, true, false, Option, none, some, List, [], ◌∷◌, length, arith, any, not, Bool,
  if◌then◌else◌, ◌⊎◌, inl, inr, Bool-cases, Option-cases, ap, ◌∙◌,
}
use factory_network_server.Prelude.Texts.{Text, codes}
use factory_network_server.Js.Values.{
  Json, null, text, object, Fields, get_field, is_plain_object, is_null,
}
use factory_network_server.Js.Strings.{is_space, trim, trim_start, trim_end, trim_cons}
use factory_network_server.Js.Convert.{Host, to_text}
use factory_network_server.Protocol.{
  accepted, is_blank, field_limits, object_fields, is_type, check_objects, check_limit, check_text,
  check_limits, check_fields, validate_client_frame,
}

-- A field is undefined or null.
abbrev pub IsAbsent : Text → Fields → Type 0
IsAbsent k frame = (get_field k frame ≡ none) ⊎ (get_field k frame ≡ some null)

-- A field is undefined or an object.
abbrev pub IsObjectIfAny : Text → Fields → Type 0
IsObjectIfAny k frame =
    (get_field k frame ≡ none) ⊎ ((fs : Fields) × (get_field k frame ≡ some (object fs)))

abbrev pub Objects : List Text → Fields → Type 0
Objects [] frame = Unit
Objects (k ∷ ks) frame = IsObjectIfAny k frame × Objects ks frame

check_text-accepted :
    (k : Text) (n : ℕ) (t : Option Text)
    → check_text k n t ≡ some accepted
    → (s : Text) × (t ≡ some s) × (length s ≤ n)
unfolding check_text
check_text-accepted k n none h = cc
check_text-accepted k n (some s) h = (s, refl, ground arith)

is_null-null : (v : Json) → is_null v ≡ true → v ≡ null
is_null-null null h = refl
is_null-null _ h = cc

module _ (host : Host) where
  -- The string of a field, where it has one, fits.
  abbrev pub Fits : Text → ℕ → Fields → Type 0
  Fits k n frame =
      IsAbsent k frame
      ⊎ ((v : Json) × (s : Text) × (get_field k frame ≡ some v)
          × (to_text host v ≡ some s)
          × (length s ≤ n))

  abbrev pub AllFit : List (Text × ℕ) → Fields → Type 0
  AllFit [] frame = Unit
  AllFit ((k, n) ∷ limits) frame = Fits k n frame × AllFit limits frame

  check_limit-Fits :
      (k : Text) (n : ℕ) (frame : Fields) (o : Option Json)
      → get_field k frame ≡ o
      → check_limit host k n o ≡ some accepted
      → Fits k n frame
  unfolding check_limit
  check_limit-Fits k n frame none e h = inl (inl e)
  check_limit-Fits k n frame (some v) e h = elim (Bool-cases (is_null v)) [
    | inl p ↦ inl (inr (e ∙ ap some (is_null-null v p)))
    | inr p ↦
        let (s, t, l) = check_text-accepted k n (to_text host v) (ground arith) in
        inr (v, s, e, t, l)
  ]

  pub Fits-check_limit :
      (k : Text) (n : ℕ) (frame : Fields)
      → Fits k n frame
      → check_limit host k n (get_field k frame) ≡ some accepted
  unfolding check_limit check_text
  Fits-check_limit k n frame (inl (inl p)) = rw p refl
  Fits-check_limit k n frame (inl (inr p)) = rw p refl
  Fits-check_limit k n frame (inr (v, s, e, t, l)) = ground arith

  check_limits-AllFit :
      (limits : List (Text × ℕ)) (frame : Fields)
      → check_limits host limits frame ≡ some accepted
      → AllFit limits frame
  unfolding check_limits
  check_limits-AllFit [] frame h = tt
  check_limits-AllFit ((k, n) ∷ limits) frame h = (
    check_limit-Fits k n frame (get_field k frame) refl (ground arith),
    check_limits-AllFit limits frame (ground arith),
  )

  pub AllFit-check_limits :
      (limits : List (Text × ℕ)) (frame : Fields)
      → AllFit limits frame
      → check_limits host limits frame ≡ some accepted
  unfolding check_limits
  AllFit-check_limits [] frame h = refl
  AllFit-check_limits ((k, n) ∷ limits) frame (f, h) =
      ground (arith, Fits-check_limit k n frame f, AllFit-check_limits limits frame h)

plain_object : (v : Json) → is_plain_object v ≡ true → (fs : Fields) × (v ≡ object fs)
plain_object (object fs) h = (fs, refl)
plain_object _ h = cc

check_objects-Objects :
    (ks : List Text) (frame : Fields) → check_objects ks frame ≡ accepted → Objects ks frame
unfolding check_objects
check_objects-Objects [] frame h = tt
check_objects-Objects (k ∷ ks) frame h = elim (Option-cases (get_field k frame)) [
  | inl e ↦ (inl e, check_objects-Objects ks frame (ground arith))
  | inr (v, e) ↦
      let (fs, o) = plain_object v (ground arith) in
      (inr (fs, e ∙ ap some o), check_objects-Objects ks frame (ground arith))
]

pub Objects-check_objects :
    (ks : List Text) (frame : Fields) → Objects ks frame → check_objects ks frame ≡ accepted
unfolding check_objects
Objects-check_objects [] frame h = refl
Objects-check_objects (k ∷ ks) frame (inl e, h) = ground (arith, Objects-check_objects ks frame h)
Objects-check_objects (k ∷ ks) frame (inr (fs, e), h) =
    ground (arith, Objects-check_objects ks frame h)

-- Some code unit is no white space.
abbrev pub has_solid : Text → Bool
has_solid = any (λ c. not (is_space c))

has_solid-trim_start : (s : Text) → has_solid (trim_start s) ≡ has_solid s
unfolding trim_start
has_solid-trim_start [] = refl
has_solid-trim_start (c ∷ s) = ground (arith, has_solid-trim_start s)

is_blank-trim_cons :
    (c : ℕ) (t : Text) → is_blank (trim_cons c t) ≡ (if is_blank t then is_space c else false)
unfolding trim_cons
is_blank-trim_cons c [] = ground arith
is_blank-trim_cons c (d ∷ t) = refl

is_blank-trim_end : (s : Text) → is_blank (trim_end s) ≡ not (has_solid s)
unfolding trim_end
is_blank-trim_end [] = refl
is_blank-trim_end (c ∷ s) = ground (arith, is_blank-trim_cons c (trim_end s), is_blank-trim_end s)

is_blank-trim : (s : Text) → is_blank (trim s) ≡ not (has_solid s)
unfolding trim
is_blank-trim s = is_blank-trim_end (trim_start s) ∙ ap not (has_solid-trim_start s)

-- What the test of the type asks for.
pub is_type-text :
    (o : Option Json)
    → is_type o ≡ true
    → (t : Text) × (o ≡ some (text t)) × (has_solid t ≡ true) × (length t ≤ 64)
unfolding is_type
is_type-text (some (text t)) h =
    (t, refl, ground (arith, is_blank-trim t), ground (arith, is_blank-trim t))
is_type-text _ h = cc

pub text-is_type : (t : Text) → has_solid t ≡ true → length t ≤ 64 → is_type (some (text t)) ≡ true
unfolding is_type
text-is_type t solid short = ground (arith, is_blank-trim t)

pub check_fields-accepted :
    (host : Host) (frame : Fields)
    → check_fields host frame ≡ some accepted
    → AllFit host field_limits frame × Objects object_fields frame
unfolding check_fields
check_fields-accepted host frame h = (
  check_limits-AllFit host field_limits frame (ground arith),
  check_objects-Objects object_fields frame (ground arith),
)

pub typed-check_fields :
    (host : Host) (frame : Fields)
    → validate_client_frame host (object frame) ≡ some accepted
    → (is_type (get_field (codes "type") frame) ≡ true) × (check_fields host frame ≡ some accepted)
unfolding validate_client_frame
typed-check_fields host frame h = elim (Bool-cases (is_type (get_field (codes "type") frame))) [
  | inl e ↦ (e, rw e at h)
  | inr e ↦ absurd (ground arith)
]
