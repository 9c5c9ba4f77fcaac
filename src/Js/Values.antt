-- ===== src/Js/Values.antt =====
-- JSON values as `JSON.parse` builds them, and truthiness.
use factory_network_server.Prelude.{
  ℕ, Bool, true, false, Option, none, some, if◌then◌else◌, ◌==◌, not, List, [], ◌∷◌,
}
use factory_network_server.Prelude.Texts.{Text, codes, Text_eq}
use factory_network_server.Prelude.Int.{ℤ, pos}

-- `finite whole part` is whole + part / 2 ^ 1074, a fraction below 1; `whole` is its floor.
pub data Number : Type 0 where
  nan infinity minus_infinity : Number
  finite : ℤ → ℕ → Number

mutual
  pub data Json : Type 0 where
    null : Json
    boolean : Bool → Json
    number : Number → Json
    text : Text → Json
    array : Items → Json
    object : Fields → Json

  pub data Items : Type 0 where
    nil : Items
    cons : Json → Items → Items

  pub data Fields : Type 0 where
    end : Fields
    field : Text → Json → Fields → Fields

-- An own property; `none` is `undefined`.
unfoldable pub get_field : Text → Fields → Option Json
get_field k end = none
get_field k (field j v fs) = let rest = get_field k fs in if j == k then some v else rest

-- `x.k` on a value that is not null; only objects have the properties that the server reads.
unfoldable pub property : Text → Json → Option Json
unfolding get_field
property k (object fs) = get_field k fs
property k _ = none

abbrev is_zero : Number → Bool
is_zero (finite (pos ℕ.zero) ℕ.zero) = true
is_zero nan = true
is_zero _ = false

abbrev is_empty : Text → Bool
is_empty [] = true
is_empty (c ∷ s) = false

-- `!!x`
abbrev pub truthy : Option Json → Bool
truthy none = false
truthy (some null) = false
truthy (some (boolean b)) = b
truthy (some (number n)) = not (is_zero n)
truthy (some (text s)) = not (is_empty s)
truthy (some _) = true

abbrev pub is_null : Json → Bool
is_null null = true
is_null _ = false

-- `x === undefined || x === null`
abbrev pub is_nullish : Option Json → Bool
is_nullish none = true
is_nullish (some v) = is_null v

-- `x && typeof x === "object" && !Array.isArray(x)`
abbrev pub is_plain_object : Json → Bool
is_plain_object (object fs) = true
is_plain_object _ = false

-- The names that every object inherits from its prototype.
abbrev pub inherited_names : List Text
inherited_names =
    codes "constructor"
    ∷ codes "toString"
    ∷ codes "toLocaleString"
    ∷ codes "valueOf"
    ∷ codes "hasOwnProperty"
    ∷ codes "isPrototypeOf"
    ∷ codes "propertyIsEnumerable"
    ∷ codes "__proto__"
    ∷ codes "__defineGetter__"
    ∷ codes "__defineSetter__"
    ∷ codes "__lookupGetter__"
    ∷ codes "__lookupSetter__"
    ∷ []
