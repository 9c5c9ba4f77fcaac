-- ===== src/Guard/Origins.antt =====
-- `parseAllowedOrigins` and `isOriginAllowed` of src/connection-guard.mjs.
use factory_network_server.Prelude.{
  ◌≡◌, ◌≢◌, ◌↔◌, refl, ap, ◌∙◌, true, List, [], ◌∷◌, ◌++◌, map, filter, filter_of_all, all, Option,
  none, some, contains, arith,
}
use factory_network_server.Prelude.Texts.{Text, Text_eq}
use factory_network_server.Js.Strings.{trim, lacks, split, split_one, split-append}
use factory_network_server.Guard.{parse_allowed_origins, is_origin_allowed, is_full}

abbrev pub join_commas : List Text → Text
join_commas [] = []
join_commas (a ∷ []) = a
join_commas (a ∷ b ∷ rest) = a ++ (44 ∷ join_commas (b ∷ rest))

-- An origin as an operator writes it: not empty, no comma in it, no white space around it.
pub record IsOrigin (a : Text) : Type 0 where
  pub full : a ≢ []
  pub plain : lacks 44 a ≡ true
  pub tight : trim a ≡ a

abbrev pub AllOrigins : List Text → Type 0
AllOrigins [] = Unit
AllOrigins (a ∷ rest) = IsOrigin a × AllOrigins rest

split-join_commas :
    (a : Text) (rest : List Text)
    → AllOrigins (a ∷ rest)
    → split 44 (join_commas (a ∷ rest)) ≡ a ∷ rest
split-join_commas a [] (o, _) = split_one 44 a o.plain
split-join_commas a (b ∷ rest) (o, os) =
    split-append 44 a (join_commas (b ∷ rest)) o.plain ∙ ap (◌∷◌ a) (split-join_commas b rest os)

map-trim : (origins : List Text) → AllOrigins origins → map trim origins ≡ origins
map-trim [] h = refl
map-trim (a ∷ rest) (o, os) = cc (o.tight, map-trim rest os)

full_of_ne : (a : Text) → a ≢ [] → is_full a ≡ true
full_of_ne [] n = absurd (n refl)
full_of_ne (c ∷ a) n = refl

all-is_full : (origins : List Text) → AllOrigins origins → all is_full origins ≡ true
all-is_full [] h = refl
all-is_full (a ∷ rest) (o, os) = rw (full_of_ne a o.full) (all-is_full rest os)

-- A list of one or more origins, none of them empty, with a comma or with white space at its ends,
-- is read back from its members joined by commas.
pub parse_allowed_origins-join_commas :
    (a : Text) (rest : List Text)
    → AllOrigins (a ∷ rest)
    → parse_allowed_origins (join_commas (a ∷ rest)) ≡ a ∷ rest
unfolding parse_allowed_origins
parse_allowed_origins-join_commas a rest h =
    ap (λ (parts : List Text). filter is_full (map trim parts)) (split-join_commas a rest h)
    ∙ ap (filter is_full) (map-trim (a ∷ rest) h)
    ∙ filter_of_all is_full (a ∷ rest) (all-is_full (a ∷ rest) h)

-- With such a list of origins, read from its members joined by commas, a request is let in exactly
-- if it names one of them.
pub is_origin_allowed_iff :
    (origin : Option Text) (a : Text) (rest : List Text)
    → AllOrigins (a ∷ rest)
    → (is_origin_allowed origin (parse_allowed_origins (join_commas (a ∷ rest))) ≡ true)
      ↔ ((o : Text) × (origin ≡ some o) × (contains o (a ∷ rest) ≡ true))
unfolding is_origin_allowed
is_origin_allowed_iff origin a rest h =
    rw (parse_allowed_origins-join_commas a rest h) (named origin, names origin)
  where
    named :
        (origin : Option Text)
        → is_origin_allowed origin (a ∷ rest) ≡ true
        → (o : Text) × (origin ≡ some o) × (contains o (a ∷ rest) ≡ true)
    named none e = cc
    named (some o) e = (o, refl, e)

    names :
        (origin : Option Text)
        → (o : Text) × (origin ≡ some o) × (contains o (a ∷ rest) ≡ true)
        → is_origin_allowed origin (a ∷ rest) ≡ true
    names none (o, e, c) = cc
    names (some p) (o, e, c) = ground arith
