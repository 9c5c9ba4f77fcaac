-- ===== src/Tests/Values.antt =====
-- Concrete frames, settings, times and origins.
use factory_network_server.Prelude.{
  ap, ◌≢◌, ℕ, ◌≡◌, ◌≤◌, ◌↔◌, ◌*◌, refl, none, some, List, [], ◌∷◌, length, arith,
}
use factory_network_server.Prelude.Texts.{Text, codes, Text_eq, text_eq}
use factory_network_server.Prelude.Int.{pos}
use factory_network_server.Js.Values.{
  nan, finite, number, text, object, Fields, end, field, get_field, property,
}
use factory_network_server.Js.Strings.{trim, trim_start, trim_end, is_space}
use factory_network_server.Js.Values.{property}
use factory_network_server.Js.Convert.{Host, to_number}
use factory_network_server.Util.{
  Limits, clamp_int, sanitize_lobby_game_id, sanitize_lobby_settings, settings_of,
}
use factory_network_server.Util.Bounds.{IsBounded, sanitize_lobby_settings-IsBounded}
use factory_network_server.Protocol.{accepted, is_type, validate_client_frame}
use factory_network_server.Protocol.Accepted.{
  IsFrame, validate_client_frame_iff, validate_client_frame_throws,
}
use factory_network_server.Guard.{Limiter, passed, parse_allowed_origins}
use factory_network_server.Guard.Rate.{passed-le_twice}
use factory_network_server.Guard.Origins.{IsOrigin, join_commas, parse_allowed_origins-join_commas}

-- Only the digit 3 is read as a number, and every number is printed as it.
abbrev host : Host
host = record { string_to_number = λ s. finite (pos 3) 0; number_to_text = λ n. codes "3" }

abbrev ping : Fields
ping = field (codes "type") (text (codes "ping")) end

abbrev poisoned : Fields
poisoned =
    field (codes "type") (text (codes "ping"))
      (field (codes "gameId") (object (field (codes "toString") (number nan) end)) end)

validate_client_frame_iff_example :
    (validate_client_frame host (object ping) ≡ some accepted) ↔ IsFrame host ping
validate_client_frame_iff_example = validate_client_frame_iff host ping

validate_client_frame_throws_example : validate_client_frame host (object poisoned) ≡ none
unfolding is_type trim_start trim_end trim is_space get_field text_eq
validate_client_frame_throws_example =
    validate_client_frame_throws host [] _ (codes "gameId") 64 poisoned
      (field (codes "toString") (number nan) end) refl refl tt refl refl

abbrev three : Limits
three = record { min_players = 3; max_players = 6 }

abbrev ranked : Fields
ranked = field (codes "ranked") (text (codes "yes")) end

abbrev padded : Text
padded = codes "abcdefghijklmnopqrstuvwxyzabcdefghijklmnopqrstuvwxyzabcdefghijk lm"

abbrev early : List ℕ
early = 600 ∷ 700 ∷ 700 ∷ []

abbrev limiter : Limiter
limiter = record { limit = 2; window_ms = 1000; window_started_at = 500; count = 1 }

passed-le_twice_example : passed (1400 ∷ 1600 ∷ 1700 ∷ 1800 ∷ []) limiter ≤ 2 * limiter.limit
passed-le_twice_example =
    passed-le_twice (1400 ∷ 1600 ∷ 1700 ∷ 1800 ∷ []) limiter 1000 (omega arith)
      (omega arith, (omega arith, (omega arith, (omega arith, tt))))
      (omega arith, (omega arith, (omega arith, (omega arith, tt))))

abbrev here : Text
here = codes "https://a.example"

abbrev there : Text
there = codes "https://b.example"

here-IsOrigin : IsOrigin here
unfolding trim_start trim_end trim is_space
here-IsOrigin = record { full = cc; plain = refl; tight = refl }

there-IsOrigin : IsOrigin there
unfolding trim_start trim_end trim is_space
there-IsOrigin = record { full = cc; plain = refl; tight = refl }

parse_allowed_origins-join_commas_example :
    parse_allowed_origins (join_commas (here ∷ there ∷ [])) ≡ here ∷ there ∷ []
parse_allowed_origins-join_commas_example =
    parse_allowed_origins-join_commas here (there ∷ []) (here-IsOrigin, (there-IsOrigin, tt))

padded_moves :
    trim (sanitize_lobby_game_id (some (text padded))) ≢ sanitize_lobby_game_id (some (text padded))
unfolding sanitize_lobby_game_id trim_start trim_end trim is_space
padded_moves e = omega (arith, ap length e)

sanitize_lobby_settings-IsBounded_example :
    IsBounded (settings_of (λ k. property k (object ranked)) nan nan 1 0 1)
unfolding sanitize_lobby_settings clamp_int to_number property get_field text_eq
sanitize_lobby_settings-IsBounded_example =
    sanitize_lobby_settings-IsBounded host (some (object ranked)) refl
