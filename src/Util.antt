-- ===== src/Util.antt =====
-- src/util.mjs: the sanitizers of what a client sends. An argument is `none` where the program
-- passes undefined, and a result is `none` where a conversion throws.
pub mod Bounds
pub mod Repeats
use factory_network_server.Prelude.{
  ℕ, ◌≡◌, Bool, true, false, Option, none, some, List, [], ◌∷◌, ◌>>=◌, if◌then◌else◌, is_some_of,
  or_else, take, filter, length, ltb, min, max, ◌||◌, ◌&&◌, ◌==◌,
}
use factory_network_server.Prelude.Texts.{Text, codes, Text_eq}
use factory_network_server.Prelude.Int.{ℤ, pos, negsuc, clamp}
use factory_network_server.Js.Values.{
  is_null, Number, nan, infinity, minus_infinity, finite, Json, null, boolean, number, text, array,
  object, Fields, end, property, truthy, is_plain_object,
}
use factory_network_server.Js.Strings.{trim, to_upper, is_letter}
use factory_network_server.Js.Convert.{Host, to_number}

abbrev pub max_lobby_players : ℕ
max_lobby_players = 8

abbrev pub default_lobby_min_players : ℕ
default_lobby_min_players = 2

abbrev pub default_lobby_max_players : ℕ
default_lobby_max_players = 6

-- `typeof value === "string" ? value.trim() : ""`
unfoldable pub trimmed : Option Json → Text
trimmed (some (text s)) = trim s
trimmed _ = []

-- `a || b` on strings
abbrev pub or_text : Text → Text → Text
or_text [] b = b
or_text (c ∷ s) b = c ∷ s

-- Cut to 64 units, or "default".
unfoldable pub cut_game_id : Text → Text
cut_game_id s = or_text (take 64 s) (codes "default")

unfoldable pub sanitize_room_game_id : Option Json → Text
unfolding trimmed cut_game_id
sanitize_room_game_id value = cut_game_id (trimmed value)

unfoldable pub sanitize_lobby_game_id : Option Json → Text
unfolding trimmed cut_game_id
sanitize_lobby_game_id value = cut_game_id (trimmed value)

unfoldable pub upper_trimmed : Option Json → Text
upper_trimmed (some (text s)) = to_upper (trim s)
upper_trimmed _ = []

unfoldable pub sanitize_penalty_word : Option Json → Text
unfolding upper_trimmed
sanitize_penalty_word value =
    let letters = filter is_letter (upper_trimmed value) in
    if ltb (length letters) 4 || ltb 10 (length letters) then codes "ECHO" else letters

unfoldable pub sanitize_display_name : Option Json → Text → Text
unfolding trimmed
sanitize_display_name value fallback = take 18 (or_text (trimmed value) fallback)

abbrev floor_clamp : ℕ → ℕ → ℕ → Number → ℕ
floor_clamp lo hi fallback (finite n part) = clamp lo hi n
floor_clamp lo hi fallback _ = fallback

pub record Limits : Type 0 where
  pub min_players : ℕ
  pub max_players : ℕ

pub data BowlingStyle : Type 0 where
  arcade three_d : BowlingStyle

pub record Settings : Type 0 where
  pub penalty_word : Text
  pub pack_id : Text
  pub run_format : Text
  pub match_type : Text
  pub ranked : Bool
  pub map_id : Text
  pub protocol_version : ℕ
  pub mode_id : Text
  pub duration : ℤ
  pub location_id : Text
  pub ball_id : Text
  pub race_to : ℕ
  pub bowling_style : BowlingStyle
  pub word : Text
  pub cpu_count : ℕ
  pub cpu_level : ℕ

-- `typeof v === "string" && v.trim() ? v.trim().slice(0, 32) : fallback`
unfoldable pub cut_or : Option Json → Text → Text
unfolding trimmed
cut_or value fallback = or_text (take 32 (trimmed value)) fallback

-- `typeof v === "string" ? v.trim().slice(0, 32) : fallback`
unfoldable pub cut_text : Option Json → Text → Text
cut_text (some (text s)) fallback = take 32 (trim s)
cut_text _ fallback = fallback

unfoldable pub is_true : Option Json → Bool
is_true (some (boolean b)) = b
is_true _ = false

-- `Math.max(1, Math.floor(n))`, or 1
unfoldable pub version_of : Number → ℕ
version_of (finite (pos n) part) = max 1 n
version_of _ = 1

unfoldable pub duration_of : Number → ℤ
duration_of (finite n part) = n
duration_of _ = pos 30

unfoldable pub style_of : Option Json → BowlingStyle
style_of (some (text s)) = if s == codes "3d" then three_d else arcade
style_of _ = arcade

unfoldable pub word_of : Option Json → Text
word_of (some (text s)) = take 10 (filter is_letter (to_upper s))
word_of _ = []

pub record Identity : Type 0 where
  pub player_id : Text
  pub display_name : Text

abbrev is_blank : Text → Bool
is_blank [] = true
is_blank _ = false

unfoldable pub identity_of : Json → Option Identity
unfolding sanitize_display_name trimmed property
identity_of identity =
    let name = property (codes "displayName") identity in
    let display = sanitize_display_name (if truthy name then name else some (text [])) [] in
    let player = trimmed (property (codes "playerId") identity) in
    if is_blank display && is_blank player
    then none
    else some (record { player_id = player; display_name = display })

-- `!identity || typeof identity !== "object"` refuses; an array passes and has no name.
unfoldable pub sanitize_lobby_identity : Option Json → Option Identity
unfolding identity_of
sanitize_lobby_identity none = identity_of (object end)
sanitize_lobby_identity (some (object fs)) = identity_of (object fs)
sanitize_lobby_identity (some (array xs)) = identity_of (array xs)
sanitize_lobby_identity (some _) = none

-- The literal that `sanitizeLobbySettings` returns, from the settings' properties and the numbers
-- read from them.
unfoldable pub settings_of : (Text → Option Json) → Number → Number → ℕ → ℕ → ℕ → Settings
settings_of get duration version race cpus level =
    let penalty = get (codes "penaltyWord") in
    record {
      penalty_word =
          sanitize_penalty_word (if truthy penalty then penalty else some (text (codes "ECHO")));
      pack_id = cut_or (get (codes "packId")) (codes "pack_01");
      run_format = cut_or (get (codes "runFormat")) (codes "canon_10_stage");
      match_type = cut_or (get (codes "matchType")) (codes "default");
      ranked = is_true (get (codes "ranked"));
      map_id = cut_or (get (codes "mapId")) [];
      protocol_version = version_of version;
      mode_id = cut_text (get (codes "modeId")) (codes "still");
      duration = duration_of duration;
      location_id = cut_text (get (codes "locationId")) (codes "bedroom");
      ball_id = cut_text (get (codes "ballId")) (codes "basketball");
      race_to = race;
      bowling_style = style_of (get (codes "bowlingStyle"));
      word = word_of (get (codes "word"));
      cpu_count = cpus;
      cpu_level = level;
    }

module _ (host : Host) where
  unfoldable pub clamp_int : Option Json → ℕ → ℕ → ℕ → Option ℕ
  clamp_int value lo hi fallback = do n ← to_number host value; some (floor_clamp lo hi fallback n)

  unfoldable pub sanitize_lobby_limits : Option Json → Option Json → Option Limits
  unfolding clamp_int
  sanitize_lobby_limits min_players max_players = do
    hi ← clamp_int max_players 2 max_lobby_players default_lobby_max_players
    lo ← clamp_int min_players 2 hi (min default_lobby_min_players hi)
    some (record { min_players = lo; max_players = hi })

  unfoldable pub sanitize_given : Json → Option Settings
  sanitize_given settings = do
    duration ← to_number host (property (codes "duration") settings)
    version ← to_number host (property (codes "protocolVersion") settings)
    race ← clamp_int (property (codes "raceTo") settings) 1 9 1
    cpus ← clamp_int (property (codes "cpuCount") settings) 0 6 0
    level ← clamp_int (property (codes "cpuLevel") settings) 0 2 1
    some (settings_of (λ k. property k settings) duration version race cpus level)

  -- `settings = {}` where the argument is undefined; reading a member of null throws.
  unfoldable pub sanitize_lobby_settings : Option Json → Option Settings
  unfolding sanitize_given
  sanitize_lobby_settings none = sanitize_given (object end)
  sanitize_lobby_settings (some v) = if is_null v then none else sanitize_given v
