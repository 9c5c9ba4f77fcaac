-- ===== src/Util/Bounds.antt =====
-- The ranges of what the sanitizers of src/util.mjs return.
use factory_network_server.Prelude.{
  inl, inr, Bool-cases, ℕ, zero, suc, ◌≤◌, ◌≡◌, refl, true, Option, none, some, [], ◌∷◌, ◌⊎◌,
  length, take, filter, all, arith, length-take, all-filter, ◌>>=◌,
}
use mathlib.Core.Path.{subst}
use factory_network_server.Prelude.Texts.{Text, codes}
use factory_network_server.Js.Values.{is_null, object, end, Json, text, Number, property}
use factory_network_server.Js.Strings.{is_letter, to_upper, trim}
use factory_network_server.Js.Convert.{Host, to_number}
use factory_network_server.Util.{
  Limits, Settings, clamp_int, sanitize_lobby_limits, sanitize_lobby_settings,
  sanitize_penalty_word, cut_or, cut_text, word_of, version_of, upper_trimmed, trimmed, cut_game_id,
  sanitize_given, settings_of,
}

-- A value that is not a finite number gives the fallback; any other is cut to the range.
pub clamp_int_bounds :
    (host : Host) (value : Option Json) (lo hi fallback : ℕ) {n : ℕ}
    → lo ≤ hi
    → clamp_int host value lo hi fallback ≡ some n
    → (n ≡ fallback) ⊎ ((lo ≤ n) × (n ≤ hi))
unfolding clamp_int
clamp_int_bounds host value lo hi fallback h e = ground arith

-- If no conversion throws, the sanitized limits of a lobby satisfy 2 ≤ min ≤ max ≤ 8.
pub sanitize_lobby_limits_bounds :
    (host : Host) (min_players max_players : Option Json) {l : Limits}
    → sanitize_lobby_limits host min_players max_players ≡ some l
    → (2 ≤ l.min_players) × (l.min_players ≤ l.max_players) × (l.max_players ≤ 8)
unfolding sanitize_lobby_limits
sanitize_lobby_limits_bounds host lo hi e = ground arith

letters-take : (n : ℕ) (s : Text) → all is_letter s ≡ true → all is_letter (take n s) ≡ true
letters-take zero s h = refl
letters-take (suc n) [] h = refl
letters-take (suc n) (c ∷ s) h = ground (arith, letters-take n s)

-- A penalty word has four to ten letters, each from A to Z.
pub record IsPenaltyWord (s : Text) : Type 0 where
  pub letters : all is_letter s ≡ true
  pub long : 4 ≤ length s
  pub short : length s ≤ 10

echo-IsPenaltyWord : IsPenaltyWord (codes "ECHO")
unfolding is_letter
echo-IsPenaltyWord = record { letters = refl; long = omega arith; short = omega arith }

pub sanitize_penalty_word-IsPenaltyWord :
    (value : Option Json) → IsPenaltyWord (sanitize_penalty_word value)
unfolding sanitize_penalty_word
sanitize_penalty_word-IsPenaltyWord value =
    ground (arith, echo-IsPenaltyWord, all-filter is_letter (upper_trimmed value))

length-cut_or :
    (value : Option Json) (fallback : Text)
    → length fallback ≤ 32
    → length (cut_or value fallback) ≤ 32
unfolding cut_or
length-cut_or value fallback h = ground (arith, length-take 32 (trimmed value))

length-cut_text :
    (value : Option Json) (fallback : Text)
    → length fallback ≤ 32
    → length (cut_text value fallback) ≤ 32
unfolding cut_text
length-cut_text none fallback h = h
length-cut_text (some (text s)) fallback h = omega (arith, length-take 32 (trim s))
length-cut_text (some _) fallback h = h

length-cut_game_id : (s : Text) → (length (cut_game_id s) ≤ 64) × (1 ≤ length (cut_game_id s))
unfolding cut_game_id
length-cut_game_id s = ground (arith, length-take 64 s)

-- The settings that a lobby may hold: texts of at most 32 units, and small numbers.
pub record IsBounded (s : Settings) : Type 0 where
  pub penalty : IsPenaltyWord s.penalty_word
  pub pack : length s.pack_id ≤ 32
  pub format : length s.run_format ≤ 32
  pub match : length s.match_type ≤ 32
  pub map_name : length s.map_id ≤ 32
  pub mode : length s.mode_id ≤ 32
  pub location : length s.location_id ≤ 32
  pub ball : length s.ball_id ≤ 32
  pub version : 1 ≤ s.protocol_version
  pub race : (1 ≤ s.race_to) × (s.race_to ≤ 9)
  pub cpus : s.cpu_count ≤ 6
  pub level : s.cpu_level ≤ 2
  pub spelled : (all is_letter s.word ≡ true) × (length s.word ≤ 10)

word_of_bounds :
    (value : Option Json) → (all is_letter (word_of value) ≡ true) × (length (word_of value) ≤ 10)
unfolding word_of
word_of_bounds none = (refl, omega arith)
word_of_bounds (some (text s)) =
    let letters = filter is_letter (to_upper s) in
    (
      letters-take 10 letters (all-filter is_letter (to_upper s)),
      omega (arith, length-take 10 letters),
    )
word_of_bounds (some _) = (refl, omega arith)

version_of-pos : (n : Number) → 1 ≤ version_of n
unfolding version_of
version_of-pos n = ground arith

clamp_int_range :
    (host : Host) (value : Option Json) (lo hi fallback : ℕ) {n : ℕ}
    → lo ≤ fallback
    → fallback ≤ hi
    → clamp_int host value lo hi fallback ≡ some n
    → (lo ≤ n) × (n ≤ hi)
clamp_int_range host value lo hi fallback h k e =
    ground (arith, clamp_int_bounds host value lo hi fallback (omega arith) e)

settings_of-IsBounded :
    (get : Text → Option Json) (duration version : Number) (race cpus level : ℕ)
    → (1 ≤ race) × (race ≤ 9)
    → cpus ≤ 6
    → level ≤ 2
    → IsBounded (settings_of get duration version race cpus level)
unfolding settings_of
settings_of-IsBounded get duration version race cpus level r c l = record {
  penalty = sanitize_penalty_word-IsPenaltyWord _;
  pack = length-cut_or _ (codes "pack_01") (omega arith);
  format = length-cut_or _ (codes "canon_10_stage") (omega arith);
  match = length-cut_or _ (codes "default") (omega arith);
  map_name = length-cut_or _ [] (omega arith);
  mode = length-cut_text _ (codes "still") (omega arith);
  location = length-cut_text _ (codes "bedroom") (omega arith);
  ball = length-cut_text _ (codes "basketball") (omega arith);
  version = version_of-pos version;
  race = r;
  cpus = c;
  level = l;
  spelled = word_of_bounds _;
}

-- The same where the numbers may fail to convert.
chain-IsBounded :
    (get : Text → Option Json) (d v : Option Number) (r c l : Option ℕ)
    → ((n : ℕ) → r ≡ some n → (1 ≤ n) × (n ≤ 9))
    → ((n : ℕ) → c ≡ some n → (0 ≤ n) × (n ≤ 6))
    → ((n : ℕ) → l ≡ some n → (0 ≤ n) × (n ≤ 2))
    → {s : Settings}
    → (do
      duration ← d
      version ← v
      race ← r
      cpus ← c
      level ← l
      some (settings_of get duration version race cpus level))
      ≡ some s
    → IsBounded s
chain-IsBounded get (some d) (some v) (some r) (some c) (some l) hr hc hl {s} e =
    let same : settings_of get d v r c l ≡ s = cc in
    subst IsBounded same
      (settings_of-IsBounded get d v r c l (hr r refl) (hc c refl).1 (hl l refl).1)
chain-IsBounded get _ _ _ _ _ hr hc hl e = cc

given-IsBounded :
    (host : Host) (v : Json) {s : Settings} → sanitize_given host v ≡ some s → IsBounded s
unfolding sanitize_given
given-IsBounded host v e =
    let get = λ (k : Text). property k v in
    chain-IsBounded get (to_number host (get (codes "duration")))
      (to_number host (get (codes "protocolVersion"))) (clamp_int host (get (codes "raceTo")) 1 9 1)
      (clamp_int host (get (codes "cpuCount")) 0 6 0)
      (clamp_int host (get (codes "cpuLevel")) 0 2 1)
      (λ n. clamp_int_range host (get (codes "raceTo")) 1 9 1 (omega arith) (omega arith))
      (λ n. clamp_int_range host (get (codes "cpuCount")) 0 6 0 (omega arith) (omega arith))
      (λ n. clamp_int_range host (get (codes "cpuLevel")) 0 2 1 (omega arith) (omega arith)) e

-- If sanitizing does not throw, the sanitized settings are bounded whatever the client sent: the
-- penalty word has 4 to 10 letters, the other names have at most 32 units, the word has at most 10
-- letters, and the counts lie in their ranges.
pub sanitize_lobby_settings-IsBounded :
    (host : Host) (argument : Option Json) {s : Settings}
    → sanitize_lobby_settings host argument ≡ some s
    → IsBounded s
unfolding sanitize_lobby_settings
sanitize_lobby_settings-IsBounded host none e = given-IsBounded host (object end) e
sanitize_lobby_settings-IsBounded host (some v) e = elim (Bool-cases (is_null v)) [
  | inl p ↦ absurd (ground arith)
  | inr p ↦ given-IsBounded host v (ground arith)
]
