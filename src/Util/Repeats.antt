-- ===== src/Util/Repeats.antt =====
-- What happens to a game id that is sanitized more than once: `find_lobby` sanitizes it, and
-- `createLobby` or `doesLobbyMatchSearch` does so again.
use factory_network_server.Prelude.{
  ◌≤◌, ◌≡◌, ◌≢◌, refl, sym, ◌∙◌, Option, some, [], ◌∷◌, length, arith, length-take,
  take_of_length-le,
}
use mathlib.Core.Path.{subst}
use factory_network_server.Prelude.Texts.{Text, codes}
use factory_network_server.Js.Values.{Json, text}
use factory_network_server.Js.Strings.{trim, is_space, trim_idem, length-trim, trim_start, trim_end}
use factory_network_server.Util.{trimmed, cut_game_id, sanitize_lobby_game_id, or_text}

-- The id once more through the sanitizer, as a string.
abbrev pub again : Text → Text
again s = sanitize_lobby_game_id (some (text s))

cut_game_id_short : (s : Text) → length s ≤ 64 → cut_game_id s ≡ or_text s (codes "default")
unfolding cut_game_id
cut_game_id_short s h = rw (take_of_length-le 64 s h)

again_short : (s : Text) → length s ≤ 64 → again s ≡ or_text (trim s) (codes "default")
unfolding sanitize_lobby_game_id
again_short s h = cut_game_id_short (trim s) (omega (arith, length-trim s))

default_again : again (codes "default") ≡ codes "default"
unfolding sanitize_lobby_game_id trim_start trim_end trim is_space
default_again = refl

again_of_solid :
    (s t : Text)
    → trim s ≡ t
    → trim t ≡ t
    → length t ≤ 64
    → again (or_text t (codes "default")) ≡ or_text t (codes "default")
again_of_solid s [] e f h = default_again
again_of_solid s (c ∷ t) e f h = rw (again_short (c ∷ t) h, f)

-- An id of at most 64 units settles at the first pass.
again_idem : (s : Text) → length s ≤ 64 → again (again s) ≡ again s
again_idem s h =
    rw (again_short s h)
      (again_of_solid s (trim s) refl (trim_idem s) (omega (arith, length-trim s)))

length-sanitize_lobby_game_id : (value : Option Json) → length (sanitize_lobby_game_id value) ≤ 64
unfolding sanitize_lobby_game_id
length-sanitize_lobby_game_id value = ground (arith, length-take 64 (trimmed value))

-- A lobby's game id that has been sanitized twice is not changed when it is sanitized again.
pub sanitize_lobby_game_id_settles :
    (value : Option Json)
    → again (again (sanitize_lobby_game_id value)) ≡ again (sanitize_lobby_game_id value)
sanitize_lobby_game_id_settles value =
    again_idem (sanitize_lobby_game_id value) (length-sanitize_lobby_game_id value)

trim_default : trim (codes "default") ≡ codes "default"
unfolding trim_start trim_end trim is_space
trim_default = refl

trimmed_of_stable : (id t : Text) → trim id ≡ t → or_text t (codes "default") ≡ id → trim id ≡ id
trimmed_of_stable id [] e same = subst (λ s. trim s ≡ s) same trim_default
trimmed_of_stable id (c ∷ t) e same = e ∙ same

-- If the cut leaves white space at an end of a sanitized game id, sanitizing it again changes it.
pub sanitize_lobby_game_id_unstable :
    (value : Option Json)
    → trim (sanitize_lobby_game_id value) ≢ sanitize_lobby_game_id value
    → again (sanitize_lobby_game_id value) ≢ sanitize_lobby_game_id value
sanitize_lobby_game_id_unstable value cut same = cut (
    trimmed_of_stable id (trim id) refl
      (sym (again_short id (length-sanitize_lobby_game_id value)) ∙ same))
  where
    id : Text
    id = sanitize_lobby_game_id value
