-- ===== src/Echo/Moves.antt =====
-- What players do to a match of echo-duel.
use factory_network_server.Prelude.{
  ℕ, ◌+◌, Bool, true, false, Option, none, some, List, [], ◌∷◌, ◌++◌, if◌then◌else◌, length, take,
  get_elem?, not, ◌==◌, ltb, leb, nat_eq, ◌&&◌, ◌||◌, is_some_of, min, max,
}
use factory_network_server.Prelude.Texts.{Text, codes, Text_eq}
use factory_network_server.Prelude.Int.{pos}
use factory_network_server.Prelude.Maps.{Map, get?, set}
use factory_network_server.Js.Values.{Number, finite}
use factory_network_server.Js.Strings.{to_upper}
use factory_network_server.Echo.State.{
  Input, key_w, key_a, key_s, key_d, Phase, owner_create_initial, owner_replay, owner_append,
  challenger_copy, owner_fail, Player, Progress, Match, starting_pattern_length, max_pattern_length,
  timer_for_length, find_player_index, get_owner, id_of, next_active_index, advance_phase,
  append_target_length, remaining_append_inputs, set_player_result,
}
use factory_network_server.Echo.Turns.{
  begin_control, begin_signal_playback, is_copying, mark_challenger_result,
}

-- `ECHO_INPUTS.includes(input)`
unfoldable pub read_input : Text → Option Input
read_input t =
    if t == codes "W"
    then some key_w
    else (if t == codes "A"
        then some key_a
        else (if t == codes "S" then some key_s else (if t == codes "D" then some key_d else none)))

abbrev pub input_eq : Input → Input → Bool
input_eq key_w key_w = true
input_eq key_a key_a = true
input_eq key_s key_s = true
input_eq key_d key_d = true
input_eq _ _ = false

-- What a client says of the state that he answers to, as numbers.
pub record Meta : Type 0 where
  pub input_id : Number
  pub phase_id : Number
  pub turn_id : Number

-- `=== n`
abbrev pub is_number : Number → ℕ → Bool
is_number (finite (pos a) ℕ.zero) n = nat_eq a n
is_number _ n = false

-- `Number.isFinite(id) && id > 0`
abbrev pub positive : Number → Option (ℕ × ℕ)
positive (finite (pos ℕ.zero) ℕ.zero) = none
positive (finite (pos n) part) = some (n, part)
positive _ = none

abbrev pub meta_id : Option Meta → Option (ℕ × ℕ)
meta_id none = none
meta_id (some meta) = positive meta.input_id

unfoldable pub is_current : Option Meta → Match → Bool
is_current none m = true
is_current (some meta) m = is_number meta.phase_id m.phase_id && is_number meta.turn_id m.turn_id

-- `id <= cursor`, with 0 for a client without one.
abbrev pub at_most : (ℕ × ℕ) → Option (ℕ × ℕ) → Bool
at_most (n, part) none = false
at_most (n, part) (some (k, rest)) = ltb n k || (nat_eq n k && leb part rest)

unfoldable pub is_repeated : Option (ℕ × ℕ) → Text → Match → Bool
is_repeated none client m = false
is_repeated (some id) client m = at_most id (get? client m.input_cursor)

unfoldable pub remember_input : Option (ℕ × ℕ) → Text → Match → Match
remember_input none client m = m
remember_input (some id) client m = record m { input_cursor = set client id m.input_cursor }

-- The first that still copies.
unfoldable pub first_copying : Map Text Progress → Option Text
first_copying [] = none
first_copying ((id, p) ∷ rest) =
    let later = first_copying rest in if is_copying p.status then some id else later

abbrev pub copying_ids : Map Text Progress → List Text
copying_ids [] = []
copying_ids ((id, p) ∷ rest) =
    let later = copying_ids rest in if is_copying p.status then id ∷ later else later

abbrev pub is_copy_phase : Phase → Bool
is_copy_phase challenger_copy = true
is_copy_phase _ = false

-- Without a client's id, whose turn it is.
unfoldable pub actor_index_for_phase : Text → Match → Option ℕ
unfolding find_player_index first_copying
actor_index_for_phase [] m =
    if is_copy_phase m.phase
    then elim (first_copying m.copy_progress) [ none ↦ none | some id ↦ find_player_index id m ]
    else some m.owner_index
actor_index_for_phase (c ∷ client) m = find_player_index (c ∷ client) m

unfoldable pub actor_of : Text → Match → Option Player
unfolding actor_index_for_phase
actor_of client m = elim (actor_index_for_phase client m) [
  | none ↦ none
  | some index ↦ get_elem? m.players index
]

abbrev pub is_owner : Match → Player → Bool
is_owner m actor = is_some_of (id_of (get_owner m)) actor.id

unfoldable pub create_input : Input → ℕ → Match → Match
unfolding begin_signal_playback
create_input input now m =
    let draft = m.owner_draft ++ (input ∷ []) in
    if leb starting_pattern_length (length draft)
    then begin_signal_playback now (record m { active_sequence = draft; owner_draft = [] })
    else record m { owner_draft = draft }

abbrev pub is_expected : Option Input → Input → Bool
is_expected none input = false
is_expected (some expected) input = input_eq input expected

abbrev pub owner_failed : Match → List Player
owner_failed m = elim (get_owner m) [
  | none ↦ m.players
  | some owner ↦ set_player_result owner.id owner_fail m.players
]

unfoldable pub replay_input : Input → ℕ → Match → Match
unfolding begin_control next_active_index advance_phase append_target_length timer_for_length
    remaining_append_inputs
replay_input input now m =
    if is_expected (get_elem? m.active_sequence m.owner_replay_index) input
    then (let next = record m { owner_replay_index = m.owner_replay_index + 1 } in
        if leb (length m.active_sequence) next.owner_replay_index
        then (let opened = advance_phase owner_append false next in
            let ready = record opened { append_target_length = append_target_length opened } in
            let needed = remaining_append_inputs ready in
            record ready { timer = some (timer_for_length (max 1 needed) now) })
        else next)
    else (let next = record m { players = owner_failed m } in
        begin_control (next_active_index next next.owner_index) next)

-- The target as it stands, set anew where there is none to reach, and cut.
unfoldable pub append_target : Match → ℕ
unfolding append_target_length
append_target m =
    let target =
      if nat_eq m.append_target_length 0 || leb m.append_target_length (length m.active_sequence)
      then append_target_length m
      else m.append_target_length in
    min target max_pattern_length

unfoldable pub append_input : Option (ℕ × ℕ) → Text → Input → ℕ → Match → Match
unfolding append_target begin_signal_playback remember_input remaining_append_inputs
append_input id actor input now m =
    let target = append_target m in
    let aimed = record m { append_target_length = target } in
    let current = length m.active_sequence in
    if leb target current || leb max_pattern_length current
    then begin_signal_playback now (record aimed { append_target_length = 0 })
    else (let pushed = record aimed {
      active_sequence = take max_pattern_length (m.active_sequence ++ (input ∷ []));
    } in
        let next = remember_input id actor pushed in
        if ltb 0 (remaining_append_inputs next)
        then next
        else begin_signal_playback now (record next { append_target_length = 0 }))

unfoldable pub copy_input : Option (ℕ × ℕ) → Text → Input → ℕ → Match → Match
unfolding remember_input mark_challenger_result
copy_input id actor input now m = elim (get? actor m.copy_progress) [
  | none ↦ m
  | some progress ↦
      if not (is_copying progress.status)
      then m
      else (let known = remember_input id actor m in
          if not (is_expected (get_elem? m.active_sequence progress.index) input)
          then mark_challenger_result actor false now known
          else (let moved = record progress { index = progress.index + 1 } in
              let next = record known { copy_progress = set actor moved m.copy_progress } in
              if leb (length m.active_sequence) moved.index
              then mark_challenger_result actor true now next
              else next))
]

-- The move of an actor who is in the game, by the phase.
unfoldable pub act : Phase → Option (ℕ × ℕ) → Player → Input → ℕ → Match → Match
unfolding create_input replay_input append_input copy_input remember_input
act owner_create_initial id actor input now m =
    if is_owner m actor then create_input input now (remember_input id actor.id m) else m
act owner_replay id actor input now m =
    if is_owner m actor then replay_input input now (remember_input id actor.id m) else m
act owner_append id actor input now m =
    if is_owner m actor then append_input id actor.id input now m else m
act challenger_copy id actor input now m =
    if is_owner m actor then m else copy_input id actor.id input now m
act _ id actor input now m = m

unfoldable pub act_if_active : Option (ℕ × ℕ) → Option Player → Input → ℕ → Match → Match
unfolding act
act_if_active id none input now m = m
act_if_active id (some actor) input now m =
    if actor.eliminated then m else act m.phase id actor input now m

-- `rawInput` is a string; that an unchanged match is the same object is left out.
unfoldable pub apply_input : Text → Text → Option Meta → ℕ → Match → Match
unfolding read_input is_current is_repeated actor_of act_if_active
apply_input client raw meta now m =
    if ltb now m.created_at then m else elim (read_input (to_upper raw)) [
      | none ↦ m
      | some input ↦
          if not (is_current meta m) || is_repeated (meta_id meta) client m
          then m
          else act_if_active (meta_id meta) (actor_of client m) input now m
    ]
