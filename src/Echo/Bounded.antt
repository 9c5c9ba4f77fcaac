-- ===== src/Echo/Bounded.antt =====
-- How long patterns get in echo-duel, whose turn it can be, and what letters players have.
use factory_network_server.Prelude.{
  ℕ, suc, ◌+◌, ◌%◌, ◌≤◌, ◌<◌, ◌≡◌, refl, ap, ◌∙◌, Bool, true, Option, none, some, List, [], ◌∷◌,
  map, arith, all, length, take, max, ◌==◌, length-take, Bool-cases, inl, inr, ltb, nat_eq,
  length-filter-le,
}
use factory_network_server.Prelude.Texts.{Text, Text_eq}
use factory_network_server.Echo.State.{
  Player, Match, find_index, first_active_index, search_active, next_active_index, is_active,
  active_players, advance_phase, clear_player_results,
}
use factory_network_server.Echo.Turns.{
  update_at, begin_control, begin_owner_replay, begin_challenger_copy, begin_signal_playback,
  finish_signal_playback, end_match,
}

-- The player's letters are the first ones of the word.
abbrev pub spells : Text → Player → Bool
spells word p = p.letters == take (length p.letters) word

pub record IsBounded (m : Match) : Type 0 where
  pub sequence : length m.active_sequence ≤ 10
  pub draft : length m.owner_draft < 4
  pub target : m.append_target_length ≤ 10
  pub owner : m.owner_index < max 1 (length m.players)
  pub spelled : all (spells m.penalty_word) m.players ≡ true

pub length-map_players : (f : Player → Player) (ps : List Player) → length (map f ps) ≡ length ps
length-map_players f [] = refl
length-map_players f (p ∷ ps) = ap suc (length-map_players f ps)

pub spelled-map :
    (word : Text) (f : Player → Player) (ps : List Player)
    → ((p : Player) → (f p).letters ≡ p.letters)
    → all (spells word) (map f ps) ≡ all (spells word) ps
spelled-map word f [] h = refl
spelled-map word f (p ∷ ps) h = rw (h p, spelled-map word f ps h)

pub length-update_at :
    (n : ℕ) (f : Player → Player) (ps : List Player) → length (update_at n f ps) ≡ length ps
unfolding update_at
length-update_at n f [] = refl
length-update_at ℕ.zero f (p ∷ ps) = refl
length-update_at (suc n) f (p ∷ ps) = ap suc (length-update_at n f ps)

pub spelled-update_at :
    (word : Text) (n : ℕ) (f : Player → Player) (ps : List Player)
    → ((p : Player) → spells word p ≡ true → spells word (f p) ≡ true)
    → all (spells word) ps ≡ true
    → all (spells word) (update_at n f ps) ≡ true
unfolding update_at
spelled-update_at word n f [] k h = refl
spelled-update_at word ℕ.zero f (p ∷ ps) k h = ground (arith, h, k p)
spelled-update_at word (suc n) f (p ∷ ps) k h = ground (arith, h, spelled-update_at word n f ps k)

abbrev pub is_below : ℕ → Option ℕ → Bool
is_below n none = true
is_below n (some i) = ltb i (max 1 n)

abbrev is_within : ℕ → Option ℕ → Bool
is_within n none = true
is_within n (some i) = ltb i n

within-find_index :
    (test : Player → Bool) (ps : List Player) → is_within (length ps) (find_index test ps) ≡ true
unfolding find_index
within-find_index test [] = refl
within-find_index test (p ∷ ps) = ground (arith, within-find_index test ps)

pub below-find_index :
    (test : Player → Bool) (ps : List Player) → is_below (length ps) (find_index test ps) ≡ true
below-find_index test ps = ground (arith, within-find_index test ps)

below-search_active :
    (fuel index : ℕ) (ps : List Player)
    → index < length ps
    → is_below (length ps) (search_active fuel index ps) ≡ true
unfolding search_active
below-search_active ℕ.zero index ps h = refl
below-search_active (suc fuel) index ps h =
    ground (arith, h, below-search_active fuel ((index + 1) % length ps) ps (omega (arith, h)))

pub below-next_active_index :
    (m : Match) (from : ℕ) → is_below (length m.players) (next_active_index m from) ≡ true
unfolding next_active_index
below-next_active_index m from = elim (Bool-cases (nat_eq (length (active_players m)) 0)) [
  | inl e ↦ rw (e, next_active_index)
  | inr e ↦
      rw (e, next_active_index)
        (below-search_active (length m.players) ((from + 1) % length m.players) m.players
          (ground (arith, e, length-filter-le is_active m.players)))
]

-- The match with other players of the same number and letters.
pub players-IsBounded :
    (m : Match) (ps : List Player)
    → IsBounded m
    → length ps ≡ length m.players
    → all (spells m.penalty_word) ps ≡ true
    → IsBounded (record m { players = ps })
players-IsBounded m ps v e h = record {
  sequence = v.sequence;
  draft = v.draft;
  target = v.target;
  owner = rw e v.owner;
  spelled = h;
}

cleared :
    (m : Match)
    → IsBounded m
    → (length (clear_player_results m.players) ≡ length m.players)
      × (all (spells m.penalty_word) (clear_player_results m.players) ≡ true)
cleared m v = (
  length-map_players (λ (p : Player). record p { last_result = none }) m.players,
  spelled-map m.penalty_word (λ (p : Player). record p { last_result = none }) m.players (λ p. refl)
      ∙ v.spelled,
)

pub begin_control-IsBounded :
    (index : Option ℕ) (m : Match)
    → IsBounded m
    → is_below (length m.players) index ≡ true
    → IsBounded (begin_control index m)
unfolding begin_control advance_phase first_active_index
begin_control-IsBounded index m v h =
    let (n, e) = cleared m v in
    record {
      sequence = omega arith;
      draft = omega arith;
      target = omega arith;
      owner = ground (arith, h, n, below-find_index is_active m.players);
      spelled = e;
    }

pub begin_owner_replay-IsBounded :
    (now : ℕ) (m : Match) → IsBounded m → IsBounded (begin_owner_replay now m)
unfolding begin_owner_replay advance_phase
begin_owner_replay-IsBounded now m v =
    let (n, e) = cleared m v in
    record {
      sequence = v.sequence;
      draft = omega arith;
      target = omega arith;
      owner = rw n v.owner;
      spelled = e;
    }

pub finish_signal_playback-IsBounded :
    (now : ℕ) (m : Match) → IsBounded m → IsBounded (finish_signal_playback now m)
unfolding finish_signal_playback begin_challenger_copy advance_phase
finish_signal_playback-IsBounded now m v =
    let (n, e) = cleared m v in
    record {
      sequence = v.sequence;
      draft = v.draft;
      target = v.target;
      owner = rw n v.owner;
      spelled = e;
    }

-- Whatever the sequence was before, it is cut.
pub begin_signal_playback-IsBounded :
    (now : ℕ) (m : Match)
    → length m.owner_draft < 4
    → m.append_target_length ≤ 10
    → m.owner_index < max 1 (length m.players)
    → all (spells m.penalty_word) m.players ≡ true
    → IsBounded (begin_signal_playback now m)
unfolding begin_signal_playback advance_phase
begin_signal_playback-IsBounded now m d t o l = record {
  sequence = omega (arith, length-take 10 m.active_sequence);
  draft = d;
  target = t;
  owner = o;
  spelled = l;
}

pub end_match-IsBounded : (m : Match) → IsBounded m → IsBounded (end_match m)
unfolding end_match advance_phase
end_match-IsBounded m v = record {
  sequence = v.sequence;
  draft = v.draft;
  target = v.target;
  owner = v.owner;
  spelled = v.spelled;
}
