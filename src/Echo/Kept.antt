-- ===== src/Echo/Kept.antt =====
-- Results and letters of echo-duel, and the bounds of a match.
use mathlib.Core.Path.{subst}
use factory_network_server.Prelude.{
  ℕ, suc, ◌≤◌, ◌<◌, ◌≡◌, refl, sym, ap, ◌∙◌, Bool, true, false, Option, none, some, List, [], ◌∷◌,
  ◌++◌, if◌then◌else◌, arith, all, length, take, max, ◌==◌, Option-cases, inl, inr, eq_iff,
}
use factory_network_server.Prelude.Texts.{Text, Text_eq}
use factory_network_server.Prelude.Maps.{get?}
use factory_network_server.Echo.State.{
  Input, RoundResult, Player, Match, Progress, Result, safe, find_player_index, get_owner,
  set_result, set_player_result,
}
use factory_network_server.Echo.Turns.{
  award, award_letter, letter_at, owner_again, next_owner, index_of, fastest, successful,
  finish_copy_phase, note_result, after_result, mark_challenger_result, is_copying,
}
use factory_network_server.Echo.Bounded.{
  spells, IsBounded, is_below, length-map_players, spelled-map, length-update_at, spelled-update_at,
  below-find_index, below-next_active_index, players-IsBounded, begin_control-IsBounded,
  begin_owner_replay-IsBounded, end_match-IsBounded,
}

pub IsBounded-if :
    (b : Bool) (m n : Match) → IsBounded m → IsBounded n → IsBounded (if b then m else n)
IsBounded-if true m n p q = p
IsBounded-if false m n p q = q

pub IsBounded-cases :
    (b : Bool) (m n : Match)
    → (b ≡ true → IsBounded m)
    → (b ≡ false → IsBounded n)
    → IsBounded (if b then m else n)
IsBounded-cases true m n p q = p refl
IsBounded-cases false m n p q = q refl

-- What the bounds are about.
pub record Core : Type 0 where
  pub sequence : List Input
  pub draft : List Input
  pub target : ℕ
  pub owner : ℕ
  pub word : Text
  pub players : List Player

abbrev pub core : Match → Core
core m = record {
  sequence = m.active_sequence;
  draft = m.owner_draft;
  target = m.append_target_length;
  owner = m.owner_index;
  word = m.penalty_word;
  players = m.players;
}

pub IsBounded-core : (m n : Match) → core n ≡ core m → IsBounded m → IsBounded n
IsBounded-core m n e v = record {
  sequence = subst (λ (c : Core). length c.sequence ≤ 10) (sym e) v.sequence;
  draft = subst (λ (c : Core). length c.draft < 4) (sym e) v.draft;
  target = subst (λ (c : Core). c.target ≤ 10) (sym e) v.target;
  owner = subst (λ (c : Core). c.owner < max 1 (length c.players)) (sym e) v.owner;
  spelled = subst (λ (c : Core). all (spells c.word) c.players ≡ true) (sym e) v.spelled;
}

below-owner_again : (m : Match) → IsBounded m → is_below (length m.players) (owner_again m) ≡ true
unfolding owner_again find_player_index
below-owner_again m v = elim (Option-cases (get_owner m)) [
  | inl e ↦ rw (e, owner_again) (ground (arith, v.owner))
  | inr (o, e) ↦
      rw (e, owner_again)
        (ground (arith, v.owner, below-find_index (λ (p : Player). p.id == o.id) m.players))
]

below-index_of :
    (r : Option RoundResult) (m : Match) → is_below (length m.players) (index_of r m) ≡ true
unfolding index_of find_player_index
below-index_of none m = refl
below-index_of (some r) m = below-find_index (λ (p : Player). p.id == r.player_id) m.players

below-next_owner : (m : Match) → is_below (length m.players) (next_owner m) ≡ true
unfolding next_owner
below-next_owner m =
    ground
      (arith, below-index_of (fastest (successful m)) m, below-next_active_index m m.owner_index)

pub finish_copy_phase-IsBounded :
    (now : ℕ) (m : Match) → IsBounded m → IsBounded (finish_copy_phase now m)
unfolding finish_copy_phase
finish_copy_phase-IsBounded now m v = IsBounded-if _ _ _ (end_match-IsBounded m v) (
    IsBounded-if _ _ _ (begin_control-IsBounded (owner_again m) m v (below-owner_again m v)) (
      IsBounded-if _ _ _ (begin_control-IsBounded (next_owner m) m v (below-next_owner m))
        (begin_owner_replay-IsBounded now m v)))

-- One more letter of the word, where there is one.
take_next :
    (word : Text) (n : ℕ)
    → take n word ++ letter_at word n ≡ take (length (take n word ++ letter_at word n)) word
take_next [] ℕ.zero = refl
take_next (c ∷ word) ℕ.zero = refl
take_next [] (suc n) = refl
take_next (c ∷ word) (suc n) = ap (λ (w : Text). c ∷ w) (take_next word n)

award-spells : (word : Text) (p : Player) → spells word p ≡ true → spells word (award word p) ≡ true
unfolding award
award-spells word p h =
    let known : p.letters ≡ take (length p.letters) word =
      (eq_iff p.letters (take (length p.letters) word)).0 h in
    let more : Text → Text = λ w. w ++ letter_at word (length p.letters) in
    let e : more p.letters ≡ take (length (more p.letters)) word =
      ap more known
      ∙ take_next word (length p.letters)
      ∙ ap (λ (w : Text). take (length (more w)) word) (sym known) in
    (eq_iff (more p.letters) (take (length (more p.letters)) word)).1 e

award_letter-IsBounded :
    (index : Option ℕ) (m : Match) → IsBounded m → IsBounded (award_letter index m)
unfolding award_letter
award_letter-IsBounded none m v = v
award_letter-IsBounded (some i) m v = players-IsBounded m _ v (length-update_at i _ m.players) (
    spelled-update_at m.penalty_word i _ m.players
      (λ p h. ground (arith, h, award-spells m.penalty_word p h)) v.spelled)

pub set_player_result-IsBounded :
    (id : Text) (r : Result) (m : Match)
    → IsBounded m
    → IsBounded (record m { players = set_player_result id r m.players })
set_player_result-IsBounded id r m v =
    players-IsBounded m _ v (length-map_players (set_result id r) m.players)
      (spelled-map m.penalty_word (set_result id r) m.players (λ p. ground arith) ∙ v.spelled)

note_result-IsBounded :
    (id : Text) (is_safe : Bool) (now : ℕ) (p : Progress) (m : Match)
    → IsBounded m
    → IsBounded (note_result id is_safe now p m)
unfolding note_result
note_result-IsBounded id true now p m v =
    IsBounded-core (record m { players = set_player_result id safe m.players }) _ refl
      (set_player_result-IsBounded id safe m v)
note_result-IsBounded id false now p m v =
    award_letter-IsBounded (find_player_index id m) _ (IsBounded-core m _ refl v)

after_result-IsBounded : (now : ℕ) (m : Match) → IsBounded m → IsBounded (after_result now m)
unfolding after_result
after_result-IsBounded now m v =
    IsBounded-if _ _ _ (end_match-IsBounded m v)
      (IsBounded-if _ _ _ v (finish_copy_phase-IsBounded now m v))

pub mark_challenger_result-IsBounded :
    (id : Text) (is_safe : Bool) (now : ℕ) (m : Match)
    → IsBounded m
    → IsBounded (mark_challenger_result id is_safe now m)
unfolding mark_challenger_result
mark_challenger_result-IsBounded id is_safe now m v =
    elim (Option-cases (get? id m.copy_progress)) [
      | inl e ↦ rw (e, mark_challenger_result) v
      | inr (p, e) ↦
          rw (e, mark_challenger_result)
            (IsBounded-if (is_copying p.status) _ _
              (after_result-IsBounded now (note_result id is_safe now p m)
                (note_result-IsBounded id is_safe now p m v))
              v)
    ]
