-- ===== src/Echo/Stuck.antt =====
-- A player of echo-duel who has copied the longest pattern first and is lost then.
use factory_network_server.Prelude.{
  ℕ, suc, ◌≤◌, ◌<◌, ◌≡◌, ◌≢◌, refl, sym, ap, ◌∙◌, Bool, true, false, Option, none, some, List, [],
  ◌∷◌, map, if◌then◌else◌, arith, length, get_elem?, Option-cases, Bool-cases, inl, inr, leb, ◌==◌,
  eq_iff,
}
use factory_network_server.Prelude.Texts.{Text, Text_eq}
use factory_network_server.Js.Strings.{to_upper}
use factory_network_server.Echo.State.{
  Input, Player, RoundResult, Match, owner_create_initial, find_index, find_player_index, get_owner,
  is_out, active_players, clear_player_results, advance_phase,
}
use factory_network_server.Echo.Turns.{
  begin_control, finish_copy_phase, all_challengers_succeeded, successful, fastest, next_owner,
  index_of,
}
use factory_network_server.Echo.Moves.{
  Meta, act, act_if_active, actor_of, actor_index_for_phase, apply_input, read_input, meta_id,
}
use factory_network_server.Echo.Clock.{advance_to_time, advance_in, after_timer}

abbrev passes : (Player → Bool) → Option Player → Bool
passes test none = true
passes test (some p) = test p

abbrev passes_at : (Player → Bool) → List Player → Option ℕ → Bool
passes_at test ps none = true
passes_at test ps (some i) = passes test (get_elem? ps i)

passes-find_index :
    (test : Player → Bool) (ps : List Player) → passes_at test ps (find_index test ps) ≡ true
unfolding find_index
passes-find_index test [] = refl
passes-find_index test (p ∷ ps) = found (find_index test ps) (passes-find_index test ps)
  where
    found :
        (o : Option ℕ)
        → passes_at test ps o ≡ true
        → passes_at test
            (p ∷ ps)
            (if test p then some 0 else elim o [ none ↦ none | some i ↦ some (suc i) ])
          ≡ true
    found none h = ground arith
    found (some i) h = ground (arith, h)

-- The owner is to begin, but he is out, and nobody else has his id.
pub record IsAbandoned (m : Match) : Type 0 where
  pub begins : m.phase ≡ owner_create_initial
  pub untimed : m.timer ≡ none
  pub owner : Player
  pub owns : get_owner m ≡ some owner
  pub out : owner.eliminated ≡ true
  pub first : find_player_index owner.id m ≡ some m.owner_index

-- An actor who is in the game and has the owner's id would be the owner.
not_owner :
    (client : Text) (m : Match) (i : Option ℕ) (actor owner : Player)
    → find_player_index client m ≡ i
    → passes_at (λ (p : Player). p.id == client) m.players i ≡ true
    → elim i [ none ↦ none | some index ↦ get_elem? m.players index ] ≡ some actor
    → find_player_index owner.id m ≡ some m.owner_index
    → get_owner m ≡ some owner
    → owner.eliminated ≡ true
    → actor.eliminated ≡ false
    → (owner.id == actor.id) ≡ false
not_owner client m none actor owner f h e first owns out alive = cc
not_owner client m (some i) actor owner f h e first owns out alive =
    elim (Bool-cases (owner.id == actor.id)) [
      | inr n ↦ n
      | inl y ↦
          let same : actor.id ≡ client =
            (eq_iff actor.id client).0 (ap (passes (λ (p : Player). p.id == client)) (sym e) ∙ h) in
          let index : some i ≡ some m.owner_index =
            sym f
            ∙ ap (λ (c : Text). find_player_index c m) (sym ((eq_iff owner.id actor.id).0 y ∙ same))
            ∙ first in
          let one : some actor ≡ some owner =
            sym e
            ∙ ap (λ (o : Option ℕ). elim o [ none ↦ none | some j ↦ get_elem? m.players j ]) index
            ∙ owns in
          ground (arith, alive, out, ap (λ (o : Option Player). is_out o) one)
    ]

actor_stays :
    (client : Text) (id : Option (ℕ × ℕ)) (actor : Option Player) (input : Input) (now : ℕ)
    (m : Match)
    → IsAbandoned m
    → client ≢ []
    → actor_of client m ≡ actor
    → act_if_active id actor input now m ≡ m
unfolding act_if_active act actor_of actor_index_for_phase find_player_index
actor_stays client id none input now m a h e = refl
actor_stays [] id (some actor) input now m a h e = absurd (h refl)
actor_stays (c ∷ client) id (some actor) input now m a h e = elim (Bool-cases actor.eliminated) [
  | inl out ↦ rw out
  | inr alive ↦
      let other : (a.owner.id == actor.id) ≡ false =
        not_owner (c ∷ client) m (find_player_index (c ∷ client) m) actor a.owner refl
          (passes-find_index (λ (p : Player). p.id == c ∷ client) m.players) e a.first a.owns a.out
          alive in
      rw alive (rw a.begins (rw (a.owns) (rw other)))
]

apply_input-IsAbandoned :
    (client raw : Text) (meta : Option Meta) (now : ℕ) (m : Match)
    → IsAbandoned m
    → client ≢ []
    → apply_input client raw meta now m ≡ m
unfolding apply_input
apply_input-IsAbandoned client raw meta now m a h =
    elim (Option-cases (read_input (to_upper raw))) [
      | inl e ↦ rw (e, apply_input) (ground arith)
      | inr (input, e) ↦
          rw (e, apply_input)
            (ground
              (arith, actor_stays client (meta_id meta) (actor_of client m) input now m a h refl))
    ]

advance_to_time-IsAbandoned : (now : ℕ) (m : Match) → IsAbandoned m → advance_to_time now m ≡ m
unfolding advance_to_time advance_in after_timer
advance_to_time-IsAbandoned now m a = rw a.begins (rw a.untimed)

get_elem?-map :
    (f : Player → Player) (ps : List Player) (i : ℕ) (p : Player)
    → get_elem? ps i ≡ some p
    → get_elem? (map f ps) i ≡ some (f p)
get_elem?-map f [] i p e = cc
get_elem?-map f (q ∷ ps) ℕ.zero p e = ap f_some e
  where
    f_some : Option Player → Option Player
    f_some none = none
    f_some (some x) = some (f x)
get_elem?-map f (q ∷ ps) (suc i) p e = get_elem?-map f ps i p e

find_index-clear :
    (client : Text) (ps : List Player)
    → find_index (λ (p : Player). p.id == client) (clear_player_results ps)
      ≡ find_index (λ (p : Player). p.id == client) ps
unfolding find_index
find_index-clear client [] = refl
find_index-clear client (p ∷ ps) = rw (find_index-clear client ps)

-- The longest pattern has been copied as often as there are challengers, and the fastest of those
-- who have copied it is out.
pub record IsLost (i : ℕ) (r : RoundResult) (lost : Player) (m : Match) : Type 0 where
  pub others : 1 < length (active_players m)
  pub copied : all_challengers_succeeded m ≡ true
  pub longest : 10 ≤ length m.active_sequence
  pub best : fastest (successful m) ≡ some r
  pub index : find_player_index r.player_id m ≡ some i
  pub player : get_elem? m.players i ≡ some lost
  pub out : lost.eliminated ≡ true

IsLost-id :
    (i : ℕ) (r : RoundResult) (lost : Player) (m : Match)
    → IsLost i r lost m
    → lost.id ≡ r.player_id
unfolding find_player_index
IsLost-id i r lost m l =
    let test : Player → Bool = λ p. p.id == r.player_id in
    (eq_iff lost.id r.player_id).0 (
      ap (passes test) (sym l.player)
      ∙ ap (passes_at test m.players) (sym l.index)
      ∙ passes-find_index test m.players)

finish_copy_phase-IsAbandoned :
    (i : ℕ) (r : RoundResult) (lost : Player) (now : ℕ) (m : Match)
    → IsLost i r lost m
    → IsAbandoned (finish_copy_phase now m)
unfolding finish_copy_phase begin_control advance_phase next_owner index_of find_player_index
finish_copy_phase-IsAbandoned i r lost now m l =
    let many : leb (length (active_players m)) 1 ≡ false = ground (arith, l.others) in
    let long : leb 10 (length m.active_sequence) ≡ true = ground (arith, l.longest) in
    let next : next_owner m ≡ some i = rw (l.best, next_owner) (rw l.index) in
    let turn : finish_copy_phase now m ≡ begin_control (some i) m =
      rw (many, finish_copy_phase) (rw l.copied (rw long (rw next))) in
    rw turn (record {
      begins = refl;
      untimed = refl;
      owner = record lost { last_result = none };
      owns =
          get_elem?-map (λ (p : Player). record p { last_result = none }) m.players i lost l.player;
      out = l.out;
      first = find_index-clear lost.id m.players ∙ rw (IsLost-id i r lost m l) l.index;
    })

-- If the longest pattern of echo-duel has been copied as often as there are challengers, and the
-- fastest player who copied it is out by now, while two others at least are in, the match gets
-- stuck: whoever sends an input, and however late it is, it stays as the end of the copies left it.
pub finish_copy_phase_stuck :
    (i : ℕ) (r : RoundResult) (lost : Player) (now : ℕ) (m : Match)
    → IsLost i r lost m
    → (client raw : Text) (meta : Option Meta) (later : ℕ) → client ≢ []
    → (apply_input client raw meta later (finish_copy_phase now m) ≡ finish_copy_phase now m)
      × (advance_to_time later (finish_copy_phase now m) ≡ finish_copy_phase now m)
finish_copy_phase_stuck i r lost now m l client raw meta later h =
    let a = finish_copy_phase-IsAbandoned i r lost now m l in
    (
      apply_input-IsAbandoned client raw meta later (finish_copy_phase now m) a h,
      advance_to_time-IsAbandoned later (finish_copy_phase now m) a,
    )
