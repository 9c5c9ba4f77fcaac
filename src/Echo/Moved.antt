-- ===== src/Echo/Moved.antt =====
-- Inputs of echo-duel, and the bounds of a match.
use factory_network_server.Prelude.{
  ℕ, ◌+◌, ◌≤◌, refl, true, false, Option, none, some, [], ◌∷◌, ◌++◌, arith, length, take, get_elem?,
  length-take, Option-cases, inl, inr, leb, ltb, not,
}
use factory_network_server.Prelude.Texts.{Text, Text_eq}
use factory_network_server.Prelude.Maps.{get?}
use factory_network_server.Js.Strings.{to_upper}
use factory_network_server.Echo.State.{
  Input, Phase, owner_create_initial, owner_replay, owner_append, signal_playback, challenger_copy,
  match_over, Player, Match, owner_fail, next_active_index, get_owner, advance_phase,
  set_player_result, append_target_length,
}
use factory_network_server.Echo.Turns.{is_copying}
use factory_network_server.Echo.Moves.{
  Meta, remember_input, create_input, replay_input, append_target, append_input, copy_input, act,
  act_if_active, actor_of, apply_input, read_input, meta_id, is_owner, owner_failed, is_expected,
}
use factory_network_server.Echo.Bounded.{
  IsBounded, below-next_active_index, begin_control-IsBounded, begin_signal_playback-IsBounded,
}
use factory_network_server.Echo.Kept.{
  IsBounded-if, IsBounded-cases, IsBounded-core, mark_challenger_result-IsBounded,
  set_player_result-IsBounded,
}

-- The moves of the actors.
module _ (now : ℕ) where
  create_input-IsBounded :
      (input : Input) (m : Match) → IsBounded m → IsBounded (create_input input now m)
  unfolding create_input
  create_input-IsBounded input m v =
      let draft = m.owner_draft ++ (input ∷ []) in
      IsBounded-cases (leb 4 (length draft)) _ _
        (λ b.
          begin_signal_playback-IsBounded now
            (record m { active_sequence = draft; owner_draft = [] }) (omega arith) v.target v.owner
            v.spelled)
        λ b. record {
          sequence = v.sequence;
          draft = ground (arith, b);
          target = v.target;
          owner = v.owner;
          spelled = v.spelled;
        }

  remember_input-IsBounded :
      (id : Option (ℕ × ℕ)) (client : Text) (m : Match)
      → IsBounded m
      → IsBounded (remember_input id client m)
  unfolding remember_input
  remember_input-IsBounded none client m v = v
  remember_input-IsBounded (some id) client m v = IsBounded-core m _ refl v

  owner_failed-IsBounded :
      (m : Match) → IsBounded m → IsBounded (record m { players = owner_failed m })
  owner_failed-IsBounded m v = failed (get_owner m)
    where
      failed :
          (o : Option Player)
          → IsBounded (record m {
            players = elim o [
              | none ↦ m.players
              | some owner ↦ set_player_result owner.id owner_fail m.players
            ];
          })
      failed none = v
      failed (some owner) = set_player_result-IsBounded owner.id owner_fail m v

  replay_input-IsBounded :
      (input : Input) (m : Match) → IsBounded m → IsBounded (replay_input input now m)
  unfolding replay_input advance_phase append_target_length
  replay_input-IsBounded input m v =
      let failed = record m { players = owner_failed m } in
      IsBounded-if (is_expected (get_elem? m.active_sequence m.owner_replay_index) input) _ _
        (IsBounded-if (leb (length m.active_sequence) (m.owner_replay_index + 1)) _ _
          (record {
            sequence = v.sequence;
            draft = v.draft;
            target = omega (arith, v.sequence);
            owner = v.owner;
            spelled = v.spelled;
          })
          (IsBounded-core m _ refl v))
        (begin_control-IsBounded (next_active_index failed m.owner_index) failed
          (owner_failed-IsBounded m v) (below-next_active_index failed m.owner_index))

  append_target-le : (m : Match) → append_target m ≤ 10
  unfolding append_target
  append_target-le m = ground arith

  append_input-IsBounded :
      (id : Option (ℕ × ℕ)) (client : Text) (input : Input) (m : Match)
      → IsBounded m
      → IsBounded (append_input id client input now m)
  unfolding append_input
  append_input-IsBounded id client input m v =
      let target = append_target m in
      let aimed = record m { append_target_length = target } in
      let pushed = record aimed { active_sequence = take 10 (m.active_sequence ++ (input ∷ [])) } in
      let next = remember_input id client pushed in
      let k : IsBounded next = remember_input-IsBounded id client pushed (record {
        sequence = omega (arith, length-take 10 (m.active_sequence ++ (input ∷ [])));
        draft = v.draft;
        target = append_target-le m;
        owner = v.owner;
        spelled = v.spelled;
      }) in
      IsBounded-if _ _ _
        (begin_signal_playback-IsBounded now (record aimed { append_target_length = 0 }) v.draft
          (omega arith) v.owner v.spelled)
        (IsBounded-if _ _ _ k (
          begin_signal_playback-IsBounded now (record next { append_target_length = 0 }) k.draft
            (omega arith) k.owner k.spelled))

  copy_input-IsBounded :
      (id : Option (ℕ × ℕ)) (client : Text) (input : Input) (m : Match)
      → IsBounded m
      → IsBounded (copy_input id client input now m)
  unfolding copy_input
  copy_input-IsBounded id client input m v =
      let known = remember_input id client m in
      let k = remember_input-IsBounded id client m v in
      elim (Option-cases (get? client m.copy_progress)) [
        | inl e ↦ rw (e, copy_input) v
        | inr (p, e) ↦
            rw (e, copy_input)
              (IsBounded-if (not (is_copying p.status)) _ _ v (
                IsBounded-if (not (is_expected (get_elem? m.active_sequence p.index) input)) _ _
                  (mark_challenger_result-IsBounded client false now known k)
                  (IsBounded-if (leb (length m.active_sequence) (p.index + 1)) _ _
                    (mark_challenger_result-IsBounded client true now _
                      (IsBounded-core known _ refl k))
                    (IsBounded-core known _ refl k))))
      ]

  act-IsBounded :
      (phase : Phase) (id : Option (ℕ × ℕ)) (actor : Player) (input : Input) (m : Match)
      → IsBounded m
      → IsBounded (act phase id actor input now m)
  unfolding act
  act-IsBounded owner_create_initial id actor input m v =
      IsBounded-if (is_owner m actor) _ _
        (create_input-IsBounded input _ (remember_input-IsBounded id actor.id m v)) v
  act-IsBounded owner_replay id actor input m v =
      IsBounded-if (is_owner m actor) _ _
        (replay_input-IsBounded input _ (remember_input-IsBounded id actor.id m v)) v
  act-IsBounded owner_append id actor input m v =
      IsBounded-if (is_owner m actor) _ _ (append_input-IsBounded id actor.id input m v) v
  act-IsBounded challenger_copy id actor input m v =
      IsBounded-if (is_owner m actor) _ _ v (copy_input-IsBounded id actor.id input m v)
  act-IsBounded signal_playback id actor input m v = v
  act-IsBounded match_over id actor input m v = v

  act_if_active-IsBounded :
      (id : Option (ℕ × ℕ)) (actor : Option Player) (input : Input) (m : Match)
      → IsBounded m
      → IsBounded (act_if_active id actor input now m)
  unfolding act_if_active
  act_if_active-IsBounded id none input m v = v
  act_if_active-IsBounded id (some actor) input m v =
      IsBounded-if actor.eliminated _ _ v (act-IsBounded m.phase id actor input m v)

  pub apply_input-IsBounded :
      (client raw : Text) (meta : Option Meta) (m : Match)
      → IsBounded m
      → IsBounded (apply_input client raw meta now m)
  unfolding apply_input
  apply_input-IsBounded client raw meta m v = elim (Option-cases (read_input (to_upper raw))) [
    | inl e ↦ rw (e, apply_input) (IsBounded-if (ltb now m.created_at) _ _ v v)
    | inr (input, e) ↦
        rw (e, apply_input)
          (IsBounded-if (ltb now m.created_at) _ _ v (
            IsBounded-if _ _ _ v
              (act_if_active-IsBounded (meta_id meta) (actor_of client m) input m v)))
  ]
