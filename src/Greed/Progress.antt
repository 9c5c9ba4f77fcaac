-- ===== src/Greed/Progress.antt =====
-- The phase timers of pot-of-greed: each that runs out brings the match nearer to its end.
use factory_network_server.Prelude.{
  ℕ, ◌+◌, ◌*◌, ◌<◌, ◌≡◌, ◌≢◌, refl, true, false, some, List, inl, inr, if◌then◌else◌, Bool-cases,
  arith, length, ◌==◌, ℕ_eq,
}
use factory_network_server.Prelude.Texts.{Text, Text_eq}
use factory_network_server.Greed.State.{
  Match, Phase, hidden_vault_action, hidden_discussion, hidden_vote_result, show_vault_action,
  show_discussion, show_vote_result, final_settlement, final_results, CycleType, hidden_cycle,
  show_cycle, is_hidden_phase, is_vault_action_phase, is_discussion_phase, is_vote_phase,
  is_result_phase, discussion_phase_for, active_players,
}
use factory_network_server.Greed.Vault.{resolve_vault_actions}
use factory_network_server.Greed.Votes.{begin_vote}
use factory_network_server.Greed.Cycles.{advance_cycle, settle_match, next_cycle, transition}
use factory_network_server.Greed.Roster.{
  badges, length-active, badges-collect, badges-resolve_vault_actions,
}
use factory_network_server.Greed.Rank.{
  IsRunning, rank, count_active, IsPlayable, Progresses, progress,
}
use factory_network_server.Greed.Voting.{begin_vote_progress, vote_progress}

vault_rank :
    (ph : Phase) (n : ℕ) (t t' : List Text)
    → is_vault_action_phase ph ≡ true
    → IsPlayable ph n t
    → let ph' = if is_hidden_phase ph then hidden_discussion else show_discussion in
      IsPlayable ph' n t' × (rank ph' n < rank ph n)
unfolding is_vault_action_phase is_hidden_phase
vault_rank hidden_vault_action n t t' h p = (p, omega arith)
vault_rank show_vault_action n t t' h p = (p, omega arith)
vault_rank _ n t t' h p = cc

vault_phase :
    (m : Match) (now : ℕ)
    → is_vault_action_phase m.phase ≡ true
    → (resolve_vault_actions m now).phase
      ≡ (if is_hidden_phase m.phase then hidden_discussion else show_discussion)
unfolding resolve_vault_actions discussion_phase_for
vault_phase m now h = rw h refl

vault_progress :
    (m : Match) (now : ℕ)
    → is_vault_action_phase m.phase ≡ true
    → IsRunning m
    → Progresses m (resolve_vault_actions m now)
vault_progress m now phase h =
    progress m (resolve_vault_actions m now) _ h (badges-resolve_vault_actions m now)
      (vault_phase m now phase)
      (vault_rank m.phase (count_active m) m.runoff_targets _ phase h.playable)

settle_rank : (ph : Phase) (n : ℕ) → is_result_phase ph ≡ true → 0 < rank ph n
unfolding is_result_phase
settle_rank hidden_vote_result n h = omega arith
settle_rank show_vote_result n h = omega arith
settle_rank _ n h = cc

cycle_rank : (ph : Phase) (n : ℕ) → is_result_phase ph ≡ true → 5 * n + 3 < rank ph n
unfolding is_result_phase
cycle_rank hidden_vote_result n h = omega arith
cycle_rank show_vote_result n h = omega arith
cycle_rank _ n h = cc

next_cycle_progress :
    (m : Match) (c : CycleType) (now : ℕ)
    → m.cycle_type ≡ c
    → is_result_phase m.phase ≡ true
    → 0 < count_active m
    → IsRunning m
    → Progresses m (next_cycle m now)
unfolding next_cycle
next_cycle_progress m hidden_cycle now e phase some_active h =
    progress m (next_cycle m now) show_vault_action h
      (rw (e, next_cycle) (badges-collect m.players)) (rw (e, next_cycle) refl)
      (some_active, cycle_rank m.phase (count_active m) phase)
next_cycle_progress m show_cycle now e phase some_active h =
    progress m (next_cycle m now) hidden_vault_action h (rw (e, next_cycle) refl)
      (rw (e, next_cycle) refl) (some_active, cycle_rank m.phase (count_active m) phase)

settled_badges : (m : Match) (now : ℕ) → badges (settle_match m now).players ≡ badges m.players
unfolding settle_match
settled_badges m now = badges-collect m.players

settled_phase : (m : Match) (now : ℕ) → (settle_match m now).phase ≡ final_results
unfolding settle_match
settled_phase m now = refl

result_progress :
    (m : Match) (now : ℕ)
    → is_result_phase m.phase ≡ true
    → IsRunning m
    → Progresses m (advance_cycle m now)
unfolding advance_cycle
result_progress m now phase h = elim (Bool-cases (length (active_players m) == 0)) [
  | inl done ↦
      rw (phase, done)
        (progress m (settle_match m now) final_results h (settled_badges m now)
          (settled_phase m now) (tt, settle_rank m.phase (count_active m) phase))
  | inr more ↦
      rw (phase, more)
        (next_cycle_progress m m.cycle_type now refl phase (ground (arith, length-active m.players))
          h)
]

-- A phase that no timer ends is over, or is not reached.
other_phase :
    (ph : Phase) (n : ℕ) (t : List Text)
    → is_vault_action_phase ph ≡ false
    → is_discussion_phase ph ≡ false
    → is_vote_phase ph ≡ false
    → is_result_phase ph ≡ false
    → IsPlayable ph n t
    → ph ≡ final_results
unfolding is_vault_action_phase is_discussion_phase is_vote_phase is_result_phase
other_phase final_results n t a b c d p = refl
other_phase final_settlement n t a b c d p = absurd p
other_phase hidden_vault_action n t a b c d p = cc
other_phase _ n t a b c d p = cc

-- Each timer of a match that is not over does its work without a throw.
pub transition_progress :
    (m : Match) (now : ℕ)
    → IsRunning m
    → m.phase ≢ final_results
    → (m' : Match) × (transition m now ≡ some m') × Progresses m m'
unfolding transition
transition_progress m now h live = elim (Bool-cases (is_vault_action_phase m.phase)) [
  | inl e ↦ (resolve_vault_actions m now, rw e refl, vault_progress m now e h)
  | inr a ↦ elim (Bool-cases (is_discussion_phase m.phase)) [
    | inl e ↦ (begin_vote m now, rw (a, e) refl, begin_vote_progress m now e h)
    | inr b ↦ elim (Bool-cases (is_vote_phase m.phase)) [
      | inl e ↦ let (m', r, p) = vote_progress m now e h in (m', rw (a, b) (rw e r), p)
      | inr c ↦ elim (Bool-cases (is_result_phase m.phase)) [
        | inl e ↦ (advance_cycle m now, rw (a, b) (rw (c, e) refl), result_progress m now e h)
        | inr d ↦
            absurd (live (other_phase m.phase (count_active m) m.runoff_targets a b c d h.playable))
      ]
    ]
  ]
]
