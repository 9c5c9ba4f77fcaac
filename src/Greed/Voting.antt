-- ===== src/Greed/Voting.antt =====
-- The timers of pot-of-greed's votes: each brings the match nearer to its end.
use factory_network_server.Prelude.{
  ℕ, ◌+◌, ◌<◌, ◌≡◌, ◌≢◌, refl, sym, ap, ◌∙◌, Bool, true, some, List, [], inl, inr, if◌then◌else◌,
  arith, length, ℕ_eq,
}
use mathlib.Core.Path.{subst}
use factory_network_server.Prelude.Texts.{Text, Text_eq}
use factory_network_server.Greed.State.{
  Match, Player, Phase, hidden_discussion, hidden_vote, hidden_runoff_vote, hidden_vote_result,
  show_discussion, show_vote, show_runoff_vote, show_vote_result, CycleType, hidden_cycle,
  show_cycle, is_active, by_cycle, is_discussion_phase, is_vote_phase, vote_phase_for,
  vote_result_phase_for, player_for, update_player, active_players,
}
use factory_network_server.Greed.Votes.{
  ids_of, tally_votes, leaders_of, begin_vote, begin_runoff, with_verdict, resolve_vote, convict,
  after_verdict, voters_for, fine_for, action_summary, is_steal,
}
use factory_network_server.Greed.Roster.{
  badges, actives, badge_ids, length-active, ids_of-badges, badges-after_verdict, actives-convict,
  ids_of-convict, find_same,
}
use factory_network_server.Greed.Leaders.{resolve_vote-cases}
use factory_network_server.Greed.Rank.{
  IsRunning, rank, count_active, IsPlayable, Progresses, progress,
}

vote_rank :
    (ph : Phase) (c : CycleType) (n : ℕ) (t : List Text)
    → is_discussion_phase ph ≡ true
    → IsPlayable ph n t
    → IsPlayable (by_cycle c hidden_vote show_vote) n []
      × (rank (by_cycle c hidden_vote show_vote) n < rank ph n)
unfolding is_discussion_phase
vote_rank hidden_discussion hidden_cycle n t h p = (p, omega arith)
vote_rank hidden_discussion show_cycle n t h p = (p, omega arith)
vote_rank show_discussion hidden_cycle n t h p = (p, omega arith)
vote_rank show_discussion show_cycle n t h p = (p, omega arith)
vote_rank _ c n t h p = cc

pub begin_vote_progress :
    (m : Match) (now : ℕ)
    → is_discussion_phase m.phase ≡ true
    → IsRunning m
    → Progresses m (begin_vote m now)
unfolding begin_vote vote_phase_for
begin_vote_progress m now phase h = rw phase (
    progress m
      (record m { phase = vote_phase_for m; votes = []; runoff_targets = []; updated_at = now })
      (by_cycle m.cycle_type hidden_vote show_vote) h refl refl
      (vote_rank m.phase m.cycle_type (count_active m) m.runoff_targets phase h.playable))

-- A runoff follows only a first vote, where no targets are named.
runoff_rank :
    (ph : Phase) (c : CycleType) (n : ℕ) (t : List Text)
    → is_vote_phase ph ≡ true
    → IsPlayable ph n []
    → t ≢ []
    → IsPlayable (by_cycle c hidden_runoff_vote show_runoff_vote) n t
      × (rank (by_cycle c hidden_runoff_vote show_runoff_vote) n < rank ph n)
unfolding is_vote_phase
runoff_rank hidden_vote hidden_cycle n t h p k = ((p, k), omega arith)
runoff_rank hidden_vote show_cycle n t h p k = ((p, k), omega arith)
runoff_rank show_vote hidden_cycle n t h p k = ((p, k), omega arith)
runoff_rank show_vote show_cycle n t h p k = ((p, k), omega arith)
runoff_rank hidden_runoff_vote c n t h p k = absurd (p.1 refl)
runoff_rank show_runoff_vote c n t h p k = absurd (p.1 refl)
runoff_rank _ c n t h p k = cc

runoff_progress :
    (m : Match) (leaders : List Text) (now : ℕ)
    → is_vote_phase m.phase ≡ true
    → m.runoff_targets ≡ []
    → leaders ≢ []
    → IsRunning m
    → Progresses m (begin_runoff m leaders now)
unfolding begin_runoff
runoff_progress m leaders now phase first led h =
    progress m (begin_runoff m leaders now)
      (by_cycle m.cycle_type hidden_runoff_vote show_runoff_vote) h refl refl
      (runoff_rank m.phase m.cycle_type (count_active m) leaders phase
        (subst (λ (t : List Text). IsPlayable m.phase (count_active m) t) first h.playable) led)

-- One player fewer makes up for the result phase.
verdict_rank :
    (ph : Phase) (c : CycleType) (n : ℕ) (t : List Text)
    → is_vote_phase ph ≡ true
    → rank (by_cycle c hidden_vote_result show_vote_result) n < rank ph (n + 1)
unfolding is_vote_phase
verdict_rank hidden_vote hidden_cycle n t h = omega arith
verdict_rank hidden_vote show_cycle n t h = omega arith
verdict_rank show_vote hidden_cycle n t h = omega arith
verdict_rank show_vote show_cycle n t h = omega arith
verdict_rank hidden_runoff_vote hidden_cycle n t h = omega arith
verdict_rank hidden_runoff_vote show_cycle n t h = omega arith
verdict_rank show_runoff_vote hidden_cycle n t h = omega arith
verdict_rank show_runoff_vote show_cycle n t h = omega arith
verdict_rank _ c n t h = cc

result-IsPlayable :
    (c : CycleType) (n : ℕ) (t : List Text)
    → IsPlayable (by_cycle c hidden_vote_result show_vote_result) n t
result-IsPlayable hidden_cycle n t = tt
result-IsPlayable show_cycle n t = tt

-- The players after a verdict.
verdict_players :
    (correct : Bool) (fine : ℕ) (id : Text) (voters : List Text) (m : Match) (p : Player)
    → player_for m id ≡ some p
    → is_active p ≡ true
    → let ps = update_player id convict (after_verdict correct fine id voters m.players) in
      (actives (badges ps) + 1 ≡ count_active m) × (ids_of ps ≡ ids_of m.players)
unfolding player_for
verdict_players correct fine id voters m p found act =
    let ps = after_verdict correct fine id voters m.players in
    let same : badges ps ≡ badges m.players =
      badges-after_verdict correct fine id voters m.players in
    let (q, found', act') = find_same id m.players ps p same found act in
    (
      actives-convict id ps q found' act' ∙ ap actives same,
      ids_of-convict id ps ∙ ids_of-badges ps ∙ ap badge_ids same ∙ sym (ids_of-badges m.players),
    )

verdict_progress :
    (m : Match) (n : ℕ) (tied : Bool) (id : Text) (p : Player) (now : ℕ)
    → is_vote_phase m.phase ≡ true
    → IsRunning m
    → player_for m id ≡ some p
    → is_active p ≡ true
    → Progresses m (with_verdict (record m { tie_break_count = n }) (tally_votes m) tied id p now)
unfolding with_verdict vote_result_phase_for
verdict_progress m n tied id p now phase h found act =
    let action = action_summary (record m { tie_break_count = n }) id in
    let correct = is_steal action.resolved_type in
    let fine : ℕ = if correct then fine_for p action else 0 in
    let after = verdict_players correct fine id (voters_for id m.votes) m p found act in
    let ps =
      update_player id convict (after_verdict correct fine id (voters_for id m.votes) m.players) in
    (
      record {
        different = rw after.1 h.different;
        playable = result-IsPlayable m.cycle_type _ m.runoff_targets;
      },
      subst
          (λ (k : ℕ).
            rank (by_cycle m.cycle_type hidden_vote_result show_vote_result) (actives (badges ps))
            < rank m.phase k)
          after.0 (verdict_rank m.phase m.cycle_type (actives (badges ps)) m.runoff_targets phase),
    )

active_players-ne-nil : (m : Match) → 0 < count_active m → active_players m ≢ []
active_players-ne-nil m h e =
    absurd (omega (arith, length-active m.players, ap (λ (ps : List Player). length ps) e))

vote_playable :
    (ph : Phase) (n : ℕ) (t : List Text) → is_vote_phase ph ≡ true → IsPlayable ph n t → 0 < n
unfolding is_vote_phase
vote_playable hidden_vote n t h p = p
vote_playable show_vote n t h p = p
vote_playable hidden_runoff_vote n t h p = p.0
vote_playable show_runoff_vote n t h p = p.0
vote_playable _ n t h p = cc

pub vote_progress :
    (m : Match) (now : ℕ)
    → is_vote_phase m.phase ≡ true
    → IsRunning m
    → (m' : Match) × (resolve_vote m now ≡ some m') × Progresses m m'
vote_progress m now phase h =
    let n = vote_playable m.phase (count_active m) m.runoff_targets phase h.playable in
    elim (resolve_vote-cases m now phase h.different (active_players-ne-nil m n)) [
      | inl (first, led, e) ↦ (
        begin_runoff m (leaders_of (tally_votes m)) now,
        e,
        runoff_progress m (leaders_of (tally_votes m)) now phase first led h,
      )
      | inr (k, tied, id, p, found, act, c, e) ↦ (
        with_verdict (record m { tie_break_count = k }) (tally_votes m) tied id p now,
        e,
        verdict_progress m k tied id p now phase h found act,
      )
    ]
