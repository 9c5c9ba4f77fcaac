-- ===== src/Greed/Rank.antt =====
-- How many phase timers of pot-of-greed can still run out, phase by phase.
use factory_network_server.Prelude.{
  ℕ, ◌+◌, ◌*◌, ◌<◌, ◌≡◌, ◌≢◌, sym, ap, ◌∙◌, true, List, [], distinct, ℕ_eq,
}
use factory_network_server.Prelude.Texts.{Text, Text_eq}
use factory_network_server.Greed.State.{
  Match, Phase, hidden_vault_action, hidden_discussion, hidden_vote, hidden_runoff_vote,
  hidden_vote_result, show_vault_action, show_discussion, show_vote, show_runoff_vote,
  show_vote_result, final_settlement, final_results,
}
use factory_network_server.Greed.Votes.{ids_of}
use factory_network_server.Greed.Roster.{badges, actives, badge_ids, ids_of-badges}

-- The place of a phase in a cycle that `n` active players play.
abbrev pub rank : Phase → ℕ → ℕ
rank hidden_vault_action n = 5 * n + 3
rank hidden_discussion n = 5 * n + 2
rank hidden_vote n = 5 * n + 1
rank hidden_runoff_vote n = 5 * n
rank hidden_vote_result n = 5 * n + 4
rank show_vault_action n = 5 * n + 3
rank show_discussion n = 5 * n + 2
rank show_vote n = 5 * n + 1
rank show_runoff_vote n = 5 * n
rank show_vote_result n = 5 * n + 4
rank final_settlement n = 0
rank final_results n = 0

abbrev pub count_active : Match → ℕ
count_active m = actives (badges m.players)

-- How many timers can still run out.
abbrev pub timers_left : Match → ℕ
timers_left m = rank m.phase (count_active m)

-- What a phase needs: somebody to select, and in a runoff the tied players.
abbrev pub IsPlayable : Phase → ℕ → List Text → Type 0
IsPlayable hidden_runoff_vote n targets = (0 < n) × (targets ≢ [])
IsPlayable show_runoff_vote n targets = (0 < n) × (targets ≢ [])
IsPlayable hidden_vote_result n targets = Unit {0}
IsPlayable show_vote_result n targets = Unit {0}
IsPlayable final_results n targets = Unit {0}
IsPlayable final_settlement n targets = ⊥
IsPlayable _ n targets = 0 < n

pub record IsRunning (m : Match) : Type 0 where
  pub different : distinct (ids_of m.players) ≡ true
  pub playable : IsPlayable m.phase (count_active m) m.runoff_targets

pub IsRunning-same :
    (m m' : Match)
    → badges m'.players ≡ badges m.players
    → IsRunning m
    → distinct (ids_of m'.players) ≡ true
IsRunning-same m m' same h =
    ap (λ ids. distinct ids)
      (ids_of-badges m'.players ∙ ap badge_ids same ∙ sym (ids_of-badges m.players))
    ∙ h.different

abbrev pub Progresses : Match → Match → Type 0
Progresses m m' = IsRunning m' × (timers_left m' < timers_left m)

-- The facts on the new match from which progress follows.
pub progress :
    (m m' : Match) (ph : Phase)
    → IsRunning m
    → badges m'.players ≡ badges m.players
    → m'.phase ≡ ph
    → IsPlayable ph (count_active m) m'.runoff_targets × (rank ph (count_active m) < timers_left m)
    → Progresses m m'
progress m m' ph h same e k = (
  record { different = IsRunning-same m m' same h; playable = rw (same, e) k.0 },
  rw (same, e) k.1,
)
