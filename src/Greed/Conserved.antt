-- ===== src/Greed/Conserved.antt =====
-- resolvePotOfGreedVaultActions: gold only changes hands.
use factory_network_server.Prelude.{
  ℕ, ◌+◌, ◌≤◌, ◌≡◌, refl, ◌∙◌, Bool, true, false, List, [], ◌∷◌, ◌++◌, map, inl, inr, ◌||◌, leb,
  Bool-cases, Option-cases, arith, ◌==◌, eq_refl,
}
use factory_network_server.Prelude.Texts.{Text, Text_eq}
use factory_network_server.Greed.State.{
  Match, Player, Action, pass, invest, steal, CycleType, hidden_cycle, show_cycle, is_active,
  update_player, is_vault_action_phase,
}
use factory_network_server.Greed.Vault.{
  Theft, Payout, Round, total_paid, distribute_theft, act, act_all, pay_all, resolve_vault_actions,
  action_for, investment_package,
}
use factory_network_server.Greed.Shares.{
  as_theft, total_paid-distribute_theft, as_theft-distribute_theft,
}

abbrev pub gold_of : List Player → ℕ
gold_of [] = 0
gold_of (p ∷ ps) = p.gold + gold_of ps

-- All gold of the match, the stakes that are still to come back left out.
abbrev pub wealth : Match → ℕ
wealth m = m.vault_gold + gold_of m.players

abbrev sits : Text → List Player → Bool
sits id [] = false
sits id (p ∷ ps) = p.id == id || sits id ps

abbrev AllSit : List Player → List Theft → Type 0
AllSit ps [] = Unit {0}
AllSit ps (t ∷ ts) = (sits t.player_id ps ≡ true) × AllSit ps ts

AllSit-append :
    (ps : List Player) (ts us : List Theft) → AllSit ps ts → AllSit ps us → AllSit ps (ts ++ us)
AllSit-append ps [] us h k = k
AllSit-append ps (t ∷ ts) us h k = (h.0, AllSit-append ps ts us h.1 k)

abbrev add_gold : ℕ → Player → Player
add_gold n q = record q { gold = q.gold + n }

gold_of-update_player :
    (id : Text) (n : ℕ) (ps : List Player)
    → sits id ps ≡ true
    → gold_of (update_player id (add_gold n) ps) ≡ gold_of ps + n
unfolding update_player
gold_of-update_player id n [] h = cc
gold_of-update_player id n (p ∷ ps) h = ground (arith, gold_of-update_player id n ps)

sits-update_player :
    (id other : Text) (n : ℕ) (ps : List Player)
    → sits other (update_player id (add_gold n) ps) ≡ sits other ps
unfolding update_player
sits-update_player id other n [] = refl
sits-update_player id other n (p ∷ ps) = ground (arith, sits-update_player id other n ps)

AllSit-update_player :
    (id : Text) (n : ℕ) (ps : List Player) (ts : List Theft)
    → AllSit ps ts
    → AllSit (update_player id (add_gold n) ps) ts
AllSit-update_player id n ps [] h = tt
AllSit-update_player id n ps (t ∷ ts) h =
    (sits-update_player id t.player_id n ps ∙ h.0, AllSit-update_player id n ps ts h.1)

pay_all_wealth :
    (ps : List Payout) (players : List Player) (r : Round)
    → AllSit players (map as_theft ps)
    → total_paid ps ≤ r.vault
    → let (players', r') = pay_all ps (players, r) in
      gold_of players' + r'.vault ≡ gold_of players + r.vault
unfolding pay_all
pay_all_wealth [] players r h le = refl
pay_all_wealth (p ∷ ps) players r h le =
    let next = update_player p.player_id (add_gold p.actual) players in
    let step : gold_of next ≡ gold_of players + p.actual =
      gold_of-update_player p.player_id p.actual players h.0 in
    pay_all_wealth ps next _
      (AllSit-update_player p.player_id p.actual players (map as_theft ps) h.1) (omega arith)
    ∙ omega arith

-- One player's action keeps his gold and the vault's together.
act_wealth :
    (cycle : CycleType) (n : ℕ) (action : Action) (p : Player) (r : Round)
    → let (p', r') = act cycle n action p r in
      (p'.gold + r'.vault ≡ p.gold + r.vault) × (p'.id ≡ p.id)
unfolding act
act_wealth cycle n pass p r = (refl, refl)
act_wealth cycle n (steal amount) p r = (refl, refl)
act_wealth show_cycle n (invest amount back) p r = (refl, refl)
act_wealth hidden_cycle n (invest amount back) p r = ground arith

module _ (all : List Player) where
  act-thefts :
      (cycle : CycleType) (n : ℕ) (action : Action) (p : Player) (r : Round)
      → sits p.id all ≡ true
      → AllSit all r.thefts
      → AllSit all (act cycle n action p r).1.thefts
  unfolding act
  act-thefts cycle n pass p r s h = h
  act-thefts cycle n (steal amount) p r s h =
      AllSit-append all r.thefts (record { player_id = p.id; amount = amount } ∷ []) h (s, tt)
  act-thefts show_cycle n (invest amount back) p r s h = h
  act-thefts hidden_cycle n (invest amount back) p r s h =
      elim (Option-cases (investment_package amount)) [
        | inl e ↦ rw (e, act) h
        | inr (pair, e) ↦ elim (Bool-cases (leb pair.0 p.gold)) [
          | inl k ↦ rw (e, act) (rw k h)
          | inr k ↦ rw (e, act) (rw k h)
        ]
      ]

  abbrev AllAre : List Player → Type 0
  AllAre [] = Unit {0}
  AllAre (p ∷ ps) = (sits p.id all ≡ true) × AllAre ps

  act_all-thefts :
      (m : Match) (ps : List Player) (r : Round)
      → AllAre ps
      → AllSit all r.thefts
      → AllSit all (act_all m ps r).1.thefts
  unfolding act_all
  act_all-thefts m [] r a h = h
  act_all-thefts m (p ∷ ps) r a h = elim (Bool-cases (is_active p)) [
    | inl e ↦ rw e (
        act_all-thefts m ps (act m.cycle_type m.cycle_number (action_for m p.id) p r).1 a.1
          (act-thefts m.cycle_type m.cycle_number (action_for m p.id) p r a.0 h))
    | inr e ↦ rw e (act_all-thefts m ps r a.1 h)
  ]

AllAre-cons : (p : Player) (all ps : List Player) → AllAre all ps → AllAre (p ∷ all) ps
AllAre-cons p all [] h = tt
AllAre-cons p all (q ∷ ps) h = (ground (arith, h.0), AllAre-cons p all ps h.1)

AllAre-self : (ps : List Player) → AllAre ps ps
AllAre-self [] = tt
AllAre-self (p ∷ ps) = (ground (arith, eq_refl p.id), AllAre-cons p ps ps (AllAre-self ps))

-- The loop over the active players keeps their gold and the vault's together, and their ids.
act_all_wealth :
    (m : Match) (ps : List Player) (r : Round)
    → let (ps', r') = act_all m ps r in
      (gold_of ps' + r'.vault ≡ gold_of ps + r.vault) × ((id : Text) → sits id ps' ≡ sits id ps)
unfolding act_all
act_all_wealth m [] r = (refl, λ id. refl)
act_all_wealth m (p ∷ ps) r = elim (Bool-cases (is_active p)) [
  | inl e ↦
      let one = act_wealth m.cycle_type m.cycle_number (action_for m p.id) p r in
      let rest = act_all_wealth m ps (act m.cycle_type m.cycle_number (action_for m p.id) p r).1 in
      rw e (omega (arith, one.0, rest.0), λ id. rw (one.1, rest.1 id))
  | inr e ↦ let rest = act_all_wealth m ps r in rw e (omega (arith, rest.0), λ id. rw (rest.1 id))
]

AllSit-same :
    (ps qs : List Player) (ts : List Theft)
    → ((id : Text) → sits id qs ≡ sits id ps)
    → AllSit ps ts
    → AllSit qs ts
AllSit-same ps qs [] same h = tt
AllSit-same ps qs (t ∷ ts) same h = (same t.player_id ∙ h.0, AllSit-same ps qs ts same h.1)

-- Carrying out the vault actions of a pot-of-greed match, whatever the players asked for, keeps the
-- sum of the vault's gold and the players' gold.
pub resolve_vault_actions-wealth :
    (m : Match) (now : ℕ) → wealth (resolve_vault_actions m now) ≡ wealth m
unfolding resolve_vault_actions
resolve_vault_actions-wealth m now = elim (Bool-cases (is_vault_action_phase m.phase)) [
  | inr other ↦ rw other refl
  | inl acting ↦
      let start : Round = record {
        vault = m.vault_gold;
        thefts = [];
        resolved = [];
        entries = [];
      } in
      let (acted, r) = act_all m m.players start in
      let payouts = distribute_theft r.vault r.thefts in
      let kept = act_all_wealth m m.players start in
      let thieves : AllSit acted (map as_theft payouts) =
        rw (as_theft-distribute_theft r.vault r.thefts) (
          AllSit-same m.players acted r.thefts kept.1
            (act_all-thefts m.players m m.players start (AllAre-self m.players) tt)) in
      let little : total_paid payouts ≤ r.vault =
        omega (arith, total_paid-distribute_theft r.vault r.thefts) in
      rw acting (omega (arith, kept.0, pay_all_wealth payouts acted r thieves little))
]
