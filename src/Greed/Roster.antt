-- ===== src/Greed/Roster.antt =====
-- The ids and the standing of the players of pot-of-greed-match-engine.mjs under each change.
use factory_network_server.Prelude.{
  ℕ, suc, ◌+◌, ◌≡◌, refl, ap, ◌∙◌, Bool, true, false, some, List, [], ◌∷◌, map, inl, inr,
  Bool-cases, arith, ◌==◌, eq_iff, length, filter, contains, distinct,
}
use factory_network_server.Prelude.Texts.{Text, Text_eq}
use factory_network_server.Greed.State.{
  Match, Player, Standing, active, jury, Action, pass, invest, steal, CycleType, hidden_cycle,
  show_cycle, is_active, find_player, update_player, is_vault_action_phase,
}
use factory_network_server.Greed.Vault.{
  Payout, Round, act, act_all, pay_all, resolve_vault_actions, action_for, distribute_theft,
}
use factory_network_server.Greed.Votes.{
  ids_of, reward, penalize, convict, update_each, after_verdict,
}
use factory_network_server.Greed.Cycles.{collect}

abbrev Badge : Type 0
Badge = Text × Standing

abbrev pub badge : Player → Badge
badge p = (p.id, p.status)

abbrev pub badges : List Player → List Badge
badges [] = []
badges (p ∷ ps) = badge p ∷ badges ps

-- How many are active.
abbrev pub actives : List Badge → ℕ
actives [] = 0
actives ((id, active) ∷ bs) = suc (actives bs)
actives ((id, jury) ∷ bs) = actives bs

abbrev pub badge_ids : List Badge → List Text
badge_ids [] = []
badge_ids ((id, s) ∷ bs) = id ∷ badge_ids bs

pub length-active : (ps : List Player) → length (filter is_active ps) ≡ actives (badges ps)
length-active [] = refl
length-active (p ∷ ps) = standing_case p.status p ps (length-active ps) refl
  where
    standing_case :
        (s : Standing) (p : Player) (ps : List Player)
        → length (filter is_active ps) ≡ actives (badges ps)
        → p.status ≡ s
        → length (filter is_active (p ∷ ps)) ≡ actives (badges (p ∷ ps))
    standing_case active p ps ih e = rw e (ap suc ih)
    standing_case jury p ps ih e = rw e ih

pub ids_of-badges : (ps : List Player) → ids_of ps ≡ badge_ids (badges ps)
ids_of-badges [] = refl
ids_of-badges (p ∷ ps) = ap (λ ids. p.id ∷ ids) (ids_of-badges ps)

-- A write that leaves the badge alone.
pub badges-update_player :
    (id : Text) (f : Player → Player) (ps : List Player)
    → ((p : Player) → badge (f p) ≡ badge p)
    → badges (update_player id f ps) ≡ badges ps
unfolding update_player
badges-update_player id f [] same = refl
badges-update_player id f (p ∷ ps) same = elim (Bool-cases (p.id == id)) [
  | inl e ↦ rw e (ap (λ b. b ∷ badges ps) (same p))
  | inr e ↦ rw e (ap (λ bs. badge p ∷ bs) (badges-update_player id f ps same))
]

badges-update_each :
    (f : Player → Player) (ids : List Text) (ps : List Player)
    → ((p : Player) → badge (f p) ≡ badge p)
    → badges (update_each f ids ps) ≡ badges ps
unfolding update_each
badges-update_each f [] ps same = refl
badges-update_each f (id ∷ ids) ps same =
    badges-update_each f ids (update_player id f ps) same ∙ badges-update_player id f ps same

pub badges-after_verdict :
    (correct : Bool) (fine : ℕ) (id : Text) (voters : List Text) (ps : List Player)
    → badges (after_verdict correct fine id voters ps) ≡ badges ps
unfolding after_verdict
badges-after_verdict true fine id voters ps =
    badges-update_each reward voters _ (λ p. refl) ∙ badges-update_player id _ ps (λ p. refl)
badges-after_verdict false fine id voters ps =
    badges-update_player id _ _ (λ p. refl) ∙ badges-update_each penalize voters ps (λ p. refl)

pub badges-collect : (ps : List Player) → badges (map collect ps) ≡ badges ps
unfolding collect
badges-collect [] = refl
badges-collect (p ∷ ps) = ap (λ bs. badge p ∷ bs) (badges-collect ps)

badge-act :
    (cycle : CycleType) (n : ℕ) (action : Action) (p : Player) (r : Round)
    → badge (act cycle n action p r).0 ≡ badge p
unfolding act
badge-act cycle n pass p r = refl
badge-act cycle n (steal amount) p r = refl
badge-act show_cycle n (invest amount back) p r = refl
badge-act hidden_cycle n (invest amount back) p r = ground arith

badges-act_all : (m : Match) (ps : List Player) (r : Round) → badges (act_all m ps r).0 ≡ badges ps
unfolding act_all
badges-act_all m [] r = refl
badges-act_all m (p ∷ ps) r = elim (Bool-cases (is_active p)) [
  | inl e ↦
      let one = act m.cycle_type m.cycle_number (action_for m p.id) p r in
      rw (e, badge-act m.cycle_type m.cycle_number (action_for m p.id) p r)
        (ap (λ bs. badge p ∷ bs) (badges-act_all m ps one.1))
  | inr e ↦ rw e (ap (λ bs. badge p ∷ bs) (badges-act_all m ps r))
]

badges-pay_all :
    (ps : List Payout) (players : List Player) (r : Round)
    → badges (pay_all ps (players, r)).0 ≡ badges players
unfolding pay_all
badges-pay_all [] players r = refl
badges-pay_all (p ∷ ps) players r =
    badges-pay_all ps (update_player p.player_id _ players) _
    ∙ badges-update_player p.player_id _ players (λ q. refl)

pub badges-resolve_vault_actions :
    (m : Match) (now : ℕ) → badges (resolve_vault_actions m now).players ≡ badges m.players
unfolding resolve_vault_actions
badges-resolve_vault_actions m now = elim (Bool-cases (is_vault_action_phase m.phase)) [
  | inr other ↦ rw other refl
  | inl acting ↦
      let start : Round = record {
        vault = m.vault_gold;
        thefts = [];
        resolved = [];
        entries = [];
      } in
      let (acted, r) = act_all m m.players start in
      rw acting (
        badges-pay_all (distribute_theft r.vault r.thefts) acted r
        ∙ badges-act_all m m.players start)
]

contains-active :
    (id : Text) (ps : List Player)
    → contains id (ids_of (filter is_active ps)) ≡ true
    → contains id (ids_of ps) ≡ true
unfolding contains
contains-active id [] h = h
contains-active id (p ∷ ps) h = ground (arith, contains-active id ps)

-- Of players with different ids, an active one is found by his id.
pub find_active :
    (id : Text) (ps : List Player)
    → distinct (ids_of ps) ≡ true
    → contains id (ids_of (filter is_active ps)) ≡ true
    → (p : Player) × (find_player id ps ≡ some p) × (is_active p ≡ true)
unfolding find_player contains
find_active id [] d h = cc
find_active id (p ∷ ps) d h = elim (Bool-cases (p.id == id)) [
  | inl e ↦ (p, rw e refl, ground (arith, eq_iff p.id id, contains-active id ps))
  | inr e ↦
      let d' : distinct (ids_of ps) ≡ true = ground arith in
      let h' : contains id (ids_of (filter is_active ps)) ≡ true = ground arith in
      rw e (find_active id ps d' h')
]

-- A verdict takes one player off the active ones.
pub actives-convict :
    (id : Text) (ps : List Player) (p : Player)
    → find_player id ps ≡ some p
    → is_active p ≡ true
    → actives (badges (update_player id convict ps)) + 1 ≡ actives (badges ps)
unfolding find_player update_player
actives-convict id [] p h k = cc
actives-convict id (q ∷ ps) p h k = ground (arith, actives-convict id ps p)

pub ids_of-convict :
    (id : Text) (ps : List Player) → ids_of (update_player id convict ps) ≡ ids_of ps
unfolding update_player
ids_of-convict id [] = refl
ids_of-convict id (p ∷ ps) = ground (arith, ids_of-convict id ps)

-- Who is found by an id in players of the same badges is as active.
pub find_same :
    (id : Text) (ps qs : List Player) (p : Player)
    → badges qs ≡ badges ps
    → find_player id ps ≡ some p
    → is_active p ≡ true
    → (q : Player) × (find_player id qs ≡ some q) × (is_active q ≡ true)
unfolding find_player
find_same id [] qs p same h k = cc
find_same id (x ∷ ps) [] p same h k = cc
find_same id (x ∷ ps) (y ∷ qs) p same h k = elim (Bool-cases (x.id == id)) [
  | inl e ↦ (y, ground arith, ground arith)
  | inr e ↦
      let rest : badges qs ≡ badges ps = cc in
      let (q, f, a) = find_same id ps qs p rest (ground arith) k in (q, ground (arith, f), a)
]
