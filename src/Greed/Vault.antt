-- ===== src/Greed/Vault.antt =====
-- The vault actions of pot-of-greed-match-engine.mjs: what a player asks for, and how all requests are
-- carried out at once.
use factory_network_server.Prelude.{
  ℕ, zero, suc, ◌+◌, ◌-◌, ◌*◌, ◌/◌, ◌%◌, true, false, Option, none, some, List, [], ◌∷◌, ◌++◌, map,
  ◌&&◌, ◌||◌, not, ◌>>=◌, or_else, if◌then◌else◌, leb, length, ◌==◌, ℕ_eq, contains, is_some,
}
use factory_network_server.Prelude.Texts.{Text, codes, Text_eq}
use factory_network_server.Prelude.Maps.{Map, get?, set}
use factory_network_server.Prelude.Int.{pos, sub_ℕ}
use factory_network_server.Js.Values.{Number, finite, Json, property, truthy}
use factory_network_server.Js.Convert.{Host, to_text, to_number}
use factory_network_server.Greed.State.{
  Match, Player, Investment, CycleType, hidden_cycle, show_cycle, Action, pass, invest, steal,
  Resolved, ResolvedType, resolved_pass, resolved_invest, resolved_steal, Event, investment, theft,
  vault_audit, Audit, is_active, by_cycle, player_for, update_player, is_vault_action_phase,
  discussion_phase_for,
}

abbrev pub investment_packages : List (ℕ × ℕ)
investment_packages = (3, 6) ∷ (5, 11) ∷ (8, 18) ∷ []

abbrev pub theft_packages : List ℕ
theft_packages = 3 ∷ 5 ∷ 8 ∷ []

unfoldable pub package_in : ℕ → List (ℕ × ℕ) → Option (ℕ × ℕ)
package_in amount [] = none
package_in amount ((cost, back) ∷ rest) =
    let later = package_in amount rest in if cost == amount then some (cost, back) else later

unfoldable pub investment_package : ℕ → Option (ℕ × ℕ)
unfolding package_in
investment_package amount = package_in amount investment_packages

unfoldable pub action_for : Match → Text → Action
action_for m id = or_else (get? id m.vault_actions) pass

-- `Math.floor(n)` where it can be an amount of a package.
abbrev pub amount_of : Number → ℕ
amount_of (finite (pos n) part) = n
amount_of _ = 0

abbrev pub put_in : ℕ → Option (ℕ × ℕ) → Action
put_in gold none = pass
put_in gold (some (cost, back)) = if leb cost gold then invest cost back else pass

-- The action that an intent asks for, as the player's gold and the cycle allow it.
unfoldable pub chosen_action : CycleType → ℕ → Text → ℕ → Action
unfolding investment_package contains
chosen_action cycle gold requested amount =
    if requested == codes "invest" && by_cycle cycle true false
    then put_in gold (investment_package amount)
    else (if requested == codes "steal" && contains amount theft_packages
        then steal amount
        else pass)

-- `String(intent.type || "pass")`
unfoldable pub requested_type : Host → Option Json → Option Text
requested_type host value =
    if truthy value then (do v ← value; to_text host v) else some (codes "pass")

abbrev pub may_act : Match → Text → Option Player
may_act m id = player_for m id >>= λ player.
    if is_active player && player.connected && not (is_some (get? id m.vault_actions))
    then some player
    else none

-- `none` is a throw, of `String` or of `Number`.
unfoldable pub place_action : Host → Match → Text → Player → Json → ℕ → Option Match
unfolding chosen_action requested_type
place_action host m id player intent now = do
  requested ← requested_type host (property (codes "type") intent)
  amount ← to_number host (property (codes "amount") intent)
  let action = chosen_action m.cycle_type player.gold requested (amount_of amount)
  some (record m { vault_actions = set id action m.vault_actions; updated_at = now })

unfoldable pub submit_vault_action : Host → Match → Text → Json → ℕ → Option Match
unfolding place_action player_for is_vault_action_phase
submit_vault_action host m id intent now =
    if not (is_vault_action_phase m.phase) then some m else elim (may_act m id) [
      | none ↦ some m
      | some player ↦ place_action host m id player intent now
    ]

pub record Theft : Type 0 where
  pub player_id : Text
  pub amount : ℕ

pub record Payout : Type 0 where
  pub player_id : Text
  pub amount : ℕ
  pub actual : ℕ

abbrev pub paid : (ℕ → ℕ) → Theft → Payout
paid f t = record { player_id = t.player_id; amount = t.amount; actual = f t.amount }

abbrev pub total_requested : List Theft → ℕ
total_requested [] = 0
total_requested (t ∷ ts) = t.amount + total_requested ts

abbrev pub total_paid : List Payout → ℕ
total_paid [] = 0
total_paid (p ∷ ps) = p.actual + total_paid ps

-- `payouts[index].actual += 1`
unfoldable pub bump : ℕ → List Payout → List Payout
bump i [] = []
bump zero (p ∷ ps) = record p { actual = p.actual + 1 } ∷ ps
bump (suc i) (p ∷ ps) = p ∷ bump i ps

-- The loop that hands the rest out, one by one from the first thief on.
unfoldable pub spread : ℕ → ℕ → List Payout → List Payout
unfolding bump
spread zero index payouts = payouts
spread (suc remaining) index payouts =
    spread remaining ((index + 1) % length payouts) (bump index payouts)

unfoldable pub distribute_theft : ℕ → List Theft → List Payout
unfolding spread
distribute_theft available thefts =
    let total = total_requested thefts in
    let shares = map (paid (λ amount. available * amount / total)) thefts in
    if leb total available
    then map (paid (λ amount. amount)) thefts
    else (if total == 0 || available == 0
        then map (paid (λ _. 0)) thefts
        else spread (available - total_paid shares) 0 shares)

-- What the loops over the players change beside them.
pub record Round : Type 0 where
  pub vault : ℕ
  pub thefts : List Theft
  pub resolved : Map Text Resolved
  pub entries : List Event

abbrev pub settled : ResolvedType → ℕ → ℕ → Resolved
settled type requested stolen = record {
  resolved_type = type;
  requested = requested;
  actual_stolen = stolen;
}

unfoldable pub take_investment : ℕ → Player → ℕ × ℕ → Round → Player × Round
take_investment cycle p (cost, back) r =
    let stake : Investment = record { cost = cost; return_amount = back; created_cycle = cycle } in
    (
      record p {
        gold = p.gold - cost;
        pending_investments = p.pending_investments ++ (stake ∷ []);
      },
      record r {
        vault = r.vault + cost;
        resolved = set p.id (settled resolved_invest cost 0) r.resolved;
        entries = r.entries ++ (investment p.id cost back ∷ []);
      },
    )

abbrev pub leave_as : Player → ResolvedType → ℕ → Round → Player × Round
leave_as p type requested r =
    (p, record r { resolved = set p.id (settled type requested 0) r.resolved })

unfoldable pub act : CycleType → ℕ → Action → Player → Round → Player × Round
unfolding take_investment investment_package
act cycle number pass p r = leave_as p resolved_pass 0 r
act cycle number (steal amount) p r =
    leave_as p resolved_steal amount
      (record r { thefts = r.thefts ++ (record { player_id = p.id; amount = amount } ∷ []) })
act cycle number (invest amount back) p r =
    let refused = leave_as p resolved_pass amount r in
    elim cycle [
      | show_cycle ↦ refused
      | hidden_cycle ↦ elim (investment_package amount) [
        | none ↦ refused
        | some pair ↦ if leb pair.0 p.gold then take_investment number p pair r else refused
      ]
    ]

-- The loop over the active players, each of whom it may change.
unfoldable pub act_all : Match → List Player → Round → List Player × Round
unfolding act action_for
act_all m [] r = ([], r)
act_all m (p ∷ ps) r =
    let (p', r') =
      if is_active p then act m.cycle_type m.cycle_number (action_for m p.id) p r else (p, r) in
    let (ps', r'') = act_all m ps r' in (p' ∷ ps', r'')

-- The loop over the payouts.
unfoldable pub pay_all : List Payout → List Player × Round → List Player × Round
unfolding update_player
pay_all [] (players, r) = (players, r)
pay_all (p ∷ ps) (players, r) = pay_all ps (
  update_player p.player_id (λ (q : Player). record q { gold = q.gold + p.actual }) players,
  record r {
    vault = r.vault - p.actual;
    resolved = set p.player_id (settled resolved_steal p.amount p.actual) r.resolved;
    entries = r.entries ++ (theft p.player_id p.amount p.actual ∷ []);
  },
)

abbrev pub in_cycle : ℕ → List Event → List (ℕ × Event)
in_cycle n es = map (λ (e : Event). (n, e)) es

unfoldable pub resolve_vault_actions : Match → ℕ → Match
unfolding act_all pay_all distribute_theft is_vault_action_phase discussion_phase_for
resolve_vault_actions m now =
    let start : Round = record { vault = m.vault_gold; thefts = []; resolved = []; entries = [] } in
    let (acted, r) = act_all m m.players start in
    let (players, end) = pay_all (distribute_theft r.vault r.thefts) (acted, r) in
    let audit : Audit = record {
      vault_before = m.vault_gold;
      vault_after = end.vault;
      net_change = sub_ℕ end.vault m.vault_gold;
    } in
    if not (is_vault_action_phase m.phase) then m else record m {
      players = players;
      vault_gold = end.vault;
      resolved_actions = end.resolved;
      audit = some audit;
      history = m.history ++ in_cycle m.cycle_number (end.entries ++ (vault_audit audit ∷ []));
      phase = discussion_phase_for m;
      updated_at = now;
    }
