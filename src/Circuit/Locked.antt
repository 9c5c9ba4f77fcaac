-- ===== src/Circuit/Locked.antt =====
-- Locked slots of games/circuit-siege/shared/match-engine.mjs under an intent.
use factory_network_server.Prelude.{
  ◌≡◌, refl, sym, ap, ◌∙◌, Bool, true, false, Option, some, List, [], ◌∷◌, arith, >>=-eq-some,
  if◌then◌else◌, Bool-cases, Option-cases, inl, inr, ◌==◌, eq_iff, or_else,
}
use factory_network_server.Prelude.Texts.{Text, Text_eq}
use factory_network_server.Prelude.Maps.{Map, get?, set, get?-set}
use factory_network_server.Circuit.Tiles.{Mask}
use factory_network_server.Circuit.State.{
  Slot, SlotState, Match, Intent, Resolved, Answer, refused, applied, Side, blue, red, Refusal,
  wrong_owner, slot_locked, invalid_slot_state,
}
use factory_network_server.Circuit.Engine.{
  Choice, turned_down, chosen, lock_slots, complete_at, add_point, resolve_route, get_route_slots,
  resolve_if_complete, place_mask, answer_choice, choose_mask, apply_to_slot, apply_player_intent,
  missing_slot, is_route_complete, same_side,
}

lock_slots_keeps :
    (slots : List Slot) (before after : Map Text SlotState) (id : Text) (st : SlotState)
    → lock_slots slots before ≡ some after
    → get? id before ≡ some st
    → st.locked ≡ true
    → get? id after ≡ some st
unfolding lock_slots
lock_slots_keeps [] before after id st h e l =
    let same : before ≡ after = cc in ap (get? id) (sym same) ∙ e
lock_slots_keeps (slot ∷ slots) before after id st h e l =
    let (state, f, rest) =
      >>=-eq-some (get? slot.slot_id before)
        (λ (x : SlotState). lock_slots slots (set slot.slot_id (record x { locked = true }) before))
        h in
    let stays : record st { locked = true } ≡ st =
      ap (λ (b : Bool). record st { locked = b }) (sym l) in
    let kept : get? id (set slot.slot_id (record state { locked = true }) before) ≡ some st =
      elim (Bool-cases (slot.slot_id == id)) [
        | inl p ↦
            let found =
              sym f ∙ ap (λ (k : Text). get? k before) ((eq_iff slot.slot_id id).0 p) ∙ e in
            let same : state ≡ st = ap (λ (o : Option SlotState). or_else o st) found in
            get?-set slot.slot_id id (record state { locked = true }) before
            ∙ rw p (ap some (ap (λ (x : SlotState). record x { locked = true }) same ∙ stays))
        | inr p ↦ get?-set slot.slot_id id (record state { locked = true }) before ∙ rw p e
      ] in
    lock_slots_keeps slots _ after id st rest kept l

slots-scored :
    (b : Bool) (owner : Side) (m : Match) → (if b then add_point owner m else m).slots ≡ m.slots
unfolding add_point
slots-scored true blue m = refl
slots-scored true red m = refl
slots-scored false owner m = refl

resolve_route_keeps :
    (route : Text) (m : Match) (r : Match × Resolved) (id : Text) (st : SlotState)
    → resolve_route route m ≡ some r
    → get? id m.slots ≡ some st
    → st.locked ≡ true
    → get? id r.0.slots ≡ some st
unfolding resolve_route
resolve_route_keeps route m r id st h e l =
    let (way, f, h1) = >>=-eq-some (get? route m.board.routes_by_id) _ h in
    let (routes, g, h2) = >>=-eq-some (complete_at route m.routes) _ h1 in
    let (terminals, k, h3) = >>=-eq-some (complete_at way.terminal_id m.terminals) _ h2 in
    let (slots, locked, h4) =
      >>=-eq-some (lock_slots (get_route_slots m.board route) m.slots) _ h3 in
    let done = record m { routes = routes; terminals = terminals; slots = slots } in
    let same : (if way.is_damage then add_point way.owner done else done).slots ≡ r.0.slots =
      ap (λ (o : Option (Match × Resolved)). (or_else o r).0.slots) h4 in
    ap (get? id) (sym same ∙ slots-scored way.is_damage way.owner done)
    ∙ lock_slots_keeps (get_route_slots m.board route) m.slots slots id st locked e l

-- The match after an answer; a refusal leaves it.
abbrev pub match_after : Match → Answer → Match
match_after m (refused why) = m
match_after m (applied t r) = t

resolve_if_complete_keeps :
    (b : Bool) (route : Text) (m : Match) (a : Answer) (id : Text) (st : SlotState)
    → resolve_if_complete b route m ≡ some a
    → get? id m.slots ≡ some st
    → st.locked ≡ true
    → get? id (match_after m a).slots ≡ some st
unfolding resolve_if_complete
resolve_if_complete_keeps true route m a id st h e l =
    let (r, f, g) = >>=-eq-some (resolve_route route m) _ h in
    ap (λ (o : Option Answer). get? id (match_after m (or_else o a)).slots) (sym g)
    ∙ resolve_route_keeps route m r id st f e l
resolve_if_complete_keeps false route m a id st h e l =
    ap (λ (o : Option Answer). get? id (match_after m (or_else o a)).slots) (sym h) ∙ e

after_other :
    (m next : Match) (a : Answer) (id : Text) (st : SlotState)
    → get? id m.slots ≡ some st
    → get? id (match_after next a).slots ≡ some st
    → get? id (match_after m a).slots ≡ some st
after_other m next (refused why) id st e h = e
after_other m next (applied t r) id st e h = h

place_mask_keeps :
    (slot : Slot) (state : SlotState) (mask : Mask) (m : Match) (a : Answer) (id : Text)
    (st : SlotState)
    → place_mask slot state mask m ≡ some a
    → get? slot.slot_id m.slots ≡ some state
    → state.locked ≡ false
    → get? id m.slots ≡ some st
    → st.locked ≡ true
    → get? id (match_after m a).slots ≡ some st
unfolding place_mask
place_mask_keeps slot state mask m a id st h f free e l =
    let placed = set slot.slot_id (record state { placed_mask = some mask }) m.slots in
    let next = record m { slots = placed } in
    let (route, g, h1) = >>=-eq-some (get? slot.route_id m.routes) _ h in
    let (complete, k, h2) =
      >>=-eq-some
        (if route.completed then some false else is_route_complete m.board slot.route_id placed) _
        h1 in
    let there : get? id placed ≡ some st = elim (Bool-cases (slot.slot_id == id)) [
      | inl p ↦
          let found =
            sym f ∙ ap (λ (x : Text). get? x m.slots) ((eq_iff slot.slot_id id).0 p) ∙ e in
          let both : state.locked ≡ st.locked =
            ap (λ (o : Option SlotState). (or_else o st).locked) found in
          ground (arith, both, free, l)
      | inr p ↦ get?-set slot.slot_id id (record state { placed_mask = some mask }) m.slots ∙ rw p e
    ] in
    after_other m next a id st e
      (resolve_if_complete_keeps complete slot.route_id next a id st h2 there l)

answer_choice_keeps :
    (c : Choice) (slot : Slot) (state : SlotState) (m : Match) (a : Answer) (id : Text)
    (st : SlotState)
    → answer_choice c slot state m ≡ some a
    → get? slot.slot_id m.slots ≡ some state
    → state.locked ≡ false
    → get? id m.slots ≡ some st
    → st.locked ≡ true
    → get? id (match_after m a).slots ≡ some st
unfolding answer_choice
answer_choice_keeps (turned_down why) slot state m a id st h f free e l =
    ap (λ (o : Option Answer). get? id (match_after m (or_else o a)).slots) (sym h) ∙ e
answer_choice_keeps (chosen mask) slot state m a id st h f free e l =
    place_mask_keeps slot state mask m a id st h f free e l

apply_to_slot_keeps :
    (intent : Intent) (slot : Slot) (state : SlotState) (m : Match) (a : Answer) (id : Text)
    (st : SlotState)
    → apply_to_slot intent slot state m ≡ some a
    → get? slot.slot_id m.slots ≡ some state
    → get? id m.slots ≡ some st
    → st.locked ≡ true
    → get? id (match_after m a).slots ≡ some st
unfolding apply_to_slot
apply_to_slot_keeps intent slot state m a id st h f e l =
    let choice = choose_mask intent.intent_type intent slot state in
    let refusal = λ (why : Refusal) (g : ◌≡◌ {A = Option Answer} (some (refused why)) (some a)).
      ap (λ (o : Option Answer). get? id (match_after m (or_else o a)).slots) (sym g) ∙ e in
    elim (Bool-cases (same_side slot.owner intent.player_side)) [
      | inr p ↦ refusal wrong_owner (sym (rw (p, apply_to_slot)) ∙ h)
      | inl p ↦ elim (Bool-cases state.locked) [
        | inl q ↦ refusal slot_locked (sym (rw (p, apply_to_slot) (rw q)) ∙ h)
        | inr q ↦
            answer_choice_keeps choice slot state m a id st (sym (rw (p, apply_to_slot) (rw q)) ∙ h)
              f q e l
      ]
    ]

-- Whatever a player's intent, refused or applied, a slot that is locked before is in the same state
-- afterwards, if applying it does not throw.
pub apply_player_intent_keeps :
    (intent : Intent) (m : Match) (a : Answer) (id : Text) (st : SlotState)
    → apply_player_intent m intent ≡ some a
    → get? id m.slots ≡ some st
    → st.locked ≡ true
    → get? id (match_after m a).slots ≡ some st
unfolding apply_player_intent
apply_player_intent_keeps intent m a id st h e l =
    let refusal = λ (why : Refusal) (g : ◌≡◌ {A = Option Answer} (some (refused why)) (some a)).
      ap (λ (o : Option Answer). get? id (match_after m (or_else o a)).slots) (sym g) ∙ e in
    elim (Option-cases (get? intent.slot_id m.board.slots_by_id)) [
      | inl p ↦ refusal (missing_slot intent.slot_id) (sym (rw (p, apply_player_intent)) ∙ h)
      | inr (slot, p) ↦ elim (Option-cases (get? slot.slot_id m.slots)) [
        | inl q ↦ refusal invalid_slot_state (sym (rw (p, apply_player_intent) (rw q)) ∙ h)
        | inr (state, q) ↦
            apply_to_slot_keeps intent slot state m a id st
              (sym (rw (p, apply_player_intent) (rw q)) ∙ h) q e l
      ]
    ]
