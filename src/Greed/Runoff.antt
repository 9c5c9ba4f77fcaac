-- ===== src/Greed/Runoff.antt =====
-- A runoff of pot-of-greed in which nobody votes.
use factory_network_server.Prelude.{
  ℕ, zero, suc, ◌+◌, ◌%◌, ◌≤◌, ◌≡◌, ◌≢◌, refl, ap, ◌∙◌, true, false, Option, none, some, List, [],
  ◌∷◌, arith, length, distinct, get_elem?, contains, eq_iff,
}
use factory_network_server.Prelude.Texts.{Text, Text_eq}
use factory_network_server.Greed.State.{Match, player_for, is_vote_phase, active_players}
use factory_network_server.Greed.Votes.{
  zeros, ids_of, tally_votes, highest, with_count, leaders_of, active_targets, or_list, tie_break,
  only, is_empty, judge, with_verdict, resolve_vote, count_votes,
}
use factory_network_server.Greed.Roster.{find_active}

highest-zeros : (ids : List Text) → highest (zeros ids) ≡ 0
unfolding zeros
highest-zeros [] = refl
highest-zeros (id ∷ ids) = omega (arith, highest-zeros ids)

with_count-zeros : (ids : List Text) → with_count 0 (zeros ids) ≡ ids
unfolding zeros
with_count-zeros [] = refl
with_count-zeros (id ∷ ids) = ap (λ l. id ∷ l) (with_count-zeros ids)

leaders_of-zeros : (ids : List Text) → leaders_of (zeros ids) ≡ ids
leaders_of-zeros ids = rw (highest-zeros ids) (with_count-zeros ids)

tally_silent : (m : Match) → m.votes ≡ [] → tally_votes m ≡ zeros (ids_of (active_players m))
unfolding tally_votes count_votes
tally_silent m e = rw e refl

or_list_same : (xs : List Text) → or_list xs xs ≡ xs
or_list_same [] = refl
or_list_same (x ∷ xs) = refl

tie_break_silent :
    (m : Match) (leaders : List Text)
    → m.votes ≡ []
    → tie_break m leaders
      ≡ get_elem? leaders ((m.tie_break_seed + m.tie_break_count) % length leaders)
unfolding tie_break active_targets count_votes
tie_break_silent m leaders e = rw e (rw (leaders_of-zeros leaders) (rw (or_list_same leaders) refl))

only_many : (ids : List Text) → 2 ≤ length ids → only ids ≡ none
only_many [] h = refl
only_many (x ∷ []) h = absurd (omega arith)
only_many (x ∷ y ∷ ids) h = refl

is_empty-ne : (ids : List Text) → ids ≢ [] → is_empty ids ≡ false
is_empty-ne [] h = absurd (h refl)
is_empty-ne (x ∷ ids) h = refl

contains-get_elem? :
    (ids : List Text) (i : ℕ) (id : Text) → get_elem? ids i ≡ some id → contains id ids ≡ true
unfolding contains
contains-get_elem? [] i id h = cc
contains-get_elem? (x ∷ ids) zero id h = ground (arith, eq_iff x id)
contains-get_elem? (x ∷ ids) (suc i) id h = ground (arith, contains-get_elem? ids i id)

abbrev pub picked : Match → ℕ
picked m = (m.tie_break_seed + m.tie_break_count) % length (ids_of (active_players m))

abbrev pub selected_in : Option Match → Option Text
selected_in none = none
selected_in (some m) = elim m.last_vote_result [ none ↦ none | some r ↦ some r.selected_id ]

-- If nobody votes in a runoff of pot-of-greed with two or more active players, the player whom the
-- seed picks from all active players is selected, whether he is in the runoff or not.
pub resolve_vote_silent_runoff :
    (m : Match) (now : ℕ) (id : Text)
    → is_vote_phase m.phase ≡ true
    → m.runoff_targets ≢ []
    → m.votes ≡ []
    → distinct (ids_of m.players) ≡ true
    → 2 ≤ length (ids_of (active_players m))
    → get_elem? (ids_of (active_players m)) (picked m) ≡ some id
    → selected_in (resolve_vote m now) ≡ some id
unfolding resolve_vote judge with_verdict player_for
resolve_vote_silent_runoff m now id phase runoff silent d many pick =
    let ids = ids_of (active_players m) in
    let led : leaders_of (tally_votes m) ≡ ids =
      ap (λ t. leaders_of t) (tally_silent m silent) ∙ leaders_of-zeros ids in
    let more : only (leaders_of (tally_votes m)) ≡ none = rw led (only_many ids many) in
    let tied : tie_break m (leaders_of (tally_votes m)) ≡ some id =
      rw led (tie_break_silent m ids silent ∙ pick) in
    let (p, found, act) = find_active id m.players d (contains-get_elem? ids (picked m) id pick) in
    rw (phase, more) (rw (is_empty-ne m.runoff_targets runoff) (rw tied (rw found refl)))
