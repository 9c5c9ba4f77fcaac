-- ===== src/Greed/Leaders.antt =====
-- resolvePotOfGreedVote: who can be selected.
use factory_network_server.Prelude.{
  ℕ, zero, suc, ◌+◌, ◌%◌, ◌<◌, ◌≡◌, ◌≢◌, refl, sym, ap, ◌∙◌, Bool, true, false, some, List, [], ◌∷◌,
  inl, inr, ◌⊎◌, Bool-cases, Option-cases, arith, ℕ_eq, eq_iff, length, contains, distinct,
  get_elem?,
}
use factory_network_server.Prelude.Texts.{Text, Text_eq}
use factory_network_server.Prelude.Maps.{Map, keys, values}
use factory_network_server.Greed.State.{
  Match, Player, is_active, player_for, active_players, is_vote_phase,
}
use factory_network_server.Greed.Votes.{
  zeros, count_vote, count_votes, ids_of, tally_votes, highest, with_count, leaders_of,
  active_targets, or_list, tie_break, only, is_empty, judge, with_verdict, begin_runoff,
  resolve_vote,
}
use factory_network_server.Greed.Roster.{find_active}

keys-zeros : (ids : List Text) → keys (zeros ids) ≡ ids
unfolding zeros
keys-zeros [] = refl
keys-zeros (id ∷ ids) = ap (λ l. id ∷ l) (keys-zeros ids)

keys-count_vote : (id : Text) (m : Map Text ℕ) → keys (count_vote id m) ≡ keys m
unfolding count_vote
keys-count_vote id [] = refl
keys-count_vote id ((j, n) ∷ m) = ground (arith, keys-count_vote id m)

keys-count_votes : (ids : List Text) (m : Map Text ℕ) → keys (count_votes ids m) ≡ keys m
unfolding count_votes
keys-count_votes [] m = refl
keys-count_votes (id ∷ ids) m = keys-count_votes ids (count_vote id m) ∙ keys-count_vote id m

pub keys-tally_votes : (m : Match) → keys (tally_votes m) ≡ ids_of (active_players m)
unfolding tally_votes
keys-tally_votes m = keys-count_votes (values m.votes) _ ∙ keys-zeros (ids_of (active_players m))

contains-with_count :
    (n : ℕ) (id : Text) (m : Map Text ℕ)
    → contains id (with_count n m) ≡ true
    → contains id (keys m) ≡ true
unfolding contains
contains-with_count n id [] h = h
contains-with_count n id ((j, k) ∷ m) h = ground (arith, contains-with_count n id m)

-- The highest count is reached.
highest_reached : (m : Map Text ℕ) → keys m ≢ [] → with_count (highest m) m ≢ []
highest_reached [] h = h
highest_reached ((id, n) ∷ []) h = ground arith
highest_reached ((id, n) ∷ (j, k) ∷ m) h = ground (arith, highest_reached ((j, k) ∷ m))

get_elem?-contains :
    (xs : List Text) (i : ℕ)
    → i < length xs
    → (x : Text) × (get_elem? xs i ≡ some x) × (contains x xs ≡ true)
unfolding contains
get_elem?-contains [] i h = absurd (omega arith)
get_elem?-contains (x ∷ xs) zero h = (x, refl, ground (arith, eq_iff x x))
get_elem?-contains (x ∷ xs) (suc i) h =
    let (y, e, c) = get_elem?-contains xs i (omega arith) in (y, e, ground (arith, c))

mod-length-lt : (n : ℕ) (xs : List Text) → xs ≢ [] → n % length xs < length xs
mod-length-lt n [] h = absurd (h refl)
mod-length-lt n (x ∷ xs) h = grind arith

keys-ne-nil : (ids : List Text) (m : Map Text ℕ) → keys m ≡ ids → ids ≢ [] → keys m ≢ []
keys-ne-nil ids m e h k = h (sym e ∙ k)

or_list_first : (xs ys : List Text) → xs ≢ [] → or_list xs ys ≡ xs
or_list_first [] ys h = absurd (h refl)
or_list_first (x ∷ xs) ys h = refl

-- The tie-break picks one of the leaders.
pub tie_break_lem :
    (m : Match) (leaders : List Text)
    → leaders ≢ []
    → (id : Text) × (tie_break m leaders ≡ some id) × (contains id leaders ≡ true)
unfolding tie_break
tie_break_lem m leaders h =
    let counts = count_votes (active_targets m m.votes) (zeros leaders) in
    let same : keys counts ≡ leaders =
      keys-count_votes (active_targets m m.votes) (zeros leaders) ∙ keys-zeros leaders in
    let tied = leaders_of counts in
    let some_left : tied ≢ [] = highest_reached counts (keys-ne-nil leaders counts same h) in
    let whole : or_list tied leaders ≡ tied = or_list_first tied leaders some_left in
    let n = m.tie_break_seed + m.tie_break_count in
    let (id, e, c) = get_elem?-contains tied (n % length tied) (mod-length-lt n tied some_left) in
    (
      id,
      rw whole e,
      ap (λ l. contains id l) (sym same) ∙ contains-with_count (highest counts) id counts c,
    )

only-contains : (xs : List Text) (id : Text) → only xs ≡ some id → contains id xs ≡ true
unfolding contains
only-contains [] id h = cc
only-contains (x ∷ []) id h = ground (arith, eq_iff x id)
only-contains (x ∷ y ∷ xs) id h = cc

is_empty→nil : (xs : List Text) → is_empty xs ≡ true → xs ≡ []
is_empty→nil [] h = refl
is_empty→nil (x ∷ xs) h = cc

ids_of-ne-nil : (ps : List Player) → ps ≢ [] → ids_of ps ≢ []
ids_of-ne-nil [] h = absurd (h refl)
ids_of-ne-nil (p ∷ ps) h = cc

-- A vote that is resolved selects an active player, unless it starts a runoff.
pub resolve_vote-cases :
    (m : Match) (now : ℕ)
    → is_vote_phase m.phase ≡ true
    → distinct (ids_of m.players) ≡ true
    → active_players m ≢ []
    → ((m.runoff_targets ≡ [])
        × (leaders_of (tally_votes m) ≢ [])
        × (resolve_vote m now ≡ some (begin_runoff m (leaders_of (tally_votes m)) now)))
      ⊎ ((n : ℕ) × (tied : Bool) × (id : Text) × (p : Player) × (player_for m id ≡ some p)
          × (is_active p ≡ true)
          × (contains id (leaders_of (tally_votes m)) ≡ true)
          × (resolve_vote m now
              ≡ some
                  (with_verdict (record m { tie_break_count = n }) (tally_votes m) tied id p now)))
unfolding resolve_vote judge player_for
resolve_vote-cases m now phase d some_active =
    let tally = tally_votes m in
    let leaders = leaders_of tally in
    let led : leaders ≢ [] = highest_reached tally (
      keys-ne-nil (ids_of (active_players m)) tally (keys-tally_votes m)
        (ids_of-ne-nil (active_players m) some_active)) in
    let active_leader = λ (id : Text) (c : contains id leaders ≡ true). find_active id m.players d (
      ap (λ l. contains id l) (sym (keys-tally_votes m))
      ∙ contains-with_count (highest tally) id tally c) in
    elim (Option-cases (only leaders)) [
      | inr (id, one) ↦
          let c = only-contains leaders id one in
          let (p, found, act) = active_leader id c in
          inr (m.tie_break_count, false, id, p, found, act, c, rw (phase, one) (rw found refl))
      | inl more ↦ elim (Bool-cases (is_empty m.runoff_targets)) [
        | inl first ↦
            inl (is_empty→nil m.runoff_targets first, led, rw (phase, more) (rw first refl))
        | inr again ↦
            let (id, e, c) = tie_break_lem m leaders led in
            let (p, found, act) = active_leader id c in
            inr (
              m.tie_break_count + 1,
              true,
              id,
              p,
              found,
              act,
              c,
              rw (phase, more) (rw again (rw e (rw found refl))),
            )
      ]
    ]
