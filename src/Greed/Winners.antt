-- ===== src/Greed/Winners.antt =====
-- calculateFinalResults: the winners are those whom no player beats.
use factory_network_server.Prelude.{
  ℕ, ◌≤◌, ◌≡◌, ◌≢◌, refl, sym, ap, ◌∙◌, Bool, true, false, not, ◌&&◌, ◌||◌, List, [], ◌∷◌, inl, inr,
  if◌then◌else◌, leb, Bool-cases, arith, ◌==◌, ℕ_eq, filter, all, max, min, map,
}
use mathlib.Core.Path.{subst}
use factory_network_server.Greed.State.{Player}
use factory_network_server.Greed.Cycles.{
  most, least, having, narrow, gold, correct_votes, wrongful_votes, winners_of,
  calculate_final_results,
}

abbrev Each : (Player → Type 0) → List Player → Type 0
Each P [] = Unit {0}
Each P (x ∷ xs) = P x × Each P xs

Each-map :
    (P Q : Player → Type 0) (xs : List Player) → ((x : Player) → P x → Q x) → Each P xs → Each Q xs
Each-map P Q [] f h = tt
Each-map P Q (x ∷ xs) f h = (f x h.0, Each-map P Q xs f h.1)

Each-and :
    (P Q : Player → Type 0) (xs : List Player) → Each P xs → Each Q xs → Each (λ x. P x × Q x) xs
Each-and P Q [] h k = tt
Each-and P Q (x ∷ xs) h k = ((h.0, k.0), Each-and P Q xs h.1 k.1)

-- What holds of the filtered list, said of the whole.
Each-unfilter :
    (p : Player → Bool) (Q : Player → Type 0) (xs : List Player)
    → Each Q (filter p xs)
    → Each (λ x. p x ≡ true → Q x) xs
Each-unfilter p Q [] h = tt
Each-unfilter p Q (x ∷ xs) h = elim (Bool-cases (p x)) [
  | inl e ↦
      let h' : Each Q (x ∷ filter p xs) =
        subst (λ (b : Bool). Each Q (if b then x ∷ filter p xs else filter p xs)) e h in
      (λ _. h'.0, Each-unfilter p Q xs h'.1)
  | inr e ↦
      let h' : Each Q (filter p xs) =
        subst (λ (b : Bool). Each Q (if b then x ∷ filter p xs else filter p xs)) e h in
      (λ k. absurd (differ (sym e ∙ k)), Each-unfilter p Q xs h')
]
  where
    differ : ◌≡◌ {A = Bool} false true → ⊥
    differ k = cc

filter_congr :
    (p q : Player → Bool) (xs : List Player) → Each (λ x. p x ≡ q x) xs → filter p xs ≡ filter q xs
filter_congr p q [] h = refl
filter_congr p q (x ∷ xs) h = rw (h.0, filter_congr p q xs h.1) refl

filter-filter :
    (p q : Player → Bool) (xs : List Player) → filter p (filter q xs) ≡ filter (λ x. q x && p x) xs
filter-filter p q [] = refl
filter-filter p q (x ∷ xs) = ground (arith, filter-filter p q xs)

le-most : (f : Player → ℕ) (xs : List Player) → Each (λ x. f x ≤ most f xs) xs
le-most f [] = tt
le-most f (x ∷ xs) = (
  omega arith,
  Each-map (λ y. f y ≤ most f xs) (λ y. f y ≤ max (f x) (most f xs)) xs (λ y h. omega arith)
      (le-most f xs),
)

least-le : (f : Player → ℕ) (xs : List Player) → Each (λ x. least f xs ≤ f x) xs
least-le f [] = tt
least-le f (x ∷ []) = (omega arith, tt)
least-le f (x ∷ y ∷ xs) = (
  omega arith,
  Each-map (λ z. least f (y ∷ xs) ≤ f z) (λ z. min (f x) (least f (y ∷ xs)) ≤ f z) (y ∷ xs)
      (λ z h. omega arith) (least-le f (y ∷ xs)),
)

-- `q` does not beat `p` by more of `f`, among all or among those as good as `p` before.
all-most :
    (f : Player → ℕ) (n : ℕ) (xs : List Player) → all (λ q. leb (f q) n) xs ≡ leb (most f xs) n
all-most f n [] = ground arith
all-most f n (x ∷ xs) = ground (arith, all-most f n xs)

all-least :
    (f : Player → ℕ) (n : ℕ) (x : Player) (xs : List Player)
    → all (λ q. leb n (f q)) (x ∷ xs) ≡ leb n (least f (x ∷ xs))
all-least f n x [] = ground arith
all-least f n x (y ∷ xs) = ground (arith, all-least f n y xs)

all-implies :
    (p r : Player → Bool) (xs : List Player) → all (λ q. not (p q) || r q) xs ≡ all r (filter p xs)
all-implies p r [] = refl
all-implies p r (x ∷ xs) = ground (arith, all-implies p r xs)

all-and : (p r : Player → Bool) (xs : List Player) → all (λ q. p q && r q) xs ≡ all p xs && all r xs
all-and p r [] = refl
all-and p r (x ∷ xs) = ground (arith, all-and p r xs)

narrow-most : (f : Player → ℕ) (xs : List Player) → narrow f (most f) xs ≡ having f (most f xs) xs
unfolding narrow
narrow-most f [] = refl
narrow-most f (x ∷ []) = ground arith
narrow-most f (x ∷ y ∷ xs) = ground arith

narrow-least :
    (f : Player → ℕ) (xs : List Player) → narrow f (least f) xs ≡ having f (least f xs) xs
unfolding narrow
narrow-least f [] = refl
narrow-least f (x ∷ []) = ground arith
narrow-least f (x ∷ y ∷ xs) = ground arith

-- `p` is not beaten by `q`: more gold wins, then more correct votes, then fewer wrongful ones.
abbrev pub stands : Player → Player → Bool
stands p q =
    leb q.gold p.gold
    && ((not (q.gold == p.gold) || leb q.correct_votes p.correct_votes)
        && (not (q.gold == p.gold && q.correct_votes == p.correct_votes)
            || leb p.wrongful_votes q.wrongful_votes))

all-least_of :
    (f : Player → ℕ) (n : ℕ) (xs : List Player)
    → xs ≢ []
    → all (λ q. leb n (f q)) xs ≡ leb n (least f xs)
all-least_of f n [] h = absurd (h refl)
all-least_of f n (x ∷ xs) h = all-least f n x xs

Each-ne-nil : (xs : List Player) → Each (λ _. xs ≢ []) xs
Each-ne-nil [] = tt
Each-ne-nil (x ∷ xs) = (
  cons-ne x xs,
  Each-map (λ _. xs ≢ []) (λ _. x ∷ xs ≢ []) xs (λ y h. cons-ne x xs) (Each-ne-nil xs),
)
  where
    cons-ne : (x : Player) (xs : List Player) → x ∷ xs ≢ []
    cons-ne x xs = cc

module _ (ps : List Player) where
  abbrev richest : List Player
  richest = having gold (most gold ps) ps

  abbrev surest : List Player
  surest = having correct_votes (most correct_votes richest) richest

  abbrev has_gold : Player → Bool
  has_gold p = gold p == most gold ps

  abbrev has_correct : Player → Bool
  has_correct p = correct_votes p == most correct_votes richest

  abbrev has_wrongful : Player → Bool
  has_wrongful p = wrongful_votes p == least wrongful_votes surest

  abbrev Facts : Player → Type 0
  Facts p =
      (gold p ≤ most gold ps)
      × ((has_gold p ≡ true → correct_votes p ≤ most correct_votes richest)
          × (has_gold p ≡ true
              → has_correct p ≡ true
              → (surest ≢ []) × (least wrongful_votes surest ≤ wrongful_votes p)))

  facts : Each Facts ps
  facts =
      Each-and (λ p. gold p ≤ most gold ps) _ ps (le-most gold ps)
        (Each-and (λ p. has_gold p ≡ true → correct_votes p ≤ most correct_votes richest) _ ps
          (Each-unfilter has_gold (λ p. correct_votes p ≤ most correct_votes richest) ps
            (le-most correct_votes richest))
          (Each-unfilter has_gold
            (λ p.
              has_correct p ≡ true
              → (surest ≢ []) × (least wrongful_votes surest ≤ wrongful_votes p))
            ps
            (Each-unfilter has_correct
              (λ p. (surest ≢ []) × (least wrongful_votes surest ≤ wrongful_votes p)) richest
              (Each-and (λ _. surest ≢ []) (λ p. least wrongful_votes surest ≤ wrongful_votes p)
                surest (Each-ne-nil surest) (least-le wrongful_votes surest)))))

  abbrev same_gold : Player → Player → Bool
  same_gold p q = q.gold == p.gold

  abbrev same_correct : Player → Player → Bool
  same_correct p q = q.gold == p.gold && q.correct_votes == p.correct_votes

  -- The tests of `stands` against all players, gathered.
  all-stands :
      (p : Player)
      → all (stands p) ps ≡ (
          leb (most gold ps) p.gold
          && (leb (most correct_votes (filter (same_gold p) ps)) p.correct_votes
              && all (λ q. leb p.wrongful_votes q.wrongful_votes) (filter (same_correct p) ps)))
  all-stands p = all-and (λ q. leb q.gold p.gold) _ ps ∙ (λ i.
      all-most gold p.gold ps i
      && (all-and (λ q. not (same_gold p q) || leb q.correct_votes p.correct_votes)
              (λ q. not (same_correct p q) || leb p.wrongful_votes q.wrongful_votes) ps
            ∙ (λ j.
                (all-implies (same_gold p) (λ q. leb q.correct_votes p.correct_votes) ps
                    ∙ all-most correct_votes p.correct_votes (filter (same_gold p) ps))
                  j
                && all-implies (same_correct p) (λ q. leb p.wrongful_votes q.wrongful_votes) ps j))
          i)

  same_gold-richest : (p : Player) → has_gold p ≡ true → filter (same_gold p) ps ≡ richest
  same_gold-richest p h =
      let e : gold p ≡ most gold ps = ground arith in ap (λ n. having gold n ps) e

  same_correct-surest :
      (p : Player) → has_gold p ≡ true → has_correct p ≡ true → filter (same_correct p) ps ≡ surest
  same_correct-surest p h k =
      let e : correct_votes p ≡ most correct_votes richest = ground arith in
      sym (filter-filter (λ q. q.correct_votes == p.correct_votes) (same_gold p) ps)
      ∙ ap (λ qs. filter (λ q. q.correct_votes == p.correct_votes) qs) (same_gold-richest p h)
      ∙ ap (λ n. having correct_votes n richest) e

  stands_best :
      (p : Player) → Facts p → (has_gold p && (has_correct p && has_wrongful p)) ≡ all (stands p) ps
  stands_best p (f, (g, h)) = rw (all-stands p) (elim (Bool-cases (has_gold p)) [
    | inr poor ↦ let less : leb (most gold ps) p.gold ≡ false = ground arith in rw (poor, less) refl
    | inl rich ↦
        let enough : leb (most gold ps) p.gold ≡ true = ground arith in
        let bound = g rich in
        rw (rich, enough)
          (rw (same_gold-richest p rich) (elim (Bool-cases (has_correct p)) [
            | inr unsure ↦
                let less : leb (most correct_votes richest) p.correct_votes ≡ false =
                  ground arith in
                rw (unsure, less) refl
            | inl sure ↦
                let enough : leb (most correct_votes richest) p.correct_votes ≡ true =
                  ground arith in
                let (filled, best) = h rich sure in
                rw (sure, enough)
                  (rw (same_correct-surest p rich sure) (
                    rw (all-least_of wrongful_votes p.wrongful_votes surest filled) (ground arith)))
          ]))
  ])

  pub winners_of_lem : winners_of ps ≡ filter (λ p. all (stands p) ps) ps
  unfolding winners_of
  winners_of_lem =
      ap (λ qs. narrow wrongful_votes (least wrongful_votes) qs) (narrow-most correct_votes richest)
      ∙ narrow-least wrongful_votes surest
      ∙ filter-filter has_wrongful has_correct richest
      ∙ filter-filter (λ p. has_correct p && has_wrongful p) has_gold ps
      ∙ filter_congr (λ p. has_gold p && (has_correct p && has_wrongful p)) (λ p. all (stands p) ps)
          ps (Each-map Facts _ ps stands_best facts)

-- The winners of pot-of-greed are exactly the players whom nobody beats, in their order: more gold
-- beats, at equal gold more correct votes, and at equal votes fewer wrongful ones.
pub calculate_final_results-winners :
    (ps : List Player) (vault : ℕ)
    → (calculate_final_results ps vault).winner_ids
      ≡ map (λ (p : Player). p.id) (filter (λ p. all (stands p) ps) ps)
unfolding calculate_final_results
calculate_final_results-winners ps vault =
    ap (λ qs. map (λ (p : Player). p.id) qs) (winners_of_lem ps)
