-- ===== src/Greed/Shares.antt =====
-- distributeTheft of pot-of-greed-match-engine.mjs: the shares of the thieves.
use factory_network_server.Prelude.{
  ℕ, zero, suc, ◌+◌, ◌-◌, ◌*◌, ◌/◌, ◌%◌, ◌≤◌, ◌<◌, ◌≡◌, refl, ap, ◌∙◌, List, [], ◌∷◌, map, inl, inr,
  ◌⊎◌, length, leb, ◌||◌, ◌==◌, ℕ_eq, min, Bool-cases, leb→le, arith,
}
use native.Mathlib.Nat.{
  add-mul, mul-add, mul_comm, div-lt_iff_lt-mul, div-mul-le_self, lt-mul-div-succ,
  le_of_mul-le-mul_right, lt_of_mul-lt-mul_left, mul-lt-mul_of_pos_right,
}
use factory_network_server.Greed.Vault.{
  Theft, Payout, paid, total_requested, total_paid, bump, spread, distribute_theft,
}

abbrev pub as_theft : Payout → Theft
as_theft p = record { player_id = p.player_id; amount = p.amount }

abbrev pub IsPositive : List Theft → Type 0
IsPositive [] = Unit {0}
IsPositive (t ∷ ts) = (0 < t.amount) × IsPositive ts

-- Nobody gets more than he asked for.
abbrev pub IsFair : List Payout → Type 0
IsFair [] = Unit {0}
IsFair (p ∷ ps) = (p.actual ≤ p.amount) × IsFair ps

-- The payouts from the index on lie below what was asked.
abbrev HasSlack : ℕ → List Payout → Type 0
HasSlack i [] = Unit {0}
HasSlack zero (p ∷ ps) = (p.actual < p.amount) × HasSlack zero ps
HasSlack (suc i) (p ∷ ps) = (p.actual ≤ p.amount) × HasSlack i ps

HasSlack-IsFair : (i : ℕ) (ps : List Payout) → HasSlack i ps → IsFair ps
HasSlack-IsFair i [] h = tt
HasSlack-IsFair zero (p ∷ ps) h = (omega arith, HasSlack-IsFair zero ps h.1)
HasSlack-IsFair (suc i) (p ∷ ps) h = (h.0, HasSlack-IsFair i ps h.1)

bump-HasSlack : (i : ℕ) (ps : List Payout) → HasSlack i ps → HasSlack (suc i) (bump i ps)
unfolding bump
bump-HasSlack i [] h = tt
bump-HasSlack zero (p ∷ ps) h = (omega arith, h.1)
bump-HasSlack (suc i) (p ∷ ps) h = (h.0, bump-HasSlack i ps h.1)

length-bump : (i : ℕ) (ps : List Payout) → length (bump i ps) ≡ length ps
unfolding bump
length-bump i [] = refl
length-bump zero (p ∷ ps) = refl
length-bump (suc i) (p ∷ ps) = ap suc (length-bump i ps)

total_paid-bump :
    (i : ℕ) (ps : List Payout) → i < length ps → total_paid (bump i ps) ≡ total_paid ps + 1
unfolding bump
total_paid-bump i [] h = absurd (omega arith)
total_paid-bump zero (p ∷ ps) h = omega arith
total_paid-bump (suc i) (p ∷ ps) h =
    let less : i < length ps = omega arith in omega (arith, total_paid-bump i ps less)

as_theft-bump : (i : ℕ) (ps : List Payout) → map as_theft (bump i ps) ≡ map as_theft ps
unfolding bump
as_theft-bump i [] = refl
as_theft-bump zero (p ∷ ps) = refl
as_theft-bump (suc i) (p ∷ ps) = ap (λ ts. as_theft p ∷ ts) (as_theft-bump i ps)

as_theft-spread : (r i : ℕ) (ps : List Payout) → map as_theft (spread r i ps) ≡ map as_theft ps
unfolding spread
as_theft-spread zero i ps = refl
as_theft-spread (suc r) i ps =
    rw (as_theft-spread r ((i + 1) % length ps) (bump i ps)) (as_theft-bump i ps)

total_paid-spread :
    (r i : ℕ) (ps : List Payout) → i < length ps → total_paid (spread r i ps) ≡ total_paid ps + r
unfolding spread
total_paid-spread zero i ps h = omega arith
total_paid-spread (suc r) i ps h =
    let less : (i + 1) % length ps < length (bump i ps) = grind (arith, length-bump i ps) in
    omega
      (arith, total_paid-bump i ps h, total_paid-spread r ((i + 1) % length ps) (bump i ps) less)

-- A rest below the number of thieves never comes round to the first again.
spread-IsFair :
    (r i : ℕ) (ps : List Payout) → r + i ≤ length ps → HasSlack i ps → IsFair (spread r i ps)
unfolding spread
spread-IsFair zero i ps h s = HasSlack-IsFair i ps s
spread-IsFair (suc zero) i ps h s = HasSlack-IsFair (suc i) (bump i ps) (bump-HasSlack i ps s)
spread-IsFair (suc (suc r)) i ps h s =
    let next : (i + 1) % length ps ≡ suc i = grind arith in
    rw next (
      spread-IsFair (suc r) (suc i) (bump i ps) (omega (arith, length-bump i ps))
        (bump-HasSlack i ps s))

as_theft-paid : (f : ℕ → ℕ) (ts : List Theft) → map as_theft (map (paid f) ts) ≡ ts
as_theft-paid f [] = refl
as_theft-paid f (t ∷ ts) = ap (λ us. t ∷ us) (as_theft-paid f ts)

length-paid : (f : ℕ → ℕ) (ts : List Theft) → length (map (paid f) ts) ≡ length ts
length-paid f [] = refl
length-paid f (t ∷ ts) = ap suc (length-paid f ts)

paid_all : (ts : List Theft) → total_paid (map (paid (λ x. x)) ts) ≡ total_requested ts
paid_all [] = refl
paid_all (t ∷ ts) = omega (arith, paid_all ts)

all-IsFair : (ts : List Theft) → IsFair (map (paid (λ x. x)) ts)
all-IsFair [] = tt
all-IsFair (t ∷ ts) = (omega arith, all-IsFair ts)

paid_none : (ts : List Theft) → total_paid (map (paid (λ _. 0)) ts) ≡ 0
paid_none [] = refl
paid_none (t ∷ ts) = omega (arith, paid_none ts)

none-IsFair : (ts : List Theft) → IsFair (map (paid (λ _. 0)) ts)
none-IsFair [] = tt
none-IsFair (t ∷ ts) = (omega arith, none-IsFair ts)

length-pos : (ts : List Theft) → 0 < total_requested ts → 0 < length ts
length-pos [] h = absurd (omega arith)
length-pos (t ∷ ts) h = omega arith

-- The shares rounded down, of `a` coins for a total request of `total`.
module _ (a total : ℕ) (less : a < total) where
  abbrev shares : List Theft → List Payout
  shares ts = map (paid (λ amount. a * amount / total)) ts

  shares_below : (ts : List Theft) → total_paid (shares ts) * total ≤ a * total_requested ts
  shares_below [] = omega arith
  shares_below (t ∷ ts) =
      let q = a * t.amount / total in
      let n = total_paid (shares ts) in
      let here : q * total ≤ a * t.amount = div-mul-le_self (a * t.amount) total in
      let split : (q + n) * total ≡ q * total + n * total = add-mul q n total in
      let sum : a * (t.amount + total_requested ts) ≡ a * t.amount + a * total_requested ts =
        mul-add a t.amount (total_requested ts) in
      omega (arith, shares_below ts)

  shares_above :
      (ts : List Theft)
      → a * total_requested ts + length ts ≤ total * (total_paid (shares ts) + length ts)
  shares_above [] = omega arith
  shares_above (t ∷ ts) =
      let q = a * t.amount / total in
      let n = total_paid (shares ts) in
      let l = length ts in
      let here : a * t.amount < total * (q + 1) = lt-mul-div-succ (a * t.amount) (omega arith) in
      let split : total * (q + 1 + (n + l)) ≡ total * (q + 1) + total * (n + l) =
        mul-add total (q + 1) (n + l) in
      let same : q + n + suc l ≡ q + 1 + (n + l) = omega arith in
      let sum : a * (t.amount + total_requested ts) ≡ a * t.amount + a * total_requested ts =
        mul-add a t.amount (total_requested ts) in
      rw same (omega (arith, shares_above ts))

  share-lt : (x : ℕ) → 0 < x → a * x / total < x
  share-lt x h =
      (div-lt_iff_lt-mul (omega arith)).1 (rw (mul_comm x total) (mul-lt-mul_of_pos_right less h))

  shares-HasSlack : (ts : List Theft) → IsPositive ts → HasSlack zero (shares ts)
  shares-HasSlack [] h = tt
  shares-HasSlack (t ∷ ts) h = (share-lt t.amount h.0, shares-HasSlack ts h.1)

module _ (a : ℕ) (ts : List Theft) where
  abbrev total : ℕ
  total = total_requested ts

  abbrev rounded : List Payout
  rounded = map (paid (λ amount. a * amount / total)) ts

  abbrev rest : ℕ
  rest = a - total_paid rounded

  -- The rest after rounding is less than the number of thieves.
  rest-lt : a < total → (total_paid rounded ≤ a) × (rest < length ts)
  rest-lt less =
      let n = total_paid rounded in
      let below : n * total ≤ a * total = shares_below a total less ts in
      let above : a * total + length ts ≤ total * (n + length ts) = shares_above a total less ts in
      let some_thief : 0 < length ts = length-pos ts (omega arith) in
      let strict : total * a < total * (n + length ts) = rw (mul_comm total a) (omega arith) in
      let paid_less : n ≤ a = le_of_mul-le-mul_right below (omega arith) in
      let fits : a < n + length ts = lt_of_mul-lt-mul_left total strict in (paid_less, omega arith)

  -- The three cases of the code.
  distribute_theft-cases :
      ((total ≤ a) × (distribute_theft a ts ≡ map (paid (λ x. x)) ts))
      ⊎ ((min a total ≡ 0) × (distribute_theft a ts ≡ map (paid (λ _. 0)) ts))
      ⊎ ((a < total) × (distribute_theft a ts ≡ spread rest 0 rounded))
  unfolding distribute_theft
  distribute_theft-cases = elim (Bool-cases (leb total a)) [
    | inl enough ↦ inl (leb→le total a enough, rw enough)
    | inr short ↦ elim (Bool-cases (total == 0 || a == 0)) [
      | inl empty ↦ inr (inl (ground arith, rw (short, empty)))
      | inr full ↦ inr (inr (ground arith, rw (short, full)))
    ]
  ]

  -- What the thieves get in all is what they asked for, or the whole vault.
  pub total_paid-distribute_theft : total_paid (distribute_theft a ts) ≡ min a (total_requested ts)
  total_paid-distribute_theft = elim distribute_theft-cases [
    | inl (h, e) ↦ rw e (omega (arith, paid_all ts))
    | inr (inl (h, e)) ↦ rw (e, h) (paid_none ts)
    | inr (inr (h, e)) ↦
        let bounds = rest-lt h in
        let same : length rounded ≡ length ts = length-paid (λ x. a * x / total) ts in
        rw e (omega (arith, total_paid-spread rest 0 rounded (omega arith)))
  ]

  pub as_theft-distribute_theft : map as_theft (distribute_theft a ts) ≡ ts
  as_theft-distribute_theft = elim distribute_theft-cases [
    | inl (h, e) ↦ rw e (as_theft-paid (λ x. x) ts)
    | inr (inl (h, e)) ↦ rw e (as_theft-paid (λ _. 0) ts)
    | inr (inr (h, e)) ↦
        rw e (as_theft-spread rest 0 rounded ∙ as_theft-paid (λ x. a * x / total) ts)
  ]

  distribute_theft-IsFair : IsPositive ts → IsFair (distribute_theft a ts)
  distribute_theft-IsFair positive = elim distribute_theft-cases [
    | inl (h, e) ↦ rw e (all-IsFair ts)
    | inr (inl (h, e)) ↦ rw e (none-IsFair ts)
    | inr (inr (h, e)) ↦
        let bounds = rest-lt h in
        let same : length rounded ≡ length ts = length-paid (λ x. a * x / total) ts in
        rw e (spread-IsFair rest 0 rounded (omega arith) (shares-HasSlack a total h ts positive))
  ]

  -- If each thief of pot-of-greed asks for something, the thieves together get all they asked for
  -- or the whole vault, whichever is less, nobody gets more than he asked for, and the payouts
  -- stand in the order of the requests.
  pub distribute_theft_lem :
      IsPositive ts
      → (total_paid (distribute_theft a ts) ≡ min a (total_requested ts))
        × IsFair (distribute_theft a ts)
        × (map as_theft (distribute_theft a ts) ≡ ts)
  distribute_theft_lem positive =
      (total_paid-distribute_theft, distribute_theft-IsFair positive, as_theft-distribute_theft)
