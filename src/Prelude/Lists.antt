-- ===== src/Prelude/Lists.antt =====
-- Lists measured and indexed by native numbers, and a `Set` of the program as a list in insertion
-- order.
use Prim.Native.Nat.{ℕ, zero, suc, ◌+◌, ◌≤◌, min}
use mathlib.Core.Path.{◌≡◌, refl, sym, ◌∙◌}
use mathlib.Core.Logic.{◌≢◌, inl, inr}
use mathlib.Core.Bool.{Bool, true, false, ◌&&◌, ◌||◌, not}
use mathlib.Core.Option.{Option, none, some}
use mathlib.Core.List.{List, [], ◌∷◌, ◌++◌}
use native.Mathlib.Omega.{arith}
use factory_network_server.Prelude.Tests.{Eq, ◌==◌, eq_iff, if◌then◌else◌, Bool-cases}

module _ {ℓ} {A : Type ℓ} where
  abbrev pub length : List A → ℕ
  length [] = 0
  length (x ∷ xs) = suc (length xs)

  -- `xs.slice(0, n)`
  abbrev pub take : ℕ → List A → List A
  take zero s = []
  take (suc n) [] = []
  take (suc n) (c ∷ s) = c ∷ take n s

  pub length-append : (xs ys : List A) → length (xs ++ ys) ≡ length xs + length ys
  length-append [] ys = omega arith
  length-append (x ∷ xs) ys = omega (arith, length-append xs ys)

  pub length-take : (n : ℕ) (xs : List A) → length (take n xs) ≡ min n (length xs)
  length-take zero xs = omega arith
  length-take (suc n) [] = omega arith
  length-take (suc n) (x ∷ xs) = omega (arith, length-take n xs)

  take_none : (n : ℕ) → take n [] ≡ []
  take_none zero = refl
  take_none (suc n) = refl

  pub take_of_length-le : (n : ℕ) (s : List A) → length s ≤ n → take n s ≡ s
  take_of_length-le n [] short = take_none n
  take_of_length-le zero (c ∷ s) short = ground arith
  take_of_length-le (suc n) (c ∷ s) short =
      let rest : length s ≤ n = omega arith in rw (take_of_length-le n s rest)

module _ {ℓ} {A : Type ℓ} where
  abbrev pub all : (A → Bool) → List A → Bool
  all p [] = true
  all p (x ∷ xs) = p x && all p xs

  -- `xs.some(p)`
  abbrev pub any : (A → Bool) → List A → Bool
  any p [] = false
  any p (x ∷ xs) = p x || any p xs

  -- `xs.filter(p)`
  abbrev pub filter : (A → Bool) → List A → List A
  filter p [] = []
  filter p (x ∷ xs) = let rest = filter p xs in if p x then x ∷ rest else rest

  pub length-filter-le : (p : A → Bool) (xs : List A) → length (filter p xs) ≤ length xs
  length-filter-le p [] = omega arith
  length-filter-le p (x ∷ xs) = ground (arith, length-filter-le p xs)

  pub all-filter : (p : A → Bool) (xs : List A) → all p (filter p xs) ≡ true
  all-filter p [] = refl
  all-filter p (x ∷ xs) = ground (arith, all-filter p xs)

  pub filter_of_all : (p : A → Bool) (xs : List A) → all p xs ≡ true → filter p xs ≡ xs
  filter_of_all p [] h = refl
  filter_of_all p (x ∷ xs) h = ground (arith, filter_of_all p xs)

module _ {ℓ} {A : Type ℓ} ⦃e : Eq A⦄ where
  -- `xs.includes(a)`, `set.has(a)`
  unfoldable pub contains : A → List A → Bool
  contains a [] = false
  contains a (x ∷ xs) = x == a || contains a xs

  -- `set.delete(a)`
  unfoldable pub remove : A → List A → List A
  remove a [] = []
  remove a (x ∷ xs) = let rest = remove a xs in if x == a then rest else x ∷ rest

  -- `set.add(a)`
  unfoldable pub add : A → List A → List A
  add a xs = if contains a xs then xs else xs ++ a ∷ []

  -- How often `a` stands in the list.
  unfoldable pub count : A → List A → ℕ
  count a [] = 0
  count a (x ∷ xs) = let rest = count a xs in if x == a then suc rest else rest

  abbrev pub distinct : List A → Bool
  distinct [] = true
  distinct (x ∷ xs) = not (contains x xs) && distinct xs

  pub all-contains :
      (p : A → Bool) (xs : List A) (a : A) → all p xs ≡ true → contains a xs ≡ true → p a ≡ true
  unfolding contains
  all-contains p [] a h c = cc
  all-contains p (x ∷ xs) a h c = elim (Bool-cases (x == a)) [
    | inl e ↦ ground (arith, eq_iff x a)
    | inr e ↦ all-contains p xs a (ground arith) (ground arith)
  ]

  pub contains-append :
      (a : A) (xs ys : List A) → contains a (xs ++ ys) ≡ contains a xs || contains a ys
  unfolding contains
  contains-append a [] ys = refl
  contains-append a (x ∷ xs) ys = ground (arith, contains-append a xs ys)

  pub contains-remove :
      (a b : A) (xs : List A) → contains a (remove b xs) ≡ (if a == b then false else contains a xs)
  unfolding contains remove
  contains-remove a b [] = ground arith
  contains-remove a b (x ∷ xs) =
      ground (arith, eq_iff x b, eq_iff x a, eq_iff a b, contains-remove a b xs)

  pub contains-add : (a b : A) (xs : List A) → contains a (add b xs) ≡ (a == b) || contains a xs
  unfolding contains add
  contains-add a b xs = ground (arith, eq_iff a b, eq_iff b a, contains-append a xs (b ∷ []))

  pub add-ne-nil : (a : A) (xs : List A) → add a xs ≢ []
  unfolding contains add
  add-ne-nil a [] = cc
  add-ne-nil a (x ∷ xs) = ground arith

  pub remove_absent : (a : A) (xs : List A) → contains a xs ≡ false → remove a xs ≡ xs
  unfolding contains remove
  remove_absent a [] h = refl
  remove_absent a (x ∷ xs) h = ground (arith, remove_absent a xs)

  pub length-remove_present :
      (a : A) (xs : List A)
      → distinct xs ≡ true
      → contains a xs ≡ true
      → length (remove a xs) + 1 ≡ length xs
  unfolding contains remove
  length-remove_present a [] d h = ground arith
  length-remove_present a (x ∷ xs) d h =
      ground (arith, eq_iff x a, remove_absent a xs, length-remove_present a xs)

  pub length-remove-le : (a : A) (xs : List A) → length (remove a xs) ≤ length xs
  unfolding remove
  length-remove-le a [] = omega arith
  length-remove-le a (x ∷ xs) = ground (arith, length-remove-le a xs)

  length-remove-lt :
      (a : A) (xs : List A) → contains a xs ≡ true → length (remove a xs) + 1 ≤ length xs
  unfolding contains remove
  length-remove-lt a [] h = ground arith
  length-remove-lt a (x ∷ xs) h = ground (arith, length-remove-le a xs, length-remove-lt a xs)

  contains_ne :
      (a b : A) (xs : List A) → contains a xs ≡ true → contains b xs ≡ false → (a == b) ≡ false
  contains_ne a b xs h k = ground (arith, eq_iff a b)

  -- Of more elements, all different, one is not among fewer.
  pub pigeonhole :
      (xs ys : List A)
      → distinct xs ≡ true
      → length ys + 1 ≤ length xs
      → (a : A) × (contains a xs ≡ true) × (contains a ys ≡ false)
  unfolding contains
  pigeonhole [] ys d h = absurd (omega arith)
  pigeonhole (x ∷ xs) ys d h = elim (Bool-cases (contains x ys)) [
    | inr free ↦ (x, ground (arith, eq_iff x x), free)
    | inl c ↦
        let (a, here, free) =
          pigeonhole xs (remove x ys) (ground arith) (omega (arith, length-remove-lt x ys c)) in
        let other = contains_ne a x xs here (ground arith) in
        (a, ground arith, rw other at (sym (contains-remove a x ys) ∙ free))
  ]

  pub length-add : (a : A) (xs : List A) → length (add a xs) ≤ length xs + 1
  unfolding add
  length-add a xs = ground (arith, length-append xs (a ∷ []))

  pub distinct-remove : (a : A) (xs : List A) → distinct xs ≡ true → distinct (remove a xs) ≡ true
  unfolding remove
  distinct-remove a [] d = refl
  distinct-remove a (x ∷ xs) d = ground (arith, contains-remove x a xs, distinct-remove a xs)

  distinct-snoc :
      (a : A) (xs : List A)
      → contains a xs ≡ false
      → distinct xs ≡ true
      → distinct (xs ++ a ∷ []) ≡ true
  unfolding contains
  distinct-snoc a [] h d = refl
  distinct-snoc a (x ∷ xs) h d =
      ground (arith, eq_iff x a, eq_iff a x, contains-append x xs (a ∷ []), distinct-snoc a xs)

  pub distinct-add : (a : A) (xs : List A) → distinct xs ≡ true → distinct (add a xs) ≡ true
  unfolding add
  distinct-add a xs d = ground (arith, distinct-snoc a xs)

  pub count-append : (a : A) (xs ys : List A) → count a (xs ++ ys) ≡ count a xs + count a ys
  unfolding count
  count-append a [] ys = omega arith
  count-append a (x ∷ xs) ys = ground (arith, count-append a xs ys)

module _ {ℓ} {A : Type ℓ} where
  -- `xs[i]`, undefined past the end.
  abbrev pub get_elem? : List A → ℕ → Option A
  get_elem? [] i = none
  get_elem? (x ∷ xs) zero = some x
  get_elem? (x ∷ xs) (suc i) = get_elem? xs i
