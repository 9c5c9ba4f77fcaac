-- ===== src/Prelude/Maps.antt =====
-- A `Map` of the program: its entries in insertion order. Writing to a key that is there keeps its
-- place.
use mathlib.Core.Path.{◌≡◌, refl}
use mathlib.Core.Bool.{Bool, false, ◌||◌}
use mathlib.Core.List.{List, [], ◌∷◌}
use mathlib.Core.Option.{Option, none, some}
use native.Mathlib.Omega.{arith}
use factory_network_server.Prelude.Lists.{contains, length}
use factory_network_server.Prelude.Tests.{Eq, ◌==◌, eq_iff, if◌then◌else◌, is_some}

abbrev pub Map {ℓ} : Type ℓ → Type ℓ → Type ℓ
Map K V = List (K × V)

module _ {ℓ} {K V : Type ℓ} where
  abbrev pub keys : Map K V → List K
  keys [] = []
  keys ((k, v) ∷ m) = k ∷ keys m

  abbrev pub values : Map K V → List V
  values [] = []
  values ((k, v) ∷ m) = v ∷ values m

module _ {ℓ} {K V : Type ℓ} ⦃e : Eq K⦄ where
  unfoldable pub get? : K → Map K V → Option V
  get? k [] = none
  get? k ((j, v) ∷ m) = let rest = get? k m in if j == k then some v else rest

  unfoldable pub has : K → Map K V → Bool
  has k [] = false
  has k ((j, v) ∷ m) = j == k || has k m

  unfoldable pub set : K → V → Map K V → Map K V
  set k v [] = (k, v) ∷ []
  set k v ((j, w) ∷ m) = let rest = set k v m in if j == k then (j, v) ∷ m else (j, w) ∷ rest

  -- `map.delete(k)`
  unfoldable pub erase : K → Map K V → Map K V
  erase k [] = []
  erase k ((j, v) ∷ m) = let rest = erase k m in if j == k then rest else (j, v) ∷ rest

  pub get?-set :
      (k j : K) (v : V) (m : Map K V) → get? j (set k v m) ≡ (if k == j then some v else get? j m)
  unfolding get? set
  get?-set k j v [] = refl
  get?-set k j v ((i, w) ∷ m) = ground (arith, eq_iff k j, eq_iff i k, eq_iff i j, get?-set k j v m)

  pub get?-erase :
      (k j : K) (m : Map K V) → get? j (erase k m) ≡ (if k == j then none else get? j m)
  unfolding get? erase
  get?-erase k j [] = ground arith
  get?-erase k j ((i, w) ∷ m) = ground (arith, eq_iff k j, eq_iff i k, eq_iff i j, get?-erase k j m)

  pub has-get? : (k : K) (m : Map K V) → has k m ≡ is_some (get? k m)
  unfolding get? has
  has-get? k [] = refl
  has-get? k ((j, v) ∷ m) = ground (arith, has-get? k m)

  pub contains-keys : (k : K) (m : Map K V) → contains k (keys m) ≡ has k m
  unfolding contains has
  contains-keys k [] = refl
  contains-keys k ((j, v) ∷ m) = ground (arith, contains-keys k m)

module _ {ℓ} {K V : Type ℓ} where
  pub length-keys : (m : Map K V) → length (keys m) ≡ length m
  length-keys [] = refl
  length-keys ((k, v) ∷ m) = ground (arith, length-keys m)
