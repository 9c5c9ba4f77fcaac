-- ===== src/Js/Strings/Split.antt =====
-- `value.split(c)` for one separating unit.
use factory_network_server.Prelude.{
  ℕ, ◌≡◌, refl, Bool, true, not, List, [], ◌∷◌, ◌++◌, all, if◌then◌else◌, nat_eq, arith,
}
use factory_network_server.Prelude.Texts.{Text}

-- Puts `c` before the first part.
unfoldable pub onto_first : ℕ → List Text → List Text
onto_first c [] = (c ∷ []) ∷ []
onto_first c (p ∷ ps) = (c ∷ p) ∷ ps

unfoldable pub split : ℕ → Text → List Text
unfolding onto_first
split sep [] = [] ∷ []
split sep (c ∷ s) = let rest = split sep s in if nat_eq c sep then [] ∷ rest else onto_first c rest

-- The separator is not in the text.
abbrev pub lacks : ℕ → Text → Bool
lacks sep = all (λ c. not (nat_eq c sep))

module _ (sep : ℕ) where
  pub split_one : (a : Text) → lacks sep a ≡ true → split sep a ≡ a ∷ []
  unfolding split
  split_one [] h = refl
  split_one (c ∷ a) h = ground (arith, split_one a)

  pub split-append :
      (a s : Text) → lacks sep a ≡ true → split sep (a ++ (sep ∷ s)) ≡ a ∷ split sep s
  unfolding split
  split-append [] s h = ground arith
  split-append (c ∷ a) s h = ground (arith, split-append a s)
