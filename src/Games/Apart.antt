-- ===== src/Games/Apart.antt =====
-- The order of the definitions in games/registry.mjs: a game id has one definition at most.
use factory_network_server.Prelude.{
  all-contains, ℕ, zero, suc, ◌≡◌, refl, Bool, true, false, Option, none, some, List, [], ◌∷◌, ◌&&◌,
  not, ◌||◌, arith, ◌⊎◌, inl, inr, Bool-cases, Option-cases, or_else, ◌↔◌, all, contains, is_some,
  is_some_of, get_elem?, ◌==◌,
}
use factory_network_server.Prelude.Texts.{Text, Text_eq, text_eq}
use factory_network_server.Games.{LobbyGame}
use factory_network_server.Matchmaking.{Strategy, lobby_only, side_pair}
use factory_network_server.Games.Definitions.{
  starts_with, Matches, one_of, with_prefix, Definition, all_definitions, in_lobby, owned, relayed,
  config_only,
}
use factory_network_server.Games.Lookup.{
  is_match, claims, first_claiming, find_definition, lobby_game, matchmaking_strategy,
}

abbrev names_of_id : Option Text → List Text
names_of_id none = []
names_of_id (some id) = id ∷ []

abbrev names_of_matches : Option Matches → List Text
names_of_matches (some (one_of ids)) = ids
names_of_matches _ = []

abbrev has_prefix : Option Matches → Bool
has_prefix (some (with_prefix p)) = true
has_prefix _ = false

is_match-cases :
    (m : Option Matches) (game : Text)
    → is_match m game ≡ true
    → (contains game (names_of_matches m) ≡ true) ⊎ (has_prefix m ≡ true)
is_match-cases none game h = cc
is_match-cases (some (one_of ids)) game h = inl h
is_match-cases (some (with_prefix p)) game h = inr refl

claimed-cases :
    (i : Option Text) (m : Option Matches) (game : Text)
    → (is_some_of i game || is_match m game) ≡ true
    → ((contains game (names_of_id i) ≡ true) ⊎ (contains game (names_of_matches m) ≡ true))
      ⊎ (has_prefix m ≡ true)
unfolding contains
claimed-cases none m game h = elim (is_match-cases m game h) [ inl c ↦ inl (inr c) | inr p ↦ inr p ]
claimed-cases (some id) m game h = elim (Bool-cases (id == game)) [
  | inl e ↦ inl (inl (ground arith))
  | inr e ↦ elim (is_match-cases m game (ground arith)) [ inl c ↦ inl (inr c) | inr p ↦ inr p ]
]

abbrev is_lobby_only : Strategy → Bool
is_lobby_only lobby_only = true
is_lobby_only _ = false

abbrev bool_eq : Bool → Bool → Bool
bool_eq true b = b
bool_eq false b = not b

module _ {G : Type 0} where
  -- None of the names of the one is claimed by the other.
  abbrev is_clear_of : Definition G → Definition G → Bool
  is_clear_of d e =
      all (λ id. not (claims e id)) (names_of_id d.id)
      && all (λ id. not (claims e id)) (names_of_matches d.matches)

  -- And not both have a prefix.
  unfoldable are_apart : Definition G → Definition G → Bool
  unfolding claims
  are_apart d e =
      (is_clear_of d e && is_clear_of e d) && not (has_prefix d.matches && has_prefix e.matches)

  unfoldable all_apart : List (Definition G) → Bool
  unfolding are_apart
  all_apart [] = true
  all_apart (d ∷ ds) = all (are_apart d) ds && all_apart ds

  clear-claims :
      (d e : Definition G) (game : Text)
      → is_clear_of d e ≡ true
      → claims d game ≡ true
      → (claims e game ≡ false) ⊎ (has_prefix d.matches ≡ true)
  clear-claims d e game clear h =
      let free = λ (id : Text). not (claims e id) in
      elim (claimed-cases d.id d.matches game (unfold claims in h)) [
        | inl (inl c) ↦
            inl (ground (arith, all-contains free (names_of_id d.id) game (ground arith) c))
        | inl (inr c) ↦
            inl
              (ground (arith, all-contains free (names_of_matches d.matches) game (ground arith) c))
        | inr p ↦ inr p
      ]

  are_apart-claims :
      (d e : Definition G) (game : Text)
      → are_apart d e ≡ true
      → claims e game ≡ true
      → claims d game ≡ false
  unfolding are_apart
  are_apart-claims d e game a h = elim (Bool-cases (claims d game)) [
    | inl c ↦ elim (clear-claims d e game (ground arith) c) [
      | inl free ↦ cc
      | inr p ↦ elim (clear-claims e d game (ground arith) h) [
        | inl free ↦ free
        | inr q ↦ ground arith
      ]
    ]
    | inr c ↦ c
  ]

  all_at_index :
      (p : Definition G → Bool) (ds : List (Definition G)) (i : ℕ) (d : Definition G)
      → all p ds ≡ true
      → get_elem? ds i ≡ some d
      → p d ≡ true
  all_at_index p [] i d h at = cc
  all_at_index p (e ∷ ds) zero d h at = ground arith
  all_at_index p (e ∷ ds) (suc i) d h at = all_at_index p ds i d (ground arith) at

  all_definitions-apart :
      (module_of : Text → LobbyGame G) → all_apart (all_definitions module_of) ≡ true
  unfolding all_apart are_apart claims all_definitions in_lobby owned relayed text_eq contains
      starts_with
  all_definitions-apart module_of = refl

  first_claiming-claims :
      (ds : List (Definition G)) (i : ℕ) (d : Definition G) (game : Text)
      → all_apart ds ≡ true
      → get_elem? ds i ≡ some d
      → claims d game ≡ true
      → first_claiming ds game ≡ some d
  unfolding first_claiming all_apart
  first_claiming-claims [] i d game a at h = cc
  first_claiming-claims (e ∷ ds) zero d game a at h = ground arith
  first_claiming-claims (e ∷ ds) (suc i) d game a at h =
      let free =
        are_apart-claims e d game (all_at_index (are_apart e) ds i d (ground arith) at) h in
      let ih = first_claiming-claims ds i d game (ground arith) at h in rw free ih

  -- Whichever definition of the registry claims a game id that is not empty, wherever it stands in
  -- the list, is the one that is found.
  pub find_definition-claims :
      (module_of : Text → LobbyGame G) (i : ℕ) (d : Definition G) (c : ℕ) (game : Text)
      → get_elem? (all_definitions module_of) i ≡ some d
      → claims d (c ∷ game) ≡ true
      → find_definition (all_definitions module_of) (c ∷ game) ≡ some d
  unfolding find_definition
  find_definition-claims module_of i d c game at h =
      first_claiming-claims (all_definitions module_of) i d (c ∷ game)
        (all_definitions-apart module_of) at h

  -- The strategy is "lobby" exactly if there is a lobby module.
  abbrev agrees : Definition G → Bool
  agrees d = bool_eq (is_lobby_only (or_else d.matchmaking side_pair)) (is_some d.lobby_game)

  all_definitions-agree :
      (module_of : Text → LobbyGame G) → all agrees (all_definitions module_of) ≡ true
  unfolding all_definitions in_lobby owned relayed config_only
  all_definitions-agree module_of = refl

  first_claiming-all :
      (p : Definition G → Bool) (ds : List (Definition G)) (d : Definition G) (game : Text)
      → all p ds ≡ true
      → first_claiming ds game ≡ some d
      → p d ≡ true
  unfolding first_claiming
  first_claiming-all p [] d game h found = cc
  first_claiming-all p (e ∷ ds) d game h found = elim (Bool-cases (claims e game)) [
    | inl c ↦ ground arith
    | inr c ↦ first_claiming-all p ds d game (ground arith) (ground arith)
  ]

  find_definition-all :
      (p : Definition G → Bool) (ds : List (Definition G)) (d : Definition G) (game : Text)
      → all p ds ≡ true
      → find_definition ds game ≡ some d
      → p d ≡ true
  unfolding find_definition
  find_definition-all p ds d [] h found = cc
  find_definition-all p ds d (c ∷ game) h found = first_claiming-all p ds d (c ∷ game) h found

  -- The strategy of a game id is "lobby" exactly if the registry has a lobby module for it.
  pub matchmaking_strategy-lobby_game :
      (module_of : Text → LobbyGame G) (game : Text)
      → (matchmaking_strategy (all_definitions module_of) game ≡ lobby_only)
        ↔ (is_some (lobby_game (all_definitions module_of) game) ≡ true)
  unfolding matchmaking_strategy lobby_game
  matchmaking_strategy-lobby_game module_of game =
      let ds = all_definitions module_of in
      elim (Option-cases (find_definition ds game)) [
        | inl e ↦ ground arith
        | inr (d, e) ↦
            let a = find_definition-all agrees ds d game (all_definitions-agree module_of) e in
            ground arith
      ]
