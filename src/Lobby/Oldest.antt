-- ===== src/Lobby/Oldest.antt =====
-- `findOpenLobby` of src/lobby.mjs, and the lobbies that the server holds.
use mathlib.Core.Path.{subst}
use factory_network_server.Prelude.{
  ℕ, ◌≡◌, ◌≢◌, ◌≤◌, ◌⊎◌, inl, inr, sym, ap, ◌∙◌, Bool, true, false, Option, none, some, [], ◌∷◌,
  >>=-eq-some, if◌then◌else◌, arith, ltb, Bool-cases,
}
use factory_network_server.Prelude.Texts.{Text}
use factory_network_server.Prelude.Maps.{Map}
use factory_network_server.Js.Values.{Json}
use factory_network_server.Js.Convert.{Host}
use factory_network_server.Util.{Limits}
use factory_network_server.State.{Server, Lobby}
use factory_network_server.Lobby.Search.{
  does_lobby_match_search, older, oldest_match, find_open_lobby,
}

-- The lobby is in the map.
abbrev pub Holds : {G : Type 0} → Lobby G → Map Text (Lobby G) → Type 0
Holds lobby [] = ⊥
Holds lobby ((code, l) ∷ rest) = (lobby ≡ l) ⊎ Holds lobby rest

module _ {G : Type 0} (does_match : Lobby G → Option Bool) where
  -- The best so far, if there is one, is at least as old.
  abbrev NotOlder : Option (Lobby G) → ℕ → Type 0
  NotOlder none n = Unit
  NotOlder (some b) n = n ≤ b.created_at

  -- What the best is that the loop ends with, if it began with `before`.
  record Result (before : Option (Lobby G)) (ls : Map Text (Lobby G)) (best : Lobby G)
      : Type 0 where
    source : (before ≡ some best) ⊎ (Holds best ls × (does_match best ≡ some true))
    earlier : NotOlder before best.created_at
    oldest : (l : Lobby G) → Holds l ls → does_match l ≡ some true → best.created_at ≤ l.created_at

  older-source :
      (before : Option (Lobby G)) (l best : Lobby G)
      → older before l ≡ best
      → (before ≡ some best) ⊎ (l ≡ best)
  unfolding older
  older-source none l best h = inr h
  older-source (some b) l best h = elim (Bool-cases (ltb l.created_at b.created_at)) [
    | inl e ↦ inr (sym (ap (λ (c : Bool). if c then l else b) e) ∙ h)
    | inr e ↦ inl (ap some (sym (ap (λ (c : Bool). if c then l else b) e) ∙ h))
  ]

  older-age :
      (before : Option (Lobby G)) (l : Lobby G) (n : ℕ)
      → n ≤ (older before l).created_at
      → NotOlder before n × (n ≤ l.created_at)
  unfolding older
  older-age none l n h = (tt, h)
  older-age (some b) l n h = elim (Bool-cases (ltb l.created_at b.created_at)) [
    | inl e ↦
        let age : (older (some b) l).created_at ≡ l.created_at =
          ap (λ (c : Bool). (if c then l else b).created_at) e in
        ground (arith, age, e, h)
    | inr e ↦
        let age : (older (some b) l).created_at ≡ b.created_at =
          ap (λ (c : Bool). (if c then l else b).created_at) e in
        ground (arith, age, e, h)
  ]

  step :
      (before : Option (Lobby G)) (code : Text) (l : Lobby G) (ls : Map Text (Lobby G))
      (best : Lobby G) (found : Bool)
      → does_match l ≡ some found
      → Result (if found then some (older before l) else before) ls best
      → Result before ((code, l) ∷ ls) best
  step before code l ls best true e r = record {
    source = elim r.source [
      | inr (held, m) ↦ inr (inr held, m)
      | inl p ↦ elim (older-source before l best cc) [
        | inl q ↦ inl q
        | inr q ↦ inr (inl (sym q), ap does_match (sym q) ∙ e)
      ]
    ];
    earlier = (older-age before l best.created_at r.earlier).0;
    oldest = λ k held m. elim held [
      | inl p ↦
          subst (λ (x : Lobby G). best.created_at ≤ x.created_at) (sym p)
            (older-age before l best.created_at r.earlier).1
      | inr held' ↦ r.oldest k held' m
    ];
  }
  step before code l ls best false e r = record {
    source = elim r.source [ inl p ↦ inl p | inr (held, m) ↦ inr (inr held, m) ];
    earlier = r.earlier;
    oldest =
        λ k held m. elim held [ inl p ↦ absurd (different k p m) | inr held' ↦ r.oldest k held' m ];
  }
    where
      different : (k : Lobby G) → k ≡ l → does_match k ≡ some true → ⊥
      different k p m =
          let clash : ◌≡◌ {A = Option Bool} (some false) (some true) =
            sym e ∙ ap does_match (sym p) ∙ m in
          ground (arith, clash)

  oldest_match-Result :
      (before : Option (Lobby G)) (ls : Map Text (Lobby G)) (best : Lobby G)
      → oldest_match does_match before ls ≡ some (some best)
      → Result before ls best
  unfolding oldest_match
  oldest_match-Result before [] best h =
      let same : before ≡ some best = cc in
      record {
        source = inl same;
        earlier =
            subst (λ (o : Option (Lobby G)). NotOlder o best.created_at) (sym same) (omega arith);
        oldest = λ l held e. elim held [ ];
      }
  oldest_match-Result before ((code, l) ∷ ls) best h =
      let (found, e, rest) =
        >>=-eq-some (does_match l)
          (λ (f : Bool). oldest_match does_match (if f then some (older before l) else before) ls)
          h in
      step before code l ls best found e
        (oldest_match-Result (if found then some (older before l) else before) ls best rest)

  -- No best is lost on the way.
  oldest_match-some :
      (b : Lobby G) (ls : Map Text (Lobby G)) → oldest_match does_match (some b) ls ≢ some none
  unfolding oldest_match
  oldest_match-some b [] h = ground (arith, h)
  oldest_match-some b ((code, l) ∷ ls) h =
      let (found, e, rest) =
        >>=-eq-some (does_match l)
          (λ (f : Bool). oldest_match does_match (if f then some (older (some b) l) else some b) ls)
          h in
      elim (Bool-cases found) [
        | inl p ↦ oldest_match-some (older (some b) l) ls (
            ap
              (λ (f : Bool).
                oldest_match does_match (if f then some (older (some b) l) else some b) ls)
              (sym p)
            ∙ rest)
        | inr p ↦ oldest_match-some b ls (
            ap
              (λ (f : Bool).
                oldest_match does_match (if f then some (older (some b) l) else some b) ls)
              (sym p)
            ∙ rest)
      ]

  oldest_match-none :
      (ls : Map Text (Lobby G)) (l : Lobby G)
      → oldest_match does_match none ls ≡ some none
      → Holds l ls
      → does_match l ≢ some true
  unfolding oldest_match
  oldest_match-none [] l h held m = elim held [ ]
  oldest_match-none ((code, k) ∷ ls) l h held m =
      let (found, e, rest) =
        >>=-eq-some (does_match k)
          (λ (f : Bool). oldest_match does_match (if f then some (older none k) else none) ls) h in
      elim (Bool-cases found) [
        | inl p ↦ oldest_match-some (older none k) ls (
            ap (λ (f : Bool). oldest_match does_match (if f then some (older none k) else none) ls)
              (sym p)
            ∙ rest)
        | inr p ↦ elim held [
          | inl q ↦
              let clash : ◌≡◌ {A = Option Bool} (some false) (some true) =
                ap some (sym p) ∙ sym e ∙ ap does_match (sym q) ∙ m in
              ground (arith, clash)
          | inr held' ↦
              oldest_match-none ls l
                (ap
                    (λ (f : Bool).
                      oldest_match does_match (if f then some (older none k) else none) ls)
                    (sym p)
                  ∙ rest)
                held' m
        ]
      ]

module _ {G : Type 0} (host : Host) (game : Option Json) (limits : Option Limits) where
  -- A search that finds a lobby finds one that the server holds, that fits the search, and that is
  -- no younger than any other lobby that fits.
  pub find_open_lobby_oldest :
      (settings : Option Json) (s : Server G) (best : Lobby G)
      → find_open_lobby host game limits settings s ≡ some (some best)
      → Holds best s.lobbies
        × (does_lobby_match_search host game limits settings best ≡ some true)
        × ((l : Lobby G)
            → Holds l s.lobbies
            → does_lobby_match_search host game limits settings l ≡ some true
            → best.created_at ≤ l.created_at)
  unfolding find_open_lobby
  find_open_lobby_oldest settings s best h =
      let r =
        oldest_match-Result (does_lobby_match_search host game limits settings) none s.lobbies best
          h in
      elim r.source [ inl p ↦ ground (arith, p) | inr (held, m) ↦ (held, m, r.oldest) ]

  -- If a search finds no lobby, no lobby that the server holds fits it.
  pub find_open_lobby-none :
      (settings : Option Json) (s : Server G) (l : Lobby G)
      → find_open_lobby host game limits settings s ≡ some none
      → Holds l s.lobbies
      → does_lobby_match_search host game limits settings l ≢ some true
  unfolding find_open_lobby
  find_open_lobby-none settings s l h held =
      oldest_match-none (does_lobby_match_search host game limits settings) s.lobbies l h held
