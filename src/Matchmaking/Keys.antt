-- ===== src/Matchmaking/Keys.antt =====
-- Sides and queue keys of src/matchmaking.mjs.
use factory_network_server.Prelude.{
  ℕ, ◌≡◌, ◌≢◌, refl, sym, ap, ◌∙◌, Bool, true, Option, none, some, [], ◌∷◌, ◌++◌, arith, Bool-cases,
  inl, inr,
}
use mathlib.Core.Path.{subst}
use factory_network_server.Prelude.Texts.{Text, codes, Text_eq, text_eq, text_eq_iff}
use factory_network_server.Js.Values.{Json, text}
use factory_network_server.Js.Strings.{trim, lacks, split_one, split-append}
use factory_network_server.Matchmaking.{
  is_paired, normalize_text, normalize_match_side, get_match_queue_key, get_opponent_match_side,
  get_game_id_from_queue_key, first_or_empty,
}

-- No colon in the text.
abbrev pub plain : Text → Bool
plain = lacks 58

-- A side is one of the six strings.
pub data IsSide : Text → Type 0 where
  boy : IsSide (codes "boy")
  girl : IsSide (codes "girl")
  alpha : IsSide (codes "alpha")
  beta : IsSide (codes "beta")
  p1 : IsSide (codes "p1")
  p2 : IsSide (codes "p2")

side_of : (s t : Text) → text_eq t s ≡ true → IsSide s → IsSide t
side_of s t h i = subst IsSide (sym ((text_eq_iff t s).0 h)) i

is_paired-IsSide : (s : Text) → is_paired s ≡ true → IsSide s
unfolding is_paired
is_paired-IsSide s h = ground (
  arith,
  λ (e : text_eq s (codes "boy") ≡ true). side_of _ s e boy,
  λ (e : text_eq s (codes "girl") ≡ true). side_of _ s e girl,
  λ (e : text_eq s (codes "alpha") ≡ true). side_of _ s e alpha,
  λ (e : text_eq s (codes "beta") ≡ true). side_of _ s e beta,
  λ (e : text_eq s (codes "p1") ≡ true). side_of _ s e p1,
  λ (e : text_eq s (codes "p2") ≡ true). side_of _ s e p2,
)

normalize_text-IsSide : (v s : Text) → normalize_text v ≡ some s → IsSide s
unfolding normalize_text
normalize_text-IsSide v s h = elim (Bool-cases (is_paired (trim v))) [
  | inl p ↦ subst IsSide (ground arith) (is_paired-IsSide (trim v) p)
  | inr p ↦ absurd (ground arith)
]

-- What is stored as a side is one of the six, whatever the client sent.
pub normalize_match_side-IsSide :
    (value : Option Json) (s : Text) → normalize_match_side value ≡ some s → IsSide s
unfolding normalize_match_side
normalize_match_side-IsSide (some (text (c ∷ v))) s h = normalize_text-IsSide (c ∷ v) s h
normalize_match_side-IsSide (some (text [])) s h = cc
normalize_match_side-IsSide _ s h = cc

-- Each of the six sides has an opposite side, another one, whose opposite it is.
pub get_opponent_match_side-opposite :
    {s : Text}
    → IsSide s
    → (t : Text) × (get_opponent_match_side (some s) ≡ some t)
      × (get_opponent_match_side (some t) ≡ some s)
      × IsSide t
      × (s ≢ t)
unfolding get_opponent_match_side text_eq
get_opponent_match_side-opposite boy = (codes "girl", refl, refl, girl, cc)
get_opponent_match_side-opposite girl = (codes "boy", refl, refl, boy, cc)
get_opponent_match_side-opposite alpha = (codes "beta", refl, refl, beta, cc)
get_opponent_match_side-opposite beta = (codes "alpha", refl, refl, alpha, cc)
get_opponent_match_side-opposite p1 = (codes "p2", refl, refl, p2, ground arith)
get_opponent_match_side-opposite p2 = (codes "p1", refl, refl, p1, ground arith)

side_parts : {s : Text} → IsSide s → (c : ℕ) × (r : Text) × (s ≡ c ∷ r) × (plain s ≡ true)
side_parts boy = (_, _, refl, refl)
side_parts girl = (_, _, refl, refl)
side_parts alpha = (_, _, refl, refl)
side_parts beta = (_, _, refl, refl)
side_parts p1 = (_, _, refl, refl)
side_parts p2 = (_, _, refl, refl)

key_of_side :
    (game : Text) {s : Text} → IsSide s → get_match_queue_key game (some s) ≡ game ++ (58 ∷ s)
unfolding get_match_queue_key
key_of_side game boy = refl
key_of_side game girl = refl
key_of_side game alpha = refl
key_of_side game beta = refl
key_of_side game p1 = refl
key_of_side game p2 = refl

no_colon_behind : (a s : Text) → plain (a ++ (58 ∷ s)) ≡ true → ⊥
no_colon_behind [] s h = cc
no_colon_behind (c ∷ a) s h = no_colon_behind a s (ground arith)

colon_splits :
    (a b s t : Text)
    → a ++ (58 ∷ s) ≡ b ++ (58 ∷ t)
    → plain s ≡ true
    → plain t ≡ true
    → (a ≡ b) × (s ≡ t)
colon_splits [] [] s t e p q = (refl, cc)
colon_splits [] (c ∷ b) s t e p q =
    let same : s ≡ b ++ (58 ∷ t) = cc in
    absurd (no_colon_behind b t (subst (λ x. plain x ≡ true) same p))
colon_splits (c ∷ a) [] s t e p q =
    let same : t ≡ a ++ (58 ∷ s) = cc in
    absurd (no_colon_behind a s (subst (λ x. plain x ≡ true) same q))
colon_splits (c ∷ a) (d ∷ b) s t e p q = let (ab, st) = colon_splits a b s t (cc) p q in (cc, st)

-- Two queues with sides have the same key only if both the game and the side are the same.
pub get_match_queue_key-injective :
    (game other : Text) {s t : Text}
    → IsSide s
    → IsSide t
    → get_match_queue_key game (some s) ≡ get_match_queue_key other (some t)
    → (game ≡ other) × (s ≡ t)
get_match_queue_key-injective game other {s} {t} i j e =
    colon_splits game other s t (sym (key_of_side game i) ∙ e ∙ key_of_side other j)
      (side_parts i).3 (side_parts j).3

-- The key of a game's queue for a side is also the key of the queue without a side of the game that
-- is named like that key.
pub get_match_queue_key-collides :
    (game : Text) {s : Text}
    → IsSide s
    → get_match_queue_key game (some s) ≡ get_match_queue_key (game ++ (58 ∷ s)) none
unfolding get_match_queue_key
get_match_queue_key-collides game i = key_of_side game i

-- If a game's id has no colon, it is read back from the key of any of its queues.
pub get_game_id_from_queue_key-key :
    (game : Text) (side : Option Text)
    → plain game ≡ true
    → get_game_id_from_queue_key (get_match_queue_key game side) ≡ game
unfolding get_game_id_from_queue_key get_match_queue_key
get_game_id_from_queue_key-key game none h = ap first_or_empty (split_one 58 game h)
get_game_id_from_queue_key-key game (some []) h = ap first_or_empty (split_one 58 game h)
get_game_id_from_queue_key-key game (some (c ∷ s)) h =
    ap first_or_empty (split-append 58 game (c ∷ s) h)
