-- ===== src/Transport/Codes.antt =====
-- The codes of src/transport.mjs: how one is found, and how it is read when it is typed.
use factory_network_server.Prelude.{
  ℕ, zero, suc, ◌+◌, ◌≡◌, ◌≢◌, ◌<◌, leb, all, not, length, ◌&&◌, refl, ap, ◌∙◌, Bool, true, false,
  Option, none, some, List, [], ◌∷◌, arith, if◌then◌else◌, Bool-cases, inl, inr, ◌⊎◌, ◌++◌, map,
  contains, distinct, Option-cases, pigeonhole, length-append, contains-append, all-contains, ◌==◌,
  eq_iff,
}
use factory_network_server.Prelude.Texts.{Text, Text_eq, text_eq, text_eq_iff}
use factory_network_server.Js.Strings.{
  trim, to_upper, upper_unit, is_space, has_no_space, trim_of_no_space,
}
use factory_network_server.Prelude.Maps.{get?, keys, has-get?, contains-keys, length-keys}
use factory_network_server.State.{Server}
use factory_network_server.Transport.{
  make_room_code, unit_at, alphabet, is_taken, first_free, unique_room_code, with_code,
}

pub first_free-free :
    (taken : Text → Bool) (draws : List (List ℕ)) (code : Text) (rest : List (List ℕ))
    → first_free taken draws ≡ some (code, rest)
    → taken code ≡ false
unfolding first_free
first_free-free taken [] code rest e = cc
first_free-free taken (picks ∷ draws) code rest e =
    elim (Bool-cases (taken (make_room_code picks))) [
      | inl p ↦ first_free-free taken draws code rest (ground arith)
      | inr p ↦ ground arith
    ]

pub with_code-some :
    {G : Type 0} (s : Server G) (found : Option (Text × List (List ℕ))) (code : Text) (t : Server G)
    → with_code s found ≡ some (code, t)
    → (rest : List (List ℕ)) × (found ≡ some (code, rest)) × (t ≡ record s { draws = rest })
unfolding with_code
with_code-some s none code t e = cc
with_code-some s (some (c, rest)) code t e = (rest, cc, cc)

-- A code that the loop finds names neither a room nor a lobby, and finding it changes nothing of
-- the server.
pub unique_room_code-untaken :
    {G : Type 0} (s : Server G) (code : Text) (t : Server G)
    → unique_room_code s ≡ some (code, t)
    → (is_taken code s ≡ false) × ((rest : List (List ℕ)) × (t ≡ record s { draws = rest }))
unfolding unique_room_code
unique_room_code-untaken s code t e =
    let taken = λ (c : Text). is_taken c s in
    let (rest, found, same) = with_code-some s (first_free taken s.draws) code t e in
    (first_free-free taken s.draws code rest found, (rest, same))

-- One of the codes still to be drawn is free.
abbrev pub SomeFree : (Text → Bool) → List (List ℕ) → Type 0
SomeFree taken [] = ⊥
SomeFree taken (picks ∷ rest) = (taken (make_room_code picks) ≡ false) ⊎ SomeFree taken rest

first_free-found :
    (taken : Text → Bool) (draws : List (List ℕ))
    → SomeFree taken draws
    → first_free taken draws ≢ none
unfolding first_free
first_free-found taken [] h = absurd h
first_free-found taken (picks ∷ draws) (inl p) = ground arith
first_free-found taken (picks ∷ draws) (inr h) = ground (arith, first_free-found taken draws h)

-- If one of the codes still to be drawn is free, the loop finds a code.
pub unique_room_code-SomeFree :
    {G : Type 0} (s : Server G)
    → SomeFree (λ code. is_taken code s) s.draws
    → unique_room_code s ≢ none
unfolding unique_room_code with_code
unique_room_code-SomeFree s h = ground (arith, first_free-found (λ code. is_taken code s) s.draws h)

first_free-split :
    (taken : Text → Bool) (draws : List (List ℕ)) (code : Text) (rest : List (List ℕ))
    → first_free taken draws ≡ some (code, rest)
    → (before : List (List ℕ)) × (picks : List ℕ) × (draws ≡ before ++ picks ∷ rest)
      × (code ≡ make_room_code picks)
      × (all (λ p. taken (make_room_code p)) before ≡ true)
unfolding first_free
first_free-split taken [] code rest e = cc
first_free-split taken (picks ∷ draws) code rest e =
    elim (Bool-cases (taken (make_room_code picks))) [
      | inl p ↦
          let (before, last, split, is, named) =
            first_free-split taken draws code rest (ground arith) in
          (picks ∷ before, last, ap (λ (l : List (List ℕ)). picks ∷ l) split, is, ground arith)
      | inr p ↦ ([], picks, ground arith, ground arith, refl)
    ]

module _ {G : Type 0} (s : Server G) where
  -- The code names a room or a lobby.
  abbrev pub IsNamed : Text → Type 0
  IsNamed code = (get? code s.rooms ≢ none) ⊎ (get? code s.lobbies ≢ none)

  abbrev pub IsUnnamed : Text → Type 0
  IsUnnamed code = (get? code s.rooms ≡ none) × (get? code s.lobbies ≡ none)

  -- Each of the codes does.
  abbrev pub AllNamed : List (List ℕ) → Type 0
  AllNamed [] = Unit
  AllNamed (picks ∷ rest) = IsNamed (make_room_code picks) × AllNamed rest

  is_taken-IsNamed : (code : Text) → is_taken code s ≡ true → IsNamed code
  unfolding is_taken
  is_taken-IsNamed code h = elim (Option-cases (get? code s.rooms)) [
    | inr (r, e) ↦ inl (λ n. ground (arith, e, n))
    | inl e ↦ inr (λ n. ground (arith, has-get? code s.rooms, has-get? code s.lobbies, e, n))
  ]

  is_taken-IsUnnamed : (code : Text) → is_taken code s ≡ false → IsUnnamed code
  unfolding is_taken
  is_taken-IsUnnamed code h =
      (ground (arith, has-get? code s.rooms), ground (arith, has-get? code s.lobbies))

  taken-AllNamed :
      (before : List (List ℕ))
      → all (λ p. is_taken (make_room_code p) s) before ≡ true
      → AllNamed before
  taken-AllNamed [] h = tt
  taken-AllNamed (picks ∷ rest) h =
      (is_taken-IsNamed (make_room_code picks) (ground arith), taken-AllNamed rest (ground arith))

  -- If the loop finds a code, it is the first of the drawn codes that names neither a room nor a
  -- lobby: each code drawn before it names one, and finding it changes nothing of the server but
  -- the draws.
  pub unique_room_code-free :
      (code : Text) (t : Server G)
      → unique_room_code s ≡ some (code, t)
      → IsUnnamed code
        × ((before : List (List ℕ)) × (picks : List ℕ) × (rest : List (List ℕ)) × (s.draws
              ≡ before ++ picks ∷ rest)
            × (code ≡ make_room_code picks)
            × AllNamed before
            × (t ≡ record s { draws = rest }))
  unfolding unique_room_code
  unique_room_code-free code t e =
      let taken = λ (c : Text). is_taken c s in
      let (rest, found, same) = with_code-some s (first_free taken s.draws) code t e in
      let (before, picks, split, is, named) = first_free-split taken s.draws code rest found in
      (
        is_taken-IsUnnamed code (first_free-free taken s.draws code rest found),
        (before, picks, rest, split, is, taken-AllNamed before named, same),
      )

  contains-SomeFree :
      (code : Text) (draws : List (List ℕ))
      → contains code (map make_room_code draws) ≡ true
      → is_taken code s ≡ false
      → SomeFree (λ c. is_taken c s) draws
  unfolding contains
  contains-SomeFree code [] h free = cc
  contains-SomeFree code (picks ∷ draws) h free = elim (Bool-cases (make_room_code picks == code)) [
    | inl e ↦ inl (rw ((eq_iff (make_room_code picks) code).0 e) free)
    | inr e ↦ inr (contains-SomeFree code draws (ground arith) free)
  ]

  unnamed-taken :
      (code : Text)
      → contains code (keys s.rooms ++ keys s.lobbies) ≡ false
      → is_taken code s ≡ false
  unfolding is_taken
  unnamed-taken code h = ground (
    arith,
    contains-append code (keys s.rooms) (keys s.lobbies),
    contains-keys code s.rooms,
    contains-keys code s.lobbies,
  )

  -- If there are more different codes among the draws than rooms and lobbies together, the loop
  -- finds a code, and it names neither a room nor a lobby.
  pub unique_room_code-found :
      (drawn : List Text)
      → distinct drawn ≡ true
      → all (λ c. contains c (map make_room_code s.draws)) drawn ≡ true
      → length s.rooms + length s.lobbies < length drawn
      → (code : Text) × (t : Server G) × (unique_room_code s ≡ some (code, t)) × IsUnnamed code
  unique_room_code-found drawn d among more =
      let (free, here, absent) = pigeonhole drawn (keys s.rooms ++ keys s.lobbies) d (
        omega (
          arith,
          length-append (keys s.rooms) (keys s.lobbies),
          length-keys s.rooms,
          length-keys s.lobbies,
        )) in
      let some_free =
        contains-SomeFree free s.draws
          (all-contains (λ c. contains c (map make_room_code s.draws)) drawn free among here)
          (unnamed-taken free absent) in
      elim (Option-cases (unique_room_code s)) [
        | inl e ↦ absurd (unique_room_code-SomeFree s some_free e)
        | inr ((code, t), e) ↦ (code, t, e, (unique_room_code-free code t e).0)
      ]

-- A room code as a client may type it: each pick beside whether its letter is in lower case.
abbrev pub lower : ℕ → ℕ
lower c = if leb 65 c && leb c 90 then c + 32 else c

abbrev pub typed : List (ℕ × Bool) → Text
typed [] = []
typed ((pick, small) ∷ rest) =
    (if small then lower (unit_at pick alphabet) else unit_at pick alphabet) ∷ typed rest

abbrev pub picks_of : List (ℕ × Bool) → List ℕ
picks_of [] = []
picks_of ((pick, small) ∷ rest) = pick ∷ picks_of rest

abbrev pub InAlphabet : List ℕ → Type 0
InAlphabet [] = Unit
InAlphabet (pick ∷ rest) = (pick < 32) × InAlphabet rest

-- Read back as `c`, and not white space.
reads_as : ℕ → ℕ → Bool
unfolding is_space upper_unit text_eq
reads_as c d = not (is_space d) && text_eq (upper_unit d) (c ∷ [])

unit_at-all :
    (p : ℕ → Bool) (s : Text) (i : ℕ) → all p s ≡ true → i < length s → p (unit_at i s) ≡ true
unit_at-all p [] i h l = absurd (omega arith)
unit_at-all p (c ∷ s) zero h l = ground arith
unit_at-all p (c ∷ s) (suc i) h l = unit_at-all p s i (ground arith) (omega arith)

alphabet_reads : all (λ c. reads_as c c && reads_as c (lower c)) alphabet ≡ true
unfolding reads_as
alphabet_reads = refl

and_parts : (p q : Bool) → (p && q) ≡ true → (p ≡ true) × (q ≡ true)
and_parts p q h = ground arith

reads_as_parts : (c d : ℕ) → reads_as c d ≡ true → (is_space d ≡ false) × (upper_unit d ≡ c ∷ [])
unfolding reads_as
reads_as_parts c d h =
    let (solid, same) = and_parts (not (is_space d)) (text_eq (upper_unit d) (c ∷ [])) h in
    (ground arith, (text_eq_iff (upper_unit d) (c ∷ [])).0 same)

unit_reads :
    (pick : ℕ) (small : Bool)
    → pick < 32
    → reads_as
        (unit_at pick alphabet)
        (if small then lower (unit_at pick alphabet) else unit_at pick alphabet)
      ≡ true
unit_reads pick true l =
    (and_parts _ _
      (unit_at-all (λ c. reads_as c c && reads_as c (lower c)) alphabet pick alphabet_reads l)).1
unit_reads pick false l =
    (and_parts _ _
      (unit_at-all (λ c. reads_as c c && reads_as c (lower c)) alphabet pick alphabet_reads l)).0

typed-has_no_space :
    (ps : List (ℕ × Bool)) → InAlphabet (picks_of ps) → has_no_space (typed ps) ≡ true
typed-has_no_space [] h = refl
typed-has_no_space ((pick, small) ∷ ps) (l, h) =
    rw (reads_as_parts _ _ (unit_reads pick small l)).0 (typed-has_no_space ps h)

to_upper-typed :
    (ps : List (ℕ × Bool))
    → InAlphabet (picks_of ps)
    → to_upper (typed ps) ≡ make_room_code (picks_of ps)
unfolding to_upper make_room_code
to_upper-typed [] h = refl
to_upper-typed ((pick, small) ∷ ps) (l, h) =
    rw (reads_as_parts _ _ (unit_reads pick small l)).1
      (ap (◌∷◌ (unit_at pick alphabet)) (to_upper-typed ps h))

-- A room's code that a client types, each letter in upper or lower case, is read as the code.
pub to_upper-trim-typed :
    (ps : List (ℕ × Bool))
    → InAlphabet (picks_of ps)
    → to_upper (trim (typed ps)) ≡ make_room_code (picks_of ps)
to_upper-trim-typed ps h =
    ap to_upper (trim_of_no_space (typed ps) (typed-has_no_space ps h)) ∙ to_upper-typed ps h
