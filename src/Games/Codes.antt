-- ===== src/Games/Codes.antt =====
-- The codes that games/registry.mjs gives the bridges for their rooms.
use factory_network_server.Prelude.{ℕ, ◌≡◌, false, some, List, arith, any}
use factory_network_server.Prelude.Texts.{Text, Text_eq}
use factory_network_server.State.{Server}
use factory_network_server.Transport.{is_taken, first_free}
use factory_network_server.Transport.Codes.{first_free-free, with_code-some}
use factory_network_server.Games.Bridges.{Entry, is_taken_anywhere, create_room_code, has_room_code}

not_taken :
    {G : Type 0} (es : List Entry) (s : Server G) (code : Text)
    → is_taken_anywhere es code s ≡ false
    → (is_taken code s ≡ false)
      × (any (λ (e : Entry). has_room_code e.route code e.instance) es ≡ false)
unfolding is_taken_anywhere
not_taken es s code h = ground arith

-- A code that the bridges get for a room names no room, no lobby and no room of a bridge, and finding
-- it changes nothing of the server but the draws.
pub create_room_code-free :
    {G : Type 0} (es : List Entry) (s : Server G) (code : Text) (t : Server G)
    → create_room_code es s ≡ some (code, t)
    → (is_taken code s ≡ false)
      × (any (λ (e : Entry). has_room_code e.route code e.instance) es ≡ false)
      × ((rest : List (List ℕ)) × (t ≡ record s { draws = rest }))
unfolding create_room_code
create_room_code-free es s code t e =
    let taken = λ (c : Text). is_taken_anywhere es c s in
    let (rest, found, same) = with_code-some s (first_free taken s.draws) code t e in
    let free = first_free-free taken s.draws code rest found in
    let (nowhere, bridges) = not_taken es s code free in (nowhere, bridges, (rest, same))
