-- ===== src/Transport.antt =====
-- src/transport.mjs: sending, and the codes of rooms.
pub mod Codes
use factory_network_server.Prelude.{
  ℕ, zero, suc, ◌+◌, ◌/◌, ◌%◌, ◌++◌, ◌<◌, Bool, true, false, Option, none, some, List, [], ◌∷◌, map,
  if◌then◌else◌, ltb, ◌||◌, length, ◌==◌,
}
use factory_network_server.Prelude.Texts.{Text, codes, Text_eq}
use factory_network_server.Prelude.Maps.{Map, get?, has}
use factory_network_server.State.{
  Server, Net, Socket, Event, sent, closed, terminated, update_socket, Payload,
}

abbrev pub default_max_buffered_amount : ℕ
default_max_buffered_amount = 1048576

-- `ws.close(1013, …)`, and `ws.terminate()` where that throws; the socket is not open from then on.
unfoldable pub shed : ℕ → Net → Net
shed ws n =
    let s = n.socket ws in
    record n {
      socket = update_socket n.socket ws (record s { is_open = false });
      log = (if s.close_throws then terminated ws else closed ws 1013) ∷ n.log;
    }

unfoldable pub push : ℕ → Payload → Net → Net
push ws p n =
    let s = n.socket ws in
    record n {
      socket =
          update_socket n.socket ws
            (record s { buffered_amount = s.buffered_amount + n.queued_bytes ws p });
      log = sent ws p ∷ n.log;
    }

-- `!ws` does not occur: callers have a socket at hand.
unfoldable pub send : ℕ → Payload → Net → Net × Bool
unfolding shed push
send ws p n =
    let s = n.socket ws in
    if s.is_open
    then (if ltb default_max_buffered_amount s.buffered_amount
        then (shed ws n, false)
        else (if s.send_throws then (n, false) else (push ws p n, true)))
    else (n, false)

unfoldable pub send_to : Map Text ℕ → Text → Payload → Net → Net
unfolding send
send_to clients client p n = elim (get? client clients) [ none ↦ n | some ws ↦ (send ws p n).0 ]

-- `memberId === exceptClientId`
abbrev pub is_except : Text → Option Text → Bool
is_except m none = false
is_except m (some e) = m == e

-- One payload to each of the clients but `except`.
unfoldable pub send_all : Map Text ℕ → List Text → Payload → Option Text → Net → Net
unfolding send_to
send_all clients [] p except n = n
send_all clients (m ∷ ms) p except n =
    send_all clients ms p except (if is_except m except then n else send_to clients m p n)

unfoldable pub send_to_client : {G : Type 0} → Text → Payload → Server G → Server G
send_to_client client p s = record s { net = send_to s.clients client p s.net }

-- `send(ws, payload)` of a handler.
unfoldable pub reply : {G : Type 0} → ℕ → Payload → Server G → Server G
reply ws p s = record s { net = (send ws p s.net).0 }

-- A digit of `toString("hex")`.
abbrev hex_digit : ℕ → ℕ
hex_digit n = if ltb n 10 then 48 + n else 87 + n

-- The random bytes in hexadecimal.
unfoldable pub hex : List ℕ → Text
hex [] = []
hex (b ∷ bytes) = hex_digit (b / 16) ∷ hex_digit (b % 16) ∷ hex bytes

-- `makeId` with the bytes that it draws.
unfoldable pub make_id : Text → List ℕ → Text
unfolding hex
make_id prefix bytes = prefix ++ hex bytes

abbrev pub alphabet : Text
alphabet = codes "ABCDEFGHJKLMNPQRSTUVWXYZ23456789"

-- `chars[i]`; a pick below 32 is always in range.
abbrev pub unit_at : ℕ → Text → ℕ
unit_at i [] = 0
unit_at zero (c ∷ s) = c
unit_at (suc i) (c ∷ s) = unit_at i s

unfoldable pub make_room_code : List ℕ → Text
make_room_code picks = map (λ i. unit_at i alphabet) picks

unfoldable pub is_taken : {G : Type 0} → Text → Server G → Bool
is_taken code s = has code s.rooms || has code s.lobbies

-- The loop of `uniqueRoomCode` over the codes to be drawn: the code, and the draws left. `none` is
-- a loop that has not ended with them.
unfoldable pub first_free : (Text → Bool) → List (List ℕ) → Option (Text × List (List ℕ))
first_free taken [] = none
first_free taken (picks ∷ rest) =
    let later = first_free taken rest in
    let code = make_room_code picks in if taken code then later else some (code, rest)

-- The draws that were made are gone.
unfoldable pub with_code :
    {G : Type 0} → Server G → Option (Text × List (List ℕ)) → Option (Text × Server G)
with_code s none = none
with_code s (some (code, rest)) = some (code, record s { draws = rest })

unfoldable pub unique_room_code : {G : Type 0} → Server G → Option (Text × Server G)
unfolding with_code
unique_room_code s = with_code s (first_free (λ code. is_taken code s) s.draws)
