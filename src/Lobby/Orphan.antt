-- ===== src/Lobby/Orphan.antt =====
-- `joinLobby` of src/lobby.mjs where the client is alone in the very lobby that he joins.
use factory_network_server.Prelude.{
  ◌≡◌, ap, ◌∙◌, false, Option, none, some, List, [], ◌∷◌, arith, eq_refl, remove, add,
}
use factory_network_server.Prelude.Texts.{Text, Text_eq, codes}
use factory_network_server.Prelude.Maps.{get?, has, set, get?-set, get?-erase, has-get?}
use factory_network_server.Js.Values.{Json}
use factory_network_server.State.{Server, Lobby}
use factory_network_server.Transport.{send_to_client}
use factory_network_server.Matchmaking.{leave_queue}
use factory_network_server.LobbyBus.{broadcast_to_lobby}
use factory_network_server.Games.{LobbyGame, Registry}
use factory_network_server.Rooms.Seats.{leave_room}
use factory_network_server.Lobby.Leaving.{
  without_member, close_lobby, leave_empty, leave_rest, leave_seat, leave_lobby,
  leave_display_lobby,
}
use factory_network_server.Lobby.Kept.{Inside}
use factory_network_server.Lobby.Creating.{release_client, remember_lobby_identity}
use factory_network_server.Lobby.Joining.{
  keep_lobby, refresh_joined, enter_lobby, join_refusal, join_lobby_found, join_lobby_at,
}
use factory_network_server.Lobby.Enters.{inside-leave_room}
use factory_network_server.Lobby.Joins.{displays-leave_lobby}

module _ {G : Type 0} where
  closed :
      (code : Text) (game : Option (LobbyGame G)) (lobby : Lobby G) (s : Server G)
      → get? code (close_lobby code game lobby s).lobbies ≡ none
  unfolding close_lobby
  closed code game lobby s = get?-erase code code _ ∙ ground (arith, eq_refl code)

  leave_empty_closes :
      (code : Text) (game : Option (LobbyGame G)) (display : Option Text) (left : Lobby G)
      (s : Server G)
      → display ≡ none
      → get? code (leave_empty code game display left s).lobbies ≡ none
  unfolding leave_empty
  leave_empty_closes code game none left s d = closed code game left s
  leave_empty_closes code game (some c) left s d = ground (arith, d)

  leave_rest_closes :
      (code : Text) (game : Option (LobbyGame G)) (client reason : Text) (left : Lobby G)
      (ms : List Text) (s : Server G)
      → ms ≡ []
      → left.display_client_id ≡ none
      → get? code (leave_rest code game client reason left ms s).lobbies ≡ none
  unfolding leave_rest
  leave_rest_closes code game client reason left [] s e d =
      leave_empty_closes code game left.display_client_id left s d
  leave_rest_closes code game client reason left (m ∷ ms) s e d = ground (arith, e)

  leave_seat_closes :
      (games : Registry G) (client reason code : Text) (lobby : Lobby G) (s : Server G)
      → lobby.members ≡ client ∷ []
      → lobby.display_client_id ≡ none
      → get? code (leave_seat games client reason code lobby s).lobbies ≡ none
  unfolding leave_seat without_member remove
  leave_seat_closes games client reason code lobby s e d =
      leave_rest_closes code (games.lobby_game lobby.game_id) client reason
        (without_member client lobby) _ _ (ap (remove client) e ∙ ground (arith, eq_refl client)) d

  leave_lobby_closes :
      (games : Registry G) (client reason code : Text) (lobby : Lobby G) (s : Server G)
      → get? client s.client_lobbies ≡ some code
      → get? code s.lobbies ≡ some lobby
      → lobby.members ≡ client ∷ []
      → lobby.display_client_id ≡ none
      → get? code (leave_lobby games client reason s).lobbies ≡ none
  unfolding leave_lobby
  leave_lobby_closes games client reason code lobby s c f e d =
      rw (c, leave_lobby) (rw f (leave_seat_closes games client reason code lobby s e d))

  no_display :
      (games : Registry G) (client : Text) (s : Server G)
      → get? client s.client_display_lobbies ≡ none
      → leave_display_lobby games client s ≡ s
  unfolding leave_display_lobby
  no_display games client s free = rw (free, leave_display_lobby)

  released :
      (games : Registry G) (client room_reason lobby_reason code : Text) (lobby : Lobby G)
      (s : Server G)
      → get? client s.client_lobbies ≡ some code
      → get? code s.lobbies ≡ some lobby
      → lobby.members ≡ client ∷ []
      → lobby.display_client_id ≡ none
      → get? client s.client_display_lobbies ≡ none
      → get? code (release_client games client room_reason lobby_reason s).lobbies ≡ none
  unfolding release_client
  released games client room_reason lobby_reason code lobby s c f e d free =
      let s1 = record s { match_queues = (leave_queue client s.match_queues).1 } in
      let r = leave_room client room_reason s1 in
      let same = inside-leave_room client room_reason s1 in
      let displays : get? client (leave_lobby games client lobby_reason r).client_display_lobbies
          ≡ none =
        ap (get? client) (displays-leave_lobby games client lobby_reason r)
        ∙ ap (λ (i : Inside G). get? client i.client_display_lobbies) same
        ∙ free in
      ap (λ (t : Server G). get? code t.lobbies) (no_display games client _ displays)
      ∙ leave_lobby_closes games client lobby_reason code lobby r
          (ap (λ (i : Inside G). get? client i.client_lobbies) same ∙ c)
          (ap (λ (i : Inside G). get? code i.lobbies) same ∙ f) e d

  keep_lobby_absent :
      (code : Text) (lobby : Lobby G) (s : Server G)
      → has code s.lobbies ≡ false
      → keep_lobby code lobby s ≡ s
  unfolding keep_lobby
  keep_lobby_absent code lobby s gone = rw (gone, keep_lobby)

  refresh_joined_absent :
      (code : Text) (lobby : Lobby G) (s : Server G)
      → has code s.lobbies ≡ false
      → refresh_joined code lobby s ≡ s
  unfolding refresh_joined
  refresh_joined_absent code lobby s gone = rw (gone, refresh_joined)

  enter_lobby_absent :
      (client code : Text) (identity : Option Json) (lobby : Lobby G) (s : Server G)
      → get? code s.lobbies ≡ none
      → let t = enter_lobby client code identity lobby s in
        (get? client t.client_lobbies ≡ some code) × (get? code t.lobbies ≡ none)
  unfolding enter_lobby send_to_client broadcast_to_lobby
  enter_lobby_absent client code identity lobby s f =
      let gone : has code s.lobbies ≡ false = ground (arith, has-get? code s.lobbies, f) in
      let seated = record s { client_lobbies = set client code s.client_lobbies } in
      let joined =
        remember_lobby_identity client identity
          (record lobby { members = add client lobby.members }) in
      let k = keep_lobby_absent code joined seated gone in
      let still : has code (keep_lobby code joined seated).lobbies ≡ false =
        ap (λ (t : Server G). has code t.lobbies) k ∙ gone in
      (
        ap (λ (t : Server G). get? client t.client_lobbies)
              (refresh_joined_absent code joined _ still)
            ∙ ap (λ (t : Server G). get? client t.client_lobbies) k
            ∙ ground (arith, get?-set client client code s.client_lobbies, eq_refl client),
        ap (λ (t : Server G). get? code t.lobbies) (refresh_joined_absent code joined _ still)
            ∙ ap (λ (t : Server G). get? code t.lobbies) k
            ∙ f,
      )

  -- If a client alone in a lobby without a display, himself no display, joins that very lobby and
  -- nothing refuses it, he ends with a seat at a code where the server has no lobby.
  pub join_lobby_at_orphan :
      (games : Registry G) (client code : Text) (identity expected : Option Json) (lobby : Lobby G)
      (s : Server G)
      → get? client s.client_lobbies ≡ some code
      → get? code s.lobbies ≡ some lobby
      → lobby.members ≡ client ∷ []
      → lobby.display_client_id ≡ none
      → get? client s.client_display_lobbies ≡ none
      → join_refusal expected lobby ≡ none
      → let t = join_lobby_at games client code identity expected s in
        (get? client t.client_lobbies ≡ some code) × (get? code t.lobbies ≡ none)
  unfolding join_lobby_at join_lobby_found
  join_lobby_at_orphan games client code identity expected lobby s c f e d free open_here =
      rw (f, join_lobby_at)
        (rw (open_here, join_lobby_found)
          (enter_lobby_absent client code identity _ _ (
            released games client (codes "join_lobby") (codes "switch_lobby") code lobby s c f e d
              free)))
