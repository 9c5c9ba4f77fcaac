-- ===== src/Lobby/Joins.antt =====
-- `joinLobby` of src/lobby.mjs, and the rosters and seats.
use factory_network_server.Prelude.{
  ◌≡◌, sym, ap, ◌∙◌, true, false, Option, some, arith, ◌==◌, eq_iff, eq_refl, Bool-cases,
  Option-cases, inl, inr, is_some_of, add, or_else,
}
use factory_network_server.Prelude.Texts.{Text, Text_eq, codes}
use factory_network_server.Prelude.Maps.{Map, get?, has, erase, get?-set, has-get?}
use factory_network_server.Js.Values.{Json}
use factory_network_server.State.{Server, Lobby}
use factory_network_server.Transport.{send_to_client}
use factory_network_server.Matchmaking.{leave_queue}
use factory_network_server.LobbyBus.{broadcast_to_lobby, send_lobby_updated}
use factory_network_server.Games.{Registry}
use factory_network_server.Rooms.Seats.{leave_room}
use factory_network_server.Lobby.Hooks.{put_lobby, without_countdown, maybe_start_lobby_countdown}
use factory_network_server.Lobby.Leaving.{leave_lobby, leave_display_lobby}
use factory_network_server.Lobby.Kept.{Inside}
use factory_network_server.Lobby.Leaves.{members_of, roster, leave_seat-AsLeft}
use factory_network_server.Lobby.Seated.{IsSeated}
use factory_network_server.Lobby.Closing.{get?-close_display}
use factory_network_server.Lobby.Creating.{remember_lobby_identity, release_client}
use factory_network_server.Lobby.Enters.{
  seat-AreSeated, put-AreSeated, IsReleased, release_client-IsReleased, inside-leave_room,
}
use factory_network_server.Lobby.Creates.{members-remember_lobby_identity}
use factory_network_server.Lobby.Joining.{
  keep_lobby, refresh_joined, enter_lobby, object_after, join_refusal, join_lobby_found,
  join_lobby_at,
}

module _ {G : Type 0} where
  refresh_joined-IsSeated :
      (code : Text) (lobby : Lobby G) (s : Server G)
      → IsSeated s
      → lobby.members ≡ roster code s.lobbies
      → IsSeated (refresh_joined code lobby s)
  unfolding refresh_joined maybe_start_lobby_countdown without_countdown put_lobby
      send_lobby_updated broadcast_to_lobby
  refresh_joined-IsSeated code lobby s v e = elim (Bool-cases (has code s.lobbies)) [
    | inl h ↦
        rw (h, refresh_joined)
          (put-AreSeated code (without_countdown lobby) s.lobbies s.client_lobbies v e)
    | inr h ↦ rw (h, refresh_joined) v
  ]

  -- The lobby object, if the map holds it, counts the newcomer.
  enter_lobby-IsSeated :
      (client code : Text) (identity : Option Json) (lobby : Lobby G) (s : Server G)
      → IsReleased client s
      → get? code s.lobbies ≡ some lobby
      → IsSeated (enter_lobby client code identity lobby s)
  unfolding enter_lobby keep_lobby put_lobby send_to_client broadcast_to_lobby
  enter_lobby-IsSeated client code identity lobby s v f =
      let joined =
        remember_lobby_identity client identity
          (record lobby { members = add client lobby.members }) in
      let added : joined.members ≡ add client (roster code s.lobbies) =
        members-remember_lobby_identity client identity _
        ∙ ap (λ (o : Option (Lobby G)). add client (members_of o)) (sym f) in
      let there : has code s.lobbies ≡ true = ground (arith, has-get? code s.lobbies, f) in
      refresh_joined-IsSeated code joined _
        (rw there
          (seat-AreSeated client code joined s.lobbies s.client_lobbies v.seated v.unseated added))
        (rw there (ground (arith, get?-set code code joined s.lobbies, eq_refl code)))

  elsewhere-leave_lobby :
      (games : Registry G) (client reason code : Text) (s : Server G)
      → is_some_of (get? client s.client_lobbies) code ≡ false
      → get? code (leave_lobby games client reason s).lobbies ≡ get? code s.lobbies
  unfolding leave_lobby
  elsewhere-leave_lobby games client reason code s ne =
      elim (Option-cases (get? client s.client_lobbies)) [
        | inl e ↦ rw (e, leave_lobby)
        | inr (own, e) ↦ elim (Option-cases (get? own s.lobbies)) [
          | inl f ↦ rw (e, leave_lobby) (rw f)
          | inr (lobby, f) ↦
              let apart : (own == code) ≡ false = ground (arith, e, ne, eq_iff own code) in
              rw (e, leave_lobby)
                (rw f ((leave_seat-AsLeft games client reason own lobby s).others code apart))
        ]
      ]

  elsewhere-leave_display_lobby :
      (games : Registry G) (client code : Text) (s : Server G)
      → is_some_of (get? client s.client_display_lobbies) code ≡ false
      → get? code (leave_display_lobby games client s).lobbies ≡ get? code s.lobbies
  unfolding leave_display_lobby
  elsewhere-leave_display_lobby games client code s ne =
      elim (Option-cases (get? client s.client_display_lobbies)) [
        | inl e ↦ rw (e, leave_display_lobby)
        | inr (own, e) ↦ elim (Option-cases (get? own s.lobbies)) [
          | inl f ↦ rw (e, leave_display_lobby) (rw f)
          | inr (lobby, f) ↦ elim (Bool-cases (is_some_of lobby.display_client_id client)) [
            | inl b ↦
                let t = record s {
                  client_display_lobbies = erase client s.client_display_lobbies;
                } in
                rw (e, leave_display_lobby)
                  (rw f (
                    rw b (
                      ground (
                        arith,
                        e,
                        ne,
                        eq_iff own code,
                        get?-close_display games own code lobby t,
                      ))))
            | inr b ↦ rw (e, leave_display_lobby) (rw f (rw b))
          ]
        ]
      ]

  pub displays-leave_lobby :
      (games : Registry G) (client reason : Text) (s : Server G)
      → (leave_lobby games client reason s).client_display_lobbies ≡ s.client_display_lobbies
  unfolding leave_lobby
  displays-leave_lobby games client reason s = elim (Option-cases (get? client s.client_lobbies)) [
    | inl e ↦ rw (e, leave_lobby)
    | inr (code, e) ↦ elim (Option-cases (get? code s.lobbies)) [
      | inl f ↦ rw (e, leave_lobby) (rw f)
      | inr (lobby, f) ↦
          rw (e, leave_lobby)
            (rw f (leave_seat-AsLeft games client reason code lobby s).same_displays)
    ]
  ]

  -- Where the client is neither in the lobby nor its display, his release leaves it as it is.
  elsewhere-release :
      (games : Registry G) (client room_reason lobby_reason code : Text) (s : Server G)
      → is_some_of (get? client s.client_lobbies) code ≡ false
      → is_some_of (get? client s.client_display_lobbies) code ≡ false
      → let s1 = record s { match_queues = (leave_queue client s.match_queues).1 } in
        let s2 = leave_lobby games client lobby_reason (leave_room client room_reason s1) in
        (get? code s2.lobbies ≡ get? code s.lobbies)
        × (get? code (leave_display_lobby games client s2).lobbies ≡ get? code s.lobbies)
  elsewhere-release games client room_reason lobby_reason code s ne ne' =
      let s1 = record s { match_queues = (leave_queue client s.match_queues).1 } in
      let r = leave_room client room_reason s1 in
      let same = inside-leave_room client room_reason s1 in
      let s2 = leave_lobby games client lobby_reason r in
      let left =
        elsewhere-leave_lobby games client lobby_reason code r
          (ap (λ (i : Inside G). is_some_of (get? client i.client_lobbies) code) same ∙ ne)
        ∙ ap (λ (i : Inside G). get? code i.lobbies) same in
      let displays : s2.client_display_lobbies ≡ s.client_display_lobbies =
        displays-leave_lobby games client lobby_reason r
        ∙ ap (λ (i : Inside G). i.client_display_lobbies) same in
      (
        left,
        elsewhere-leave_display_lobby games client code s2
              (ap (λ (m : Map Text Text). is_some_of (get? client m) code) displays ∙ ne')
            ∙ left,
      )

  or_else-some : (o : Option (Lobby G)) (d : Lobby G) {a : Lobby G} → o ≡ some a → or_else o d ≡ a
  or_else-some o d e = ap (λ (p : Option (Lobby G)). or_else p d) e

  kept_elsewhere :
      (games : Registry G) (client room_reason lobby_reason code : Text) (s : Server G)
      → is_some_of (get? client s.client_lobbies) code ≡ false
      → is_some_of (get? client s.client_display_lobbies) code ≡ false
      → get? code (release_client games client room_reason lobby_reason s).lobbies
        ≡ get? code s.lobbies
  unfolding release_client
  kept_elsewhere games client room_reason lobby_reason code s ne ne' =
      (elsewhere-release games client room_reason lobby_reason code s ne ne').1

  object_after_elsewhere :
      (games : Registry G) (client room_reason lobby_reason code : Text) (lobby : Lobby G)
      (s : Server G)
      → get? code s.lobbies ≡ some lobby
      → is_some_of (get? client s.client_lobbies) code ≡ false
      → is_some_of (get? client s.client_display_lobbies) code ≡ false
      → object_after games client room_reason lobby_reason code lobby s ≡ lobby
  unfolding object_after
  object_after_elsewhere games client room_reason lobby_reason code lobby s f ne ne' =
      let (left, after) = elsewhere-release games client room_reason lobby_reason code s ne ne' in
      or_else-some _ _ (after ∙ f)

  -- Joining the lobby at a code, on every branch, refusals included, keeps the lobbies seated, if
  -- the client neither sits in that lobby nor is its display: a client stands on a lobby's roster
  -- exactly if that lobby is his seat, and on no roster twice.
  pub join_lobby_at-IsSeated :
      (games : Registry G) (client code : Text) (identity expected : Option Json) (s : Server G)
      → IsSeated s
      → is_some_of (get? client s.client_lobbies) code ≡ false
      → is_some_of (get? client s.client_display_lobbies) code ≡ false
      → IsSeated (join_lobby_at games client code identity expected s)
  unfolding join_lobby_at join_lobby_found send_to_client
  join_lobby_at-IsSeated games client code identity expected s v ne ne' =
      elim (Option-cases (get? code s.lobbies)) [
        | inl f ↦ rw (f, join_lobby_at) v
        | inr (lobby, f) ↦ elim (Option-cases (join_refusal expected lobby)) [
          | inr (error, e) ↦ rw (f, join_lobby_at) (rw (e, join_lobby_found) v)
          | inl e ↦
              let held =
                object_after_elsewhere games client (codes "join_lobby") (codes "switch_lobby") code
                  lobby s f ne ne' in
              let t = release_client games client (codes "join_lobby") (codes "switch_lobby") s in
              let kept : get? code t.lobbies ≡ some lobby =
                kept_elsewhere games client (codes "join_lobby") (codes "switch_lobby") code s ne
                  ne'
                ∙ f in
              rw (f, join_lobby_at)
                (rw (e, join_lobby_found)
                  (rw held (
                    enter_lobby-IsSeated client code identity lobby t
                      (release_client-IsReleased games client (codes "join_lobby")
                        (codes "switch_lobby") s v)
                      kept)))
        ]
      ]
