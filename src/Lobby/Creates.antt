-- ===== src/Lobby/Creates.antt =====
-- `createLobby` of src/lobby.mjs, and the rosters and seats.
use mathlib.Core.Path.{subst}
use factory_network_server.Prelude.{
  ◌≡◌, refl, sym, ap, ◌∙◌, Bool, true, false, Option, none, [], ◌∷◌, arith, if◌then◌else◌,
  Option-cases, inl, inr, contains, add,
}
use factory_network_server.Prelude.Texts.{Text, Text_eq, codes}
use factory_network_server.Prelude.Maps.{get?, has-get?}
use factory_network_server.Js.Values.{Json}
use factory_network_server.Js.Convert.{Host}
use factory_network_server.State.{Server, Lobby}
use factory_network_server.Transport.{send_to_client, is_taken, unique_room_code}
use factory_network_server.Transport.Codes.{unique_room_code-untaken}
use factory_network_server.Games.{Registry}
use factory_network_server.Util.{sanitize_lobby_identity}
use factory_network_server.Lobby.Hooks.{put_lobby}
use factory_network_server.Lobby.Leaves.{members_of}
use factory_network_server.Lobby.Seated.{IsSeated}
use factory_network_server.Lobby.Creating.{
  release_client, remember_lobby_identity, new_lobby, enter_new_lobby, build_lobby, read_lobby,
  create_lobby,
}
use factory_network_server.Lobby.Enters.{
  seat-AreSeated, put-AreSeated, IsReleased, release_client-IsReleased,
}

module _ {G : Type 0} where
  pub members-remember_lobby_identity :
      (client : Text) (identity : Option Json) (lobby : Lobby G)
      → (remember_lobby_identity client identity lobby).members ≡ lobby.members
  unfolding remember_lobby_identity
  members-remember_lobby_identity client identity lobby =
      elim (Option-cases (sanitize_lobby_identity identity)) [
        | inl e ↦ rw (e, remember_lobby_identity)
        | inr (p, e) ↦ rw (e, remember_lobby_identity)
      ]

  enter_new_lobby-IsSeated :
      (client : Text) (display : Bool) (identity : Option Json) (code : Text) (lobby : Lobby G)
      (s : Server G)
      → IsReleased client s
      → get? code s.lobbies ≡ none
      → lobby.members ≡ (if display then [] else client ∷ [])
      → IsSeated (enter_new_lobby client display identity code lobby s)
  unfolding enter_new_lobby send_to_client put_lobby add contains
  enter_new_lobby-IsSeated client true identity code lobby s v new e =
      put-AreSeated code lobby s.lobbies s.client_lobbies v.seated (e ∙ ap members_of (sym new))
  enter_new_lobby-IsSeated client false identity code lobby s v new e =
      seat-AreSeated client code (remember_lobby_identity client identity lobby) s.lobbies
        s.client_lobbies v.seated v.unseated
        (members-remember_lobby_identity client identity lobby
          ∙ e
          ∙ ap (λ (o : Option (Lobby G)). add client (members_of o)) (sym new))

  build_lobby-IsSeated :
      (host : Host) (games : Registry G) (client : Text) (get : Text → Option Json)
      (private display : Bool) (code : Text) (s : Server G)
      → IsReleased client s
      → get? code s.lobbies ≡ none
      → IsSeated (build_lobby host games client get private display code s).1
  unfolding build_lobby new_lobby
  build_lobby-IsSeated host games client get private display code s v new =
      elim (Option-cases (read_lobby host games get)) [
        | inl e ↦ rw (e, build_lobby) v.seated
        | inr ((limits, settings, countdown), e) ↦
            rw (e, build_lobby)
              (enter_new_lobby-IsSeated client display (get (codes "identity")) code _ s v new refl)
      ]

  is_taken-lobbies :
      (code : Text) (s : Server G) → is_taken code s ≡ false → get? code s.lobbies ≡ none
  unfolding is_taken
  is_taken-lobbies code s h = ground (arith, has-get? code s.lobbies)

  -- Creating a lobby, as a player or as a display, and also where a conversion throws or no code is
  -- found, keeps the lobbies seated: a client stands on a lobby's roster exactly if that lobby is
  -- his seat, and on no roster twice.
  pub create_lobby-IsSeated :
      (host : Host) (games : Registry G) (client : Text) (get : Text → Option Json)
      (private display : Bool) (s : Server G)
      → IsSeated s
      → IsSeated (create_lobby host games client get private display s).1
  unfolding create_lobby
  create_lobby-IsSeated host games client get private display s v =
      let t = release_client games client (codes "create_lobby") (codes "create_new_lobby") s in
      let w =
        release_client-IsReleased games client (codes "create_lobby") (codes "create_new_lobby") s
          v in
      elim (Option-cases (unique_room_code t)) [
        | inl e ↦ rw (e, create_lobby) w.seated
        | inr ((code, u), e) ↦
            let (fresh, (rest, same)) = unique_room_code-untaken t code u e in
            let w' : IsReleased client u =
              subst (IsReleased client) (sym same)
                (record { seated = w.seated; unseated = w.unseated }) in
            let new : get? code u.lobbies ≡ none =
              ap (λ (x : Server G). get? code x.lobbies) same ∙ is_taken-lobbies code t fresh in
            rw (e, create_lobby)
              (build_lobby-IsSeated host games client get private display code u w' new)
      ]
