-- ===== src/Router/Served.antt =====
-- Every message and every disconnect of src/router.mjs, and the maps of rooms and queues.
use mathlib.Core.Path.{subst}
use factory_network_server.Prelude.{
  ℕ, ◌<◌, eq_iff, ◌≡◌, refl, sym, ◌∙◌, Option, none, some, arith, Option-cases, inl, inr,
}
use factory_network_server.Prelude.Texts.{Text, codes, Text_eq}
use factory_network_server.Prelude.Maps.{get?}
use factory_network_server.Js.Values.{Json, Fields, get_field}
use factory_network_server.Js.Convert.{Host}
use factory_network_server.State.{Server, Lobby}
use factory_network_server.Transport.{reply}
use factory_network_server.LobbyBus.{broadcast_to_lobby, send_lobby_updated}
use factory_network_server.Matchmaking.{Queues}
use factory_network_server.Matchmaking.Waiting.{waiting, IsSingle}
use factory_network_server.Games.{LobbyGame, Registry, Reply, unhandled, handled, threw, refused}
use factory_network_server.Lobby.Hooks.{put_lobby}
use factory_network_server.Lobby.Frame.{outside, outside-if, outside-run_change, outside-run_hook}
use factory_network_server.Lobby.Quiet.{outside-resume_lobby_client}
use factory_network_server.Lobby.Joining.{text_or_empty}
use factory_network_server.Lobby.Sessions.{resume_lobby_client}
use factory_network_server.Rooms.Joining.{join_room}
use factory_network_server.Rooms.Joins.{join_room-IsConsistent}
use factory_network_server.Rooms.Others.{join_room-LeavesOthers}
use factory_network_server.Router.Reconnect.{
  tell_reconnected, tell_resumed, hand_over, answer_resumed, resume_lobby_message,
}
use factory_network_server.Router.Messages.{
  text_or_nothing, relay, answer_reply, give_to_game, game_of, send_lobby_message,
  lobby_message_handler, remember_profile,
}
use factory_network_server.Router.Orderly.{IsOrderly, IsOrderly-outside}

module _ {G : Type 0} (games : Registry G) (client : Text) (ws : ℕ) where
  outside-tell_reconnected :
      (game : LobbyGame G) (lobby : Lobby G) (s : Server G)
      → outside (tell_reconnected game lobby s) ≡ outside s
  unfolding tell_reconnected
  outside-tell_reconnected game lobby s = elim (Option-cases game.broadcast_after_reconnect) [
    | inl e ↦ rw (e, tell_reconnected) (outside-run_hook lobby.room_code (some game) _ lobby s)
    | inr (hook, e) ↦
        let told = outside-run_change lobby.room_code lobby (hook lobby).0 s in
        rw (e, tell_reconnected)
          (outside-if (hook lobby).1 _ _ told (outside-run_hook _ (some game) _ _ _ ∙ told))
  ]

  pub outside-tell_resumed :
      (game : Option (LobbyGame G)) (lobby : Lobby G) (s : Server G)
      → outside (tell_resumed game lobby s) ≡ outside s
  unfolding tell_resumed send_lobby_updated broadcast_to_lobby
  outside-tell_resumed none lobby s = refl
  outside-tell_resumed (some game) lobby s =
      outside-if _ _ _ (outside-tell_reconnected game lobby s) refl

  -- Only the sockets of the two ids change.
  answer_resumed-IsOrderly :
      (previous : Text) (resumed : Option (Lobby G)) (s : Server G)
      → IsOrderly s
      → IsOrderly (answer_resumed games client previous ws (resumed, s))
  unfolding answer_resumed hand_over reply
  answer_resumed-IsOrderly previous none s v = v
  answer_resumed-IsOrderly previous (some lobby) s v =
      let t = hand_over client previous ws s in
      IsOrderly-outside (tell_resumed (games.lobby_game lobby.game_id) lobby t) t
        (outside-tell_resumed (games.lobby_game lobby.game_id) lobby t) v

  pub resume_lobby_message-IsOrderly :
      (host : Host) (frame : Fields) (s : Server G)
      → IsOrderly s
      → IsOrderly (resume_lobby_message host games client ws frame s).1
  unfolding resume_lobby_message
  resume_lobby_message-IsOrderly host frame s v =
      elim (Option-cases (text_or_empty host (get_field (codes "clientId") frame))) [
        | inl e ↦ rw (e, resume_lobby_message) v
        | inr (previous, e) ↦
            elim (Option-cases (text_or_empty host (get_field (codes "sessionToken") frame))) [
              | inl f ↦ rw (e, resume_lobby_message) (rw f v)
              | inr (token, f) ↦
                  rw (e, resume_lobby_message)
                    (rw f (
                      answer_resumed-IsOrderly previous _ _ (
                        IsOrderly-outside (resume_lobby_client games previous token s).1 s
                          (outside-resume_lobby_client games previous token s) v)))
            ]
      ]

  module _ (parse : Text → Option Json) where
    outside-answer_reply :
        (answer : Reply) (code message_type value : Text) (s : Server G)
        → outside (answer_reply parse client ws answer code message_type value s).1 ≡ outside s
    unfolding answer_reply relay broadcast_to_lobby reply
    outside-answer_reply unhandled code message_type value s = refl
    outside-answer_reply handled code message_type value s = refl
    outside-answer_reply threw code message_type value s = refl
    outside-answer_reply (refused error) code message_type value s = refl

    outside-give_to_game :
        (game : LobbyGame G) (lobby : Lobby G) (code message_type value : Text) (s : Server G)
        → outside (give_to_game parse client ws game lobby code message_type value s).1 ≡ outside s
    unfolding give_to_game relay broadcast_to_lobby put_lobby
    outside-give_to_game game lobby code message_type value s =
        let known = remember_profile parse client ws message_type value lobby in
        elim (Option-cases game.handle_message) [
          | inl e ↦ rw (e, give_to_game)
          | inr (hook, e) ↦
              rw (e, give_to_game)
                (outside-answer_reply (hook known client message_type value).1 code message_type
                    value _
                  ∙ outside-run_change code known (hook known client message_type value).0
                      (put_lobby code known s))
        ]

    outside-send_lobby_message :
        (code message_type value : Text) (s : Server G)
        → outside (send_lobby_message parse client ws games code message_type value s).1 ≡ outside s
    unfolding send_lobby_message relay broadcast_to_lobby
    outside-send_lobby_message code message_type value s =
        elim (Option-cases (game_of parse client ws games (get? code s.lobbies))) [
          | inl e ↦ rw (e, send_lobby_message)
          | inr ((game, lobby), e) ↦
              rw (e, send_lobby_message) (outside-give_to_game game lobby code message_type value s)
        ]

    -- A message to a lobby, whatever its game module answers.
    pub outside-lobby_message_handler :
        (host : Host) (frame : Fields) (s : Server G)
        → outside (lobby_message_handler parse client ws host games frame s).1 ≡ outside s
    unfolding lobby_message_handler reply
    outside-lobby_message_handler host frame s =
        elim (Option-cases (get? client s.client_lobbies)) [
          | inl e ↦ rw (e, lobby_message_handler)
          | inr (code, e) ↦
              elim (Option-cases (text_or_empty host (get_field (codes "messageType") frame))) [
                | inl f ↦ rw (e, lobby_message_handler) (rw f)
                | inr (message_type, f) ↦
                    elim (Option-cases (text_or_nothing host (get_field (codes "value") frame))) [
                      | inl g ↦ rw (e, lobby_message_handler) (rw f (rw g))
                      | inr (value, g) ↦
                          rw (e, lobby_message_handler)
                            (rw f (rw g (outside-send_lobby_message code message_type value s)))
                    ]
              ]
        ]

  -- If the server is orderly and the client stands in no match queue, joining a room, on every
  -- branch, keeps the server orderly.
  pub join_room-IsOrderly :
      (code : Text) (side game : Option Json) (s : Server G)
      → IsOrderly s
      → waiting client s.match_queues ≡ 0
      → IsOrderly (join_room games client code side game s)
  join_room-IsOrderly code side game s v out =
      let others = join_room-LeavesOthers games client code side game s in
      record {
        consistent = join_room-IsConsistent games client code side game s v.consistent;
        single = subst IsSingle (sym others.queues) v.single;
        idle = λ a w.
            let before : 0 < waiting a s.match_queues =
              subst (λ (q : Queues). 0 < waiting a q) others.queues w in
            ground (arith, eq_iff client a, out, before, others.seats a, v.idle a before);
      }
