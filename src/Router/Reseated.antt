-- ===== src/Router/Reseated.antt =====
-- The server after `resume_lobby` of src/router.mjs has given a seat back, and after a lost socket
-- and the return within the time.
use mathlib.Core.Path.{subst}
use factory_network_server.Prelude.{
  ℕ, ◌<◌, ◌≡◌, ◌≢◌, refl, sym, ap, ◌∙◌, Option, none, some, arith, eq_refl, eq_iff,
}
use factory_network_server.Prelude.Texts.{Text, codes, Text_eq}
use factory_network_server.Prelude.Maps.{get?, erase, get?-set, get?-erase}
use factory_network_server.Js.Values.{Fields, get_field}
use factory_network_server.Js.Convert.{Host}
use factory_network_server.State.{Server, Lobby, Suspension}
use factory_network_server.Transport.{reply}
use factory_network_server.Games.{Registry}
use factory_network_server.Matchmaking.Waiting.{waiting}
use factory_network_server.Lobby.Frame.{Outside, outside}
use factory_network_server.Lobby.Leaving.{clear_suspended_lobby_session}
use factory_network_server.Lobby.Quiet.{outside-resume_lobby_client}
use factory_network_server.Lobby.Creating.{returned}
use factory_network_server.Lobby.Joining.{text_or_empty}
use factory_network_server.Lobby.Sessions.{resume_seat}
use factory_network_server.Router.Reconnect.{
  tell_resumed, hand_over, answer_resumed, resume_lobby_message,
}
use factory_network_server.Router.Served.{outside-tell_resumed}
use factory_network_server.Router.Resumed.{
  Seating, seating, IsResumable, resume_lobby_client-IsResumable, seating-resume_seat,
  seating-tell_resumed,
}

module _ {G : Type 0} (host : Host) (games : Registry G) (client previous token : Text) (ws : ℕ)
    (frame : Fields) where
  -- The frame names the old id and its token.
  pub record Claims : Type 0 where
    pub id : text_or_empty host (get_field (codes "clientId") frame) ≡ some previous
    pub secret : text_or_empty host (get_field (codes "sessionToken") frame) ≡ some token

  -- The seat is the old id's again, and so is the socket of the new one, who has none.
  pub record IsReseated (code : Text) (t : Server G) : Type 0 where
    pub socket : get? previous t.clients ≡ some ws
    pub forgotten : get? client t.clients ≡ none
    pub seated : get? previous t.client_lobbies ≡ some code
    pub active : get? previous t.suspended_lobby_sessions ≡ none
    pub trusted : get? previous t.client_session_tokens ≡ some token

  -- The server when the seat is taken and the sockets are handed over.
  abbrev handed : Suspension → Lobby G → Server G → Server G
  handed kept lobby s =
      hand_over client previous ws (resume_seat games previous kept.room_code lobby s).1

  handed-IsReseated :
      (kept : Suspension) (lobby : Lobby G) (s : Server G)
      → IsResumable previous token kept lobby s
      → client ≢ previous
      → IsReseated lobby.room_code (handed kept lobby s)
  unfolding hand_over clear_suspended_lobby_session
  handed-IsReseated kept lobby s r ne =
      let u = (resume_seat games previous kept.room_code lobby s).1 in
      let same = seating-resume_seat games previous kept.room_code lobby s in
      record {
        socket =
            ground
              (arith, get?-set previous previous ws (erase client u.clients), eq_refl previous);
        forgotten = ground (
          arith,
          get?-set previous client ws (erase client u.clients),
          get?-erase client client u.clients,
          eq_refl client,
          eq_iff previous client,
          ne,
        );
        seated = ap (λ (o : Seating). get? previous o.client_lobbies) same ∙ r.seated;
        active =
            ap (λ (o : Seating). get? previous o.suspended_lobby_sessions) same
            ∙ ground
                (arith, get?-erase previous previous s.suspended_lobby_sessions, eq_refl previous);
        trusted = ground (
          arith,
          get?-erase client previous u.client_session_tokens,
          ap (λ (o : Seating). get? previous o.client_session_tokens) same,
          r.right_token,
          eq_iff client previous,
          ne,
        );
      }

  IsReseated-seating :
      (code : Text) (t u : Server G) → seating u ≡ seating t → IsReseated code t → IsReseated code u
  IsReseated-seating code t u e r = record {
    socket = ap (λ (o : Seating). get? previous o.clients) e ∙ r.socket;
    forgotten = ap (λ (o : Seating). get? client o.clients) e ∙ r.forgotten;
    seated = ap (λ (o : Seating). get? previous o.client_lobbies) e ∙ r.seated;
    active = ap (λ (o : Seating). get? previous o.suspended_lobby_sessions) e ∙ r.active;
    trusted = ap (λ (o : Seating). get? previous o.client_session_tokens) e ∙ r.trusted;
  }

  resume_lobby_message-eq :
      (kept : Suspension) (lobby : Lobby G) (s : Server G)
      → Claims
      → IsResumable previous token kept lobby s
      → resume_lobby_message host games client ws frame s ≡ (
          let (played, t) = resume_seat games previous kept.room_code lobby s in
          (returned, answer_resumed games client previous ws (some played, t)))
  unfolding resume_lobby_message
  resume_lobby_message-eq kept lobby s c r =
      rw (c.id, resume_lobby_message)
        (rw c.secret (rw (resume_lobby_client-IsResumable games previous token kept lobby s r)))

  -- If the frame names a suspended seat whose time is not over, its token is right, its lobby is
  -- still there, and the connection has another id, then the handler returns, and the old id has the
  -- connection's socket, its seat and its token again, the seat is suspended no more, and the
  -- connection's first id has no socket.
  pub resume_lobby_message-IsReseated :
      (kept : Suspension) (lobby : Lobby G) (s : Server G)
      → Claims
      → IsResumable previous token kept lobby s
      → client ≢ previous
      → let (ending, t) = resume_lobby_message host games client ws frame s in
        (ending ≡ returned) × IsReseated lobby.room_code t
  unfolding answer_resumed reply
  resume_lobby_message-IsReseated kept lobby s c r ne =
      let (played, u) = resume_seat games previous kept.room_code lobby s in
      let told = tell_resumed (games.lobby_game played.game_id) played (handed kept lobby s) in
      rw (resume_lobby_message-eq kept lobby s c r) (
        refl,
        IsReseated-seating lobby.room_code (handed kept lobby s) _
            (seating-tell_resumed (games.lobby_game played.game_id) played (handed kept lobby s))
            (handed-IsReseated kept lobby s r ne),
      )

  outside-answer_resumed :
      (lobby : Lobby G) (s : Server G)
      → outside (answer_resumed games client previous ws (some lobby, s))
        ≡ outside (hand_over client previous ws s)
  unfolding answer_resumed reply
  outside-answer_resumed lobby s =
      outside-tell_resumed games client ws (games.lobby_game lobby.game_id) lobby
        (hand_over client previous ws s)

  -- If a connection whose id stands in a match queue resumes the suspended seat of another id, with
  -- the right token, before the time is over and while the lobby is there, its first id still
  -- stands in the queue afterwards, although it has no socket any more.
  pub resume_lobby_message_ghost :
      (kept : Suspension) (lobby : Lobby G) (s : Server G)
      → Claims
      → IsResumable previous token kept lobby s
      → client ≢ previous
      → 0 < waiting client s.match_queues
      → let t = (resume_lobby_message host games client ws frame s).1 in
        (get? client t.clients ≡ none) × (0 < waiting client t.match_queues)
  unfolding hand_over
  resume_lobby_message_ghost kept lobby s c r ne w =
      let (played, u) = resume_seat games previous kept.room_code lobby s in
      let same : outside u ≡ outside s =
        ap (λ (p : Option (Lobby G) × Server G). outside p.1)
          (sym (resume_lobby_client-IsResumable games previous token kept lobby s r))
        ∙ outside-resume_lobby_client games previous token s in
      let e = resume_lobby_message-eq kept lobby s c r in
      let queues =
        ap (λ (o : Outside). waiting client o.match_queues) (outside-answer_resumed played u)
        ∙ ap (λ (o : Outside). waiting client o.match_queues) same in
      (
        (resume_lobby_message-IsReseated kept lobby s c r ne).1.forgotten,
        rw e (subst (λ (n : ℕ). 0 < n) (sym queues) w),
      )
