-- ===== src/Router/Returns.antt =====
-- A lost socket whose client plays in a lobby that keeps lost seats: what `handleClientDisconnect` of
-- src/router.mjs leaves for his return, and the return.
use mathlib.Core.Path.{subst}
use factory_network_server.Prelude.{
  ℕ, ◌+◌, ◌<◌, ◌≡◌, ◌≢◌, refl, sym, ap, ◌∙◌, Bool, true, false, Option, none, some, arith,
  if◌then◌else◌, eq_refl,
}
use factory_network_server.Prelude.Texts.{Text, Text_eq}
use factory_network_server.Prelude.Maps.{get?, set, has, has-get?, get?-set}
use factory_network_server.Js.Values.{Fields}
use factory_network_server.Js.Convert.{Host}
use factory_network_server.State.{Server, Lobby, Suspension}
use factory_network_server.LobbyBus.{broadcast_to_lobby}
use factory_network_server.Games.{Change, LobbyGame, Registry}
use factory_network_server.Lobby.Hooks.{put_lobby, changed, run_change, run_hook}
use factory_network_server.Lobby.Kept.{Inside, inside-send_game_all}
use factory_network_server.Lobby.Leaving.{disconnect_match, leave_display_lobby}
use factory_network_server.Lobby.Creating.{returned}
use factory_network_server.Lobby.Sessions.{
  reconnect_grace_ms, can_suspend, suspend_seat, suspend_lobby_client,
}
use factory_network_server.Router.Reconnect.{resume_lobby_message}
use factory_network_server.Router.Disconnect.{
  leave_play, leave_or_suspend, forget_client, is_suspended, handle_client_disconnect,
  disconnect_present,
}
use factory_network_server.Router.Resumed.{
  Seating, seating, seating-if, seating-run_change, seating-run_hook,
}
use factory_network_server.Router.Reseated.{Claims, IsReseated, resume_lobby_message-IsReseated}
use factory_network_server.Router.Suspended.{LobbySide, lobby_side, side-leave_play}

module _ {G : Type 0} where
  -- The map holds a lobby of that name at its code.
  abbrev Holds : Text → Server G → Type 0
  Holds code s = (l : Lobby G) × (get? code s.lobbies ≡ some l) × (l.room_code ≡ code)

  run_change-Holds :
      (code : Text) (lobby : Lobby G) (c : Change G) (s : Server G)
      → lobby.room_code ≡ code
      → Holds code (run_change code lobby c s).1
  unfolding run_change put_lobby
  run_change-Holds code lobby c s e =
      let after = changed lobby c in
      let put = put_lobby code after s in
      (
        after,
        ap (λ (i : Inside G). get? code i.lobbies) (inside-send_game_all after c.sends put)
            ∙ ground (arith, get?-set code code after s.lobbies, eq_refl code),
        e,
      )

  run_hook-Holds :
      (code : Text) (game : Option (LobbyGame G)) (hook : LobbyGame G → Lobby G → Change G)
      (lobby : Lobby G) (s : Server G)
      → Holds code s
      → lobby.room_code ≡ code
      → Holds code (run_hook code game hook lobby s).1
  unfolding run_hook
  run_hook-Holds code none hook lobby s h e = h
  run_hook-Holds code (some g) hook lobby s h e = run_change-Holds code lobby (hook g lobby) s e

  disconnect_match-Holds :
      (code : Text) (game : Option (LobbyGame G)) (client : Text) (now : ℕ) (lobby : Lobby G)
      (s : Server G)
      → Holds code s
      → lobby.room_code ≡ code
      → let (played, t) = (disconnect_match code game client now lobby s).0 in
        Holds code t × (played.room_code ≡ code)
  unfolding disconnect_match run_change
  disconnect_match-Holds code none client now lobby s h e = (h, e)
  disconnect_match-Holds code (some g) client now lobby s h e =
      (run_change-Holds code lobby (g.apply_disconnect lobby client now).0 s e, e)

  seating-disconnect_match :
      (code : Text) (game : Option (LobbyGame G)) (client : Text) (now : ℕ) (lobby : Lobby G)
      (s : Server G)
      → seating (disconnect_match code game client now lobby s).0.1 ≡ seating s
  unfolding disconnect_match
  seating-disconnect_match code none client now lobby s = refl
  seating-disconnect_match code (some g) client now lobby s =
      seating-run_change code lobby (g.apply_disconnect lobby client now).0 s

  Holds-if :
      (b : Bool) (code : Text) (s t : Server G)
      → Holds code s
      → Holds code t
      → Holds code (if b then s else t)
  Holds-if true code s t p q = p
  Holds-if false code s t p q = q

module _ {G : Type 0} (games : Registry G) (client reason token code : Text) (lobby : Lobby G) where
  -- The client sits in a lobby whose match has started and whose game keeps lost seats.
  pub record IsPlaying (s : Server G) : Type 0 where
    pub seated : get? client s.client_lobbies ≡ some code
    pub there : get? code s.lobbies ≡ some lobby
    pub named : lobby.room_code ≡ code
    pub suspendable : can_suspend games client lobby s ≡ true
    pub no_display : get? client s.client_display_lobbies ≡ none
    pub trusted : get? client s.client_session_tokens ≡ some token

  abbrev grace : ℕ
  grace = reconnect_grace_ms (games.lobby_game lobby.game_id)

  -- What is kept for the client who is gone.
  record IsKept (time : ℕ) (s : Server G) : Type 0 where
    suspended :
        get? client s.suspended_lobby_sessions
        ≡ some (record { room_code = code; expires_at = time + grace })
    seated : get? client s.client_lobbies ≡ some code
    there : Holds code s
    no_display : get? client s.client_display_lobbies ≡ none
    trusted : get? client s.client_session_tokens ≡ some token

  IsPlaying-side : (s t : Server G) → lobby_side t ≡ lobby_side s → IsPlaying s → IsPlaying t
  unfolding can_suspend
  IsPlaying-side s t e p = record {
    seated = ap (λ (o : LobbySide G). get? client o.client_lobbies) e ∙ p.seated;
    there = ap (λ (o : LobbySide G). get? code o.lobbies) e ∙ p.there;
    named = p.named;
    suspendable =
        ground
          (arith, p.suspendable, ap (λ (o : LobbySide G). has client o.suspended_lobby_sessions) e);
    no_display = ap (λ (o : LobbySide G). get? client o.client_display_lobbies) e ∙ p.no_display;
    trusted = ap (λ (o : LobbySide G). get? client o.client_session_tokens) e ∙ p.trusted;
  }

  suspend_seat-IsKept :
      (s : Server G) → IsPlaying s → IsKept s.now (suspend_seat games client reason code lobby s)
  unfolding suspend_seat broadcast_to_lobby
  suspend_seat-IsKept s p =
      let game = games.lobby_game lobby.game_id in
      let out = disconnect_match code game client s.now lobby s in
      let (held, name) =
        disconnect_match-Holds code game client s.now lobby s (lobby, p.there, p.named) p.named in
      let kept : Suspension = record { room_code = code; expires_at = s.now + grace } in
      let u = record out.0.1 {
        suspended_lobby_sessions = set client kept out.0.1.suspended_lobby_sessions;
      } in
      let same = seating-disconnect_match code game client s.now lobby s in
      let told : seating (suspend_seat games client reason code lobby s) ≡ seating u =
        seating-if out.1 _ _ (seating-run_hook code game _ _ _) refl in
      record {
        suspended =
            ap (λ (o : Seating). get? client o.suspended_lobby_sessions) told
            ∙ ground (
              arith,
              get?-set client client kept out.0.1.suspended_lobby_sessions,
              eq_refl client,
            );
        seated =
            ap (λ (o : Seating). get? client o.client_lobbies) told
            ∙ ap (λ (o : Seating). get? client o.client_lobbies) same
            ∙ p.seated;
        there = Holds-if out.1 code _ _ (run_hook-Holds code game _ out.0.0 _ held name) held;
        no_display =
            ap (λ (o : Seating). get? client o.client_display_lobbies) told
            ∙ ap (λ (o : Seating). get? client o.client_display_lobbies) same
            ∙ p.no_display;
        trusted =
            ap (λ (o : Seating). get? client o.client_session_tokens) told
            ∙ ap (λ (o : Seating). get? client o.client_session_tokens) same
            ∙ p.trusted;
      }

  suspend_lobby_client-IsPlaying :
      (s : Server G)
      → IsPlaying s
      → suspend_lobby_client games client reason s
        ≡ (true, suspend_seat games client reason code lobby s)
  unfolding suspend_lobby_client
  suspend_lobby_client-IsPlaying s p =
      rw (p.seated, suspend_lobby_client) (rw p.there (rw p.suspendable))

  no_display-leave_display_lobby :
      (s : Server G)
      → get? client s.client_display_lobbies ≡ none
      → leave_display_lobby games client s ≡ s
  unfolding leave_display_lobby
  no_display-leave_display_lobby s e = rw (e, leave_display_lobby)

  leave_or_suspend-IsKept :
      (s : Server G) → IsPlaying s → IsKept s.now (leave_or_suspend games client reason s)
  unfolding leave_or_suspend
  leave_or_suspend-IsKept s p =
      let k = suspend_seat-IsKept s p in
      rw (suspend_lobby_client-IsPlaying s p, leave_or_suspend)
        (rw
          (no_display-leave_display_lobby (suspend_seat games client reason code lobby s)
            k.no_display)
          k)

  forget_client-IsKept :
      (time : ℕ) (s : Server G) → IsKept time s → IsKept time (forget_client client s)
  unfolding forget_client
  forget_client-IsKept time s k = record {
    suspended = k.suspended;
    seated = k.seated;
    there = k.there;
    no_display = k.no_display;
    trusted = ground (arith, k.trusted, k.suspended, has-get? client s.suspended_lobby_sessions);
  }

  disconnect-IsKept :
      (s : Server G)
      → IsPlaying s
      → IsKept s.now (handle_client_disconnect games none client reason s)
  unfolding is_suspended can_suspend
  disconnect-IsKept s p =
      let t = leave_play none client reason s in
      let same = side-leave_play client reason s in
      let fresh : is_suspended client s ≡ false = ground (arith, p.suspendable) in
      rw (disconnect_present games none client reason s fresh) (
        forget_client-IsKept s.now (leave_or_suspend games client reason t) (
          subst (λ (n : ℕ). IsKept n (leave_or_suspend games client reason t))
            (ap (λ (o : LobbySide G). o.now) same)
            (leave_or_suspend-IsKept t (IsPlaying-side s t same p))))

  -- If a client whom no bridge owns loses his socket while he plays in a lobby that keeps lost
  -- seats, and a connection with another id names his id and token before the game's time is over,
  -- and nothing happens in between but that time passes, the handler returns, and he has that
  -- connection's socket and his seat and token again.
  pub disconnect-resume_lobby_message :
      (host : Host) (fresh : Text) (ws later : ℕ) (frame : Fields) (s : Server G)
      → IsPlaying s
      → later < s.now + grace
      → Claims host games fresh client token ws frame
      → fresh ≢ client
      → let gone = handle_client_disconnect games none client reason s in
        let (ending, t) =
          resume_lobby_message host games fresh ws frame (record gone { now = later }) in
        (ending ≡ returned) × IsReseated host games fresh client token ws frame code t
  disconnect-resume_lobby_message host fresh ws later frame s p soon c ne =
      let gone = handle_client_disconnect games none client reason s in
      let back = record gone { now = later } in
      let k = disconnect-IsKept s p in
      let (held, there, name) = k.there in
      let kept : Suspension = record { room_code = code; expires_at = s.now + grace } in
      let (done, seat) =
        resume_lobby_message-IsReseated host games fresh client token ws frame kept held back c
          (record {
            suspended = k.suspended;
            in_time = soon;
            right_token = k.trusted;
            there = there;
            seated = k.seated ∙ ap some (sym name);
          })
          ne in
      let t = (resume_lobby_message host games fresh ws frame back).1 in
      (done, subst (λ (r : Text). IsReseated host games fresh client token ws frame r t) name seat)
