-- ===== src/Lobby/Seated.antt =====
-- Rosters and seats of src/lobby.mjs side by side, and `leaveLobby`.
use factory_network_server.Prelude.{
  ◌≡◌, ap, ◌∙◌, true, none, some, arith, if◌then◌else◌, ◌==◌, eq_iff, Option-cases, inl, inr,
  contains, distinct, remove, is_some_of, contains-remove, distinct-remove,
}
use factory_network_server.Prelude.Texts.{Text, Text_eq}
use factory_network_server.Prelude.Maps.{Map, get?, erase, get?-erase}
use factory_network_server.State.{Server, Lobby}
use factory_network_server.Games.{Registry}
use factory_network_server.Lobby.Leaving.{leave_lobby}
use factory_network_server.Lobby.Leaves.{roster, AsLeft, leave_seat-AsLeft}

module _ {G : Type 0} where
  -- Whose roster the client stands on is the lobby he sits in, and nobody stands twice.
  pub record AreSeated (lobbies : Map Text (Lobby G)) (seats : Map Text Text) : Type 0 where
    pub agree : (c r : Text) → contains c (roster r lobbies) ≡ is_some_of (get? c seats) r
    pub different : (r : Text) → distinct (roster r lobbies) ≡ true

  abbrev pub IsSeated : Server G → Type 0
  IsSeated s = AreSeated s.lobbies s.client_lobbies

  AsLeft-AreSeated :
      (client code : Text) (lobby : Lobby G) (s t : Server G)
      → AreSeated s.lobbies s.client_lobbies
      → get? client s.client_lobbies ≡ some code
      → get? code s.lobbies ≡ some lobby
      → AsLeft
          (λ r. get? r s.lobbies)
          code
          (remove client lobby.members)
          (erase client s.client_lobbies)
          s.client_display_lobbies
          t
      → AreSeated t.lobbies t.client_lobbies
  AsLeft-AreSeated client code lobby s t v e f l = record {
    agree = λ c r.
        let seat : get? c t.client_lobbies
            ≡ (if client == c then none else get? c s.client_lobbies) =
          ap (get? c) l.same_seats ∙ get?-erase client c s.client_lobbies in
        ground (
          arith,
          seat,
          l.rosters r,
          v.agree c r,
          v.agree client r,
          e,
          f,
          eq_iff code r,
          eq_iff client c,
          eq_iff c client,
          contains-remove c client lobby.members,
        );
    different = λ r.
        ground (
          arith,
          l.rosters r,
          v.different r,
          f,
          eq_iff code r,
          distinct-remove client lobby.members,
        );
  }

  -- The seat in a lobby that the map lacks holds nobody.
  gone-AreSeated :
      (client code : Text) (s : Server G)
      → AreSeated s.lobbies s.client_lobbies
      → get? client s.client_lobbies ≡ some code
      → get? code s.lobbies ≡ none
      → AreSeated s.lobbies (erase client s.client_lobbies)
  unfolding contains
  gone-AreSeated client code s v e f = record {
    agree = λ c r. ground (
      arith,
      v.agree c r,
      v.agree client r,
      e,
      f,
      get?-erase client c s.client_lobbies,
      eq_iff client c,
      eq_iff code r,
    );
    different = v.different;
  }

  -- Leaving a lobby, whether others stay, it is closed or a display keeps it open, and whatever the
  -- game's hooks do, keeps the lobbies seated: a client stands on a lobby's roster exactly if that
  -- lobby is his seat, and on no roster twice.
  pub leave_lobby-IsSeated :
      (games : Registry G) (client reason : Text) (s : Server G)
      → IsSeated s
      → IsSeated (leave_lobby games client reason s)
  unfolding leave_lobby
  leave_lobby-IsSeated games client reason s v =
      elim (Option-cases (get? client s.client_lobbies)) [
        | inl e ↦ rw (e, leave_lobby) v
        | inr (code, e) ↦ elim (Option-cases (get? code s.lobbies)) [
          | inl f ↦ rw (e, leave_lobby) (rw f (gone-AreSeated client code s v e f))
          | inr (lobby, f) ↦
              rw (e, leave_lobby)
                (rw f (
                  AsLeft-AreSeated client code lobby s _ v e f
                    (leave_seat-AsLeft games client reason code lobby s)))
        ]
      ]
