-- ===== src/Tests/Seats.antt =====
-- Two clients and one lobby, which the first has opened.
use factory_network_server.Prelude.{ℕ, ◌≡◌, refl, false, none, some, [], ◌∷◌, add, contains}
use factory_network_server.Prelude.Texts.{Text, codes, Text_eq, text_eq}
use factory_network_server.Prelude.Maps.{get?, set}
use factory_network_server.State.{Server, Lobby}
use factory_network_server.Lobby.Leaving.{leave_lobby, leave_display_lobby}
use factory_network_server.Lobby.Seated.{IsSeated, leave_lobby-IsSeated}
use factory_network_server.Lobby.Closing.{leave_display_lobby-IsSeated}
use factory_network_server.Lobby.Creating.{create_lobby}
use factory_network_server.Lobby.Joining.{
  join_lobby_at, join_refusal, is_other_game, is_lobby_joinable,
}
use factory_network_server.Lobby.Enters.{seat-AreSeated}
use factory_network_server.Lobby.Creates.{create_lobby-IsSeated}
use factory_network_server.Lobby.Joins.{join_lobby_at-IsSeated}
use factory_network_server.Lobby.Orphan.{join_lobby_at_orphan}
use factory_network_server.Tests.Rooms.{registry, empty, p1, p2}
use factory_network_server.Tests.Lobbies.{host, lobby_of}

empty-IsSeated : IsSeated empty
unfolding contains get?
empty-IsSeated = record { agree = λ c r. refl; different = λ r. refl }

create_lobby-IsSeated_example :
    IsSeated (create_lobby host registry p1 (λ k. none) false false empty).1
create_lobby-IsSeated_example =
    create_lobby-IsSeated host registry p1 (λ k. none) false false empty empty-IsSeated

abbrev code : Text
code = codes "AAAAA"

abbrev lobby : Lobby ℕ
lobby = record (lobby_of code 9) { owner_id = p1; members = p1 ∷ [] }

-- The first client is alone in his lobby.
abbrev seated : Server ℕ
seated = record empty {
  lobbies = set code lobby empty.lobbies;
  client_lobbies = set p1 code empty.client_lobbies;
}

seated-IsSeated : IsSeated seated
unfolding add contains get?
seated-IsSeated =
    seat-AreSeated p1 code lobby empty.lobbies empty.client_lobbies empty-IsSeated refl refl

leave_lobby-IsSeated_example : IsSeated (leave_lobby registry p1 (codes "left") seated)
leave_lobby-IsSeated_example =
    leave_lobby-IsSeated registry p1 (codes "left") seated seated-IsSeated

-- The second client is the display of that lobby.
abbrev shown : Server ℕ
shown = record seated {
  lobbies = set code (record lobby { display_client_id = some p2 }) empty.lobbies;
  client_display_lobbies = (p2, code) ∷ [];
}

shown-IsSeated : IsSeated shown
unfolding add contains get?
shown-IsSeated =
    seat-AreSeated p1 code (record lobby { display_client_id = some p2 }) empty.lobbies
      empty.client_lobbies empty-IsSeated refl refl

leave_display_lobby-IsSeated_example : IsSeated (leave_display_lobby registry p2 shown)
leave_display_lobby-IsSeated_example = leave_display_lobby-IsSeated registry p2 shown shown-IsSeated

join_lobby_at-IsSeated_example : IsSeated (join_lobby_at registry p2 code none none seated)
unfolding set get? text_eq
join_lobby_at-IsSeated_example =
    join_lobby_at-IsSeated registry p2 code none none seated seated-IsSeated refl refl

join_lobby_at_orphan_example :
    (get? p1 (join_lobby_at registry p1 code none none seated).client_lobbies ≡ some code)
    × (get? code (join_lobby_at registry p1 code none none seated).lobbies ≡ none)
unfolding set get? text_eq join_refusal is_other_game is_lobby_joinable
join_lobby_at_orphan_example =
    join_lobby_at_orphan registry p1 code none none lobby seated refl refl refl refl refl refl
