-- ===== src/Tests/Lobby.antt =====
-- The room and its chat on concrete packets, with numbers of milliseconds for floats.
use gip_multiplayer.Base.{
  ℕ, ◌+◌, ◌≤◌, ◌≡◌, refl, ◌⊎◌, true, false, List, [], ◌∷◌, none, suc, some, ltb, if◌then◌else◌,
  length, All, arith,
}
use gip_multiplayer.Base.Dict.{lookup, AllValues}
use gip_multiplayer.Base.Text.{Text, to_string}
use gip_multiplayer.Lobby.{
  RoomPlayer, ChatMessage, Floats, lobby_join, Backend, chat_team, chat_private,
}
use gip_multiplayer.Lobby.Names.{free_name, count_team, final_name, final_name_lem, name_exists}
use gip_multiplayer.Lobby.Chat.{find_player, stamps_of, allow_chat_rate, Session, relay_chat}
use gip_multiplayer.Lobby.Handler.{on_packet_received, handle_join, handle_chat}
use gip_multiplayer.Lobby.Invariant.{IsValid, is_snapshot, on_packet_received-IsValid}
use gip_multiplayer.Lobby.Balance.{Balanced, handle_join-Balanced}
use gip_multiplayer.Lobby.Privacy.{
  InTeam, Tagged, relay_chat_team, relay_chat_private, count_last_second, allow_chat_rate_lem,
}
use gip_multiplayer.Lobby.Honest.{Passes, handle_chat-Passes}

abbrev millis : Floats
millis = record { F = ℕ; zero = 0; older_than_second = λ now t. ltb (t + 1000) now }

abbrev ada : RoomPlayer
ada = record { id = 7; name = 65 ∷ []; team = 1; is_ready = false }

abbrev bob : RoomPlayer
bob = record { id = 8; name = 66 ∷ []; team = 2; is_ready = true }

abbrev two : List RoomPlayer
two = ada ∷ bob ∷ []

abbrev host : Backend millis
host = record {
  is_server = true;
  local_id = 7;
  room_players = two;
  player_count = 2;
  chat_rate_stamps = [];
  nodes = [];
  remote_pings = [];
  match_in_progress = false;
  room_code = [];
  time_since_last_keep_alive = 5;
}

host-IsValid : IsValid 3 host
host-IsValid = record {
  distinct = (((omega arith, λ e. absurd (ground arith)), tt), (tt, tt));
  bounded = omega arith;
  counted = refl;
}

abbrev hello : ChatMessage
hello = record {
  sender_id = 7;
  target_id = 8;
  channel = chat_team;
  sender_name = [];
  text = 104 ∷ 10 ∷ 105 ∷ [];
}

abbrev secret : ChatMessage
secret = record hello { channel = chat_private }

abbrev sessions : List Session
sessions =
    record { connection = 1; user_id = some 7 } ∷ record { connection = 2; user_id = some 8 } ∷ []

on_packet_received-IsValid_example :
    IsValid 3 (on_packet_received 9 3 (λ id t. t) (lobby_join 9 (65 ∷ [])) host).0
unfolding is_snapshot
on_packet_received-IsValid_example =
    on_packet_received-IsValid 9 3 (λ id t. t) (lobby_join 9 (65 ∷ [])) host refl
      (λ id t. (refl, refl)) host-IsValid

final_name_lem_example :
    (n : Text) × (final_name (65 ∷ []) two ≡ some n) × (name_exists n two ≡ false)
final_name_lem_example = final_name_lem (65 ∷ []) two

handle_join-Balanced_example : Balanced (handle_join 3 9 (65 ∷ []) host).0.room_players
unfolding count_team
handle_join-Balanced_example = handle_join-Balanced 3 9 (65 ∷ []) host (omega arith, omega arith)

relay_chat_team_example : All (InTeam 1 two sessions) (relay_chat two sessions hello)
unfolding find_player
relay_chat_team_example = relay_chat_team two sessions hello ada refl refl

relay_chat_private_example :
    All (λ c. Tagged 8 sessions c ⊎ Tagged 7 sessions c) (relay_chat two sessions secret)
relay_chat_private_example = relay_chat_private two sessions secret refl

allow_chat_rate_lem_example :
    AllValues (λ ts. length ts ≤ 3) (allow_chat_rate millis 900 7 ((7, 5 ∷ []) ∷ [])).0
    × ((allow_chat_rate millis 900 7 ((7, 5 ∷ []) ∷ [])).1
        ≡ ltb (count_last_second millis 900 (stamps_of millis 7 ((7, 5 ∷ []) ∷ []))) 3)
    × (length (stamps_of millis 7 (allow_chat_rate millis 900 7 ((7, 5 ∷ []) ∷ [])).0) ≡ (
        if (allow_chat_rate millis 900 7 ((7, 5 ∷ []) ∷ [])).1
        then suc (count_last_second millis 900 (stamps_of millis 7 ((7, 5 ∷ []) ∷ [])))
        else count_last_second millis 900 (stamps_of millis 7 ((7, 5 ∷ []) ∷ []))))
    × (lookup 8 (allow_chat_rate millis 900 7 ((7, 5 ∷ []) ∷ [])).0 ≡ none)
allow_chat_rate_lem_example =
    allow_chat_rate_lem millis 900 7 8 ((7, 5 ∷ []) ∷ []) (omega arith) (omega arith, tt)

handle_chat-Passes_example : All (Passes two) (handle_chat 900 hello host).1
handle_chat-Passes_example = handle_chat-Passes 900 hello host refl

-- A second Ada is called `A 1`, and plays for the smaller team.
second_ada : final_name (65 ∷ []) two ≡ some (65 ∷ 32 ∷ 49 ∷ [])
unfolding final_name free_name name_exists to_string
second_ada = refl
