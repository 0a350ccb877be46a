-- ===== src/Tests/Game.antt =====
-- A lobby state on the wire and back, over the stream of Wire/StreamBytes.
use gip_multiplayer.Base.{List, ◌≡◌, refl, true, false, [], ◌∷◌, some, arith, All}
use gip_multiplayer.Wire.Bytes.{Unread}
use gip_multiplayer.Wire.StreamBytes.{bytes_stream, bytes_stream_laws, Single}
use gip_multiplayer.Game.{GamePacket, packet_id}
use gip_multiplayer.Game.Room.{put_lobby_state, put_players, put_player_row}
use gip_multiplayer.Game.Session.{HostInfo, run_session}
use gip_multiplayer.Game.Gate.{Enqueues, run_session-Enqueues}
use gip_multiplayer.Game.Codec.{put_packet, get_packet}
use gip_multiplayer.Game.RoundTrip.{get-put_packet}

abbrev empty : Unread
empty = record { unread = []; bad = false }

abbrev lobby : GamePacket Single
lobby = GamePacket.lobby_state (record {
  is_global_server = false;
  match_in_progress = true;
  room_code = 65 ∷ 66 ∷ [];
  players =
      record { id = 7; name = 65 ∷ []; team = 1; ready = 1 }
      ∷ record { id = 8; name = 66 ∷ []; team = 2; ready = 0 }
      ∷ [];
})

get-put_packet_example :
    get_packet bytes_stream (packet_id lobby) (put_packet bytes_stream lobby empty) ≡ some lobby
unfolding put_packet put_lobby_state put_players put_player_row
get-put_packet_example =
    get-put_packet bytes_stream bytes_stream_laws lobby empty
      (
        omega arith,
        omega arith,
        (
          (omega arith, omega arith, omega arith, omega arith),
          ((omega arith, omega arith, omega arith, omega arith), tt),
        ),
      )
      refl refl

-- A count of 255 before nothing at all.
abbrev corrupt : Unread
corrupt = record { unread = 255 ∷ 0 ∷ 0 ∷ 0 ∷ 0 ∷ 0 ∷ 0 ∷ 0 ∷ []; bad = false }

abbrev info : HostInfo
info = record {
  is_private_server = true;
  server_password = 120 ∷ [];
  server_name = [];
  team_size = 3;
  player_count = 0;
  is_dedicated_server = false;
  match_in_progress = false;
}

-- A chat message that claims to be from player 8, and a join with a wrong password.
abbrev tricks : List (GamePacket Single)
tricks =
    GamePacket.chat_message
      (record { sender_id = 8; target_id = 0; channel = 0; sender_name = []; text = 104 ∷ [] })
    ∷ GamePacket.lobby_join (record { sender_id = 7; player_name = []; password = [] })
    ∷ []

run_session-Enqueues_example : All (Enqueues info 7) (run_session (λ q. []) info (some 7) tricks)
run_session-Enqueues_example =
    run_session-Enqueues (λ q. []) info 7 tricks (λ q. tt) (tt, (refl, tt))
