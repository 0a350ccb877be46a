-- ===== src/Game/Room.antt =====
-- The serializers of the packets of a room, field by field, over any buffer.
use gip_multiplayer.Base.{ℕ, zero, suc, List, [], ◌∷◌, ltb, ◌!=◌, if◌then◌else◌, length}
use gip_multiplayer.Wire.Values.{Stream}
use gip_multiplayer.Lobby.{ChatMessage}
use gip_multiplayer.Game.{
  ServerQueryResPacket, LobbyJoinPacket, ToggleReadyPacket, SwitchTeamPacket, LobbyKickPacket,
  PlayerRow, PingRow, LobbyStatePacket,
}

module _ (s : Stream) where
  open s use {
    io, F, write_float, write_string, write_bool, write_var_int, read_float, read_string, read_bool,
    read_var_int,
  }
  open io use {Buf, write_int, read_int, readable_bytes}

  unfoldable pub put_server_query_res : ServerQueryResPacket → Buf → Buf
  put_server_query_res p b =
      let b1 = write_string p.lobby_name b in
      let b2 = write_string p.format b1 in
      let b3 = write_string p.size_str b2 in
      let b4 = write_int 4 (if p.is_dedicated then 1 else 0) b3 in
      write_int 4 (if p.match_in_progress then 1 else 0) b4

  unfoldable pub get_server_query_res : Buf → ServerQueryResPacket × Buf
  get_server_query_res b =
      let (lobby_name, b1) = read_string b in
      let (format, b2) = read_string b1 in
      let (size_str, b3) = read_string b2 in
      let (is_dedicated, b4) = read_int 4 b3 in
      let (match_in_progress, b5) = read_int 4 b4 in
      (
        record {
          lobby_name = lobby_name;
          format = format;
          size_str = size_str;
          is_dedicated = is_dedicated != 0;
          match_in_progress = match_in_progress != 0;
        },
        b5,
      )

  unfoldable pub put_lobby_join : LobbyJoinPacket → Buf → Buf
  put_lobby_join p b =
      let b1 = write_int 4 p.sender_id b in
      let b2 = write_string p.player_name b1 in write_string p.password b2

  unfoldable pub get_lobby_join : Buf → LobbyJoinPacket × Buf
  get_lobby_join b =
      let (sender_id, b1) = read_int 4 b in
      let (player_name, b2) = read_string b1 in
      let (password, b3) = read_string b2 in
      (record { sender_id = sender_id; player_name = player_name; password = password }, b3)

  unfoldable pub put_toggle_ready : ToggleReadyPacket → Buf → Buf
  put_toggle_ready p b = write_int 4 p.sender_id b

  unfoldable pub get_toggle_ready : Buf → ToggleReadyPacket × Buf
  get_toggle_ready b = let (sender_id, b1) = read_int 4 b in (record { sender_id = sender_id }, b1)

  unfoldable pub put_switch_team : SwitchTeamPacket → Buf → Buf
  put_switch_team p b = let b1 = write_int 4 p.sender_id b in write_int 1 p.team_id b1

  unfoldable pub get_switch_team : Buf → SwitchTeamPacket × Buf
  get_switch_team b =
      let (sender_id, b1) = read_int 4 b in
      let (team_id, b2) = read_int 1 b1 in (record { sender_id = sender_id; team_id = team_id }, b2)

  unfoldable pub put_lobby_kick : LobbyKickPacket → Buf → Buf
  put_lobby_kick p b = write_string p.reason b

  unfoldable pub get_lobby_kick : Buf → LobbyKickPacket × Buf
  get_lobby_kick b = let (reason, b1) = read_string b in (record { reason = reason }, b1)

  unfoldable pub put_chat_message : ChatMessage → Buf → Buf
  put_chat_message p b =
      let b1 = write_int 4 p.sender_id b in
      let b2 = write_int 4 p.target_id b1 in
      let b3 = write_int 1 p.channel b2 in
      let b4 = write_string p.sender_name b3 in write_string p.text b4

  unfoldable pub get_chat_message : Buf → ChatMessage × Buf
  get_chat_message b =
      let (sender_id, b1) = read_int 4 b in
      let (target_id, b2) = read_int 4 b1 in
      let (channel, b3) = read_int 1 b2 in
      let (sender_name, b4) = read_string b3 in
      let (text, b5) = read_string b4 in
      (
        record {
          sender_id = sender_id;
          target_id = target_id;
          channel = channel;
          sender_name = sender_name;
          text = text;
        },
        b5,
      )

  unfoldable pub put_player_row : PlayerRow → Buf → Buf
  put_player_row p b =
      let b1 = write_int 4 p.id b in
      let b2 = write_string p.name b1 in let b3 = write_int 1 p.team b2 in write_int 1 p.ready b3

  unfoldable pub get_player_row : Buf → PlayerRow × Buf
  get_player_row b =
      let (id, b1) = read_int 4 b in
      let (name, b2) = read_string b1 in
      let (team, b3) = read_int 1 b2 in
      let (ready, b4) = read_int 1 b3 in
      (record { id = id; name = name; team = team; ready = ready }, b4)

  unfoldable pub put_ping_row : PingRow → Buf → Buf
  put_ping_row p b = let b1 = write_int 4 p.id b in write_int 4 p.ping b1

  unfoldable pub get_ping_row : Buf → PingRow × Buf
  get_ping_row b =
      let (id, b1) = read_int 4 b in
      let (ping, b2) = read_int 4 b1 in (record { id = id; ping = ping }, b2)

  -- The `for` over the players.
  unfoldable pub put_players : List PlayerRow → Buf → Buf
  put_players [] b = b
  put_players (r ∷ rs) b = put_players rs (put_player_row r b)

  unfoldable pub get_players : ℕ → Buf → List PlayerRow × Buf
  get_players zero b = ([], b)
  get_players (suc n) b =
      let (r, b1) = get_player_row b in let (rs, b2) = get_players n b1 in (r ∷ rs, b2)

  unfoldable pub put_lobby_state : LobbyStatePacket → Buf → Buf
  put_lobby_state p b =
      let b1 = write_bool p.is_global_server b in
      let b2 = write_bool p.match_in_progress b1 in
      let b3 = write_string p.room_code b2 in
      let b4 = write_var_int (length p.players) b3 in put_players p.players b4

  -- A count beyond the bytes that are left is corrupt: no row is read then.
  unfoldable pub get_counted_players : Buf → List PlayerRow × Buf
  get_counted_players b =
      let (count, b1) = read_var_int b in
      if ltb (readable_bytes b1) count then ([], b1) else get_players count b1

  unfoldable pub get_lobby_state : Buf → LobbyStatePacket × Buf
  get_lobby_state b =
      let (is_global_server, b1) = read_bool b in
      let (match_in_progress, b2) = read_bool b1 in
      let (room_code, b3) = read_string b2 in
      let (players, b4) = get_counted_players b3 in
      (
        record {
          is_global_server = is_global_server;
          match_in_progress = match_in_progress;
          room_code = room_code;
          players = players;
        },
        b4,
      )

  unfoldable pub put_pings : List PingRow → Buf → Buf
  put_pings [] b = b
  put_pings (r ∷ rs) b = put_pings rs (put_ping_row r b)

  unfoldable pub get_pings : ℕ → Buf → List PingRow × Buf
  get_pings zero b = ([], b)
  get_pings (suc n) b =
      let (r, b1) = get_ping_row b in let (rs, b2) = get_pings n b1 in (r ∷ rs, b2)

  unfoldable pub put_ping_snapshot : List PingRow → Buf → Buf
  put_ping_snapshot rs b = put_pings rs (write_var_int (length rs) b)

  unfoldable pub get_ping_snapshot : Buf → List PingRow × Buf
  get_ping_snapshot b =
      let (count, b1) = read_var_int b in
      if ltb (readable_bytes b1) count then ([], b1) else get_pings count b1
