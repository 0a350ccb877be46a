-- ===== src/Game/Codec.antt =====
-- Which serializer serves which packet id, as src/GameBackendLocal.cpp registers them.
use gip_multiplayer.Base.{ℕ, Option, none, some, ◌==◌, if◌then◌else◌}
use gip_multiplayer.Wire.Values.{Stream}
use gip_multiplayer.Game.{GamePacket}
use gip_multiplayer.Game.Match.{
  put_node_state, get_node_state, put_node_leave, get_node_leave, put_player_fire, get_player_fire,
  put_player_hit, get_player_hit, put_player_killed, get_player_killed, put_ping, get_ping,
  put_pong, get_pong,
}
use gip_multiplayer.Game.Room.{
  put_server_query_res, get_server_query_res, put_lobby_join, get_lobby_join, put_lobby_state,
  get_lobby_state, put_toggle_ready, get_toggle_ready, put_switch_team, get_switch_team,
  put_lobby_kick, get_lobby_kick, put_chat_message, get_chat_message, put_ping_snapshot,
  get_ping_snapshot,
}

module _ (s : Stream) where
  open s use {
    io, F, write_float, write_string, write_bool, write_var_int, read_float, read_string, read_bool,
    read_var_int,
  }
  open io use {Buf, write_int, read_int, readable_bytes}

  unfoldable pub put_packet : GamePacket F → Buf → Buf
  put_packet (GamePacket.node_state p) b = put_node_state s p b
  put_packet (GamePacket.node_leave p) b = put_node_leave s p b
  put_packet (GamePacket.player_fire p) b = put_player_fire s p b
  put_packet (GamePacket.player_hit p) b = put_player_hit s p b
  put_packet (GamePacket.player_killed p) b = put_player_killed s p b
  put_packet GamePacket.server_query_req b = write_int 1 1 b
  put_packet (GamePacket.server_query_res p) b = put_server_query_res s p b
  put_packet (GamePacket.lobby_join p) b = put_lobby_join s p b
  put_packet (GamePacket.lobby_state p) b = put_lobby_state s p b
  put_packet (GamePacket.toggle_ready p) b = put_toggle_ready s p b
  put_packet (GamePacket.switch_team p) b = put_switch_team s p b
  put_packet GamePacket.start_match b = b
  put_packet (GamePacket.lobby_kick p) b = put_lobby_kick s p b
  put_packet GamePacket.keep_alive b = b
  put_packet (GamePacket.ping p) b = put_ping s p b
  put_packet (GamePacket.pong p) b = put_pong s p b
  put_packet (GamePacket.chat_message p) b = put_chat_message s p b
  put_packet (GamePacket.ping_snapshot p) b = put_ping_snapshot s p b

  abbrev read_as : {A : Type 0} → (A → GamePacket F) → A × Buf → Option (GamePacket F)
  read_as f (a, b) = some (f a)

  -- The deserializer that is registered for an id.
  unfoldable pub get_packet : ℕ → Buf → Option (GamePacket F)
  get_packet id b =
      if id == 0
      then read_as GamePacket.node_state (get_node_state s b)
      else if id == 1
      then read_as GamePacket.node_leave (get_node_leave s b)
      else if id == 2
      then read_as GamePacket.player_fire (get_player_fire s b)
      else if id == 3
      then read_as GamePacket.player_hit (get_player_hit s b)
      else if id == 4
      then read_as GamePacket.player_killed (get_player_killed s b)
      else if id == 5
      then read_as (λ _. GamePacket.server_query_req) (read_int 1 b)
      else if id == 6
      then read_as GamePacket.server_query_res (get_server_query_res s b)
      else if id == 7
      then read_as GamePacket.lobby_join (get_lobby_join s b)
      else if id == 8
      then read_as GamePacket.lobby_state (get_lobby_state s b)
      else if id == 9
      then read_as GamePacket.toggle_ready (get_toggle_ready s b)
      else if id == 10
      then read_as GamePacket.switch_team (get_switch_team s b)
      else if id == 11
      then some GamePacket.start_match
      else if id == 12
      then read_as GamePacket.lobby_kick (get_lobby_kick s b)
      else if id == 13
      then some GamePacket.keep_alive
      else if id == 14
      then read_as GamePacket.ping (get_ping s b)
      else if id == 15
      then read_as GamePacket.pong (get_pong s b)
      else if id == 16
      then read_as GamePacket.chat_message (get_chat_message s b)
      else if id == 17
      then read_as GamePacket.ping_snapshot (get_ping_snapshot s b)
      else none
