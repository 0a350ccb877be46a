-- ===== src/Game/RoundTrip.antt =====
-- Every packet that is written is read back as itself.
use gip_multiplayer.Base.{◌≡◌, refl, ap, false, [], some}
use gip_multiplayer.Wire.Chain.{held}
use gip_multiplayer.Wire.Values.{Stream, StreamLaws}
use gip_multiplayer.Game.{GamePacket, packet_id}
use gip_multiplayer.Game.Codec.{put_packet, get_packet}
use gip_multiplayer.Game.MatchFields.{
  NodeStateFits, NodeLeaveFits, PingFits, PongFits, put_node_state-Wrote, get_node_state-Took,
  put_node_leave-Wrote, get_node_leave-Took, put_ping-Wrote, get_ping-Took, put_pong-Wrote,
  get_pong-Took,
}
use gip_multiplayer.Game.CombatFields.{
  PlayerFireFits, PlayerHitFits, PlayerKilledFits, put_player_fire-Wrote, get_player_fire-Took,
  put_player_hit-Wrote, get_player_hit-Took, put_player_killed-Wrote, get_player_killed-Took,
}
use gip_multiplayer.Game.RoomFields.{
  ServerQueryResFits, LobbyJoinFits, ToggleReadyFits, SwitchTeamFits, LobbyKickFits,
  put_server_query_res-Wrote, get_server_query_res-Took, put_lobby_join-Wrote, get_lobby_join-Took,
  put_toggle_ready-Wrote, get_toggle_ready-Took, put_switch_team-Wrote, get_switch_team-Took,
  put_lobby_kick-Wrote, get_lobby_kick-Took,
}
use gip_multiplayer.Game.MessageFields.{
  ChatMessageFits, put_chat_message-Wrote, get_chat_message-Took,
}
use gip_multiplayer.Game.Rows.{
  LobbyStateFits, SnapshotFits, put_lobby_state-Wrote, get_lobby_state-Took,
  put_ping_snapshot-Wrote, get_ping_snapshot-Took,
}

module _ (s : Stream) (ls : StreamLaws s) where
  open s use {io, F}
  open io use {Buf}
  open ls use {laws}
  open laws use {contents, failed}

  -- Each number of the packet fits the type of its field, each string is shorter than 4 GB.
  abbrev pub PacketFits : GamePacket F → Type 0
  PacketFits (GamePacket.node_state p) = NodeStateFits s ls p
  PacketFits (GamePacket.node_leave p) = NodeLeaveFits s ls p
  PacketFits (GamePacket.player_fire p) = PlayerFireFits s ls p
  PacketFits (GamePacket.player_hit p) = PlayerHitFits s ls p
  PacketFits (GamePacket.player_killed p) = PlayerKilledFits s ls p
  PacketFits (GamePacket.server_query_res p) = ServerQueryResFits s ls p
  PacketFits (GamePacket.lobby_join p) = LobbyJoinFits s ls p
  PacketFits (GamePacket.lobby_state p) = LobbyStateFits s ls p
  PacketFits (GamePacket.toggle_ready p) = ToggleReadyFits s ls p
  PacketFits (GamePacket.switch_team p) = SwitchTeamFits s ls p
  PacketFits (GamePacket.lobby_kick p) = LobbyKickFits s ls p
  PacketFits (GamePacket.ping p) = PingFits s ls p
  PacketFits (GamePacket.pong p) = PongFits s ls p
  PacketFits (GamePacket.chat_message p) = ChatMessageFits s ls p
  PacketFits (GamePacket.ping_snapshot p) = SnapshotFits s ls p
  PacketFits p = Unit

  -- A packet whose fields fit their types, written to an empty buffer by the serializer of its class
  -- without an error, is what the deserializer registered for its id reads from the buffer.
  pub get-put_packet :
      (p : GamePacket F) (b : Buf)
      → PacketFits p
      → contents b ≡ []
      → failed (put_packet s p b) ≡ false
      → get_packet s (packet_id p) (put_packet s p b) ≡ some p
  unfolding get_packet put_packet packet_id
  get-put_packet (GamePacket.node_state p) b f e g =
      ap (λ x. some (GamePacket.node_state x))
        (get_node_state-Took s ls p [] _ f g
          (held io laws b _ _ (put_node_state-Wrote s ls p b) e g)).0
  get-put_packet (GamePacket.node_leave p) b f e g =
      ap (λ x. some (GamePacket.node_leave x))
        (get_node_leave-Took s ls p [] _ f g
          (held io laws b _ _ (put_node_leave-Wrote s ls p b) e g)).0
  get-put_packet (GamePacket.player_fire p) b f e g =
      ap (λ x. some (GamePacket.player_fire x))
        (get_player_fire-Took s ls p [] _ f g
          (held io laws b _ _ (put_player_fire-Wrote s ls p b) e g)).0
  get-put_packet (GamePacket.player_hit p) b f e g =
      ap (λ x. some (GamePacket.player_hit x))
        (get_player_hit-Took s ls p [] _ f g
          (held io laws b _ _ (put_player_hit-Wrote s ls p b) e g)).0
  get-put_packet (GamePacket.player_killed p) b f e g =
      ap (λ x. some (GamePacket.player_killed x))
        (get_player_killed-Took s ls p [] _ f g
          (held io laws b _ _ (put_player_killed-Wrote s ls p b) e g)).0
  get-put_packet GamePacket.server_query_req b f e g = refl
  get-put_packet (GamePacket.server_query_res p) b f e g =
      ap (λ x. some (GamePacket.server_query_res x))
        (get_server_query_res-Took s ls p [] _ f g
          (held io laws b _ _ (put_server_query_res-Wrote s ls p b) e g)).0
  get-put_packet (GamePacket.lobby_join p) b f e g =
      ap (λ x. some (GamePacket.lobby_join x))
        (get_lobby_join-Took s ls p [] _ f g
          (held io laws b _ _ (put_lobby_join-Wrote s ls p b) e g)).0
  get-put_packet (GamePacket.lobby_state p) b f e g =
      ap (λ x. some (GamePacket.lobby_state x))
        (get_lobby_state-Took s ls p [] _ f g
          (held io laws b _ _ (put_lobby_state-Wrote s ls p b) e g)).0
  get-put_packet (GamePacket.toggle_ready p) b f e g =
      ap (λ x. some (GamePacket.toggle_ready x))
        (get_toggle_ready-Took s ls p [] _ f g
          (held io laws b _ _ (put_toggle_ready-Wrote s ls p b) e g)).0
  get-put_packet (GamePacket.switch_team p) b f e g =
      ap (λ x. some (GamePacket.switch_team x))
        (get_switch_team-Took s ls p [] _ f g
          (held io laws b _ _ (put_switch_team-Wrote s ls p b) e g)).0
  get-put_packet GamePacket.start_match b f e g = refl
  get-put_packet (GamePacket.lobby_kick p) b f e g =
      ap (λ x. some (GamePacket.lobby_kick x))
        (get_lobby_kick-Took s ls p [] _ f g
          (held io laws b _ _ (put_lobby_kick-Wrote s ls p b) e g)).0
  get-put_packet GamePacket.keep_alive b f e g = refl
  get-put_packet (GamePacket.ping p) b f e g =
      ap (λ x. some (GamePacket.ping x))
        (get_ping-Took s ls p [] _ f g (held io laws b _ _ (put_ping-Wrote s ls p b) e g)).0
  get-put_packet (GamePacket.pong p) b f e g =
      ap (λ x. some (GamePacket.pong x))
        (get_pong-Took s ls p [] _ f g (held io laws b _ _ (put_pong-Wrote s ls p b) e g)).0
  get-put_packet (GamePacket.chat_message p) b f e g =
      ap (λ x. some (GamePacket.chat_message x))
        (get_chat_message-Took s ls p [] _ f g
          (held io laws b _ _ (put_chat_message-Wrote s ls p b) e g)).0
  get-put_packet (GamePacket.ping_snapshot p) b f e g =
      ap (λ x. some (GamePacket.ping_snapshot x))
        (get_ping_snapshot-Took s ls p [] _ f g
          (held io laws b _ _ (put_ping_snapshot-Wrote s ls p b) e g)).0
