-- ===== src/Game/Match.antt =====
-- The serializers of the packets of a running match, field by field, over any buffer.
use gip_multiplayer.Wire.Values.{Stream}
use gip_multiplayer.Game.{
  PingPacket, PongPacket, NodeStatePacket, NodeLeavePacket, PlayerFirePacket, PlayerHitPacket,
  PlayerKilledPacket,
}

module _ (s : Stream) where
  open s use {
    io, F, write_float, write_string, write_bool, write_var_int, read_float, read_string, read_bool,
    read_var_int,
  }
  open io use {Buf, write_int, read_int, readable_bytes}

  unfoldable pub put_ping : PingPacket → Buf → Buf
  put_ping p b = let b1 = write_int 8 p.timestamp b in write_int 4 p.reported_ping b1

  unfoldable pub get_ping : Buf → PingPacket × Buf
  get_ping b =
      let (timestamp, b1) = read_int 8 b in
      let (reported_ping, b2) = read_int 4 b1 in
      (record { timestamp = timestamp; reported_ping = reported_ping }, b2)

  unfoldable pub put_pong : PongPacket → Buf → Buf
  put_pong p b = write_int 8 p.timestamp b

  unfoldable pub get_pong : Buf → PongPacket × Buf
  get_pong b = let (timestamp, b1) = read_int 8 b in (record { timestamp = timestamp }, b1)

  unfoldable pub put_node_state : NodeStatePacket F → Buf → Buf
  put_node_state p b =
      let b1 = write_int 4 p.netid b in
      let b2 = write_float p.x b1 in
      let b3 = write_float p.y b2 in
      let b4 = write_float p.z b3 in
      let b5 = write_float p.yaw b4 in let b6 = write_int 1 p.team b5 in write_int 1 p.anim_state b6

  unfoldable pub get_node_state : Buf → NodeStatePacket F × Buf
  get_node_state b =
      let (netid, b1) = read_int 4 b in
      let (x, b2) = read_float b1 in
      let (y, b3) = read_float b2 in
      let (z, b4) = read_float b3 in
      let (yaw, b5) = read_float b4 in
      let (team, b6) = read_int 1 b5 in
      let (anim_state, b7) = read_int 1 b6 in
      (
        record {
          netid = netid;
          x = x;
          y = y;
          z = z;
          yaw = yaw;
          team = team;
          anim_state = anim_state;
        },
        b7,
      )

  unfoldable pub put_node_leave : NodeLeavePacket → Buf → Buf
  put_node_leave p b = write_int 4 p.netid b

  unfoldable pub get_node_leave : Buf → NodeLeavePacket × Buf
  get_node_leave b = let (netid, b1) = read_int 4 b in (record { netid = netid }, b1)

  unfoldable pub put_player_fire : PlayerFirePacket F → Buf → Buf
  put_player_fire p b =
      let b1 = write_int 4 p.shooter_id b in
      let b2 = write_int 1 p.gun_type b1 in
      let b3 = write_float p.origin_x b2 in
      let b4 = write_float p.origin_y b3 in
      let b5 = write_float p.origin_z b4 in
      let b6 = write_float p.dir_x b5 in let b7 = write_float p.dir_y b6 in write_float p.dir_z b7

  unfoldable pub get_player_fire : Buf → PlayerFirePacket F × Buf
  get_player_fire b =
      let (shooter_id, b1) = read_int 4 b in
      let (gun_type, b2) = read_int 1 b1 in
      let (origin_x, b3) = read_float b2 in
      let (origin_y, b4) = read_float b3 in
      let (origin_z, b5) = read_float b4 in
      let (dir_x, b6) = read_float b5 in
      let (dir_y, b7) = read_float b6 in
      let (dir_z, b8) = read_float b7 in
      (
        record {
          shooter_id = shooter_id;
          gun_type = gun_type;
          origin_x = origin_x;
          origin_y = origin_y;
          origin_z = origin_z;
          dir_x = dir_x;
          dir_y = dir_y;
          dir_z = dir_z;
        },
        b8,
      )

  unfoldable pub put_player_hit : PlayerHitPacket F → Buf → Buf
  put_player_hit p b =
      let b1 = write_int 4 p.attacker_id b in
      let b2 = write_int 4 p.victim_id b1 in write_float p.damage b2

  unfoldable pub get_player_hit : Buf → PlayerHitPacket F × Buf
  get_player_hit b =
      let (attacker_id, b1) = read_int 4 b in
      let (victim_id, b2) = read_int 4 b1 in
      let (damage, b3) = read_float b2 in
      (record { attacker_id = attacker_id; victim_id = victim_id; damage = damage }, b3)

  unfoldable pub put_player_killed : PlayerKilledPacket → Buf → Buf
  put_player_killed p b = let b1 = write_int 4 p.killer_id b in write_int 4 p.victim_id b1

  unfoldable pub get_player_killed : Buf → PlayerKilledPacket × Buf
  get_player_killed b =
      let (killer_id, b1) = read_int 4 b in
      let (victim_id, b2) = read_int 4 b1 in
      (record { killer_id = killer_id; victim_id = victim_id }, b2)
