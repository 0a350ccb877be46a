-- ===== src/Game.antt =====
-- The packets of a match and of its room, and their ids: the classes of src/GamePackets.h.
pub mod Match
pub mod Room
pub mod Session
pub mod Gate
pub mod Codec
pub mod MatchFields
pub mod CombatFields
pub mod RoomFields
pub mod MessageFields
pub mod Rows
pub mod RoundTrip
use gip_multiplayer.Base.{ℕ, Bool, List}
use gip_multiplayer.Base.Text.{Text}
use gip_multiplayer.Lobby.{ChatMessage}

pub record PingPacket : Type 0 where
  pub timestamp : ℕ
  pub reported_ping : ℕ

pub record PongPacket : Type 0 where
  pub timestamp : ℕ

pub record NodeStatePacket (F : Type 0) : Type 0 where
  pub netid : ℕ
  pub x : F
  pub y : F
  pub z : F
  pub yaw : F
  pub team : ℕ
  pub anim_state : ℕ

pub record NodeLeavePacket : Type 0 where
  pub netid : ℕ

pub record PlayerFirePacket (F : Type 0) : Type 0 where
  pub shooter_id : ℕ
  pub gun_type : ℕ
  pub origin_x : F
  pub origin_y : F
  pub origin_z : F
  pub dir_x : F
  pub dir_y : F
  pub dir_z : F

pub record PlayerHitPacket (F : Type 0) : Type 0 where
  pub attacker_id : ℕ
  pub victim_id : ℕ
  pub damage : F

pub record PlayerKilledPacket : Type 0 where
  pub killer_id : ℕ
  pub victim_id : ℕ

pub record ServerQueryResPacket : Type 0 where
  pub lobby_name : Text
  pub format : Text
  pub size_str : Text
  pub is_dedicated : Bool
  pub match_in_progress : Bool

pub record LobbyJoinPacket : Type 0 where
  pub sender_id : ℕ
  pub player_name : Text
  pub password : Text

pub record ToggleReadyPacket : Type 0 where
  pub sender_id : ℕ

pub record SwitchTeamPacket : Type 0 where
  pub sender_id : ℕ
  pub team_id : ℕ

pub record LobbyKickPacket : Type 0 where
  pub reason : Text

-- One index of the parallel vectors `playerIds`, `playerNames`, `playerTeams`, `playerReadys`.
pub record PlayerRow : Type 0 where
  pub id : ℕ
  pub name : Text
  pub team : ℕ
  pub ready : ℕ

-- One index of `playerIds` and `playerPings`.
pub record PingRow : Type 0 where
  pub id : ℕ
  pub ping : ℕ

pub record LobbyStatePacket : Type 0 where
  pub is_global_server : Bool
  pub match_in_progress : Bool
  pub room_code : Text
  pub players : List PlayerRow

pub data GamePacket (F : Type 0) : Type 0 where
  node_state : NodeStatePacket F → GamePacket F
  node_leave : NodeLeavePacket → GamePacket F
  player_fire : PlayerFirePacket F → GamePacket F
  player_hit : PlayerHitPacket F → GamePacket F
  player_killed : PlayerKilledPacket → GamePacket F
  server_query_req : GamePacket F
  server_query_res : ServerQueryResPacket → GamePacket F
  lobby_join : LobbyJoinPacket → GamePacket F
  lobby_state : LobbyStatePacket → GamePacket F
  toggle_ready : ToggleReadyPacket → GamePacket F
  switch_team : SwitchTeamPacket → GamePacket F
  start_match : GamePacket F
  lobby_kick : LobbyKickPacket → GamePacket F
  keep_alive : GamePacket F
  ping : PingPacket → GamePacket F
  pong : PongPacket → GamePacket F
  chat_message : ChatMessage → GamePacket F
  ping_snapshot : List PingRow → GamePacket F

-- The enumeration of packet ids, in its order.
unfoldable pub packet_id : {F : Type 0} → GamePacket F → ℕ
packet_id (node_state p) = 0
packet_id (node_leave p) = 1
packet_id (player_fire p) = 2
packet_id (player_hit p) = 3
packet_id (player_killed p) = 4
packet_id server_query_req = 5
packet_id (server_query_res p) = 6
packet_id (lobby_join p) = 7
packet_id (lobby_state p) = 8
packet_id (toggle_ready p) = 9
packet_id (switch_team p) = 10
packet_id start_match = 11
packet_id (lobby_kick p) = 12
packet_id keep_alive = 13
packet_id (ping p) = 14
packet_id (pong p) = 15
packet_id (chat_message p) = 16
packet_id (ping_snapshot p) = 17
