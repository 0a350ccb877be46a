-- ===== src/Master.antt =====
-- The messages to and from the master server that carry plain fields: accounts, heartbeats and room
-- codes, with their ids. From src/master/gMasterPackets.h.
pub mod Serial
pub mod Fields
pub mod RoundTrip
use gip_multiplayer.Base.{ℕ, Bool}
use gip_multiplayer.Base.Text.{Text}

pub record MasterHeartbeatPacket : Type 0 where
  pub ip : Text

pub record MasterRegisterResponsePacket : Type 0 where
  pub room_code : Text

pub record MasterQueryRoomPacket : Type 0 where
  pub room_code : Text

pub record MasterUserLoginPacket : Type 0 where
  pub email : Text
  pub password : Text

pub record MasterUserLoginResPacket : Type 0 where
  pub success : Bool
  pub message : Text
  pub username : Text
  pub token : Text

pub record MasterUserRegisterPacket : Type 0 where
  pub username : Text
  pub email : Text
  pub password : Text

pub record MasterUserRegisterResPacket : Type 0 where
  pub success : Bool
  pub message : Text
  pub token : Text

pub record MasterUserTokenLoginPacket : Type 0 where
  pub email : Text
  pub token : Text

pub record MasterUserLogoutPacket : Type 0 where
  pub email : Text
  pub token : Text

pub data MasterPacket : Type 0 where
  heartbeat : MasterHeartbeatPacket → MasterPacket
  register_response : MasterRegisterResponsePacket → MasterPacket
  query_room : MasterQueryRoomPacket → MasterPacket
  user_login : MasterUserLoginPacket → MasterPacket
  user_login_res : MasterUserLoginResPacket → MasterPacket
  user_register : MasterUserRegisterPacket → MasterPacket
  user_register_res : MasterUserRegisterResPacket → MasterPacket
  user_token_login : MasterUserTokenLoginPacket → MasterPacket
  user_logout : MasterUserLogoutPacket → MasterPacket

unfoldable pub master_packet_id : MasterPacket → ℕ
master_packet_id (heartbeat p) = 301
master_packet_id (register_response p) = 304
master_packet_id (query_room p) = 307
master_packet_id (user_login p) = 309
master_packet_id (user_login_res p) = 310
master_packet_id (user_register p) = 311
master_packet_id (user_register_res p) = 312
master_packet_id (user_token_login p) = 313
master_packet_id (user_logout p) = 314
