-- ===== src/Master/Serial.antt =====
-- The serializers of the master server's messages, field by field, over any buffer.
use gip_multiplayer.Base.{ℕ, Option, none, some, ◌==◌, if◌then◌else◌}
use gip_multiplayer.Wire.Values.{Stream}
use gip_multiplayer.Master.{
  MasterHeartbeatPacket, MasterRegisterResponsePacket, MasterQueryRoomPacket, MasterUserLoginPacket,
  MasterUserLoginResPacket, MasterUserRegisterPacket, MasterUserRegisterResPacket,
  MasterUserTokenLoginPacket, MasterUserLogoutPacket, MasterPacket,
}

module _ (s : Stream) where
  open s use {io, write_string, write_bool, read_string, read_bool}
  open io use {Buf}

  unfoldable pub put_heartbeat : MasterHeartbeatPacket → Buf → Buf
  put_heartbeat p b = write_string p.ip b

  unfoldable pub get_heartbeat : Buf → MasterHeartbeatPacket × Buf
  get_heartbeat b = let (ip, b1) = read_string b in (record { ip = ip }, b1)

  unfoldable pub put_register_response : MasterRegisterResponsePacket → Buf → Buf
  put_register_response p b = write_string p.room_code b

  unfoldable pub get_register_response : Buf → MasterRegisterResponsePacket × Buf
  get_register_response b =
      let (room_code, b1) = read_string b in (record { room_code = room_code }, b1)

  unfoldable pub put_query_room : MasterQueryRoomPacket → Buf → Buf
  put_query_room p b = write_string p.room_code b

  unfoldable pub get_query_room : Buf → MasterQueryRoomPacket × Buf
  get_query_room b = let (room_code, b1) = read_string b in (record { room_code = room_code }, b1)

  unfoldable pub put_user_login : MasterUserLoginPacket → Buf → Buf
  put_user_login p b = let b1 = write_string p.email b in write_string p.password b1

  unfoldable pub get_user_login : Buf → MasterUserLoginPacket × Buf
  get_user_login b =
      let (email, b1) = read_string b in
      let (password, b2) = read_string b1 in (record { email = email; password = password }, b2)

  unfoldable pub put_user_login_res : MasterUserLoginResPacket → Buf → Buf
  put_user_login_res p b =
      let b1 = write_bool p.success b in
      let b2 = write_string p.message b1 in
      let b3 = write_string p.username b2 in write_string p.token b3

  unfoldable pub get_user_login_res : Buf → MasterUserLoginResPacket × Buf
  get_user_login_res b =
      let (success, b1) = read_bool b in
      let (message, b2) = read_string b1 in
      let (username, b3) = read_string b2 in
      let (token, b4) = read_string b3 in
      (record { success = success; message = message; username = username; token = token }, b4)

  unfoldable pub put_user_register : MasterUserRegisterPacket → Buf → Buf
  put_user_register p b =
      let b1 = write_string p.username b in
      let b2 = write_string p.email b1 in write_string p.password b2

  unfoldable pub get_user_register : Buf → MasterUserRegisterPacket × Buf
  get_user_register b =
      let (username, b1) = read_string b in
      let (email, b2) = read_string b1 in
      let (password, b3) = read_string b2 in
      (record { username = username; email = email; password = password }, b3)

  unfoldable pub put_user_register_res : MasterUserRegisterResPacket → Buf → Buf
  put_user_register_res p b =
      let b1 = write_bool p.success b in
      let b2 = write_string p.message b1 in write_string p.token b2

  unfoldable pub get_user_register_res : Buf → MasterUserRegisterResPacket × Buf
  get_user_register_res b =
      let (success, b1) = read_bool b in
      let (message, b2) = read_string b1 in
      let (token, b3) = read_string b2 in
      (record { success = success; message = message; token = token }, b3)

  unfoldable pub put_user_token_login : MasterUserTokenLoginPacket → Buf → Buf
  put_user_token_login p b = let b1 = write_string p.email b in write_string p.token b1

  unfoldable pub get_user_token_login : Buf → MasterUserTokenLoginPacket × Buf
  get_user_token_login b =
      let (email, b1) = read_string b in
      let (token, b2) = read_string b1 in (record { email = email; token = token }, b2)

  unfoldable pub put_user_logout : MasterUserLogoutPacket → Buf → Buf
  put_user_logout p b = let b1 = write_string p.email b in write_string p.token b1

  unfoldable pub get_user_logout : Buf → MasterUserLogoutPacket × Buf
  get_user_logout b =
      let (email, b1) = read_string b in
      let (token, b2) = read_string b1 in (record { email = email; token = token }, b2)

  unfoldable pub put_message : MasterPacket → Buf → Buf
  put_message (MasterPacket.heartbeat p) b = put_heartbeat p b
  put_message (MasterPacket.register_response p) b = put_register_response p b
  put_message (MasterPacket.query_room p) b = put_query_room p b
  put_message (MasterPacket.user_login p) b = put_user_login p b
  put_message (MasterPacket.user_login_res p) b = put_user_login_res p b
  put_message (MasterPacket.user_register p) b = put_user_register p b
  put_message (MasterPacket.user_register_res p) b = put_user_register_res p b
  put_message (MasterPacket.user_token_login p) b = put_user_token_login p b
  put_message (MasterPacket.user_logout p) b = put_user_logout p b

  abbrev message_as : {A : Type 0} → (A → MasterPacket) → A × Buf → Option MasterPacket
  message_as f (a, b) = some (f a)

  -- The deserializer that the master server registers for an id.
  unfoldable pub get_message : ℕ → Buf → Option MasterPacket
  get_message id b =
      if id == 301
      then message_as MasterPacket.heartbeat (get_heartbeat b)
      else if id == 304
      then message_as MasterPacket.register_response (get_register_response b)
      else if id == 307
      then message_as MasterPacket.query_room (get_query_room b)
      else if id == 309
      then message_as MasterPacket.user_login (get_user_login b)
      else if id == 310
      then message_as MasterPacket.user_login_res (get_user_login_res b)
      else if id == 311
      then message_as MasterPacket.user_register (get_user_register b)
      else if id == 312
      then message_as MasterPacket.user_register_res (get_user_register_res b)
      else if id == 313
      then message_as MasterPacket.user_token_login (get_user_token_login b)
      else if id == 314
      then message_as MasterPacket.user_logout (get_user_logout b)
      else none
