-- ===== src/Master/Fields.antt =====
-- The layout of each message of the master server, and that reading takes what was written.
use gip_multiplayer.Base.{ℕ, ◌^◌, ◌<◌, ◌≡◌, ◌∙◌, false, List, ◌++◌, append_assoc, length}
use gip_multiplayer.Wire.Chain.{Wrote, Wrote-then, Took}
use gip_multiplayer.Wire.Values.{Stream, StreamLaws}
use gip_multiplayer.Master.{
  MasterHeartbeatPacket, MasterRegisterResponsePacket, MasterQueryRoomPacket, MasterUserLoginPacket,
  MasterUserLoginResPacket, MasterUserRegisterPacket, MasterUserRegisterResPacket,
  MasterUserTokenLoginPacket, MasterUserLogoutPacket,
}
use gip_multiplayer.Master.Serial.{
  put_heartbeat, get_heartbeat, put_register_response, get_register_response, put_query_room,
  get_query_room, put_user_login, get_user_login, put_user_login_res, get_user_login_res,
  put_user_register, get_user_register, put_user_register_res, get_user_register_res,
  put_user_token_login, get_user_token_login, put_user_logout, get_user_logout,
}

module _ (s : Stream) (ls : StreamLaws s) where
  open s use {io}
  open io use {Buf}
  open ls use {
    laws, string_bytes, bool_bytes, write_string-Wrote, write_bool-Wrote, read_string-Took,
    read_bool-Took,
  }
  open laws use {contents, failed}

  unfoldable pub encode_heartbeat : MasterHeartbeatPacket → List ℕ
  encode_heartbeat p = string_bytes p.ip

  abbrev pub HeartbeatFits : MasterHeartbeatPacket → Type 0
  HeartbeatFits p = (length p.ip < 2 ^ 32)

  pub put_heartbeat-Wrote :
      (p : MasterHeartbeatPacket) (b : Buf)
      → Wrote io laws b (put_heartbeat s p b) (encode_heartbeat p)
  unfolding put_heartbeat encode_heartbeat
  put_heartbeat-Wrote p b = write_string-Wrote p.ip b

  pub get_heartbeat-Took :
      (p : MasterHeartbeatPacket) (rest : List ℕ) (b : Buf)
      → HeartbeatFits p
      → failed b ≡ false
      → contents b ≡ encode_heartbeat p ++ rest
      → Took io laws (get_heartbeat s b) p rest
  unfolding get_heartbeat encode_heartbeat
  get_heartbeat-Took p rest b fits g e =
      let t1 = read_string-Took p.ip _ _ fits g e in (λ i. record { ip = t1.0 i }, t1.1, t1.2)

  unfoldable pub encode_register_response : MasterRegisterResponsePacket → List ℕ
  encode_register_response p = string_bytes p.room_code

  abbrev pub RegisterResponseFits : MasterRegisterResponsePacket → Type 0
  RegisterResponseFits p = (length p.room_code < 2 ^ 32)

  pub put_register_response-Wrote :
      (p : MasterRegisterResponsePacket) (b : Buf)
      → Wrote io laws b (put_register_response s p b) (encode_register_response p)
  unfolding put_register_response encode_register_response
  put_register_response-Wrote p b = write_string-Wrote p.room_code b

  pub get_register_response-Took :
      (p : MasterRegisterResponsePacket) (rest : List ℕ) (b : Buf)
      → RegisterResponseFits p
      → failed b ≡ false
      → contents b ≡ encode_register_response p ++ rest
      → Took io laws (get_register_response s b) p rest
  unfolding get_register_response encode_register_response
  get_register_response-Took p rest b fits g e =
      let t1 = read_string-Took p.room_code _ _ fits g e in
      (λ i. record { room_code = t1.0 i }, t1.1, t1.2)

  unfoldable pub encode_query_room : MasterQueryRoomPacket → List ℕ
  encode_query_room p = string_bytes p.room_code

  abbrev pub QueryRoomFits : MasterQueryRoomPacket → Type 0
  QueryRoomFits p = (length p.room_code < 2 ^ 32)

  pub put_query_room-Wrote :
      (p : MasterQueryRoomPacket) (b : Buf)
      → Wrote io laws b (put_query_room s p b) (encode_query_room p)
  unfolding put_query_room encode_query_room
  put_query_room-Wrote p b = write_string-Wrote p.room_code b

  pub get_query_room-Took :
      (p : MasterQueryRoomPacket) (rest : List ℕ) (b : Buf)
      → QueryRoomFits p
      → failed b ≡ false
      → contents b ≡ encode_query_room p ++ rest
      → Took io laws (get_query_room s b) p rest
  unfolding get_query_room encode_query_room
  get_query_room-Took p rest b fits g e =
      let t1 = read_string-Took p.room_code _ _ fits g e in
      (λ i. record { room_code = t1.0 i }, t1.1, t1.2)

  unfoldable pub encode_user_login : MasterUserLoginPacket → List ℕ
  encode_user_login p = string_bytes p.email ++ (string_bytes p.password)

  abbrev pub UserLoginFits : MasterUserLoginPacket → Type 0
  UserLoginFits p = (length p.email < 2 ^ 32) × (length p.password < 2 ^ 32)

  pub put_user_login-Wrote :
      (p : MasterUserLoginPacket) (b : Buf)
      → Wrote io laws b (put_user_login s p b) (encode_user_login p)
  unfolding put_user_login encode_user_login
  put_user_login-Wrote p b =
      Wrote-then io laws _ _ _ _ _ (write_string-Wrote p.email b) (write_string-Wrote p.password _)

  pub get_user_login-Took :
      (p : MasterUserLoginPacket) (rest : List ℕ) (b : Buf)
      → UserLoginFits p
      → failed b ≡ false
      → contents b ≡ encode_user_login p ++ rest
      → Took io laws (get_user_login s b) p rest
  unfolding get_user_login encode_user_login
  get_user_login-Took p rest b fits g e =
      let t1 =
        read_string-Took p.email _ _ fits.0 g
          (e ∙ append_assoc (string_bytes p.email) (string_bytes p.password) rest) in
      let t2 = read_string-Took p.password _ _ fits.1 t1.2 t1.1 in
      (λ i. record { email = t1.0 i; password = t2.0 i }, t2.1, t2.2)

  unfoldable pub encode_user_login_res : MasterUserLoginResPacket → List ℕ
  encode_user_login_res p =
      bool_bytes p.success
      ++ (string_bytes p.message ++ (string_bytes p.username ++ (string_bytes p.token)))

  abbrev pub UserLoginResFits : MasterUserLoginResPacket → Type 0
  UserLoginResFits p =
      (length p.message < 2 ^ 32) × (length p.username < 2 ^ 32) × (length p.token < 2 ^ 32)

  pub put_user_login_res-Wrote :
      (p : MasterUserLoginResPacket) (b : Buf)
      → Wrote io laws b (put_user_login_res s p b) (encode_user_login_res p)
  unfolding put_user_login_res encode_user_login_res
  put_user_login_res-Wrote p b = Wrote-then io laws _ _ _ _ _ (write_bool-Wrote p.success b) (
      Wrote-then io laws _ _ _ _ _ (write_string-Wrote p.message _) (
        Wrote-then io laws _ _ _ _ _ (write_string-Wrote p.username _)
          (write_string-Wrote p.token _)))

  pub get_user_login_res-Took :
      (p : MasterUserLoginResPacket) (rest : List ℕ) (b : Buf)
      → UserLoginResFits p
      → failed b ≡ false
      → contents b ≡ encode_user_login_res p ++ rest
      → Took io laws (get_user_login_res s b) p rest
  unfolding get_user_login_res encode_user_login_res
  get_user_login_res-Took p rest b fits g e =
      let t1 = read_bool-Took p.success _ _ g (
        e
        ∙ append_assoc (bool_bytes p.success)
            (string_bytes p.message ++ (string_bytes p.username ++ (string_bytes p.token))) rest) in
      let t2 = read_string-Took p.message _ _ fits.0 t1.2 (
        t1.1
        ∙ append_assoc (string_bytes p.message) (string_bytes p.username ++ (string_bytes p.token))
            rest) in
      let t3 =
        read_string-Took p.username _ _ fits.1 t2.2
          (t2.1 ∙ append_assoc (string_bytes p.username) (string_bytes p.token) rest) in
      let t4 = read_string-Took p.token _ _ fits.2 t3.2 t3.1 in
      (
        λ i. record { success = t1.0 i; message = t2.0 i; username = t3.0 i; token = t4.0 i },
        t4.1,
        t4.2,
      )

  unfoldable pub encode_user_register : MasterUserRegisterPacket → List ℕ
  encode_user_register p =
      string_bytes p.username ++ (string_bytes p.email ++ (string_bytes p.password))

  abbrev pub UserRegisterFits : MasterUserRegisterPacket → Type 0
  UserRegisterFits p =
      (length p.username < 2 ^ 32) × (length p.email < 2 ^ 32) × (length p.password < 2 ^ 32)

  pub put_user_register-Wrote :
      (p : MasterUserRegisterPacket) (b : Buf)
      → Wrote io laws b (put_user_register s p b) (encode_user_register p)
  unfolding put_user_register encode_user_register
  put_user_register-Wrote p b = Wrote-then io laws _ _ _ _ _ (write_string-Wrote p.username b) (
      Wrote-then io laws _ _ _ _ _ (write_string-Wrote p.email _) (write_string-Wrote p.password _))

  pub get_user_register-Took :
      (p : MasterUserRegisterPacket) (rest : List ℕ) (b : Buf)
      → UserRegisterFits p
      → failed b ≡ false
      → contents b ≡ encode_user_register p ++ rest
      → Took io laws (get_user_register s b) p rest
  unfolding get_user_register encode_user_register
  get_user_register-Took p rest b fits g e =
      let t1 = read_string-Took p.username _ _ fits.0 g (
        e
        ∙ append_assoc (string_bytes p.username) (string_bytes p.email ++ (string_bytes p.password))
            rest) in
      let t2 =
        read_string-Took p.email _ _ fits.1 t1.2
          (t1.1 ∙ append_assoc (string_bytes p.email) (string_bytes p.password) rest) in
      let t3 = read_string-Took p.password _ _ fits.2 t2.2 t2.1 in
      (λ i. record { username = t1.0 i; email = t2.0 i; password = t3.0 i }, t3.1, t3.2)

  unfoldable pub encode_user_register_res : MasterUserRegisterResPacket → List ℕ
  encode_user_register_res p =
      bool_bytes p.success ++ (string_bytes p.message ++ (string_bytes p.token))

  abbrev pub UserRegisterResFits : MasterUserRegisterResPacket → Type 0
  UserRegisterResFits p = (length p.message < 2 ^ 32) × (length p.token < 2 ^ 32)

  pub put_user_register_res-Wrote :
      (p : MasterUserRegisterResPacket) (b : Buf)
      → Wrote io laws b (put_user_register_res s p b) (encode_user_register_res p)
  unfolding put_user_register_res encode_user_register_res
  put_user_register_res-Wrote p b =
      Wrote-then io laws _ _ _ _ _ (write_bool-Wrote p.success b) (
        Wrote-then io laws _ _ _ _ _ (write_string-Wrote p.message _)
          (write_string-Wrote p.token _))

  pub get_user_register_res-Took :
      (p : MasterUserRegisterResPacket) (rest : List ℕ) (b : Buf)
      → UserRegisterResFits p
      → failed b ≡ false
      → contents b ≡ encode_user_register_res p ++ rest
      → Took io laws (get_user_register_res s b) p rest
  unfolding get_user_register_res encode_user_register_res
  get_user_register_res-Took p rest b fits g e =
      let t1 = read_bool-Took p.success _ _ g (
        e
        ∙ append_assoc (bool_bytes p.success) (string_bytes p.message ++ (string_bytes p.token))
            rest) in
      let t2 =
        read_string-Took p.message _ _ fits.0 t1.2
          (t1.1 ∙ append_assoc (string_bytes p.message) (string_bytes p.token) rest) in
      let t3 = read_string-Took p.token _ _ fits.1 t2.2 t2.1 in
      (λ i. record { success = t1.0 i; message = t2.0 i; token = t3.0 i }, t3.1, t3.2)

  unfoldable pub encode_user_token_login : MasterUserTokenLoginPacket → List ℕ
  encode_user_token_login p = string_bytes p.email ++ (string_bytes p.token)

  abbrev pub UserTokenLoginFits : MasterUserTokenLoginPacket → Type 0
  UserTokenLoginFits p = (length p.email < 2 ^ 32) × (length p.token < 2 ^ 32)

  pub put_user_token_login-Wrote :
      (p : MasterUserTokenLoginPacket) (b : Buf)
      → Wrote io laws b (put_user_token_login s p b) (encode_user_token_login p)
  unfolding put_user_token_login encode_user_token_login
  put_user_token_login-Wrote p b =
      Wrote-then io laws _ _ _ _ _ (write_string-Wrote p.email b) (write_string-Wrote p.token _)

  pub get_user_token_login-Took :
      (p : MasterUserTokenLoginPacket) (rest : List ℕ) (b : Buf)
      → UserTokenLoginFits p
      → failed b ≡ false
      → contents b ≡ encode_user_token_login p ++ rest
      → Took io laws (get_user_token_login s b) p rest
  unfolding get_user_token_login encode_user_token_login
  get_user_token_login-Took p rest b fits g e =
      let t1 =
        read_string-Took p.email _ _ fits.0 g
          (e ∙ append_assoc (string_bytes p.email) (string_bytes p.token) rest) in
      let t2 = read_string-Took p.token _ _ fits.1 t1.2 t1.1 in
      (λ i. record { email = t1.0 i; token = t2.0 i }, t2.1, t2.2)

  unfoldable pub encode_user_logout : MasterUserLogoutPacket → List ℕ
  encode_user_logout p = string_bytes p.email ++ (string_bytes p.token)

  abbrev pub UserLogoutFits : MasterUserLogoutPacket → Type 0
  UserLogoutFits p = (length p.email < 2 ^ 32) × (length p.token < 2 ^ 32)

  pub put_user_logout-Wrote :
      (p : MasterUserLogoutPacket) (b : Buf)
      → Wrote io laws b (put_user_logout s p b) (encode_user_logout p)
  unfolding put_user_logout encode_user_logout
  put_user_logout-Wrote p b =
      Wrote-then io laws _ _ _ _ _ (write_string-Wrote p.email b) (write_string-Wrote p.token _)

  pub get_user_logout-Took :
      (p : MasterUserLogoutPacket) (rest : List ℕ) (b : Buf)
      → UserLogoutFits p
      → failed b ≡ false
      → contents b ≡ encode_user_logout p ++ rest
      → Took io laws (get_user_logout s b) p rest
  unfolding get_user_logout encode_user_logout
  get_user_logout-Took p rest b fits g e =
      let t1 =
        read_string-Took p.email _ _ fits.0 g
          (e ∙ append_assoc (string_bytes p.email) (string_bytes p.token) rest) in
      let t2 = read_string-Took p.token _ _ fits.1 t1.2 t1.1 in
      (λ i. record { email = t1.0 i; token = t2.0 i }, t2.1, t2.2)
