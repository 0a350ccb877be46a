-- ===== src/Master/RoundTrip.antt =====
-- Every plain message to or from the master server that is written is read back as itself.
use gip_multiplayer.Base.{◌≡◌, ap, false, [], some}
use gip_multiplayer.Wire.Values.{Stream, StreamLaws}
use gip_multiplayer.Wire.Chain.{held}
use gip_multiplayer.Master.{MasterPacket, master_packet_id}
use gip_multiplayer.Master.Serial.{put_message, get_message}
use gip_multiplayer.Master.Fields.{
  HeartbeatFits, put_heartbeat-Wrote, get_heartbeat-Took, RegisterResponseFits,
  put_register_response-Wrote, get_register_response-Took, QueryRoomFits, put_query_room-Wrote,
  get_query_room-Took, UserLoginFits, put_user_login-Wrote, get_user_login-Took, UserLoginResFits,
  put_user_login_res-Wrote, get_user_login_res-Took, UserRegisterFits, put_user_register-Wrote,
  get_user_register-Took, UserRegisterResFits, put_user_register_res-Wrote,
  get_user_register_res-Took, UserTokenLoginFits, put_user_token_login-Wrote,
  get_user_token_login-Took, UserLogoutFits, put_user_logout-Wrote, get_user_logout-Took,
}

module _ (s : Stream) (ls : StreamLaws s) where
  open s use {io}
  open io use {Buf}
  open ls use {laws}
  open laws use {contents, failed}

  -- Each string of the message is shorter than 4 GB.
  abbrev pub MessageFits : MasterPacket → Type 0
  MessageFits (MasterPacket.heartbeat p) = HeartbeatFits s ls p
  MessageFits (MasterPacket.register_response p) = RegisterResponseFits s ls p
  MessageFits (MasterPacket.query_room p) = QueryRoomFits s ls p
  MessageFits (MasterPacket.user_login p) = UserLoginFits s ls p
  MessageFits (MasterPacket.user_login_res p) = UserLoginResFits s ls p
  MessageFits (MasterPacket.user_register p) = UserRegisterFits s ls p
  MessageFits (MasterPacket.user_register_res p) = UserRegisterResFits s ls p
  MessageFits (MasterPacket.user_token_login p) = UserTokenLoginFits s ls p
  MessageFits (MasterPacket.user_logout p) = UserLogoutFits s ls p

  -- A message whose strings are shorter than 4 GB, written to an empty buffer by the serializer of
  -- its class without an error, is what the deserializer registered for its id reads from the buffer.
  pub get-put_message :
      (p : MasterPacket) (b : Buf)
      → MessageFits p
      → contents b ≡ []
      → failed (put_message s p b) ≡ false
      → get_message s (master_packet_id p) (put_message s p b) ≡ some p
  unfolding get_message put_message master_packet_id
  get-put_message (MasterPacket.heartbeat p) b f e g =
      ap (λ x. some (MasterPacket.heartbeat x))
        (get_heartbeat-Took s ls p [] _ f g
          (held io laws b _ _ (put_heartbeat-Wrote s ls p b) e g)).0
  get-put_message (MasterPacket.register_response p) b f e g =
      ap (λ x. some (MasterPacket.register_response x))
        (get_register_response-Took s ls p [] _ f g
          (held io laws b _ _ (put_register_response-Wrote s ls p b) e g)).0
  get-put_message (MasterPacket.query_room p) b f e g =
      ap (λ x. some (MasterPacket.query_room x))
        (get_query_room-Took s ls p [] _ f g
          (held io laws b _ _ (put_query_room-Wrote s ls p b) e g)).0
  get-put_message (MasterPacket.user_login p) b f e g =
      ap (λ x. some (MasterPacket.user_login x))
        (get_user_login-Took s ls p [] _ f g
          (held io laws b _ _ (put_user_login-Wrote s ls p b) e g)).0
  get-put_message (MasterPacket.user_login_res p) b f e g =
      ap (λ x. some (MasterPacket.user_login_res x))
        (get_user_login_res-Took s ls p [] _ f g
          (held io laws b _ _ (put_user_login_res-Wrote s ls p b) e g)).0
  get-put_message (MasterPacket.user_register p) b f e g =
      ap (λ x. some (MasterPacket.user_register x))
        (get_user_register-Took s ls p [] _ f g
          (held io laws b _ _ (put_user_register-Wrote s ls p b) e g)).0
  get-put_message (MasterPacket.user_register_res p) b f e g =
      ap (λ x. some (MasterPacket.user_register_res x))
        (get_user_register_res-Took s ls p [] _ f g
          (held io laws b _ _ (put_user_register_res-Wrote s ls p b) e g)).0
  get-put_message (MasterPacket.user_token_login p) b f e g =
      ap (λ x. some (MasterPacket.user_token_login x))
        (get_user_token_login-Took s ls p [] _ f g
          (held io laws b _ _ (put_user_token_login-Wrote s ls p b) e g)).0
  get-put_message (MasterPacket.user_logout p) b f e g =
      ap (λ x. some (MasterPacket.user_logout x))
        (get_user_logout-Took s ls p [] _ f g
          (held io laws b _ _ (put_user_logout-Wrote s ls p b) e g)).0
