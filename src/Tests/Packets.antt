-- ===== src/Tests/Packets.antt =====
-- The voice packets at concrete inputs, over the byte buffer of Wire/Bytes.
use gip_multiplayer.Base.{◌≡◌, refl, true, false, [], ◌∷◌, some, arith}
use gip_multiplayer.Wire.Bytes.{Unread, bytes_buffer, bytes_laws}
use gip_multiplayer.Voice.Packets.{
  PacketError, SessionPacket, UplinkPacket, DownlinkPacket, validate_uplink_packet,
  validate_downlink_packet,
}
use gip_multiplayer.Voice.Packets.Serial.{
  ok, err, serialize_uplink, deserialize_uplink, serialize_downlink, deserialize_downlink,
  put_uplink, put_downlink, check_buffer, get_payload, get_uplink_header,
}
use gip_multiplayer.Voice.Packets.Uplink.{deserialize-serialize_uplink}
use gip_multiplayer.Voice.Packets.Downlink.{deserialize-serialize_downlink}
use gip_multiplayer.Voice.Packets.Validity.{IsSendable, deserialize_uplink-valid}

abbrev empty_buffer : Unread
empty_buffer = record { unread = []; bad = false }

abbrev hello : UplinkPacket
hello = record {
  version = 1;
  flags = 1;
  session_id = 7;
  membership_generation = 300;
  stream_generation = 2;
  sequence = 70000;
  sample_position = 960;
  payload = 9 ∷ 8 ∷ [];
}

abbrev relayed : DownlinkPacket
relayed = record {
  version = 1;
  flags = 3;
  session_id = 7;
  recipient_generation = 5;
  speaker_id = 42;
  speaker_generation = 300;
  stream_generation = 2;
  sequence = 70000;
  sample_position = 960;
  payload = 9 ∷ 8 ∷ [];
}

abbrev joined : SessionPacket
joined = record {
  version = 1;
  enabled = true;
  session_id = 7;
  membership_generation = 300;
  player_id = 42;
}

hello-valid : validate_uplink_packet hello ≡ PacketError.none
unfolding validate_uplink_packet
hello-valid = refl

-- A packet with a byte too many is refused.
hello_trailing :
    deserialize_uplink bytes_buffer (
      some (record {
        unread =
            1 ∷ 1 ∷ 7 ∷ 0 ∷ 0 ∷ 0 ∷ 0 ∷ 0 ∷ 0 ∷ 0 ∷ 44 ∷ 1 ∷ 0 ∷ 0 ∷ 2 ∷ 0 ∷ 0 ∷ 0 ∷ 112 ∷ 17 ∷ 1
            ∷ 0 ∷ 192 ∷ 3 ∷ 0 ∷ 0 ∷ 0 ∷ 0 ∷ 0 ∷ 0 ∷ 2 ∷ 0 ∷ 9 ∷ 8 ∷ 7 ∷ [];
        bad = false;
      }))
    ≡ err PacketError.trailing_data
unfolding deserialize_uplink check_buffer get_payload get_uplink_header
hello_trailing = refl

deserialize-serialize_uplink_example :
    (c : Unread) × (serialize_uplink bytes_buffer (some hello) empty_buffer ≡ ok c)
    × (deserialize_uplink bytes_buffer (some c) ≡ ok hello)
unfolding validate_uplink_packet put_uplink
deserialize-serialize_uplink_example =
    deserialize-serialize_uplink bytes_buffer bytes_laws hello empty_buffer (omega arith) refl refl
      refl

deserialize-serialize_downlink_example :
    (c : Unread) × (serialize_downlink bytes_buffer (some relayed) empty_buffer ≡ ok c)
    × (deserialize_downlink bytes_buffer (some c) ≡ ok relayed)
unfolding validate_downlink_packet put_downlink
deserialize-serialize_downlink_example =
    deserialize-serialize_downlink bytes_buffer bytes_laws relayed empty_buffer (omega arith) refl
      refl refl

abbrev hello_bytes : Unread
hello_bytes = record {
  unread =
      1 ∷ 1 ∷ 7 ∷ 0 ∷ 0 ∷ 0 ∷ 0 ∷ 0 ∷ 0 ∷ 0 ∷ 44 ∷ 1 ∷ 0 ∷ 0 ∷ 2 ∷ 0 ∷ 0 ∷ 0 ∷ 112 ∷ 17 ∷ 1 ∷ 0
      ∷ 192 ∷ 3 ∷ 0 ∷ 0 ∷ 0 ∷ 0 ∷ 0 ∷ 0 ∷ 2 ∷ 0 ∷ 9 ∷ 8 ∷ [];
  bad = false;
}

deserialize_uplink-valid_example : IsSendable hello
unfolding deserialize_uplink check_buffer get_payload get_uplink_header validate_uplink_packet
deserialize_uplink-valid_example =
    deserialize_uplink-valid bytes_buffer (some hello_bytes) hello (omega arith) refl
