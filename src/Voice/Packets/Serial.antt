-- ===== src/Voice/Packets/Serial.antt =====
-- The packet serializers of src/voice/gTeamVoicePackets.cpp, over any byte buffer.
use gip_multiplayer.Base.{
  ℕ, ◌+◌, ◌%◌, ◌^◌, List, [], Option, none, some, ltb, ◌==◌, ◌!=◌, if◌then◌else◌, length,
}
use gip_multiplayer.Wire.{Buffer}
use gip_multiplayer.Voice.Packets.{
  PacketError, truncated, trailing_data, empty_payload, oversized_payload, buffer_error,
  SessionPacket, UplinkPacket, DownlinkPacket, validate_session_packet, validate_uplink_packet,
  validate_downlink_packet, network_max_opus_bytes,
}

-- `err e` is `report(e); return nullptr;`, and `null` a bare `return nullptr;`.
pub data Outcome {ℓ} (A : Type ℓ) : Type ℓ where
  ok : A → Outcome A
  err : PacketError → Outcome A
  null : Outcome A

infixl 5 ◌>>=◌
abbrev pub ◌>>=◌ {ℓ κ} : {A : Type ℓ} {B : Type κ} → Outcome A → (A → Outcome B) → Outcome B
ok a >>= f = f a
err e >>= f = err e
null >>= f = null

-- `if (error != NONE) { report(error); return nullptr; }`
abbrev pub unless_error {ℓ} : {A : Type ℓ} → PacketError → A → Outcome A
unless_error PacketError.none a = ok a
unless_error PacketError.truncated a = err truncated
unless_error PacketError.trailing_data a = err trailing_data
unless_error PacketError.invalid_version a = err PacketError.invalid_version
unless_error PacketError.invalid_flags a = err PacketError.invalid_flags
unless_error PacketError.invalid_session a = err PacketError.invalid_session
unless_error PacketError.invalid_generation a = err PacketError.invalid_generation
unless_error PacketError.invalid_sender a = err PacketError.invalid_sender
unless_error PacketError.empty_payload a = err empty_payload
unless_error PacketError.oversized_payload a = err oversized_payload
unless_error PacketError.buffer_error a = err buffer_error

abbrev pub session_packet_bytes : ℕ
session_packet_bytes = 1 + 1 + 8 + 4 + 8

abbrev pub uplink_header_bytes : ℕ
uplink_header_bytes = 1 + 1 + 8 + 4 + 4 + 4 + 8 + 2

abbrev pub downlink_header_bytes : ℕ
downlink_header_bytes = 1 + 1 + 8 + 4 + 8 + 4 + 4 + 4 + 8 + 2

-- `static_cast<std::uint16_t>(payload.size())`
abbrev pub payload_size : List ℕ → ℕ
payload_size payload = length payload % 2 ^ 16

module _ (io : Buffer) where
  open io use {Buf, write_int, write, read_int, read, readable_bytes, get_and_clear_last_error}

  -- `if (hasBufferError(buffer)) { report(BUFFER_ERROR); return nullptr; }`
  unfoldable pub check_buffer : Buf → Outcome Buf
  check_buffer b =
      let (bad, b') = get_and_clear_last_error b in if bad then err buffer_error else ok b'

  unfoldable pub put_session : SessionPacket → Buf → Buf
  put_session p b =
      let b1 = write_int 1 p.version b in
      let b2 = write_int 1 (if p.enabled then 1 else 0) b1 in
      let b3 = write_int 8 p.session_id b2 in
      let b4 = write_int 4 p.membership_generation b3 in write_int 8 p.player_id b4

  unfoldable pub serialize_session : Option SessionPacket → Buf → Outcome Buf
  serialize_session none b = null
  serialize_session (some p) b =
      unless_error (validate_session_packet p) b >>= λ b. check_buffer (put_session p b)

  unfoldable pub get_session : Buf → SessionPacket × Buf
  get_session b =
      let (version, b1) = read_int 1 b in
      let (enabled, b2) = read_int 1 b1 in
      let (session_id, b3) = read_int 8 b2 in
      let (membership_generation, b4) = read_int 4 b3 in
      let (player_id, b5) = read_int 8 b4 in
      (
        record {
          version = version;
          enabled = enabled != 0;
          session_id = session_id;
          membership_generation = membership_generation;
          player_id = player_id;
        },
        b5,
      )

  unfoldable pub deserialize_session : Option Buf → Outcome SessionPacket
  deserialize_session none = err truncated
  deserialize_session (some b) =
      if ltb (readable_bytes b) session_packet_bytes
      then err truncated
      else if ltb session_packet_bytes (readable_bytes b)
      then err trailing_data
      else let (p, b1) = get_session b in
        check_buffer b1 >>= λ _. unless_error (validate_session_packet p) p

  unfoldable pub put_uplink : UplinkPacket → Buf → Buf
  put_uplink p b =
      let b1 = write_int 1 p.version b in
      let b2 = write_int 1 p.flags b1 in
      let b3 = write_int 8 p.session_id b2 in
      let b4 = write_int 4 p.membership_generation b3 in
      let b5 = write_int 4 p.stream_generation b4 in
      let b6 = write_int 4 p.sequence b5 in
      let b7 = write_int 8 p.sample_position b6 in
      let b8 = write_int 2 (payload_size p.payload) b7 in write p.payload b8

  unfoldable pub serialize_uplink : Option UplinkPacket → Buf → Outcome Buf
  serialize_uplink none b = null
  serialize_uplink (some p) b =
      unless_error (validate_uplink_packet p) b >>= λ b. check_buffer (put_uplink p b)

  -- The header, with the payload still empty, and the announced payload size.
  unfoldable pub get_uplink_header : Buf → UplinkPacket × ℕ × Buf
  get_uplink_header b =
      let (version, b1) = read_int 1 b in
      let (flags, b2) = read_int 1 b1 in
      let (session_id, b3) = read_int 8 b2 in
      let (membership_generation, b4) = read_int 4 b3 in
      let (stream_generation, b5) = read_int 4 b4 in
      let (sequence, b6) = read_int 4 b5 in
      let (sample_position, b7) = read_int 8 b6 in
      let (size, b8) = read_int 2 b7 in
      (
        record {
          version = version;
          flags = flags;
          session_id = session_id;
          membership_generation = membership_generation;
          stream_generation = stream_generation;
          sequence = sequence;
          sample_position = sample_position;
          payload = [];
        },
        size,
        b8,
      )

  -- What both voice packets do after their header: exactly `size` bytes must be left.
  unfoldable pub get_payload : ℕ → Buf → Outcome (List ℕ)
  get_payload size b =
      if size == 0
      then err empty_payload
      else if ltb network_max_opus_bytes size
      then err oversized_payload
      else if ltb (readable_bytes b) size
      then err truncated
      else if ltb size (readable_bytes b)
      then err trailing_data
      else let (payload, b1) = read size b in check_buffer b1 >>= λ _. ok payload

  unfoldable pub deserialize_uplink : Option Buf → Outcome UplinkPacket
  deserialize_uplink none = err truncated
  deserialize_uplink (some b) =
      if ltb (readable_bytes b) uplink_header_bytes
      then err truncated
      else let (p, size, b1) = get_uplink_header b in
        check_buffer b1 >>= λ b2. get_payload size b2 >>= λ payload.
        let q : UplinkPacket = record p { payload = payload } in
        unless_error (validate_uplink_packet q) q

  unfoldable pub put_downlink : DownlinkPacket → Buf → Buf
  put_downlink p b =
      let b1 = write_int 1 p.version b in
      let b2 = write_int 1 p.flags b1 in
      let b3 = write_int 8 p.session_id b2 in
      let b4 = write_int 4 p.recipient_generation b3 in
      let b5 = write_int 8 p.speaker_id b4 in
      let b6 = write_int 4 p.speaker_generation b5 in
      let b7 = write_int 4 p.stream_generation b6 in
      let b8 = write_int 4 p.sequence b7 in
      let b9 = write_int 8 p.sample_position b8 in
      let b10 = write_int 2 (payload_size p.payload) b9 in write p.payload b10

  unfoldable pub serialize_downlink : Option DownlinkPacket → Buf → Outcome Buf
  serialize_downlink none b = null
  serialize_downlink (some p) b =
      unless_error (validate_downlink_packet p) b >>= λ b. check_buffer (put_downlink p b)

  unfoldable pub get_downlink_header : Buf → DownlinkPacket × ℕ × Buf
  get_downlink_header b =
      let (version, b1) = read_int 1 b in
      let (flags, b2) = read_int 1 b1 in
      let (session_id, b3) = read_int 8 b2 in
      let (recipient_generation, b4) = read_int 4 b3 in
      let (speaker_id, b5) = read_int 8 b4 in
      let (speaker_generation, b6) = read_int 4 b5 in
      let (stream_generation, b7) = read_int 4 b6 in
      let (sequence, b8) = read_int 4 b7 in
      let (sample_position, b9) = read_int 8 b8 in
      let (size, b10) = read_int 2 b9 in
      (
        record {
          version = version;
          flags = flags;
          session_id = session_id;
          recipient_generation = recipient_generation;
          speaker_id = speaker_id;
          speaker_generation = speaker_generation;
          stream_generation = stream_generation;
          sequence = sequence;
          sample_position = sample_position;
          payload = [];
        },
        size,
        b10,
      )

  unfoldable pub deserialize_downlink : Option Buf → Outcome DownlinkPacket
  deserialize_downlink none = err truncated
  deserialize_downlink (some b) =
      if ltb (readable_bytes b) downlink_header_bytes
      then err truncated
      else let (p, size, b1) = get_downlink_header b in
        check_buffer b1 >>= λ b2. get_payload size b2 >>= λ payload.
        let q : DownlinkPacket = record p { payload = payload } in
        unless_error (validate_downlink_packet q) q
