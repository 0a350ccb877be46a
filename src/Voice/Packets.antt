-- ===== src/Voice/Packets.antt =====
-- The wire packets of team voice: src/voice/gTeamVoicePackets.h and gTeamVoicePackets.cpp.
pub mod Serial
pub mod Framing
pub mod Uplink
pub mod Downlink
pub mod Session
pub mod Validity
use gip_multiplayer.Base.{
  ℕ, suc, ◌+◌, ◌-◌, ◌%◌, ◌^◌, ◌≡◌, Bool, true, false, ◌&&◌, ◌||◌, List, [], ◌∷◌, ltb, ◌==◌, ◌!=◌,
  if◌then◌else◌, bit_and, bit_or, length, sub32,
}

abbrev pub protocol_version : ℕ
protocol_version = 1

abbrev pub flag_none : ℕ
flag_none = 0

abbrev pub flag_stream_start : ℕ
flag_stream_start = 1

abbrev pub flag_discontinuity : ℕ
flag_discontinuity = 2

-- `~VALID_VOICE_FLAGS`, as the promoted 32-bit integer that the flags are masked with.
abbrev pub invalid_voice_flags : ℕ
invalid_voice_flags = 2 ^ 32 - 1 - bit_or flag_stream_start flag_discontinuity

abbrev pub network_max_opus_bytes : ℕ
network_max_opus_bytes = 256

pub data PacketError : Type 0 where
  none : PacketError
  truncated : PacketError
  trailing_data : PacketError
  invalid_version : PacketError
  invalid_flags : PacketError
  invalid_session : PacketError
  invalid_generation : PacketError
  invalid_sender : PacketError
  empty_payload : PacketError
  oversized_payload : PacketError
  buffer_error : PacketError

pub record SessionPacket : Type 0 where
  pub version : ℕ
  pub enabled : Bool
  pub session_id : ℕ
  pub membership_generation : ℕ
  pub player_id : ℕ

pub record UplinkPacket : Type 0 where
  pub version : ℕ
  pub flags : ℕ
  pub session_id : ℕ
  pub membership_generation : ℕ
  pub stream_generation : ℕ
  pub sequence : ℕ
  pub sample_position : ℕ
  pub payload : List ℕ

pub record DownlinkPacket : Type 0 where
  pub version : ℕ
  pub flags : ℕ
  pub session_id : ℕ
  pub recipient_generation : ℕ
  pub speaker_id : ℕ
  pub speaker_generation : ℕ
  pub stream_generation : ℕ
  pub sequence : ℕ
  pub sample_position : ℕ
  pub payload : List ℕ

unfoldable pub validate_payload : List ℕ → PacketError
validate_payload payload =
    if length payload == 0
    then empty_payload
    else if ltb network_max_opus_bytes (length payload)
    then oversized_payload
    else none

unfoldable pub validate_session_packet : SessionPacket → PacketError
validate_session_packet p =
    if p.version != protocol_version
    then invalid_version
    else if p.enabled
    then if p.session_id == 0
      then invalid_session
      else if p.membership_generation == 0
      then invalid_generation
      else if p.player_id == 0
      then invalid_sender
      else none
    else none

unfoldable pub validate_uplink_packet : UplinkPacket → PacketError
unfolding validate_payload
validate_uplink_packet p =
    if p.version != protocol_version
    then invalid_version
    else if bit_and p.flags invalid_voice_flags != 0
    then invalid_flags
    else if p.session_id == 0
    then invalid_session
    else if p.membership_generation == 0 || p.stream_generation == 0
    then invalid_generation
    else validate_payload p.payload

unfoldable pub validate_downlink_packet : DownlinkPacket → PacketError
unfolding validate_payload
validate_downlink_packet p =
    if p.version != protocol_version
    then invalid_version
    else if bit_and p.flags invalid_voice_flags != 0
    then invalid_flags
    else if p.session_id == 0
    then invalid_session
    else if p.recipient_generation == 0 || p.speaker_generation == 0 || p.stream_generation == 0
    then invalid_generation
    else if p.speaker_id == 0
    then invalid_sender
    else validate_payload p.payload

-- `sequence` is newer if it lies less than half the ring of 2^32 numbers ahead.
unfoldable pub sequence_distance : ℕ → ℕ → ℕ
sequence_distance newer older = sub32 newer older

unfoldable pub is_sequence_newer : ℕ → ℕ → Bool
is_sequence_newer sequence reference =
    let distance = sub32 sequence reference in distance != 0 && ltb distance 0x80000000
