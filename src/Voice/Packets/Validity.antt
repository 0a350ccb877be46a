-- ===== src/Voice/Packets/Validity.antt =====
-- What the validators accept, and that nothing invalid leaves or enters through the serializers.
use gip_multiplayer.Base.{
  ℕ, ◌≤◌, ◌<◌, ◌≡◌, ◌≢◌, ◌↔◌, refl, Bool, true, Option, some, ◌==◌, subst, ltb, leb, length,
  every_below, every_below_sound, bit_and, arith, inl, inr, Bool-cases, if◌then◌else◌,
}
use gip_multiplayer.Wire.{Buffer}
use gip_multiplayer.Voice.Packets.{
  PacketError, UplinkPacket, DownlinkPacket, validate_uplink_packet, validate_downlink_packet,
  invalid_voice_flags,
}
use gip_multiplayer.Voice.Packets.Serial.{
  ◌>>=◌, Outcome, ok, unless_error, check_buffer, get_payload, get_uplink_header,
  get_downlink_header, uplink_header_bytes, downlink_header_bytes, deserialize_uplink,
  deserialize_downlink,
}
use gip_multiplayer.Voice.Packets.Framing.{unless_error-eq_ok, >>=-eq_ok}

-- Of a byte of flags, the masked test passes exactly below 4.
abbrev flags_agree : ℕ → Bool
flags_agree f = if bit_and f invalid_voice_flags == 0 then ltb f 4 else leb 4 f

flags_table : every_below flags_agree 256 ≡ true
unfolding every_below
flags_table = refl

pub flags_lem : (f : ℕ) → f < 256 → flags_agree f ≡ true
flags_lem f h = every_below_sound flags_agree 256 h flags_table

-- What team voice promises of a downlink packet that is worth playing.
pub record IsPlayable (p : DownlinkPacket) : Type 0 where
  pub version : p.version ≡ 1
  pub flags : p.flags < 4
  pub session : p.session_id ≢ 0
  pub recipient : p.recipient_generation ≢ 0
  pub speaker_generation : p.speaker_generation ≢ 0
  pub stream : p.stream_generation ≢ 0
  pub speaker : p.speaker_id ≢ 0
  pub not_empty : 0 < length p.payload
  pub fits : length p.payload ≤ 256

-- What team voice promises of an uplink packet that is worth relaying.
pub record IsSendable (p : UplinkPacket) : Type 0 where
  pub version : p.version ≡ 1
  pub flags : p.flags < 4
  pub session : p.session_id ≢ 0
  pub membership : p.membership_generation ≢ 0
  pub stream : p.stream_generation ≢ 0
  pub not_empty : 0 < length p.payload
  pub fits : length p.payload ≤ 256

-- Of packets with a byte of flags, the validator accepts exactly the sendable ones.
pub validate_uplink_packet_iff :
    (p : UplinkPacket)
    → p.flags < 256
    → (validate_uplink_packet p ≡ PacketError.none) ↔ IsSendable p
unfolding validate_uplink_packet
validate_uplink_packet_iff p h =
    (λ v. ground (arith, flags_lem p.flags h), λ v. ground (arith, flags_lem p.flags h))

-- Of packets with a byte of flags, the validator accepts exactly the playable ones.
pub validate_downlink_packet_iff :
    (p : DownlinkPacket)
    → p.flags < 256
    → (validate_downlink_packet p ≡ PacketError.none) ↔ IsPlayable p
unfolding validate_downlink_packet
validate_downlink_packet_iff p h =
    (λ v. ground (arith, flags_lem p.flags h), λ v. ground (arith, flags_lem p.flags h))

-- The end of both reads: what passes the pending error, the payload and the validator.
read_tail-valid :
    {A B P : Type 0} (m : Outcome A) (g : A → Outcome B) (fill : B → P) (check : P → PacketError)
    (p : P)
    → (m >>= λ a. g a >>= λ x. unless_error (check (fill x)) (fill x)) ≡ ok p
    → check p ≡ PacketError.none
read_tail-valid m g fill check p h =
    let (a, _, h1) = >>=-eq_ok m _ h in
    let (x, _, h2) = >>=-eq_ok (g a) _ h1 in
    let (v, e) = unless_error-eq_ok (check (fill x)) (fill x) h2 in
    subst (λ q. check q ≡ PacketError.none) e v

-- Whatever bytes arrive, in whatever buffer, an uplink packet that is read, with a byte of flags, has
-- version 1, no flags but the two of team voice, a session, a membership and a stream that are not 0,
-- and a payload of 1 to 256 bytes.
pub deserialize_uplink-valid :
    (io : Buffer) (b : Option io.Buf) (p : UplinkPacket)
    → p.flags < 256
    → deserialize_uplink io b ≡ ok p
    → IsSendable p
unfolding deserialize_uplink
deserialize_uplink-valid io Option.none p byte h = absurd (cc)
deserialize_uplink-valid io (some b) p byte h =
    elim (Bool-cases (ltb (io.readable_bytes b) uplink_header_bytes)) [
      | inl short ↦ absurd (let h' = rw short at h in cc)
      | inr long ↦
          let (q, size, c) = get_uplink_header io b in
          (validate_uplink_packet_iff p byte).0 (
            read_tail-valid (check_buffer io c) (get_payload io size)
              (λ payload. record q { payload = payload }) validate_uplink_packet p (rw long at h))
    ]

-- Whatever bytes arrive, in whatever buffer, a downlink packet that is read is one that the
-- validator accepts.
pub deserialize_downlink-valid :
    (io : Buffer) (b : Option io.Buf) (p : DownlinkPacket)
    → deserialize_downlink io b ≡ ok p
    → validate_downlink_packet p ≡ PacketError.none
unfolding deserialize_downlink
deserialize_downlink-valid io Option.none p h = absurd (cc)
deserialize_downlink-valid io (some b) p h =
    elim (Bool-cases (ltb (io.readable_bytes b) downlink_header_bytes)) [
      | inl short ↦ absurd (let h' = rw short at h in cc)
      | inr long ↦
          let (q, size, c) = get_downlink_header io b in
          read_tail-valid (check_buffer io c) (get_payload io size)
            (λ payload. record q { payload = payload }) validate_downlink_packet p (rw long at h)
    ]
