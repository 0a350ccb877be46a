-- ===== src/Voice/Packets/Downlink.antt =====
-- The downlink packet on the wire: its layout, and that reading undoes writing.
use gip_multiplayer.Base.{
  ℕ, ◌+◌, ◌^◌, ◌<◌, ◌≡◌, sym, ap, ◌∙◌, false, List, [], ◌++◌, some, ltb, length, length-append,
  arith,
}
use gip_multiplayer.Wire.{Buffer, Laws}
use gip_multiplayer.Voice.Packets.{
  PacketError, DownlinkPacket, validate_downlink_packet, validate_payload,
}
use gip_multiplayer.Voice.Packets.Serial.{
  ok, unless_error, payload_size, downlink_header_bytes, put_downlink, serialize_downlink,
  get_downlink_header, deserialize_downlink,
}
use gip_multiplayer.Voice.Packets.Framing.{
  unless_error-eq_ok, >>=-eq_ok, Wrote, Wrote-then, check_buffer-ok, check_buffer-eq_ok,
  get_payload-ok,
}

-- Each field fits the integer type that the class declares for it.
pub record DownlinkFits (p : DownlinkPacket) : Type 0 where
  pub version : p.version < 2 ^ 8
  pub flags : p.flags < 2 ^ 8
  pub session_id : p.session_id < 2 ^ 64
  pub recipient_generation : p.recipient_generation < 2 ^ 32
  pub speaker_id : p.speaker_id < 2 ^ 64
  pub speaker_generation : p.speaker_generation < 2 ^ 32
  pub stream_generation : p.stream_generation < 2 ^ 32
  pub sequence : p.sequence < 2 ^ 32
  pub sample_position : p.sample_position < 2 ^ 64

validate_downlink-payload :
    (p : DownlinkPacket)
    → validate_downlink_packet p ≡ PacketError.none
    → validate_payload p.payload ≡ PacketError.none
unfolding validate_downlink_packet
validate_downlink-payload p v = ground arith

module _ (io : Buffer) (laws : Laws io) where
  open io use {Buf, write_int}
  open laws use {contents, failed, bytes}

  -- The layout: the fields in order, then the payload behind its size.
  unfoldable pub encode_downlink : DownlinkPacket → List ℕ
  encode_downlink p =
      bytes 1 p.version
      ++ (bytes 1 p.flags
          ++ (bytes 8 p.session_id
              ++ (bytes 4 p.recipient_generation
                  ++ (bytes 8 p.speaker_id
                      ++ (bytes 4 p.speaker_generation
                          ++ (bytes 4 p.stream_generation
                              ++ (bytes 4 p.sequence
                                  ++ (bytes 8 p.sample_position
                                      ++ (bytes 2 (payload_size p.payload) ++ p.payload)))))))))

  put_downlink-Wrote :
      (p : DownlinkPacket) (b : Buf) → Wrote io laws b (put_downlink io p b) (encode_downlink p)
  unfolding put_downlink encode_downlink
  put_downlink-Wrote p b = Wrote-then io laws _ _ _ _ _ (laws.write_int-Wrote 1 p.version b) (
      Wrote-then io laws _ _ _ _ _ (laws.write_int-Wrote 1 p.flags _) (
        Wrote-then io laws _ _ _ _ _ (laws.write_int-Wrote 8 p.session_id _) (
          Wrote-then io laws _ _ _ _ _ (laws.write_int-Wrote 4 p.recipient_generation _) (
            Wrote-then io laws _ _ _ _ _ (laws.write_int-Wrote 8 p.speaker_id _) (
              Wrote-then io laws _ _ _ _ _ (laws.write_int-Wrote 4 p.speaker_generation _) (
                Wrote-then io laws _ _ _ _ _ (laws.write_int-Wrote 4 p.stream_generation _) (
                  Wrote-then io laws _ _ _ _ _ (laws.write_int-Wrote 4 p.sequence _) (
                    Wrote-then io laws _ _ _ _ _ (laws.write_int-Wrote 8 p.sample_position _) (
                      Wrote-then io laws _ _ _ _ _
                        (laws.write_int-Wrote 2 (payload_size p.payload) _)
                        (laws.write-Wrote p.payload _))))))))))

  get_downlink_header-Took :
      (p : DownlinkPacket) (b : Buf)
      → DownlinkFits p
      → failed b ≡ false
      → contents b ≡ encode_downlink p
      → let (q, size, c) = get_downlink_header io b in
        (record q { payload = p.payload } ≡ p)
        × (size ≡ payload_size p.payload)
        × (contents c ≡ p.payload)
        × (failed c ≡ false)
  unfolding get_downlink_header encode_downlink
  get_downlink_header-Took p b f g e =
      let t1 = laws.read_int-Took 1 p.version _ b f.version g e in
      let t2 = laws.read_int-Took 1 p.flags _ _ f.flags t1.2 t1.1 in
      let t3 = laws.read_int-Took 8 p.session_id _ _ f.session_id t2.2 t2.1 in
      let t4 = laws.read_int-Took 4 p.recipient_generation _ _ f.recipient_generation t3.2 t3.1 in
      let t5 = laws.read_int-Took 8 p.speaker_id _ _ f.speaker_id t4.2 t4.1 in
      let t6 = laws.read_int-Took 4 p.speaker_generation _ _ f.speaker_generation t5.2 t5.1 in
      let t7 = laws.read_int-Took 4 p.stream_generation _ _ f.stream_generation t6.2 t6.1 in
      let t8 = laws.read_int-Took 4 p.sequence _ _ f.sequence t7.2 t7.1 in
      let t9 = laws.read_int-Took 8 p.sample_position _ _ f.sample_position t8.2 t8.1 in
      let last = laws.read_int-Took 2 (payload_size p.payload) _ _ (omega arith) t9.2 t9.1 in
      (
        λ i. record {
          version = t1.0 i;
          flags = t2.0 i;
          session_id = t3.0 i;
          recipient_generation = t4.0 i;
          speaker_id = t5.0 i;
          speaker_generation = t6.0 i;
          stream_generation = t7.0 i;
          sequence = t8.0 i;
          sample_position = t9.0 i;
          payload = p.payload;
        },
        last.0,
        last.1,
        last.2,
      )

  -- The packet written is its layout, behind what the buffer held.
  pub serialize_downlink-eq_ok :
      (p : DownlinkPacket) (b c : Buf)
      → serialize_downlink io (some p) b ≡ ok c
      → (validate_downlink_packet p ≡ PacketError.none)
        × (contents c ≡ contents b ++ encode_downlink p)
        × (failed c ≡ false)
  unfolding serialize_downlink
  serialize_downlink-eq_ok p b c h =
      let (d, e, k) = >>=-eq_ok (unless_error (validate_downlink_packet p) b) _ h in
      let v = unless_error-eq_ok (validate_downlink_packet p) b e in
      let k' = check_buffer-eq_ok io laws (put_downlink io p d) c k in
      (
        v.0,
        k'.1
            ∙ (put_downlink-Wrote p d k'.0).1
            ∙ ap (λ x. contents x ++ encode_downlink p) (sym v.1),
        k'.2,
      )

  downlink_long :
      (p : DownlinkPacket) (b : Buf)
      → contents b ≡ encode_downlink p
      → ltb (io.readable_bytes b) downlink_header_bytes ≡ false
  unfolding encode_downlink
  downlink_long p b e =
      let n : length (contents b) ≡ 44 + length p.payload =
        rw e (simp (length-append, laws.length-bytes) (omega arith)) in
      ground (arith, laws.readable_bytes-eq b, n)

  -- A buffer that holds exactly the layout of a valid packet is read back as that packet.
  pub deserialize_downlink-encode :
      (p : DownlinkPacket) (b : Buf)
      → DownlinkFits p
      → validate_downlink_packet p ≡ PacketError.none
      → failed b ≡ false
      → contents b ≡ encode_downlink p
      → deserialize_downlink io (some b) ≡ ok p
  unfolding deserialize_downlink
  deserialize_downlink-encode p b f v g e =
      let h = get_downlink_header-Took p b f g e in
      let (c, checked, held, clear) = check_buffer-ok io laws _ h.3 in
      let body =
        get_payload-ok io laws p.payload c (validate_downlink-payload p v) clear (held ∙ h.2) in
      rw (downlink_long p b e, checked, h.1, body, h.0, v)

  -- A valid packet whose fields fit their types, written to an empty buffer whose writes succeed, is
  -- written, and reading the result gives the packet back.
  pub deserialize-serialize_downlink :
      (p : DownlinkPacket) (b : Buf)
      → DownlinkFits p
      → validate_downlink_packet p ≡ PacketError.none
      → contents b ≡ []
      → failed (put_downlink io p b) ≡ false
      → (c : Buf) × (serialize_downlink io (some p) b ≡ ok c)
        × (deserialize_downlink io (some c) ≡ ok p)
  unfolding serialize_downlink
  deserialize-serialize_downlink p b f v e g =
      let (c, checked, held, clear) = check_buffer-ok io laws _ g in
      (
        c,
        rw v checked,
        deserialize_downlink-encode p c f v clear
            (held ∙ (put_downlink-Wrote p b g).1 ∙ ap (λ x. x ++ encode_downlink p) e),
      )
