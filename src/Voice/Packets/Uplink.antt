-- ===== src/Voice/Packets/Uplink.antt =====
-- The uplink packet on the wire: its layout, and that reading undoes writing.
use gip_multiplayer.Base.{
  ℕ, ◌+◌, ◌^◌, ◌<◌, ◌≡◌, sym, ap, ◌∙◌, false, List, [], ◌++◌, some, ltb, length, length-append,
  arith,
}
use gip_multiplayer.Wire.{Buffer, Laws}
use gip_multiplayer.Voice.Packets.{
  PacketError, UplinkPacket, validate_uplink_packet, validate_payload,
}
use gip_multiplayer.Voice.Packets.Serial.{
  ok, unless_error, payload_size, uplink_header_bytes, put_uplink, serialize_uplink,
  get_uplink_header, deserialize_uplink,
}
use gip_multiplayer.Voice.Packets.Framing.{
  unless_error-eq_ok, >>=-eq_ok, Wrote, Wrote-then, check_buffer-ok, check_buffer-eq_ok,
  get_payload-ok,
}

-- Each field fits the integer type that the class declares for it.
pub record UplinkFits (p : UplinkPacket) : Type 0 where
  pub version : p.version < 2 ^ 8
  pub flags : p.flags < 2 ^ 8
  pub session_id : p.session_id < 2 ^ 64
  pub membership_generation : p.membership_generation < 2 ^ 32
  pub stream_generation : p.stream_generation < 2 ^ 32
  pub sequence : p.sequence < 2 ^ 32
  pub sample_position : p.sample_position < 2 ^ 64

validate_uplink-payload :
    (p : UplinkPacket)
    → validate_uplink_packet p ≡ PacketError.none
    → validate_payload p.payload ≡ PacketError.none
unfolding validate_uplink_packet
validate_uplink-payload p v = ground arith

module _ (io : Buffer) (laws : Laws io) where
  open io use {Buf, write_int}
  open laws use {contents, failed, bytes}

  -- The layout: the fields in order, then the payload behind its size.
  unfoldable pub encode_uplink : UplinkPacket → List ℕ
  encode_uplink p =
      bytes 1 p.version
      ++ (bytes 1 p.flags
          ++ (bytes 8 p.session_id
              ++ (bytes 4 p.membership_generation
                  ++ (bytes 4 p.stream_generation
                      ++ (bytes 4 p.sequence
                          ++ (bytes 8 p.sample_position
                              ++ (bytes 2 (payload_size p.payload) ++ p.payload)))))))

  put_uplink-Wrote :
      (p : UplinkPacket) (b : Buf) → Wrote io laws b (put_uplink io p b) (encode_uplink p)
  unfolding put_uplink encode_uplink
  put_uplink-Wrote p b = Wrote-then io laws _ _ _ _ _ (laws.write_int-Wrote 1 p.version b) (
      Wrote-then io laws _ _ _ _ _ (laws.write_int-Wrote 1 p.flags _) (
        Wrote-then io laws _ _ _ _ _ (laws.write_int-Wrote 8 p.session_id _) (
          Wrote-then io laws _ _ _ _ _ (laws.write_int-Wrote 4 p.membership_generation _) (
            Wrote-then io laws _ _ _ _ _ (laws.write_int-Wrote 4 p.stream_generation _) (
              Wrote-then io laws _ _ _ _ _ (laws.write_int-Wrote 4 p.sequence _) (
                Wrote-then io laws _ _ _ _ _ (laws.write_int-Wrote 8 p.sample_position _) (
                  Wrote-then io laws _ _ _ _ _ (laws.write_int-Wrote 2 (payload_size p.payload) _)
                    (laws.write-Wrote p.payload _))))))))

  get_uplink_header-Took :
      (p : UplinkPacket) (b : Buf)
      → UplinkFits p
      → failed b ≡ false
      → contents b ≡ encode_uplink p
      → let (q, size, c) = get_uplink_header io b in
        (record q { payload = p.payload } ≡ p)
        × (size ≡ payload_size p.payload)
        × (contents c ≡ p.payload)
        × (failed c ≡ false)
  unfolding get_uplink_header encode_uplink
  get_uplink_header-Took p b f g e =
      let t1 = laws.read_int-Took 1 p.version _ b f.version g e in
      let t2 = laws.read_int-Took 1 p.flags _ _ f.flags t1.2 t1.1 in
      let t3 = laws.read_int-Took 8 p.session_id _ _ f.session_id t2.2 t2.1 in
      let t4 = laws.read_int-Took 4 p.membership_generation _ _ f.membership_generation t3.2 t3.1 in
      let t5 = laws.read_int-Took 4 p.stream_generation _ _ f.stream_generation t4.2 t4.1 in
      let t6 = laws.read_int-Took 4 p.sequence _ _ f.sequence t5.2 t5.1 in
      let t7 = laws.read_int-Took 8 p.sample_position _ _ f.sample_position t6.2 t6.1 in
      let last = laws.read_int-Took 2 (payload_size p.payload) _ _ (omega arith) t7.2 t7.1 in
      (
        λ i. record {
          version = t1.0 i;
          flags = t2.0 i;
          session_id = t3.0 i;
          membership_generation = t4.0 i;
          stream_generation = t5.0 i;
          sequence = t6.0 i;
          sample_position = t7.0 i;
          payload = p.payload;
        },
        last.0,
        last.1,
        last.2,
      )

  -- The packet written is its layout, behind what the buffer held.
  pub serialize_uplink-eq_ok :
      (p : UplinkPacket) (b c : Buf)
      → serialize_uplink io (some p) b ≡ ok c
      → (validate_uplink_packet p ≡ PacketError.none)
        × (contents c ≡ contents b ++ encode_uplink p)
        × (failed c ≡ false)
  unfolding serialize_uplink
  serialize_uplink-eq_ok p b c h =
      let (d, e, k) = >>=-eq_ok (unless_error (validate_uplink_packet p) b) _ h in
      let v = unless_error-eq_ok (validate_uplink_packet p) b e in
      let k' = check_buffer-eq_ok io laws (put_uplink io p d) c k in
      (
        v.0,
        k'.1 ∙ (put_uplink-Wrote p d k'.0).1 ∙ ap (λ x. contents x ++ encode_uplink p) (sym v.1),
        k'.2,
      )

  uplink_long :
      (p : UplinkPacket) (b : Buf)
      → contents b ≡ encode_uplink p
      → ltb (io.readable_bytes b) uplink_header_bytes ≡ false
  unfolding encode_uplink
  uplink_long p b e =
      let n : length (contents b) ≡ 32 + length p.payload =
        rw e (simp (length-append, laws.length-bytes) (omega arith)) in
      ground (arith, laws.readable_bytes-eq b, n)

  -- A buffer that holds exactly the layout of a valid packet is read back as that packet.
  pub deserialize_uplink-encode :
      (p : UplinkPacket) (b : Buf)
      → UplinkFits p
      → validate_uplink_packet p ≡ PacketError.none
      → failed b ≡ false
      → contents b ≡ encode_uplink p
      → deserialize_uplink io (some b) ≡ ok p
  unfolding deserialize_uplink
  deserialize_uplink-encode p b f v g e =
      let h = get_uplink_header-Took p b f g e in
      let (c, checked, held, clear) = check_buffer-ok io laws _ h.3 in
      let body =
        get_payload-ok io laws p.payload c (validate_uplink-payload p v) clear (held ∙ h.2) in
      rw (uplink_long p b e, checked, h.1, body, h.0, v)

  -- A valid packet whose fields fit their types, written to an empty buffer whose writes succeed, is
  -- written, and reading the result gives the packet back.
  pub deserialize-serialize_uplink :
      (p : UplinkPacket) (b : Buf)
      → UplinkFits p
      → validate_uplink_packet p ≡ PacketError.none
      → contents b ≡ []
      → failed (put_uplink io p b) ≡ false
      → (c : Buf) × (serialize_uplink io (some p) b ≡ ok c)
        × (deserialize_uplink io (some c) ≡ ok p)
  unfolding serialize_uplink
  deserialize-serialize_uplink p b f v e g =
      let (c, checked, held, clear) = check_buffer-ok io laws _ g in
      (
        c,
        rw v checked,
        deserialize_uplink-encode p c f v clear
            (held ∙ (put_uplink-Wrote p b g).1 ∙ ap (λ x. x ++ encode_uplink p) e),
      )
