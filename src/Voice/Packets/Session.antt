-- ===== src/Voice/Packets/Session.antt =====
-- The session (control) packet on the wire: its layout, and that reading undoes writing.
use gip_multiplayer.Base.{
  ℕ, ◌^◌, ◌<◌, ◌≡◌, refl, sym, ap, ◌∙◌, Bool, true, false, List, [], ◌++◌, some, ltb, ◌!=◌, length,
  length-append, append-nil, arith, if◌then◌else◌,
}
use gip_multiplayer.Wire.{Buffer, Laws}
use gip_multiplayer.Voice.Packets.{PacketError, SessionPacket, validate_session_packet}
use gip_multiplayer.Voice.Packets.Serial.{
  ok, session_packet_bytes, put_session, serialize_session, get_session, deserialize_session,
}
use gip_multiplayer.Voice.Packets.Framing.{Wrote, Wrote-then, check_buffer-ok}

-- Each field fits the integer type that the class declares for it.
pub record SessionFits (p : SessionPacket) : Type 0 where
  pub version : p.version < 2 ^ 8
  pub session_id : p.session_id < 2 ^ 64
  pub membership_generation : p.membership_generation < 2 ^ 32
  pub player_id : p.player_id < 2 ^ 64

abbrev enabled_byte : Bool → ℕ
enabled_byte e = if e then 1 else 0

enabled_byte-lt : (e : Bool) → enabled_byte e < 2 ^ 8
enabled_byte-lt e = ground arith

enabled_byte-ne_zero : (e : Bool) → (enabled_byte e != 0) ≡ e
enabled_byte-ne_zero true = refl
enabled_byte-ne_zero false = refl

module _ (io : Buffer) (laws : Laws io) where
  open io use {Buf}
  open laws use {contents, failed, bytes}

  -- The layout: the fields in order, `enabled` as one byte.
  unfoldable pub encode_session : SessionPacket → List ℕ
  encode_session p =
      bytes 1 p.version
      ++ (bytes 1 (enabled_byte p.enabled)
          ++ (bytes 8 p.session_id ++ (bytes 4 p.membership_generation ++ bytes 8 p.player_id)))

  put_session-Wrote :
      (p : SessionPacket) (b : Buf) → Wrote io laws b (put_session io p b) (encode_session p)
  unfolding put_session encode_session
  put_session-Wrote p b = Wrote-then io laws _ _ _ _ _ (laws.write_int-Wrote 1 p.version b) (
      Wrote-then io laws _ _ _ _ _ (laws.write_int-Wrote 1 (enabled_byte p.enabled) _) (
        Wrote-then io laws _ _ _ _ _ (laws.write_int-Wrote 8 p.session_id _) (
          Wrote-then io laws _ _ _ _ _ (laws.write_int-Wrote 4 p.membership_generation _)
            (laws.write_int-Wrote 8 p.player_id _))))

  get_session-Took :
      (p : SessionPacket) (b : Buf)
      → SessionFits p
      → failed b ≡ false
      → contents b ≡ encode_session p
      → ((get_session io b).0 ≡ p) × (failed (get_session io b).1 ≡ false)
  unfolding get_session encode_session
  get_session-Took p b f g e =
      let t1 = laws.read_int-Took 1 p.version _ b f.version g e in
      let t2 =
        laws.read_int-Took 1 (enabled_byte p.enabled) _ _ (enabled_byte-lt p.enabled) t1.2 t1.1 in
      let t3 = laws.read_int-Took 8 p.session_id _ _ f.session_id t2.2 t2.1 in
      let t4 = laws.read_int-Took 4 p.membership_generation _ _ f.membership_generation t3.2 t3.1 in
      let t5 =
        laws.read_int-Took 8 p.player_id [] _ f.player_id t4.2
          (t4.1 ∙ sym (append-nil (bytes 8 p.player_id))) in
      let e2 = ap (λ n. n != 0) t2.0 ∙ enabled_byte-ne_zero p.enabled in
      (
        λ i. record {
          version = t1.0 i;
          enabled = e2 i;
          session_id = t3.0 i;
          membership_generation = t4.0 i;
          player_id = t5.0 i;
        },
        t5.2,
      )

  session_size :
      (p : SessionPacket) (b : Buf)
      → contents b ≡ encode_session p
      → (ltb (io.readable_bytes b) session_packet_bytes ≡ false)
        × (ltb session_packet_bytes (io.readable_bytes b) ≡ false)
  unfolding encode_session
  session_size p b e =
      let n : length (contents b) ≡ 22 = rw e (simp (length-append, laws.length-bytes)) in
      (ground (arith, laws.readable_bytes-eq b, n), ground (arith, laws.readable_bytes-eq b, n))

  -- A valid control packet whose fields fit their types, written to an empty buffer whose writes
  -- succeed, is written, and reading the result gives the packet back.
  pub deserialize-serialize_session :
      (p : SessionPacket) (b : Buf)
      → SessionFits p
      → validate_session_packet p ≡ PacketError.none
      → contents b ≡ []
      → failed (put_session io p b) ≡ false
      → (c : Buf) × (serialize_session io (some p) b ≡ ok c)
        × (deserialize_session io (some c) ≡ ok p)
  unfolding serialize_session deserialize_session
  deserialize-serialize_session p b f v e g =
      let (c, checked, held, clear) = check_buffer-ok io laws _ g in
      let layout = held ∙ (put_session-Wrote p b g).1 ∙ ap (λ x. x ++ encode_session p) e in
      let t = get_session-Took p c f clear layout in
      let (d, checked2, _, _) = check_buffer-ok io laws _ t.1 in
      let s = session_size p c layout in (c, rw v checked, rw (s.0, s.1, checked2, t.0, v))
