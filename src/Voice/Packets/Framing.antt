-- ===== src/Voice/Packets/Framing.antt =====
-- What the voice serializers share: chains of writes and reads, the pending error, the payload.
use gip_multiplayer.Base.{
  ℕ, ◌≤◌, ◌<◌, ◌≡◌, refl, sym, ap, ◌∙◌, false, List, [], length, append-nil, arith,
}
use gip_multiplayer.Wire.{Buffer, Laws}
pub use gip_multiplayer.Wire.Chain.{Wrote, Wrote-then, Took}
use gip_multiplayer.Voice.Packets.{PacketError, validate_payload}
use gip_multiplayer.Voice.Packets.Serial.{
  ◌>>=◌, Outcome, ok, err, null, unless_error, payload_size, check_buffer, get_payload,
}

-- Inversion of a test that may report an error.
pub unless_error-eq_ok {ℓ} :
    {A : Type ℓ} (e : PacketError) (a : A) {b : A}
    → unless_error e a ≡ ok b
    → (e ≡ PacketError.none) × (a ≡ b)
unless_error-eq_ok e a h = ground arith

pub >>=-eq_ok {ℓ κ} :
    {A : Type ℓ} {B : Type κ} (m : Outcome A) (f : A → Outcome B) {b : B}
    → (m >>= f) ≡ ok b
    → (a : A) × (m ≡ ok a) × (f a ≡ ok b)
>>=-eq_ok (ok a) f h = (a, refl, h)
>>=-eq_ok (err e) f h = absurd (cc)
>>=-eq_ok null f h = absurd (cc)

pub payload_fits :
    (payload : List ℕ)
    → validate_payload payload ≡ PacketError.none
    → (0 < length payload) × (length payload ≤ 256)
unfolding validate_payload
payload_fits payload v = ground arith

module _ (io : Buffer) (laws : Laws io) where
  open io use {Buf, read}
  open laws use {contents, failed}

  pub check_buffer-ok :
      (b : Buf)
      → failed b ≡ false
      → (c : Buf) × (check_buffer io b ≡ ok c) × (contents c ≡ contents b) × (failed c ≡ false)
  unfolding check_buffer
  check_buffer-ok b h =
      let e = laws.error-eq b in ((io.get_and_clear_last_error b).1, rw (e.0, h), e.1, e.2)

  pub check_buffer-eq_ok :
      (b c : Buf)
      → check_buffer io b ≡ ok c
      → (failed b ≡ false) × (contents c ≡ contents b) × (failed c ≡ false)
  unfolding check_buffer
  check_buffer-eq_ok b c h = ground (arith, laws.error-eq b)

  pub get_payload-ok :
      (payload : List ℕ) (b : Buf)
      → validate_payload payload ≡ PacketError.none
      → failed b ≡ false
      → contents b ≡ payload
      → get_payload io (payload_size payload) b ≡ ok payload
  unfolding get_payload check_buffer
  get_payload-ok payload b v g e =
      let fits = payload_fits payload v in
      let size : payload_size payload ≡ length payload = omega arith in
      let t = laws.read-Took payload [] b g (e ∙ sym (append-nil payload)) in
      rw size (
        ground (
          arith,
          fits,
          laws.readable_bytes-eq b,
          ap length e,
          t,
          laws.error-eq (read (length payload) b).1,
        ))
