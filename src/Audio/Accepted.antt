-- ===== src/Audio/Accepted.antt =====
-- What goes out is of the session it is in and passes the check of the voice server. About
-- `popOutgoingPacket` of src/audio/gVoiceAudioProcessor.cpp.
use gip_multiplayer.Base.{
  ℕ, ◌≡◌, ◌≢◌, inl, inr, true, ◌||◌, not, List, Option, some, some_inj, arith, subst, Bool-cases,
  Option-cases,
}
use gip_multiplayer.Voice.Packets.{UplinkPacket, PacketError, validate_uplink_packet}
use gip_multiplayer.Voice.Packets.Validity.{flags_lem}
use gip_multiplayer.Audio.Uplink.{
  EncodedFrame, Processor, capture_active, is_current, packet_of, next_current, pop_outgoing,
}
use gip_multiplayer.Audio.Uplink.{Call, calls}
use gip_multiplayer.Audio.Sending.{IsSendable, IsValid, next_current-found}
use gip_multiplayer.Audio.Calls.{CodecLaws, calls-IsValid}

-- What a packet that goes out has to be.
pub record Accepted (s : Processor) (p : UplinkPacket) : Type 0 where
  pub accepted : validate_uplink_packet p ≡ PacketError.none
  pub same_session : p.session_id ≡ s.session_id
  pub same_generation : p.membership_generation ≡ s.membership_generation
  pub active : capture_active s ≡ true

packet-Accepted :
    (s : Processor) (f : EncodedFrame)
    → IsSendable f
    → is_current s f ≡ true
    → capture_active s ≡ true
    → Accepted s (packet_of f)
unfolding is_current packet_of capture_active validate_uplink_packet
packet-Accepted s f v c a =
    let same_session : f.session_id ≡ s.session_id = ground arith in
    let same_generation : f.membership_generation ≡ s.membership_generation = ground arith in
    let in_session : s.session_id ≢ 0 = ground arith in
    let is_member : s.membership_generation ≢ 0 = ground arith in
    let flags = v.flags in
    let stream = v.stream in
    let not_empty = v.not_empty in
    let fits = v.fits in
    record {
      accepted = ground (arith, flags_lem f.flags);
      same_session = same_session;
      same_generation = same_generation;
      active = a;
    }

pop_outgoing-Accepted :
    (s : Processor) (p : UplinkPacket) → IsValid s → (pop_outgoing s).1 ≡ some p → Accepted s p
unfolding pop_outgoing
pop_outgoing-Accepted s p v h = elim (Bool-cases (not s.running || not (capture_active s))) [
  | inl b ↦ absurd (let x = rw (pop_outgoing, b) at h in cc)
  | inr b ↦ elim (Option-cases (next_current s s.outgoing).0) [
    | inl n ↦ absurd (let x = rw (pop_outgoing, b, n) at h in cc)
    | inr (f, n) ↦
        let found = next_current-found s s.outgoing f v.sendable n in
        let e : some (packet_of f) ≡ some p = rw (pop_outgoing, b, n) at h in
        subst (Accepted s) (some_inj e) (packet-Accepted s f found.0 found.1 (ground arith))
  ]
]

-- Whatever the game and the worker call, and in whatever order, from a valid state: the two queues stay
-- in the bounds of the configuration, and a packet that is handed out passes the check of the voice
-- server, is of the session and the membership of the moment, and goes out only while sound is sent.
-- The codec returns at least one byte and no more than 256.
pub calls-Accepted :
    {S : Type 0} (codec : List S → Option (List ℕ)) (laws : CodecLaws codec) (cs : List (Call S))
    (s : Processor) (p : UplinkPacket)
    → IsValid s
    → (pop_outgoing (calls codec cs s)).1 ≡ some p
    → IsValid (calls codec cs s) × Accepted (calls codec cs s) p
calls-Accepted codec laws cs s p v h =
    let w = calls-IsValid codec laws cs s v in (w, pop_outgoing-Accepted (calls codec cs s) p w h)
