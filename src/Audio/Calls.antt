-- ===== src/Audio/Calls.antt =====
-- The calls of the game and of the worker, in any order, keep the queues in their bounds. About src/audio/gVoiceAudioProcessor.cpp.
use gip_multiplayer.Base.{
  ℕ, ◌≤◌, ◌<◌, ◌≡◌, ◌≢◌, refl, inl, inr, Bool, true, false, ◌&&◌, ◌||◌, not, List, [], ◌∷◌, Option,
  some, ◌==◌, ◌!=◌, if◌then◌else◌, bit_or, length, add64, arith, Bool-cases, Option-cases,
}
use gip_multiplayer.Voice.Packets.{DownlinkPacket, flag_discontinuity, flag_none, flag_stream_start}
use gip_multiplayer.Audio.Capture.{PcmFrame}
use gip_multiplayer.Audio.Uplink.{
  Processor, capture_active, set_enabled, set_transmitting, set_local_muted, set_session,
  enqueue_outgoing, encoded_of, encode_frame, pop_outgoing, remote_of, enqueue_incoming, is_for,
  push_incoming,
}
use gip_multiplayer.Audio.Uplink.{passes, Call, call, calls, take_incoming}
use gip_multiplayer.Audio.Sending.{
  IsSendable, IsValid, enqueue_outgoing-IsValid, enqueue_incoming-IsValid, next_current-lem,
}

-- Both queues emptied, or the outgoing one, or nothing.
cleared :
    (s t : Processor)
    → t.outgoing_packets ≡ s.outgoing_packets
    → t.incoming_packets ≡ s.incoming_packets
    → t.outgoing ≡ []
    → length t.incoming ≤ length s.incoming
    → IsValid s
    → IsValid t
cleared s t a b c d v =
    let o = v.out_room in
    let i = v.in_room in
    let l = v.in_bounded in
    record {
      out_room = omega arith;
      in_room = omega arith;
      out_bounded = rw c (omega arith);
      in_bounded = omega arith;
      sendable = rw c tt;
    }

set_enabled-IsValid : (b : Bool) (s : Processor) → IsValid s → IsValid (set_enabled b s)
unfolding set_enabled
set_enabled-IsValid b s v = elim (Bool-cases s.enabled) [
  | inl h ↦ elim (Bool-cases b) [
    | inl k ↦ simp (set_enabled, h, k) v
    | inr k ↦ simp (set_enabled, h, k) (cleared s _ refl refl refl (omega arith) v)
  ]
  | inr h ↦ elim (Bool-cases b) [
    | inl k ↦ simp (set_enabled, h, k) (cleared s _ refl refl refl (omega arith) v)
    | inr k ↦ simp (set_enabled, h, k) v
  ]
]

set_transmitting-IsValid : (b : Bool) (s : Processor) → IsValid s → IsValid (set_transmitting b s)
unfolding set_transmitting
set_transmitting-IsValid b s v = elim (Bool-cases s.transmitting) [
  | inl h ↦ elim (Bool-cases b) [
    | inl k ↦ simp (set_transmitting, h, k) v
    | inr k ↦ simp (set_transmitting, h, k) (cleared s _ refl refl refl (omega arith) v)
  ]
  | inr h ↦ elim (Bool-cases b) [
    | inl k ↦ simp (set_transmitting, h, k) (cleared s _ refl refl refl (omega arith) v)
    | inr k ↦ simp (set_transmitting, h, k) v
  ]
]

set_local_muted-IsValid : (b : Bool) (s : Processor) → IsValid s → IsValid (set_local_muted b s)
unfolding set_local_muted
set_local_muted-IsValid b s v = elim (Bool-cases s.local_muted) [
  | inl h ↦ elim (Bool-cases b) [
    | inl k ↦ simp (set_local_muted, h, k) v
    | inr k ↦ simp (set_local_muted, h, k) (cleared s _ refl refl refl (omega arith) v)
  ]
  | inr h ↦ elim (Bool-cases b) [
    | inl k ↦ simp (set_local_muted, h, k) (cleared s _ refl refl refl (omega arith) v)
    | inr k ↦ simp (set_local_muted, h, k) v
  ]
]

-- The counters are not part of what is valid.
recounted :
    (s t : Processor)
    → t.outgoing_packets ≡ s.outgoing_packets
    → t.incoming_packets ≡ s.incoming_packets
    → t.outgoing ≡ s.outgoing
    → t.incoming ≡ s.incoming
    → IsValid s
    → IsValid t
recounted s t a b c d v =
    let o = v.out_room in
    let i = v.in_room in
    let l = v.in_bounded in
    let m = v.out_bounded in
    record {
      out_room = omega arith;
      in_room = omega arith;
      out_bounded = rw c (omega arith);
      in_bounded = rw d (omega arith);
      sendable = rw c v.sendable;
    }

-- What the codec returns: bytes, at least one and no more than a packet holds.
pub record CodecLaws {S : Type 0} (codec : List S → Option (List ℕ)) : Type 0 where
  pub not_empty : (xs : List S) (bytes : List ℕ) → codec xs ≡ some bytes → 0 < length bytes
  pub fits : (xs : List S) (bytes : List ℕ) → codec xs ≡ some bytes → length bytes ≤ 256

flags_small :
    (gap first : Bool)
    → (if gap
        then bit_or (if first then flag_stream_start else flag_none) flag_discontinuity
        else if first
        then flag_stream_start
        else flag_none)
      < 4
flags_small true true = omega arith
flags_small true false = omega arith
flags_small false true = omega arith
flags_small false false = omega arith

pop_outgoing-IsValid : (s : Processor) → IsValid s → IsValid (pop_outgoing s).0
unfolding pop_outgoing
pop_outgoing-IsValid s v = elim (Bool-cases (not s.running || not (capture_active s))) [
  | inl h ↦ simp (pop_outgoing, h) v
  | inr h ↦
      let l = next_current-lem s s.outgoing v.sendable in
      let m = v.out_bounded in
      let n = l.1 in
      simp (pop_outgoing, h)
        (record {
          out_room = v.out_room;
          in_room = v.in_room;
          out_bounded = omega arith;
          in_bounded = v.in_bounded;
          sendable = l.0;
        })
]

push_incoming-IsValid :
    (p : DownlinkPacket) (s : Processor) → IsValid s → IsValid (push_incoming p s).0
unfolding push_incoming
push_incoming-IsValid p s v =
    let counted : IsValid (record (enqueue_incoming (remote_of s p) s) {
      received_packets = add64 (enqueue_incoming (remote_of s p) s).received_packets 1;
      received_bytes = add64 (enqueue_incoming (remote_of s p) s).received_bytes (length p.payload);
    }) =
      recounted (enqueue_incoming (remote_of s p) s) _ refl refl refl refl
        (enqueue_incoming-IsValid (remote_of s p) s v) in
    elim (Bool-cases (passes p && is_for s p)) [
      | inl h ↦ simp (push_incoming, h) counted
      | inr h ↦ simp (push_incoming, h) v
    ]

module _ {S : Type 0} (codec : List S → Option (List ℕ)) where
  encoded-IsSendable :
      (laws : CodecLaws codec) (s : Processor) (frame : PcmFrame S) (stream sequence : ℕ)
      (first : Bool) (bytes : List ℕ)
      → stream ≢ 0
      → codec frame.samples ≡ some bytes
      → IsSendable (encoded_of s frame stream sequence first bytes)
  unfolding encoded_of
  encoded-IsSendable laws s frame stream sequence first bytes n e = record {
    flags = flags_small frame.discontinuity first;
    stream = n;
    not_empty = laws.not_empty frame.samples bytes e;
    fits = laws.fits frame.samples bytes e;
  }

  encode_frame-IsValid :
      (laws : CodecLaws codec) (frame : PcmFrame S) (stream sequence : ℕ) (first : Bool)
      (s : Processor)
      → IsValid s
      → IsValid (encode_frame codec frame stream sequence first s)
  unfolding encode_frame
  encode_frame-IsValid laws frame stream sequence first s v =
      elim (Bool-cases (
        stream == 0
        || (frame.session_epoch != s.session_epoch || frame.capture_epoch != s.capture_epoch))) [
          | inl h ↦ simp (encode_frame, h) v
          | inr h ↦ elim (Option-cases (codec frame.samples)) [
            | inl e ↦ simp (encode_frame, h, e) (recounted s _ refl refl refl refl v)
            | inr (bytes, e) ↦
                let stream_set : stream ≢ 0 = ground arith in
                let f = encoded_of s frame stream sequence first bytes in
                let g = encoded-IsSendable laws s frame stream sequence first bytes stream_set e in
                elim (Bool-cases (not s.running || not (capture_active s))) [
                  | inl k ↦ simp (encode_frame, h, e, k) v
                  | inr k ↦
                      simp (encode_frame, h, e, k)
                        (recounted (enqueue_outgoing f s) _ refl refl refl refl
                          (enqueue_outgoing-IsValid f s g v))
                ]
          ]
        ]

  call-IsValid :
      (laws : CodecLaws codec) (c : Call S) (s : Processor) → IsValid s → IsValid (call codec c s)
  unfolding call set_session take_incoming
  call-IsValid laws (Call.enable b) s v = set_enabled-IsValid b s v
  call-IsValid laws (Call.transmit b) s v = set_transmitting-IsValid b s v
  call-IsValid laws (Call.mute b) s v = set_local_muted-IsValid b s v
  call-IsValid laws (Call.enter id generation player) s v =
      cleared s (set_session id generation player s) refl refl refl (omega arith) v
  call-IsValid laws (Call.encode frame stream sequence first) s v =
      encode_frame-IsValid laws frame stream sequence first s v
  call-IsValid laws Call.pop s v = pop_outgoing-IsValid s v
  call-IsValid laws (Call.push p) s v = push_incoming-IsValid p s v
  call-IsValid laws Call.take_all s v = record {
    out_room = v.out_room;
    in_room = v.in_room;
    out_bounded = v.out_bounded;
    in_bounded = omega arith;
    sendable = v.sendable;
  }

  pub calls-IsValid :
      (laws : CodecLaws codec) (cs : List (Call S)) (s : Processor)
      → IsValid s
      → IsValid (calls codec cs s)
  unfolding calls
  calls-IsValid laws [] s v = v
  calls-IsValid laws (c ∷ cs) s v = calls-IsValid laws cs (call codec c s) (call-IsValid laws c s v)
