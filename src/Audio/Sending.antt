-- ===== src/Audio/Sending.antt =====
-- What the processor sends and keeps: its queues stay within the configuration, and a packet that it
-- hands out is of the session it is in and passes the check of the voice server. About
-- src/audio/gVoiceAudioProcessor.cpp.
use gip_multiplayer.Base.{
  ℕ, suc, ◌≤◌, ◌<◌, ◌≡◌, ◌≢◌, refl, inl, inr, true, List, [], ◌∷◌, some, some_inj, ltb, leb, bit_or,
  length, length-append, length-drop, drop, All, All-append, arith, subst, every_below,
  every_below_sound, Bool-cases,
}
use gip_multiplayer.Voice.Packets.{flag_discontinuity}
use gip_multiplayer.Voice.Receiver.{RemoteFrame}
use gip_multiplayer.Audio.Uplink.{
  EncodedFrame, Processor, mark_front, enqueue_outgoing, is_current, next_current, enqueue_incoming,
}

-- A queued frame that the server would take, whatever the session.
pub record IsSendable (f : EncodedFrame) : Type 0 where
  pub flags : f.flags < 4
  pub stream : f.stream_generation ≢ 0
  pub not_empty : 0 < length f.payload
  pub fits : length f.payload ≤ 256

pub record IsValid (s : Processor) : Type 0 where
  pub out_room : 0 < s.outgoing_packets
  pub in_room : 0 < s.incoming_packets
  pub out_bounded : length s.outgoing ≤ s.outgoing_packets
  pub in_bounded : length s.incoming ≤ s.incoming_packets
  pub sendable : All IsSendable s.outgoing

marked : every_below (λ f. ltb (bit_or f flag_discontinuity) 4) 4 ≡ true
unfolding every_below
marked = refl

marked_lem : (f : ℕ) → f < 4 → bit_or f flag_discontinuity < 4
marked_lem f h =
    let t = every_below_sound (λ f. ltb (bit_or f flag_discontinuity) 4) 4 h marked in ground arith

marked-IsSendable :
    (f : EncodedFrame)
    → IsSendable f
    → IsSendable (record f { flags = bit_or f.flags flag_discontinuity })
marked-IsSendable f v = record {
  flags = marked_lem f.flags v.flags;
  stream = v.stream;
  not_empty = v.not_empty;
  fits = v.fits;
}

mark_front-Sendable :
    (e : EncodedFrame) (fs : List EncodedFrame)
    → IsSendable e
    → All IsSendable fs
    → All IsSendable (mark_front e fs)
unfolding mark_front
mark_front-Sendable e [] v a = (marked-IsSendable e v, tt)
mark_front-Sendable e (f ∷ fs) v a =
    (marked-IsSendable f a.0, All-append IsSendable fs (e ∷ []) a.1 (v, tt))

length-mark_front :
    (e : EncodedFrame) (fs : List EncodedFrame) → length (mark_front e fs) ≡ suc (length fs)
unfolding mark_front
length-mark_front e [] = refl
length-mark_front e (f ∷ fs) = let l = length-append fs (e ∷ []) in omega arith

All-drop_one : (fs : List EncodedFrame) → All IsSendable fs → All IsSendable (drop 1 fs)
All-drop_one [] a = tt
All-drop_one (f ∷ fs) a = a.1

pub enqueue_outgoing-IsValid :
    (e : EncodedFrame) (s : Processor) → IsSendable e → IsValid s → IsValid (enqueue_outgoing e s)
unfolding enqueue_outgoing
enqueue_outgoing-IsValid e s g v =
    let room = v.out_room in
    let before = v.out_bounded in
    elim (Bool-cases (leb s.outgoing_packets (length s.outgoing))) [
      | inl h ↦
          let l = length-mark_front e (drop 1 s.outgoing) in
          let d = length-drop 1 s.outgoing in
          simp h (record {
            out_room = v.out_room;
            in_room = v.in_room;
            out_bounded = omega arith;
            in_bounded = v.in_bounded;
            sendable =
                mark_front-Sendable e (drop 1 s.outgoing) g (All-drop_one s.outgoing v.sendable);
          })
      | inr h ↦
          let l = length-append s.outgoing (e ∷ []) in
          let free : length s.outgoing < s.outgoing_packets = ground arith in
          simp h (record {
            out_room = v.out_room;
            in_room = v.in_room;
            out_bounded = omega arith;
            in_bounded = v.in_bounded;
            sendable = All-append IsSendable s.outgoing (e ∷ []) v.sendable (g, tt);
          })
    ]

pub enqueue_incoming-IsValid :
    (r : RemoteFrame) (s : Processor) → IsValid s → IsValid (enqueue_incoming r s)
unfolding enqueue_incoming
enqueue_incoming-IsValid r s v =
    let room = v.in_room in
    let before = v.in_bounded in
    elim (Bool-cases (leb s.incoming_packets (length s.incoming))) [
      | inl h ↦
          let l = length-append (drop 1 s.incoming) (r ∷ []) in
          let d = length-drop 1 s.incoming in
          simp h (record {
            out_room = v.out_room;
            in_room = v.in_room;
            out_bounded = v.out_bounded;
            in_bounded = omega arith;
            sendable = v.sendable;
          })
      | inr h ↦
          let l = length-append s.incoming (r ∷ []) in
          let free : length s.incoming < s.incoming_packets = ground arith in
          simp h (record {
            out_room = v.out_room;
            in_room = v.in_room;
            out_bounded = v.out_bounded;
            in_bounded = omega arith;
            sendable = v.sendable;
          })
    ]

-- A frame that leaves the queue, and what stays in it.
pub next_current-lem :
    (s : Processor) (fs : List EncodedFrame)
    → All IsSendable fs
    → All IsSendable (next_current s fs).1 × (length (next_current s fs).1 ≤ length fs)
unfolding next_current
next_current-lem s [] a = (tt, omega arith)
next_current-lem s (f ∷ fs) a =
    let ih = next_current-lem s fs a.1 in
    elim (Bool-cases (is_current s f)) [
      | inl h ↦ rw h (a.1, omega arith)
      | inr h ↦ rw h (ih.0, let l = ih.1 in omega arith)
    ]

pub next_current-found :
    (s : Processor) (fs : List EncodedFrame) (f : EncodedFrame)
    → All IsSendable fs
    → (next_current s fs).0 ≡ some f
    → IsSendable f × (is_current s f ≡ true)
unfolding next_current
next_current-found s [] f a h = absurd (cc)
next_current-found s (x ∷ fs) f a h = elim (Bool-cases (is_current s x)) [
  | inl b ↦
      let e : some x ≡ some f = rw b at h in
      subst (λ y. IsSendable y × (is_current s y ≡ true)) (some_inj e) (a.0, b)
  | inr b ↦ next_current-found s fs f a.1 (rw b at h)
]
