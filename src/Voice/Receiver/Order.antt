-- ===== src/Voice/Receiver/Order.antt =====
-- What is fed to the decoder, and that a played frame is not taken again before the speaker's next turn.
-- About `playSpeaker` and `addRemoteFrame` of src/audio/gVoiceAudioProcessor.cpp.
use gip_multiplayer.Base.{
  ℕ, ◌+◌, ◌*◌, ◌^◌, ◌≤◌, ◌<◌, ◌≡◌, refl, sym, ap, ◌∙◌, inl, inr, true, false, ◌&&◌, List, [], ◌∷◌,
  Option, some, ltb, ◌==◌, ◌!=◌, length, All, arith, Bool-cases, Option-cases, some_inj, add32,
}
use gip_multiplayer.Voice.Packets.{is_sequence_newer}
use gip_multiplayer.Voice.Receiver.{
  milliseconds, frame_milliseconds, RemoteFrame, Speaker, Counters, ReceiverConfig,
}
use gip_multiplayer.Voice.Receiver.Jitter.{is_queued, enqueue, buffer_frame, count_late}
use gip_multiplayer.Voice.Receiver.Invariant.{SpeakerIsValid, Distinct, Owned}
use gip_multiplayer.Voice.Receiver.Playout.{
  begin_playout, find_sequence, erase_sequence, decode_next, play_speaker,
}

find_sequence-eq_some :
    (P : RemoteFrame → Type 0) (n : ℕ) (qs : List RemoteFrame) (f : RemoteFrame)
    → find_sequence n qs ≡ some f
    → All P qs
    → (f.sequence ≡ n) × (is_queued n qs ≡ true) × P f
unfolding find_sequence is_queued
find_sequence-eq_some P n [] f h a = absurd (cc)
find_sequence-eq_some P n (q ∷ qs) f h a = elim (Bool-cases (q.sequence == n)) [
  | inl e ↦ let x : q ≡ f = ground arith in rw (← x) (ground arith, ground arith, a.0)
  | inr e ↦
      let ih = find_sequence-eq_some P n qs f (ground arith) a.1 in
      (ih.0, ground (arith, ih.1), ih.2)
]

erase_sequence-All :
    (P : RemoteFrame → Type 0) (n : ℕ) (qs : List RemoteFrame)
    → All P qs
    → All P (erase_sequence n qs)
unfolding erase_sequence
erase_sequence-All P n [] a = tt
erase_sequence-All P n (q ∷ qs) a = ground (arith, erase_sequence-All P n qs a.1)

is_queued-erase :
    (n k : ℕ) (qs : List RemoteFrame)
    → is_queued k qs ≡ false
    → is_queued k (erase_sequence n qs) ≡ false
unfolding erase_sequence is_queued
is_queued-erase n k [] h = refl
is_queued-erase n k (q ∷ qs) h = ground (arith, is_queued-erase n k qs)

erase_sequence-Distinct :
    (n : ℕ) (qs : List RemoteFrame)
    → Distinct qs
    → Distinct (erase_sequence n qs) × (is_queued n (erase_sequence n qs) ≡ false)
unfolding erase_sequence is_queued
erase_sequence-Distinct n [] d = (tt, refl)
erase_sequence-Distinct n (q ∷ qs) d =
    let ih = erase_sequence-Distinct n qs d.1 in
    let g = is_queued-erase n q.sequence qs d.0 in
    elim (Bool-cases (q.sequence == n)) [
      | inl e ↦ let x : q.sequence ≡ n = ground arith in rw e (d.1, rw (← x) d.0)
      | inr e ↦ rw e ((g, ih.0), ground (arith, ih.1))
    ]

length-erase_sequence : (n : ℕ) (qs : List RemoteFrame) → length (erase_sequence n qs) ≤ length qs
unfolding erase_sequence
length-erase_sequence n [] = omega arith
length-erase_sequence n (q ∷ qs) = ground (arith, length-erase_sequence n qs)

found-sequence :
    (n : ℕ) (qs : List RemoteFrame) (f : RemoteFrame) → find_sequence n qs ≡ some f → f.sequence ≡ n
unfolding find_sequence
found-sequence n [] f h = absurd (cc)
found-sequence n (q ∷ qs) f h = elim (Bool-cases (q.sequence == n)) [
  | inl e ↦ let x : q ≡ f = ground arith in rw (← x) (ground arith)
  | inr e ↦ found-sequence n qs f (ground arith)
]

passed : (n m : ℕ) → n < 2 ^ 32 → m ≡ add32 n 1 → is_sequence_newer n m ≡ false
unfolding is_sequence_newer
passed n m h e = rw e (ground arith)

-- Beginning leaves the buffer and the stream alone, and a speaker who plays expects something.
record Begun (s b : Speaker) : Type 0 where
  jitter : b.jitter ≡ s.jitter
  generation : b.speaker_generation ≡ s.speaker_generation
  stream : b.stream_generation ≡ s.stream_generation
  expects : b.has_expected ≡ true
  missing : b.consecutive_missing ≡ s.consecutive_missing

begin_playout-Begun :
    (config : ReceiverConfig) (now : ℕ) (s b : Speaker)
    → (s.playing ≡ true → s.has_expected ≡ true)
    → begin_playout config now s ≡ some b
    → Begun s b
unfolding begin_playout
begin_playout-Begun config now s b p h = elim (Bool-cases s.playing) [
  | inl on ↦
      let x : s ≡ b = ground arith in
      rw (← x)
        record { jitter = refl; generation = refl; stream = refl; expects = p on; missing = refl }
  | inr off ↦ go off s.jitter refl
]
  where
    go : s.playing ≡ false → (js : List RemoteFrame) → s.jitter ≡ js → Begun s b
    go off [] e = absurd (let h' = rw (begin_playout, off, e) at h in ground arith)
    go off (q ∷ rest) e =
        let h' = rw (begin_playout, off, e) at h in
        elim (Bool-cases (
          ltb (length (q ∷ rest)) config.initial_jitter_packets
          && ltb now (
              s.first_arrival
              + milliseconds (frame_milliseconds * config.initial_jitter_packets)))) [
                | inl wait ↦ absurd (let h2 = rw wait at h' in cc)
                | inr start ↦
                    let h2 = rw start at h' in
                    let x = some_inj h2 in
                    rw (← x) record {
                      jitter = refl;
                      generation = refl;
                      stream = refl;
                      expects = refl;
                      missing = refl;
                    }
              ]

-- What playing does to a speaker whose next frame is due and present.
record Played (s : Speaker) (f : RemoteFrame) (t : Speaker) : Type 0 where
  found : find_sequence f.sequence s.jitter ≡ some f
  jitter : t.jitter ≡ erase_sequence f.sequence s.jitter
  generation : t.speaker_generation ≡ s.speaker_generation
  stream : t.stream_generation ≡ s.stream_generation
  expects : t.has_expected ≡ true
  next : t.expected_sequence ≡ add32 f.sequence 1

decode_next-Played :
    (config : ReceiverConfig) (decode : Option RemoteFrame → ℕ) (b : Speaker) (f : RemoteFrame)
    → b.has_expected ≡ true
    → (decode_next config decode b).1 ≡ some (some f)
    → Played b f (decode_next config decode b).0
unfolding decode_next
decode_next-Played config decode b f x h =
    elim (Option-cases (find_sequence b.expected_sequence b.jitter)) [
      | inl e ↦ absurd (let h' = rw (decode_next, e) at h in ground arith)
      | inr (g, e) ↦
          let h' = rw (decode_next, e) at h in
          let same : g ≡ f = some_inj (some_inj h') in
          let m : f.sequence ≡ b.expected_sequence =
            found-sequence b.expected_sequence b.jitter f (e ∙ ap some same) in
          rw (decode_next, e)
            record {
              found = ap (λ n. find_sequence n b.jitter) m ∙ e ∙ ap some same;
              jitter = ap (λ n. erase_sequence n b.jitter) (sym m);
              generation = refl;
              stream = refl;
              expects = x;
              next = ap (λ n. add32 n 1) (sym m);
            }
    ]

-- What is fed to the decoder is decided once the speaker has begun.
play_speaker-begins :
    (config : ReceiverConfig) (now : ℕ) (decode : Option RemoteFrame → ℕ) (s : Speaker)
    (f : RemoteFrame)
    → (s.playing ≡ true → s.has_expected ≡ true)
    → (play_speaker config now decode s).1 ≡ some (some f)
    → (b : Speaker) × Begun s b × (play_speaker config now decode s ≡ decode_next config decode b)
unfolding play_speaker
play_speaker-begins config now decode s f p h = elim (Option-cases (begin_playout config now s)) [
  | inl e ↦ absurd (let h' = rw (play_speaker, e) at h in cc)
  | inr (b, e) ↦ elim (Bool-cases (ltb now b.next_playout)) [
    | inl early ↦ absurd (let h' = rw (play_speaker, e, early) at h in cc)
    | inr due ↦ (b, begin_playout-Begun config now s b p e, rw (play_speaker, e, due) refl)
  ]
]

-- Frames of the speaker's stream that arrive one after the other, each with its time.
unfoldable pub arrive :
    ReceiverConfig → List (ℕ × RemoteFrame) → Speaker → Counters → Speaker × Counters
arrive config [] s c = (s, c)
arrive config ((now, f) ∷ fs) s c =
    let r = buffer_frame config now f s c in arrive config fs r.0 r.1

-- Arrivals leave alone what the speaker expects.
buffer_frame-expects :
    (config : ReceiverConfig) (now : ℕ) (f : RemoteFrame) (s : Speaker) (c : Counters)
    → ((buffer_frame config now f s c).0.has_expected ≡ s.has_expected)
      × ((buffer_frame config now f s c).0.expected_sequence ≡ s.expected_sequence)
unfolding buffer_frame
buffer_frame-expects config now f s c =
    elim (Option-cases (enqueue config.jitter_packets f s.jitter)) [
      | inl e ↦ rw (e, buffer_frame) (ground arith, ground arith)
      | inr (qs, e) ↦ rw (e, buffer_frame) (ground arith, ground arith)
    ]

arrive-expects :
    (config : ReceiverConfig) (fs : List (ℕ × RemoteFrame)) (s : Speaker) (c : Counters)
    → ((arrive config fs s c).0.has_expected ≡ s.has_expected)
      × ((arrive config fs s c).0.expected_sequence ≡ s.expected_sequence)
unfolding arrive
arrive-expects config [] s c = (refl, refl)
arrive-expects config ((now, f) ∷ fs) s c =
    let r = buffer_frame config now f s c in
    let here = buffer_frame-expects config now f s c in
    let ih = arrive-expects config fs r.0 r.1 in (ih.0 ∙ here.0, ih.1 ∙ here.1)

-- A sequence number that was just played is neither expected nor newer.
replay :
    (config : ReceiverConfig) (later : ℕ) (again f : RemoteFrame) (t : Speaker) (c : Counters)
    → again.sequence ≡ f.sequence
    → f.sequence < 2 ^ 32
    → t.has_expected ≡ true
    → t.expected_sequence ≡ add32 f.sequence 1
    → buffer_frame config later again t c ≡ (t, count_late c)
unfolding buffer_frame
replay config later again f t c same u x n =
    let old : is_sequence_newer again.sequence t.expected_sequence ≡ false =
      passed again.sequence t.expected_sequence (rw same u) (n ∙ ap (λ k. add32 k 1) (sym same)) in
    let other : (again.sequence != t.expected_sequence) ≡ true = ground arith in
    simp (buffer_frame, x, other, old)

-- A frame that a valid speaker's decoder is fed was in the jitter buffer and is of the speaker's
-- current stream; then the next sequence number is due, the frame is gone from the buffer, which
-- stays valid; and until the speaker's next turn, whatever frames of the stream are buffered meanwhile,
-- a frame with its sequence number that is to be buffered is counted as late and changes nothing else.
-- The speaker must expect something if it plays already, and the sequence numbers in its buffer must
-- fit 32 bits.
pub play_speaker_once :
    (config : ReceiverConfig) (now later key : ℕ) (decode : Option RemoteFrame → ℕ) (s : Speaker)
    (f again : RemoteFrame) (fs : List (ℕ × RemoteFrame)) (c : Counters)
    → SpeakerIsValid config.jitter_packets key s
    → All (λ q. q.sequence < 2 ^ 32) s.jitter
    → (s.playing ≡ true → s.has_expected ≡ true)
    → (play_speaker config now decode s).1 ≡ some (some f)
    → again.sequence ≡ f.sequence
    → Owned key s.speaker_generation s.stream_generation f
      × (is_queued f.sequence s.jitter ≡ true)
      × ((play_speaker config now decode s).0.expected_sequence ≡ add32 f.sequence 1)
      × (is_queued f.sequence (play_speaker config now decode s).0.jitter ≡ false)
      × SpeakerIsValid config.jitter_packets key (play_speaker config now decode s).0
      × (let r = arrive config fs (play_speaker config now decode s).0 c in
          buffer_frame config later again r.0 r.1 ≡ (r.0, count_late r.1))
play_speaker_once config now later key decode s f again fs c v w p h same =
    let (b, g, e) = play_speaker-begins config now decode s f p h in
    let d = decode_next-Played config decode b f g.expects (rw e at h) in
    let kept = arrive-expects config fs (decode_next config decode b).0 c in
    let found : find_sequence f.sequence s.jitter ≡ some f = rw (← g.jitter) d.found in
    let o =
      find_sequence-eq_some (Owned key s.speaker_generation s.stream_generation) f.sequence s.jitter
        f found v.owned in
    let u = (find_sequence-eq_some (λ q. q.sequence < 2 ^ 32) f.sequence s.jitter f found w).2 in
    let r = erase_sequence-Distinct f.sequence s.jitter v.distinct in
    let after : (decode_next config decode b).0.jitter ≡ erase_sequence f.sequence s.jitter =
      d.jitter ∙ ap (erase_sequence f.sequence) g.jitter in
    rw e (
      o.2,
      o.1,
      d.next,
      rw after r.1,
      record {
        bounded =
            let l = v.bounded in
            rw after (omega (arith, length-erase_sequence f.sequence s.jitter));
        distinct = rw after r.0;
        owned =
            rw (after, d.generation ∙ g.generation, d.stream ∙ g.stream)
              (erase_sequence-All (Owned key s.speaker_generation s.stream_generation) f.sequence
                s.jitter v.owned);
      },
      replay config later again f (arrive config fs (decode_next config decode b).0 c).0
          (arrive config fs (decode_next config decode b).0 c).1 same u (kept.0 ∙ d.expects)
          (kept.1 ∙ d.next),
    )
