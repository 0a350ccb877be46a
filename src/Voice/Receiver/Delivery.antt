-- ===== src/Voice/Receiver/Delivery.antt =====
-- The jitter buffers stay valid while batches of frames are delivered.
use gip_multiplayer.Base.{
  ℕ, ◌≡◌, refl, inl, inr, Bool, false, ◌&&◌, ◌||◌, not, List, [], ◌∷◌, some, leb, ◌==◌, length,
  arith, Bool-cases, Option-cases, add64,
}
use gip_multiplayer.Base.Dict.{lookup, update, length-update}
use gip_multiplayer.Voice.Packets.{is_sequence_newer}
use gip_multiplayer.Voice.Receiver.{
  RemoteFrame, Speaker, Counters, Receiver, ReceiverConfig, new_speaker,
}
use gip_multiplayer.Voice.Receiver.Jitter.{
  Verdict, continues, renews, late, duplicate, judge, is_queued, enqueue, note_highest,
  buffer_frame, reset_speaker, store_frame, add_remote_frame, Arrival, process_incoming,
}
use gip_multiplayer.Voice.Receiver.Invariant.{
  IsValid, SpeakerIsValid, Owned, Kept, enqueue-Kept, lookup-AllSpeakers, update-AllSpeakers,
}

-- The frame belongs to the speaker's current stream.
abbrev Matches : RemoteFrame → Speaker → Type 0
Matches f s =
    (f.speaker_generation ≡ s.speaker_generation) × (f.stream_generation ≡ s.stream_generation)

continues-Matches : (f : RemoteFrame) (s : Speaker) → judge f s ≡ continues → Matches f s
unfolding judge
continues-Matches f s h = ground arith

note_highest-IsValid :
    (n k : ℕ) (f : RemoteFrame) (s : Speaker)
    → SpeakerIsValid n k s
    → SpeakerIsValid n k (note_highest f s)
note_highest-IsValid n k f s v = ground arith

stored_frame :
    (n k now : ℕ) (f : RemoteFrame) (s : Speaker) (qs : List RemoteFrame)
    → Kept n (Owned k s.speaker_generation s.stream_generation) qs
    → SpeakerIsValid n k (record (note_highest f s) {
      jitter = qs;
      last_activity = now;
      received_packets = add64 s.received_packets 1;
    })
stored_frame n k now f s qs h =
    elim (Bool-cases (not s.has_highest || is_sequence_newer f.sequence s.highest_sequence)) [
      | inl e ↦ rw e record { bounded = h.bounded; distinct = h.distinct; owned = h.all }
      | inr e ↦ rw e record { bounded = h.bounded; distinct = h.distinct; owned = h.all }
    ]

buffer_frame-IsValid :
    (config : ReceiverConfig) (now : ℕ) (f : RemoteFrame) (s : Speaker) (c : Counters)
    → Matches f s
    → SpeakerIsValid config.jitter_packets f.speaker_id s
    → SpeakerIsValid config.jitter_packets f.speaker_id (buffer_frame config now f s c).0
unfolding buffer_frame
buffer_frame-IsValid config now f s c m v =
    let v' = note_highest-IsValid config.jitter_packets f.speaker_id f s v in
    let k : Kept config.jitter_packets (Owned f.speaker_id s.speaker_generation s.stream_generation)
        s.jitter =
      record { bounded = v.bounded; distinct = v.distinct; all = v.owned } in
    elim (Bool-cases (is_queued f.sequence s.jitter)) [
      | inl repeated ↦ ground (arith)
      | inr fresh ↦ elim (Option-cases (enqueue config.jitter_packets f s.jitter)) [
        | inl refused ↦ ground (arith)
        | inr (qs, taken) ↦
            let stored =
              stored_frame config.jitter_packets f.speaker_id now f s qs (
                enqueue-Kept config.jitter_packets _ f s.jitter qs taken fresh (refl, m.0, m.1)
                  k) in
            ground (arith)
      ]
    ]

store_frame-IsValid :
    (now : ℕ) (f : RemoteFrame) (s : Speaker) (r : Receiver)
    → Matches f s
    → SpeakerIsValid r.config.jitter_packets f.speaker_id s
    → IsValid r
    → IsValid (store_frame now f s r)
unfolding store_frame
store_frame-IsValid now f s r m w v =
    let x = buffer_frame-IsValid r.config now f s r.counters m w in
    let room = v.room in
    record {
      speakers = update-AllSpeakers r.config.jitter_packets f.speaker_id _ r.speakers x v.speakers;
      room = omega (
        arith,
        length-update f.speaker_id (buffer_frame r.config now f s r.counters).0 r.speakers,
      );
    }

reset_speaker-IsValid :
    (n k now : ℕ) (f : RemoteFrame) (s : Speaker) → SpeakerIsValid n k (reset_speaker now f s)
reset_speaker-IsValid n k now f s = record { bounded = omega arith; distinct = tt; owned = tt }

-- Only the counters of a receiver differ.
recount : (r : Receiver) (c : Counters) → IsValid r → IsValid (record r { counters = c })
recount r c v = record { speakers = v.speakers; room = v.room }

-- A frame of a new stream of somebody who is known.
renewed :
    (now : ℕ) (f : RemoteFrame) (s : Speaker) (r : Receiver)
    → IsValid r
    → IsValid (
        store_frame now f
          (reset_speaker now f s)
          (record r { speakers = update f.speaker_id (reset_speaker now f s) r.speakers }))
renewed now f s r v =
    let fresh = reset_speaker-IsValid r.config.jitter_packets f.speaker_id now f s in
    let room = v.room in
    store_frame-IsValid now f (reset_speaker now f s) _ (refl, refl) fresh
      record {
        speakers =
            update-AllSpeakers r.config.jitter_packets f.speaker_id _ r.speakers fresh v.speakers;
        room = omega (arith, length-update f.speaker_id (reset_speaker now f s) r.speakers);
      }

-- A frame of somebody who is not known yet.
opened :
    (now : ℕ) (f : RemoteFrame) (s : Speaker) (r : Receiver)
    → leb r.config.max_speakers (length r.speakers) ≡ false
    → IsValid r
    → IsValid (
        store_frame now f
          (reset_speaker now f s)
          (record r { speakers = (f.speaker_id, reset_speaker now f s) ∷ r.speakers }))
opened now f s r seat v =
    let fresh = reset_speaker-IsValid r.config.jitter_packets f.speaker_id now f s in
    store_frame-IsValid now f (reset_speaker now f s) _ (refl, refl) fresh
      record { speakers = (fresh, v.speakers); room = ground arith }

pub add_remote_frame-IsValid :
    (now : ℕ) (codec : Bool) (f : RemoteFrame) (r : Receiver)
    → IsValid r
    → IsValid (add_remote_frame now codec f r)
unfolding add_remote_frame
add_remote_frame-IsValid now codec f r v = elim (Option-cases (lookup f.speaker_id r.speakers)) [
  | inl h ↦ elim (Bool-cases (leb r.config.max_speakers (length r.speakers))) [
    | inl full ↦ rw (add_remote_frame, h, full) (recount r _ v)
    | inr seat ↦ elim (Bool-cases codec) [
      | inl good ↦
          rw (add_remote_frame, h, seat, good)
            (opened now f (new_speaker now f.speaker_id) r seat v)
      | inr bad ↦ rw (add_remote_frame, h, seat, bad) (recount r _ v)
    ]
  ]
  | inr (s, h) ↦ known s h (judge f s) refl
]
  where
    known :
        (s : Speaker)
        → lookup f.speaker_id r.speakers ≡ some s
        → (w : Verdict) → judge f s ≡ w
        → IsValid (add_remote_frame now codec f r)
    known s h continues j =
        rw (add_remote_frame, h, j)
          (store_frame-IsValid now f s r (continues-Matches f s j)
            (lookup-AllSpeakers r.config.jitter_packets f.speaker_id r.speakers s v.speakers h) v)
    known s h late j = rw (add_remote_frame, h, j) (recount r _ v)
    known s h duplicate j = rw (add_remote_frame, h, j) (recount r _ v)
    known s h renews j = elim (Bool-cases codec) [
      | inl good ↦ rw (add_remote_frame, h, j, good) (renewed now f s r v)
      | inr bad ↦ rw (add_remote_frame, h, j, bad) (recount r _ v)
    ]

-- However the frames of a batch arrive, with whatever generations and sequence numbers: if every
-- jitter buffer is within its capacity, holds no sequence number twice and only frames of its
-- speaker's current stream, and there are at most as many speakers as configured, then so it is
-- after the batch.
pub process_incoming-IsValid :
    (observed : ℕ) (batch : List Arrival) (r : Receiver)
    → IsValid r
    → IsValid (process_incoming observed batch r)
unfolding process_incoming
process_incoming-IsValid observed [] r v = v
process_incoming-IsValid observed (a ∷ rest) r v =
    process_incoming-IsValid observed rest _
      (elim (Bool-cases (
        a.frame.session_epoch == observed
        && (a.frame.session_epoch == a.session_epoch && a.enabled))) [
          | inl live ↦ rw live (add_remote_frame-IsValid a.now a.codec a.frame r v)
          | inr dead ↦ rw dead v
        ])
